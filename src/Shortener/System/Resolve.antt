-- ===== src/Shortener/System/Resolve.antt =====
-- `resolve`, `get` and `delete` (url-shortener/src/application/mod.rs), branch by branch.
use hicho.Common.{
  ℕ, ◌≡◌, ◌⊎◌, inl, inr, refl, true, false, Option, none, some, List, Bytes, bytes_key,
  bytes_eq_refl, arith, Result, ok, err, Option-cases, Bool-cases, ltb, if◌then◌else◌,
}
use hicho.Common.Int.{ℤ, pos}
use hicho.Common.Map.{lookup, remove, modify, lookup-remove, modify_absent}
use hicho.Shortener.Domain.ShortCode.{
  IsCode, parse_accepts, from_trusted, parse_cases, parse-ok, not_accepted,
}
use hicho.Shortener.Domain.TargetUrl
use hicho.Shortener.Domain.TargetUrl.{TargetUrl}
use hicho.Shortener.Domain.Link.{Link, is_expired}
use hicho.Shortener.Memory.{Links, dispatch, add_hits}
use hicho.Cache.{Cache}
use hicho.Clock.{now_unix}
use hicho.Shortener.Service.{
  ServiceError, not_found, resolve, resolve_uncached, get, delete, cache_ttl_secs,
}
use hicho.Shortener.System.{World, with_cache}
use hicho.Cache.Lawful.{Lawful}

abbrev world : {C : Type 0} → Links → C → World C
world m s = record { links = some m; cached = s }

abbrev IsExpiredIn : Bytes → ℤ → Links → Type 0
IsExpiredIn raw now m = elim (lookup raw m) [ none ↦ ⊥ | some l ↦ is_expired l now ≡ true ]

-- `resolve` offers a link to the cache unless its time to live is zero.
abbrev fill : {C : Type 0} → Cache C → Bytes → Link → ℤ → C → C
fill c raw l later s =
    let ttl = cache_ttl_secs l later in if ltb 0 ttl then c.set raw l.target.as_str ttl s else s

module _ {C : Type 0} where
  -- What `get` answers for a code, and the world it leaves.
  abbrev pub Gets : Bytes → ℤ → Links → C → Result ServiceError Link × World C → Type 0
  Gets raw now m s (ok l, w) =
      IsCode raw × (lookup raw m ≡ some l) × (is_expired l now ≡ false) × (w ≡ world m s)
  Gets raw now m s (err not_found, w) =
      ((w ≡ world m s) × ((lookup raw m ≡ none) ⊎ ¬ IsCode raw))
      ⊎ ((w ≡ world (remove raw m) s) × IsExpiredIn raw now m)
  Gets raw now m s (err _, w) = ⊥

  -- On a running store `get` answers with the stored link exactly if the code is well formed and
  -- the link is there and has not expired. Else it gives `not_found`, after taking an expired
  -- link out of the store; nothing else changes.
  pub get-Gets :
      (c : Cache C) (hosts : List Bytes) (raw : Bytes) (now : Option ℕ) (m : Links) (s : C)
      → Gets raw (now_unix now) m s (get (with_cache hosts c) raw now (world m s))
  unfolding get dispatch
  get-Gets c hosts raw now m s = elim (parse_cases raw) [
    | inl p ↦ ground (arith, parse-ok raw (from_trusted raw) p)
    | inr (e, p) ↦ ground (arith, not_accepted raw e p)
  ]

  -- What `resolve` answers past the cache, and the world that it leaves.
  abbrev pub Resolves :
      Cache C → Bytes → ℤ → ℤ → Links → C → Result ServiceError TargetUrl × World C → Type 0
  Resolves c raw now later m s (ok t, w) =
      (l : Link) × (lookup raw m ≡ some l)
      × (is_expired l now ≡ false)
      × (t ≡ l.target)
      × (w ≡ world (modify raw (add_hits (pos 1)) m) (fill c raw l later s))
  Resolves c raw now later m s (err not_found, w) =
      ((w ≡ world m s) × (lookup raw m ≡ none))
      ⊎ ((w ≡ world (remove raw m) (c.delete raw s)) × IsExpiredIn raw now m)
  Resolves c raw now later m s (err _, w) = ⊥

  pub resolve_uncached-Resolves :
      (c : Cache C) (hosts : List Bytes) (raw : Bytes) (now later : Option ℕ) (m : Links) (s : C)
      → Resolves c raw
          (now_unix now)
          (now_unix later)
          m
          s
          (resolve_uncached (with_cache hosts c) (from_trusted raw) now later (world m s))
  unfolding resolve_uncached dispatch
  resolve_uncached-Resolves c hosts raw now later m s = elim (Option-cases (lookup raw m)) [
    | inl missing ↦ ground arith
    | inr (l, found) ↦ elim (Bool-cases (is_expired l (now_unix now))) [
      | inl old ↦ ground arith
      | inr live ↦ rw (found, live) (l, found, live, refl, ground arith)
    ]
  ]

  -- What `resolve` answers, given what the cache says.
  abbrev pub ResolvesVia :
      Cache C
      → Bytes
      → ℤ
      → ℤ
      → Links
      → Option Bytes
      → C
      → Result ServiceError TargetUrl × World C
      → Type 0
  ResolvesVia c raw now later m none s r = Resolves c raw now later m s r
  ResolvesVia c raw now later m (some t) s r =
      r ≡ (ok (TargetUrl.from_trusted t), world (modify raw (add_hits (pos 1)) m) s)

  -- On a running store `resolve` of a well formed code answers with the cached target if the cache
  -- has one. Else it answers with the target of the stored link if that has not expired, and offers
  -- it to the cache; or it gives `not_found`, and takes an expired link out of the store and the
  -- cache. Each target that is served adds one hit to the stored link, and no other link changes.
  pub resolve-ResolvesVia :
      (c : Cache C) (hosts : List Bytes) (raw : Bytes) (now later : Option ℕ) (m : Links) (s : C)
      → IsCode raw
      → ResolvesVia c raw
          (now_unix now)
          (now_unix later)
          m
          (c.get raw s).0
          (c.get raw s).1
          (resolve (with_cache hosts c) raw now later (world m s))
  unfolding resolve
  resolve-ResolvesVia c hosts raw now later m s v = elim (Option-cases (c.get raw s).0) [
    | inl miss ↦
        rw (parse_accepts raw v, miss)
          (resolve_uncached-Resolves c hosts raw now later m (c.get raw s).1)
    | inr (t, hit) ↦
        rw (parse_accepts raw v, hit)
          (unfold dispatch in ground (arith, modify_absent raw (add_hits (pos 1)) m))
  ]

  -- A code that is not well formed is not found, and nothing changes.
  pub malformed_not_found :
      (c : Cache C) (hosts : List Bytes) (raw : Bytes) (now later : Option ℕ) (w : World C)
      → ¬ IsCode raw
      → (resolve (with_cache hosts c) raw now later w ≡ (err not_found, w))
        × (get (with_cache hosts c) raw now w ≡ (err not_found, w))
        × (delete (with_cache hosts c) raw w ≡ (err not_found, w))
  unfolding resolve get delete
  malformed_not_found c hosts raw now later w bad = elim (parse_cases raw) [
    | inl p ↦ absurd (bad (parse-ok raw (from_trusted raw) p).1)
    | inr (e, p) ↦ (ground arith, ground arith, ground arith)
  ]

  -- After a `delete` of a well formed code, whatever it answered, on a running store: `resolve`,
  -- `get` and `delete` of it give `not_found`, at any time and with any cache that drops what is deleted.
  pub deleted_not_found :
      {c : Cache C} (law : Lawful c) (hosts : List Bytes) (raw : Bytes) (now later : Option ℕ)
      (m : Links) (s : C)
      → IsCode raw
      → let w = (delete (with_cache hosts c) raw (world m s)).1 in
        ((resolve (with_cache hosts c) raw now later w).0 ≡ err not_found)
        × ((get (with_cache hosts c) raw now w).0 ≡ err not_found)
        × ((delete (with_cache hosts c) raw w).0 ≡ err not_found)
  unfolding resolve get delete dispatch resolve_uncached
  deleted_not_found {c} law hosts raw now later m s v =
      let gone = lookup-remove raw raw m in
      let same = bytes_eq_refl raw in
      (
        ground (
          arith,
          parse_accepts raw v,
          gone,
          same,
          law.got raw (c.delete raw s),
          law.after_delete raw raw s,
        ),
        ground (arith, parse_accepts raw v, gone, same),
        ground (arith, parse_accepts raw v, gone, same),
      )

  -- `delete` takes exactly the link of the code out of the store, and says whether there was one.
  pub delete-removes :
      (c : Cache C) (hosts : List Bytes) (raw : Bytes) (m : Links) (s : C)
      → IsCode raw
      → delete (with_cache hosts c) raw (world m s) ≡ (
        elim (lookup raw m) [ none ↦ err not_found | some l ↦ ok tt ],
        world (remove raw m) (c.delete raw s),
      )
  unfolding delete dispatch
  delete-removes c hosts raw m s v = ground (arith, parse_accepts raw v)
