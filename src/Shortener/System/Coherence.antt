-- ===== src/Shortener/System/Coherence.antt =====
-- A cached target is the stored one (url-shortener/src/application/mod.rs with cache.rs).
use hicho.Common.{
  ℕ, zero, suc, false, Result-cases, ◌≡◌, Option, none, some, List, Bytes, bytes_eq_iff, bytes_key,
  arith, Option-cases, inl, inr,
}
use hicho.Common.Map.{lookup, lookup-insert, lookup-remove, lookup-modify}
use hicho.Shortener.Domain.ShortCode.{parse_cases}
use hicho.Shortener.Domain.Link.{Link, with_expiry, is_expired}
use hicho.Common.Int.{ℤ, pos}
use hicho.Shortener.Domain.TargetUrl
use hicho.Shortener.Domain.TargetUrl.{UrlCrate, TargetUrl}
use hicho.Shortener.Domain.ShortCode.{from_trusted}
use hicho.Shortener.Memory.{InMemoryLinkRepository, Links, dispatch, add_hits}
use hicho.Cache.{Cache}
use hicho.Codes.{generate_code, max_generation_attempts}
use hicho.Clock.{expiry, now_unix}
use hicho.Shortener.Service.{
  generated_code_len, attempts, create_at, resolve, resolve_uncached, delete, create, get,
  cache_ttl_secs,
}
use hicho.Shortener.System.{World, with_cache}
use hicho.Cache.Lawful.{Lawful}

abbrev target_in : Bytes → Links → Option Bytes
target_in k m = elim (lookup k m) [ none ↦ none | some l ↦ some l.target.as_str ]

-- A stopped repository knows no target.
abbrev pub stored_target : Bytes → InMemoryLinkRepository → Option Bytes
stored_target k none = none
stored_target k (some m) = target_in k m

-- The link is missing, or has not expired.
abbrev pub IsLive : Bytes → ℤ → InMemoryLinkRepository → Type 0
IsLive raw now none = Unit
IsLive raw now (some m) = elim (lookup raw m) [
  | none ↦ Unit {0}
  | some l ↦ is_expired l now ≡ false
]

module _ {C : Type 0} {c : Cache C} (law : Lawful c) where
  abbrev world : InMemoryLinkRepository → C → World C
  world m s = record { links = m; cached = s }

  -- Each cached target is the one in the repository.
  abbrev pub IsCoherent : World C → Type 0
  IsCoherent w = (k t : Bytes) → law.holds w.cached k ≡ some t → stored_target k w.links ≡ some t

  -- The same of one key.
  abbrev CoherentAt : Bytes → Bytes → World C → Type 0
  CoherentAt k t w = law.holds w.cached k ≡ some t → stored_target k w.links ≡ some t

  module _ (blocked : List Bytes) (k t : Bytes) where
    -- what a `resolve` past the cache leaves, at a link that it finds
    resolve_found :
        (raw : Bytes) (now later : Option ℕ) (m : Links) (s : C) (l : Link)
        → CoherentAt k t (world (some m) s)
        → lookup raw m ≡ some l
        → CoherentAt k t
            (resolve_uncached
              (with_cache blocked c)
              (from_trusted raw)
              now
              later
              (world (some m) s)).1
    unfolding resolve_uncached dispatch
    resolve_found raw now later m s l h f = ground (
      arith,
      bytes_eq_iff raw k,
      lookup-modify raw k (add_hits (pos 1)) m,
      lookup-remove raw k m,
      law.after_delete raw k s,
      law.after_set raw k l.target.as_str (cache_ttl_secs l (now_unix later)) s,
    )

    resolve_uncached-CoherentAt :
        (raw : Bytes) (now later : Option ℕ) (links : InMemoryLinkRepository) (s : C)
        → CoherentAt k t (world links s)
        → CoherentAt k t
            (resolve_uncached (with_cache blocked c) (from_trusted raw) now later (world links s)).1
    resolve_uncached-CoherentAt raw now later none s h =
        unfold resolve_uncached dispatch in ground arith
    resolve_uncached-CoherentAt raw now later (some m) s h = elim (Option-cases (lookup raw m)) [
      | inl missing ↦ unfold resolve_uncached dispatch in ground arith
      | inr (l, found) ↦ resolve_found raw now later m s l h found
    ]

    record_hit-CoherentAt :
        (raw : Bytes) (links : InMemoryLinkRepository) (s : C)
        → CoherentAt k t (world links s)
        → CoherentAt k t ((with_cache blocked c).hits.record_hit (from_trusted raw) (world links s))
    unfolding dispatch
    record_hit-CoherentAt raw none s h = h
    record_hit-CoherentAt raw (some m) s h =
        ground (arith, bytes_eq_iff raw k, lookup-modify raw k (add_hits (pos 1)) m)

    after_get-CoherentAt :
        (raw : Bytes) (links : InMemoryLinkRepository) (s : C)
        → CoherentAt k t (world links s)
        → CoherentAt k t (world links (c.get raw s).1)
    after_get-CoherentAt raw links s h = ground (arith, law.after_get raw k s)

    resolve-CoherentAt :
        (raw : Bytes) (now later : Option ℕ) (links : InMemoryLinkRepository) (s : C)
        → CoherentAt k t (world links s)
        → CoherentAt k t (resolve (with_cache blocked c) raw now later (world links s)).1
    unfolding resolve
    resolve-CoherentAt raw now later links s h = ground (
      arith,
      parse_cases raw,
      after_get-CoherentAt raw links s h,
      record_hit-CoherentAt raw links (c.get raw s).1,
      resolve_uncached-CoherentAt raw now later links (c.get raw s).1,
    )

    delete-CoherentAt :
        (raw : Bytes) (links : InMemoryLinkRepository) (s : C)
        → CoherentAt k t (world links s)
        → CoherentAt k t (delete (with_cache blocked c) raw (world links s)).1
    unfolding delete dispatch
    delete-CoherentAt raw none s h = ground (arith, parse_cases raw)
    delete-CoherentAt raw (some m) s h = ground (
      arith,
      parse_cases raw,
      bytes_eq_iff raw k,
      law.after_delete raw k s,
      lookup-remove raw k m,
    )

    attempts-CoherentAt :
        (url : UrlCrate) (n : ℕ) (draws : ℕ → ℕ → ℕ) (target : TargetUrl) (at : ℤ)
        (expires : Option ℤ) (links : InMemoryLinkRepository) (s : C)
        → CoherentAt k t (world links s)
        → CoherentAt k t
            (attempts url (with_cache blocked c) n draws target at expires (world links s)).1
    unfolding attempts dispatch with_expiry
    attempts-CoherentAt url zero draws target at expires links s h = h
    attempts-CoherentAt url (suc n) draws target at expires none s h = h
    attempts-CoherentAt url (suc n) draws target at expires (some m) s h =
        let code = generate_code generated_code_len (draws n) in
        ground (
          arith,
          bytes_eq_iff code k,
          lookup-insert code k (with_expiry (from_trusted code) target at expires) m,
          attempts-CoherentAt url n draws target at expires (some m) s h,
        )

    insert-CoherentAt :
        (link : Link) (links : InMemoryLinkRepository) (s : C)
        → CoherentAt k t (world links s)
        → CoherentAt k t ((with_cache blocked c).repo.insert link (world links s)).1
    unfolding dispatch
    insert-CoherentAt link none s h = h
    insert-CoherentAt link (some m) s h =
        ground (arith, bytes_eq_iff link.code.as_str k, lookup-insert link.code.as_str k link m)

    create_at-CoherentAt :
        (url : UrlCrate) (draws : ℕ → ℕ → ℕ) (target : TargetUrl) (alias : Option Bytes) (at : ℤ)
        (expires : Option ℤ) (links : InMemoryLinkRepository) (s : C)
        → CoherentAt k t (world links s)
        → CoherentAt k t
            (create_at url (with_cache blocked c) target alias at expires draws (world links s)).1
    unfolding create_at with_expiry
    create_at-CoherentAt url draws target none at expires links s h =
        attempts-CoherentAt url max_generation_attempts draws target at expires links s h
    create_at-CoherentAt url draws target (some alias) at expires links s h = ground (
      arith,
      parse_cases alias,
      insert-CoherentAt (with_expiry (from_trusted alias) target at expires) links s h,
    )

    create-CoherentAt :
        (url : UrlCrate) (raw : Bytes) (alias : Option Bytes) (ttl now : Option ℕ)
        (draws : ℕ → ℕ → ℕ) (links : InMemoryLinkRepository) (s : C)
        → CoherentAt k t (world links s)
        → CoherentAt k t
            (create url (with_cache blocked c) raw alias ttl now draws (world links s)).1
    unfolding create
    create-CoherentAt url raw alias ttl now draws links s h =
        elim (Result-cases (TargetUrl.parse url raw)) [
          | inl (target, p) ↦ ground (
            arith,
            create_at-CoherentAt url draws target alias (now_unix now) (expiry (now_unix now) ttl)
                links s h,
          )
          | inr (e, p) ↦ ground arith
        ]

    -- `get` of a link that has not expired
    get-CoherentAt :
        (raw : Bytes) (now : Option ℕ) (links : InMemoryLinkRepository) (s : C)
        → IsLive raw (now_unix now) links
        → CoherentAt k t (world links s)
        → CoherentAt k t (get (with_cache blocked c) raw now (world links s)).1
    unfolding get dispatch
    get-CoherentAt raw now none s live h = ground (arith, parse_cases raw)
    get-CoherentAt raw now (some m) s live h = ground (arith, parse_cases raw)

  module _ (blocked : List Bytes) where
    -- `resolve` keeps every cached target equal to the stored one, whatever it answers.
    pub resolve-IsCoherent :
        (raw : Bytes) (now later : Option ℕ) (w : World C)
        → IsCoherent w
        → IsCoherent (resolve (with_cache blocked c) raw now later w).1
    resolve-IsCoherent raw now later w h k t =
        resolve-CoherentAt blocked k t raw now later w.links w.cached (h k t)

    pub delete-IsCoherent :
        (raw : Bytes) (w : World C)
        → IsCoherent w
        → IsCoherent (delete (with_cache blocked c) raw w).1
    delete-IsCoherent raw w h k t = delete-CoherentAt blocked k t raw w.links w.cached (h k t)

    pub create-IsCoherent :
        (url : UrlCrate) (raw : Bytes) (alias : Option Bytes) (ttl now : Option ℕ)
        (draws : ℕ → ℕ → ℕ) (w : World C)
        → IsCoherent w
        → IsCoherent (create url (with_cache blocked c) raw alias ttl now draws w).1
    create-IsCoherent url raw alias ttl now draws w h k t =
        create-CoherentAt blocked k t url raw alias ttl now draws w.links w.cached (h k t)

    pub get-IsCoherent :
        (raw : Bytes) (now : Option ℕ) (w : World C)
        → IsLive raw (now_unix now) w.links
        → IsCoherent w
        → IsCoherent (get (with_cache blocked c) raw now w).1
    get-IsCoherent raw now w live h k t =
        get-CoherentAt blocked k t raw now w.links w.cached live (h k t)
