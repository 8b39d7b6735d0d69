-- ===== src/Shortener/System/Backed/Calls.antt =====
-- Each call of the service keeps every cached target equal to the stored one
-- (url-shortener/src/application/mod.rs with cache.rs).
use hicho.Common.{
  ℕ, false, Result-cases, ◌≡◌, Option, some, List, [], Bytes, bytes_eq_iff, bytes_key, arith,
  Option-cases, Bool-cases, inl, inr, ok,
}
use hicho.Common.Int.{pos}
use hicho.Cache.{Cache}
use hicho.Cache.Lawful.{Lawful}
use hicho.Clock.{now_unix}
use hicho.Shortener.Domain.ShortCode.{from_trusted, parse_cases}
use hicho.Shortener.Domain.Link.{Link, LinkRepository, is_expired}
use hicho.Shortener.Domain.TargetUrl.{TargetUrl}
use hicho.Shortener.Service.{resolve, resolve_uncached, delete, get, cache_ttl_secs}
use hicho.Shortener.System.Backed.{World, with_cache, TargetStore}

module _ {D C : Type 0} {repo : LinkRepository D} {c : Cache C} (law : Lawful c)
    {IsSound : D → Type 0} {target_of : Bytes → D → Option Bytes}
    (keeps : TargetStore repo IsSound target_of) where
  abbrev pub world : D → C → World D C
  world d s = record { store = d; cached = s }

  -- The repository is sound, and a cached target is the stored one, at one code and target.
  abbrev pub AgreesAt : Bytes → Bytes → World D C → Type 0
  AgreesAt k t w = IsSound w.store × (law.holds w.cached k ≡ some t → target_of k w.store ≡ some t)

  -- The same at all.
  abbrev pub Agrees : World D C → Type 0
  Agrees w =
      IsSound w.store
      × ((k t : Bytes) → law.holds w.cached k ≡ some t → target_of k w.store ≡ some t)

  module _ (blocked : List Bytes) (k t : Bytes) where
    -- `resolve` past the cache, at a link that the repository gives
    found-AgreesAt :
        (raw : Bytes) (now later : Option ℕ) (d : D) (s : C) (l : Link)
        → AgreesAt k t (world d s)
        → (repo.get (from_trusted raw) d).0 ≡ ok (some l)
        → AgreesAt k t
            (resolve_uncached
              (with_cache repo blocked c)
              (from_trusted raw)
              now
              later
              (world d s)).1
    unfolding resolve_uncached
    found-AgreesAt raw now later d s l h got =
        let d' = (repo.get (from_trusted raw) d).1 in
        let sound = keeps.get_sound (from_trusted raw) d h.0 in
        elim (Bool-cases (is_expired l (now_unix now))) [
          | inl late ↦ ground (
            arith,
            bytes_eq_iff raw k,
            keeps.get_same (from_trusted raw) k d h.0,
            keeps.delete_sound (from_trusted raw) d' sound,
            keeps.delete_others (from_trusted raw) k d' sound,
            law.after_delete raw k s,
          )
          | inr fresh ↦ ground (
            arith,
            bytes_eq_iff raw k,
            keeps.get_same (from_trusted raw) k d h.0,
            keeps.get_target (from_trusted raw) d l h.0 got,
            keeps.add_sound (from_trusted raw) (pos 1) d' sound,
            keeps.add_same (from_trusted raw) (pos 1) k d' sound,
            law.after_set raw k l.target.as_str (cache_ttl_secs l (now_unix later)) s,
          )
        ]

    uncached-AgreesAt :
        (raw : Bytes) (now later : Option ℕ) (d : D) (s : C)
        → AgreesAt k t (world d s)
        → AgreesAt k t
            (resolve_uncached
              (with_cache repo blocked c)
              (from_trusted raw)
              now
              later
              (world d s)).1
    uncached-AgreesAt raw now later d s h = elim (Result-cases (repo.get (from_trusted raw) d).0) [
      | inr (e, failed) ↦
          unfold resolve_uncached in
          ground (
            arith,
            keeps.get_sound (from_trusted raw) d h.0,
            keeps.get_same (from_trusted raw) k d h.0,
          )
      | inl (answer, got) ↦ elim (Option-cases answer) [
        | inl missing ↦
            unfold resolve_uncached in
            ground (
              arith,
              keeps.get_sound (from_trusted raw) d h.0,
              keeps.get_same (from_trusted raw) k d h.0,
            )
        | inr (l, there) ↦ found-AgreesAt raw now later d s l h (ground arith)
      ]
    ]

    resolve-AgreesAt :
        (raw : Bytes) (now later : Option ℕ) (d : D) (s : C)
        → AgreesAt k t (world d s)
        → AgreesAt k t (resolve (with_cache repo blocked c) raw now later (world d s)).1
    unfolding resolve
    resolve-AgreesAt raw now later d s h = ground (
      arith,
      parse_cases raw,
      law.after_get raw k s,
      keeps.add_sound (from_trusted raw) (pos 1) d h.0,
      keeps.add_same (from_trusted raw) (pos 1) k d h.0,
      uncached-AgreesAt raw now later d (c.get raw s).1,
    )

    delete-AgreesAt :
        (raw : Bytes) (d : D) (s : C)
        → AgreesAt k t (world d s)
        → AgreesAt k t (delete (with_cache repo blocked c) raw (world d s)).1
    unfolding delete
    delete-AgreesAt raw d s h = elim (Result-cases (repo.delete (from_trusted raw) d).0) [
      | inr (e, failed) ↦ ground (
        arith,
        parse_cases raw,
        keeps.delete_sound (from_trusted raw) d h.0,
        keeps.delete_failed (from_trusted raw) k d e h.0 failed,
      )
      | inl (removed, done) ↦ ground (
        arith,
        parse_cases raw,
        bytes_eq_iff raw k,
        keeps.delete_sound (from_trusted raw) d h.0,
        keeps.delete_others (from_trusted raw) k d h.0,
        law.after_delete raw k s,
      )
    ]

    -- `get` of a link that has not expired
    get-AgreesAt :
        (raw : Bytes) (now : Option ℕ) (d : D) (s : C)
        → ((l : Link)
            → (repo.get (from_trusted raw) d).0 ≡ ok (some l)
            → is_expired l (now_unix now) ≡ false)
        → AgreesAt k t (world d s)
        → AgreesAt k t (get (with_cache repo blocked c) raw now (world d s)).1
    unfolding get
    get-AgreesAt raw now d s live h = elim (Result-cases (repo.get (from_trusted raw) d).0) [
      | inr (e, failed) ↦ ground (
        arith,
        parse_cases raw,
        keeps.get_sound (from_trusted raw) d h.0,
        keeps.get_same (from_trusted raw) k d h.0,
      )
      | inl (answer, got) ↦ elim (Option-cases answer) [
        | inl missing ↦ ground (
          arith,
          parse_cases raw,
          keeps.get_sound (from_trusted raw) d h.0,
          keeps.get_same (from_trusted raw) k d h.0,
        )
        | inr (l, there) ↦ ground (
          arith,
          parse_cases raw,
          keeps.get_sound (from_trusted raw) d h.0,
          keeps.get_same (from_trusted raw) k d h.0,
          live l,
        )
      ]
    ]

  module _ (blocked : List Bytes) where
    -- An invariant at each code and target is one of the world.
    pub everywhere :
        (w w' : World D C)
        → Agrees w
        → ((k t : Bytes) → AgreesAt k t w → AgreesAt k t w')
        → Agrees w'
    everywhere w w' h step = ((step [] [] (h.0, h.1 [] [])).0, λ k t. (step k t (h.0, h.1 k t)).1)

    pub resolve-Agrees :
        (raw : Bytes) (now later : Option ℕ) (w : World D C)
        → Agrees w
        → Agrees (resolve (with_cache repo blocked c) raw now later w).1
    resolve-Agrees raw now later w h =
        everywhere w _ h (λ k t. resolve-AgreesAt blocked k t raw now later w.store w.cached)

    pub delete-Agrees :
        (raw : Bytes) (w : World D C)
        → Agrees w
        → Agrees (delete (with_cache repo blocked c) raw w).1
    delete-Agrees raw w h =
        everywhere w _ h (λ k t. delete-AgreesAt blocked k t raw w.store w.cached)

    pub get-Agrees :
        (raw : Bytes) (now : Option ℕ) (w : World D C)
        → ((l : Link)
            → (repo.get (from_trusted raw) w.store).0 ≡ ok (some l)
            → is_expired l (now_unix now) ≡ false)
        → Agrees w
        → Agrees (get (with_cache repo blocked c) raw now w).1
    get-Agrees raw now w live h =
        everywhere w _ h (λ k t. get-AgreesAt blocked k t raw now w.store w.cached live)

    -- What `resolve` serves, of a world that agrees.
    pub resolve-target :
        (raw : Bytes) (now later : Option ℕ) (w : World D C) (target : TargetUrl)
        → Agrees w
        → (resolve (with_cache repo blocked c) raw now later w).0 ≡ ok target
        → target_of raw w.store ≡ some target.as_str
    unfolding resolve resolve_uncached
    resolve-target raw now later w target h e =
        elim (Result-cases (repo.get (from_trusted raw) w.store).0) [
          | inr (x, failed) ↦
              ground (arith, parse_cases raw, law.got raw w.cached, h.1 raw target.as_str)
          | inl (answer, got) ↦ elim (Option-cases answer) [
            | inl missing ↦
                ground (arith, parse_cases raw, law.got raw w.cached, h.1 raw target.as_str)
            | inr (l, there) ↦ ground (
              arith,
              parse_cases raw,
              law.got raw w.cached,
              h.1 raw target.as_str,
              keeps.get_target (from_trusted raw) w.store l h.0,
            )
          ]
        ]
