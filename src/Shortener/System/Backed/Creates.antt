-- ===== src/Shortener/System/Backed/Creates.antt =====
-- `create` keeps every cached target equal to the stored one (url-shortener/src/application/mod.rs).
use hicho.Common.{
  ℕ, zero, suc, Result-cases, Option, none, some, List, Bytes, bytes_key, arith, inl, inr,
}
use hicho.Common.Int.{ℤ}
use hicho.Cache.{Cache}
use hicho.Cache.Lawful.{Lawful}
use hicho.Clock.{expiry, now_unix}
use hicho.Codes.{generate_code, max_generation_attempts}
use hicho.Shortener.Domain.ShortCode.{from_trusted, parse_cases}
use hicho.Shortener.Domain.Link.{LinkRepository, with_expiry}
use hicho.Shortener.Domain.TargetUrl
use hicho.Shortener.Domain.TargetUrl.{UrlCrate, TargetUrl}
use hicho.Shortener.Service.{generated_code_len, attempts, create_at, create}
use hicho.Shortener.System.Backed.{World, with_cache, TargetStore}
use hicho.Shortener.System.Backed.Calls.{world, AgreesAt, Agrees, everywhere}

module _ {D C : Type 0} {repo : LinkRepository D} {c : Cache C} (law : Lawful c)
    {IsSound : D → Type 0} {target_of : Bytes → D → Option Bytes}
    (keeps : TargetStore repo IsSound target_of) where
  module _ (blocked : List Bytes) (k t : Bytes) where
    attempts-AgreesAt :
        (url : UrlCrate) (n : ℕ) (draws : ℕ → ℕ → ℕ) (target : TargetUrl) (at : ℤ)
        (expires : Option ℤ) (d : D) (s : C)
        → AgreesAt law keeps k t (world law keeps d s)
        → AgreesAt law keeps k t
            (attempts url
              (with_cache repo blocked c)
              n
              draws
              target
              at
              expires
              (world law keeps d s)).1
    unfolding attempts
    attempts-AgreesAt url zero draws target at expires d s h = h
    attempts-AgreesAt url (suc n) draws target at expires d s h =
        let code = generate_code generated_code_len (draws n) in
        let link = with_expiry (from_trusted code) target at expires in
        ground (
          arith,
          keeps.insert_sound link d h.0,
          keeps.insert_keeps link k t d h.0,
          attempts-AgreesAt url n draws target at expires (repo.insert link d).1 s,
        )

    create_at-AgreesAt :
        (url : UrlCrate) (draws : ℕ → ℕ → ℕ) (target : TargetUrl) (alias : Option Bytes) (at : ℤ)
        (expires : Option ℤ) (d : D) (s : C)
        → AgreesAt law keeps k t (world law keeps d s)
        → AgreesAt law keeps k t
            (create_at url
              (with_cache repo blocked c)
              target
              alias
              at
              expires
              draws
              (world law keeps d s)).1
    unfolding create_at
    create_at-AgreesAt url draws target none at expires d s h =
        attempts-AgreesAt url max_generation_attempts draws target at expires d s h
    create_at-AgreesAt url draws target (some alias) at expires d s h =
        let link = with_expiry (from_trusted alias) target at expires in
        ground (
          arith,
          parse_cases alias,
          keeps.insert_sound link d h.0,
          keeps.insert_keeps link k t d h.0,
        )

    create-AgreesAt :
        (url : UrlCrate) (raw : Bytes) (alias : Option Bytes) (ttl now : Option ℕ)
        (draws : ℕ → ℕ → ℕ) (d : D) (s : C)
        → AgreesAt law keeps k t (world law keeps d s)
        → AgreesAt law keeps k t
            (create url (with_cache repo blocked c) raw alias ttl now draws (world law keeps d s)).1
    unfolding create
    create-AgreesAt url raw alias ttl now draws d s h =
        elim (Result-cases (TargetUrl.parse url raw)) [
          | inl (target, p) ↦ ground (
            arith,
            create_at-AgreesAt url draws target alias (now_unix now) (expiry (now_unix now) ttl) d s
                h,
          )
          | inr (e, p) ↦ ground arith
        ]

  module _ (blocked : List Bytes) where
    pub create-Agrees :
        (url : UrlCrate) (raw : Bytes) (alias : Option Bytes) (ttl now : Option ℕ)
        (draws : ℕ → ℕ → ℕ) (w : World D C)
        → Agrees law keeps w
        → Agrees law keeps (create url (with_cache repo blocked c) raw alias ttl now draws w).1
    create-Agrees url raw alias ttl now draws w h =
        everywhere law keeps blocked w _ h
          (λ k t. create-AgreesAt blocked k t url raw alias ttl now draws w.store w.cached)
