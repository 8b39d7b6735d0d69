-- ===== src/Shortener/Service/OverStore.antt =====
-- `LinkService::create` (url-shortener/src/application/mod.rs) over any repository that
-- refines the reference store.
use hicho.Common.{
  ℕ, zero, suc, ◌≡◌, ◌⊎◌, inl, inr, refl, Option, none, some, Bytes, List, Result, ok, err, true,
  false, arith, Option-cases, Bool-cases, Result-cases,
}
use hicho.Common.Int.{ℤ}
use hicho.Codes.{generate_code, max_generation_attempts}
use hicho.Clock.{now_unix, expiry}
use hicho.Shortener.Domain.Errors.{BoxedError, RepoError, ValidationError}
use hicho.Shortener.Domain.ShortCode.{ShortCode}
use hicho.Shortener.Domain.ShortCode
use hicho.Shortener.Domain.TargetUrl.{UrlCrate, TargetUrl}
use hicho.Shortener.Domain.TargetUrl
use hicho.Shortener.Domain.Link.{Link, with_expiry}
use hicho.Shortener.Contract.{Call, Store, IsLinkStore}
use hicho.Sqlx.{update}
use hicho.Shortener.Service.Code.{generated_code_len}
use hicho.Shortener.Service.Defs.{
  ServiceError, LinkService, attempts, create_at, create, host_blocked,
}

abbrev candidate : ℕ → (ℕ → ℕ → ℕ) → TargetUrl → ℤ → Option ℤ → Link
candidate n draws target at exp =
    with_expiry (ShortCode.from_trusted (generate_code generated_code_len (draws n))) target at exp

-- One attempt of `create`, by the answer of `insert`.
module _ {W : Type 0} (url : UrlCrate) (s : LinkService W) (n : ℕ) (draws : ℕ → ℕ → ℕ)
    (target : TargetUrl) (at : ℤ) (exp : Option ℤ) (w : W) where
  attempt_down :
      (cause : BoxedError)
      → (s.repo.insert (candidate n draws target at exp) w).0 ≡ err (RepoError.backend cause)
      → attempts url s (suc n) draws target at exp w
        ≡ (err (ServiceError.backend cause), (s.repo.insert (candidate n draws target at exp) w).1)
  unfolding attempts
  attempt_down cause h = ground arith

  attempt_ok :
      (s.repo.insert (candidate n draws target at exp) w).0 ≡ ok tt
      → attempts url s (suc n) draws target at exp w ≡ (
        ok (candidate n draws target at exp),
        (s.repo.insert (candidate n draws target at exp) w).1,
      )
  unfolding attempts
  attempt_ok h = ground arith

  attempt_conflict :
      (s.repo.insert (candidate n draws target at exp) w).0 ≡ err RepoError.conflict
      → attempts url s (suc n) draws target at exp w
        ≡ attempts url s n draws target at exp (s.repo.insert (candidate n draws target at exp) w).1
  unfolding attempts
  attempt_conflict h = ground arith

attempts-zero :
    {W : Type 0} (url : UrlCrate) (s : LinkService W) (draws : ℕ → ℕ → ℕ) (target : TargetUrl)
    (at : ℤ) (exp : Option ℤ) (w : W)
    → attempts url s zero draws target at exp w ≡ (err ServiceError.conflict, w)
unfolding attempts
attempts-zero url s draws target at exp w = refl

module _ (url : UrlCrate) {W : Type 0} (Represents : W → Store → Type 0)
    (MayFail : Call → W → BoxedError → Type 0) where
  -- The store is as it was.
  abbrev Refuses : Store → ServiceError → Result ServiceError Link × W → Type 0
  Refuses m e out = (out.0 ≡ err e) × Represents out.1 m

  -- The backend may fail the insertion of the link, and it failed it.
  abbrev Fails : Store → Link → Result ServiceError Link × W → Type 0
  Fails m p out =
      (cause : BoxedError) × (before : W) × Represents before m
      × MayFail (Call.insert p) before cause
      × Refuses m (ServiceError.backend cause) out

  -- The link's code was free, and the link is all that was added.
  abbrev Stores : Store → Link → Result ServiceError Link × W → Type 0
  Stores m p out =
      (m p.code.as_str ≡ none) × (out.0 ≡ ok p) × Represents out.1 (update m p.code.as_str (some p))

  abbrev IsTaken : Store → Link → Type 0
  IsTaken m p = (old : Link) × (m p.code.as_str ≡ some old)

  -- `n` codes are tried in turn, and the first that is free is taken.
  abbrev Tries :
      ℕ → (ℕ → ℕ → ℕ) → TargetUrl → ℤ → Option ℤ → Store → Result ServiceError Link × W → Type 0
  Tries zero draws target at exp m out = Refuses m ServiceError.conflict out
  Tries (suc n) draws target at exp m out =
      let p = candidate n draws target at exp in
      Fails m p out ⊎ Stores m p out ⊎ (IsTaken m p × Tries n draws target at exp m out)

  -- An alias is taken as it is, if it is a code that is free.
  abbrev Places :
      Option Bytes
      → (ℕ → ℕ → ℕ)
      → TargetUrl
      → ℤ
      → Option ℤ
      → Store
      → Result ServiceError Link × W
      → Type 0
  Places none draws target at exp m out = Tries max_generation_attempts draws target at exp m out
  Places (some alias) draws target at exp m out =
      ((v : ValidationError) × (ShortCode.parse alias ≡ err v)
        × Refuses m (ServiceError.validation v) out)
      ⊎ ((code : ShortCode) × (ShortCode.parse alias ≡ ok code)
          × (let p = with_expiry code target at exp in
              Fails m p out ⊎ Stores m p out ⊎ (IsTaken m p × Refuses m ServiceError.conflict out)))

  -- How `create` ends on a store, by what was asked.
  abbrev pub Serves :
      List Bytes
      → Bytes
      → Option Bytes
      → Option ℕ
      → Option ℕ
      → (ℕ → ℕ → ℕ)
      → Store
      → Result ServiceError Link × W
      → Type 0
  Serves hosts raw alias ttl now draws m out =
      ((v : ValidationError) × (TargetUrl.parse url raw ≡ err v)
        × Refuses m (ServiceError.validation v) out)
      ⊎ ((target : TargetUrl) × (TargetUrl.parse url raw ≡ ok target)
          × (((host_blocked hosts (TargetUrl.host url target) ≡ true)
                × Refuses m ServiceError.blocked out)
              ⊎ ((host_blocked hosts (TargetUrl.host url target) ≡ false)
                  × Places alias draws target (now_unix now) (expiry (now_unix now) ttl) m out)))

  module _ (s : LinkService W) (law : IsLinkStore Represents MayFail s.repo) where
    -- What `insert` does, as the cases of `create`.
    inserted :
        (p : Link) (w : W) (m : Store)
        → Represents w m
        → let out = s.repo.insert p w in
          ((cause : BoxedError) × (out.0 ≡ err (RepoError.backend cause))
            × MayFail (Call.insert p) w cause
            × Represents out.1 m)
          ⊎ ((m p.code.as_str ≡ none)
              × (out.0 ≡ ok tt)
              × Represents out.1 (update m p.code.as_str (some p)))
          ⊎ (IsTaken m p × (out.0 ≡ err RepoError.conflict) × Represents out.1 m)
    inserted p w m h = elim (law.insert_lem p w m h) [
      | inl failed ↦ inl failed
      | inr (agree, after) ↦ elim (Option-cases (m p.code.as_str)) [
        | inl free ↦ inr (inl (free, rw free at agree, rw free at after))
        | inr (old, taken) ↦ inr (inr ((old, taken), rw taken at agree, rw taken at after))
      ]
    ]

    attempts-Tries :
        (n : ℕ) (draws : ℕ → ℕ → ℕ) (target : TargetUrl) (at : ℤ) (exp : Option ℤ) (w : W)
        (m : Store)
        → Represents w m
        → Tries n draws target at exp m (attempts url s n draws target at exp w)
    attempts-Tries zero draws target at exp w m h =
        rw (attempts-zero url s draws target at exp w) (refl, h)
    attempts-Tries (suc n) draws target at exp w m h =
        elim (inserted (candidate n draws target at exp) w m h) [
          | inl (cause, failed, may, same) ↦
              rw (attempt_down url s n draws target at exp w cause failed)
                (inl (cause, w, h, may, (refl, same)))
          | inr (inl (free, done, after)) ↦
              rw (attempt_ok url s n draws target at exp w done) (inr (inl (free, refl, after)))
          | inr (inr (taken, refused, same)) ↦
              rw (attempt_conflict url s n draws target at exp w refused)
                (inr (inr (taken, attempts-Tries n draws target at exp _ m same)))
        ]

    create_at-Places :
        (target : TargetUrl) (alias : Option Bytes) (at : ℤ) (exp : Option ℤ) (draws : ℕ → ℕ → ℕ)
        (w : W) (m : Store)
        → Represents w m
        → Places alias draws target at exp m (create_at url s target alias at exp draws w)
    unfolding create_at
    create_at-Places target none at exp draws w m h =
        attempts-Tries max_generation_attempts draws target at exp w m h
    create_at-Places target (some alias) at exp draws w m h =
        elim (Result-cases (ShortCode.parse alias)) [
          | inr (v, bad) ↦ rw bad (inl (v, refl, (refl, h)))
          | inl (code, good) ↦ elim (inserted (with_expiry code target at exp) w m h) [
            | inl (cause, failed, may, same) ↦
                rw (good, failed) (inr (code, refl, inl (cause, w, h, may, (refl, same))))
            | inr (inl (free, done, after)) ↦
                rw (good, done) (inr (code, refl, inr (inl (free, refl, after))))
            | inr (inr (taken, refused, same)) ↦
                rw (good, refused) (inr (code, refl, inr (inr (taken, (refl, same)))))
          ]
        ]

    -- `create` over any repository that refines the reference store, in a state that represents the
    -- store `m`: an invalid URL is a validation error; else a blocked host is refused; else an alias
    -- that is no code is a validation error, one that is in use a conflict, and with one that is free
    -- the new link is exactly what is added to `m`; without an alias that holds of the first free
    -- code of the five that are drawn, and it is a conflict if none is free. A backend error has a
    -- cause with which the repository may fail the insertion. Every error leaves the store `m`.
    pub create-Serves :
        (raw : Bytes) (alias : Option Bytes) (ttl now : Option ℕ) (draws : ℕ → ℕ → ℕ) (w : W)
        (m : Store)
        → Represents w m
        → Serves s.blocked_hosts raw alias ttl now draws m (create url s raw alias ttl now draws w)
    unfolding create
    create-Serves raw alias ttl now draws w m h = elim (Result-cases (TargetUrl.parse url raw)) [
      | inr (v, bad) ↦ rw bad (inl (v, refl, (refl, h)))
      | inl (target, good) ↦
          elim (Bool-cases (host_blocked s.blocked_hosts (TargetUrl.host url target))) [
            | inl is_bad ↦ rw (good, is_bad) (inr (target, refl, inl (is_bad, (refl, h))))
            | inr is_free ↦
                rw (good, is_free)
                  (inr (
                    target,
                    refl,
                    inr (
                      is_free,
                      create_at-Places target alias (now_unix now) (expiry (now_unix now) ttl) draws
                          w m h,
                    ),
                  ))
          ]
    ]
