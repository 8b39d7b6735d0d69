-- ===== src/Pastebin/Service.antt =====
-- The use cases of `PasteService` (pastebin-service/src/application/mod.rs).
pub mod Snapshot
use hicho.Common.{
  ℕ, zero, suc, Bool, true, false, Option, none, some, Bytes, Result, ok, err, Action, pure, raise,
  ◌>>=◌, ◌>>◌, or_raise, lift_or, effect, convert, ignore, call, if◌then◌else◌, ltb, min, ◌≤◌, ◌<◌,
  arith,
}
use hicho.Common.Int.{ℤ}
use hicho.Clock.{now_unix, expiry, ttl_until}
use hicho.Codes.{generate_code, max_generation_attempts, generate_code-All, length-generate_code}
use hicho.Cache.{Cache}
use hicho.Pastebin.Views.{ViewRecorder}
use hicho.Pastebin.Domain.Errors.{BoxedError, ValidationError, RepoError}
use hicho.Pastebin.Domain.PasteId.{PasteId, IsId}
use hicho.Pastebin.Domain.PasteId
use hicho.Pastebin.Domain.Content.{Content}
use hicho.Pastebin.Domain.Content
use hicho.Pastebin.Domain.Paste.{Paste, PasteRepository, new, is_expired}
use hicho.Pastebin.Service.Snapshot.{JsonCrate, CachedPaste, from_paste, into_paste}

abbrev pub generated_id_len : ℕ
generated_id_len = 8

pub data ServiceError : Type 0 where
  validation : ValidationError → ServiceError
  not_found conflict : ServiceError
  backend : BoxedError → ServiceError

-- `impl From<RepoError> for ServiceError`
abbrev pub from_repo : RepoError → ServiceError
from_repo RepoError.conflict = conflict
from_repo (RepoError.backend cause) = backend cause

-- Its parts act on one world `W`, since the recorder may share the repository.
pub record PasteService (W : Type 0) : Type 0 where
  pub repo : PasteRepository W
  pub cache : Cache W
  pub views : ViewRecorder W

unfoldable pub cache_ttl_secs : Paste → ℤ → ℕ
cache_ttl_secs paste now = ttl_until paste.expires_at now

module _ {W : Type 0} (s : PasteService W) where
  -- The loop of `create`: `draws n` gives the random indices of the attempt that leaves `n` more.
  unfoldable pub attempts :
      ℕ → (ℕ → ℕ → ℕ) → Content → Option Bytes → ℤ → Option ℤ → Bool → Action W ServiceError Paste
  attempts zero draws content syntax created_at expires_at one_shot w = (err conflict, w)
  attempts (suc n) draws content syntax created_at expires_at one_shot w =
      let i = PasteId.from_trusted (generate_code generated_id_len (draws n)) in
      let paste = new i content syntax created_at expires_at one_shot in
      let (r, w') = s.repo.insert paste w in
      elim r [
        | ok _ ↦ (ok paste, w')
        | err e ↦ elim e [
          | RepoError.conflict ↦ attempts n draws content syntax created_at expires_at one_shot w'
          | RepoError.backend cause ↦ (err (backend cause), w')
        ]
      ]

  -- `now` is the clock's reading, `draws` the random indices.
  unfoldable pub create :
      Bytes → Option Bytes → Option ℕ → Bool → Option ℕ → (ℕ → ℕ → ℕ) → Action W ServiceError Paste
  create raw syntax ttl_seconds one_shot now draws = do
    content ← lift_or (Content.parse raw) validation
    let created_at = now_unix now
    let expires_at = expiry created_at ttl_seconds
    attempts max_generation_attempts draws content syntax created_at expires_at one_shot

  unfoldable pub delete : Bytes → Action W ServiceError (Unit {0})
  delete raw = do
    i ← lift_or (PasteId.parse raw) (λ _. not_found)
    removed ← convert from_repo (s.repo.delete i)
    effect (s.cache.delete i.as_str)
    if removed then pure tt else raise not_found

  unfoldable pub ready : Action W ServiceError (Unit {0})
  ready = convert from_repo s.repo.ping

-- `fetch` reads the clock up to three times: for a cached paste, for a stored one, and for the
-- cache's time to live.
pub record Readings : Type 0 where
  pub cached_at : Option ℕ
  pub stored_at : Option ℕ
  pub filled_at : Option ℕ

-- The step of `fetch` that a call has reached. Each step makes at most one call of the repository's
-- `get` or `take`, so that calls may interleave between the steps.
pub data Phase : Type 0 where
  start missed : Phase
  loaded : Paste → Phase
  finished : Result ServiceError Paste → Phase

module _ {W : Type 0} (json : JsonCrate) (s : PasteService W) where
  open json use {to_string, from_str}

  -- the paste that a cache entry stands for, if it decodes
  abbrev pub decode : Option Bytes → Option Paste
  decode none = none
  decode (some text) = elim (from_str text) [ none ↦ none | some c ↦ some (into_paste c) ]

  -- the first step: the cache
  unfoldable pub from_cache : PasteId → Readings → W → Phase × W
  from_cache i r w =
      let (entry, w') = s.cache.get i.as_str w in
      elim (decode entry) [
        | none ↦ (missed, w')
        | some paste ↦
            if is_expired paste (now_unix r.cached_at)
            then (missed, s.cache.delete i.as_str w')
            else (finished (ok paste), s.views.record_view i w')
      ]

  -- the second step: `get` of the repository
  unfoldable pub from_repository : PasteId → W → Phase × W
  from_repository i w =
      let (r, w') = s.repo.get i w in
      elim r [
        | err e ↦ (finished (err (from_repo e)), w')
        | ok found ↦ elim found [
          | none ↦ (finished (err not_found), w')
          | some paste ↦ (loaded paste, w')
        ]
      ]

  -- `take` of a one-shot paste
  take_paste : PasteId → Action W ServiceError Paste
  take_paste i = do or_raise (← convert from_repo (s.repo.take i)) not_found

  -- an expired paste
  purge : PasteId → Action W ServiceError Paste
  purge i = do ignore (s.repo.delete i); effect (s.cache.delete i.as_str); raise not_found

  -- offer a paste to the cache
  fill : Paste → PasteId → ℕ → W → W
  fill paste i ttl w =
      if ltb 0 ttl
      then elim (to_string (from_paste paste)) [
        | none ↦ w
        | some text ↦ s.cache.set i.as_str text ttl w
      ]
      else w

  -- the last step, with the paste that was read
  unfoldable pub serve : PasteId → Readings → Paste → Action W ServiceError Paste
  unfolding take_paste purge fill
  serve i r paste =
      if is_expired paste (now_unix r.stored_at)
      then purge i
      else if paste.one_shot
      then take_paste i
      else (do
        effect (fill paste i (cache_ttl_secs paste (now_unix r.filled_at)))
        effect (s.views.record_view i)
        pure paste)

  unfoldable pub advance : PasteId → Readings → Phase → W → Phase × W
  advance i r start w = from_cache i r w
  advance i r missed w = from_repository i w
  advance i r (loaded paste) w = let (answer, w') = serve i r paste w in (finished answer, w')
  advance i r (finished answer) w = (finished answer, w)

  -- the answer of a call whose three steps are over
  abbrev pub answer_of : Phase → Result ServiceError Paste
  answer_of (finished answer) = answer
  answer_of _ = err not_found

  -- `fetch` with nothing in between its steps
  unfoldable pub fetch_id : PasteId → Readings → Action W ServiceError Paste
  fetch_id i r w =
      let (p₁, w₁) = advance i r start w in
      let (p₂, w₂) = advance i r p₁ w₁ in let (p₃, w₃) = advance i r p₂ w₂ in (answer_of p₃, w₃)

  unfoldable pub fetch : Bytes → Readings → Action W ServiceError Paste
  unfolding fetch_id
  fetch raw r = do i ← lift_or (PasteId.parse raw) (λ _. not_found); fetch_id i r

-- A generated id passes validation, whatever indices are drawn from the alphabet, at every
-- length from 1 to 32.
pub generate_code-IsId :
    (len : ℕ) (draw : ℕ → ℕ)
    → 1 ≤ len
    → len ≤ 32
    → ((i : ℕ) → draw i < 62)
    → IsId (generate_code len draw)
generate_code-IsId len draw lo hi h = record {
  long_enough = omega (arith, length-generate_code len draw);
  short_enough = omega (arith, length-generate_code len draw);
  charset = generate_code-All len draw h;
}
