-- ===== src/Shortener/Service/Defs.antt =====
-- `LinkService` and its methods (url-shortener/src/application/mod.rs).
use hicho.Common.{
  ℕ, zero, suc, Bool, false, ◌||◌, Option, none, some, List, [], ◌∷◌, Bytes, ok, err, Action, pure,
  raise, ◌>>=◌, ◌>>◌, or_raise, lift_or, effect, convert, ignore, call, if◌then◌else◌, ltb,
  bytes_eq,
}
use hicho.Common.Int.{ℤ}
use hicho.Common.Text.{ends_with}
use hicho.Cache.{Cache}
use hicho.Shortener.Hits.{HitRecorder}
use hicho.Shortener.Domain.Errors.{BoxedError, ValidationError, RepoError}
use hicho.Shortener.Domain.ShortCode.{ShortCode}
use hicho.Shortener.Domain.ShortCode
use hicho.Shortener.Domain.TargetUrl.{UrlCrate, TargetUrl}
use hicho.Shortener.Domain.TargetUrl
use hicho.Shortener.Domain.Link.{Link, LinkRepository, with_expiry, is_expired}
use hicho.Clock.{now_unix, expiry}
use hicho.Codes.{generate_code, max_generation_attempts}
use hicho.Shortener.Service.Code.{cache_ttl_secs, generated_code_len}

pub data ServiceError : Type 0 where
  validation : ValidationError → ServiceError
  not_found conflict blocked : ServiceError
  backend : BoxedError → ServiceError

-- `impl From<RepoError> for ServiceError`
abbrev pub from_repo : RepoError → ServiceError
from_repo RepoError.conflict = conflict
from_repo (RepoError.backend cause) = backend cause

-- Its parts act on one world `W`, since the recorder may share the repository.
pub record LinkService (W : Type 0) : Type 0 where
  pub repo : LinkRepository W
  pub blocked_hosts : List Bytes
  pub cache : Cache W
  pub hits : HitRecorder W

-- `blocked_hosts.iter().any(…)`; 46 is the dot.
unfoldable pub any_blocked : List Bytes → Bytes → Bool
any_blocked [] h = false
any_blocked (b ∷ bs) h = (bytes_eq h b || ends_with h (b'.' ∷ b)) || any_blocked bs h

unfoldable pub host_blocked : List Bytes → Option Bytes → Bool
unfolding any_blocked
host_blocked [] h = false
host_blocked (b ∷ bs) none = false
host_blocked (b ∷ bs) (some h) = any_blocked (b ∷ bs) h

module _ {W : Type 0} (url : UrlCrate) (s : LinkService W) where
  unfoldable pub is_blocked : TargetUrl → Bool
  unfolding host_blocked
  is_blocked target = host_blocked s.blocked_hosts (TargetUrl.host url target)

  -- The loop of `create`: `draws n` gives the random indices of the attempt that leaves `n` more.
  unfoldable pub attempts : ℕ → (ℕ → ℕ → ℕ) → TargetUrl → ℤ → Option ℤ → Action W ServiceError Link
  attempts zero draws target created_at expires_at w = (err conflict, w)
  attempts (suc n) draws target created_at expires_at w =
      let code = ShortCode.from_trusted (generate_code generated_code_len (draws n)) in
      let link = with_expiry code target created_at expires_at in
      let (r, w') = s.repo.insert link w in
      elim r [
        | ok _ ↦ (ok link, w')
        | err e ↦ elim e [
          | RepoError.conflict ↦ attempts n draws target created_at expires_at w'
          | RepoError.backend cause ↦ (err (backend cause), w')
        ]
      ]

  unfoldable pub create_at :
      TargetUrl → Option Bytes → ℤ → Option ℤ → (ℕ → ℕ → ℕ) → Action W ServiceError Link
  create_at target none created_at expires_at draws =
      attempts max_generation_attempts draws target created_at expires_at
  create_at target (some alias) created_at expires_at draws = do
    code ← lift_or (ShortCode.parse alias) validation
    let link = with_expiry code target created_at expires_at
    convert from_repo (s.repo.insert link)
    pure link

  -- `now` is the clock's reading, `draws` the random indices.
  unfoldable pub create :
      Bytes → Option Bytes → Option ℕ → Option ℕ → (ℕ → ℕ → ℕ) → Action W ServiceError Link
  unfolding is_blocked
  create raw_url alias ttl_seconds now draws = do
    target ← lift_or (TargetUrl.parse url raw_url) validation
    let created_at = now_unix now
    if is_blocked target
        then raise blocked
        else create_at target alias created_at (expiry created_at ttl_seconds) draws

module _ {W : Type 0} (s : LinkService W) where
  -- `resolve` past the cache
  unfoldable pub resolve_uncached :
      ShortCode → Option ℕ → Option ℕ → Action W ServiceError TargetUrl
  resolve_uncached code now later = do
    link ← or_raise (← convert from_repo (s.repo.get code)) not_found
    if is_expired link (now_unix now)
        then (do ignore (s.repo.delete code); effect (s.cache.delete code.as_str); raise not_found)
        else (do
          let ttl = cache_ttl_secs link (now_unix later)
          effect (λ w. if ltb 0 ttl then s.cache.set code.as_str link.target.as_str ttl w else w)
          effect (s.hits.record_hit code)
          pure link.target)

  resolve_cached : ShortCode → Option Bytes → Option ℕ → Option ℕ → Action W ServiceError TargetUrl
  resolve_cached code none now later = resolve_uncached code now later
  resolve_cached code (some target) now later = do
    effect (s.hits.record_hit code)
    pure (TargetUrl.from_trusted target)

  -- The clock is read for the expiry test, and again for the cache's time to live.
  unfoldable pub resolve : Bytes → Option ℕ → Option ℕ → Action W ServiceError TargetUrl
  unfolding resolve_cached
  resolve raw now later = do
    code ← lift_or (ShortCode.parse raw) (λ _. not_found)
    resolve_cached code (← call (s.cache.get code.as_str)) now later

  unfoldable pub get : Bytes → Option ℕ → Action W ServiceError Link
  get raw now = do
    code ← lift_or (ShortCode.parse raw) (λ _. not_found)
    link ← or_raise (← convert from_repo (s.repo.get code)) not_found
    if is_expired link (now_unix now)
        then (do ignore (s.repo.delete code); raise not_found)
        else pure link

  unfoldable pub ready : Action W ServiceError (Unit {0})
  ready = convert from_repo s.repo.ping

  unfoldable pub delete : Bytes → Action W ServiceError (Unit {0})
  delete raw = do
    code ← lift_or (ShortCode.parse raw) (λ _. not_found)
    removed ← convert from_repo (s.repo.delete code)
    effect (s.cache.delete code.as_str)
    if removed then pure tt else raise not_found
