-- ===== src/Shortener/Domain/Link.antt =====
-- `Link` and the repository port (url-shortener/src/domain/mod.rs).
use hicho.Common.{Bool, Option, none, Action}
use hicho.Common.Int.{ℤ, pos}
use hicho.Clock.{expired_at}
use hicho.Shortener.Domain.Errors.{RepoError}
use hicho.Shortener.Domain.ShortCode.{ShortCode}
use hicho.Shortener.Domain.TargetUrl.{TargetUrl}

pub record Link : Type 0 where
  pub code : ShortCode
  pub target : TargetUrl
  pub created_at : ℤ
  pub hits : ℤ
  pub expires_at : Option ℤ

-- `Link::new`
unfoldable pub new : ShortCode → TargetUrl → ℤ → Link
new c t at = record { code = c; target = t; created_at = at; hits = pos 0; expires_at = none }

unfoldable pub with_expiry : ShortCode → TargetUrl → ℤ → Option ℤ → Link
with_expiry c t at expiry = record {
  code = c;
  target = t;
  created_at = at;
  hits = pos 0;
  expires_at = expiry;
}

-- `Link::is_expired`
unfoldable pub is_expired : Link → ℤ → Bool
is_expired l now = expired_at l.expires_at now

-- `LinkRepository`: what a store with states `W` offers
pub record LinkRepository (W : Type 0) : Type 0 where
  pub insert : Link → Action W RepoError (Unit {0})
  pub get : ShortCode → Action W RepoError (Option Link)
  pub increment_hits_by : ShortCode → ℤ → Action W RepoError Bool
  pub delete : ShortCode → Action W RepoError Bool
  pub ping : Action W RepoError (Unit {0})

-- the provided method `increment_hits`
abbrev pub increment_hits : {W : Type 0} → LinkRepository W → ShortCode → Action W RepoError Bool
increment_hits repo c = repo.increment_hits_by c (pos 1)
