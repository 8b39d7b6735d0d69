-- ===== src/Pastebin/Domain/Paste.antt =====
-- `Paste` and the repository port (pastebin-service/src/domain/mod.rs).
use hicho.Common.{Bool, Option, Bytes, Action}
use hicho.Common.Int.{ℤ, pos}
use hicho.Clock.{expired_at}
use hicho.Pastebin.Domain.Errors.{RepoError}
use hicho.Pastebin.Domain.PasteId.{PasteId}
use hicho.Pastebin.Domain.Content.{Content}

pub record Paste : Type 0 where
  pub id : PasteId
  pub content : Content
  pub syntax : Option Bytes
  pub created_at : ℤ
  pub expires_at : Option ℤ
  pub one_shot : Bool
  pub views : ℤ

-- `Paste::new`
unfoldable pub new : PasteId → Content → Option Bytes → ℤ → Option ℤ → Bool → Paste
new i c s at expiry once = record {
  id = i;
  content = c;
  syntax = s;
  created_at = at;
  expires_at = expiry;
  one_shot = once;
  views = pos 0;
}

-- `Paste::is_expired`
unfoldable pub is_expired : Paste → ℤ → Bool
is_expired p now = expired_at p.expires_at now

-- `PasteRepository`: what a store with states `W` offers
pub record PasteRepository (W : Type 0) : Type 0 where
  pub insert : Paste → Action W RepoError (Unit {0})
  pub get : PasteId → Action W RepoError (Option Paste)
  pub take : PasteId → Action W RepoError (Option Paste)
  pub increment_views_by : PasteId → ℤ → Action W RepoError Bool
  pub delete : PasteId → Action W RepoError Bool
  pub ping : Action W RepoError (Unit {0})

-- the provided method `increment_views`
abbrev pub increment_views : {W : Type 0} → PasteRepository W → PasteId → Action W RepoError Bool
increment_views repo i = repo.increment_views_by i (pos 1)
