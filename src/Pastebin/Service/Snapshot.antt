-- ===== src/Pastebin/Service/Snapshot.antt =====
-- `CachedPaste` (pastebin-service/src/application/mod.rs). The crate `serde_json` is a parameter.
use hicho.Common.{Bool, Option, some, Bytes, ◌≡◌, refl}
use hicho.Common.Int.{ℤ}
use hicho.Pastebin.Domain.PasteId
use hicho.Pastebin.Domain.Content
use hicho.Pastebin.Domain.Paste.{Paste}

pub record CachedPaste : Type 0 where
  pub id : Bytes
  pub content : Bytes
  pub syntax : Option Bytes
  pub created_at : ℤ
  pub expires_at : Option ℤ
  pub one_shot : Bool
  pub views : ℤ

unfoldable pub from_paste : Paste → CachedPaste
from_paste p = record {
  id = p.id.as_str;
  content = p.content.as_str;
  syntax = p.syntax;
  created_at = p.created_at;
  expires_at = p.expires_at;
  one_shot = p.one_shot;
  views = p.views;
}

unfoldable pub into_paste : CachedPaste → Paste
into_paste c = record {
  id = PasteId.from_trusted c.id;
  content = Content.from_trusted c.content;
  syntax = c.syntax;
  created_at = c.created_at;
  expires_at = c.expires_at;
  one_shot = c.one_shot;
  views = c.views;
}

-- The snapshot of a paste loses nothing.
pub into_paste-from_paste : (p : Paste) → into_paste (from_paste p) ≡ p
unfolding into_paste from_paste
into_paste-from_paste p = refl

-- `to_string` and `from_str` of `serde_json` at `CachedPaste`; `none` is an error.
pub record JsonCrate : Type 0 where
  pub to_string : CachedPaste → Option Bytes
  pub from_str : Bytes → Option CachedPaste

-- What is documented of the crate: a text that it wrote is read back as the value.
abbrev pub ReadsBack : JsonCrate → Type 0
ReadsBack json =
    (c : CachedPaste) (text : Bytes) → json.to_string c ≡ some text → json.from_str text ≡ some c
