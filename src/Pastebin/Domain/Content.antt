-- ===== src/Pastebin/Domain/Content.antt =====
-- `Content` (pastebin-service/src/domain/mod.rs).
use hicho.Common.{ℕ, ◌≤◌, ◌<◌, ◌≡◌, arith, ltb, ◌==◌, if◌then◌else◌, Bytes, length, Result, ok, err}
use hicho.Pastebin.Domain.Errors.{ValidationError, content_empty, content_too_large}

abbrev pub max_content_bytes : ℕ
max_content_bytes = 1000000

pub record Content : Type 0 where
  pub as_str : Bytes

unfoldable pub parse : Bytes → Result ValidationError Content
parse raw =
    if length raw == 0
    then err content_empty
    else if ltb max_content_bytes (length raw)
    then err content_too_large
    else ok (record { as_str = raw })

abbrev pub from_trusted : Bytes → Content
from_trusted value = record { as_str = value }

-- How `parse` answers.
abbrev pub Answers : Bytes → Result ValidationError Content → Type 0
Answers raw (ok c) = (c.as_str ≡ raw) × (1 ≤ length raw) × (length raw ≤ 1000000)
Answers raw (err content_empty) = length raw ≡ 0
Answers raw (err content_too_large) = 1000000 < length raw
Answers raw (err _) = ⊥

-- `parse` accepts a content of 1 to 1,000,000 bytes unchanged, gives `content_empty` for the empty
-- one and `content_too_large` for a longer one, and no other error.
pub parse_content-Answers : (raw : Bytes) → Answers raw (parse raw)
unfolding parse
parse_content-Answers raw = ground arith
