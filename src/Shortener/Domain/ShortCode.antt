-- ===== src/Shortener/Domain/ShortCode.antt =====
-- `ShortCode` (url-shortener/src/domain/mod.rs).
use hicho.Common.{
  ℕ, ◌≤◌, ◌≡◌, inl, inr, refl, not, ◌||◌, arith, ltb, if◌then◌else◌, Bytes, length, Result, ok, err,
  All, ◌⊎◌, ◌<◌,
}
use hicho.Common.Text.{IsAlphanumeric, all-IsAlphanumeric, all, is_ascii_alphanumeric}
use hicho.Shortener.Domain.Errors.{ValidationError, code_length, code_charset}

abbrev pub code_min_len : ℕ
code_min_len = 1

abbrev pub code_max_len : ℕ
code_max_len = 32

pub record ShortCode : Type 0 where
  pub as_str : Bytes

unfoldable pub parse : Bytes → Result ValidationError ShortCode
parse raw =
    if ltb (length raw) code_min_len || ltb code_max_len (length raw)
    then err code_length
    else if not (all is_ascii_alphanumeric raw)
    then err code_charset
    else ok (record { as_str = raw })

-- Its `debug_assert!` is compiled out of a release build.
abbrev pub from_trusted : Bytes → ShortCode
from_trusted value = record { as_str = value }

-- What a short code promises.
pub record IsCode (s : Bytes) : Type 0 where
  pub long_enough : 1 ≤ length s
  pub short_enough : length s ≤ 32
  pub charset : All IsAlphanumeric s

-- How `parse` answers: which strings pass, and which error the others get.
abbrev pub Answers : Bytes → Result ValidationError ShortCode → Type 0
Answers raw (ok c) = (c.as_str ≡ raw) × IsCode raw
Answers raw (err code_length) = (length raw ≡ 0) ⊎ (32 < length raw)
Answers raw (err code_charset) = (1 ≤ length raw) × (length raw ≤ 32) × ¬ All IsAlphanumeric raw
Answers raw (err _) = ⊥

-- `parse` accepts the strings of 1 to 32 alphanumeric bytes unchanged, gives `code_length` for
-- the strings of any other length and `code_charset` for those with another byte, and no other
-- error.
pub parse_code-Answers : (raw : Bytes) → Answers raw (parse raw)
unfolding parse
parse_code-Answers raw = ground (arith, all-IsAlphanumeric raw)

-- Every promised string is accepted.
pub parse_accepts : (raw : Bytes) → IsCode raw → parse raw ≡ ok (from_trusted raw)
unfolding parse
parse_accepts raw h = ground (arith, all-IsAlphanumeric raw)

pub parse-ok : (raw : Bytes) (c : ShortCode) → parse raw ≡ ok c → (c.as_str ≡ raw) × IsCode raw
parse-ok raw c h = rw h at (parse_code-Answers raw)

-- An accepted string is kept as it is.
pub parse_cases :
    (raw : Bytes)
    → (parse raw ≡ ok (from_trusted raw)) ⊎ ((e : ValidationError) × (parse raw ≡ err e))
parse_cases raw = go (parse raw) refl
  where
    go :
        (r : Result ValidationError ShortCode)
        → parse raw ≡ r
        → (parse raw ≡ ok (from_trusted raw)) ⊎ ((e : ValidationError) × (parse raw ≡ err e))
    go (ok c) e = inl (ground (arith, parse-ok raw c e))
    go (err v) e = inr (v, e)

pub not_accepted : (raw : Bytes) (e : ValidationError) → parse raw ≡ err e → ¬ IsCode raw
not_accepted raw e h v = cc (parse_accepts raw v)
