-- ===== src/Common/Text.antt =====
-- The parts of Rust's `str` and `u8` that the services use, on the bytes of a string.
use hicho.Common.{
  ℕ, ◌+◌, Bool, true, false, ◌&&◌, ◌||◌, [], ◌∷◌, map, ◌≤◌, ◌≡◌, ◌↔◌, ◌⊎◌, refl, arith, All, leb,
  ◌==◌, if◌then◌else◌, Bytes, bytes_eq,
}
use Prim.Native.Char.{code}
use Prim.Native.String.{String}

-- The bytes of a literal, all ASCII.
abbrev pub bytes : String → Bytes
bytes String.[] = []
bytes (String.◌∷◌ c s) = code c ∷ bytes s

-- `u8::is_ascii_alphanumeric`
unfoldable pub is_ascii_alphanumeric : ℕ → Bool
is_ascii_alphanumeric c =
    (leb b'0' c && leb c b'9') || (leb b'A' c && leb c b'Z') || (leb b'a' c && leb c b'z')

unfoldable pub to_ascii_lowercase : ℕ → ℕ
to_ascii_lowercase c = if leb b'A' c && leb c b'Z' then c + 32 else c

-- `bytes().all(p)`
unfoldable pub all : (ℕ → Bool) → Bytes → Bool
all p [] = true
all p (c ∷ cs) = p c && all p cs

unfoldable pub starts_with : Bytes → Bytes → Bool
starts_with s [] = true
starts_with [] (p ∷ ps) = false
starts_with (c ∷ cs) (p ∷ ps) = c == p && starts_with cs ps

-- `ends_with`: some suffix of `s`, at the same length, is `t`
unfoldable pub ends_with : Bytes → Bytes → Bool
unfolding bytes_eq
ends_with [] t = bytes_eq [] t
ends_with (c ∷ cs) t = bytes_eq (c ∷ cs) t || ends_with cs t

-- `eq_ignore_ascii_case`
unfoldable pub eq_ignore_ascii_case : Bytes → Bytes → Bool
unfolding bytes_eq to_ascii_lowercase
eq_ignore_ascii_case a b = bytes_eq (map to_ascii_lowercase a) (map to_ascii_lowercase b)

-- A byte in '0'..'9', 'A'..'Z' or 'a'..'z'.
abbrev pub IsAlphanumeric : ℕ → Type 0
IsAlphanumeric c = ((48 ≤ c) × (c ≤ 57)) ⊎ ((65 ≤ c) × (c ≤ 90)) ⊎ ((97 ≤ c) × (c ≤ 122))

is_ascii_alphanumeric_iff : (c : ℕ) → (is_ascii_alphanumeric c ≡ true) ↔ IsAlphanumeric c
unfolding is_ascii_alphanumeric
is_ascii_alphanumeric_iff c = (λ h. ground arith, λ h. ground arith)

pub all-IsAlphanumeric : (s : Bytes) → (all is_ascii_alphanumeric s ≡ true) ↔ All IsAlphanumeric s
unfolding all
all-IsAlphanumeric [] = (λ _. tt, λ _. refl)
all-IsAlphanumeric (c ∷ s) = ground (arith, is_ascii_alphanumeric_iff c, all-IsAlphanumeric s)
