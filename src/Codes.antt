-- ===== src/Codes.antt =====
-- Generated codes and ids: `generate_code` of url-shortener/src/application/mod.rs and
-- `generate_id` of pastebin-service/src/application/mod.rs, which are the same function.
use hicho.Common.{
  ℕ, zero, suc, ◌<◌, ◌≡◌, refl, ap, ◌∷◌, [], Bytes, length, get_or, All, get_or-All, arith,
}
use hicho.Common.Text.{bytes, all, is_ascii_alphanumeric, IsAlphanumeric, all-IsAlphanumeric}

abbrev pub alphabet : Bytes
alphabet = bytes "ABCDEFGHIJKLMNOPQRSTUVWXYZabcdefghijklmnopqrstuvwxyz0123456789"

abbrev pub max_generation_attempts : ℕ
max_generation_attempts = 5

-- `generate_code`: `draw i` is the random index of place `i`, below the alphabet's length.
unfoldable pub generate_code : ℕ → (ℕ → ℕ) → Bytes
generate_code zero draw = []
generate_code (suc len) draw = get_or alphabet (draw 0) 0 ∷ generate_code len (λ i. draw (suc i))

-- A generated code passes validation.
alphabet-IsAlphanumeric : (i : ℕ) → i < 62 → IsAlphanumeric (get_or alphabet i 0)
unfolding all is_ascii_alphanumeric
alphabet-IsAlphanumeric i h =
    get_or-All IsAlphanumeric alphabet i 0 ((all-IsAlphanumeric alphabet).0 refl) (omega arith)

pub generate_code-All :
    (len : ℕ) (draw : ℕ → ℕ) → ((i : ℕ) → draw i < 62) → All IsAlphanumeric (generate_code len draw)
unfolding generate_code
generate_code-All zero draw h = tt
generate_code-All (suc len) draw h = (
  alphabet-IsAlphanumeric (draw 0) (h 0),
  generate_code-All len (λ i. draw (suc i)) (λ i. h (suc i)),
)

pub length-generate_code : (len : ℕ) (draw : ℕ → ℕ) → length (generate_code len draw) ≡ len
unfolding generate_code
length-generate_code zero draw = refl
length-generate_code (suc len) draw = ap suc (length-generate_code len (λ i. draw (suc i)))
