-- ===== src/Common/Int.antt =====
-- Signed integers, and Rust's i64 arithmetic on them: wrap-around, saturation, `as` casts.
use mathlib.Core.Path.{◌≡⟨◌⟩◌, ◌∎}
use hicho.Common.{
  ap, sym, ◌∙◌, ℕ, suc, ◌+◌, ◌-◌, ◌%◌, ◌≤◌, ◌<◌, ◌≡◌, Bool, arith, leb, if◌then◌else◌,
}

-- `negsuc n` is -(n + 1).
pub data ℤ : Type 0 where
  pos : ℕ → ℤ
  negsuc : ℕ → ℤ

abbrev pub pos_part : ℤ → ℕ
pos_part (pos n) = n
pos_part (negsuc n) = 0

abbrev pub neg_part : ℤ → ℕ
neg_part (pos n) = 0
neg_part (negsuc n) = suc n

-- a - b, as an integer.
abbrev pub sub_ℕ : ℕ → ℕ → ℤ
sub_ℕ a b = if leb b a then pos (a - b) else negsuc (b - a - 1)

infixl 65 ◌+ℤ◌ ◌-ℤ◌
infix 50 ◌≤ℤ◌ ◌<ℤ◌
unfoldable pub ◌+ℤ◌ : ℤ → ℤ → ℤ
a +ℤ b = sub_ℕ (pos_part a + pos_part b) (neg_part a + neg_part b)

unfoldable pub ◌-ℤ◌ : ℤ → ℤ → ℤ
a -ℤ b = sub_ℕ (pos_part a + neg_part b) (neg_part a + pos_part b)

abbrev pub ◌≤ℤ◌ : ℤ → ℤ → Type 0
a ≤ℤ b = pos_part a + neg_part b ≤ pos_part b + neg_part a

abbrev pub ◌<ℤ◌ : ℤ → ℤ → Type 0
a <ℤ b = pos_part a + neg_part b < pos_part b + neg_part a

abbrev pub leb_ℤ : ℤ → ℤ → Bool
leb_ℤ a b = leb (pos_part a + neg_part b) (pos_part b + neg_part a)

abbrev pub i64_max : ℕ
i64_max = 9223372036854775807

-- Reduce an integer to the i64 with the same low 64 bits.
unfoldable pub wrap_i64 : ℤ → ℤ
wrap_i64 (pos n) =
    let m = n % 18446744073709551616 in
    if leb m i64_max then pos m else negsuc (18446744073709551615 - m)
wrap_i64 (negsuc n) =
    let m = n % 18446744073709551616 in
    if leb m i64_max then negsuc m else pos (18446744073709551615 - m)

-- `n as i64` for an unsigned 64-bit n
unfoldable pub as_i64 : ℕ → ℤ
unfolding wrap_i64
as_i64 n = wrap_i64 (pos n)

-- `+` on i64 as a release build computes it
unfoldable pub add_i64 : ℤ → ℤ → ℤ
add_i64 a b = wrap_i64 (a +ℤ b)

unfoldable pub sub_i64 : ℤ → ℤ → ℤ
sub_i64 a b = wrap_i64 (a -ℤ b)

-- `i64::saturating_add`
unfoldable pub saturating_add : ℤ → ℤ → ℤ
saturating_add a b = elim (a +ℤ b) [
  | pos n ↦ if leb n i64_max then pos n else pos i64_max
  | negsuc n ↦ if leb n i64_max then negsuc n else negsuc i64_max
]

-- The values of an i64.
abbrev pub InRange : ℤ → Type 0
InRange a = (pos_part a ≤ i64_max) × (neg_part a ≤ suc i64_max)

pub wrap_i64-InRange : (a : ℤ) → InRange (wrap_i64 a)
unfolding wrap_i64
wrap_i64-InRange (pos n) = ground arith
wrap_i64-InRange (negsuc n) = ground arith

pub wrap_i64_id : (a : ℤ) → InRange a → wrap_i64 a ≡ a
unfolding wrap_i64
wrap_i64_id (pos n) h = ground arith
wrap_i64_id (negsuc n) h = ground arith

pub +ℤ_assoc : (a b c : ℤ) → a +ℤ b +ℤ c ≡ a +ℤ (b +ℤ c)
unfolding ◌+ℤ◌
+ℤ_assoc a b c = ground arith

-- Wrapping early or late gives the same sum.
pub wrap_i64-+ℤ_left : (a b : ℤ) → wrap_i64 (wrap_i64 a +ℤ b) ≡ wrap_i64 (a +ℤ b)
unfolding wrap_i64 ◌+ℤ◌
wrap_i64-+ℤ_left (pos a) (pos b) = ground arith
wrap_i64-+ℤ_left (pos a) (negsuc b) = ground arith
wrap_i64-+ℤ_left (negsuc a) (pos b) = ground arith
wrap_i64-+ℤ_left (negsuc a) (negsuc b) = ground arith

pub +ℤ_comm : (a b : ℤ) → a +ℤ b ≡ b +ℤ a
unfolding ◌+ℤ◌
+ℤ_comm a b = ground arith

pub add_i64_assoc : (a b c : ℤ) → add_i64 (add_i64 a b) c ≡ add_i64 a (add_i64 b c)
unfolding add_i64
add_i64_assoc a b c =
    wrap_i64 (wrap_i64 (a +ℤ b) +ℤ c)
    ≡⟨ wrap_i64-+ℤ_left (a +ℤ b) c ⟩ wrap_i64 (a +ℤ b +ℤ c)
    ≡⟨ ap wrap_i64 (+ℤ_assoc a b c ∙ +ℤ_comm a (b +ℤ c)) ⟩ wrap_i64 (b +ℤ c +ℤ a)
    ≡⟨ sym (wrap_i64-+ℤ_left (b +ℤ c) a) ⟩ wrap_i64 (wrap_i64 (b +ℤ c) +ℤ a)
    ≡⟨ ap wrap_i64 (+ℤ_comm (wrap_i64 (b +ℤ c)) a) ⟩ wrap_i64 (a +ℤ wrap_i64 (b +ℤ c)) ∎
