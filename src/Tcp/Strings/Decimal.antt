-- ===== src/Tcp/Strings/Decimal.antt =====
-- Decimal numbers: `parse::<usize>` and `Display` (tcp-actor-server/src/http.rs).
use hicho.Common.{
  ℕ, zero, suc, ◌+◌, ◌-◌, ◌*◌, ◌/◌, ◌%◌, ◌^◌, ◌<◌, ◌≤◌, ◌≡◌, refl, ◌&&◌, Option, none, some, [],
  ◌∷◌, ◌++◌, Bytes, leb, ltb, ◌==◌, if◌then◌else◌, arith, Option-cases, Bool-cases, inl, inr,
}
use native.Mathlib.Nat.{pow-succ'}

abbrev usize_max : ℕ
usize_max = 18446744073709551615

-- one more digit, checked
abbrev add_digit : ℕ → ℕ → Option ℕ
add_digit acc c =
    if leb 48 c && leb c 57
    then (if ltb usize_max (acc * 10 + (c - 48)) then none else some (acc * 10 + (c - 48)))
    else none

unfoldable pub digits_from : ℕ → Bytes → Option ℕ
digits_from acc [] = some acc
digits_from acc (c ∷ cs) = elim (add_digit acc c) [ none ↦ none | some n ↦ digits_from n cs ]

-- `parse::<usize>` on a 64-bit machine; `none` is an error. A plus sign may come first.
unfoldable pub parse_usize : Bytes → Option ℕ
parse_usize [] = none
parse_usize (c ∷ []) = digits_from 0 (c ∷ [])
parse_usize (c ∷ d ∷ s) = if c == 43 then digits_from 0 (d ∷ s) else digits_from 0 (c ∷ d ∷ s)

-- `Display`, for numbers of at most `fuel` digits
unfoldable pub show_digits : ℕ → ℕ → Bytes
show_digits zero n = []
show_digits (suc fuel) n =
    let high = show_digits fuel (n / 10) in
    if ltb n 10 then (48 + n) ∷ [] else high ++ ((48 + n % 10) ∷ [])

-- A 64-bit number has at most 20 digits.
unfoldable pub show : ℕ → Bytes
show n = show_digits 20 n

digits_from-append :
    (acc : ℕ) (s : Bytes) (c : ℕ)
    → digits_from acc (s ++ (c ∷ []))
      ≡ elim (digits_from acc s) [ none ↦ none | some n ↦ add_digit n c ]
unfolding digits_from
digits_from-append acc [] c = ground arith
digits_from-append acc (d ∷ s) c = elim (Option-cases (add_digit acc d)) [
  | inl bad ↦ ground arith
  | inr (n, e) ↦ ground (arith, digits_from-append n s c)
]

-- Each number below 2^64 is read back from its digits, at any fuel that suffices.
digits_from-show :
    (fuel n : ℕ)
    → n < 10 ^ suc fuel
    → n ≤ 18446744073709551615
    → digits_from 0 (show_digits (suc fuel) n) ≡ some n
unfolding show_digits
digits_from-show zero n h bound = unfold digits_from in ground arith
digits_from-show (suc fuel) n h bound = elim (Bool-cases (ltb n 10)) [
  | inl small ↦ unfold digits_from in ground arith
  | inr large ↦
      let high =
        digits_from-show fuel (n / 10) (omega (arith, pow-succ' 10 (suc fuel))) (omega arith) in
      ground (arith, digits_from-append 0 (show_digits (suc fuel) (n / 10)) (48 + n % 10), high)
]

show-starts :
    (fuel n : ℕ) → (c : ℕ) × (t : Bytes) × (show_digits (suc fuel) n ≡ c ∷ t) × (48 ≤ c) × (c ≤ 57)
unfolding show_digits
show-starts zero n = elim (Bool-cases (ltb n 10)) [
  | inl small ↦ (48 + n, [], ground arith, omega arith, ground arith)
  | inr large ↦ (48 + n % 10, [], ground arith, omega arith, omega arith)
]
show-starts (suc fuel) n = elim (Bool-cases (ltb n 10)) [
  | inl small ↦ (48 + n, [], ground arith, omega arith, ground arith)
  | inr large ↦
      let (c, t, e, lo, hi) = show-starts fuel (n / 10) in
      (c, t ++ ((48 + n % 10) ∷ []), ground arith, lo, hi)
]

parse_usize_unsigned : (c : ℕ) (t : Bytes) → 48 ≤ c → parse_usize (c ∷ t) ≡ digits_from 0 (c ∷ t)
unfolding parse_usize
parse_usize_unsigned c [] lo = refl
parse_usize_unsigned c (d ∷ t) lo = ground arith

-- A 64-bit number is read back from its decimal digits.
pub parse_usize-show : (n : ℕ) → n ≤ 18446744073709551615 → parse_usize (show n) ≡ some n
unfolding show
parse_usize-show n bound =
    let (c, t, e, lo, hi) = show-starts 19 n in
    let read = digits_from-show 19 n (omega arith) bound in
    ground (arith, parse_usize_unsigned c t lo)
