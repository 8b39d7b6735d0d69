-- ===== src/Tcp/Strings.antt =====
-- The parts of Rust's `str` that the HTTP parser uses (tcp-actor-server/src/http.rs), on the bytes
-- of a string.
pub mod Decimal
use hicho.Common.{
  ℕ, zero, suc, ◌+◌, ◌-◌, ◌*◌, Bool, true, false, not, ◌&&◌, ◌||◌, Option, none, some, List, [],
  ◌∷◌, ◌++◌, Bytes, leb, ltb, ◌==◌, if◌then◌else◌,
}

abbrev between : ℕ → ℕ → ℕ → Bool
between lo hi c = leb lo c && leb c hi

-- How many bytes follow the first byte of a UTF-8 sequence, and in which range the second one
-- lies; `none` for a byte that starts no sequence.
abbrev utf8_lead : ℕ → Option (ℕ × ℕ × ℕ)
utf8_lead c =
    if leb c 127
    then some (0, 0, 0)
    else if between 194 223 c
    then some (1, 128, 191)
    else if c == 224
    then some (2, 160, 191)
    else if c == 237
    then some (2, 128, 159)
    else if between 225 239 c
    then some (2, 128, 191)
    else if c == 240
    then some (3, 144, 191)
    else if between 241 243 c
    then some (3, 128, 191)
    else if c == 244
    then some (3, 128, 143)
    else none

-- The bytes that are due in a sequence that has begun, with the range of the next one.
utf8_rest : ℕ → ℕ → ℕ → Bytes → Bool
utf8_rest zero lo hi [] = true
utf8_rest (suc n) lo hi [] = false
utf8_rest zero lo hi (c ∷ cs) = elim (utf8_lead c) [
  | none ↦ false
  | some (n, lo', hi') ↦ utf8_rest n lo' hi' cs
]
utf8_rest (suc n) lo hi (c ∷ cs) = elim (between lo hi c) [
  | true ↦ utf8_rest n 128 191 cs
  | false ↦ false
]

-- `std::str::from_utf8`: whether it accepts the bytes
unfoldable pub is_utf8 : Bytes → Bool
unfolding utf8_rest
is_utf8 s = utf8_rest 0 0 0 s

-- the head of a split, one byte longer
abbrev extend : ℕ → List Bytes → List Bytes
extend c [] = (c ∷ []) ∷ []
extend c (s ∷ ss) = (c ∷ s) ∷ ss

-- `split` at a byte
unfoldable pub split : ℕ → Bytes → List Bytes
split sep [] = [] ∷ []
split sep (c ∷ cs) = let rest = split sep cs in if c == sep then [] ∷ rest else extend c rest

-- `split("\r\n")`; the flag says that a CR came last
split_after : Bool → Bytes → List Bytes
split_after false [] = [] ∷ []
split_after true [] = (13 ∷ []) ∷ []
split_after false (c ∷ cs) = elim (c == 13) [
  | true ↦ split_after true cs
  | false ↦ extend c (split_after false cs)
]
split_after true (c ∷ cs) = elim (c == 10) [
  | true ↦ [] ∷ split_after false cs
  | false ↦ elim (c == 13) [
    | true ↦ extend 13 (split_after true cs)
    | false ↦ extend 13 (extend c (split_after false cs))
  ]
]

unfoldable pub split_crlf : Bytes → List Bytes
unfolding split_after
split_crlf s = split_after false s

-- `split_once` at a byte
unfoldable pub split_once : ℕ → Bytes → Option (Bytes × Bytes)
split_once sep [] = none
split_once sep (c ∷ cs) =
    let rest = split_once sep cs in
    if c == sep then some ([], cs) else elim rest [ none ↦ none | some (a, b) ↦ some (c ∷ a, b) ]

-- How many bytes the white space at the front takes (the `White_Space` characters of Unicode), in
-- the order of the bytes.
abbrev space_width : Bytes → ℕ
space_width [] = 0
space_width (a ∷ []) = if between 9 13 a || a == 32 then 1 else 0
space_width (a ∷ b ∷ []) =
    if between 9 13 a || a == 32 then 1 else if a == 194 && (b == 133 || b == 160) then 2 else 0
space_width (a ∷ b ∷ c ∷ s) =
    if between 9 13 a || a == 32
    then 1
    else if a == 194 && (b == 133 || b == 160)
    then 2
    else if (a == 225 && b == 154 && c == 128)
        || (a == 226 && b == 128 && (between 128 138 c || c == 168 || c == 169 || c == 175))
        || (a == 226 && b == 129 && c == 159)
        || (a == 227 && b == 128 && c == 128)
    then 3
    else 0

-- the same at the end, of the reversed bytes
abbrev space_width_back : Bytes → ℕ
space_width_back [] = 0
space_width_back (a ∷ []) = space_width (a ∷ [])
space_width_back (b ∷ a ∷ []) =
    if between 9 13 b || b == 32 then 1 else if space_width (a ∷ b ∷ []) == 2 then 2 else 0
space_width_back (c ∷ b ∷ a ∷ s) =
    if between 9 13 c || c == 32
    then 1
    else if space_width (b ∷ c ∷ []) == 2
    then 2
    else if space_width (a ∷ b ∷ c ∷ []) == 3
    then 3
    else 0

-- Drop `skip` bytes, then the white space in front.
trim_by : (Bytes → ℕ) → ℕ → Bytes → Bytes
trim_by width skip [] = []
trim_by width (suc skip) (c ∷ cs) = trim_by width skip cs
trim_by width zero (c ∷ cs) = elim (width (c ∷ cs)) [ zero ↦ c ∷ cs | suc n ↦ trim_by width n cs ]

abbrev reverse_onto : Bytes → Bytes → Bytes
reverse_onto acc [] = acc
reverse_onto acc (c ∷ cs) = reverse_onto (c ∷ acc) cs

-- `trim`
unfoldable pub trim : Bytes → Bytes
unfolding trim_by
trim s = reverse_onto [] (trim_by space_width_back 0 (reverse_onto [] (trim_by space_width 0 s)))
