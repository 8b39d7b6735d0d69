-- ===== src/Tcp/Http/Framing.antt =====
-- Where a head ends, and how its parse depends on the bytes that follow
-- (tcp-actor-server/src/http.rs).
use hicho.Common.{
  ℕ, zero, suc, ◌+◌, ◌-◌, ◌≤◌, ◌<◌, ◌≡◌, ◌≢◌, refl, ap, true, false, Option, none, some, List, [],
  ◌∷◌, ◌++◌, Bytes, length, take, drop, Result, ok, err, arith, Option-cases, Bool-cases,
  Result-cases, inl, inr, ltb, if◌then◌else◌, length-append,
}
use hicho.Common.Text.{starts_with}
use hicho.Tcp.Http.{
  RequestHead, ParseError, incomplete, head_too_large, position, find_subsequence, crlf_crlf,
  parse_text, header_line, header_lines, Framing, parse_head, max_head_bytes,
}

starts_with-length : (s p : Bytes) → starts_with s p ≡ true → length p ≤ length s
unfolding starts_with
starts_with-length s [] h = omega arith
starts_with-length [] (c ∷ p) h = ground arith
starts_with-length (d ∷ s) (c ∷ p) h = ground (arith, starts_with-length s p)

starts_with-append :
    (s t p : Bytes) → length p ≤ length s → starts_with (s ++ t) p ≡ starts_with s p
unfolding starts_with
starts_with-append s t [] h = ground arith
starts_with-append [] t (c ∷ p) h = ground arith
starts_with-append (d ∷ s) t (c ∷ p) h = ground (arith, starts_with-append s t p)

position_bound : (p s : Bytes) (i : ℕ) → position p s ≡ some i → i + length p ≤ length s
unfolding position
position_bound p [] i h = ground arith
position_bound p (c ∷ s) zero h = ground (arith, starts_with-length (c ∷ s) p)
position_bound p (c ∷ s) (suc i) h = ground (arith, position_bound p s i)

-- `p` stands at `i` and at no earlier place.
abbrev pub FirstAt : Bytes → Bytes → ℕ → Type 0
FirstAt p s i =
    (starts_with (drop i s) p ≡ true) × ((j : ℕ) → j < i → starts_with (drop j s) p ≡ false)

position-starts : (p s : Bytes) (i : ℕ) → position p s ≡ some i → starts_with (drop i s) p ≡ true
unfolding position
position-starts p [] i h = ground arith
position-starts p (c ∷ s) zero h = ground arith
position-starts p (c ∷ s) (suc i) h = ground (arith, position-starts p s i)

position-earlier :
    (p s : Bytes) (i j : ℕ) → position p s ≡ some i → j < i → starts_with (drop j s) p ≡ false
unfolding position
position-earlier p [] i j h lt = ground arith
position-earlier p (c ∷ s) zero j h lt = elim lt [ ]
position-earlier p (c ∷ s) (suc i) zero h lt = ground arith
position-earlier p (c ∷ s) (suc i) (suc j) h lt = ground (arith, position-earlier p s i j)

position-append : (p s t : Bytes) (i : ℕ) → position p s ≡ some i → position p (s ++ t) ≡ some i
unfolding position
position-append p [] t i h = ground arith
position-append p (c ∷ s) t zero h =
    ground (arith, starts_with-length (c ∷ s) p, starts_with-append (c ∷ s) t p)
position-append p (c ∷ s) t (suc i) h =
    ground (arith, position-append p s t i, position_bound p s i, starts_with-append (c ∷ s) t p)

-- An occurrence that more bytes complete ends in them.
position_late :
    (p s t : Bytes) (i : ℕ)
    → 1 ≤ length p
    → position p s ≡ none
    → position p (s ++ t) ≡ some i
    → length s < i + length p
unfolding position
position_late p [] t i hp h e = omega arith
position_late p (c ∷ s) t zero hp h e = elim (Bool-cases (ltb (length (c ∷ s)) (length p))) [
  | inl long ↦ ground arith
  | inr short ↦ ground (arith, starts_with-append (c ∷ s) t p)
]
position_late p (c ∷ s) t (suc i) hp h e = ground (arith, position_late p s t i hp)

find-position : (s : Bytes) → find_subsequence s crlf_crlf ≡ position crlf_crlf s
unfolding find_subsequence
find-position s = elim (Option-cases (position crlf_crlf s)) [
  | inl missing ↦ ground arith
  | inr (i, found) ↦ ground (arith, position_bound crlf_crlf s i found)
]

take-append_short : (n : ℕ) (s t : Bytes) → n ≤ length s → take n (s ++ t) ≡ take n s
take-append_short zero s t h = refl
take-append_short (suc n) [] t h = ground arith
take-append_short (suc n) (c ∷ s) t h = ground (arith, take-append_short n s t)

-- what `parse_head` does once it has found the blank line, or not
abbrev at_end : Bytes → Option ℕ → Result ParseError (RequestHead × ℕ)
at_end buf none = if ltb max_head_bytes (length buf) then err head_too_large else err incomplete
at_end buf (some i) =
    if ltb max_head_bytes (i + 4)
    then err head_too_large
    else elim (parse_text (take i buf)) [ err e ↦ err e | ok head ↦ ok (head, i + 4) ]

parse_head-at_end : (buf : Bytes) → parse_head buf ≡ at_end buf (position crlf_crlf buf)
unfolding parse_head
parse_head-at_end buf = elim (Option-cases (position crlf_crlf buf)) [
  | inl missing ↦ ground (arith, find-position buf)
  | inr (i, found) ↦
      let less : take (i + 4 - 4) buf ≡ take i buf = ap (λ n. take n buf) (omega arith) in
      ground (arith, find-position buf, less)
]

at_end-ok :
    (buf : Bytes) (i n : ℕ) (head : RequestHead)
    → at_end buf (some i) ≡ ok (head, n)
    → (n ≡ i + 4) × (i + 4 ≤ 8192)
at_end-ok buf i n head h = ground arith

-- A head that `parse_head` accepts ends with the first blank line of the buffer, lies in the buffer,
-- and takes from 4 to 8192 bytes.
pub parse_head_frames :
    (buf : Bytes) (head : RequestHead) (n : ℕ)
    → parse_head buf ≡ ok (head, n)
    → (4 ≤ n) × (n ≤ 8192) × (n ≤ length buf) × FirstAt crlf_crlf buf (n - 4)
parse_head_frames buf head n h = elim (Option-cases (position crlf_crlf buf)) [
  | inl missing ↦ ground (arith, parse_head-at_end buf)
  | inr (i, found) ↦
      let (end, small) = at_end-ok buf i n head (ground (arith, parse_head-at_end buf)) in
      let back : n - 4 ≡ i = omega arith in
      (
        omega arith,
        omega arith,
        omega (arith, position_bound crlf_crlf buf i found),
        rw back
            (position-starts crlf_crlf buf i found, λ j. position-earlier crlf_crlf buf i j found),
      )
]

-- Whatever `parse_head` answers other than `incomplete`, it answers the same when more bytes have
-- come.
pub parse_head_stable :
    (buf more : Bytes) → parse_head buf ≢ err incomplete → parse_head (buf ++ more) ≡ parse_head buf
parse_head_stable buf more h = elim (Option-cases (position crlf_crlf buf)) [
  | inl missing ↦ elim (Option-cases (position crlf_crlf (buf ++ more))) [
    | inl none_yet ↦
        ground
          (arith, parse_head-at_end buf, parse_head-at_end (buf ++ more), length-append buf more)
    | inr (i, late) ↦ ground (
      arith,
      parse_head-at_end buf,
      parse_head-at_end (buf ++ more),
      position_late crlf_crlf buf more i (omega arith) missing late,
    )
  ]
  | inr (i, found) ↦ ground (
    arith,
    parse_head-at_end buf,
    parse_head-at_end (buf ++ more),
    position-append crlf_crlf buf more i found,
    position_bound crlf_crlf buf i found,
    take-append_short i buf more,
  )
]

header_line_complete : (line : Bytes) (f : Framing) → header_line line f ≢ err incomplete
unfolding header_line
header_line_complete line f = ground arith

header_lines_complete : (lines : List Bytes) (f : Framing) → header_lines lines f ≢ err incomplete
unfolding header_lines
header_lines_complete [] f = ground arith
header_lines_complete (line ∷ lines) f = elim (Result-cases (header_line line f)) [
  | inl (f', e) ↦ ground (arith, header_lines_complete lines f')
  | inr (x, e) ↦ ground (arith, header_line_complete line f)
]

-- A head with its blank line is never incomplete.
parse_text_complete : (head : Bytes) → parse_text head ≢ err incomplete
unfolding parse_text
parse_text_complete head = grind (arith, header_lines_complete)

-- An incomplete head fits into the bound.
pub incomplete_short : (buf : Bytes) → parse_head buf ≡ err incomplete → length buf ≤ 8192
incomplete_short buf h = elim (Option-cases (position crlf_crlf buf)) [
  | inl missing ↦ ground (arith, parse_head-at_end buf)
  | inr (i, found) ↦ ground (arith, parse_head-at_end buf, parse_text_complete (take i buf))
]
