-- ===== src/Tcp/Http/Response.antt =====
-- How a client takes a response apart (tcp-actor-server/src/http.rs, `build_response`).
use hicho.Common.{
  ℕ, zero, suc, ◌+◌, ◌/◌, ◌%◌, ◌≡◌, ◌≢◌, refl, Bool, true, false, Option, none, some, List, [], ◌∷◌,
  ◌++◌, Bytes, length, All, drop, arith, Bool-cases, inl, inr, ltb, ◌==◌, if◌then◌else◌,
  length-append, drop-append,
}
use mathlib.Core.List.{append_assoc, append-nil}
use hicho.Common.Text.{bytes, starts_with}
use hicho.Tcp.Strings.Decimal.{show, show_digits}
use hicho.Tcp.Http.{position, crlf_crlf, build_response}

ruleset list_laws = (append_assoc, append-nil)

-- No carriage return: text that ends no line.
abbrev pub IsOneLine : Bytes → Type 0
IsOneLine s = All (λ c. c ≢ 13) s

abbrev shift : ℕ → Option ℕ → Option ℕ
shift n none = none
shift n (some i) = some (n + i)

position_skip :
    (xs ys : Bytes)
    → IsOneLine xs
    → position crlf_crlf (xs ++ ys) ≡ shift (length xs) (position crlf_crlf ys)
unfolding position
position_skip [] ys h = ground arith
position_skip (c ∷ xs) ys h =
    let other : starts_with (c ∷ xs ++ ys) crlf_crlf ≡ false = unfold starts_with in ground arith in
    ground (arith, position_skip xs ys h.1)

-- a line end with a line after it
position_line :
    (c : ℕ) (ys : Bytes)
    → c ≢ 13
    → position crlf_crlf (13 ∷ 10 ∷ c ∷ ys) ≡ shift 2 (position crlf_crlf (c ∷ ys))
unfolding position starts_with
position_line c ys h = ground arith

position_blank : (ys : Bytes) → position crlf_crlf (crlf_crlf ++ ys) ≡ some 0
unfolding position starts_with
position_blank ys = ground arith

All-append : (xs ys : Bytes) → IsOneLine xs → IsOneLine ys → IsOneLine (xs ++ ys)
All-append [] ys h k = k
All-append (c ∷ xs) ys h k = (h.0, All-append xs ys h.1 k)

show_digits-IsOneLine : (fuel n : ℕ) → IsOneLine (show_digits fuel n)
unfolding show_digits
show_digits-IsOneLine zero n = tt
show_digits-IsOneLine (suc fuel) n = elim (Bool-cases (ltb n 10)) [
  | inl small ↦ ground arith
  | inr large ↦
      let last : 48 + n % 10 ≢ 13 = λ e. omega arith in
      ground (
        arith,
        All-append (show_digits fuel (n / 10)) ((48 + n % 10) ∷ [])
            (show_digits-IsOneLine fuel (n / 10)) (last, tt),
      )
]

-- Lines, and the blank line after them.
abbrev head_of : Bytes → List Bytes → Bytes
head_of line [] = line ++ crlf_crlf
head_of line (next ∷ lines) = line ++ (13 ∷ 10 ∷ head_of next lines)

-- Lines with text.
abbrev AreHeaders : List Bytes → Type 0
AreHeaders [] = Unit
AreHeaders ([] ∷ lines) = ⊥
AreHeaders ((c ∷ line) ∷ lines) = (c ≢ 13) × IsOneLine line × AreHeaders lines

head_of-cons :
    (c : ℕ) (line : Bytes) (lines : List Bytes) → head_of (c ∷ line) lines ≡ c ∷ head_of line lines
head_of-cons c line [] = refl
head_of-cons c line (next ∷ lines) = refl

-- The blank line of `head_of` is the first one in the text.
position-head_of :
    (line : Bytes) (lines : List Bytes) (rest : Bytes)
    → IsOneLine line
    → AreHeaders lines
    → (i : ℕ) × (position crlf_crlf (head_of line lines ++ rest) ≡ some i)
      × (i + 4 ≡ length (head_of line lines))
position-head_of line [] rest h k = (
  length line,
  ground (
    arith,
    append_assoc line crlf_crlf rest,
    position_skip line (crlf_crlf ++ rest) h,
    position_blank rest,
  ),
  omega (arith, length-append line crlf_crlf),
)
position-head_of line ([] ∷ lines) rest h k = absurd k
position-head_of line ((c ∷ next) ∷ lines) rest h k =
    let (i, found, len) = position-head_of (c ∷ next) lines rest (k.0, k.1) k.2 in
    let tail = head_of next lines ++ rest in
    (
      length line + (2 + i),
      ground (
        arith,
        append_assoc line (13 ∷ 10 ∷ head_of (c ∷ next) lines) rest,
        position_skip line (13 ∷ 10 ∷ c ∷ tail) h,
        position_line c tail k.0,
        head_of-cons c next lines,
      ),
      omega (arith, length-append line (13 ∷ 10 ∷ head_of (c ∷ next) lines), len),
    )

-- The lines of a response.
abbrev status_line : ℕ → Bytes → Bytes
status_line status reason = bytes "HTTP/1.1 " ++ show status ++ bytes " " ++ reason

abbrev headers : ℕ → Bool → List Bytes
headers len keep_alive =
    bytes "content-type: text/plain; charset=utf-8"
    ∷ (bytes "content-length: " ++ show len)
    ∷ (bytes "connection: " ++ (if keep_alive then bytes "keep-alive" else bytes "close"))
    ∷ []

build_response-lines :
    (status : ℕ) (reason body : Bytes) (keep_alive write_body : Bool)
    → build_response status reason body keep_alive write_body
      ≡ head_of (status_line status reason) (headers (length body) keep_alive)
        ++ (if write_body then body else [])
unfolding build_response
build_response-lines status reason body true true = simp list_laws
build_response-lines status reason body true false = simp list_laws
build_response-lines status reason body false true = simp list_laws
build_response-lines status reason body false false = simp list_laws

abbrev has_no_cr : Bytes → Bool
has_no_cr [] = true
has_no_cr (c ∷ cs) = if c == 13 then false else has_no_cr cs

pub has_no_cr-IsOneLine : (s : Bytes) → has_no_cr s ≡ true → IsOneLine s
has_no_cr-IsOneLine [] h = tt
has_no_cr-IsOneLine (c ∷ s) h = ground (arith, has_no_cr-IsOneLine s)

status_line-IsOneLine :
    (status : ℕ) (reason : Bytes) → IsOneLine reason → IsOneLine (status_line status reason)
unfolding show
status_line-IsOneLine status reason h =
    All-append (bytes "HTTP/1.1 " ++ show status ++ bytes " ") reason
      (All-append (bytes "HTTP/1.1 " ++ show status) (bytes " ")
        (All-append (bytes "HTTP/1.1 ") (show status) (has_no_cr-IsOneLine (bytes "HTTP/1.1 ") refl)
          (show_digits-IsOneLine 20 status))
        (has_no_cr-IsOneLine (bytes " ") refl))
      h

length-IsOneLine : (len : ℕ) → IsOneLine (bytes "content-length: " ++ show len)
unfolding show
length-IsOneLine len =
    All-append (bytes "content-length: ") (show len)
      (has_no_cr-IsOneLine (bytes "content-length: ") refl) (show_digits-IsOneLine 20 len)

headers-AreHeaders : (len : ℕ) (keep_alive : Bool) → AreHeaders (headers len keep_alive)
headers-AreHeaders len true =
    let first = has_no_cr-IsOneLine (bytes "content-type: text/plain; charset=utf-8") refl in
    let second = length-IsOneLine len in
    let third = has_no_cr-IsOneLine (bytes "connection: keep-alive") refl in
    (first.0, first.1, (second.0, second.1, (third.0, third.1, tt)))
headers-AreHeaders len false =
    let first = has_no_cr-IsOneLine (bytes "content-type: text/plain; charset=utf-8") refl in
    let second = length-IsOneLine len in
    let third = has_no_cr-IsOneLine (bytes "connection: close") refl in
    (first.0, first.1, (second.0, second.1, (third.0, third.1, tt)))

-- A client that takes the bytes up to the first blank line for the head, as HTTP says, gets back
-- the body, or nothing if it is not to be written (as in the answer to a HEAD request); of a
-- response whose reason holds no carriage return.
pub build_response_splits :
    (status : ℕ) (reason body : Bytes) (keep_alive write_body : Bool)
    → IsOneLine reason
    → let r = build_response status reason body keep_alive write_body in
      (i : ℕ) × (position crlf_crlf r ≡ some i)
      × (drop (i + 4) r ≡ (if write_body then body else []))
build_response_splits status reason body keep_alive write_body h =
    let rest = if write_body then body else [] in
    let head = head_of (status_line status reason) (headers (length body) keep_alive) in
    let (i, found, len) =
      position-head_of (status_line status reason) (headers (length body) keep_alive) rest
        (status_line-IsOneLine status reason h) (headers-AreHeaders (length body) keep_alive) in
    let lines = build_response-lines status reason body keep_alive write_body in
    (i, rw lines found, rw (lines, len) (drop-append head rest))
