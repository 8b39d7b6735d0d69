-- ===== src/Tcp/Http.antt =====
-- Requests and responses (tcp-actor-server/src/http.rs).
pub mod Framing
pub mod Response
use hicho.Common.{
  ℕ, zero, suc, ◌+◌, ◌-◌, Bool, true, false, not, ◌&&◌, ◌||◌, Option, none, some, List, [], ◌∷◌,
  ◌++◌, map, Bytes, bytes_eq, length, take, Result, ok, err, ltb, ◌==◌, if◌then◌else◌,
}
use hicho.Common.Text.{bytes, starts_with, eq_ignore_ascii_case, to_ascii_lowercase}
use hicho.Tcp.Strings.{is_utf8, split, split_crlf, split_once, trim}
use hicho.Tcp.Strings.Decimal.{parse_usize, show}

abbrev pub max_head_bytes : ℕ
max_head_bytes = 8192

pub record RequestHead : Type 0 where
  pub method : Bytes
  pub path : Bytes
  pub keep_alive : Bool
  pub content_length : ℕ

pub data ParseError : Type 0 where
  incomplete malformed head_too_large unsupported : ParseError

-- the first place at which `needle` starts
unfoldable pub position : Bytes → Bytes → Option ℕ
position needle [] = none
position needle (c ∷ cs) =
    let later = position needle cs in
    if starts_with (c ∷ cs) needle
    then some 0
    else elim later [ none ↦ none | some i ↦ some (suc i) ]

unfoldable pub find_subsequence : Bytes → Bytes → Option ℕ
find_subsequence haystack needle =
    if length needle == 0 || ltb (length haystack) (length needle)
    then none
    else position needle haystack

abbrev pub crlf_crlf : Bytes
crlf_crlf = 13 ∷ 10 ∷ 13 ∷ 10 ∷ []

-- `filter(|s| !s.is_empty())` and `ok_or`, on the next part
abbrev non_empty : Bytes → Option Bytes
non_empty [] = none
non_empty (c ∷ cs) = some (c ∷ cs)

-- The request line: method, path and version, and nothing more.
unfoldable pub request_line : Bytes → Option (Bytes × Bytes × Bytes)
request_line line = elim (split b' ' line) [
  | method ∷ path ∷ version ∷ [] ↦ elim (non_empty method) [
    | none ↦ none
    | some m ↦ elim (non_empty path) [
      | none ↦ none
      | some p ↦ if starts_with version (bytes "HTTP/1.") then some (m, p, version) else none
    ]
  ]
  | _ ↦ none
]

-- What the headers decide: whether to keep the connection, and the length of the body.
abbrev pub Framing : Type 0
Framing = Bool × ℕ

-- one header line of the loop
unfoldable pub header_line : Bytes → Framing → Result ParseError Framing
header_line line (keep_alive, content_length) =
    if length line == 0 then ok (keep_alive, content_length) else elim (split_once b':' line) [
      | none ↦ err malformed
      | some (raw_name, raw_value) ↦
          let name = map to_ascii_lowercase (trim raw_name) in
          let value = trim raw_value in
          if bytes_eq name (bytes "content-length")
          then elim (parse_usize value) [ none ↦ err malformed | some n ↦ ok (keep_alive, n) ]
          else if bytes_eq name (bytes "transfer-encoding")
              && eq_ignore_ascii_case value (bytes "chunked")
          then err unsupported
          else if bytes_eq name (bytes "connection")
          then (if eq_ignore_ascii_case value (bytes "close")
              then ok (false, content_length)
              else if eq_ignore_ascii_case value (bytes "keep-alive")
              then ok (true, content_length)
              else ok (keep_alive, content_length))
          else ok (keep_alive, content_length)
    ]

-- the loop over the header lines
unfoldable pub header_lines : List Bytes → Framing → Result ParseError Framing
header_lines [] f = ok f
header_lines (line ∷ lines) f = elim (header_line line f) [
  | err e ↦ err e
  | ok f' ↦ header_lines lines f'
]

-- the head without its blank line
unfoldable pub parse_text : Bytes → Result ParseError RequestHead
parse_text head =
    if is_utf8 head
    then elim (split_crlf head) [
      | [] ↦ err malformed
      | line ∷ lines ↦ elim (request_line line) [
        | none ↦ err malformed
        | some (method, path, version) ↦
            elim (header_lines lines (bytes_eq version (bytes "HTTP/1.1"), 0)) [
              | err e ↦ err e
              | ok (keep_alive, content_length) ↦ ok (record {
                method = method;
                path = path;
                keep_alive = keep_alive;
                content_length = content_length;
              })
            ]
      ]
    ]
    else err malformed

unfoldable pub parse_head : Bytes → Result ParseError (RequestHead × ℕ)
parse_head buf = elim (find_subsequence buf crlf_crlf) [
  | none ↦ if ltb max_head_bytes (length buf) then err head_too_large else err incomplete
  | some i ↦
      let head_end = i + 4 in
      if ltb max_head_bytes head_end
      then err head_too_large
      else elim (parse_text (take (head_end - 4) buf)) [
        | err e ↦ err e
        | ok head ↦ ok (head, head_end)
      ]
]

unfoldable pub build_response : ℕ → Bytes → Bytes → Bool → Bool → Bytes
build_response status reason body keep_alive write_body =
    let conn = if keep_alive then bytes "keep-alive" else bytes "close" in
    let head =
      bytes "HTTP/1.1 "
      ++ show status
      ++ bytes " "
      ++ reason
      ++ bytes "\r\ncontent-type: text/plain; charset=utf-8\r\ncontent-length: "
      ++ show (length body)
      ++ bytes "\r\nconnection: "
      ++ conn
      ++ bytes "\r\n\r\n" in
    if write_body then head ++ body else head
