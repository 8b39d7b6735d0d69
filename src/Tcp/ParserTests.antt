-- ===== src/Tcp/ParserTests.antt =====
-- The parser on the requests of its own unit tests (tcp-actor-server/src/http.rs).
use hicho.Common.{◌≡◌, refl, true, false, Bytes, bytes_eq, ok, err}
use hicho.Common.Text.{bytes, starts_with, to_ascii_lowercase, eq_ignore_ascii_case}
use hicho.Tcp.Strings.{is_utf8, split, split_crlf, split_once, trim}
use hicho.Tcp.Strings.Decimal.{parse_usize, digits_from}
use hicho.Tcp.Http.{
  incomplete, malformed, unsupported, parse_head, find_subsequence, position, parse_text,
  request_line, header_lines, header_line,
}

abbrev post : Bytes
post = bytes "POST /x HTTP/1.1\r\nContent-Length:  5 \r\n\r\nhello"

post_parsed :
    parse_head post
    ≡ ok (
      record { method = bytes "POST"; path = bytes "/x"; keep_alive = true; content_length = 5 },
      41,
    )
unfolding parse_head find_subsequence position starts_with parse_text is_utf8 split_crlf
    request_line split header_lines header_line bytes_eq split_once trim to_ascii_lowercase
    parse_usize digits_from eq_ignore_ascii_case
post_parsed = refl

chunked_unsupported :
    parse_head (bytes "POST / HTTP/1.1\r\nTransfer-Encoding: Chunked\r\n\r\n") ≡ err unsupported
unfolding parse_head find_subsequence position starts_with parse_text is_utf8 split_crlf
    request_line split header_lines header_line bytes_eq split_once trim to_ascii_lowercase
    eq_ignore_ascii_case
chunked_unsupported = refl

old_keep_alive :
    parse_head (bytes "GET / HTTP/1.0\r\nConnection: keep-alive\r\n\r\n")
    ≡ ok (
      record { method = bytes "GET"; path = bytes "/"; keep_alive = true; content_length = 0 },
      42,
    )
unfolding parse_head find_subsequence position starts_with parse_text is_utf8 split_crlf
    request_line split header_lines header_line bytes_eq split_once trim to_ascii_lowercase
    eq_ignore_ascii_case
old_keep_alive = refl

new_close :
    parse_head (bytes "GET / HTTP/1.1\r\nConnection: close\r\n\r\n")
    ≡ ok (
      record { method = bytes "GET"; path = bytes "/"; keep_alive = false; content_length = 0 },
      37,
    )
unfolding parse_head find_subsequence position starts_with parse_text is_utf8 split_crlf
    request_line split header_lines header_line bytes_eq split_once trim to_ascii_lowercase
    eq_ignore_ascii_case
new_close = refl

garbage_malformed : parse_head (bytes "GET / HTTP/2\r\n\r\n") ≡ err malformed
unfolding parse_head find_subsequence position starts_with parse_text is_utf8 split_crlf
    request_line split header_lines bytes_eq
garbage_malformed = refl

start_incomplete : parse_head (bytes "GET / HTTP/1.1\r\nHost: x") ≡ err incomplete
unfolding parse_head find_subsequence position starts_with
start_incomplete = refl
