-- ===== src/Tcp/Tests.antt =====
-- Runs of the TCP server (tcp-actor-server/src) on small requests.
use hicho.Common.{
  ℕ, ◌≤◌, ◌≡◌, ◌≢◌, ◌↔◌, ◌+◌, ◌-◌, ◌⊎◌, refl, true, bytes_eq, none, some, List, [], ◌∷◌, ◌++◌,
  Bytes, arith, ok, err, length, drop,
}
use hicho.Common.Text.{bytes, starts_with}
use hicho.Tcp.Strings.{is_utf8, split, split_crlf}
use hicho.Tcp.Http.{
  RequestHead, incomplete, parse_head, crlf_crlf, build_response, position, find_subsequence,
  parse_text, request_line, header_lines, header_line,
}
use hicho.Tcp.Http.Framing.{FirstAt, parse_head_frames, parse_head_stable}
use hicho.Tcp.Http.Response.{build_response_splits, has_no_cr-IsOneLine}
use hicho.Tcp.Registry.{count}
use hicho.Tcp.Server.Accept.{Turn, acquire, stop, accept, task, start, run, is_drained}
use hicho.Tcp.Server.Live.{guards, permits_of}
use hicho.Tcp.Server.Runs.{run_counts, drained_iff}
use hicho.Tcp.Server.Connection.{
  Arrival, Env, Conn, Phase, reading, writing, closed, written, unfinished, accepted,
}
use hicho.Tcp.Server.Connection
use hicho.Tcp.Server.Connection.Bounds.{buffer_bounded, connection_ends}
use hicho.Tcp.Server.Connection.Pipeline.{IsRequest, joined, replies, pipeline_served}

abbrev get : Bytes
get = bytes "GET / HTTP/1.1\r\n\r\n"

abbrev get_head : RequestHead
get_head = record { method = bytes "GET"; path = bytes "/"; keep_alive = true; content_length = 0 }

parsed_get : parse_head get ≡ ok (get_head, 18)
unfolding parse_head find_subsequence position starts_with parse_text is_utf8 split_crlf
    request_line split header_lines header_line bytes_eq
parsed_get = refl

get_complete : parse_head get ≢ err incomplete
get_complete = rw parsed_get (λ e. cc)

parse_head_stable_example : parse_head (get ++ bytes "GET") ≡ parse_head get
parse_head_stable_example = parse_head_stable get (bytes "GET") get_complete

parse_head_frames_example :
    (4 ≤ 18) × (18 ≤ 8192) × (18 ≤ length get) × FirstAt crlf_crlf get (18 - 4)
parse_head_frames_example = parse_head_frames get get_head 18 parsed_get

build_response_splits_example :
    let r = build_response 200 (bytes "OK") (bytes "ok\n") true true in
    (i : ℕ) × (position crlf_crlf r ≡ some i) × (drop (i + 4) r ≡ bytes "ok\n")
build_response_splits_example =
    build_response_splits 200 (bytes "OK") (bytes "ok\n") true true
      (has_no_cr-IsOneLine (bytes "OK") refl)

abbrev turns : List (Turn Bytes)
turns =
    acquire
    ∷ accept (some (bytes "a"))
    ∷ acquire
    ∷ accept (some (bytes "b"))
    ∷ task 0
    ∷ task 1
    ∷ task 1
    ∷ task 1
    ∷ acquire
    ∷ []

run_counts_example :
    let s = run turns (start 2) in
    (count s.registry ≡ guards s.conns) × (s.permits + length s.conns + permits_of s.loop ≡ 2)
run_counts_example = run_counts turns 2 (omega arith)

drained_iff_example :
    let s = run (turns ++ stop ∷ task 0 ∷ []) (start 2) in
    (is_drained 2 s ≡ true) ↔ (length s.conns ≡ 0)
drained_iff_example = drained_iff turns (task 0 ∷ []) 2 (omega arith) (omega arith)

abbrev env : Env
env = record {
  max_body_bytes = 65536;
  request_timeout = 30;
  shutdown_at = none;
  writes = λ n. written;
  active = λ n. 1;
  metrics = λ n. record { connections_total = 1; requests_total = n };
}

-- One byte that comes early, and the rest when it is too late.
abbrev slow : List Arrival
slow =
    record { at = 5; result = some (bytes "G") }
    ∷ record { at = 100; result = some (bytes "ET") }
    ∷ []

buffer_bounded_example : length (Connection.run 3 env (accepted 0 slow)).buf ≤ 16384 + 65536
buffer_bounded_example = buffer_bounded 3 0 env slow

connection_ends_example :
    let c = Connection.run 12 env (accepted 0 slow) in
    (c.phase ≡ closed) ⊎ ((c.phase ≡ writing) × (env.writes (length c.sent) ≡ unfinished))
connection_ends_example = connection_ends 0 env slow (omega arith)

-- A connection with the first byte of a request.
abbrev begun : Conn
begun = record (accepted 5 slow) { buf = bytes "G" }

-- Two requests, one after the other.
abbrev requests : List (Bytes × RequestHead)
requests = (get, get_head) ∷ (get, get_head) ∷ []

get-IsRequest : IsRequest env get get_head
get-IsRequest = record {
  head_len = 18;
  parsed = parsed_get;
  framed = refl;
  fits = omega arith;
  allowed = omega arith;
  keeps = refl;
}

abbrev pipelined : Conn
pipelined = record (accepted 0 []) { buf = joined requests (bytes "GE") }

pipeline_served_example :
    Connection.run 4 env pipelined
    ≡ record pipelined { buf = bytes "GE"; sent = replies env requests []; served = 2 }
pipeline_served_example =
    pipeline_served env pipelined requests (bytes "GE") refl refl
      (get-IsRequest, (get-IsRequest, tt)) refl (λ n. refl)
