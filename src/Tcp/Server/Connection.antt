-- ===== src/Tcp/Server/Connection.antt =====
-- One connection: `handle_connection` with its reads, its routes and its deadline
-- (tcp-actor-server/src/server.rs).
pub mod Reads
pub mod Served
pub mod Deadline
pub mod Sound
pub mod Bounds
pub mod Pipeline
use hicho.Common.{
  ℕ, zero, suc, ◌+◌, ◌%◌, Bool, true, false, not, ◌&&◌, ◌||◌, Option, none, some, List, [], ◌∷◌,
  ◌++◌, Bytes, bytes_eq, length, take, drop, Result, ok, err, leb, ltb, ◌==◌, if◌then◌else◌,
}
use hicho.Common.Text.{bytes}
use hicho.Tcp.Strings.Decimal.{show}
use hicho.Tcp.Metrics.{Metrics}
use hicho.Tcp.Http.{
  RequestHead, ParseError, incomplete, malformed, head_too_large, unsupported, parse_head,
  build_response,
}

-- What a read of the socket will give, and when: bytes (none at the end of the stream) or an error.
pub record Arrival : Type 0 where
  pub at : ℕ
  pub result : Option Bytes

-- How a `write_all` ends: all is written, the write fails, or the peer never takes all of it. A write
-- has no time-out, so that the last one does not end.
pub data Write : Type 0 where
  written broken unfinished : Write

-- What the connection is given: the configuration; when the shutdown flag is set, if it is; how the
-- write of the n-th answer ends; and the registry's and the counters' readings for the n-th answer.
pub record Env : Type 0 where
  pub max_body_bytes : ℕ
  pub request_timeout : ℕ
  pub shutdown_at : Option ℕ
  pub writes : ℕ → Write
  pub active : ℕ → ℕ
  pub metrics : ℕ → Metrics

-- Where the code of the loop is: reading a head, with the deadline once it is armed; reading a body,
-- with the head, its length and the deadline; in a write that never ends; or past the loop.
pub data Phase : Type 0 where
  reading : Option ℕ → Phase
  body : RequestHead → ℕ → ℕ → Phase
  writing closed : Phase

-- `inbox` is what the socket will still give, `sent` the answers written (the last one first), and
-- `served` the number of requests counted by `on_request`.
pub record Conn : Type 0 where
  pub now : ℕ
  pub buf : Bytes
  pub inbox : List Arrival
  pub sent : List Bytes
  pub served : ℕ
  pub phase : Phase

pub data ReadOutcome : Type 0 where
  got eof timeout shutdown failed : ReadOutcome

abbrev pub later : ℕ → ℕ → ℕ
later a b = if leb a b then b else a

-- `classify`, for a read that came back: into a buffer of 8192 bytes
unfoldable pub classify : Option Bytes → Conn → ReadOutcome × Conn
classify none c = (failed, c)
classify (some []) c = (eof, c)
classify (some (b ∷ bs)) c = (got, record c { buf = c.buf ++ take 8192 (b ∷ bs) })

-- `read_until`: what is there by the deadline, or already there, is read.
unfoldable pub read_until : ℕ → Conn → ReadOutcome × Conn
read_until deadline c = elim c.inbox [
  | [] ↦ (timeout, record c { now = later c.now deadline })
  | a ∷ rest ↦
      if leb a.at (later c.now deadline)
      then classify a.result (record c { now = later c.now a.at; inbox = rest })
      else (timeout, record c { now = later c.now deadline })
]

-- whether the flag is set by the time `t`
abbrev pub is_set : Env → ℕ → Bool
is_set env t = elim env.shutdown_at [ none ↦ false | some at ↦ leb at t ]

-- `read_idle`: the shutdown flag comes first, then a read within the idle time.
unfoldable pub read_idle : Env → Conn → ReadOutcome × Conn
read_idle env c =
    let (outcome, c') = read_until (c.now + env.request_timeout) c in
    if is_set env c'.now then (shutdown, c) else (outcome, c')

-- an answer to the peer, which is sent if the write ends well
abbrev write_all : Env → Bytes → Conn → Write × Conn
write_all env bs c =
    let w = env.writes (length c.sent) in
    (w, elim w [ written ↦ record c { sent = bs ∷ c.sent } | _ ↦ c ])

-- `respond`, and the end of the loop
unfoldable pub respond_and_close : Env → ℕ → Bytes → Bytes → Conn → Conn
respond_and_close env status reason text c =
    let (w, c') = write_all env (build_response status reason text false true) c in
    record c' { phase = elim w [ unfinished ↦ writing | _ ↦ closed ] }

abbrev close : Conn → Conn
close c = record c { phase = closed }

abbrev is_get_or_head : Bytes → Bool
is_get_or_head method = bytes_eq method (bytes "GET") || bytes_eq method (bytes "HEAD")

-- `route`
unfoldable pub route : RequestHead → ℕ → Metrics → ℕ × Bytes × Bytes
route head active m =
    if is_get_or_head head.method && bytes_eq head.path (bytes "/")
    then (200, bytes "OK", bytes "Hello from tcp-actor-server\n")
    else if is_get_or_head head.method && bytes_eq head.path (bytes "/healthz")
    then (200, bytes "OK", bytes "ok\n")
    else if is_get_or_head head.method && bytes_eq head.path (bytes "/status")
    then (
      200,
      bytes "OK",
      bytes "{\"connections_active\":"
          ++ show active
          ++ bytes ",\"connections_total\":"
          ++ show m.connections_total
          ++ bytes ",\"requests_total\":"
          ++ show m.requests_total
          ++ bytes "}\n",
    )
    else if is_get_or_head head.method
    then (404, bytes "Not Found", bytes "not found\n")
    else (405, bytes "Method Not Allowed", bytes "method not allowed\n")

-- What is answered to a request, as the n-th answer.
unfoldable pub answer : Env → RequestHead → Bool → ℕ → Bytes
answer env head keep_alive n =
    let (status, reason, text) = route head (env.active n) (env.metrics n) in
    build_response status reason text keep_alive (not (bytes_eq head.method (bytes "HEAD")))

-- The end of the loop's body: route, respond, and go on or close.
unfoldable pub serve : Env → RequestHead → ℕ → Conn → Conn
serve env head total c =
    let keep_alive = head.keep_alive && not (is_set env c.now) in
    let counted = record c { served = c.served + 1 } in
    let (w, c') = write_all env (answer env head keep_alive (length c.sent)) counted in
    elim w [
      | written ↦
          let drained = record c' { buf = drop total c'.buf } in
          if keep_alive then record drained { phase = reading none } else close drained
      | broken ↦ close c'
      | unfinished ↦ record c' { phase = writing }
    ]

-- One read while the head is incomplete.
unfoldable pub read_more : Env → Option ℕ → Conn → Conn
read_more env deadline c =
    if length c.buf == 0
    then (if is_set env c.now
        then close c
        else (let (outcome, c') = read_idle env c in
            elim outcome [ got ↦ record c' { phase = reading deadline } | _ ↦ close c' ]))
    else (let dl : ℕ = elim deadline [ none ↦ c.now + env.request_timeout | some d ↦ d ] in
        let (outcome, c') = read_until dl c in
        elim outcome [
          | got ↦ record c' { phase = reading (some dl) }
          | timeout ↦
              respond_and_close env 408 (bytes "Request Timeout") (bytes "request timeout\n") c'
          | eof ↦ respond_and_close env 400 (bytes "Bad Request") (bytes "incomplete request\n") c'
          | _ ↦ close c'
        ])

-- the head's bound on the body, once it is parsed
unfoldable pub head_read : Env → RequestHead → ℕ → Option ℕ → Conn → Conn
head_read env head head_len deadline c =
    if ltb env.max_body_bytes head.content_length
    then respond_and_close env 413 (bytes "Payload Too Large") (bytes "payload too large\n") c
    else record c {
      phase =
          body head head_len (elim deadline [ none ↦ c.now + env.request_timeout | some d ↦ d ]);
    }

-- one read of the body, or the answer; the length of the request is a `usize`
unfoldable pub body_step : Env → RequestHead → ℕ → ℕ → Conn → Conn
body_step env head head_len dl c =
    let total = (head_len + head.content_length) % 18446744073709551616 in
    if ltb (length c.buf) total
    then (let (outcome, c') = read_until dl c in
        elim outcome [
          | got ↦ record c' { phase = body head head_len dl }
          | timeout ↦
              respond_and_close env 408 (bytes "Request Timeout") (bytes "request timeout\n") c'
          | _ ↦ close c'
        ])
    else serve env head total c

-- One step of the loop.
unfoldable pub step : Env → Conn → Conn
step env c = elim c.phase [
  | closed ↦ c
  | writing ↦ c
  | body head head_len dl ↦ body_step env head head_len dl c
  | reading deadline ↦ elim (parse_head c.buf) [
    | ok (head, head_len) ↦ head_read env head head_len deadline c
    | err e ↦ elim e [
      | incomplete ↦ read_more env deadline c
      | head_too_large ↦
          respond_and_close env 431 (bytes "Request Header Fields Too Large")
            (bytes "header too large\n") c
      | unsupported ↦
          respond_and_close env 501 (bytes "Not Implemented") (bytes "unsupported framing\n") c
      | malformed ↦ respond_and_close env 400 (bytes "Bad Request") (bytes "bad request\n") c
    ]
  ]
]

unfoldable pub run : ℕ → Env → Conn → Conn
run zero env c = c
run (suc n) env c = run n env (step env c)

-- A connection that has just been accepted.
abbrev pub accepted : ℕ → List Arrival → Conn
accepted now inbox = record {
  now = now;
  buf = [];
  inbox = inbox;
  sent = [];
  served = 0;
  phase = reading none;
}
