-- ===== src/Tcp/Server/Connection/Pipeline.antt =====
-- Requests that come one right after the other (tcp-actor-server/src/server.rs).
use hicho.Common.{
  ℕ, zero, suc, ◌+◌, ◌*◌, ◌%◌, ◌≤◌, ◌<◌, ◌≡◌, refl, true, false, none, List, [], ◌∷◌, ◌++◌, Bytes,
  length, length-append, drop, drop-append, ok, arith,
}
use hicho.Tcp.Http.{RequestHead, parse_head}
use hicho.Tcp.Http.Framing.{parse_head_stable}
use hicho.Tcp.Server.Connection.{
  Env, reading, written, Conn, is_set, answer, serve, head_read, body_step, step, run,
}

-- The bytes of one request, its body included, that keeps the connection. (A buffer in memory has
-- fewer than 2^64 bytes.)
pub record IsRequest (env : Env) (bs : Bytes) (head : RequestHead) : Type 0 where
  pub head_len : ℕ
  pub parsed : parse_head bs ≡ ok (head, head_len)
  pub framed : length bs ≡ head_len + head.content_length
  pub fits : length bs < 18446744073709551616
  pub allowed : head.content_length ≤ env.max_body_bytes
  pub keeps : head.keep_alive ≡ true

-- The connection with the bytes `buf` in its buffer, between two requests.
abbrev between : Conn → Bytes → List Bytes → ℕ → Conn
between c buf sent served = record c {
  buf = buf;
  sent = sent;
  served = served;
  phase = reading none;
}

serve_request :
    (env : Env) (c : Conn) (bs rest : Bytes) (head : RequestHead) (sent : List Bytes) (served : ℕ)
    → IsRequest env bs head
    → is_set env c.now ≡ false
    → env.writes (length sent) ≡ written
    → run 2 env (between c (bs ++ rest) sent served)
      ≡ between c rest (answer env head true (length sent) ∷ sent) (served + 1)
unfolding run step head_read body_step serve
serve_request env c bs rest head sent served r open_ writes =
    let again : parse_head (bs ++ rest) ≡ ok (head, r.head_len) =
      ground (arith, parse_head_stable bs rest, r.parsed) in
    let total : (r.head_len + head.content_length) % 18446744073709551616 ≡ length bs =
      omega (arith, r.framed, r.fits) in
    let left : drop (length bs) (bs ++ rest) ≡ rest = drop-append bs rest in
    ground (arith, again, total, left, r.framed, r.allowed, r.keeps, length-append bs rest)

run-add : (a b : ℕ) (env : Env) (c : Conn) → run (a + b) env c ≡ run b env (run a env c)
unfolding run
run-add zero b env c = ground arith
run-add (suc a) b env c =
    let up : suc a + b ≡ suc (a + b) = omega arith in rw up (run-add a b env (step env c))

-- the bytes of all requests, one after the other
abbrev pub joined : List (Bytes × RequestHead) → Bytes → Bytes
joined [] rest = rest
joined ((bs, head) ∷ reqs) rest = bs ++ joined reqs rest

-- the answers to them on top of those sent before
abbrev pub replies : Env → List (Bytes × RequestHead) → List Bytes → List Bytes
replies env [] sent = sent
replies env ((bs, head) ∷ reqs) sent = replies env reqs (answer env head true (length sent) ∷ sent)

abbrev pub AreRequests : Env → List (Bytes × RequestHead) → Type 0
AreRequests env [] = Unit
AreRequests env ((bs, head) ∷ reqs) = IsRequest env bs head × AreRequests env reqs

run_requests :
    (env : Env) (c : Conn) (reqs : List (Bytes × RequestHead)) (rest : Bytes) (sent : List Bytes)
    (served : ℕ)
    → AreRequests env reqs
    → is_set env c.now ≡ false
    → ((n : ℕ) → env.writes n ≡ written)
    → run (2 * length reqs) env (between c (joined reqs rest) sent served)
      ≡ between c rest (replies env reqs sent) (served + length reqs)
run_requests env c [] rest sent served r open_ writes = unfold run in ground arith
run_requests env c ((bs, head) ∷ reqs) rest sent served r open_ writes =
    let two : 2 * length ((bs, head) ∷ reqs) ≡ 2 + 2 * length reqs = omega arith in
    let first =
      serve_request env c bs (joined reqs rest) head sent served r.0 open_ (writes (length sent)) in
    let others =
      run_requests env c reqs rest (answer env head true (length sent) ∷ sent) (served + 1) r.1
        open_ writes in
    let sum : served + 1 + length reqs ≡ served + length ((bs, head) ∷ reqs) = omega arith in
    rw (two, run-add 2 (2 * length reqs) env, first, others, sum) refl

-- Pipelined requests that are all in the buffer are answered in their order, each with its own answer
-- and exactly once, and what follows them stays in the buffer; while the peer reads, the server is
-- not shutting down, each request keeps the connection and its body is within the bound.
pub pipeline_served :
    (env : Env) (c : Conn) (reqs : List (Bytes × RequestHead)) (rest : Bytes)
    → c.phase ≡ reading none
    → c.buf ≡ joined reqs rest
    → AreRequests env reqs
    → is_set env c.now ≡ false
    → ((n : ℕ) → env.writes n ≡ written)
    → run (2 * length reqs) env c
      ≡ record c { buf = rest; sent = replies env reqs c.sent; served = c.served + length reqs }
pipeline_served env c reqs rest idle has r open_ writes =
    ground (arith, run_requests env c reqs rest c.sent c.served r open_ writes)
