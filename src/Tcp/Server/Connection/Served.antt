-- ===== src/Tcp/Server/Connection/Served.antt =====
-- The count of served requests (tcp-actor-server/src/server.rs).
use hicho.Common.{
  ℕ, zero, suc, ◌+◌, ◌%◌, ◌≤◌, ◌≡◌, refl, Option, none, some, Bytes, arith, Result-cases, inl, inr,
}
use hicho.Common.Text.{bytes}
use hicho.Tcp.Http.{RequestHead, parse_head}
use hicho.Tcp.Server.Connection.{
  Env, Phase, reading, body, writing, closed, Conn, read_until, read_idle, respond_and_close, serve,
  read_more, head_read, body_step, step, run,
}
use hicho.Tcp.Server.Connection.Reads.{read_until_lem}

serve-served :
    (env : Env) (head : RequestHead) (total : ℕ) (c : Conn)
    → (serve env head total c).served ≡ c.served + 1
unfolding serve
serve-served env head total c = ground arith

respond_and_close-served :
    (env : Env) (status : ℕ) (reason text : Bytes) (c : Conn)
    → (respond_and_close env status reason text c).served ≡ c.served
unfolding respond_and_close
respond_and_close-served env status reason text c = ground arith

read_more-served :
    (env : Env) (deadline : Option ℕ) (c : Conn) → (read_more env deadline c).served ≡ c.served
unfolding read_more read_idle
read_more-served env none c =
    let dl = c.now + env.request_timeout in
    ground (
      arith,
      read_until_lem dl c,
      respond_and_close-served env 408 (bytes "Request Timeout") (bytes "request timeout\n")
          (read_until dl c).1,
      respond_and_close-served env 400 (bytes "Bad Request") (bytes "incomplete request\n")
          (read_until dl c).1,
    )
read_more-served env (some dl) c = ground (
  arith,
  read_until_lem dl c,
  read_until_lem (c.now + env.request_timeout) c,
  respond_and_close-served env 408 (bytes "Request Timeout") (bytes "request timeout\n")
      (read_until dl c).1,
  respond_and_close-served env 400 (bytes "Bad Request") (bytes "incomplete request\n")
      (read_until dl c).1,
)

body_step-served :
    (env : Env) (head : RequestHead) (n dl : ℕ) (c : Conn)
    → c.served ≤ (body_step env head n dl c).served
unfolding body_step
body_step-served env head n dl c = ground (
  arith,
  read_until_lem dl c,
  serve-served env head ((n + head.content_length) % 18446744073709551616) c,
  respond_and_close-served env 408 (bytes "Request Timeout") (bytes "request timeout\n")
      (read_until dl c).1,
)

-- The count of requests never falls.
pub step-served : (env : Env) (p : Phase) (c : Conn) → c.phase ≡ p → c.served ≤ (step env c).served
unfolding step head_read
step-served env closed c e = ground arith
step-served env writing c e = ground arith
step-served env (body head n dl) c e = ground (arith, body_step-served env head n dl c)
step-served env (reading deadline) c e = elim (Result-cases (parse_head c.buf)) [
  | inl ((head, n), parsed) ↦ ground (
    arith,
    respond_and_close-served env 413 (bytes "Payload Too Large") (bytes "payload too large\n") c,
  )
  | inr (x, parsed) ↦ ground (
    arith,
    read_more-served env deadline c,
    respond_and_close-served env 431 (bytes "Request Header Fields Too Large")
        (bytes "header too large\n") c,
    respond_and_close-served env 501 (bytes "Not Implemented") (bytes "unsupported framing\n") c,
    respond_and_close-served env 400 (bytes "Bad Request") (bytes "bad request\n") c,
  )
]

pub run-served : (n : ℕ) (env : Env) (c : Conn) → c.served ≤ (run n env c).served
unfolding run
run-served zero env c = omega arith
run-served (suc n) env c =
    omega (arith, step-served env c.phase c refl, run-served n env (step env c))
