-- ===== src/Tcp/Server/Connection/Bounds.antt =====
-- The buffer of a connection is bounded, and a connection ends
-- (tcp-actor-server/src/server.rs, `handle_connection`).
use hicho.Common.{ℕ, zero, suc, ◌+◌, ◌*◌, ◌≤◌, ◌<◌, ◌≡◌, refl, List, length, arith, inl, inr, ◌⊎◌}
use hicho.Tcp.Server.Connection.{
  Arrival, Env, Phase, reading, body, writing, closed, unfinished, Conn, step, run, accepted,
}
use hicho.Tcp.Server.Connection.Sound.{
  still_due, Sound, steps_left, body_step-fewer, reading-Advances, step-Sound, run-Sound,
}

-- The loop goes no further: the connection is closed, or in a write that never ends.
abbrev IsOver : Conn → Type 0
IsOver c = (c.phase ≡ closed) ⊎ (c.phase ≡ writing)

step-fewer :
    (env : Env) (p : Phase) (c : Conn)
    → 8192 + env.max_body_bytes < 18446744073709551616
    → c.phase ≡ p
    → Sound env c
    → IsOver c ⊎ (steps_left (step env c) < steps_left c)
step-fewer env closed c small e h = inl (inl e)
step-fewer env writing c small e h = inl (inr e)
step-fewer env (body head n dl) c small e h =
    unfold step in ground (arith, body_step-fewer env head n dl c small e h)
step-fewer env (reading deadline) c small e h = inr (reading-Advances env deadline c e h).1

IsOver-stays : (n : ℕ) (env : Env) (c : Conn) → IsOver c → IsOver (run n env c)
unfolding run step
IsOver-stays zero env c e = e
IsOver-stays (suc n) env c e = IsOver-stays n env (step env c) (ground arith)

none_left : (p : Phase) (c : Conn) → c.phase ≡ p → steps_left c ≤ 0 → IsOver c
none_left closed c e le = inl e
none_left writing c e le = inr e
none_left (reading deadline) c e le = ground arith
none_left (body head n dl) c e le = ground arith

run_ends :
    (n : ℕ) (env : Env) (c : Conn)
    → 8192 + env.max_body_bytes < 18446744073709551616
    → Sound env c
    → steps_left c ≤ n
    → IsOver (run n env c)
unfolding run
run_ends zero env c small h le = none_left c.phase c refl le
run_ends (suc n) env c small h le = elim (step-fewer env c.phase c small refl h) [
  | inl over ↦ IsOver-stays (suc n) env c over
  | inr fewer ↦ run_ends n env (step env c) small (step-Sound env c.phase c refl h) (omega arith)
]

writing_unfinished :
    (env : Env) (c : Conn)
    → c.phase ≡ writing
    → Sound env c
    → env.writes (length c.sent) ≡ unfinished
writing_unfinished env c e h = ground arith

Sound-bound :
    (env : Env) (p : Phase) (c : Conn)
    → c.phase ≡ p
    → Sound env c
    → length c.buf ≤ 16384 + env.max_body_bytes
Sound-bound env closed c e h = ground arith
Sound-bound env writing c e h = ground arith
Sound-bound env (reading deadline) c e h = ground arith
Sound-bound env (body head n dl) c e h = ground arith

-- A connection's buffer never holds more than 16384 bytes and the largest body allowed, whatever
-- the peer sends.
pub buffer_bounded :
    (n now : ℕ) (env : Env) (inbox : List Arrival)
    → length (run n env (accepted now inbox)).buf ≤ 16384 + env.max_body_bytes
buffer_bounded n now env inbox =
    let c = run n env (accepted now inbox) in
    Sound-bound env c.phase c refl (run-Sound n env (accepted now inbox) (omega arith))

-- Every connection comes to its end, whatever its peer sends in finitely many reads, but for a peer
-- that never takes an answer: in at most twice as many steps as there are bytes and reads, and two
-- more, the connection is closed, or it is in the write of its next answer and that write never
-- ends; for bounds on the body up to 2^64 - 8193.
pub connection_ends :
    (now : ℕ) (env : Env) (inbox : List Arrival)
    → 8192 + env.max_body_bytes < 18446744073709551616
    → let c = run (2 + 2 * (still_due inbox + length inbox)) env (accepted now inbox) in
      (c.phase ≡ closed) ⊎ ((c.phase ≡ writing) × (env.writes (length c.sent) ≡ unfinished))
connection_ends now env inbox small =
    let fuel = 2 + 2 * (still_due inbox + length inbox) in
    let c = run fuel env (accepted now inbox) in
    elim (run_ends fuel env (accepted now inbox) small (omega arith) (omega arith)) [
      | inl ended ↦ inl ended
      | inr hangs ↦ inr (
        hangs,
        writing_unfinished env c hangs (run-Sound fuel env (accepted now inbox) (omega arith)),
      )
    ]
