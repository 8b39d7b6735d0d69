-- ===== src/Tcp/Server/Runs.antt =====
-- Runs of the accept loop and its connections (tcp-actor-server/src/server.rs).
use hicho.Common.{
  ℕ, ◌+◌, ◌≤◌, ◌<◌, ◌≡◌, ◌↔◌, refl, true, none, some, List, [], ◌∷◌, ◌++◌, ◌∙◌, arith, length,
  nat_eq,
}
use hicho.Common.Map.{lookup}
use hicho.Tcp.Registry.{Registry, send, count}
use hicho.Tcp.Metrics.{Metrics}
use hicho.Tcp.Server.Accept.{
  Conn, Loop, stopped, Server, Turn, acquire, stop, accept, task, start, acquire_permit,
  accept_peer, break_loop, turn, run, is_drained,
}
use hicho.Tcp.Server.Live.{guards, permits_of}
use hicho.Tcp.Server.Turns.{IsCounted, nth_task-same, turn-IsCounted}

module _ {A : Type 0} where
  run-IsCounted :
      (ts : List (Turn A)) (max : ℕ) (s : Server A)
      → s.next_id + length ts < 18446744073709551616
      → IsCounted max s
      → IsCounted max (run ts s)
  unfolding run
  run-IsCounted [] max s lt h = h
  run-IsCounted (t ∷ ts) max s lt h =
      let (next, le) =
        turn-IsCounted t s.loop max s.permits s.next_id s.metrics s.registry s.conns (omega arith)
          h in
      run-IsCounted ts max (turn t s) (omega arith) next

  start-IsCounted : (max : ℕ) → IsCounted max (start {A = A} max)
  unfolding lookup
  start-IsCounted max = (
    max,
    omega arith,
    record {
      at_most = λ k. omega arith;
      registered = λ k. refl;
      once = λ k. omega arith;
      fresh = λ k le. refl;
      unique = tt;
      size = refl;
      full = omega arith;
    },
  )

  counted :
      (max : ℕ) (loop : Loop) (permits next : ℕ) (metrics : Metrics) (r : Registry A)
      (cs : List (Conn A))
      → let s : Server A = record {
        loop = loop;
        permits = permits;
        next_id = next;
        metrics = metrics;
        registry = r;
        conns = cs;
      } in
        IsCounted max s
        → (count s.registry ≡ guards s.conns) × (permits + length cs + permits_of loop ≡ max)
  unfolding send
  counted max loop permits next metrics none cs (n, e, good) = absurd good
  counted max loop permits next metrics (some reg) cs (n, e, good) =
      (omega (arith, good.size), omega (arith, good.full))

-- However the accept loop and the connections' tasks take turns (fewer than 2^64 - 1 of them, so
-- that no id comes twice), the registry's `active_count` is the number of connections that hold
-- their guards, and the free permits, the connections and the permit that the loop holds while it
-- waits in `accept` add up to `max_connections`.
pub run_counts :
    {A : Type 0} (ts : List (Turn A)) (max_connections : ℕ)
    → length ts < 18446744073709551615
    → let s = run ts (start max_connections) in
      (count s.registry ≡ guards s.conns)
      × (s.permits + length s.conns + permits_of s.loop ≡ max_connections)
run_counts ts max_connections lt =
    let s = run ts (start max_connections) in
    counted max_connections s.loop s.permits s.next_id s.metrics s.registry s.conns (
      run-IsCounted ts max_connections (start max_connections) (omega arith)
        (start-IsCounted max_connections))

module _ {A : Type 0} where
  turn-stopped : (t : Turn A) (s : Server A) → s.loop ≡ stopped → (turn t s).loop ≡ stopped
  unfolding turn acquire_permit accept_peer break_loop
  turn-stopped acquire s h = ground arith
  turn-stopped stop s h = ground arith
  turn-stopped (accept peer) s h = ground arith
  turn-stopped (task n) s h = (nth_task-same n s.conns s).1 ∙ h

  break_stops : (s : Server A) → (turn stop s).loop ≡ stopped
  unfolding turn break_loop
  break_stops s = ground arith

  run-stopped : (ts : List (Turn A)) (s : Server A) → s.loop ≡ stopped → (run ts s).loop ≡ stopped
  unfolding run
  run-stopped [] s h = h
  run-stopped (t ∷ ts) s h = run-stopped ts (turn t s) (turn-stopped t s h)

  -- After a `stop` the loop stays stopped.
  stays_stopped :
      (ts later : List (Turn A)) (s : Server A) → (run (ts ++ stop ∷ later) s).loop ≡ stopped
  unfolding run
  stays_stopped [] later s = run-stopped later (turn stop s) (break_stops s)
  stays_stopped (t ∷ ts) later s = stays_stopped ts later (turn t s)

-- However the accept loop and the connections' tasks take turns before and after the loop sees the
-- shutdown flag (fewer than 2^64 - 1 of them), the wait for the drain, which comes after it, would
-- succeed exactly if no connection is left, for `max_connections` up to 2^32 - 1.
pub drained_iff :
    {A : Type 0} (ts later : List (Turn A)) (max_connections : ℕ)
    → length (ts ++ stop ∷ later) < 18446744073709551615
    → max_connections ≤ 4294967295
    → let s = run (ts ++ stop ∷ later) (start max_connections) in
      (is_drained max_connections s ≡ true) ↔ (length s.conns ≡ 0)
unfolding is_drained
drained_iff ts later max_connections lt small =
    let full = (run_counts (ts ++ stop ∷ later) max_connections lt).1 in
    let ended = stays_stopped ts later (start max_connections) in
    let shared = rw ended at full in ground arith
