-- ===== src/Tcp/Server/Turns.antt =====
-- The turns of the accept loop and of the connections (tcp-actor-server/src/server.rs), one by one.
use hicho.Common.{
  ℕ, zero, suc, ◌+◌, ◌≤◌, ◌<◌, ◌≡◌, refl, Option, none, some, List, [], ◌∷◌, arith, nat_eq, ==_iff,
}
use hicho.Tcp.Registry.{Conns, Registry}
use hicho.Tcp.Metrics.{Metrics}
use hicho.Tcp.Server.Accept.{
  spawned, Conn, Loop, idle, holding, stopped, Server, Turn, acquire, stop, accept, task,
  acquire_permit, accept_peer, break_loop, task_step, nth_task, turn,
}
use hicho.Tcp.Server.Live.{Good, GoodServer, server, permits_of}
use hicho.Tcp.Server.Tasks.{nth_task-Good}

module _ {A : Type 0} where
  -- The counts are right, for all connections of the server: the connections share out the permits
  -- that the loop does not hold.
  abbrev pub IsCounted : ℕ → Server A → Type 0
  IsCounted max s =
      (n : ℕ) × (n + permits_of s.loop ≡ max) × GoodServer n (λ k. 0) (λ k. 0) 0 0 s.conns s

  -- One permit more or less, with the same connections.
  shared :
      (n n' permits permits' next : ℕ) (reg : Conns A) (cs : List (Conn A))
      → Good n (λ k. 0) (λ k. 0) 0 0 cs permits next reg
      → n + permits' ≡ n' + permits
      → Good n' (λ k. 0) (λ k. 0) 0 0 cs permits' next reg
  shared n n' permits permits' next reg cs h e = record {
    at_most = h.at_most;
    registered = h.registered;
    once = h.once;
    fresh = h.fresh;
    unique = h.unique;
    size = h.size;
    full = omega (arith, h.full);
  }

  accepted-Good :
      (a : A) (n permits next : ℕ) (reg : Conns A) (cs : List (Conn A))
      → Good n (λ k. 0) (λ k. 0) 0 0 cs permits next reg
      → Good
          (suc n)
          (λ k. 0)
          (λ k. 0)
          0
          0
          (record { id = next; addr = a; progress = spawned } ∷ cs)
          permits
          (next + 1)
          reg
  accepted-Good a n permits next reg cs h = record {
    at_most = h.at_most;
    registered = λ k. ground (arith, h.registered k);
    once = λ k. ground (arith, h.once k, h.fresh k, ==_iff next k);
    fresh = λ k le. ground (arith, h.fresh k, ==_iff next k);
    unique = h.unique;
    size = omega (arith, h.size);
    full = omega (arith, h.full);
  }

  accepted_lem :
      (a : A) (permits next : ℕ) (metrics : Metrics) (reg : Conns A) (cs : List (Conn A))
      → next + 1 < 18446744073709551616
      → accept_peer (some a) (server holding permits next metrics reg cs)
        ≡ server idle permits
            (next + 1)
            metrics
            reg
            (record { id = next; addr = a; progress = spawned } ∷ cs)
  unfolding accept_peer
  accepted_lem a permits next metrics reg cs lt = ground arith

  -- A turn of the loop keeps the counts, and uses up one id at most.
  abbrev pub Keeps : ℕ → ℕ → Server A → Type 0
  Keeps max next s = IsCounted max s × (s.next_id ≤ next + 1)

  acquired_lem :
      (permits next : ℕ) (metrics : Metrics) (reg : Conns A) (cs : List (Conn A))
      → acquire_permit (server idle (suc permits) next metrics reg cs)
        ≡ server holding permits next metrics reg cs
  unfolding acquire_permit
  acquired_lem permits next metrics reg cs = ground arith

  acquired-IsCounted :
      (max permits next : ℕ) (metrics : Metrics) (reg : Conns A) (cs : List (Conn A))
      → IsCounted max (server idle (suc permits) next metrics reg cs)
      → Keeps max next (acquire_permit (server idle (suc permits) next metrics reg cs))
  acquired-IsCounted max permits next metrics reg cs (zero, e, good) =
      absurd (omega (arith, good.full))
  acquired-IsCounted max permits next metrics reg cs (suc n, e, good) =
      rw (acquired_lem permits next metrics reg cs) (
        (n, omega arith, shared (suc n) n (suc permits) permits next reg cs good (omega arith)),
        omega arith,
      )

  acquire-IsCounted :
      (loop : Loop) (max permits next : ℕ) (metrics : Metrics) (reg : Conns A) (cs : List (Conn A))
      → IsCounted max (server loop permits next metrics reg cs)
      → Keeps max next (acquire_permit (server loop permits next metrics reg cs))
  unfolding acquire_permit
  acquire-IsCounted idle max zero next metrics reg cs h = (h, omega arith)
  acquire-IsCounted idle max (suc permits) next metrics reg cs h =
      acquired-IsCounted max permits next metrics reg cs h
  acquire-IsCounted holding max permits next metrics reg cs h = (h, omega arith)
  acquire-IsCounted stopped max permits next metrics reg cs h = (h, omega arith)

  accepted-IsCounted :
      (a : A) (max permits next : ℕ) (metrics : Metrics) (reg : Conns A) (cs : List (Conn A))
      → next + 1 < 18446744073709551616
      → IsCounted max (server holding permits next metrics reg cs)
      → Keeps max next (accept_peer (some a) (server holding permits next metrics reg cs))
  accepted-IsCounted a max permits next metrics reg cs lt (n, e, good) =
      rw (accepted_lem a permits next metrics reg cs lt)
        ((suc n, omega arith, accepted-Good a n permits next reg cs good), omega arith)

  accept-IsCounted :
      (peer : Option A) (loop : Loop) (max permits next : ℕ) (metrics : Metrics) (reg : Conns A)
      (cs : List (Conn A))
      → next + 1 < 18446744073709551616
      → IsCounted max (server loop permits next metrics reg cs)
      → Keeps max next (accept_peer peer (server loop permits next metrics reg cs))
  unfolding accept_peer
  accept-IsCounted peer idle max permits next metrics reg cs lt h = (h, omega arith)
  accept-IsCounted peer stopped max permits next metrics reg cs lt h = (h, omega arith)
  accept-IsCounted none holding max permits next metrics reg cs lt (n, e, good) = (
    (suc n, omega arith, shared n (suc n) permits (permits + 1) next reg cs good (omega arith)),
    omega arith,
  )
  accept-IsCounted (some a) holding max permits next metrics reg cs lt h =
      accepted-IsCounted a max permits next metrics reg cs lt h

  break-IsCounted :
      (loop : Loop) (max permits next : ℕ) (metrics : Metrics) (reg : Conns A) (cs : List (Conn A))
      → IsCounted max (server loop permits next metrics reg cs)
      → Keeps max next (break_loop (server loop permits next metrics reg cs))
  unfolding break_loop
  break-IsCounted idle max permits next metrics reg cs h = ((h.0, h.1, h.2), omega arith)
  break-IsCounted stopped max permits next metrics reg cs h = (h, omega arith)
  break-IsCounted holding max permits next metrics reg cs (n, e, good) = (
    (suc n, omega arith, shared n (suc n) permits (permits + 1) next reg cs good (omega arith)),
    omega arith,
  )

  pub nth_task-same :
      (n : ℕ) (cs : List (Conn A)) (s : Server A)
      → let s' = (nth_task n cs s).1 in (s'.next_id ≡ s.next_id) × (s'.loop ≡ s.loop)
  unfolding nth_task task_step
  nth_task-same n [] s = (refl, refl)
  nth_task-same zero (c ∷ cs) s = ground arith
  nth_task-same (suc n) (c ∷ cs) s = nth_task-same n cs s

  pub turn-IsCounted :
      (t : Turn A) (loop : Loop) (max permits next : ℕ) (metrics : Metrics) (r : Registry A)
      (cs : List (Conn A))
      → let s : Server A = record {
        loop = loop;
        permits = permits;
        next_id = next;
        metrics = metrics;
        registry = r;
        conns = cs;
      } in
        next + 1 < 18446744073709551616 → IsCounted max s → Keeps max next (turn t s)
  unfolding turn
  turn-IsCounted t loop max permits next metrics none cs lt (n, e, good) = absurd good
  turn-IsCounted acquire loop max permits next metrics (some reg) cs lt h =
      acquire-IsCounted loop max permits next metrics reg cs h
  turn-IsCounted stop loop max permits next metrics (some reg) cs lt h =
      break-IsCounted loop max permits next metrics reg cs h
  turn-IsCounted (accept peer) loop max permits next metrics (some reg) cs lt h =
      accept-IsCounted peer loop max permits next metrics reg cs lt h
  turn-IsCounted (task i) loop max permits next metrics (some reg) cs lt (n, e, good) =
      let same = nth_task-same i cs (server loop permits next metrics reg cs) in
      (
        (
          n,
          rw same.1 e,
          nth_task-Good i n (λ k. 0) (λ k. 0) 0 0 cs loop permits next metrics reg cs good,
        ),
        omega (arith, same.0),
      )
