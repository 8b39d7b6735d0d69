-- ===== src/Tcp/Server/Accept.antt =====
-- The accept loop of `Server::run`, and what each connection's task does with the permit and the
-- registry (tcp-actor-server/src/server.rs).
use hicho.Common.{
  ℕ, zero, suc, ◌+◌, ◌-◌, ◌%◌, Bool, Option, none, some, List, [], ◌∷◌, leb, ◌==◌, if◌then◌else◌,
  min,
}
use hicho.Tcp.Registry.{Registry, guard, drop_guard}
use hicho.Tcp.Metrics.{Metrics, on_connect}

-- How far the task of a connection has come: it may not have run yet, it holds its guard, or the
-- guard is dropped and the permit is not.
pub data Progress : Type 0 where
  spawned guarded ended : Progress

pub record Conn (A : Type 0) : Type 0 where
  pub id : ℕ
  pub addr : A
  pub progress : Progress

-- Where the accept loop waits: for a permit, in `accept` with a permit in hand, or nowhere after a
-- `break`.
pub data Loop : Type 0 where
  idle holding stopped : Loop

pub record Server (A : Type 0) : Type 0 where
  pub loop : Loop
  pub permits : ℕ
  pub next_id : ℕ
  pub metrics : Metrics
  pub registry : Registry A
  pub conns : List (Conn A)

-- Who moves: the accept loop, which takes a permit, gets a new peer or an error from `accept`, or sees
-- the shutdown flag; or the task of the n-th connection.
pub data Turn (A : Type 0) : Type 0 where
  acquire stop : Turn A
  accept : Option A → Turn A
  task : ℕ → Turn A

module _ {A : Type 0} where
  -- `bind` and the start of `run`
  abbrev pub start : ℕ → Server A
  start max_connections = record {
    loop = idle;
    permits = max_connections;
    next_id = 1;
    metrics = record { connections_total = 0; requests_total = 0 };
    registry = some [];
    conns = [];
  }

  -- `acquire_owned`: the loop waits until a permit is free, and takes it.
  unfoldable pub acquire_permit : Server A → Server A
  acquire_permit s = elim s.loop [
    | idle ↦ if s.permits == 0 then s else record s { loop = holding; permits = s.permits - 1 }
    | _ ↦ s
  ]

  -- What `accept` returns to a loop that holds a permit: the permit is dropped with an error, and goes
  -- to the new task with a peer.
  unfoldable pub accept_peer : Option A → Server A → Server A
  accept_peer peer s = elim s.loop [
    | holding ↦ elim peer [
      | none ↦ record s { loop = idle; permits = s.permits + 1 }
      | some addr ↦ record s {
        loop = idle;
        next_id = (s.next_id + 1) % 18446744073709551616;
        conns = record { id = s.next_id; addr = addr; progress = spawned } ∷ s.conns;
      }
    ]
    | _ ↦ s
  ]

  -- The loop sees the flag at one of its three tests of it: it drops the permit that it holds.
  unfoldable pub break_loop : Server A → Server A
  break_loop s = elim s.loop [
    | holding ↦ record s { loop = stopped; permits = s.permits + 1 }
    | _ ↦ record s { loop = stopped }
  ]

  -- The next step of a connection's task: `on_connect` and `guard`, then (after it has served its
  -- requests, or panicked) the drop of the guard, then the drop of the permit.
  unfoldable pub task_step : Conn A → Server A → Option (Conn A) × Server A
  task_step c s = elim c.progress [
    | spawned ↦ (
      some (record c { progress = guarded }),
      record s { metrics = on_connect s.metrics; registry = guard c.id c.addr s.registry },
    )
    | guarded ↦
        (some (record c { progress = ended }), record s { registry = drop_guard c.id s.registry })
    | ended ↦ (none, record s { permits = s.permits + 1 })
  ]

  abbrev kept : Option (Conn A) → List (Conn A) → List (Conn A)
  kept none cs = cs
  kept (some c) cs = c ∷ cs

  -- the n-th connection's task; `s.conns` is not read
  unfoldable pub nth_task : ℕ → List (Conn A) → Server A → List (Conn A) × Server A
  nth_task n [] s = ([], s)
  nth_task zero (c ∷ cs) s = let (c', s') = task_step c s in (kept c' cs, s')
  nth_task (suc n) (c ∷ cs) s = let (cs', s') = nth_task n cs s in (c ∷ cs', s')

  unfoldable pub turn : Turn A → Server A → Server A
  turn acquire s = acquire_permit s
  turn stop s = break_loop s
  turn (accept peer) s = accept_peer peer s
  turn (task n) s = let (cs, s') = nth_task n s.conns s in record s' { conns = cs }

  unfoldable pub run : List (Turn A) → Server A → Server A
  run [] s = s
  run (t ∷ ts) s = run ts (turn t s)

  -- whether `acquire_many` of all permits, as a `u32`, succeeds
  unfoldable pub is_drained : ℕ → Server A → Bool
  is_drained max_connections s = leb (min max_connections 4294967295) s.permits
