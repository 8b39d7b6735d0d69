-- ===== src/Tcp/Registry.antt =====
-- The connection registry, an actor that owns the map of the live connections
-- (tcp-actor-server/src/registry.rs).
use hicho.Common.{ℕ, Option, none, some, nat_eq, length}
use hicho.Common.Map.{Map, insert, remove}

-- Peer addresses `A` are only kept.
abbrev pub Conns : Type 0 → Type 0
Conns A = Map ℕ A

pub data Cmd (A : Type 0) : Type 0 where
  register : ℕ → A → Cmd A
  deregister : ℕ → Cmd A
  active_count : Cmd A

-- What the handles see: the map, or `none` once the task has stopped.
abbrev pub Registry : Type 0 → Type 0
Registry A = Option (Conns A)

module _ {A : Type 0} where
  -- One round of the actor loop `run`, with the reply of an `active_count`.
  unfoldable pub step : Cmd A → Conns A → Option ℕ × Conns A
  step (register i addr) conns = (none, insert i addr conns)
  step (deregister i) conns = (none, remove i conns)
  step active_count conns = (some (length conns), conns)

  -- a message to the actor, and its reply if one comes
  unfoldable pub send : Cmd A → Registry A → Option ℕ × Registry A
  unfolding step
  send cmd none = (none, none)
  send cmd (some conns) = let (reply, conns') = step cmd conns in (reply, some conns')

  abbrev pub guard : ℕ → A → Registry A → Registry A
  guard i addr r = (send (register i addr) r).1

  -- `Drop for ConnGuard`
  abbrev pub drop_guard : ℕ → Registry A → Registry A
  drop_guard i r = (send (deregister i) r).1

  abbrev pub count : Registry A → ℕ
  count r = elim (send active_count r).0 [ none ↦ 0 | some n ↦ n ]
