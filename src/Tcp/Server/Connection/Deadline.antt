-- ===== src/Tcp/Server/Connection/Deadline.antt =====
-- A request has one deadline (tcp-actor-server/src/server.rs, `handle_connection`).
use hicho.Common.{ℕ, ◌+◌, ◌≤◌, ◌≡◌, none, some, length, ◌⊎◌}
use hicho.Tcp.Server.Connection.{Env, reading, body, writing, closed, Conn}

-- How far the request whose first bytes were there at `since` may have come.
abbrev Within : Env → ℕ → Conn → Type 0
Within env since c = elim c.phase [
  | reading none ↦ (c.now ≡ since) × (1 ≤ length c.buf)
  | reading (some dl) ↦ (c.now ≤ dl) × (dl ≤ since + env.request_timeout) × (1 ≤ length c.buf)
  | body head n dl ↦ (c.now ≤ dl) × (dl ≤ since + env.request_timeout)
  | writing ↦ c.now ≤ since + env.request_timeout
  | closed ↦ c.now ≤ since + env.request_timeout
]

-- what a step may do to a request in progress
abbrev Goes : Env → ℕ → Conn → Conn → Type 0
Goes env since c c' = (Within env since c' × (c'.served ≡ c.served)) ⊎ (c'.served ≡ c.served + 1)
