-- ===== src/Tcp/Metrics.antt =====
-- The counters (tcp-actor-server/src/metrics.rs).
use hicho.Common.{ℕ, ◌+◌, ◌%◌}

pub record Metrics : Type 0 where
  pub connections_total : ℕ
  pub requests_total : ℕ

-- `fetch_add(1)` on an `AtomicU64`, which wraps
abbrev fetch_add_one : ℕ → ℕ
fetch_add_one n = (n + 1) % 18446744073709551616

abbrev pub on_connect : Metrics → Metrics
on_connect m = record m { connections_total = fetch_add_one m.connections_total }

abbrev pub on_request : Metrics → Metrics
on_request m = record m { requests_total = fetch_add_one m.requests_total }
