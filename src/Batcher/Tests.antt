-- ===== src/Batcher/Tests.antt =====
-- Runs of the batching task (url-shortener/src/hits.rs), over a store of one row for each key.
use hicho.Common.{◌≡◌, List, [], ◌∷◌, Bytes, bytes_key, bytes_eq, arith, if◌then◌else◌}
use hicho.Common.Int.{ℤ, pos, add_i64, add_i64_assoc}
use hicho.Common.Map.{Map, lookup, modify, lookup-modify, apply_to}
use hicho.Common.Text.{bytes}
use hicho.Batcher.{Event, item, flush, tick, spawn}
use hicho.Batcher.Shutdown.{
  Turn, record_hit, receive, timer, run_turns, shutdown, accepted, live_at, shutdown-add_each,
}
use hicho.Batcher.Counts.{Counts, add_each, spawn-add_each}

-- A table of counts.
abbrev Table : Type 0
Table = Map Bytes ℤ

abbrev plus : ℤ → ℤ → ℤ
plus n v = add_i64 v n

abbrev add : Bytes → ℤ → Table → Table
add k n t = modify k (plus n) t

table_added :
    (c k : Bytes) (n : ℤ) (t : Table)
    → lookup k (add c n t) ≡ (if bytes_eq c k then apply_to (plus n) (lookup k t) else lookup k t)
table_added c k n t = lookup-modify c k (plus n) t

plus_twice : (n m v : ℤ) → plus m (plus n v) ≡ plus (add_i64 n m) v
plus_twice n m v = ground (arith, add_i64_assoc v n m)

abbrev table_counts : Counts add plus
table_counts = record { stored = lookup; added = table_added; plus_plus = plus_twice }

abbrev table : Table
table = (bytes "a", pos 0) ∷ (bytes "b", pos 5) ∷ []

abbrev events : List Event
events = item (bytes "a") ∷ tick ∷ item (bytes "b") ∷ item (bytes "a") ∷ flush ∷ []

spawn-add_each_example :
    (lookup (bytes "a") (spawn add 10 events table).1
      ≡ lookup (bytes "a") (add_each table_counts events table))
    × ((spawn add 10 events table).0 ≡ [])
spawn-add_each_example = spawn-add_each table_counts 10 events (bytes "a") table

abbrev turns : List Turn
turns =
    record_hit (bytes "a") ∷ record_hit (bytes "b") ∷ receive ∷ timer ∷ record_hit (bytes "a") ∷ []

shutdown-add_each_example :
    (lookup
        (bytes "a")
        (shutdown add 10 (run_turns add 10 turns (live_at table_counts 10 [] [] table))).1
      ≡ lookup (bytes "a") (add_each table_counts (accepted turns []) table))
    × ((shutdown add 10 (run_turns add 10 turns (live_at table_counts 10 [] [] table))).0 ≡ [])
shutdown-add_each_example = shutdown-add_each table_counts 10 turns (bytes "a") table
