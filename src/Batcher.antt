-- ===== src/Batcher.antt =====
-- The background task that batches counts: the loop `run` and the function `flush` of
-- url-shortener/src/hits.rs, which pastebin-service/src/views.rs repeats with its own names.
pub mod Counts
pub mod Shutdown
mod Tests
use hicho.Common.{
  ℕ, Bool, true, false, Option, none, some, List, [], ◌∷◌, ◌++◌, leb, ltb, if◌then◌else◌, Bytes,
  bytes_key, length,
}
use hicho.Common.Int.{ℤ, pos, add_i64}
use hicho.Common.Map.{Map, lookup, insert}

abbrev pub Pending : Type 0
Pending = Map Bytes ℤ

abbrev pub or_zero : Option ℤ → ℤ
or_zero none = pos 0
or_zero (some n) = n

-- `*pending.entry(key).or_insert(0) += 1`
unfoldable pub count_one : Bytes → Pending → Pending
count_one key pending = insert key (add_i64 (or_zero (lookup key pending)) (pos 1)) pending

-- What wakes the task while its channel is open: a message, or the timer.
pub data Event : Type 0 where
  item : Bytes → Event
  flush tick : Event

-- `add key n` is the repository's update by `n`; its result is ignored.
module _ {W : Type 0} (add : Bytes → ℤ → W → W) where
  -- the loop of `flush`
  unfoldable pub write_all : Pending → W → W
  write_all [] w = w
  write_all ((key, n) ∷ rest) w = write_all rest (add key n w)

  -- the function `flush`
  unfoldable pub flush_pending : Pending → W → Pending × W
  unfolding write_all
  flush_pending [] w = ([], w)
  flush_pending (e ∷ rest) w = ([], write_all (e ∷ rest) w)

module _ {W : Type 0} (add : Bytes → ℤ → W → W) (max_pending : ℕ) where
  -- one round of the loop of `run`
  unfoldable pub step : Event → Pending × W → Pending × W
  step (item key) (pending, w) =
      let pending' = count_one key pending in
      if leb max_pending (length pending') then flush_pending add pending' w else (pending', w)
  step flush (pending, w) = flush_pending add pending w
  step tick (pending, w) = flush_pending add pending w

  -- The task up to its end: the channel closes after the last of the events, which is the
  -- `None` branch.
  unfoldable pub run : List Event → Pending × W → Pending × W
  run [] (pending, w) = flush_pending add pending w
  run (e ∷ es) s = run es (step e s)

-- `spawn` starts the task with an empty map and a cap of at least one.
unfoldable pub spawn : {W : Type 0} → (Bytes → ℤ → W → W) → ℕ → List Event → W → Pending × W
spawn add max_pending events w =
    run add (if ltb max_pending 1 then 1 else max_pending) events ([], w)

abbrev pub channel_capacity : ℕ
channel_capacity = 8192

-- `record` of the batching recorder: `try_send`, which drops the message if the queue is full or
-- the task is gone (`none`).
unfoldable pub try_send : Bytes → Option (List Event) → Option (List Event)
try_send key none = none
try_send key (some queue) =
    if ltb (length queue) channel_capacity then some (queue ++ item key ∷ []) else some queue
