-- ===== src/Pastebin/Views.antt =====
-- View recording, at once or in batches (pastebin-service/src/views.rs). The batching task is in Batcher.
use hicho.Common.{
  ℕ, Option, none, some, List, Bytes, bytes_key, bytes_eq, bytes_eq_iff, arith, if◌then◌else◌, ◌≡◌,
}
use hicho.Common.Int.{ℤ, add_i64, add_i64_assoc}
use hicho.Common.Map.{lookup, lookup-modify, apply_to}
use hicho.Batcher
use hicho.Batcher.{Pending, Event}
use hicho.Batcher.Counts.{Counts}
use hicho.Pastebin.Domain.PasteId.{PasteId, from_trusted}
use hicho.Pastebin.Domain.Paste.{Paste, PasteRepository, increment_views}
use hicho.Pastebin.Memory.{InMemoryPasteRepository, repository, add_views, dispatch}

-- `trait ViewRecorder`
pub record ViewRecorder (W : Type 0) : Type 0 where
  pub record_view : PasteId → W → W
  pub flush : W → W

-- `ImmediateViewRecorder`: it writes through the repository that it is built from.
abbrev pub immediate : {W : Type 0} → PasteRepository W → ViewRecorder W
immediate repo = record { record_view = λ i w. (increment_views repo i w).1; flush = λ w. w }

-- the update that the batching task makes for an id
abbrev pub add_views_by : {W : Type 0} → PasteRepository W → Bytes → ℤ → W → W
add_views_by repo i n w = (repo.increment_views_by (from_trusted i) n w).1

-- `BatchingViewRecorder::spawn`: the task on the events that reach it
abbrev pub spawn : {W : Type 0} → PasteRepository W → ℕ → List Event → W → Pending × W
spawn repo = Batcher.spawn (add_views_by repo)

abbrev pub stored_paste : Bytes → InMemoryPasteRepository → Option Paste
stored_paste k none = none
stored_paste k (some m) = lookup k m

pub stored_paste-added :
    (c k : Bytes) (n : ℤ) (w : InMemoryPasteRepository)
    → stored_paste k (add_views_by repository c n w)
      ≡ (if bytes_eq c k then apply_to (add_views n) (stored_paste k w) else stored_paste k w)
unfolding dispatch
stored_paste-added c k n none = ground arith
stored_paste-added c k n (some m) =
    ground (arith, lookup-modify c k (add_views n) m, bytes_eq_iff c k)

pub add_views_twice :
    (n m : ℤ) (p : Paste) → add_views m (add_views n p) ≡ add_views (add_i64 n m) p
add_views_twice n m p = ground (arith, add_i64_assoc p.views n m)

-- The in-memory repository counts views, with the wrap-around of an i64.
abbrev pub counts : Counts (add_views_by repository) add_views
counts = record { stored = stored_paste; added = stored_paste-added; plus_plus = add_views_twice }
