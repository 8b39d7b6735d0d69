-- ===== src/Shortener/Hits.antt =====
-- Hit recording, at once or in batches (url-shortener/src/hits.rs). The batching task is in Batcher.
use hicho.Common.{
  ℕ, Option, none, some, List, Bytes, bytes_key, bytes_eq, bytes_eq_iff, arith, if◌then◌else◌, ◌≡◌,
}
use hicho.Common.Int.{ℤ, add_i64, add_i64_assoc}
use hicho.Common.Map.{lookup, lookup-modify, apply_to}
use hicho.Batcher
use hicho.Batcher.{Pending, Event}
use hicho.Batcher.Counts.{Counts}
use hicho.Shortener.Domain.ShortCode.{ShortCode, from_trusted}
use hicho.Shortener.Domain.Link.{Link, LinkRepository, increment_hits}
use hicho.Shortener.Memory.{InMemoryLinkRepository, repository, add_hits, dispatch}

-- `trait HitRecorder`
pub record HitRecorder (W : Type 0) : Type 0 where
  pub record_hit : ShortCode → W → W
  pub flush : W → W

-- `ImmediateHitRecorder`: it writes through the repository that it is built from.
abbrev pub immediate : {W : Type 0} → LinkRepository W → HitRecorder W
immediate repo = record { record_hit = λ code w. (increment_hits repo code w).1; flush = λ w. w }

-- the update that the batching task makes for a code
abbrev pub add_hits_by : {W : Type 0} → LinkRepository W → Bytes → ℤ → W → W
add_hits_by repo code n w = (repo.increment_hits_by (from_trusted code) n w).1

-- `BatchingHitRecorder::spawn`: the task on the events that reach it
abbrev pub spawn : {W : Type 0} → LinkRepository W → ℕ → List Event → W → Pending × W
spawn repo = Batcher.spawn (add_hits_by repo)

abbrev pub stored_link : Bytes → InMemoryLinkRepository → Option Link
stored_link k none = none
stored_link k (some m) = lookup k m

pub stored_link-added :
    (c k : Bytes) (n : ℤ) (w : InMemoryLinkRepository)
    → stored_link k (add_hits_by repository c n w)
      ≡ (if bytes_eq c k then apply_to (add_hits n) (stored_link k w) else stored_link k w)
unfolding dispatch
stored_link-added c k n none = ground arith
stored_link-added c k n (some m) =
    ground (arith, lookup-modify c k (add_hits n) m, bytes_eq_iff c k)

pub add_hits_twice : (n m : ℤ) (l : Link) → add_hits m (add_hits n l) ≡ add_hits (add_i64 n m) l
add_hits_twice n m l = ground (arith, add_i64_assoc l.hits n m)

-- The in-memory repository counts hits, with the wrap-around of an i64.
abbrev pub counts : Counts (add_hits_by repository) add_hits
counts = record { stored = stored_link; added = stored_link-added; plus_plus = add_hits_twice }
