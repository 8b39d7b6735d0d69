-- ===== src/Batcher/Counts.antt =====
-- The batching task stores what one update for each message would (url-shortener/src/hits.rs).
use hicho.Common.{
  ℕ, ◌≡◌, refl, ap, sym, ◌∙◌, Option, none, some, List, [], ◌∷◌, Bytes, bytes_key, bytes_eq,
  bytes_eq_iff, arith, if◌then◌else◌, ltb, leb, length, Bool-cases, inl, inr, Option-cases,
}
use hicho.Common.Int.{ℤ, pos, add_i64, wrap_i64, ◌+ℤ◌}
use hicho.Common.Map.{lookup, lookup-insert, IsUnique, insert-IsUnique, apply_to}
use hicho.Batcher.{
  Pending, or_zero, count_one, Event, item, flush, tick, write_all, flush_pending, step, run, spawn,
}

-- What the task relies on in a store of rows `V`: an update adds to the count of one row, and two
-- updates are one by the sum.
pub record Counts {W V : Type 0} (add : Bytes → ℤ → W → W) (plus : ℤ → V → V) : Type 0 where
  pub stored : Bytes → W → Option V
  pub added :
      (c k : Bytes) (n : ℤ) (w : W)
      → stored k (add c n w) ≡ (if bytes_eq c k then apply_to (plus n) (stored k w) else stored k w)
  pub plus_plus : (n m : ℤ) (v : V) → plus m (plus n v) ≡ plus (add_i64 n m) v

one_more : add_i64 (pos 0) (pos 1) ≡ pos 1
unfolding add_i64 wrap_i64 ◌+ℤ◌
one_more = refl

module _ {W V : Type 0} {add : Bytes → ℤ → W → W} {plus : ℤ → V → V} (law : Counts add plus) where
  -- A row with the buffered counts of its key.
  abbrev pub credit : Bytes → Pending → Option V → Option V
  credit k p o = elim (lookup k p) [ none ↦ o | some n ↦ apply_to (plus n) o ]

  -- A row with the counts of a run of events.
  abbrev pub bump : Bytes → List Event → Option V → Option V
  bump k [] o = o
  bump k (item c ∷ es) o = bump k es (if bytes_eq c k then apply_to (plus (pos 1)) o else o)
  bump k (flush ∷ es) o = bump k es o
  bump k (tick ∷ es) o = bump k es o

  credit-count_one :
      (c k : Bytes) (p : Pending) (o : Option V)
      → credit k (count_one c p) o
        ≡ (if bytes_eq c k then apply_to (plus (pos 1)) (credit k p o) else credit k p o)
  unfolding count_one
  credit-count_one c k p none =
      ground (arith, bytes_eq_iff c k, lookup-insert c k (add_i64 (or_zero (lookup c p)) (pos 1)) p)
  credit-count_one c k p (some v) = elim (Option-cases (lookup c p)) [
    | inl new ↦
        ground (arith, bytes_eq_iff c k, one_more, lookup-insert c k (add_i64 (pos 0) (pos 1)) p)
    | inr (n, old) ↦ ground (
      arith,
      bytes_eq_iff c k,
      lookup-insert c k (add_i64 n (pos 1)) p,
      law.plus_plus n (pos 1) v,
    )
  ]

  write_all-credit :
      (p : Pending) (k : Bytes) (w : W)
      → IsUnique p
      → law.stored k (write_all add p w) ≡ credit k p (law.stored k w)
  unfolding write_all lookup
  write_all-credit [] k w u = refl
  write_all-credit ((c, n) ∷ rest) k w u =
      ground (arith, bytes_eq_iff c k, law.added c k n w, write_all-credit rest k (add c n w) u.1)

  -- The order in which a flush writes the buffered counts makes no difference to any row: two
  -- buffers, each with one count for a key, that agree on a key leave the same row for it.
  pub write_all_order :
      (p q : Pending) (k : Bytes) (w : W)
      → IsUnique p
      → IsUnique q
      → lookup k p ≡ lookup k q
      → law.stored k (write_all add p w) ≡ law.stored k (write_all add q w)
  write_all_order p q k w u v same =
      ground (arith, write_all-credit p k w u, write_all-credit q k w v)

  flush_pending_lem : (p : Pending) (w : W) → flush_pending add p w ≡ ([], write_all add p w)
  unfolding flush_pending
  flush_pending_lem [] w = refl
  flush_pending_lem (e ∷ rest) w = refl

  flush_pending-credit :
      (p : Pending) (k : Bytes) (w : W)
      → IsUnique p
      → credit k (flush_pending add p w).0 (law.stored k (flush_pending add p w).1)
        ≡ credit k p (law.stored k w)
  unfolding lookup
  flush_pending-credit p k w u = rw (flush_pending_lem p w) (write_all-credit p k w u)

  flush_pending-IsUnique : (p : Pending) (w : W) → IsUnique (flush_pending add p w).0
  flush_pending-IsUnique p w = rw (flush_pending_lem p w) tt

  count_one-IsUnique : (c : Bytes) (p : Pending) → IsUnique p → IsUnique (count_one c p)
  unfolding count_one
  count_one-IsUnique c p u = insert-IsUnique c (add_i64 (or_zero (lookup c p)) (pos 1)) p u

  module _ (max_pending : ℕ) where
    pub step-IsUnique :
        (e : Event) (p : Pending) (w : W) → IsUnique p → IsUnique (step add max_pending e (p, w)).0
    unfolding step
    step-IsUnique flush p w u = flush_pending-IsUnique p w
    step-IsUnique tick p w u = flush_pending-IsUnique p w
    step-IsUnique (item c) p w u =
        let q = count_one c p in
        elim (Bool-cases (leb max_pending (length q))) [
          | inl full ↦ rw full (flush_pending-IsUnique q w)
          | inr room ↦ rw room (count_one-IsUnique c p u)
        ]

    -- One event, on a row with its buffered counts.
    pub step-credit :
        (e : Event) (k : Bytes) (p : Pending) (w : W)
        → IsUnique p
        → credit k
            (step add max_pending e (p, w)).0
            (law.stored k (step add max_pending e (p, w)).1)
          ≡ bump k (e ∷ []) (credit k p (law.stored k w))
    unfolding step
    step-credit flush k p w u = flush_pending-credit p k w u
    step-credit tick k p w u = flush_pending-credit p k w u
    step-credit (item c) k p w u =
        let q = count_one c p in
        let counted = credit-count_one c k p (law.stored k w) in
        elim (Bool-cases (leb max_pending (length q))) [
          | inl full ↦ rw full (flush_pending-credit q k w (count_one-IsUnique c p u) ∙ counted)
          | inr room ↦ rw room counted
        ]

    pub bump-cons :
        (e : Event) (es : List Event) (k : Bytes) (o : Option V)
        → bump k es (bump k (e ∷ []) o) ≡ bump k (e ∷ es) o
    bump-cons (item c) es k o = refl
    bump-cons flush es k o = refl
    bump-cons tick es k o = refl

    pub run_empties : (es : List Event) (s : Pending × W) → (run add max_pending es s).0 ≡ []
    unfolding run
    run_empties [] (p, w) = rw (flush_pending_lem p w)
    run_empties (e ∷ es) s = run_empties es (step add max_pending e s)

    pub run-bump :
        (es : List Event) (k : Bytes) (p : Pending) (w : W)
        → IsUnique p
        → law.stored k (run add max_pending es (p, w)).1 ≡ bump k es (credit k p (law.stored k w))
    unfolding run
    run-bump [] k p w u = rw (flush_pending_lem p w) (write_all-credit p k w u)
    run-bump (e ∷ es) k p w u =
        let (p', w') = step add max_pending e (p, w) in
        run-bump es k p' w' (step-IsUnique e p w u)
        ∙ ap (bump k es) (step-credit e k p w u)
        ∙ bump-cons e es k (credit k p (law.stored k w))

  -- one update for each message, at once
  abbrev pub add_each : List Event → W → W
  add_each [] w = w
  add_each (item c ∷ es) w = add_each es (add c (pos 1) w)
  add_each (flush ∷ es) w = add_each es w
  add_each (tick ∷ es) w = add_each es w

  pub add_each-bump :
      (es : List Event) (k : Bytes) (w : W)
      → law.stored k (add_each es w) ≡ bump k es (law.stored k w)
  add_each-bump [] k w = refl
  add_each-bump (item c ∷ es) k w = add_each-bump es k _ ∙ ap (bump k es) (law.added c k (pos 1) w)
  add_each-bump (flush ∷ es) k w = add_each-bump es k w
  add_each-bump (tick ∷ es) k w = add_each-bump es k w

  -- Whatever the cap on buffered keys, and wherever flushes and ticks fall among the messages: once
  -- the channel has closed, each row is the one that an update for each message leaves, and no
  -- count is left in the buffer.
  pub spawn-add_each :
      (max_pending : ℕ) (es : List Event) (k : Bytes) (w : W)
      → (law.stored k (spawn add max_pending es w).1 ≡ law.stored k (add_each es w))
        × ((spawn add max_pending es w).0 ≡ [])
  unfolding spawn
  spawn-add_each max_pending es k w =
      let cap : ℕ = if ltb max_pending 1 then 1 else max_pending in
      (
        unfold lookup in run-bump cap es k [] w tt ∙ sym (add_each-bump es k w),
        run_empties cap es ([], w),
      )
