-- ===== src/Batcher/Shutdown.antt =====
-- The batching task beside its senders, up to the end of `run` in main.rs: hits are queued while the
-- task works, then `flush` is awaited and the task is aborted (url-shortener/src/hits.rs and main.rs;
-- pastebin-service/src/views.rs and main.rs have the same code).
use hicho.Common.{
  ℕ, ◌+◌, ◌≤◌, ◌≡◌, refl, ap, sym, ◌∙◌, true, false, Option, none, some, List, [], ◌∷◌, ◌++◌, Bytes,
  bytes_key, arith, ltb, length, Bool-cases, inl, inr, length-append,
}
use hicho.Common.Int.{ℤ}
use hicho.Common.Map.{IsUnique, lookup}
use hicho.Batcher.{Pending, Event, item, flush, tick, step, run, try_send, channel_capacity}
use hicho.Batcher.Counts.{
  Counts, credit, bump, add_each, add_each-bump, step-credit, step-IsUnique, bump-cons, run-bump,
  run_empties,
}

-- The channel, the task's map and the store.
pub record Live (W : Type 0) : Type 0 where
  pub queue : List Event
  pub pending : Pending
  pub world : W

-- Who moves next: a handler that records a hit, the task with its next message, or the timer.
pub data Turn : Type 0 where
  record_hit : Bytes → Turn
  receive timer : Turn

-- the queue after `record`, while the task runs
abbrev queue_after : Bytes → List Event → List Event
queue_after key queue = elim (try_send key (some queue)) [ none ↦ queue | some q ↦ q ]

module _ {W : Type 0} (add : Bytes → ℤ → W → W) (max_pending : ℕ) where
  unfoldable pub work : List Event → Live W → Live W
  work [] live = live
  work (e ∷ rest) live =
      let (p, w) = step add max_pending e (live.pending, live.world) in
      record { queue = rest; pending = p; world = w }

  unfoldable pub take_turn : Turn → Live W → Live W
  unfolding work
  take_turn (record_hit key) live = record live { queue = queue_after key live.queue }
  take_turn receive live = work live.queue live
  take_turn timer live =
      let (p, w) = step add max_pending tick (live.pending, live.world) in
      record live { pending = p; world = w }

  unfoldable pub run_turns : List Turn → Live W → Live W
  run_turns [] live = live
  run_turns (t ∷ ts) live = run_turns ts (take_turn t live)

  -- The task takes the messages one after another, with no tick of the timer in between.
  unfoldable pub drain : List Event → Pending × W → Pending × W
  drain [] s = s
  drain (e ∷ es) s = drain es (step add max_pending e s)

  -- `flush` at the end of main: the flush message is queued behind the hits, the task answers it, and
  -- the task is aborted.
  unfoldable pub shutdown : Live W → Pending × W
  unfolding drain
  shutdown live = drain (live.queue ++ flush ∷ []) (live.pending, live.world)

-- The hits that find room in the queue, in order.
unfoldable pub accepted : List Turn → List Event → List Event
accepted [] queue = []
accepted (record_hit key ∷ ts) queue = elim (ltb (length queue) channel_capacity) [
  | true ↦ item key ∷ accepted ts (queue_after key queue)
  | false ↦ accepted ts queue
]
accepted (receive ∷ ts) [] = accepted ts []
accepted (receive ∷ ts) (e ∷ rest) = accepted ts rest
accepted (timer ∷ ts) queue = accepted ts queue

queue_room :
    (key : Bytes) (queue : List Event)
    → ltb (length queue) channel_capacity ≡ true
    → queue_after key queue ≡ queue ++ item key ∷ []
unfolding try_send
queue_room key queue h = ground arith

queue_full :
    (key : Bytes) (queue : List Event)
    → ltb (length queue) channel_capacity ≡ false
    → queue_after key queue ≡ queue
unfolding try_send
queue_full key queue h = ground arith

accepted_room :
    (key : Bytes) (ts : List Turn) (q : List Event)
    → ltb (length q) channel_capacity ≡ true
    → accepted (record_hit key ∷ ts) q ≡ item key ∷ accepted ts (q ++ item key ∷ [])
unfolding accepted
accepted_room key ts q h = ground (arith, queue_room key q h)

accepted_full :
    (key : Bytes) (ts : List Turn) (q : List Event)
    → ltb (length q) channel_capacity ≡ false
    → accepted (record_hit key ∷ ts) q ≡ accepted ts q
unfolding accepted
accepted_full key ts q h = ground arith

-- The hits that were recorded, in order.
abbrev pub recorded : List Turn → List Event
recorded [] = []
recorded (record_hit key ∷ ts) = item key ∷ recorded ts
recorded (receive ∷ ts) = recorded ts
recorded (timer ∷ ts) = recorded ts

accepted_all :
    (ts : List Turn) (q : List Event)
    → length q + length (recorded ts) ≤ 8192
    → accepted ts q ≡ recorded ts
unfolding accepted
accepted_all [] q h = refl
accepted_all (record_hit key ∷ ts) q h =
    let room : ltb (length q) channel_capacity ≡ true = ground arith in
    accepted_room key ts q room
    ∙ ap (◌∷◌ (item key))
        (accepted_all ts (q ++ item key ∷ []) (omega (arith, length-append q (item key ∷ []))))
accepted_all (receive ∷ ts) [] h = accepted_all ts [] h
accepted_all (receive ∷ ts) (e ∷ q) h = accepted_all ts q (omega arith)
accepted_all (timer ∷ ts) q h = accepted_all ts q h

module _ {W V : Type 0} {add : Bytes → ℤ → W → W} {plus : ℤ → V → V} (law : Counts add plus)
    (cap : ℕ) where
  drain-flush :
      (es : List Event) (s : Pending × W) → drain add cap (es ++ flush ∷ []) s ≡ run add cap es s
  unfolding drain run step
  drain-flush [] s = refl
  drain-flush (e ∷ es) s = drain-flush es (step add cap e s)

  bump-append :
      (xs ys : List Event) (k : Bytes) (o : Option V)
      → bump law k (xs ++ ys) o ≡ bump law k ys (bump law k xs o)
  bump-append [] ys k o = refl
  bump-append (item c ∷ xs) ys k o = bump-append xs ys k _
  bump-append (flush ∷ xs) ys k o = bump-append xs ys k o
  bump-append (tick ∷ xs) ys k o = bump-append xs ys k o

  -- A row with all that is buffered and queued for it.
  abbrev total : Bytes → Live W → Option V
  total k live = bump law k live.queue (credit law k live.pending (law.stored k live.world))

  shutdown-total :
      (k : Bytes) (live : Live W)
      → IsUnique live.pending
      → law.stored k (shutdown add cap live).1 ≡ total k live
  unfolding shutdown
  shutdown-total k live u =
      ap (λ s. law.stored k s.1) (drain-flush live.queue (live.pending, live.world))
      ∙ run-bump law cap live.queue k live.pending live.world u

  abbrev pub live_at : List Event → Pending → W → Live W
  live_at q p w = record { queue = q; pending = p; world = w }

  turns-total :
      (ts : List Turn) (k : Bytes) (q : List Event) (p : Pending) (w : W)
      → IsUnique p
      → law.stored k (shutdown add cap (run_turns add cap ts (live_at q p w))).1
        ≡ bump law k (accepted ts q) (total k (live_at q p w))
  unfolding run_turns take_turn accepted
  turns-total [] k q p w u = shutdown-total k (live_at q p w) u
  turns-total (record_hit key ∷ ts) k q p w u =
      elim (Bool-cases (ltb (length q) channel_capacity)) [
        | inl room ↦
            let more = q ++ (item key ∷ []) in
            ap (λ x. law.stored k (shutdown add cap (run_turns add cap ts (live_at x p w))).1)
              (queue_room key q room)
            ∙ turns-total ts k more p w u
            ∙ ap (bump law k (accepted ts more))
                (bump-append q (item key ∷ []) k (credit law k p (law.stored k w)))
            ∙ ap (λ es. bump law k es (total k (live_at q p w))) (sym (accepted_room key ts q room))
        | inr full ↦
            ap (λ x. law.stored k (shutdown add cap (run_turns add cap ts (live_at x p w))).1)
              (queue_full key q full)
            ∙ turns-total ts k q p w u
            ∙ ap (λ es. bump law k es (total k (live_at q p w))) (sym (accepted_full key ts q full))
      ]
  turns-total (receive ∷ ts) k [] p w u = turns-total ts k [] p w u
  turns-total (receive ∷ ts) k (e ∷ q) p w u =
      let (p', w') = step add cap e (p, w) in
      turns-total ts k q p' w' (step-IsUnique law cap e p w u)
      ∙ ap (λ o. bump law k (accepted ts q) (bump law k q o)) (step-credit law cap e k p w u)
      ∙ ap (bump law k (accepted ts q)) (bump-cons law cap e q k (credit law k p (law.stored k w)))
  turns-total (timer ∷ ts) k q p w u =
      let (p', w') = step add cap tick (p, w) in
      turns-total ts k q p' w' (step-IsUnique law cap tick p w u)
      ∙ ap (λ o. bump law k (accepted ts q) (bump law k q o)) (step-credit law cap tick k p w u)

  -- Where every update of the store takes place and adds exactly (`Counts`, as the updates of the
  -- in-memory repositories do; an update over SQLite may fail, and the batching task then drops its
  -- count): after the final flush of the batching task, whatever the order in which handlers recorded
  -- hits, the task took messages and its timer fired, each row is the one that an update for each hit
  -- that found room in the queue leaves, and the task holds no count that its abort would lose.
  pub shutdown-add_each :
      (ts : List Turn) (k : Bytes) (w : W)
      → (law.stored k (shutdown add cap (run_turns add cap ts (live_at [] [] w))).1
          ≡ law.stored k (add_each law (accepted ts []) w))
        × ((shutdown add cap (run_turns add cap ts (live_at [] [] w))).0 ≡ [])
  unfolding lookup
  shutdown-add_each ts k w =
      let live = run_turns add cap ts (live_at [] [] w) in
      (
        turns-total ts k [] [] w tt ∙ sym (add_each-bump law (accepted ts []) k w),
        unfold shutdown in
            ap (λ s. s.0) (drain-flush live.queue (live.pending, live.world))
            ∙ run_empties law cap live.queue (live.pending, live.world),
      )

  -- Every hit is stored in the end, if every update takes place (`Counts`): where no more hits are recorded than the queue has room for, the
  -- final flush leaves each row as an update for every hit that was recorded, however few messages the
  -- task had taken before.
  pub shutdown_keeps_all :
      (ts : List Turn) (k : Bytes) (w : W)
      → length (recorded ts) ≤ 8192
      → law.stored k (shutdown add cap (run_turns add cap ts (live_at [] [] w))).1
        ≡ law.stored k (add_each law (recorded ts) w)
  shutdown_keeps_all ts k w few =
      (shutdown-add_each ts k w).0
      ∙ ap (λ es. law.stored k (add_each law es w)) (accepted_all ts [] (omega arith))
