-- ===== src/Pastebin/Contract/Runs.antt =====
-- Sequences of calls of a `PasteRepository` (pastebin-service/src/domain/mod.rs), and what a store
-- that refines the reference shows of them.
use hicho.Common.{
  ◌≡◌, ◌≢◌, ◌⊎◌, ◌∙◌, inl, inr, refl, ap, Bool, Option, List, [], ◌∷◌, Result, ok, err, Action,
  arith,
}
use hicho.Pastebin.Domain.Errors.{RepoError, backend, conflict, BoxedError}
use hicho.Pastebin.Domain.Paste.{Paste, PasteRepository}
use hicho.Pastebin.Contract.{
  Call, insert, get, take, delete, increment_views_by, ping, Store, reference, Fits, Refines,
  IsPasteStore,
}

pub data Reply : Type 0 where
  done : Reply
  flag : Bool → Reply
  paste : Option Paste → Reply

abbrev Answer : Type 0
Answer = Result RepoError Reply

Answer-cases :
    (a : Answer)
    → ((reply : Reply) × (a ≡ ok reply))
      ⊎ (a ≡ err conflict)
      ⊎ ((cause : BoxedError) × (a ≡ err (backend cause)))
Answer-cases (ok reply) = inl (reply, refl)
Answer-cases (err conflict) = inr (inl refl)
Answer-cases (err (backend cause)) = inr (inr (cause, refl))

abbrev map_answer : {W A : Type 0} → (A → Reply) → Result RepoError A × W → Answer × W
map_answer f (ok a, w) = (ok (f a), w)
map_answer f (err e, w) = (err e, w)

abbrev pub perform : {W : Type 0} → PasteRepository W → Call → Action W RepoError Reply
perform repo (insert p) w = map_answer (λ _. done) (repo.insert p w)
perform repo (get i) w = map_answer paste (repo.get i w)
perform repo (take i) w = map_answer paste (repo.take i w)
perform repo (delete i) w = map_answer flag (repo.delete i w)
perform repo (increment_views_by i n) w = map_answer flag (repo.increment_views_by i n w)
perform repo ping w = map_answer (λ _. done) (repo.ping w)

-- The calls in order, each with its answer.
unfoldable pub run : {W : Type 0} → PasteRepository W → List Call → W → List (Call × Answer) × W
run repo [] w = ([], w)
run repo (c ∷ cs) w =
    let (answer, w₁) = perform repo c w in let (log, w₂) = run repo cs w₁ in ((c, answer) ∷ log, w₂)

-- The store after a call with the given answer: a call that the backend failed has no effect.
abbrev pub advance : Call → Answer → Store → Store
advance c (err (backend cause)) m = m
advance c (err conflict) m = (perform reference c m).1
advance c (ok reply) m = (perform reference c m).1

-- The calls that were carried out.
unfoldable pub carried_out : List (Call × Answer) → List Call
carried_out [] = []
carried_out ((c, err (backend cause)) ∷ log) = carried_out log
carried_out ((c, err conflict) ∷ log) = c ∷ carried_out log
carried_out ((c, ok reply) ∷ log) = c ∷ carried_out log

unfoldable pub answers : List (Call × Answer) → List Answer
answers [] = []
answers ((c, err (backend cause)) ∷ log) = answers log
answers ((c, err conflict) ∷ log) = err conflict ∷ answers log
answers ((c, ok reply) ∷ log) = ok reply ∷ answers log

abbrev FitsCall : Call → Store → Type 0
FitsCall (increment_views_by i n) m = Fits n (m i.as_str)
FitsCall _ m = Unit

-- Every addition of the run keeps its counter within 64 bits.
abbrev pub AllFit : {W : Type 0} → PasteRepository W → List Call → W → Store → Type 0
AllFit repo [] w m = Unit
AllFit repo (c ∷ cs) w m =
    FitsCall c m × AllFit repo cs (perform repo c w).1 (advance c (perform repo c w).0 m)

module _ {W : Type 0} (Represents : W → Store → Type 0)
    (MayFail : Call → W → BoxedError → Type 0) where
  -- a backend error has a cause in the state in which the call was made
  abbrev Excused : Call → W → Answer → Type 0
  Excused c w (err (backend cause)) = MayFail c w cause
  Excused c w (err conflict) = Unit
  Excused c w (ok reply) = Unit

  -- the same of each call of a run
  abbrev pub AllExcused : PasteRepository W → List Call → W → Type 0
  AllExcused repo [] w = Unit
  AllExcused repo (c ∷ cs) w =
      Excused c w (perform repo c w).0 × AllExcused repo cs (perform repo c w).1

  -- A value that is read off an answer is read off the reference's too.
  map_Refines :
      {A : Type 0} (f : A → Reply) (c : Call) (w₀ : W) (m : Store) (out : Result RepoError A × W)
      (expected : Result RepoError A × Store)
      → Refines Represents MayFail c w₀ m out expected
      → Refines Represents MayFail c w₀ m (map_answer f out) (map_answer f expected)
  map_Refines f c w₀ m (ok a, w) (ok b, m') h = ground (arith)
  map_Refines f c w₀ m (ok a, w) (err e, m') h = ground (arith)
  map_Refines f c w₀ m (err e, w) (ok b, m') h = ground (arith)
  map_Refines f c w₀ m (err e, w) (err e', m') h = ground (arith)

  -- The reference has no backend that could fail.
  never_down :
      (c : Call) (m : Store) (cause : BoxedError) → (perform reference c m).0 ≢ err (backend cause)
  never_down (insert p) m cause = ground arith
  never_down (get i) m cause = ground arith
  never_down (take i) m cause = ground arith
  never_down (delete i) m cause = ground arith
  never_down (increment_views_by i n) m cause = ground arith
  never_down ping m cause = ground arith

  -- Replayed on the reference, the calls that were carried out have the answers that they had, and end
  -- in the store that the last state represents; and each call that was not has a cause.
  abbrev pub Agree : PasteRepository W → List Call → W → Store → Type 0
  Agree repo cs w m =
      let (log, w') = run repo cs w in
      let (replayed, m') = run reference (carried_out log) m in
      (answers replayed ≡ answers log) × Represents w' m' × AllExcused repo cs w

  module _ (repo : PasteRepository W) (law : IsPasteStore Represents MayFail repo) where
    call-Refines :
        (c : Call) (w : W) (m : Store)
        → Represents w m
        → FitsCall c m
        → Refines Represents MayFail c w m (perform repo c w) (perform reference c m)
    call-Refines (insert p) w m h fits = map_Refines _ _ w m _ _ (law.insert_lem p w m h)
    call-Refines (get i) w m h fits = map_Refines _ _ w m _ _ (law.get_lem i w m h)
    call-Refines (take i) w m h fits = map_Refines _ _ w m _ _ (law.take_lem i w m h)
    call-Refines (delete i) w m h fits = map_Refines _ _ w m _ _ (law.delete_lem i w m h)
    call-Refines (increment_views_by i n) w m h fits =
        map_Refines _ _ w m _ _ (law.increment_lem i n w m h fits)
    call-Refines ping w m h fits = map_Refines _ _ w m _ _ (law.ping_lem w m h)

    pub run_refines :
        (cs : List Call) (w : W) (m : Store)
        → Represents w m
        → AllFit repo cs w m
        → Agree repo cs w m
    unfolding run carried_out answers
    run_refines [] w m h fits = (refl, h, tt)
    run_refines (c ∷ cs) w m h fits = elim (call-Refines c w m h fits.0) [
      | inl (cause, failed, why, same) ↦
          let later = run_refines cs _ m same (rw failed at (fits.1)) in
          rw failed (later.0, later.1, (why, later.2))
      | inr (agree, after) ↦ elim (Answer-cases (perform reference c m).0) [
        | inl (reply, e) ↦
            let later = run_refines cs _ _ after (rw (agree ∙ e) at (fits.1)) in
            rw (agree ∙ e, e) (ap (◌∷◌ (ok reply)) later.0, later.1, (tt, later.2))
        | inr (inl e) ↦
            let later = run_refines cs _ _ after (rw (agree ∙ e) at (fits.1)) in
            rw (agree ∙ e, e) (ap (◌∷◌ (err conflict)) later.0, later.1, (tt, later.2))
        | inr (inr (cause, e)) ↦ absurd (never_down c m cause e)
      ]
    ]
