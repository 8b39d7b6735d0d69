-- ===== src/Pastebin/Memory/Refines.antt =====
-- The in-memory repository (pastebin-service/src/infrastructure/memory.rs) refines the reference store.
use hicho.Common.{
  ◌≡◌, inl, inr, refl, none, some, List, Bytes, Option-cases, arith, ◌∙◌, bytes_key, bytes_eq_iff,
  ap, ok, Result, true, false, err,
}
use hicho.Common.Int.{ℤ}
use hicho.Common.Map.{lookup, insert, modify, lookup-insert, lookup-remove, lookup-modify}
use hicho.Pastebin.Domain.Errors.{RepoError, conflict, BoxedError}
use hicho.Pastebin.Domain.PasteId.{PasteId}
use hicho.Pastebin.Domain.Paste.{Paste}
use hicho.Pastebin.Contract.{Call, Store, reference, Refines, IsPasteStore}
use hicho.Pastebin.Contract.Runs.{AllFit, Agree, run_refines}
use hicho.Pastebin.Memory.{Pastes, InMemoryPasteRepository, dispatch, repository, add_views}

-- The map of the running task holds the pastes of the store; a stopped task holds none.
abbrev pub Represents : InMemoryPasteRepository → Store → Type 0
Represents none m = Unit
Represents (some pastes) m = (k : Bytes) → lookup k pastes ≡ m k

-- Only a stopped task fails a call.
abbrev pub HasStopped : Call → InMemoryPasteRepository → BoxedError → Type 0
HasStopped c w cause = w ≡ none

abbrev Refined :
    {A : Type 0}
    → Call
    → InMemoryPasteRepository
    → Store
    → Result RepoError A × InMemoryPasteRepository
    → Result RepoError A × Store
    → Type 0
Refined c w m out expected = Refines Represents HasStopped c w m out expected

insert_fresh :
    (p : Paste) (ps : Pastes)
    → lookup p.id.as_str ps ≡ none
    → repository.insert p (some ps) ≡ (ok tt, some (insert p.id.as_str p ps))
unfolding dispatch
insert_fresh p ps h = ground arith

insert_taken :
    (p old : Paste) (ps : Pastes)
    → lookup p.id.as_str ps ≡ some old
    → repository.insert p (some ps) ≡ (err conflict, some ps)
unfolding dispatch
insert_taken p old ps h = ground arith

insert_refines :
    (p : Paste) (w : InMemoryPasteRepository) (m : Store)
    → Represents w m
    → Refined (Call.insert p) w m (repository.insert p w) (reference.insert p m)
unfolding dispatch
insert_refines p none m h = inl (_, refl, refl, tt)
insert_refines p (some ps) m h = elim (Option-cases (m p.id.as_str)) [
  | inl e ↦
      rw (e, insert_fresh p ps (h p.id.as_str ∙ e))
        (inr (refl, λ k. ground (arith, h k, lookup-insert p.id.as_str k p ps)))
  | inr (old, e) ↦ rw (e, insert_taken p old ps (h p.id.as_str ∙ e)) (inr (refl, h))
]

get_refines :
    (i : PasteId) (w : InMemoryPasteRepository) (m : Store)
    → Represents w m
    → Refined (Call.get i) w m (repository.get i w) (reference.get i m)
unfolding dispatch
get_refines i none m h = inl (_, refl, refl, tt)
get_refines i (some ps) m h = inr (ap ok (h i.as_str), h)

take_refines :
    (i : PasteId) (w : InMemoryPasteRepository) (m : Store)
    → Represents w m
    → Refined (Call.take i) w m (repository.take i w) (reference.take i m)
unfolding dispatch
take_refines i none m h = inl (_, refl, refl, tt)
take_refines i (some ps) m h = elim (Option-cases (m i.as_str)) [
  | inl e ↦
      rw (e, h i.as_str ∙ e)
        (inr (
          refl,
          λ k.
              ground (arith, h k, h i.as_str, lookup-remove i.as_str k ps, bytes_eq_iff i.as_str k),
        ))
  | inr (old, e) ↦
      rw (e, h i.as_str ∙ e) (inr (refl, λ k. ground (arith, h k, lookup-remove i.as_str k ps)))
]

increment_absent :
    (i : PasteId) (n : ℤ) (ps : Pastes)
    → lookup i.as_str ps ≡ none
    → repository.increment_views_by i n (some ps) ≡ (ok false, some ps)
unfolding dispatch
increment_absent i n ps h = ground arith

increment_present :
    (i : PasteId) (n : ℤ) (ps : Pastes) (p : Paste)
    → lookup i.as_str ps ≡ some p
    → repository.increment_views_by i n (some ps)
      ≡ (ok true, some (modify i.as_str (add_views n) ps))
unfolding dispatch
increment_present i n ps p h = ground arith

increment_refines :
    (i : PasteId) (n : ℤ) (w : InMemoryPasteRepository) (m : Store)
    → Represents w m
    → Refined
        (Call.increment_views_by i n)
        w
        m
        (repository.increment_views_by i n w)
        (reference.increment_views_by i n m)
unfolding dispatch
increment_refines i n none m h = inl (_, refl, refl, tt)
increment_refines i n (some ps) m h = elim (Option-cases (m i.as_str)) [
  | inl e ↦ rw (e, increment_absent i n ps (h i.as_str ∙ e)) (inr (refl, h))
  | inr (old, e) ↦
      rw (e, increment_present i n ps old (h i.as_str ∙ e))
        (inr (
          refl,
          λ k. ground (
            arith,
            h k,
            h i.as_str,
            lookup-modify i.as_str k (add_views n) ps,
            bytes_eq_iff i.as_str k,
          ),
        ))
]

delete_refines :
    (i : PasteId) (w : InMemoryPasteRepository) (m : Store)
    → Represents w m
    → Refined (Call.delete i) w m (repository.delete i w) (reference.delete i m)
unfolding dispatch
delete_refines i none m h = inl (_, refl, refl, tt)
delete_refines i (some ps) m h = elim (Option-cases (m i.as_str)) [
  | inl e ↦
      rw (e, h i.as_str ∙ e)
        (inr (
          refl,
          λ k.
              ground (arith, h k, h i.as_str, lookup-remove i.as_str k ps, bytes_eq_iff i.as_str k),
        ))
  | inr (old, e) ↦
      rw (e, h i.as_str ∙ e) (inr (refl, λ k. ground (arith, h k, lookup-remove i.as_str k ps)))
]

ping_refines :
    (w : InMemoryPasteRepository) (m : Store)
    → Represents w m
    → Refined Call.ping w m (repository.ping w) (reference.ping m)
unfolding dispatch
ping_refines none m h = inl (_, refl, refl, tt)
ping_refines (some ps) m h = inr (refl, h)

memory_refines : IsPasteStore Represents HasStopped repository
memory_refines = record {
  insert_lem = insert_refines;
  get_lem = get_refines;
  take_lem = take_refines;
  increment_lem = λ i n w m h fits. increment_refines i n w m h;
  delete_lem = delete_refines;
  ping_lem = ping_refines;
}

-- Any sequence of calls of the in-memory repository agrees with the reference store, where every
-- addition to a counter stays within 64 bits: replayed on the reference, the calls that did not end
-- in a backend error have the answers that they had, and a running task ends with exactly the pastes
-- that the reference ends with; and a call ends in a backend error only if the task has stopped.
pub run-memory_pastes :
    (cs : List Call) (w : InMemoryPasteRepository) (m : Store)
    → Represents w m
    → AllFit repository cs w m
    → Agree Represents HasStopped repository cs w m
run-memory_pastes = run_refines Represents HasStopped repository memory_refines
