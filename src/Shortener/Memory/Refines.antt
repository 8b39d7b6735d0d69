-- ===== src/Shortener/Memory/Refines.antt =====
-- The in-memory repository (url-shortener/src/infrastructure/memory.rs) refines the reference store.
use hicho.Common.{
  ◌≡◌, inl, inr, refl, none, some, List, Bytes, Option-cases, arith, ◌∙◌, bytes_key, bytes_eq_iff,
  ap, ok, Result, true, false, err,
}
use hicho.Common.Int.{ℤ}
use hicho.Common.Map.{lookup, insert, modify, lookup-insert, lookup-remove, lookup-modify}
use hicho.Shortener.Domain.Errors.{RepoError, conflict, BoxedError}
use hicho.Shortener.Domain.ShortCode.{ShortCode}
use hicho.Shortener.Domain.Link.{Link}
use hicho.Shortener.Contract.{Call, Store, reference, Refines, IsLinkStore}
use hicho.Shortener.Contract.Runs.{AllFit, Agree, run_refines}
use hicho.Shortener.Memory.{Links, InMemoryLinkRepository, dispatch, repository, add_hits}

-- The map of the running task holds the links of the store; a stopped task holds none.
abbrev pub Represents : InMemoryLinkRepository → Store → Type 0
Represents none m = Unit
Represents (some links) m = (k : Bytes) → lookup k links ≡ m k

-- Only a stopped task fails a call.
abbrev pub HasStopped : Call → InMemoryLinkRepository → BoxedError → Type 0
HasStopped c w cause = w ≡ none

abbrev Refined :
    {A : Type 0}
    → Call
    → InMemoryLinkRepository
    → Store
    → Result RepoError A × InMemoryLinkRepository
    → Result RepoError A × Store
    → Type 0
Refined c w m out expected = Refines Represents HasStopped c w m out expected

insert_fresh :
    (p : Link) (ps : Links)
    → lookup p.code.as_str ps ≡ none
    → repository.insert p (some ps) ≡ (ok tt, some (insert p.code.as_str p ps))
unfolding dispatch
insert_fresh p ps h = ground arith

insert_taken :
    (p old : Link) (ps : Links)
    → lookup p.code.as_str ps ≡ some old
    → repository.insert p (some ps) ≡ (err conflict, some ps)
unfolding dispatch
insert_taken p old ps h = ground arith

insert_refines :
    (p : Link) (w : InMemoryLinkRepository) (m : Store)
    → Represents w m
    → Refined (Call.insert p) w m (repository.insert p w) (reference.insert p m)
unfolding dispatch
insert_refines p none m h = inl (_, refl, refl, tt)
insert_refines p (some ps) m h = elim (Option-cases (m p.code.as_str)) [
  | inl e ↦
      rw (e, insert_fresh p ps (h p.code.as_str ∙ e))
        (inr (refl, λ k. ground (arith, h k, lookup-insert p.code.as_str k p ps)))
  | inr (old, e) ↦ rw (e, insert_taken p old ps (h p.code.as_str ∙ e)) (inr (refl, h))
]

get_refines :
    (i : ShortCode) (w : InMemoryLinkRepository) (m : Store)
    → Represents w m
    → Refined (Call.get i) w m (repository.get i w) (reference.get i m)
unfolding dispatch
get_refines i none m h = inl (_, refl, refl, tt)
get_refines i (some ps) m h = inr (ap ok (h i.as_str), h)

increment_absent :
    (i : ShortCode) (n : ℤ) (ps : Links)
    → lookup i.as_str ps ≡ none
    → repository.increment_hits_by i n (some ps) ≡ (ok false, some ps)
unfolding dispatch
increment_absent i n ps h = ground arith

increment_present :
    (i : ShortCode) (n : ℤ) (ps : Links) (p : Link)
    → lookup i.as_str ps ≡ some p
    → repository.increment_hits_by i n (some ps) ≡ (ok true, some (modify i.as_str (add_hits n) ps))
unfolding dispatch
increment_present i n ps p h = ground arith

increment_refines :
    (i : ShortCode) (n : ℤ) (w : InMemoryLinkRepository) (m : Store)
    → Represents w m
    → Refined
        (Call.increment_hits_by i n)
        w
        m
        (repository.increment_hits_by i n w)
        (reference.increment_hits_by i n m)
unfolding dispatch
increment_refines i n none m h = inl (_, refl, refl, tt)
increment_refines i n (some ps) m h = elim (Option-cases (m i.as_str)) [
  | inl e ↦ rw (e, increment_absent i n ps (h i.as_str ∙ e)) (inr (refl, h))
  | inr (old, e) ↦
      rw (e, increment_present i n ps old (h i.as_str ∙ e))
        (inr (
          refl,
          λ k. ground (
            arith,
            h k,
            h i.as_str,
            lookup-modify i.as_str k (add_hits n) ps,
            bytes_eq_iff i.as_str k,
          ),
        ))
]

delete_refines :
    (i : ShortCode) (w : InMemoryLinkRepository) (m : Store)
    → Represents w m
    → Refined (Call.delete i) w m (repository.delete i w) (reference.delete i m)
unfolding dispatch
delete_refines i none m h = inl (_, refl, refl, tt)
delete_refines i (some ps) m h = elim (Option-cases (m i.as_str)) [
  | inl e ↦
      rw (e, h i.as_str ∙ e)
        (inr (
          refl,
          λ k.
              ground (arith, h k, h i.as_str, lookup-remove i.as_str k ps, bytes_eq_iff i.as_str k),
        ))
  | inr (old, e) ↦
      rw (e, h i.as_str ∙ e) (inr (refl, λ k. ground (arith, h k, lookup-remove i.as_str k ps)))
]

ping_refines :
    (w : InMemoryLinkRepository) (m : Store)
    → Represents w m
    → Refined Call.ping w m (repository.ping w) (reference.ping m)
unfolding dispatch
ping_refines none m h = inl (_, refl, refl, tt)
ping_refines (some ps) m h = inr (refl, h)

pub memory_refines : IsLinkStore Represents HasStopped repository
memory_refines = record {
  insert_lem = insert_refines;
  get_lem = get_refines;
  increment_lem = λ i n w m h fits. increment_refines i n w m h;
  delete_lem = delete_refines;
  ping_lem = ping_refines;
}

-- Any sequence of calls of the in-memory repository agrees with the reference store, where every
-- addition to a counter stays within 64 bits: replayed on the reference, the calls that did not end
-- in a backend error have the answers that they had, and a running task ends with exactly the links
-- that the reference ends with; and a call ends in a backend error only if the task has stopped.
pub run-memory_links :
    (cs : List Call) (w : InMemoryLinkRepository) (m : Store)
    → Represents w m
    → AllFit repository cs w m
    → Agree Represents HasStopped repository cs w m
run-memory_links = run_refines Represents HasStopped repository memory_refines
