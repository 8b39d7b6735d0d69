-- ===== src/Pastebin/Contract.antt =====
-- What the port `PasteRepository` promises (the comments on the trait in
-- pastebin-service/src/domain/mod.rs): a reference store, and what it means that a repository
-- refines it.
pub mod Runs
use hicho.Common.{
  ◌≡◌, ◌⊎◌, inl, inr, refl, Bool, true, false, Option, none, some, List, [], ◌∷◌, Bytes, bytes_eq,
  Result, ok, err, Action, if◌then◌else◌, arith,
}
use hicho.Common.Int.{ℤ, ◌+ℤ◌, InRange}
use hicho.Sqlx.{update}
use hicho.Pastebin.Domain.Errors.{RepoError, conflict, backend, BoxedError}
use hicho.Pastebin.Domain.PasteId.{PasteId}
use hicho.Pastebin.Domain.Paste.{Paste, PasteRepository}
use hicho.Pastebin.Memory.{add_views}

-- A call of one of the methods, and its value.
pub data Call : Type 0 where
  insert : Paste → Call
  get take delete : PasteId → Call
  increment_views_by : PasteId → ℤ → Call
  ping : Call

-- A store, abstractly: the paste under each id.
abbrev pub Store : Type 0
Store = Bytes → Option Paste

abbrev pub is_present : Option Paste → Bool
is_present none = false
is_present (some p) = true

abbrev pub insert_into : Paste → Option Paste → Action Store RepoError (Unit {0})
insert_into p (some old) m = (err conflict, m)
insert_into p none m = (ok tt, update m p.id.as_str (some p))

abbrev pub count_in : Bytes → ℤ → Option Paste → Action Store RepoError Bool
count_in k n none m = (ok false, m)
count_in k n (some p) m = (ok true, update m k (some (add_views n p)))

abbrev pub take_from : Bytes → Option Paste → Action Store RepoError (Option Paste)
take_from k none m = (ok none, m)
take_from k (some p) m = (ok (some p), update m k none)

abbrev pub delete_from : Bytes → Option Paste → Action Store RepoError Bool
delete_from k none m = (ok false, m)
delete_from k (some p) m = (ok true, update m k none)

-- The reference implementation.
abbrev pub reference : PasteRepository Store
reference = record {
  insert = λ p m. insert_into p (m p.id.as_str) m;
  get = λ i m. (ok (m i.as_str), m);
  take = λ i m. take_from i.as_str (m i.as_str) m;
  increment_views_by = λ i n m. count_in i.as_str n (m i.as_str) m;
  delete = λ i m. delete_from i.as_str (m i.as_str) m;
  ping = λ m. (ok tt, m);
}

-- An addition that keeps the counter of the paste within 64 bits.
abbrev pub Fits : ℤ → Option Paste → Type 0
Fits n none = Unit
Fits n (some p) = InRange (p.views +ℤ n)

-- `MayFail c w cause` says when the backend may fail the call `c` in the state `w`, with that cause.
module _ {W : Type 0} (Represents : W → Store → Type 0)
    (MayFail : Call → W → BoxedError → Type 0) where
  -- A call either fails with a backend error that it may fail with, and changes nothing, or answers as the reference does
  -- and leaves what represents the reference's store.
  abbrev pub Refines :
      {A : Type 0} → Call → W → Store → Result RepoError A × W → Result RepoError A × Store → Type 0
  Refines c w m out expected =
      ((cause : BoxedError) × (out.0 ≡ err (backend cause))
        × MayFail c w cause
        × Represents out.1 m)
      ⊎ ((out.0 ≡ expected.0) × Represents out.1 expected.1)

  pub record IsPasteStore (repo : PasteRepository W) : Type 0 where
    pub insert_lem :
        (p : Paste) (w : W) (m : Store)
        → Represents w m
        → Refines (insert p) w m (repo.insert p w) (reference.insert p m)
    pub get_lem :
        (i : PasteId) (w : W) (m : Store)
        → Represents w m
        → Refines (get i) w m (repo.get i w) (reference.get i m)
    pub take_lem :
        (i : PasteId) (w : W) (m : Store)
        → Represents w m
        → Refines (take i) w m (repo.take i w) (reference.take i m)
    pub increment_lem :
        (i : PasteId) (n : ℤ) (w : W) (m : Store)
        → Represents w m
        → Fits n (m i.as_str)
        → Refines
            (increment_views_by i n)
            w
            m
            (repo.increment_views_by i n w)
            (reference.increment_views_by i n m)
    pub delete_lem :
        (i : PasteId) (w : W) (m : Store)
        → Represents w m
        → Refines (delete i) w m (repo.delete i w) (reference.delete i m)
    pub ping_lem :
        (w : W) (m : Store) → Represents w m → Refines ping w m (repo.ping w) (reference.ping m)
