-- ===== src/Shortener/Contract.antt =====
-- What the port `LinkRepository` promises (the comments on the trait in
-- url-shortener/src/domain/mod.rs): a reference store, and what it means that a repository
-- refines it.
pub mod Runs
use hicho.Common.{
  ◌≡◌, ◌⊎◌, inl, inr, refl, Bool, true, false, Option, none, some, List, [], ◌∷◌, Bytes, bytes_eq,
  Result, ok, err, Action, if◌then◌else◌, arith,
}
use hicho.Common.Int.{ℤ, ◌+ℤ◌, InRange}
use hicho.Sqlx.{update}
use hicho.Shortener.Domain.Errors.{RepoError, conflict, backend, BoxedError}
use hicho.Shortener.Domain.ShortCode.{ShortCode}
use hicho.Shortener.Domain.Link.{Link, LinkRepository}
use hicho.Shortener.Memory.{add_hits}

-- A call of one of the methods, and its value.
pub data Call : Type 0 where
  insert : Link → Call
  get delete : ShortCode → Call
  increment_hits_by : ShortCode → ℤ → Call
  ping : Call

-- A store, abstractly: the link under each id.
abbrev pub Store : Type 0
Store = Bytes → Option Link

abbrev pub is_present : Option Link → Bool
is_present none = false
is_present (some p) = true

abbrev pub insert_into : Link → Option Link → Action Store RepoError (Unit {0})
insert_into p (some old) m = (err conflict, m)
insert_into p none m = (ok tt, update m p.code.as_str (some p))

abbrev pub count_in : Bytes → ℤ → Option Link → Action Store RepoError Bool
count_in k n none m = (ok false, m)
count_in k n (some p) m = (ok true, update m k (some (add_hits n p)))

abbrev pub delete_from : Bytes → Option Link → Action Store RepoError Bool
delete_from k none m = (ok false, m)
delete_from k (some p) m = (ok true, update m k none)

-- The reference implementation.
abbrev pub reference : LinkRepository Store
reference = record {
  insert = λ p m. insert_into p (m p.code.as_str) m;
  get = λ i m. (ok (m i.as_str), m);
  increment_hits_by = λ i n m. count_in i.as_str n (m i.as_str) m;
  delete = λ i m. delete_from i.as_str (m i.as_str) m;
  ping = λ m. (ok tt, m);
}

-- An addition that keeps the counter of the link within 64 bits.
abbrev pub Fits : ℤ → Option Link → Type 0
Fits n none = Unit
Fits n (some p) = InRange (p.hits +ℤ n)

-- `MayFail c w cause` says when the backend may fail the call `c` in the state `w`, with that cause.
module _ {W : Type 0} (Represents : W → Store → Type 0)
    (MayFail : Call → W → BoxedError → Type 0) where
  -- A call either fails with a backend error that it may fail with, and changes nothing, or answers as the reference does
  -- and leaves what represents the reference's store.
  abbrev pub Refines :
      {A : Type 0} → Call → W → Store → Result RepoError A × W → Result RepoError A × Store → Type 0
  Refines c w m out expected =
      ((cause : BoxedError) × (out.0 ≡ err (backend cause))
        × MayFail c w cause
        × Represents out.1 m)
      ⊎ ((out.0 ≡ expected.0) × Represents out.1 expected.1)

  pub record IsLinkStore (repo : LinkRepository W) : Type 0 where
    pub insert_lem :
        (p : Link) (w : W) (m : Store)
        → Represents w m
        → Refines (insert p) w m (repo.insert p w) (reference.insert p m)
    pub get_lem :
        (i : ShortCode) (w : W) (m : Store)
        → Represents w m
        → Refines (get i) w m (repo.get i w) (reference.get i m)
    pub increment_lem :
        (i : ShortCode) (n : ℤ) (w : W) (m : Store)
        → Represents w m
        → Fits n (m i.as_str)
        → Refines
            (increment_hits_by i n)
            w
            m
            (repo.increment_hits_by i n w)
            (reference.increment_hits_by i n m)
    pub delete_lem :
        (i : ShortCode) (w : W) (m : Store)
        → Represents w m
        → Refines (delete i) w m (repo.delete i w) (reference.delete i m)
    pub ping_lem :
        (w : W) (m : Store) → Represents w m → Refines ping w m (repo.ping w) (reference.ping m)
