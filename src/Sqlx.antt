-- ===== src/Sqlx.antt =====
-- The crate `sqlx`, which the repositories of url-shortener/src/infrastructure/sqlite.rs and
-- pastebin-service/src/infrastructure/sqlite.rs call: its interface, and what SQLite documents of
-- the statements on one table that they execute.

pub mod Model
use hicho.Common.{
  ℕ, zero, suc, ◌≡◌, ◌≢◌, ◌⊎◌, Bool, true, false, Option, none, some, List, [], ◌∷◌, Bytes,
  bytes_eq, Result, ok, err, Action, if◌then◌else◌, length,
}
use hicho.Common.Int.{ℤ, ◌+ℤ◌, InRange}

-- A bound or stored value, by the Rust type that it is bound as.
pub data Value : Type 0 where
  text : Bytes → Value
  nullable_text : Option Bytes → Value
  integer : ℤ → Value
  nullable_integer : Option ℤ → Value
  flag : Bool → Value

-- `query(…).bind(…)….execute` (with `rows_affected`) and `.fetch_optional` on a pool whose database
-- has states `W`; `try_get` of a column at each type; the test on `Error::Database`; an error's text.
pub record Sqlx (W Row SqlError : Type 0) : Type 0 where
  pub execute : Bytes → List Value → Action W SqlError ℕ
  pub fetch_optional : Bytes → List Value → Action W SqlError (Option Row)
  pub get_text : Bytes → Row → Result SqlError Bytes
  pub get_nullable_text : Bytes → Row → Result SqlError (Option Bytes)
  pub get_integer : Bytes → Row → Result SqlError ℤ
  pub get_nullable_integer : Bytes → Row → Result SqlError (Option ℤ)
  pub get_flag : Bytes → Row → Result SqlError Bool
  pub is_unique_violation : SqlError → Bool
  pub to_string : SqlError → Bytes

-- The statements on a table whose key is the first of its columns: one row is inserted, read,
-- removed, or has a number added to the integer in the column at place `counter`.
pub record Statements : Type 0 where
  pub columns : List Bytes
  pub counter : ℕ
  pub insert_sql : Bytes
  pub select_sql : Bytes
  pub add_sql : Bytes
  pub delete_sql : Bytes
  pub ping_sql : Bytes

abbrev pub Table : Type 0
Table = Bytes → Option (List Value)

-- A function, changed at one key.
abbrev pub update {ℓ} : {A : Type ℓ} → (Bytes → Option A) → Bytes → Option A → Bytes → Option A
update f k v j = if bytes_eq k j then v else f j

abbrev pub get_elem? {ℓ} : {A : Type ℓ} → List A → ℕ → Option A
get_elem? [] i = none
get_elem? (x ∷ xs) zero = some x
get_elem? (x ∷ xs) (suc i) = get_elem? xs i

abbrev pub set {ℓ} : {A : Type ℓ} → List A → ℕ → A → List A
set [] i v = []
set (x ∷ xs) zero v = v ∷ xs
set (x ∷ xs) (suc i) v = x ∷ set xs i v

module _ {W Row SqlError : Type 0} (db : Sqlx W Row SqlError) where
  -- Reading a column at the type that its value was bound as gives the value back.
  abbrev pub Reads : Bytes → Value → Row → Type 0
  Reads c (text s) row = db.get_text c row ≡ ok s
  Reads c (nullable_text s) row = db.get_nullable_text c row ≡ ok s
  Reads c (integer n) row = db.get_integer c row ≡ ok n
  Reads c (nullable_integer n) row = db.get_nullable_integer c row ≡ ok n
  Reads c (flag b) row = db.get_flag c row ≡ ok b

  abbrev pub Shows : List Bytes → List Value → Row → Type 0
  Shows [] [] row = Unit
  Shows (c ∷ cs) (v ∷ vs) row = Reads c v row × Shows cs vs row
  Shows _ _ row = ⊥

  module _ (rows : W → Table) where
    -- A call that was not carried out, for a reason other than a key that is there already.
    abbrev pub Failed : {A : Type 0} → W → Result SqlError A × W → Type 0
    Failed w out =
        (e : SqlError) × (out.0 ≡ err e)
        × (db.is_unique_violation e ≡ false)
        × ((k : Bytes) → rows out.1 k ≡ rows w k)

    -- The answer of a call, and the table that it leaves.
    abbrev pub Answered : {A : Type 0} → Result SqlError A × W → Result SqlError A → Table → Type 0
    Answered out answer table = (out.0 ≡ answer) × ((k : Bytes) → rows out.1 k ≡ table k)

    -- A row that is fetched, if its key is there, and the tables that the statement then leaves.
    abbrev pub Fetched : List Bytes → Bytes → W → Table → Result SqlError (Option Row) × W → Type 0
    Fetched columns k w after out =
        ((rows w k ≡ none) × Answered out (ok none) (rows w))
        ⊎ ((vs : List Value) × (row : Row) × (rows w k ≡ some vs)
            × Shows columns vs row
            × Answered out (ok (some row)) after)

    -- What SQLite documents of the statements, each with its values bound in order. Of an addition
    -- beyond 64 bits, which SQLite carries out on floating-point numbers, it is only said that other
    -- rows and columns stay.
    pub record IsTable (t : Statements) : Type 0 where
      pub insert_lem :
          (k : Bytes) (vs : List Value) (w : W)
          → length (text k ∷ vs) ≡ length t.columns
          → Failed w (db.execute t.insert_sql (text k ∷ vs) w)
            ⊎ ((rows w k ≡ none)
                × Answered
                    (db.execute t.insert_sql (text k ∷ vs) w)
                    (ok 1)
                    (update (rows w) k (some (text k ∷ vs))))
            ⊎ ((e : SqlError) × (there : List Value) × (rows w k ≡ some there)
                × (db.is_unique_violation e ≡ true)
                × Answered (db.execute t.insert_sql (text k ∷ vs) w) (err e) (rows w))
      pub select_lem :
          (k : Bytes) (w : W)
          → Failed w (db.fetch_optional t.select_sql (text k ∷ []) w)
            ⊎ Fetched t.columns k w (rows w) (db.fetch_optional t.select_sql (text k ∷ []) w)
      pub add_absent :
          (k : Bytes) (n : ℤ) (w : W)
          → rows w k ≡ none
          → Failed w (db.execute t.add_sql (integer n ∷ text k ∷ []) w)
            ⊎ Answered (db.execute t.add_sql (integer n ∷ text k ∷ []) w) (ok 0) (rows w)
      pub add_present :
          (k : Bytes) (n : ℤ) (w : W) (vs : List Value) (v : ℤ)
          → rows w k ≡ some vs
          → get_elem? vs t.counter ≡ some (integer v)
          → InRange (v +ℤ n)
          → Failed w (db.execute t.add_sql (integer n ∷ text k ∷ []) w)
            ⊎ Answered
                (db.execute t.add_sql (integer n ∷ text k ∷ []) w)
                (ok 1)
                (update (rows w) k (some (set vs t.counter (integer (v +ℤ n)))))
      pub add_others :
          (k : Bytes) (n : ℤ) (j : Bytes) (w : W)
          → bytes_eq k j ≡ false
          → rows (db.execute t.add_sql (integer n ∷ text k ∷ []) w).1 j ≡ rows w j
      pub add_columns :
          (k : Bytes) (n : ℤ) (w : W) (vs : List Value)
          → rows w k ≡ some vs
          → (after : List Value) × (rows (db.execute t.add_sql (integer n ∷ text k ∷ []) w).1 k
              ≡ some after)
            × ((i : ℕ) → i ≢ t.counter → get_elem? after i ≡ get_elem? vs i)
      pub delete_lem :
          (k : Bytes) (w : W)
          → Failed w (db.execute t.delete_sql (text k ∷ []) w)
            ⊎ ((rows w k ≡ none)
                × Answered (db.execute t.delete_sql (text k ∷ []) w) (ok 0) (rows w))
            ⊎ ((vs : List Value) × (rows w k ≡ some vs)
                × Answered
                    (db.execute t.delete_sql (text k ∷ []) w)
                    (ok 1)
                    (update (rows w) k none))
      pub ping_lem :
          (w : W)
          → Failed w (db.execute t.ping_sql [] w)
            ⊎ ((n : ℕ) × Answered (db.execute t.ping_sql [] w) (ok n) (rows w))

    -- What SQLite documents of a `DELETE … RETURNING` of one row.
    abbrev pub Returns : List Bytes → Bytes → Type 0
    Returns columns sql =
        (k : Bytes) (w : W)
        → Failed w (db.fetch_optional sql (text k ∷ []) w)
          ⊎ Fetched columns k w (update (rows w) k none) (db.fetch_optional sql (text k ∷ []) w)
