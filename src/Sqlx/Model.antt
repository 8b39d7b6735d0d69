-- ===== src/Sqlx/Model.antt =====
-- A database with one table, on which the repositories of the services (sqlite.rs in
-- url-shortener/src/infrastructure and pastebin-service/src/infrastructure) run in the tests.
pub mod Outcomes
pub mod Additions
pub mod Laws
use hicho.Common.{
  ℕ, zero, suc, ◌≡◌, ◌⊎◌, inl, inr, refl, ◌==◌, ◌∙◌, Bool, true, false, Option, none, some, List,
  [], ◌∷◌, Bytes, bytes_eq, bytes_key, bytes_eq_iff, Result, ok, err, if◌then◌else◌, length, arith,
  ==_iff, Option-cases, Bool-cases, sym, ap,
}
use mathlib.Core.Path.{subst}
use hicho.Common.Int.{ℤ, ◌+ℤ◌, InRange}
use hicho.Common.Map.{Map, lookup, insert, remove, lookup-insert, lookup-remove}
use hicho.Common.Text.{bytes}
use hicho.Sqlx.{
  Value, text, nullable_text, integer, nullable_integer, flag, Sqlx, Statements, Table, IsTable,
  Returns, Shows, Reads, get_elem?, set, update, Failed, Answered, Fetched,
}

pub record Database : Type 0 where
  pub table : Map Bytes (List Value)
  pub reachable : Bool

pub data DbError : Type 0 where
  unreachable unique_violation no_column bad_type bad_statement : DbError

abbrev pub Row : Type 0
Row = List (Bytes × Value)

abbrev as_text : Value → Result DbError Bytes
as_text (text s) = ok s
as_text _ = err bad_type

abbrev as_nullable_text : Value → Result DbError (Option Bytes)
as_nullable_text (nullable_text s) = ok s
as_nullable_text _ = err bad_type

abbrev as_integer : Value → Result DbError ℤ
as_integer (integer n) = ok n
as_integer _ = err bad_type

abbrev as_nullable_integer : Value → Result DbError (Option ℤ)
as_nullable_integer (nullable_integer n) = ok n
as_nullable_integer _ = err bad_type

abbrev as_flag : Value → Result DbError Bool
as_flag (flag b) = ok b
as_flag _ = err bad_type

abbrev column : {A : Type 0} → (Value → Result DbError A) → Bytes → Row → Result DbError A
column f c row = elim (lookup c row) [ none ↦ err no_column | some v ↦ f v ]

abbrev pub zip : List Bytes → List Value → Row
zip (c ∷ cs) (v ∷ vs) = (c, v) ∷ zip cs vs
zip _ _ = []

-- The kinds of statement.
pub data Kind : Type 0 where
  inserts selects adds deletes pings takes unknown : Kind

module _ (t : Statements) (take_sql : Bytes) where
  unfoldable pub kind : Bytes → Kind
  kind sql =
      if bytes_eq sql t.insert_sql
      then inserts
      else if bytes_eq sql t.select_sql
      then selects
      else if bytes_eq sql t.add_sql
      then adds
      else if bytes_eq sql t.delete_sql
      then deletes
      else if bytes_eq sql t.ping_sql
      then pings
      else if bytes_eq sql take_sql
      then takes
      else unknown

  -- a row of the table's width
  abbrev pub shaped : Option (List Value) → Option (List Value)
  shaped none = none
  shaped (some vs) = if length vs == length t.columns then some vs else none

  unfoldable pub rows : Database → Table
  rows db k = shaped (lookup k db.table)

  execute_insert : Bytes → List Value → Option (List Value) → Database → Result DbError ℕ × Database
  execute_insert k vs none db = (ok 1, record db { table = insert k (text k ∷ vs) db.table })
  execute_insert k vs (some there) db = (err unique_violation, db)

  execute_add : Bytes → ℤ → List Value → Option Value → Database → Result DbError ℕ × Database
  execute_add k n vs (some (integer v)) db =
      (ok 1, record db { table = insert k (set vs t.counter (integer (v +ℤ n))) db.table })
  execute_add k n vs _ db = (err bad_type, db)

  execute_delete : Bytes → Option (List Value) → Database → Result DbError ℕ × Database
  execute_delete k none db = (ok 0, db)
  execute_delete k (some vs) db = (ok 1, record db { table = remove k db.table })

  unfoldable pub execute_kind : Kind → List Value → Database → Result DbError ℕ × Database
  unfolding execute_insert execute_add execute_delete rows
  execute_kind inserts (text k ∷ vs) db = execute_insert k vs (rows db k) db
  execute_kind adds (integer n ∷ text k ∷ []) db = elim (rows db k) [
    | none ↦ (ok 0, db)
    | some vs ↦ execute_add k n vs (get_elem? vs t.counter) db
  ]
  execute_kind deletes (text k ∷ []) db = execute_delete k (rows db k) db
  execute_kind pings [] db = (ok 0, db)
  execute_kind _ _ db = (err bad_statement, db)

  fetch_select : Option (List Value) → Result DbError (Option Row)
  fetch_select none = ok none
  fetch_select (some vs) = ok (some (zip t.columns vs))

  fetch_take : Bytes → Option (List Value) → Database → Result DbError (Option Row) × Database
  fetch_take k none db = (ok none, db)
  fetch_take k (some vs) db =
      (ok (some (zip t.columns vs)), record db { table = remove k db.table })

  unfoldable pub fetch_kind : Kind → List Value → Database → Result DbError (Option Row) × Database
  unfolding fetch_select fetch_take rows
  fetch_kind selects (text k ∷ []) db = (fetch_select (rows db k), db)
  fetch_kind takes (text k ∷ []) db = fetch_take k (rows db k) db
  fetch_kind _ _ db = (err bad_statement, db)

  abbrev violates : DbError → Bool
  violates unique_violation = true
  violates _ = false

  abbrev when_reachable :
      {A : Type 0}
      → (Database → Result DbError A × Database)
      → Database
      → Result DbError A × Database
  when_reachable f db = if db.reachable then f db else (err unreachable, db)

  abbrev pub database : Sqlx Database Row DbError
  unfolding execute_kind fetch_kind kind
  database = record {
    execute = λ sql args. when_reachable (execute_kind (kind sql) args);
    fetch_optional = λ sql args. when_reachable (fetch_kind (kind sql) args);
    get_text = column as_text;
    get_nullable_text = column as_nullable_text;
    get_integer = column as_integer;
    get_nullable_integer = column as_nullable_integer;
    get_flag = column as_flag;
    is_unique_violation = violates;
    to_string = λ e. bytes "database error";
  }

  pub Reads_lem :
      (c : Bytes) (v : Value) (row : Row) → lookup c row ≡ some v → Reads database c v row
  unfolding execute_kind fetch_kind kind
  Reads_lem c (text s) row h = ground arith
  Reads_lem c (nullable_text s) row h = ground arith
  Reads_lem c (integer n) row h = ground arith
  Reads_lem c (nullable_integer n) row h = ground arith
  Reads_lem c (flag b) row h = ground arith
