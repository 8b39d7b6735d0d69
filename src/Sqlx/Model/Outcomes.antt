-- ===== src/Sqlx/Model/Outcomes.antt =====
-- How a call of the database of Sqlx.Model ends, for the repositories of
-- url-shortener/src/infrastructure/sqlite.rs and pastebin-service/src/infrastructure/sqlite.rs.
use hicho.Common.{
  ℕ, zero, suc, ◌≡◌, inl, inr, refl, ◌==◌, ◌∙◌, true, false, Option, none, some, List, [], ◌∷◌,
  Bytes, bytes_key, Result, err, length, arith, ==_iff, Bool-cases, ap,
}
use mathlib.Core.Path.{subst}
use hicho.Common.Map.{lookup, insert, remove, lookup-insert, lookup-remove}
use hicho.Sqlx.{Value, Statements, Table, Shows, set, update, Failed, Answered}
use hicho.Sqlx.Model.{
  Database, DbError, unreachable, zip, Kind, inserts, selects, adds, deletes, pings, shaped, rows,
  kind, execute_kind, fetch_kind, database,
}

module _ (t : Statements) (take_sql : Bytes) where
  pub length-set : (vs : List Value) (i : ℕ) (v : Value) → length (set vs i v) ≡ length vs
  length-set [] i v = refl
  length-set (x ∷ vs) zero v = refl
  length-set (x ∷ vs) (suc i) v = ap suc (length-set vs i v)

  -- The rows after a row of the table's width is written, or one is removed.
  pub rows_written :
      (db : Database) (k : Bytes) (vs : List Value) (j : Bytes)
      → length vs ≡ length t.columns
      → (rows t take_sql) (record db { table = insert k vs db.table }) j
        ≡ update ((rows t take_sql) db) k (some vs) j
  unfolding rows
  rows_written db k vs j h =
      ground (arith, lookup-insert k j vs db.table, ==_iff (length vs) (length t.columns))

  pub rows_removed :
      (db : Database) (k j : Bytes)
      → (rows t take_sql) (record db { table = remove k db.table }) j
        ≡ update ((rows t take_sql) db) k none j
  unfolding rows
  rows_removed db k j = ground (arith, lookup-remove k j db.table)

  -- The statements are told apart, and a row shows its values.
  pub record IsDistinct : Type 0 where
    pub inserts_lem : (kind t take_sql) t.insert_sql ≡ inserts
    pub selects_lem : (kind t take_sql) t.select_sql ≡ selects
    pub adds_lem : (kind t take_sql) t.add_sql ≡ adds
    pub deletes_lem : (kind t take_sql) t.delete_sql ≡ deletes
    pub pings_lem : (kind t take_sql) t.ping_sql ≡ pings
    pub shows :
        (vs : List Value)
        → length vs ≡ length t.columns
        → Shows (database t take_sql) t.columns vs (zip t.columns vs)

  shaped_fits :
      (o : Option (List Value)) (vs : List Value)
      → shaped t take_sql o ≡ some vs
      → length vs ≡ length t.columns
  shaped_fits none vs h = cc
  shaped_fits (some us) vs h = elim (Bool-cases (length us == length t.columns)) [
    | inl e ↦
        let same : us ≡ vs = ground arith in
        subst (λ l. length l ≡ length t.columns) same ((==_iff _ _).0 e)
    | inr e ↦ absurd (ground arith)
  ]

  pub rows_shaped :
      (db : Database) (k : Bytes) (vs : List Value)
      → (rows t take_sql) db k ≡ some vs
      → length vs ≡ length t.columns
  unfolding rows
  rows_shaped db k vs h = shaped_fits (lookup k db.table) vs h

  pub execute_up :
      (sql : Bytes) (k : Kind) (args : List Value) (w : Database)
      → w.reachable ≡ true
      → (kind t take_sql) sql ≡ k
      → (database t take_sql).execute sql args w ≡ (execute_kind t take_sql) k args w
  unfolding execute_kind fetch_kind kind
  execute_up sql k args w up e = rw (up, e) refl

  pub execute_down :
      (sql : Bytes) (args : List Value) (w : Database)
      → w.reachable ≡ false
      → (database t take_sql).execute sql args w ≡ (err unreachable, w)
  unfolding execute_kind fetch_kind kind
  execute_down sql args w down = rw down refl

  pub fetch_up :
      (sql : Bytes) (k : Kind) (args : List Value) (w : Database)
      → w.reachable ≡ true
      → (kind t take_sql) sql ≡ k
      → (database t take_sql).fetch_optional sql args w ≡ (fetch_kind t take_sql) k args w
  unfolding execute_kind fetch_kind kind
  fetch_up sql k args w up e = rw (up, e) refl

  pub fetch_down :
      (sql : Bytes) (args : List Value) (w : Database)
      → w.reachable ≡ false
      → (database t take_sql).fetch_optional sql args w ≡ (err unreachable, w)
  unfolding execute_kind fetch_kind kind
  fetch_down sql args w down = rw down refl

  -- A call while the database is unreachable.
  pub is_down :
      {A : Type 0} (w : Database) (out : Result DbError A × Database)
      → out ≡ (err unreachable, w)
      → Failed (database t take_sql) (rows t take_sql) w out
  unfolding database
  is_down w out e = (unreachable, ap (λ o. o.0) e, refl, λ k. ap (λ o. (rows t take_sql) o.1 k) e)

  -- A call whose outcome is known.
  pub outcome_known :
      {A : Type 0} (out : Result DbError A × Database) (answer : Result DbError A) (w : Database)
      (f : Table)
      → out ≡ (answer, w)
      → ((k : Bytes) → (rows t take_sql) w k ≡ f k)
      → Answered (database t take_sql) (rows t take_sql) out answer f
  outcome_known out answer w f e h =
      (ap (λ o. o.0) e, λ k. ap (λ o. (rows t take_sql) o.1 k) e ∙ h k)

  abbrev pub with_row : Bytes → List Value → Database → Database
  with_row k vs w = record w { table = insert k vs w.table }

  abbrev pub without : Bytes → Database → Database
  without k w = record w { table = remove k w.table }
