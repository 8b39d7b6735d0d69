-- ===== src/Sqlx/Model/Laws.antt =====
-- The database of Sqlx.Model carries out its statements as SQLite documents them, for the repositories of
-- url-shortener/src/infrastructure/sqlite.rs and pastebin-service/src/infrastructure/sqlite.rs.
use hicho.Common.{
  ℕ, ◌≡◌, ◌⊎◌, inl, inr, refl, ◌∙◌, true, none, some, List, [], ◌∷◌, Bytes, bytes_key, ok, err,
  length, Option-cases, Bool-cases,
}
use hicho.Common.Map.{insert}
use hicho.Sqlx.{Value, text, Statements, IsTable, Returns, update, Failed, Answered, Fetched}
use hicho.Sqlx.Model.{
  Database, DbError, unique_violation, zip, inserts, selects, deletes, pings, takes, rows, kind,
  execute_kind, fetch_kind, database,
}
use hicho.Sqlx.Model.Outcomes.{
  rows_written, rows_removed, rows_shaped, execute_up, execute_down, fetch_up, fetch_down, is_down,
  outcome_known, without, IsDistinct,
}
use hicho.Sqlx.Model.Additions.{add_absent_law, add_present_law, add_others_law, add_columns_law}

module _ (t : Statements) (take_sql : Bytes) where
  insert_absent :
      (k : Bytes) (vs : List Value) (w : Database)
      → (rows t take_sql) w k ≡ none
      → (execute_kind t take_sql) inserts (text k ∷ vs) w
        ≡ (ok 1, record w { table = insert k (text k ∷ vs) w.table })
  unfolding execute_kind
  insert_absent k vs w h = rw h refl

  insert_present :
      (k : Bytes) (vs there : List Value) (w : Database)
      → (rows t take_sql) w k ≡ some there
      → (execute_kind t take_sql) inserts (text k ∷ vs) w ≡ (err unique_violation, w)
  unfolding execute_kind
  insert_present k vs there w h = rw h refl

  violates_lem : (database t take_sql).is_unique_violation unique_violation ≡ true
  unfolding database
  violates_lem = refl

  module _ (d : (IsDistinct t take_sql)) where
    insert_law :
        (k : Bytes) (vs : List Value) (w : Database)
        → length (text k ∷ vs) ≡ length t.columns
        → Failed
            (database t take_sql)
            (rows t take_sql)
            w
            ((database t take_sql).execute t.insert_sql (text k ∷ vs) w)
          ⊎ (((rows t take_sql) w k ≡ none)
              × Answered
                  (database t take_sql)
                  (rows t take_sql)
                  ((database t take_sql).execute t.insert_sql (text k ∷ vs) w)
                  (ok 1)
                  (update ((rows t take_sql) w) k (some (text k ∷ vs))))
          ⊎ ((e : DbError) × (there : List Value) × ((rows t take_sql) w k ≡ some there)
              × ((database t take_sql).is_unique_violation e ≡ true)
              × Answered
                  (database t take_sql)
                  (rows t take_sql)
                  ((database t take_sql).execute t.insert_sql (text k ∷ vs) w)
                  (err e)
                  ((rows t take_sql) w))
    insert_law k vs w fits = elim (Bool-cases w.reachable) [
      | inl up ↦
          let ran = (execute_up t take_sql) t.insert_sql inserts (text k ∷ vs) w up d.inserts_lem in
          elim (Option-cases ((rows t take_sql) w k)) [
            | inl absent ↦ inr (
                inl (
                  absent,
                  (outcome_known t take_sql) _ _ _ _ (ran ∙ insert_absent k vs w absent)
                      (λ j. (rows_written t take_sql) w k (text k ∷ vs) j fits),
                ))
            | inr (there, present) ↦ inr (
                inr (
                  unique_violation,
                  there,
                  present,
                  violates_lem,
                  (outcome_known t take_sql) _ _ _ _ (ran ∙ insert_present k vs there w present)
                      (λ j. refl),
                ))
          ]
      | inr down ↦ inl ((is_down t take_sql) w _ ((execute_down t take_sql) _ _ w down))
    ]

    select_law :
        (k : Bytes) (w : Database)
        → Failed
            (database t take_sql)
            (rows t take_sql)
            w
            ((database t take_sql).fetch_optional t.select_sql (text k ∷ []) w)
          ⊎ Fetched
              (database t take_sql)
              (rows t take_sql)
              t.columns
              k
              w
              ((rows t take_sql) w)
              ((database t take_sql).fetch_optional t.select_sql (text k ∷ []) w)
    unfolding fetch_kind
    select_law k w = elim (Bool-cases w.reachable) [
      | inl up ↦
          let ran = (fetch_up t take_sql) t.select_sql selects (text k ∷ []) w up d.selects_lem in
          elim (Option-cases ((rows t take_sql) w k)) [
            | inl absent ↦ inr (
                inl
                  (absent, (outcome_known t take_sql) _ _ w _ (ran ∙ (rw absent refl)) (λ j. refl)))
            | inr (vs, present) ↦ inr (
                inr (
                  vs,
                  zip t.columns vs,
                  present,
                  d.shows vs ((rows_shaped t take_sql) w k vs present),
                  (outcome_known t take_sql) _ _ w _ (ran ∙ (rw present refl)) (λ j. refl),
                ))
          ]
      | inr down ↦ inl ((is_down t take_sql) w _ ((fetch_down t take_sql) _ _ w down))
    ]

    pub take_law :
        (kind t take_sql) take_sql ≡ takes
        → Returns (database t take_sql) (rows t take_sql) t.columns take_sql
    unfolding fetch_kind
    take_law distinct k w = elim (Bool-cases w.reachable) [
      | inl up ↦
          let ran = (fetch_up t take_sql) take_sql takes (text k ∷ []) w up distinct in
          elim (Option-cases ((rows t take_sql) w k)) [
            | inl absent ↦ inr (
                inl
                  (absent, (outcome_known t take_sql) _ _ w _ (ran ∙ (rw absent refl)) (λ j. refl)))
            | inr (vs, present) ↦ inr (
                inr (
                  vs,
                  zip t.columns vs,
                  present,
                  d.shows vs ((rows_shaped t take_sql) w k vs present),
                  (outcome_known t take_sql) _ _ ((without t take_sql) k w) _
                      (ran ∙ (rw present refl)) ((rows_removed t take_sql) w k),
                ))
          ]
      | inr down ↦ inl ((is_down t take_sql) w _ ((fetch_down t take_sql) _ _ w down))
    ]

    delete_law :
        (k : Bytes) (w : Database)
        → Failed
            (database t take_sql)
            (rows t take_sql)
            w
            ((database t take_sql).execute t.delete_sql (text k ∷ []) w)
          ⊎ (((rows t take_sql) w k ≡ none)
              × Answered
                  (database t take_sql)
                  (rows t take_sql)
                  ((database t take_sql).execute t.delete_sql (text k ∷ []) w)
                  (ok 0)
                  ((rows t take_sql) w))
          ⊎ ((vs : List Value) × ((rows t take_sql) w k ≡ some vs)
              × Answered
                  (database t take_sql)
                  (rows t take_sql)
                  ((database t take_sql).execute t.delete_sql (text k ∷ []) w)
                  (ok 1)
                  (update ((rows t take_sql) w) k none))
    unfolding execute_kind
    delete_law k w = elim (Bool-cases w.reachable) [
      | inl up ↦
          let ran = (execute_up t take_sql) t.delete_sql deletes (text k ∷ []) w up d.deletes_lem in
          elim (Option-cases ((rows t take_sql) w k)) [
            | inl absent ↦ inr (
                inl
                  (absent, (outcome_known t take_sql) _ _ w _ (ran ∙ (rw absent refl)) (λ j. refl)))
            | inr (vs, present) ↦ inr (
                inr (
                  vs,
                  present,
                  (outcome_known t take_sql) _ _ ((without t take_sql) k w) _
                      (ran ∙ (rw present refl)) ((rows_removed t take_sql) w k),
                ))
          ]
      | inr down ↦ inl ((is_down t take_sql) w _ ((execute_down t take_sql) _ _ w down))
    ]

    ping_law :
        (w : Database)
        → Failed
            (database t take_sql)
            (rows t take_sql)
            w
            ((database t take_sql).execute t.ping_sql [] w)
          ⊎ ((n : ℕ) × Answered
                (database t take_sql)
                (rows t take_sql)
                ((database t take_sql).execute t.ping_sql [] w)
                (ok n)
                ((rows t take_sql) w))
    unfolding execute_kind
    ping_law w = elim (Bool-cases w.reachable) [
      | inl up ↦ inr (
        0,
        (outcome_known t take_sql) _ _ w _
            ((execute_up t take_sql) t.ping_sql pings [] w up d.pings_lem) (λ j. refl),
      )
      | inr down ↦ inl ((is_down t take_sql) w _ ((execute_down t take_sql) _ _ w down))
    ]

    pub database-IsTable : IsTable (database t take_sql) (rows t take_sql) t
    database-IsTable = record {
      insert_lem = insert_law;
      select_lem = select_law;
      add_absent = add_absent_law t take_sql d;
      add_present = add_present_law t take_sql d;
      add_others = add_others_law t take_sql d;
      add_columns = add_columns_law t take_sql d;
      delete_lem = delete_law;
      ping_lem = ping_law;
    }
