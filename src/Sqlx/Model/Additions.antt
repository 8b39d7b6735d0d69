-- ===== src/Sqlx/Model/Additions.antt =====
-- Additions to a counter, in the database of Sqlx.Model, for the repositories of
-- url-shortener/src/infrastructure/sqlite.rs and pastebin-service/src/infrastructure/sqlite.rs.
use hicho.Common.{
  ◌≢◌, bytes_eq_refl, bytes_eq, ℕ, zero, suc, ◌≡◌, ◌⊎◌, inl, inr, refl, ◌∙◌, false, Option, none,
  some, List, [], ◌∷◌, Bytes, bytes_key, ok, arith, Option-cases, Bool-cases, ap,
}
use hicho.Common.Int.{ℤ, ◌+ℤ◌, InRange}
use hicho.Common.Map.{lookup, lookup-insert}
use hicho.Sqlx.{
  Value, text, integer, nullable_text, nullable_integer, flag, Statements, get_elem?, set, update,
  Failed, Answered,
}
use hicho.Sqlx.Model.{Database, adds, shaped, rows, execute_kind, database}
use hicho.Sqlx.Model.Outcomes.{
  length-set, rows_written, rows_shaped, execute_up, execute_down, is_down, outcome_known, with_row,
  IsDistinct,
}

module _ (t : Statements) (take_sql : Bytes) where
  add_at :
      (k : Bytes) (n : ℤ) (w : Database) (vs : List Value) (v : ℤ)
      → (rows t take_sql) w k ≡ some vs
      → get_elem? vs t.counter ≡ some (integer v)
      → (execute_kind t take_sql) adds (integer n ∷ text k ∷ []) w
        ≡ (ok 1, (with_row t take_sql) k (set vs t.counter (integer (v +ℤ n))) w)
  unfolding execute_kind
  add_at k n w vs v present at_counter = ground arith

  adds_at_key :
      (k : Bytes) (n : ℤ) (j : Bytes) (w : Database)
      → bytes_eq k j ≡ false
      → (rows t take_sql) ((execute_kind t take_sql) adds (integer n ∷ text k ∷ []) w).1 j
        ≡ (rows t take_sql) w j
  unfolding execute_kind rows
  adds_at_key k n j w other = elim (Option-cases (shaped t take_sql (lookup k w.table))) [
    | inl absent ↦ ground arith
    | inr (vs, present) ↦ elim (Option-cases (get_elem? vs t.counter)) [
      | inl none_there ↦ ground arith
      | inr (v, there) ↦ at_value v vs present there
    ]
  ]
    where
      at_value :
          (v : Value) (vs : List Value)
          → shaped t take_sql (lookup k w.table) ≡ some vs
          → get_elem? vs t.counter ≡ some v
          → shaped t take_sql
              (lookup j ((execute_kind t take_sql) adds (integer n ∷ text k ∷ []) w).1.table)
            ≡ shaped t take_sql (lookup j w.table)
      at_value (integer m) vs present there =
          ground (arith, lookup-insert k j (set vs t.counter (integer (m +ℤ n))) w.table)
      at_value (text m) vs present there = ground arith
      at_value (nullable_text m) vs present there = ground arith
      at_value (nullable_integer m) vs present there = ground arith
      at_value (flag m) vs present there = ground arith

  get_elem?-set :
      (vs : List Value) (c i : ℕ) (v : Value) → i ≢ c → get_elem? (set vs c v) i ≡ get_elem? vs i
  get_elem?-set [] c i v other = refl
  get_elem?-set (x ∷ vs) zero zero v other = absurd (other refl)
  get_elem?-set (x ∷ vs) zero (suc i) v other = refl
  get_elem?-set (x ∷ vs) (suc c) zero v other = refl
  get_elem?-set (x ∷ vs) (suc c) (suc i) v other = get_elem?-set vs c i v (λ e. other (ap suc e))

  -- An addition that does not change the row.
  adds_nothing :
      (k : Bytes) (n : ℤ) (w : Database) (vs : List Value)
      → (rows t take_sql) w k ≡ some vs
      → (rows t take_sql) ((execute_kind t take_sql) adds (integer n ∷ text k ∷ []) w).1 k ≡ some vs
      → (after : List Value) × ((rows t take_sql)
            ((execute_kind t take_sql) adds (integer n ∷ text k ∷ []) w).1
            k
          ≡ some after)
        × ((i : ℕ) → i ≢ t.counter → get_elem? after i ≡ get_elem? vs i)
  adds_nothing k n w vs present same = (vs, same, λ i other. refl)

  -- A value that no number is added to.
  abbrev IsNoNumber : Option Value → Type 0
  IsNoNumber (some (integer m)) = ⊥
  IsNoNumber _ = Unit

  adds_kept :
      (k : Bytes) (n : ℤ) (w : Database) (vs : List Value) (o : Option Value)
      → (rows t take_sql) w k ≡ some vs
      → get_elem? vs t.counter ≡ o
      → IsNoNumber o
      → (rows t take_sql) ((execute_kind t take_sql) adds (integer n ∷ text k ∷ []) w).1 k ≡ some vs
  unfolding execute_kind rows
  adds_kept k n w vs none present there no_number = ground (arith, present)
  adds_kept k n w vs (some (integer m)) present there no_number = absurd no_number
  adds_kept k n w vs (some v) present there no_number = ground (arith, present)

  adds_columns :
      (k : Bytes) (n : ℤ) (w : Database) (vs : List Value)
      → (rows t take_sql) w k ≡ some vs
      → (after : List Value) × ((rows t take_sql)
            ((execute_kind t take_sql) adds (integer n ∷ text k ∷ []) w).1
            k
          ≡ some after)
        × ((i : ℕ) → i ≢ t.counter → get_elem? after i ≡ get_elem? vs i)
  adds_columns k n w vs present = elim (Option-cases (get_elem? vs t.counter)) [
    | inl none_there ↦ adds_nothing k n w vs present (adds_kept k n w vs none present none_there tt)
    | inr (v, there) ↦ at_value v there
  ]
    where
      at_value :
          (v : Value)
          → get_elem? vs t.counter ≡ some v
          → (after : List Value) × ((rows t take_sql)
                ((execute_kind t take_sql) adds (integer n ∷ text k ∷ []) w).1
                k
              ≡ some after)
            × ((i : ℕ) → i ≢ t.counter → get_elem? after i ≡ get_elem? vs i)
      at_value (integer m) there = (
        set vs t.counter (integer (m +ℤ n)),
        ap (λ o. (rows t take_sql) o.1 k) (add_at k n w vs m present there)
            ∙ (rows_written t take_sql) w k (set vs t.counter (integer (m +ℤ n))) k (
                (length-set t take_sql) vs t.counter (integer (m +ℤ n))
                ∙ (rows_shaped t take_sql) w k vs present)
            ∙ ground (arith, bytes_eq_refl k),
        λ i other. get_elem?-set vs t.counter i (integer (m +ℤ n)) other,
      )
      at_value (text m) there =
          adds_nothing k n w vs present (adds_kept k n w vs (some (text m)) present there tt)
      at_value (nullable_text m) there =
          adds_nothing k n w vs present
            (adds_kept k n w vs (some (nullable_text m)) present there tt)
      at_value (nullable_integer m) there =
          adds_nothing k n w vs present
            (adds_kept k n w vs (some (nullable_integer m)) present there tt)
      at_value (flag m) there =
          adds_nothing k n w vs present (adds_kept k n w vs (some (flag m)) present there tt)

  module _ (d : (IsDistinct t take_sql)) where
    pub add_absent_law :
        (k : Bytes) (n : ℤ) (w : Database)
        → (rows t take_sql) w k ≡ none
        → Failed
            (database t take_sql)
            (rows t take_sql)
            w
            ((database t take_sql).execute t.add_sql (integer n ∷ text k ∷ []) w)
          ⊎ Answered
              (database t take_sql)
              (rows t take_sql)
              ((database t take_sql).execute t.add_sql (integer n ∷ text k ∷ []) w)
              (ok 0)
              ((rows t take_sql) w)
    unfolding execute_kind
    add_absent_law k n w absent = elim (Bool-cases w.reachable) [
      | inl up ↦
          let ran =
            (execute_up t take_sql) t.add_sql adds (integer n ∷ text k ∷ []) w up d.adds_lem in
          inr (
            (outcome_known t take_sql) _ _ w _ (ran ∙ (rw (absent, execute_kind) refl)) (λ j. refl))
      | inr down ↦ inl ((is_down t take_sql) w _ ((execute_down t take_sql) _ _ w down))
    ]

    pub add_present_law :
        (k : Bytes) (n : ℤ) (w : Database) (vs : List Value) (v : ℤ)
        → (rows t take_sql) w k ≡ some vs
        → get_elem? vs t.counter ≡ some (integer v)
        → InRange (v +ℤ n)
        → Failed
            (database t take_sql)
            (rows t take_sql)
            w
            ((database t take_sql).execute t.add_sql (integer n ∷ text k ∷ []) w)
          ⊎ Answered
              (database t take_sql)
              (rows t take_sql)
              ((database t take_sql).execute t.add_sql (integer n ∷ text k ∷ []) w)
              (ok 1)
              (update ((rows t take_sql) w) k (some (set vs t.counter (integer (v +ℤ n)))))
    unfolding execute_kind
    add_present_law k n w vs v present at_counter fits = elim (Bool-cases w.reachable) [
      | inl up ↦
          let ran =
            (execute_up t take_sql) t.add_sql adds (integer n ∷ text k ∷ []) w up d.adds_lem in
          inr (
            (outcome_known t take_sql) _ _
              ((with_row t take_sql) k (set vs t.counter (integer (v +ℤ n))) w) _
              (ran ∙ add_at k n w vs v present at_counter)
              (λ j. (rows_written t take_sql) w k (set vs t.counter (integer (v +ℤ n))) j (
                (length-set t take_sql) vs t.counter (integer (v +ℤ n))
                ∙ (rows_shaped t take_sql) w k vs present)))
      | inr down ↦ inl ((is_down t take_sql) w _ ((execute_down t take_sql) _ _ w down))
    ]

    pub add_others_law :
        (k : Bytes) (n : ℤ) (j : Bytes) (w : Database)
        → bytes_eq k j ≡ false
        → (rows t take_sql)
            ((database t take_sql).execute t.add_sql (integer n ∷ text k ∷ []) w).1
            j
          ≡ (rows t take_sql) w j
    add_others_law k n j w other = elim (Bool-cases w.reachable) [
      | inr down ↦
          ap (λ o. (rows t take_sql) o.1 j)
            ((execute_down t take_sql) t.add_sql (integer n ∷ text k ∷ []) w down)
      | inl up ↦
          ap (λ o. (rows t take_sql) o.1 j)
            ((execute_up t take_sql) t.add_sql adds (integer n ∷ text k ∷ []) w up d.adds_lem)
          ∙ adds_at_key k n j w other
    ]

    pub add_columns_law :
        (k : Bytes) (n : ℤ) (w : Database) (vs : List Value)
        → (rows t take_sql) w k ≡ some vs
        → (after : List Value) × ((rows t take_sql)
              ((database t take_sql).execute t.add_sql (integer n ∷ text k ∷ []) w).1
              k
            ≡ some after)
          × ((i : ℕ) → i ≢ t.counter → get_elem? after i ≡ get_elem? vs i)
    add_columns_law k n w vs present = elim (Bool-cases w.reachable) [
      | inr down ↦ (
        vs,
        ap (λ o. (rows t take_sql) o.1 k)
              ((execute_down t take_sql) t.add_sql (integer n ∷ text k ∷ []) w down)
            ∙ present,
        λ i other. refl,
      )
      | inl up ↦
          let (after, stored, same) = adds_columns k n w vs present in
          (
            after,
            ap (λ o. (rows t take_sql) o.1 k)
                  ((execute_up t take_sql) t.add_sql adds (integer n ∷ text k ∷ []) w up d.adds_lem)
                ∙ stored,
            same,
          )
    ]
