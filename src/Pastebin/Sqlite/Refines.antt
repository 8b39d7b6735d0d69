-- ===== src/Pastebin/Sqlite/Refines.antt =====
-- The SQLite repository (pastebin-service/src/infrastructure/sqlite.rs) refines the reference store.
use hicho.Common.{
  ◌≡◌, inl, inr, refl, Option, none, some, List, [], ◌∷◌, Bytes, Result, ok, err, false, arith, ap,
  ◌∙◌, Option-cases,
}
use mathlib.Core.Path.{subst}
use hicho.Common.Int.{ℤ, ◌+ℤ◌, InRange, add_i64, wrap_i64_id}
use hicho.Sqlx.{Sqlx, Value, text, integer, set, Table, IsTable, Returns, Shows, update}
use hicho.Pastebin.Domain.Errors.{RepoError, BoxedError}
use hicho.Pastebin.Domain.PasteId.{PasteId}
use hicho.Pastebin.Domain.Paste.{Paste}
use hicho.Pastebin.Contract.{Call, Store, reference, Fits, Refines, IsPasteStore}
use hicho.Pastebin.Contract.Runs.{AllFit, Agree, run_refines}
use hicho.Pastebin.Memory.{add_views}
use hicho.Pastebin.Sqlite.{
  statements, take_sql, fields, values, row_to_paste, to_paste, insert, get, take,
  increment_views_by, delete, ping, repository,
}

-- The row of a paste.
abbrev pub row_of : Option Paste → Option (List Value)
row_of none = none
row_of (some p) = some (values p)

-- The table holds the row of each paste of the store, and no other.
abbrev pub Represents : {W : Type 0} → (W → Table) → W → Store → Type 0
Represents rows w m = (k : Bytes) → rows w k ≡ row_of (m k)

update-row_of :
    (m : Store) (k : Bytes) (v : Option Paste) (j : Bytes)
    → update (λ i. row_of (m i)) k (row_of v) j ≡ row_of (update m k v j)
update-row_of m k v j = ground arith

row_of-none : (o : Option Paste) {r : Option (List Value)} → r ≡ row_of o → r ≡ none → o ≡ none
row_of-none none e h = refl
row_of-none (some p) e h = cc

row_of-some :
    (o : Option Paste) {r : Option (List Value)} (vs : List Value)
    → r ≡ row_of o
    → r ≡ some vs
    → (p : Paste) × (o ≡ some p) × (vs ≡ values p)
row_of-some none vs e h = cc
row_of-some (some p) vs e h = (p, refl, cc)

added :
    (p : Paste) (n : ℤ)
    → InRange (p.views +ℤ n)
    → set (values p) statements.counter (integer (p.views +ℤ n)) ≡ values (add_views n p)
unfolding add_i64
added p n h = rw (wrap_i64_id (p.views +ℤ n) h) refl

module _ {W Row SqlError : Type 0} (db : Sqlx W Row SqlError) where
  -- The outcome of a statement is an error that is no unique violation, and its text is the cause.
  abbrev Causes : {A : Type 0} → BoxedError → Result SqlError A → Type 0
  Causes cause out =
      (e : SqlError) × (out ≡ err e) × (db.is_unique_violation e ≡ false) × (cause ≡ db.to_string e)

  -- The call's own statement fails, and not for a key that is present.
  abbrev pub StatementFails : Call → W → BoxedError → Type 0
  StatementFails (Call.insert p) w cause =
      Causes cause (db.execute statements.insert_sql (values p) w).0
  StatementFails (Call.get i) w cause =
      Causes cause (db.fetch_optional statements.select_sql (text i.as_str ∷ []) w).0
  StatementFails (Call.take i) w cause =
      Causes cause (db.fetch_optional take_sql (text i.as_str ∷ []) w).0
  StatementFails (Call.delete i) w cause =
      Causes cause (db.execute statements.delete_sql (text i.as_str ∷ []) w).0
  StatementFails (Call.increment_views_by i n) w cause =
      Causes cause (db.execute statements.add_sql (integer n ∷ text i.as_str ∷ []) w).0
  StatementFails Call.ping w cause = Causes cause (db.execute statements.ping_sql [] w).0

module _ {W Row SqlError : Type 0} (db : Sqlx W Row SqlError) (rows : W → Table) where
  abbrev Refined :
      {A : Type 0} → Call → W → Store → Result RepoError A × W → Result RepoError A × Store → Type 0
  Refined c w m out expected = Refines (Represents rows) (StatementFails db) c w m out expected

  -- The table after a write at one key.
  written :
      (w w' : W) (m : Store) (k : Bytes) (v : Option Paste)
      → Represents rows w m
      → ((j : Bytes) → rows w' j ≡ update (rows w) k (row_of v) j)
      → Represents rows w' (update m k v)
  written w w' m k v h after j = ground (arith, after j, h j)

  -- A row that shows the values of a paste is read back as that paste.
  to_paste_lem :
      (p : Paste) (row : Row) (w : W)
      → Shows db statements.columns (values p) row
      → to_paste db (some row) w ≡ (ok (some p), w)
  unfolding to_paste row_to_paste
  to_paste_lem p row w h = ground arith

  module _ (table : IsTable db rows statements) where
    insert_refines :
        (p : Paste) (w : W) (m : Store)
        → Represents rows w m
        → Refined (Call.insert p) w m (insert db p w) (reference.insert p m)
    unfolding insert
    insert_refines p w m h = elim (table.insert_lem p.id.as_str (fields p) w refl) [
      | inl (e, failed, other, same) ↦
          rw (failed, other) (inl (db.to_string e, refl, (e, refl, other, refl), λ k. same k ∙ h k))
      | inr (inl (absent, (done, after))) ↦
          let none_there = row_of-none (m p.id.as_str) (h p.id.as_str) absent in
          rw (done, none_there) (inr (refl, written w _ m p.id.as_str (some p) h after))
      | inr (inr (e, vs, present, violation, (done, after))) ↦
          let (old, there, _) = row_of-some (m p.id.as_str) vs (h p.id.as_str) present in
          rw (done, violation, there) (inr (refl, λ k. after k ∙ h k))
    ]

    get_refines :
        (i : PasteId) (w : W) (m : Store)
        → Represents rows w m
        → Refined (Call.get i) w m (get db i w) (reference.get i m)
    unfolding get
    get_refines i w m h = elim (table.select_lem i.as_str w) [
      | inl (e, failed, other, same) ↦
          rw failed (inl (db.to_string e, refl, (e, refl, other, refl), λ k. same k ∙ h k))
      | inr (inl (absent, (done, same))) ↦
          let none_there = row_of-none (m i.as_str) (h i.as_str) absent in
          rw (done, none_there) (inr (refl, λ k. same k ∙ h k))
      | inr (inr (vs, row, present, shows, (done, same))) ↦
          let (p, there, e) = row_of-some (m i.as_str) vs (h i.as_str) present in
          let shown = rw e at shows in
          rw (done, there, to_paste_lem p row _ shown) (inr (refl, λ k. same k ∙ h k))
    ]

    increment_refines :
        (i : PasteId) (n : ℤ) (w : W) (m : Store)
        → Represents rows w m
        → Fits n (m i.as_str)
        → Refined
            (Call.increment_views_by i n)
            w
            m
            (increment_views_by db i n w)
            (reference.increment_views_by i n m)
    unfolding increment_views_by
    increment_refines i n w m h fits = elim (Option-cases (m i.as_str)) [
      | inl there ↦ elim (table.add_absent i.as_str n w (h i.as_str ∙ ap row_of there)) [
        | inl (e, failed, other, same) ↦
            rw failed (inl (db.to_string e, refl, (e, refl, other, refl), λ k. same k ∙ h k))
        | inr (done, same) ↦ rw (done, there) (inr (refl, λ k. same k ∙ h k))
      ]
      | inr (p, there) ↦
          let in_range = subst (Fits n) there fits in
          elim (table.add_present i.as_str n w (values p) p.views (h i.as_str ∙ ap row_of there)
            refl in_range) [
              | inl (e, failed, other, same) ↦
                  rw failed (inl (db.to_string e, refl, (e, refl, other, refl), λ k. same k ∙ h k))
              | inr (done, after) ↦
                  rw (done, there)
                    (inr (
                      refl,
                      written w _ m i.as_str (some (add_views n p)) h
                          (rw (added p n in_range) at after),
                    ))
            ]
    ]

    delete_refines :
        (i : PasteId) (w : W) (m : Store)
        → Represents rows w m
        → Refined (Call.delete i) w m (delete db i w) (reference.delete i m)
    unfolding delete
    delete_refines i w m h = elim (table.delete_lem i.as_str w) [
      | inl (e, failed, other, same) ↦
          rw failed (inl (db.to_string e, refl, (e, refl, other, refl), λ k. same k ∙ h k))
      | inr (inl (absent, (done, same))) ↦
          let none_there = row_of-none (m i.as_str) (h i.as_str) absent in
          rw (done, none_there) (inr (refl, λ k. same k ∙ h k))
      | inr (inr (vs, present, (done, after))) ↦
          let (p, there, _) = row_of-some (m i.as_str) vs (h i.as_str) present in
          rw (done, there) (inr (refl, written w _ m i.as_str none h after))
    ]

    ping_refines :
        (w : W) (m : Store)
        → Represents rows w m
        → Refined Call.ping w m (ping db w) (reference.ping m)
    unfolding ping
    ping_refines w m h = elim (table.ping_lem w) [
      | inl (e, failed, other, same) ↦
          rw failed (inl (db.to_string e, refl, (e, refl, other, refl), λ k. same k ∙ h k))
      | inr (n, (done, same)) ↦ rw done (inr (refl, λ k. same k ∙ h k))
    ]

    take_refines :
        Returns db rows statements.columns take_sql
        → (i : PasteId) (w : W) (m : Store) → Represents rows w m
        → Refined (Call.take i) w m (take db i w) (reference.take i m)
    unfolding take
    take_refines returning i w m h = elim (returning i.as_str w) [
      | inl (e, failed, other, same) ↦
          rw failed (inl (db.to_string e, refl, (e, refl, other, refl), λ k. same k ∙ h k))
      | inr (inl (absent, (done, same))) ↦
          let none_there = row_of-none (m i.as_str) (h i.as_str) absent in
          rw (done, none_there) (inr (refl, λ k. same k ∙ h k))
      | inr (inr (vs, row, present, shows, (done, after))) ↦
          let (p, there, e) = row_of-some (m i.as_str) vs (h i.as_str) present in
          let shown = rw e at shows in
          rw (done, there, to_paste_lem p row _ shown)
            (inr (refl, written w _ m i.as_str none h after))
    ]

    sqlite_refines :
        Returns db rows statements.columns take_sql
        → IsPasteStore (Represents rows) (StatementFails db) (repository db)
    sqlite_refines returning = record {
      insert_lem = insert_refines;
      get_lem = get_refines;
      take_lem = take_refines returning;
      increment_lem = increment_refines;
      delete_lem = delete_refines;
      ping_lem = ping_refines;
    }

-- Where the database treats the repository's statements on the table of pastes as SQLite documents,
-- and every addition to a counter stays within 64 bits, any sequence of calls agrees with the
-- reference store: replayed on the reference, the calls that did not end in a backend error have the
-- answers that they had (`conflict` for an id that is present included), and the table ends with
-- exactly the rows of the pastes that the reference ends with; and a call ends in a backend error only
-- where its own statement failed in that state with an error that is no unique violation, whose text
-- is the cause.
pub run-sqlite_pastes :
    {W Row SqlError : Type 0} (db : Sqlx W Row SqlError) (rows : W → Table)
    (table : IsTable db rows statements) (returning : Returns db rows statements.columns take_sql)
    (cs : List Call) (w : W) (m : Store)
    → Represents rows w m
    → AllFit (repository db) cs w m
    → Agree (Represents rows) (StatementFails db) (repository db) cs w m
run-sqlite_pastes db rows table returning =
    run_refines (Represents rows) (StatementFails db) (repository db)
      (sqlite_refines db rows table returning)
