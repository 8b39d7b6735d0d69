-- ===== src/Shortener/Sqlite/Refines.antt =====
-- The SQLite repository (url-shortener/src/infrastructure/sqlite.rs) refines the reference store.
use hicho.Common.{
  ◌≡◌, inl, inr, refl, Option, none, some, List, [], ◌∷◌, Bytes, Result, ok, err, false, arith, ap,
  ◌∙◌, Option-cases,
}
use mathlib.Core.Path.{subst}
use hicho.Common.Int.{ℤ, ◌+ℤ◌, InRange, add_i64, wrap_i64_id}
use hicho.Sqlx.{Sqlx, Value, text, integer, set, Table, IsTable, Shows, update}
use hicho.Shortener.Domain.Errors.{RepoError, BoxedError}
use hicho.Shortener.Domain.ShortCode.{ShortCode}
use hicho.Shortener.Domain.Link.{Link}
use hicho.Shortener.Contract.{Call, Store, reference, Fits, Refines, IsLinkStore}
use hicho.Shortener.Contract.Runs.{AllFit, Agree, run_refines}
use hicho.Shortener.Memory.{add_hits}
use hicho.Shortener.Sqlite.{
  statements, fields, values, to_link, insert, get, increment_hits_by, delete, ping, repository,
}

-- The row of a link.
abbrev pub row_of : Option Link → Option (List Value)
row_of none = none
row_of (some p) = some (values p)

-- The table holds the row of each link of the store, and no other.
abbrev pub Represents : {W : Type 0} → (W → Table) → W → Store → Type 0
Represents rows w m = (k : Bytes) → rows w k ≡ row_of (m k)

update-row_of :
    (m : Store) (k : Bytes) (v : Option Link) (j : Bytes)
    → update (λ i. row_of (m i)) k (row_of v) j ≡ row_of (update m k v j)
update-row_of m k v j = ground arith

row_of-none : (o : Option Link) {r : Option (List Value)} → r ≡ row_of o → r ≡ none → o ≡ none
row_of-none none e h = refl
row_of-none (some p) e h = cc

row_of-some :
    (o : Option Link) {r : Option (List Value)} (vs : List Value)
    → r ≡ row_of o
    → r ≡ some vs
    → (p : Link) × (o ≡ some p) × (vs ≡ values p)
row_of-some none vs e h = cc
row_of-some (some p) vs e h = (p, refl, cc)

added :
    (p : Link) (n : ℤ)
    → InRange (p.hits +ℤ n)
    → set (values p) statements.counter (integer (p.hits +ℤ n)) ≡ values (add_hits n p)
unfolding add_i64
added p n h = rw (wrap_i64_id (p.hits +ℤ n) h) refl

module _ {W Row SqlError : Type 0} (db : Sqlx W Row SqlError) where
  -- The outcome of a statement is an error that is no unique violation, and its text is the cause.
  abbrev Causes : {A : Type 0} → BoxedError → Result SqlError A → Type 0
  Causes cause out =
      (e : SqlError) × (out ≡ err e) × (db.is_unique_violation e ≡ false) × (cause ≡ db.to_string e)

  -- The call's own statement fails, and not for a key that is present.
  abbrev pub StatementFails : Call → W → BoxedError → Type 0
  StatementFails (Call.insert p) w cause =
      Causes cause (db.execute statements.insert_sql (values p) w).0
  StatementFails (Call.get i) w cause =
      Causes cause (db.fetch_optional statements.select_sql (text i.as_str ∷ []) w).0
  StatementFails (Call.delete i) w cause =
      Causes cause (db.execute statements.delete_sql (text i.as_str ∷ []) w).0
  StatementFails (Call.increment_hits_by i n) w cause =
      Causes cause (db.execute statements.add_sql (integer n ∷ text i.as_str ∷ []) w).0
  StatementFails Call.ping w cause = Causes cause (db.execute statements.ping_sql [] w).0

module _ {W Row SqlError : Type 0} (db : Sqlx W Row SqlError) (rows : W → Table) where
  abbrev Refined :
      {A : Type 0} → Call → W → Store → Result RepoError A × W → Result RepoError A × Store → Type 0
  Refined c w m out expected = Refines (Represents rows) (StatementFails db) c w m out expected

  -- The table after a write at one key.
  written :
      (w w' : W) (m : Store) (k : Bytes) (v : Option Link)
      → Represents rows w m
      → ((j : Bytes) → rows w' j ≡ update (rows w) k (row_of v) j)
      → Represents rows w' (update m k v)
  written w w' m k v h after j = ground (arith, after j, h j)

  -- A row that shows the values of a link is read back as that link.
  to_link_lem :
      (p : Link) (row : Row) (w : W)
      → Shows db statements.columns (values p) row
      → to_link db (some row) w ≡ (ok (some p), w)
  unfolding to_link
  to_link_lem p row w h = ground arith

  module _ (table : IsTable db rows statements) where
    insert_refines :
        (p : Link) (w : W) (m : Store)
        → Represents rows w m
        → Refined (Call.insert p) w m (insert db p w) (reference.insert p m)
    unfolding insert
    insert_refines p w m h = elim (table.insert_lem p.code.as_str (fields p) w refl) [
      | inl (e, failed, other, same) ↦
          rw (failed, other) (inl (db.to_string e, refl, (e, refl, other, refl), λ k. same k ∙ h k))
      | inr (inl (absent, (done, after))) ↦
          let none_there = row_of-none (m p.code.as_str) (h p.code.as_str) absent in
          rw (done, none_there) (inr (refl, written w _ m p.code.as_str (some p) h after))
      | inr (inr (e, vs, present, violation, (done, after))) ↦
          let (old, there, _) = row_of-some (m p.code.as_str) vs (h p.code.as_str) present in
          rw (done, violation, there) (inr (refl, λ k. after k ∙ h k))
    ]

    get_refines :
        (i : ShortCode) (w : W) (m : Store)
        → Represents rows w m
        → Refined (Call.get i) w m (get db i w) (reference.get i m)
    unfolding get
    get_refines i w m h = elim (table.select_lem i.as_str w) [
      | inl (e, failed, other, same) ↦
          rw failed (inl (db.to_string e, refl, (e, refl, other, refl), λ k. same k ∙ h k))
      | inr (inl (absent, (done, same))) ↦
          let none_there = row_of-none (m i.as_str) (h i.as_str) absent in
          rw (done, none_there) (inr (refl, λ k. same k ∙ h k))
      | inr (inr (vs, row, present, shows, (done, same))) ↦
          let (p, there, e) = row_of-some (m i.as_str) vs (h i.as_str) present in
          let shown = rw e at shows in
          rw (done, there, to_link_lem p row _ shown) (inr (refl, λ k. same k ∙ h k))
    ]

    increment_refines :
        (i : ShortCode) (n : ℤ) (w : W) (m : Store)
        → Represents rows w m
        → Fits n (m i.as_str)
        → Refined
            (Call.increment_hits_by i n)
            w
            m
            (increment_hits_by db i n w)
            (reference.increment_hits_by i n m)
    unfolding increment_hits_by
    increment_refines i n w m h fits = elim (Option-cases (m i.as_str)) [
      | inl there ↦ elim (table.add_absent i.as_str n w (h i.as_str ∙ ap row_of there)) [
        | inl (e, failed, other, same) ↦
            rw failed (inl (db.to_string e, refl, (e, refl, other, refl), λ k. same k ∙ h k))
        | inr (done, same) ↦ rw (done, there) (inr (refl, λ k. same k ∙ h k))
      ]
      | inr (p, there) ↦
          let in_range = subst (Fits n) there fits in
          elim (table.add_present i.as_str n w (values p) p.hits (h i.as_str ∙ ap row_of there) refl
            in_range) [
              | inl (e, failed, other, same) ↦
                  rw failed (inl (db.to_string e, refl, (e, refl, other, refl), λ k. same k ∙ h k))
              | inr (done, after) ↦
                  rw (done, there)
                    (inr (
                      refl,
                      written w _ m i.as_str (some (add_hits n p)) h
                          (rw (added p n in_range) at after),
                    ))
            ]
    ]

    delete_refines :
        (i : ShortCode) (w : W) (m : Store)
        → Represents rows w m
        → Refined (Call.delete i) w m (delete db i w) (reference.delete i m)
    unfolding delete
    delete_refines i w m h = elim (table.delete_lem i.as_str w) [
      | inl (e, failed, other, same) ↦
          rw failed (inl (db.to_string e, refl, (e, refl, other, refl), λ k. same k ∙ h k))
      | inr (inl (absent, (done, same))) ↦
          let none_there = row_of-none (m i.as_str) (h i.as_str) absent in
          rw (done, none_there) (inr (refl, λ k. same k ∙ h k))
      | inr (inr (vs, present, (done, after))) ↦
          let (p, there, _) = row_of-some (m i.as_str) vs (h i.as_str) present in
          rw (done, there) (inr (refl, written w _ m i.as_str none h after))
    ]

    ping_refines :
        (w : W) (m : Store)
        → Represents rows w m
        → Refined Call.ping w m (ping db w) (reference.ping m)
    unfolding ping
    ping_refines w m h = elim (table.ping_lem w) [
      | inl (e, failed, other, same) ↦
          rw failed (inl (db.to_string e, refl, (e, refl, other, refl), λ k. same k ∙ h k))
      | inr (n, (done, same)) ↦ rw done (inr (refl, λ k. same k ∙ h k))
    ]

    pub sqlite_refines : IsLinkStore (Represents rows) (StatementFails db) (repository db)
    sqlite_refines = record {
      insert_lem = insert_refines;
      get_lem = get_refines;
      increment_lem = increment_refines;
      delete_lem = delete_refines;
      ping_lem = ping_refines;
    }

-- Where the database treats the repository's statements on the table of links as SQLite documents,
-- and every addition to a counter stays within 64 bits, any sequence of calls agrees with the
-- reference store: replayed on the reference, the calls that did not end in a backend error have the
-- answers that they had (`conflict` for an id that is present included), and the table ends with
-- exactly the rows of the links that the reference ends with; and a call ends in a backend error only
-- where its own statement failed in that state with an error that is no unique violation, whose text
-- is the cause.
pub run-sqlite_links :
    {W Row SqlError : Type 0} (db : Sqlx W Row SqlError) (rows : W → Table)
    (table : IsTable db rows statements) (cs : List Call) (w : W) (m : Store)
    → Represents rows w m
    → AllFit (repository db) cs w m
    → Agree (Represents rows) (StatementFails db) (repository db) cs w m
run-sqlite_links db rows table =
    run_refines (Represents rows) (StatementFails db) (repository db) (sqlite_refines db rows table)
