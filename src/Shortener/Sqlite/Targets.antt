-- ===== src/Shortener/Sqlite/Targets.antt =====
-- Targets on SQLite (url-shortener/src/infrastructure/sqlite.rs under application/mod.rs).
use hicho.Common.{
  ◌≡◌, ◌⊎◌, ◌∙◌, refl, ap, inl, inr, true, false, Option, none, some, List, [], ◌∷◌, Bytes,
  bytes_eq, bytes_eq_iff, ok, err, arith, Bool-cases, Option-cases,
}
use mathlib.Core.Path.{subst}
use hicho.Common.Int.{ℤ}
use hicho.Common.Text.{bytes}
use hicho.Sqlx.{Sqlx, Value, text, integer, get_elem?, Table, IsTable, Shows, update}
use hicho.Shortener.Domain.Errors.{RepoError}
use hicho.Shortener.Domain.ShortCode.{ShortCode}
use hicho.Shortener.Domain.Link.{Link}
use hicho.Shortener.Sqlite.{
  statements, fields, values, to_link, insert, get, increment_hits_by, delete,
}

-- The column `target` of a row.
abbrev pub target_column : Option (List Value) → Option Value
target_column none = none
target_column (some vs) = get_elem? vs 1

abbrev pub text_of : Option Value → Option Bytes
text_of (some (text s)) = some s
text_of _ = none

-- The target that the table has under a code.
abbrev pub target_in : {W : Type 0} → (W → Table) → Bytes → W → Option Bytes
target_in rows k w = text_of (target_column (rows w k))

-- The column `target` of a row is a text.
abbrev pub HasText : Option (List Value) → Type 0
HasText none = Unit
HasText (some vs) = (s : Bytes) × (get_elem? vs 1 ≡ some (text s))

abbrev pub HasTargets : {W : Type 0} → (W → Table) → W → Type 0
HasTargets rows w = (k : Bytes) → HasText (rows w k)

module _ {W Row SqlError : Type 0} (db : Sqlx W Row SqlError) where
  target_shown :
      (vs : List Value) (row : Row) (s : Bytes)
      → Shows db statements.columns vs row
      → get_elem? vs 1 ≡ some (text s)
      → db.get_text (bytes "target") row ≡ ok s
  target_shown (a ∷ b ∷ c ∷ d ∷ e ∷ []) row s h is_text = ground arith
  target_shown _ row s h is_text = ground arith

  row_target :
      (row : Row) (w : W) (l : Link)
      → (to_link db (some row) w).0 ≡ ok (some l)
      → db.get_text (bytes "target") row ≡ ok l.target.as_str
  unfolding to_link
  row_target row w l h = ground arith

  to_link_state : (o : Option Row) (w : W) → (to_link db o w).1 ≡ w
  unfolding to_link
  to_link_state none w = refl
  to_link_state (some row) w = ground arith

  module _ (rows : W → Table) (table : IsTable db rows statements) where
    pub get_rows : (code : ShortCode) (k : Bytes) (w : W) → rows (get db code w).1 k ≡ rows w k
    unfolding get
    get_rows code k w = elim (table.select_lem code.as_str w) [
      | inl (e, failed, other, same) ↦ rw failed (same k)
      | inr (inl (absent, (done, same))) ↦ rw (done, to_link_state) (same k)
      | inr (inr (vs, row, present, shows, (done, same))) ↦ rw (done, to_link_state) (same k)
    ]

    pub get_reads :
        (code : ShortCode) (w : W) (l : Link)
        → HasTargets rows w
        → (get db code w).0 ≡ ok (some l)
        → target_in rows code.as_str w ≡ some l.target.as_str
    unfolding get
    get_reads code w l sound got = elim (table.select_lem code.as_str w) [
      | inl (e, failed, other, same) ↦ absurd (ground arith)
      | inr (inl (absent, (done, same))) ↦ absurd (ground arith)
      | inr (inr (vs, row, present, shows, (done, same))) ↦
          let (s, is_text) = subst HasText present (sound code.as_str) in
          let shown = target_shown vs row s shows is_text in
          let read = row_target row _ l (rw done at got) in
          ground (arith, shown, read, present, is_text)
    ]

    -- What a row keeps: its presence, and its columns but for the counter.
    abbrev pub SameTarget : Option (List Value) → Option (List Value) → Type 0
    SameTarget after before =
        (HasText before → HasText after) × (target_column after ≡ target_column before)

    unchanged : (after before : Option (List Value)) → after ≡ before → SameTarget after before
    unchanged after before e = (λ h. rw e h, ap target_column e)

    same_column :
        (after before : Option (List Value)) (us vs : List Value)
        → after ≡ some us
        → before ≡ some vs
        → get_elem? us 1 ≡ get_elem? vs 1
        → SameTarget after before
    same_column after before us vs e f same = rw (e, f) (λ h. (h.0, same ∙ h.1), same)

    add_state :
        (code : ShortCode) (n : ℤ) (w : W)
        → (increment_hits_by db code n w).1
          ≡ (db.execute statements.add_sql (integer n ∷ text code.as_str ∷ []) w).1
    unfolding increment_hits_by
    add_state code n w = ground arith

    -- An addition at a code, whether or not it is carried out.
    add_here :
        (code : ShortCode) (n : ℤ) (w : W)
        → SameTarget (rows (increment_hits_by db code n w).1 code.as_str) (rows w code.as_str)
    add_here code n w = elim (Option-cases (rows w code.as_str)) [
      | inl absent ↦ elim (table.add_absent code.as_str n w absent) [
        | inl (e, failed, other, kept) ↦
            unchanged _ _ (ap (λ v. rows v code.as_str) (add_state code n w) ∙ kept code.as_str)
        | inr (done, kept) ↦
            unchanged _ _ (ap (λ v. rows v code.as_str) (add_state code n w) ∙ kept code.as_str)
      ]
      | inr (vs, present) ↦
          let (us, stored, columns) = table.add_columns code.as_str n w vs present in
          same_column _ _ us vs (ap (λ v. rows v code.as_str) (add_state code n w) ∙ stored) present
            (columns 1 (λ e. absurd (omega arith)))
    ]

    pub add_target :
        (code : ShortCode) (n : ℤ) (k : Bytes) (w : W)
        → SameTarget (rows (increment_hits_by db code n w).1 k) (rows w k)
    add_target code n k w = elim (Bool-cases (bytes_eq code.as_str k)) [
      | inr other ↦
          unchanged _ _
            (ap (λ v. rows v k) (add_state code n w) ∙ table.add_others code.as_str n k w other)
      | inl same ↦
          subst (λ j. SameTarget (rows (increment_hits_by db code n w).1 j) (rows w j))
            ((bytes_eq_iff code.as_str k).0 same) (add_here code n w)
    ]

    delete_rows :
        (code : ShortCode) (k : Bytes) (w : W)
        → (rows (delete db code w).1 k ≡ rows w k)
          ⊎ ((rows (delete db code w).1 k ≡ update (rows w) code.as_str none k)
              × ((delete db code w).0 ≡ ok true))
    unfolding delete
    delete_rows code k w = elim (table.delete_lem code.as_str w) [
      | inl (e, failed, other, same) ↦ inl (rw failed (same k))
      | inr (inl (absent, (done, same))) ↦ inl (rw done (same k))
      | inr (inr (vs, present, (done, after))) ↦ inr (rw done (after k), rw done refl)
    ]

    insert_rows :
        (l : Link) (k : Bytes) (w : W)
        → (rows (insert db l w).1 k ≡ rows w k)
          ⊎ ((rows w l.code.as_str ≡ none)
              × (rows (insert db l w).1 k ≡ update (rows w) l.code.as_str (some (values l)) k))
    unfolding insert
    insert_rows l k w = elim (table.insert_lem l.code.as_str (fields l) w refl) [
      | inl (e, failed, other, same) ↦ inl (rw failed (same k))
      | inr (inl (absent, (done, after))) ↦ inr (absent, rw done (after k))
      | inr (inr (e, vs, present, violation, (done, same))) ↦ inl (rw done (same k))
    ]

    pub delete_text :
        (code : ShortCode) (k : Bytes) (w : W)
        → HasText (rows w k)
        → HasText (rows (delete db code w).1 k)
    delete_text code k w h = elim (delete_rows code k w) [
      | inl same ↦ rw same h
      | inr (removed, done) ↦ elim (Bool-cases (bytes_eq code.as_str k)) [
        | inl here ↦ rw (removed, here) tt
        | inr other ↦ rw (removed, other) h
      ]
    ]

    pub insert_text :
        (l : Link) (k : Bytes) (w : W) → HasText (rows w k) → HasText (rows (insert db l w).1 k)
    insert_text l k w h = elim (insert_rows l k w) [
      | inl same ↦ rw same h
      | inr (absent, written) ↦ elim (Bool-cases (bytes_eq l.code.as_str k)) [
        | inl here ↦ rw (written, here) (l.target.as_str, refl)
        | inr other ↦ rw (written, other) h
      ]
    ]

    pub insert_target :
        (l : Link) (k t : Bytes) (w : W)
        → target_in rows k w ≡ some t
        → target_in rows k (insert db l w).1 ≡ some t
    insert_target l k t w h = elim (insert_rows l k w) [
      | inl same ↦ rw same h
      | inr (absent, written) ↦ elim (Bool-cases (bytes_eq l.code.as_str k)) [
        | inl here ↦
            let missing : rows w k ≡ none =
              subst (λ j. rows w j ≡ none) ((bytes_eq_iff l.code.as_str k).0 here) absent in
            absurd (ground (arith, missing, h))
        | inr other ↦ rw (written, other) h
      ]
    ]

    pub delete_others_lem :
        (code : ShortCode) (k : Bytes) (w : W)
        → bytes_eq code.as_str k ≡ false
        → target_in rows k (delete db code w).1 ≡ target_in rows k w
    delete_others_lem code k w other = elim (delete_rows code k w) [
      | inl same ↦ rw same refl
      | inr (removed, done) ↦ rw (removed, other) refl
    ]

    pub delete_failed_lem :
        (code : ShortCode) (k : Bytes) (w : W) (e : RepoError)
        → (delete db code w).0 ≡ err e
        → target_in rows k (delete db code w).1 ≡ target_in rows k w
    delete_failed_lem code k w e failed = elim (delete_rows code k w) [
      | inl same ↦ rw same refl
      | inr (removed, done) ↦ absurd (ground arith)
    ]
