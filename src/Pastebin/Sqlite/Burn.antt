-- ===== src/Pastebin/Sqlite/Burn.antt =====
-- Burn after read on SQLite (pastebin-service/src/infrastructure/sqlite.rs under application/mod.rs).
use hicho.Common.{
  bytes_eq_iff, ℕ, ◌+◌, ◌≤◌, ◌≡◌, ◌⊎◌, refl, inl, inr, true, false, Option, none, some, List, [],
  ◌∷◌, Bytes, bytes_eq, Result, ok, arith, if◌then◌else◌, Bool-cases,
}
use mathlib.Core.Path.{subst}
use hicho.Common.Int.{ℤ}
use hicho.Common.Text.{bytes}
use hicho.Cache.{Cache}
use hicho.Cache.Lawful.{Lawful}
use hicho.Sqlx.{Sqlx, Value, flag, get_elem?, Table, IsTable, Returns, Shows, update}
use hicho.Pastebin.Domain.Errors.{RepoError}
use hicho.Pastebin.Domain.PasteId.{PasteId}
use hicho.Pastebin.Domain.Paste.{Paste}
use hicho.Pastebin.Service.Snapshot.{JsonCrate}
use hicho.Pastebin.System.OneShot.{Task, served}
use hicho.Pastebin.System.OneShot.Turns.{Turn, run_turns, AllStart}
use hicho.Pastebin.System.Burning.{World, with_cache, OneShotStore, NotCached, found}
use hicho.Pastebin.System.Burning.Turns.{burns_once}
use hicho.Pastebin.Sqlite.{
  statements, take_sql, row_to_paste, to_paste, get, take, increment_views_by, delete, repository,
}

-- A row that is not there, or whose column `one_shot` is set.
abbrev pub IsOneShotRow : Option (List Value) → Type 0
IsOneShotRow none = Unit
IsOneShotRow (some vs) = get_elem? vs 5 ≡ some (flag true)

abbrev count_row : Option (List Value) → ℕ
count_row none = 0
count_row (some vs) = 1

count_row-le : (o : Option (List Value)) → count_row o ≤ 1
count_row-le o = ground arith

module _ {W Row SqlError : Type 0} (db : Sqlx W Row SqlError) where
  flag_shown :
      (vs : List Value) (row : Row)
      → Shows db statements.columns vs row
      → get_elem? vs 5 ≡ some (flag true)
      → db.get_flag (bytes "one_shot") row ≡ ok true
  flag_shown (a ∷ b ∷ c ∷ d ∷ e ∷ f ∷ g ∷ []) row h one = ground arith
  flag_shown _ row h one = ground arith

  row_flag :
      (row : Row) (w : W) (p : Paste)
      → (to_paste db (some row) w).0 ≡ ok (some p)
      → db.get_flag (bytes "one_shot") row ≡ ok p.one_shot
  unfolding to_paste row_to_paste
  row_flag row w p h = ground arith

  to_paste_state : (o : Option Row) (w : W) → (to_paste db o w).1 ≡ w
  unfolding to_paste row_to_paste
  to_paste_state none w = refl
  to_paste_state (some row) w = ground arith

  module _ (rows : W → Table) (table : IsTable db rows statements)
      (returning : Returns db rows statements.columns take_sql) (k : Bytes) where
    get_rows : (i : PasteId) (w : W) → rows (get db i w).1 k ≡ rows w k
    unfolding get
    get_rows i w = elim (table.select_lem i.as_str w) [
      | inl (e, failed, other, same) ↦ rw failed (same k)
      | inr (inl (absent, (done, same))) ↦ rw (done, to_paste_state) (same k)
      | inr (inr (vs, row, present, shows, (done, same))) ↦ rw (done, to_paste_state) (same k)
    ]

    get_reads :
        (i : PasteId) (w : W) (p : Paste)
        → IsOneShotRow (rows w k)
        → (get db i w).0 ≡ ok (some p)
        → bytes_eq i.as_str k ≡ true
        → p.one_shot ≡ true
    unfolding get
    get_reads i w p one got same_id = elim (table.select_lem i.as_str w) [
      | inl (e, failed, other, same) ↦ absurd (ground arith)
      | inr (inl (absent, (done, same))) ↦ absurd (ground arith)
      | inr (inr (vs, row, present, shows, (done, same))) ↦
          let here : rows w k ≡ some vs =
            subst (λ j. rows w j ≡ some vs) ((bytes_eq_iff i.as_str k).0 same_id) present in
          let marked = flag_shown vs row shows (subst IsOneShotRow here one) in
          let read = row_flag row _ p (rw done at got) in ground (arith, marked, read)
    ]

    -- What `take` leaves at `k`: the row, and it gave no paste; or the table without the row that it
    -- found.
    abbrev Takes : PasteId → W → Type 0
    Takes i w =
        ((rows (take db i w).1 k ≡ rows w k) × (found (take db i w).0 ≡ 0))
        ⊎ ((vs : List Value) × (rows w i.as_str ≡ some vs)
            × (rows (take db i w).1 k ≡ update (rows w) i.as_str none k))

    take-Takes : (i : PasteId) (w : W) → Takes i w
    unfolding take
    take-Takes i w = elim (returning i.as_str w) [
      | inl (e, failed, other, same) ↦ inl (rw failed (same k), rw failed refl)
      | inr (inl (absent, (done, same))) ↦
          inl (rw (done, to_paste_state) (same k), rw (done, to_paste) refl)
      | inr (inr (vs, row, present, shows, (done, after))) ↦
          inr (vs, present, rw (done, to_paste_state) (after k))
    ]

    delete_rows :
        (i : PasteId) (w : W)
        → (rows (delete db i w).1 k ≡ rows w k)
          ⊎ (rows (delete db i w).1 k ≡ update (rows w) i.as_str none k)
    unfolding delete
    delete_rows i w = elim (table.delete_lem i.as_str w) [
      | inl (e, failed, other, same) ↦ inl (rw failed (same k))
      | inr (inl (absent, (done, same))) ↦ inl (rw done (same k))
      | inr (inr (vs, present, (done, after))) ↦ inr (rw done (after k))
    ]

    add_rows :
        (i : PasteId) (n : ℤ) (w : W)
        → bytes_eq i.as_str k ≡ false
        → rows (increment_views_by db i n w).1 k ≡ rows w k
    unfolding increment_views_by
    add_rows i n w other = ground (arith, table.add_others i.as_str n k w other)

    abbrev IsBurning : W → Type 0
    IsBurning w = IsOneShotRow (rows w k)

    abbrev count : W → ℕ
    count w = count_row (rows w k)

    -- The rows at `k` after a call that kept or removed one.
    kept_burns : (o after : Option (List Value)) → after ≡ o → IsOneShotRow o → IsOneShotRow after
    kept_burns o after e h = rw e h

    removed_burns :
        (key : Bytes) (w : W) (after : Option (List Value))
        → after ≡ update (rows w) key none k
        → IsOneShotRow (rows w k)
        → IsOneShotRow after × (count_row after ≤ count_row (rows w k))
    removed_burns key w after e h = elim (Bool-cases (bytes_eq key k)) [
      | inl same ↦ rw (e, same) (tt, omega arith)
      | inr other ↦ rw (e, other) (h, omega arith)
    ]

    found-le : (a : Result RepoError (Option Paste)) → found a ≤ 1
    found-le a = ground arith

    take_count_lem :
        (i : PasteId) (w : W)
        → (if bytes_eq i.as_str k then found (take db i w).0 else 0) + count (take db i w).1
          ≤ count w
    take_count_lem i w = elim (take-Takes i w) [
      | inl (same, nothing) ↦ rw (same, nothing) (ground arith)
      | inr (vs, present, after) ↦ elim (Bool-cases (bytes_eq i.as_str k)) [
        | inl here ↦
            let there : rows w k ≡ some vs =
              subst (λ j. rows w j ≡ some vs) ((bytes_eq_iff i.as_str k).0 here) present in
            rw (after, here, there) (ground (arith, found-le (take db i w).0))
        | inr other ↦ rw (after, other) (omega arith)
      ]
    ]

    sqlite-OneShotStore : OneShotStore (repository db) k IsBurning count
    sqlite-OneShotStore = record {
      count_lem = λ w. count_row-le (rows w k);
      get_burns = λ i w h. kept_burns _ _ (get_rows i w) h;
      get_count = λ i w h. rw (get_rows i w) (omega arith);
      get_one_shot = λ i w p h got same. get_reads i w p h got same;
      take_burns = λ i w h. elim (take-Takes i w) [
        | inl (same, nothing) ↦ kept_burns _ _ same h
        | inr (vs, present, after) ↦ (removed_burns i.as_str w _ after h).0
      ];
      take_count = λ i w h. take_count_lem i w;
      delete_burns = λ i w h. elim (delete_rows i w) [
        | inl same ↦ kept_burns _ _ same h
        | inr after ↦ (removed_burns i.as_str w _ after h).0
      ];
      delete_count = λ i w h. elim (delete_rows i w) [
        | inl same ↦ rw same (omega arith)
        | inr after ↦ (removed_burns i.as_str w _ after h).1
      ];
      add_burns = λ i n w other h. kept_burns _ _ (add_rows i n w other) h;
      add_count = λ i n w other h. rw (add_rows i n w other) (omega arith);
    }

-- A one-shot paste is served at most once from SQLite too: where the database treats the
-- repository's statements on the table of pastes as SQLite documents, over any lawful cache, however
-- many fetches of the paste (and of other pastes) run at the same time, in every order of their steps
-- and of deletes, and whichever statements fail; the column `one_shot` of its row is set, if there is
-- one, and no paste is cached under its id at the start.
pub served-le-one_sqlite :
    {W Row SqlError C : Type 0} {c : Cache C} (law : Lawful c) (json : JsonCrate)
    (db : Sqlx W Row SqlError) (rows : W → Table) (table : IsTable db rows statements)
    (returning : Returns db rows statements.columns take_sql) (k : Bytes) (turns : List Turn)
    (ts : List Task) (w : World W C)
    → AllStart ts
    → IsOneShotRow (rows w.store k)
    → NotCached (repository db) law json k w.cached
    → served k (run_turns json (with_cache (repository db) c) turns (ts, w)).0 ≤ 1
served-le-one_sqlite law json db rows table returning k turns ts w fresh row nc =
    burns_once law json k (sqlite-OneShotStore db rows table returning k) turns ts w fresh row nc
