-- ===== src/Pastebin/Sqlite.antt =====
-- The repository on SQLite (pastebin-service/src/infrastructure/sqlite.rs).
pub mod Refines
pub mod Burn
use hicho.Common.{
  ℕ, ltb, Bool, true, false, Option, none, some, List, [], ◌∷◌, Bytes, ok, err, Action, pure, ◌>>=◌,
  ◌>>◌, lift_or, convert, if◌then◌else◌,
}
use hicho.Common.Int.{ℤ}
use hicho.Common.Text.{bytes}
use hicho.Sqlx.{Value, text, nullable_text, integer, nullable_integer, flag, Sqlx, Statements}
use hicho.Pastebin.Domain.Errors.{RepoError, conflict}
use hicho.Pastebin.Domain.PasteId.{PasteId}
use hicho.Pastebin.Domain.PasteId
use hicho.Pastebin.Domain.Content
use hicho.Pastebin.Domain.Paste.{Paste, PasteRepository}

-- The statements, as they stand in the source.
abbrev pub statements : Statements
statements = record {
  columns =
      bytes "id"
      ∷ bytes "content"
      ∷ bytes "syntax"
      ∷ bytes "created_at"
      ∷ bytes "expires_at"
      ∷ bytes "one_shot"
      ∷ bytes "views"
      ∷ [];
  counter = 6;
  insert_sql =
      bytes
        "INSERT INTO pastes (id, content, syntax, created_at, expires_at, one_shot, views) VALUES (?, ?, ?, ?, ?, ?, ?)";
  select_sql =
      bytes
        "SELECT id, content, syntax, created_at, expires_at, one_shot, views FROM pastes WHERE id = ?";
  add_sql = bytes "UPDATE pastes SET views = views + ? WHERE id = ?";
  delete_sql = bytes "DELETE FROM pastes WHERE id = ?";
  ping_sql = bytes "SELECT 1";
}

abbrev pub take_sql : Bytes
take_sql =
    bytes
      "DELETE FROM pastes WHERE id = ? RETURNING id, content, syntax, created_at, expires_at, one_shot, views"

-- The columns of a paste after the first.
abbrev pub fields : Paste → List Value
fields paste =
    text paste.content.as_str
    ∷ nullable_text paste.syntax
    ∷ integer paste.created_at
    ∷ nullable_integer paste.expires_at
    ∷ flag paste.one_shot
    ∷ integer paste.views
    ∷ []

-- What `insert` binds, in order.
abbrev pub values : Paste → List Value
values paste = text paste.id.as_str ∷ fields paste

module _ {W Row SqlError : Type 0} (db : Sqlx W Row SqlError) where
  -- `backend`: the cause is boxed
  abbrev backend : SqlError → RepoError
  backend e = RepoError.backend (db.to_string e)

  unfoldable pub row_to_paste : Row → Action W RepoError Paste
  row_to_paste row = do
    i ← lift_or (db.get_text (bytes "id") row) backend
    content ← lift_or (db.get_text (bytes "content") row) backend
    syntax ← lift_or (db.get_nullable_text (bytes "syntax") row) backend
    created_at ← lift_or (db.get_integer (bytes "created_at") row) backend
    expires_at ← lift_or (db.get_nullable_integer (bytes "expires_at") row) backend
    one_shot ← lift_or (db.get_flag (bytes "one_shot") row) backend
    views ← lift_or (db.get_integer (bytes "views") row) backend
    pure (record {
      id = PasteId.from_trusted i;
      content = Content.from_trusted content;
      syntax = syntax;
      created_at = created_at;
      expires_at = expires_at;
      one_shot = one_shot;
      views = views;
    })

  -- the row of `get` or `take`, if there is one
  unfoldable pub to_paste : Option Row → Action W RepoError (Option Paste)
  to_paste none = pure none
  to_paste (some row) = do paste ← row_to_paste row; pure (some paste)

  -- the error of `execute` in `insert`
  abbrev insert_error : SqlError → RepoError
  insert_error e = if db.is_unique_violation e then conflict else backend e

  unfoldable pub insert : Paste → Action W RepoError (Unit {0})
  insert paste = do convert insert_error (db.execute statements.insert_sql (values paste)); pure tt

  unfoldable pub get : PasteId → Action W RepoError (Option Paste)
  unfolding to_paste
  get i = do
    row ← convert backend (db.fetch_optional statements.select_sql (text i.as_str ∷ []))
    to_paste row

  unfoldable pub take : PasteId → Action W RepoError (Option Paste)
  unfolding to_paste
  take i = do row ← convert backend (db.fetch_optional take_sql (text i.as_str ∷ [])); to_paste row

  unfoldable pub increment_views_by : PasteId → ℤ → Action W RepoError Bool
  increment_views_by i n = do
    affected ← convert backend (db.execute statements.add_sql (integer n ∷ text i.as_str ∷ []))
    pure (ltb 0 affected)

  unfoldable pub delete : PasteId → Action W RepoError Bool
  delete i = do
    affected ← convert backend (db.execute statements.delete_sql (text i.as_str ∷ []))
    pure (ltb 0 affected)

  unfoldable pub ping : Action W RepoError (Unit {0})
  ping = do convert backend (db.execute statements.ping_sql []); pure tt

  -- `impl PasteRepository for SqlitePasteRepository`
  abbrev pub repository : PasteRepository W
  repository = record {
    insert = insert;
    get = get;
    take = take;
    increment_views_by = increment_views_by;
    delete = delete;
    ping = ping;
  }
