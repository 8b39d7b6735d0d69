-- ===== src/Shortener/Sqlite.antt =====
-- The repository on SQLite (url-shortener/src/infrastructure/sqlite.rs).
pub mod Refines
pub mod Targets
pub mod Redirects
use hicho.Common.{
  ℕ, ltb, Bool, true, false, Option, none, some, List, [], ◌∷◌, Bytes, ok, err, Action, pure, ◌>>=◌,
  ◌>>◌, lift_or, convert, if◌then◌else◌,
}
use hicho.Common.Int.{ℤ}
use hicho.Common.Text.{bytes}
use hicho.Sqlx.{Value, text, integer, nullable_integer, Sqlx, Statements}
use hicho.Shortener.Domain.Errors.{RepoError, conflict}
use hicho.Shortener.Domain.ShortCode.{ShortCode}
use hicho.Shortener.Domain.ShortCode
use hicho.Shortener.Domain.TargetUrl
use hicho.Shortener.Domain.Link.{Link, LinkRepository}

-- The statements, as they stand in the source.
abbrev pub statements : Statements
statements = record {
  columns =
      bytes "code" ∷ bytes "target" ∷ bytes "created_at" ∷ bytes "hits" ∷ bytes "expires_at" ∷ [];
  counter = 3;
  insert_sql =
      bytes "INSERT INTO links (code, target, created_at, hits, expires_at) VALUES (?, ?, ?, ?, ?)";
  select_sql = bytes "SELECT code, target, created_at, hits, expires_at FROM links WHERE code = ?";
  add_sql = bytes "UPDATE links SET hits = hits + ? WHERE code = ?";
  delete_sql = bytes "DELETE FROM links WHERE code = ?";
  ping_sql = bytes "SELECT 1";
}

-- The columns of a link after the first.
abbrev pub fields : Link → List Value
fields link =
    text link.target.as_str
    ∷ integer link.created_at
    ∷ integer link.hits
    ∷ nullable_integer link.expires_at
    ∷ []

-- What `insert` binds, in order.
abbrev pub values : Link → List Value
values link = text link.code.as_str ∷ fields link

module _ {W Row SqlError : Type 0} (db : Sqlx W Row SqlError) where
  -- `backend`: the cause is boxed
  abbrev backend : SqlError → RepoError
  backend e = RepoError.backend (db.to_string e)

  -- what `get` makes of the row that it fetched, if there is one
  unfoldable pub to_link : Option Row → Action W RepoError (Option Link)
  to_link none = pure none
  to_link (some row) = do
    code ← lift_or (db.get_text (bytes "code") row) backend
    target ← lift_or (db.get_text (bytes "target") row) backend
    created_at ← lift_or (db.get_integer (bytes "created_at") row) backend
    hits ← lift_or (db.get_integer (bytes "hits") row) backend
    expires_at ← lift_or (db.get_nullable_integer (bytes "expires_at") row) backend
    pure (
        some (record {
          code = ShortCode.from_trusted code;
          target = TargetUrl.from_trusted target;
          created_at = created_at;
          hits = hits;
          expires_at = expires_at;
        }))

  -- the error of `execute` in `insert`
  abbrev insert_error : SqlError → RepoError
  insert_error e = if db.is_unique_violation e then conflict else backend e

  unfoldable pub insert : Link → Action W RepoError (Unit {0})
  insert link = do convert insert_error (db.execute statements.insert_sql (values link)); pure tt

  unfoldable pub get : ShortCode → Action W RepoError (Option Link)
  unfolding to_link
  get i = do
    row ← convert backend (db.fetch_optional statements.select_sql (text i.as_str ∷ []))
    to_link row

  unfoldable pub increment_hits_by : ShortCode → ℤ → Action W RepoError Bool
  increment_hits_by i n = do
    affected ← convert backend (db.execute statements.add_sql (integer n ∷ text i.as_str ∷ []))
    pure (ltb 0 affected)

  unfoldable pub delete : ShortCode → Action W RepoError Bool
  delete i = do
    affected ← convert backend (db.execute statements.delete_sql (text i.as_str ∷ []))
    pure (ltb 0 affected)

  unfoldable pub ping : Action W RepoError (Unit {0})
  ping = do convert backend (db.execute statements.ping_sql []); pure tt

  -- `impl LinkRepository for SqliteLinkRepository`
  abbrev pub repository : LinkRepository W
  repository = record {
    insert = insert;
    get = get;
    increment_hits_by = increment_hits_by;
    delete = delete;
    ping = ping;
  }
