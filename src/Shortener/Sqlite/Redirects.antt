-- ===== src/Shortener/Sqlite/Redirects.antt =====
-- Redirects on SQLite (url-shortener/src/infrastructure/sqlite.rs under application/mod.rs).
use hicho.Common.{ℕ, ◌≡◌, refl, ap, Option, some, List, Bytes, ok}
use hicho.Cache.{Cache}
use hicho.Cache.Lawful.{Lawful}
use hicho.Sqlx.{Sqlx, Table, IsTable}
use hicho.Shortener.Domain.TargetUrl.{UrlCrate, TargetUrl}
use hicho.Shortener.Service.{resolve}
use hicho.Shortener.System.Backed.{World, with_cache, TargetStore}
use hicho.Shortener.System.Backed.Reach.{Reach, reached-target}
use hicho.Shortener.Sqlite.{statements, repository}
use hicho.Shortener.Sqlite.Targets.{
  target_in, HasTargets, text_of, get_rows, get_reads, add_target, delete_text, insert_text,
  insert_target, delete_others_lem, delete_failed_lem,
}

module _ {W Row SqlError : Type 0} (db : Sqlx W Row SqlError) (rows : W → Table)
    (table : IsTable db rows statements) where
  pub sqlite-TargetStore : TargetStore (repository db) (HasTargets rows) (target_in rows)
  sqlite-TargetStore = record {
    get_sound = λ code w h k. rw (get_rows db rows table code k w) (h k);
    get_same = λ code k w h. rw (get_rows db rows table code k w) refl;
    get_target = λ code w l h got. get_reads db rows table code w l h got;
    add_sound = λ code n w h k. (add_target db rows table code n k w).0 (h k);
    add_same = λ code n k w h. ap text_of (add_target db rows table code n k w).1;
    delete_sound = λ code w h k. delete_text db rows table code k w (h k);
    delete_others = λ code k w h other. delete_others_lem db rows table code k w other;
    delete_failed = λ code k w e h failed. delete_failed_lem db rows table code k w e failed;
    insert_sound = λ l w h k. insert_text db rows table l k w (h k);
    insert_keeps = λ l k t w h e. insert_target db rows table l k t w e;
  }

-- Redirects agree with the database: in every world that calls of `create`, `resolve`, `delete` and
-- `get` (of links that have not expired) and writes of a batching recorder reach, in any order, with
-- any loss of cache entries in between and whichever statements fail, `resolve` serves for a code
-- only the target that the table of links holds for it; where the database treats the repository's
-- statements as SQLite documents, from a start whose rows have a text in the column `target` and
-- whose cache agrees with them.
pub resolve_serves_stored_sqlite :
    {W Row SqlError C : Type 0} {c : Cache C} (law : Lawful c) (db : Sqlx W Row SqlError)
    (rows : W → Table) (table : IsTable db rows statements) (hosts : List Bytes) (url : UrlCrate)
    {start w : World W C} (raw : Bytes) (now later : Option ℕ) (target : TargetUrl)
    → HasTargets rows start.store
    → ((k t : Bytes) → law.holds start.cached k ≡ some t → target_in rows k start.store ≡ some t)
    → Reach (repository db) law hosts url start w
    → (resolve (with_cache (repository db) hosts c) raw now later w).0 ≡ ok target
    → target_in rows raw w.store ≡ some target.as_str
resolve_serves_stored_sqlite law db rows table hosts url raw now later target sound agree r e =
    reached-target law (sqlite-TargetStore db rows table) hosts url raw now later target
      (sound, agree) r e
