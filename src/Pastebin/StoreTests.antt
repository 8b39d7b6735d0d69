-- ===== src/Pastebin/StoreTests.antt =====
-- Runs of the repositories of the pastebin (pastebin-service/src/infrastructure).
use hicho.Cache.{in_memory, InMemoryCache}
use hicho.Cache.Lawful.{in_memory-Lawful}
use hicho.Pastebin.Service.{Readings, start}
use hicho.Pastebin.Service.Snapshot.{JsonCrate}
use hicho.Pastebin.System.OneShot.{Task, served}
use hicho.Pastebin.System.OneShot.Turns.{Turn, fetch_step, run_turns}
use hicho.Pastebin.System.Burning.{World, with_cache}
use hicho.Pastebin.Sqlite.{values}
use hicho.Pastebin.Sqlite.Burn.{served-le-one_sqlite}
use hicho.Common.{◌≤◌, ◌≡◌, refl, true, none, some, List, [], ◌∷◌, Bytes, bytes_eq, arith, length}
use hicho.Common.Int.{pos, ◌+ℤ◌}
use hicho.Common.Map.{lookup}
use hicho.Common.Map
use hicho.Pastebin.Sqlite
use hicho.Common.Text.{bytes}
use hicho.Sqlx.{Value, Shows}
use hicho.Sqlx.Model.{
  execute_kind, fetch_kind, Database, database, rows, kind, takes, zip, Reads_lem,
}
use hicho.Sqlx.Model.Outcomes.{IsDistinct}
use hicho.Sqlx.Model.Laws.{database-IsTable, take_law}
use hicho.Pastebin.Domain.PasteId.{from_trusted}
use hicho.Pastebin.Domain.Content
use hicho.Pastebin.Domain.Paste.{Paste}
use hicho.Pastebin.Contract.{Store}
use hicho.Pastebin.Contract.Runs.{AllFit, Agree}
use hicho.Pastebin.Contract.{Call, insert, take, increment_views_by}
use hicho.Pastebin.Memory
use hicho.Pastebin.Memory.Refines
use hicho.Pastebin.Memory.Refines.{run-memory_pastes}
use hicho.Pastebin.Sqlite.{statements, take_sql, repository}
use hicho.Pastebin.Sqlite.Refines.{Represents, StatementFails, run-sqlite_pastes}

columns_shown :
    (vs : List Value)
    → length vs ≡ length statements.columns
    → Shows (database statements take_sql) statements.columns vs (zip statements.columns vs)
unfolding lookup bytes_eq
columns_shown (a ∷ b ∷ c ∷ d ∷ e ∷ f ∷ g ∷ []) h =
    let row = zip statements.columns (a ∷ b ∷ c ∷ d ∷ e ∷ f ∷ g ∷ []) in
    let reads = λ (name : Bytes) (v : Value). Reads_lem statements take_sql name v row in
    (
      reads (bytes "id") a refl,
      (
        reads (bytes "content") b refl,
        (
          reads (bytes "syntax") c refl,
          (
            reads (bytes "created_at") d refl,
            (
              reads (bytes "expires_at") e refl,
              (reads (bytes "one_shot") f refl, (reads (bytes "views") g refl, tt)),
            ),
          ),
        ),
      ),
    )
columns_shown _ h = absurd (omega arith)

statements-IsDistinct : IsDistinct statements take_sql
unfolding kind bytes_eq
statements-IsDistinct = record {
  inserts_lem = refl;
  selects_lem = refl;
  adds_lem = refl;
  deletes_lem = refl;
  pings_lem = refl;
  shows = columns_shown;
}

takes_lem : kind statements take_sql take_sql ≡ takes
unfolding kind bytes_eq
takes_lem = refl

abbrev paste : Paste
paste = record {
  id = from_trusted (bytes "abc");
  content = Content.from_trusted (bytes "hello");
  syntax = none;
  created_at = pos 0;
  expires_at = none;
  one_shot = true;
  views = pos 0;
}

abbrev empty : Store
empty k = none

-- Insert twice, count, take twice.
abbrev calls : List Call
calls =
    insert paste
    ∷ insert paste
    ∷ increment_views_by (from_trusted (bytes "abc")) (pos 2)
    ∷ take (from_trusted (bytes "abc"))
    ∷ take (from_trusted (bytes "abc"))
    ∷ []

abbrev new_database : Database
new_database = record { table = []; reachable = true }

sqlite_fits : AllFit (repository (database statements take_sql)) calls new_database empty
unfolding Sqlite.insert Sqlite.increment_views_by Sqlite.take execute_kind fetch_kind kind rows
    lookup Map.insert bytes_eq ◌+ℤ◌
sqlite_fits = (tt, (tt, ((omega arith, omega arith), (tt, (tt, tt)))))

memory_fits : AllFit Memory.repository calls (some []) empty
unfolding Memory.dispatch lookup Map.insert bytes_eq ◌+ℤ◌
memory_fits = (tt, (tt, ((omega arith, omega arith), (tt, (tt, tt)))))

run-sqlite_pastes_example :
    Agree
      (Represents (rows statements take_sql))
      (StatementFails (database statements take_sql))
      (repository (database statements take_sql))
      calls
      new_database
      empty
unfolding lookup rows
run-sqlite_pastes_example =
    run-sqlite_pastes (database statements take_sql) (rows statements take_sql)
      (database-IsTable statements take_sql statements-IsDistinct)
      (take_law statements take_sql statements-IsDistinct takes_lem) calls new_database empty
      (λ k. refl) sqlite_fits

run-memory_pastes_example :
    Agree Memory.Refines.Represents Memory.Refines.HasStopped Memory.repository calls
      (some [])
      empty
unfolding lookup
run-memory_pastes_example = run-memory_pastes calls (some []) empty (λ k. refl) memory_fits

-- A JSON crate that writes nothing.
abbrev silent_json : JsonCrate
silent_json = record { to_string = λ c. none; from_str = λ text. none }

-- The paste stands in the database, and the cache is empty.
abbrev world : World Database InMemoryCache
world = record {
  store = record { table = (bytes "abc", values paste) ∷ []; reachable = true };
  cached = some [];
}

abbrev at_ten : Readings
at_ten = record { cached_at = some 10; stored_at = some 10; filled_at = some 10 }

abbrev tasks : List Task
tasks =
    record { id = bytes "abc"; readings = at_ten; phase = start }
    ∷ record { id = bytes "abc"; readings = at_ten; phase = start }
    ∷ []

-- Two fetches that interleave.
abbrev turns : List Turn
turns = fetch_step 0 ∷ fetch_step 1 ∷ fetch_step 0 ∷ fetch_step 1 ∷ fetch_step 1 ∷ fetch_step 0 ∷ []

served-le-one_sqlite_example :
    served
      (bytes "abc")
      (run_turns silent_json
        (with_cache (repository (database statements take_sql)) in_memory)
        turns
        (tasks, world)).0
    ≤ 1
unfolding lookup bytes_eq rows
served-le-one_sqlite_example =
    served-le-one_sqlite in_memory-Lawful silent_json (database statements take_sql)
      (rows statements take_sql) (database-IsTable statements take_sql statements-IsDistinct)
      (take_law statements take_sql statements-IsDistinct takes_lem) (bytes "abc") turns tasks world
      (refl, (refl, tt)) refl refl
