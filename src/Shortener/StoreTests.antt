-- ===== src/Shortener/StoreTests.antt =====
-- Runs of the repositories of the URL shortener (url-shortener/src/infrastructure).
use hicho.Common.{Bool-cases, inl, inr}
use hicho.Cache.{in_memory, InMemoryCache, send}
use hicho.Cache.Lawful.{in_memory-Lawful}
use hicho.Common.Text.{all, is_ascii_alphanumeric}
use hicho.Clock.{now_unix}
use hicho.Shortener.Domain.Link.{is_expired}
use hicho.Shortener.Domain.ShortCode
use hicho.Shortener.Service.{resolve, resolve_uncached, cache_ttl_secs}
use hicho.Shortener.System.Backed.{World, with_cache}
use hicho.Shortener.System.Backed.Reach.{Reach, here, next, resolve_call}
use hicho.Shortener.Sqlite.{values, to_link}
use hicho.Shortener.Sqlite.Targets.{HasTargets, target_in}
use hicho.Shortener.Sqlite.Redirects.{resolve_serves_stored_sqlite}
use hicho.Common.{◌≡◌, refl, ℕ, true, none, some, List, [], ◌∷◌, Bytes, bytes_eq, arith, length}
use hicho.Common.Int.{pos, ◌+ℤ◌}
use hicho.Common.Map.{lookup}
use hicho.Common.Map
use hicho.Common.Text.{bytes}
use hicho.Sqlx.{Value, Shows}
use hicho.Sqlx.Model.{execute_kind, fetch_kind, Database, database, rows, kind, zip, Reads_lem}
use hicho.Sqlx.Model.Outcomes.{IsDistinct}
use hicho.Sqlx.Model.Laws.{database-IsTable}
use hicho.Shortener.Domain.ShortCode.{from_trusted}
use hicho.Shortener.Domain.TargetUrl
use hicho.Shortener.Domain.Link.{Link}
use hicho.Shortener.Contract.{Store}
use hicho.Shortener.Contract.Runs.{AllFit, Agree}
use hicho.Shortener.Contract.{Call, insert, get, delete, increment_hits_by}
use hicho.Cache.{no_op}
use hicho.Shortener.Domain.TargetUrl.{UrlCrate}
use hicho.Shortener.Hits.{immediate}
use hicho.Shortener.Service.{LinkService, create}
use hicho.Shortener.Service.OverStore.{Serves, create-Serves}
use hicho.Shortener.Sqlite
use hicho.Shortener.Sqlite.{statements, repository}
use hicho.Shortener.Sqlite.Refines.{sqlite_refines, Represents, StatementFails, run-sqlite_links}

-- The service has no statement that returns what it deletes.
abbrev no_sql : Bytes
no_sql = []

columns_shown :
    (vs : List Value)
    → length vs ≡ length statements.columns
    → Shows (database statements no_sql) statements.columns vs (zip statements.columns vs)
unfolding lookup bytes_eq
columns_shown (a ∷ b ∷ c ∷ d ∷ e ∷ []) h =
    let row = zip statements.columns (a ∷ b ∷ c ∷ d ∷ e ∷ []) in
    let reads = λ (name : Bytes) (v : Value). Reads_lem statements no_sql name v row in
    (
      reads (bytes "code") a refl,
      (
        reads (bytes "target") b refl,
        (
          reads (bytes "created_at") c refl,
          (reads (bytes "hits") d refl, (reads (bytes "expires_at") e refl, tt)),
        ),
      ),
    )
columns_shown _ h = absurd (omega arith)

statements-IsDistinct : IsDistinct statements no_sql
unfolding kind bytes_eq
statements-IsDistinct = record {
  inserts_lem = refl;
  selects_lem = refl;
  adds_lem = refl;
  deletes_lem = refl;
  pings_lem = refl;
  shows = columns_shown;
}

abbrev link : Link
link = record {
  code = from_trusted (bytes "abcd");
  target = TargetUrl.from_trusted (bytes "https://example.com/");
  created_at = pos 0;
  hits = pos 0;
  expires_at = none;
}

abbrev empty : Store
empty k = none

-- Insert twice, count, read, delete twice.
abbrev calls : List Call
calls =
    insert link
    ∷ insert link
    ∷ increment_hits_by (from_trusted (bytes "abcd")) (pos 2)
    ∷ get (from_trusted (bytes "abcd"))
    ∷ delete (from_trusted (bytes "abcd"))
    ∷ delete (from_trusted (bytes "abcd"))
    ∷ []

abbrev new_database : Database
new_database = record { table = []; reachable = true }

sqlite_fits : AllFit (repository (database statements no_sql)) calls new_database empty
unfolding Sqlite.insert Sqlite.increment_hits_by Sqlite.get execute_kind fetch_kind kind rows lookup
    Map.insert bytes_eq ◌+ℤ◌
sqlite_fits = (tt, (tt, ((omega arith, omega arith), (tt, (tt, (tt, tt))))))

run-sqlite_links_example :
    Agree
      (Represents (rows statements no_sql))
      (StatementFails (database statements no_sql))
      (repository (database statements no_sql))
      calls
      new_database
      empty
unfolding lookup rows
run-sqlite_links_example =
    run-sqlite_links (database statements no_sql) (rows statements no_sql)
      (database-IsTable statements no_sql statements-IsDistinct) calls new_database empty
      (λ k. refl) sqlite_fits

-- A URL crate that takes each string for an HTTP URL of one host.
abbrev one_host : UrlCrate
one_host = record {
  Url = Bytes;
  parse_url = some;
  scheme = λ u. bytes "http";
  has_host = λ u. true;
  host_str = λ u. some (bytes "example.com");
}

abbrev over_sqlite : LinkService Database
over_sqlite = record {
  repo = repository (database statements no_sql);
  blocked_hosts = bytes "evil.com" ∷ [];
  cache = no_op;
  hits = immediate (repository (database statements no_sql));
}

abbrev zeros : ℕ → ℕ → ℕ
zeros i j = 0

create-Serves_example :
    Serves one_host
      (Represents (rows statements no_sql))
      (StatementFails (database statements no_sql))
      (bytes "evil.com" ∷ [])
      (bytes "http://example.com/")
      (some (bytes "abcd"))
      none
      (some 10)
      zeros
      empty
      (create one_host over_sqlite
        (bytes "http://example.com/")
        (some (bytes "abcd"))
        none
        (some 10)
        zeros
        new_database)
unfolding lookup rows
create-Serves_example =
    create-Serves one_host (Represents (rows statements no_sql))
      (StatementFails (database statements no_sql)) over_sqlite
      (sqlite_refines (database statements no_sql) (rows statements no_sql)
        (database-IsTable statements no_sql statements-IsDistinct))
      (bytes "http://example.com/") (some (bytes "abcd")) none (some 10) zeros new_database empty
      (λ k. refl)

-- The link stands in the database, and the cache is empty.
abbrev world : World Database InMemoryCache
world = record {
  store = record { table = (bytes "abcd", values link) ∷ []; reachable = true };
  cached = some [];
}

world-HasTargets : HasTargets (rows statements no_sql) world.store
unfolding rows lookup
world-HasTargets k = elim (Bool-cases (bytes_eq (bytes "abcd") k)) [
  | inl same ↦ rw same (bytes "https://example.com/", refl)
  | inr other ↦ rw other tt
]

world-agrees :
    (k t : Bytes)
    → in_memory-Lawful.holds world.cached k ≡ some t
    → target_in (rows statements no_sql) k world.store ≡ some t
unfolding lookup
world-agrees k t h = cc

abbrev stored_links : LinkService (World Database InMemoryCache)
stored_links = with_cache (repository (database statements no_sql)) [] in_memory

-- a redirect, which fills the cache
abbrev resolved : World Database InMemoryCache
resolved = (resolve stored_links (bytes "abcd") (some 10) (some 10) world).1

resolved-Reach :
    Reach (repository (database statements no_sql)) in_memory-Lawful [] one_host world resolved
resolved-Reach = next here (resolve_call world (bytes "abcd") (some 10) (some 10))

resolve_serves_stored_sqlite_example :
    target_in (rows statements no_sql) (bytes "abcd") resolved.store
    ≡ some (bytes "https://example.com/")
unfolding resolve resolve_uncached Sqlite.get Sqlite.increment_hits_by execute_kind fetch_kind kind
    rows lookup Map.insert bytes_eq send is_expired all is_ascii_alphanumeric ShortCode.parse
    now_unix cache_ttl_secs to_link ◌+ℤ◌
resolve_serves_stored_sqlite_example =
    resolve_serves_stored_sqlite in_memory-Lawful (database statements no_sql)
      (rows statements no_sql) (database-IsTable statements no_sql statements-IsDistinct) []
      one_host (bytes "abcd") (some 20) (some 20)
      (TargetUrl.from_trusted (bytes "https://example.com/")) world-HasTargets world-agrees
      resolved-Reach refl
