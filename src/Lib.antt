-- ===== src/Lib.antt =====
-- Verification of three network services: a URL shortener, a pastebin and a small TCP/HTTP server.
--
-- The parts. The two services have the same layers: a domain (validated values and a repository
-- port), use cases (LinkService and PasteService, over a repository, a read cache and a recorder of
-- counts), and adapters. Each in-memory adapter is an actor: one task owns a map and answers the
-- commands on its channel. The TCP server has an accept loop bounded by permits, one task for each
-- connection, a registry of live connections (an actor) and a hand-written HTTP parser.
--
-- Where each part is modelled:
--   Common      results and actions (a state goes in and comes out with the answer), i64 with its
--               wrap-around, association lists for HashMap, bytes for str
--   Clock       now_unix, is_expired, the expiry of create and cache_ttl_secs
--               (url-shortener/src/application/mod.rs, pastebin-service/src/application/mod.rs)
--   Codes       generate_code, generate_id (same files)
--   Cache       url-shortener/src/cache.rs; Cache.Lawful says what a service may rely on
--   Batcher     the background task of url-shortener/src/hits.rs and pastebin-service/src/views.rs
--   RateLimit   url-shortener/src/rate_limit.rs, and the same code of pastebin-service
--   Sqlx        the interface of the crate sqlx and what SQLite documents of the statements that the
--               repositories execute; Sqlx.Model is a database for the tests
--   Shortener   url-shortener/src: Domain (domain/mod.rs), Memory (infrastructure/memory.rs), Sqlite
--               (infrastructure/sqlite.rs), Hits (hits.rs), Service (application/mod.rs), System (the
--               service over its adapters), Contract (the promise of the port LinkRepository)
--   Pastebin    pastebin-service/src: Domain, Memory, Sqlite, Views, Service, System and Contract,
--               likewise
--   Api         url-shortener/src: error.rs, api/mod.rs, metrics.rs (Links has the handlers); Pastes is
--               api/mod.rs and metrics.rs of pastebin-service/src
--   Tcp         tcp-actor-server/src: Http with Strings (http.rs), Registry (registry.rs), Metrics
--               (metrics.rs), Server (server.rs)
--   Config      config.rs of the three programs
--   Startup     main.rs and lib.rs of url-shortener/src and pastebin-service/src: connect, build_cache,
--               the constructors of the services and build_app; the flush at the end of main is in
--               Batcher.Shutdown
-- The functions keep their names: `Shortener.Service.resolve` is LinkService::resolve.
--
-- How state is modelled. A call is a function of the world that it reads and writes. The repository,
-- the cache and the recorder of a service act on one world, since the recorder writes to the
-- repository. A stopped actor is `none`. The clock's readings and the random indices are arguments.
-- The services over SQLite are `Shortener.System.Backed` and `Pastebin.System.Burning`, which take any
-- repository with the laws that they state. PasteService::fetch is cut into steps, one for each call
-- of the repository, so that fetches may interleave. A connection of the TCP server is a step function
-- on its state; what its socket gives and when is a list of arrivals. Time passes in reads only; a
-- write ends well, fails, or never ends, since `write_all` has no time-out. The accept loop takes a
-- permit in one turn and a peer in another, and the tasks of the connections take turns in between.
-- Sums that overflow wrap, and `debug_assert!` is left out, as in a release build.
--
-- Bounds. The recursion of `create` is on its five attempts. A connection runs on fuel; twice the
-- bytes and reads that are due, and two, is enough. Decimal numbers have at most 20 digits, enough
-- for 64 bits. The SQLite repositories are compared with their reference while a counter stays within
-- 64 bits, since SQLite goes on in floating-point numbers beyond.
--
-- Parameters: the crates url, redis, serde_json and sqlx with the database behind it, what a cache may
-- forget (Lawful), the socket, the arithmetic of f64 (RateLimit.Float), the parsers of IP and socket
-- addresses, the environment.
-- Not modelled: the HTTP framework of the two services (JSON, the matching of paths, time-outs and the
-- limits on bodies and concurrency), binding, serving, signals and logging; the JavaScript client.
pub mod Common
pub mod Clock
pub mod Codes
pub mod Cache
pub mod Batcher
pub mod RateLimit
pub mod Sqlx
pub mod Shortener
pub mod Pastebin
pub mod Api
pub mod Tcp
pub mod Config
pub mod Startup
