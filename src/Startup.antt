-- ===== src/Startup.antt =====
-- The composition root: `SqliteLinkRepository::connect` and `build_cache` (main.rs and
-- infrastructure/sqlite.rs of url-shortener/src; pastebin-service/src has the same code), and in the
-- children the wiring of each service.
pub mod Links
pub mod Pastes
mod Tests
use hicho.Common.{
  ℕ, ◌≡◌, ◌≢◌, ◌⊎◌, inl, inr, refl, Option-cases, arith, Bool, true, Option, none, some, [], ◌∷◌,
  Bytes, Result, ok, err, Action, pure, ◌>>=◌, ◌>>◌, lift_or,
}
use hicho.Common.Text.{bytes}
use hicho.Cache.{Cache, no_op}
use hicho.Config.{Env}

-- `SqliteConnectOptions`, as far as the services set it
pub record ConnectOptions : Type 0 where
  pub database : Bytes
  pub create_if_missing : Bool
  pub wal : Bool
  pub synchronous_normal : Bool
  pub busy_timeout_secs : ℕ

-- What `connect` calls of sqlx, on the state `O` outside the process; an error is its text.
pub record PoolCrate (O Pool : Type 0) : Type 0 where
  pub from_str : Bytes → Result Bytes ConnectOptions
  pub connect_with : ℕ → ConnectOptions → Action O Bytes Pool
  pub migrate : Pool → Action O Bytes (Unit {0})

-- `connect`
unfoldable pub connect : {O Pool : Type 0} → PoolCrate O Pool → Bytes → ℕ → Action O Bytes Pool
connect crate url max_connections = do
  parsed ← lift_or (crate.from_str url) (λ e. e)
  pool ← crate.connect_with max_connections (record parsed {
    create_if_missing = true;
    wal = true;
    synchronous_normal = true;
    busy_timeout_secs = 5;
  })
  crate.migrate pool
  pure pool

-- `build_cache`; `redis` is `RedisCache::connect`, with `none` for a failure.
unfoldable pub build_cache : {W : Type 0} → Env → (Bytes → Option (Cache W)) → Cache W
build_cache env redis = elim (env (bytes "REDIS_URL")) [
  | none ↦ no_op
  | some url ↦ elim url [
    | [] ↦ no_op
    | c ∷ cs ↦ elim (redis (c ∷ cs)) [ none ↦ no_op | some cache ↦ cache ]
  ]
]

-- What `build_cache` gives: no cache, or the one that `REDIS_URL` names, where that is set and not
-- empty, and the connection succeeds.
build_cache-cases :
    {W : Type 0} (env : Env) (redis : Bytes → Option (Cache W))
    → (build_cache env redis ≡ no_op)
      ⊎ ((url : Bytes) × (url ≢ [])
          × (env (bytes "REDIS_URL") ≡ some url)
          × (redis url ≡ some (build_cache env redis)))
unfolding build_cache
build_cache-cases env redis = elim (Option-cases (env (bytes "REDIS_URL"))) [
  | inl unset ↦ inl (ground arith)
  | inr (url, set) ↦ from_url url set
]
  where
    from_url :
        (url : Bytes)
        → env (bytes "REDIS_URL") ≡ some url
        → (build_cache env redis ≡ no_op)
          ⊎ ((url : Bytes) × (url ≢ [])
              × (env (bytes "REDIS_URL") ≡ some url)
              × (redis url ≡ some (build_cache env redis)))
    from_url [] set = inl (ground arith)
    from_url (c ∷ cs) set = elim (Option-cases (redis (c ∷ cs))) [
      | inl down ↦ inl (ground arith)
      | inr (cache, up) ↦ inr (c ∷ cs, λ e. absurd (ground arith), set, ground arith)
    ]
