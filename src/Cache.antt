-- ===== src/Cache.antt =====
-- The read cache and its three implementations (url-shortener/src/cache.rs; the code of
-- pastebin-service/src/cache.rs is the same).
pub mod Lawful
use hicho.Common.{
  ℕ, ◌<◌, Option, none, some, Bool, true, false, ltb, if◌then◌else◌, Bytes, bytes_key, ◌≡◌, arith,
  Eq, bytes_eq_iff,
}
use hicho.Common.Map.{Map, lookup, insert, remove, lookup-insert, lookup-remove}

-- `trait Cache`
pub record Cache (W : Type 0) : Type 0 where
  pub get : Bytes → W → Option Bytes × W
  pub set : Bytes → Bytes → ℕ → W → W
  pub delete : Bytes → W → W

-- `NoOpCache`
abbrev pub no_op : {W : Type 0} → Cache W
no_op = record { get = λ key w. (none, w); set = λ key value ttl w. w; delete = λ key w. w }

abbrev pub Entries : Type 0
Entries = Map Bytes Bytes

pub data CacheCmd : Type 0 where
  get : Bytes → CacheCmd
  set : Bytes → Bytes → CacheCmd
  delete : Bytes → CacheCmd

-- One round of the cache actor `run`, with the reply of a `get`.
unfoldable pub step : CacheCmd → Entries → Option Bytes × Entries
step (CacheCmd.get key) entries = (lookup key entries, entries)
step (CacheCmd.set key value) entries = (none, insert key value entries)
step (CacheCmd.delete key) entries = (none, remove key entries)

-- `none`: the actor has stopped.
abbrev pub InMemoryCache : Type 0
InMemoryCache = Option Entries

unfoldable pub send : CacheCmd → InMemoryCache → Option Bytes × InMemoryCache
unfolding step
send cmd none = (none, none)
send cmd (some entries) = let (reply, entries') = step cmd entries in (reply, some entries')

-- `impl Cache for InMemoryCache`, which ignores the TTL
abbrev pub in_memory : Cache InMemoryCache
in_memory = record {
  get = λ key. send (CacheCmd.get key);
  set = λ key value ttl c. (send (CacheCmd.set key value) c).1;
  delete = λ key c. (send (CacheCmd.delete key) c).1;
}

-- The commands of the crate `redis` that the cache calls; `none` is an error.
pub record RedisCrate (W : Type 0) : Type 0 where
  pub get_key : Bytes → W → Option (Option Bytes) × W
  pub set_key : Bytes → Bytes → W → Option (Unit {0}) × W
  pub set_ex : Bytes → Bytes → ℕ → W → Option (Unit {0}) × W
  pub del_key : Bytes → W → Option (Unit {0}) × W

module _ {W : Type 0} (r : RedisCrate W) where
  open r use {get_key, set_key, set_ex, del_key}

  abbrev redis_get : Bytes → W → Option Bytes × W
  redis_get key w =
      let (reply, w') = get_key key w in (elim reply [ none ↦ none | some value ↦ value ], w')

  abbrev redis_set : Bytes → Bytes → ℕ → W → W
  redis_set key value ttl_secs w =
      if ltb 0 ttl_secs then (set_ex key value ttl_secs w).1 else (set_key key value w).1

  abbrev redis_delete : Bytes → W → W
  redis_delete key w = (del_key key w).1

  -- `impl Cache for RedisCache`
  abbrev pub redis : Cache W
  redis = record { get = redis_get; set = redis_set; delete = redis_delete }
