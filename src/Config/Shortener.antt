-- ===== src/Config/Shortener.antt =====
-- `Config` of the URL shortener (url-shortener/src/config.rs).
pub mod Blocked
use hicho.Common.{
  ℕ, ◌≤◌, ◌≡◌, refl, Bool, Option, none, some, List, [], ◌∷◌, map, Bytes, bytes_key, bytes_eq, ok,
  Action, pure, ◌>>=◌, ◌>>◌, ap, arith,
}
use hicho.Common.Text.{bytes, to_ascii_lowercase}
use hicho.Tcp.Strings.{split, trim}
use hicho.Tcp.Strings.Decimal.{parse_usize, show, parse_usize-show}
use hicho.Config.{
  Env, ConfigError, setting, plain, parse_u32, parse_bool, show_bool, parse_u32-show,
  parse_bool-show, read_ok, env_or_set,
}

pub record Config (SocketAddr : Type 0) : Type 0 where
  pub bind_addr : SocketAddr
  pub max_body_bytes : ℕ
  pub database_url : Bytes
  pub database_max_connections : ℕ
  pub public_base_url : Bytes
  pub request_timeout_secs : ℕ
  pub max_concurrent_requests : ℕ
  pub blocked_hosts : List Bytes
  pub rate_limit_rps : ℕ
  pub rate_limit_burst : ℕ
  pub trust_proxy : Bool

-- `map(…).filter(…)` on the parts
abbrev pub normal_hosts : List Bytes → List Bytes
normal_hosts [] = []
normal_hosts (part ∷ parts) =
    let name = map to_ascii_lowercase (trim part) in
    elim name [ [] ↦ normal_hosts parts | c ∷ cs ↦ (c ∷ cs) ∷ normal_hosts parts ]

-- the hosts of `BLOCKED_HOSTS`
unfoldable pub parse_hosts : Bytes → List Bytes
parse_hosts text = normal_hosts (split b',' text)

-- `Config::from_env`; the parser of addresses is `SocketAddr::from_str`.
unfoldable pub from_env :
    {SocketAddr : Type 0} → (Bytes → Option SocketAddr) → Action Env ConfigError (Config SocketAddr)
from_env parse_addr = do
  bind_addr ← setting (bytes "APP_BIND_ADDR") (bytes "127.0.0.1:8080") parse_addr
  max_body_bytes ← setting (bytes "MAX_BODY_BYTES") (bytes "16384") parse_usize
  database_url ← plain (bytes "DATABASE_URL") (bytes "sqlite://links.db")
  max_connections ← setting (bytes "DATABASE_MAX_CONNECTIONS") (bytes "5") parse_u32
  public_base_url ← plain (bytes "PUBLIC_BASE_URL") (bytes "http://127.0.0.1:8080")
  request_timeout_secs ← setting (bytes "REQUEST_TIMEOUT_SECS") (bytes "10") parse_usize
  max_concurrent ← setting (bytes "MAX_CONCURRENT_REQUESTS") (bytes "1024") parse_usize
  hosts ← plain (bytes "BLOCKED_HOSTS") []
  rate_limit_rps ← setting (bytes "RATE_LIMIT_RPS") (bytes "0") parse_u32
  rate_limit_burst ← setting (bytes "RATE_LIMIT_BURST") (bytes "0") parse_u32
  trust_proxy ← setting (bytes "TRUST_PROXY") (bytes "false") parse_bool
  pure (record {
    bind_addr = bind_addr;
    max_body_bytes = max_body_bytes;
    database_url = database_url;
    database_max_connections = max_connections;
    public_base_url = public_base_url;
    request_timeout_secs = request_timeout_secs;
    max_concurrent_requests = max_concurrent;
    blocked_hosts = parse_hosts hosts;
    rate_limit_rps = rate_limit_rps;
    rate_limit_burst = rate_limit_burst;
    trust_proxy = trust_proxy;
  })

-- The values of the fields fit their types.
pub record IsInRange {SocketAddr : Type 0} (c : Config SocketAddr) : Type 0 where
  pub body_fits : c.max_body_bytes ≤ 18446744073709551615
  pub connections_fit : c.database_max_connections ≤ 4294967295
  pub timeout_fits : c.request_timeout_secs ≤ 18446744073709551615
  pub concurrent_fits : c.max_concurrent_requests ≤ 18446744073709551615
  pub rps_fits : c.rate_limit_rps ≤ 4294967295
  pub burst_fits : c.rate_limit_burst ≤ 4294967295

-- What the environment sets for each field: its text.
pub record Sets {SocketAddr : Type 0} (show_addr : SocketAddr → Bytes) (env : Env)
    (c : Config SocketAddr) : Type 0 where
  pub bind_addr_set : env (bytes "APP_BIND_ADDR") ≡ some (show_addr c.bind_addr)
  pub max_body_bytes_set : env (bytes "MAX_BODY_BYTES") ≡ some (show c.max_body_bytes)
  pub database_url_set : env (bytes "DATABASE_URL") ≡ some (c.database_url)
  pub database_max_connections_set :
      env (bytes "DATABASE_MAX_CONNECTIONS") ≡ some (show c.database_max_connections)
  pub public_base_url_set : env (bytes "PUBLIC_BASE_URL") ≡ some (c.public_base_url)
  pub request_timeout_secs_set :
      env (bytes "REQUEST_TIMEOUT_SECS") ≡ some (show c.request_timeout_secs)
  pub max_concurrent_requests_set :
      env (bytes "MAX_CONCURRENT_REQUESTS") ≡ some (show c.max_concurrent_requests)
  pub rate_limit_rps_set : env (bytes "RATE_LIMIT_RPS") ≡ some (show c.rate_limit_rps)
  pub rate_limit_burst_set : env (bytes "RATE_LIMIT_BURST") ≡ some (show c.rate_limit_burst)
  pub trust_proxy_set : env (bytes "TRUST_PROXY") ≡ some (show_bool c.trust_proxy)
  pub hosts_text : Bytes
  pub blocked_hosts_set : env (bytes "BLOCKED_HOSTS") ≡ some hosts_text
  pub blocked_hosts_listed : parse_hosts hosts_text ≡ c.blocked_hosts

from_env_lem :
    {SocketAddr : Type 0} (parse_addr : Bytes → Option SocketAddr) (show_addr : SocketAddr → Bytes)
    (reads : (a : SocketAddr) → parse_addr (show_addr a) ≡ some a) (env : Env)
    (c : Config SocketAddr)
    → Sets show_addr env c
    → IsInRange c
    → from_env parse_addr env ≡ (ok c, env)
unfolding from_env
from_env_lem parse_addr show_addr reads env c s h = ground (
  arith,
  read_ok (bytes "APP_BIND_ADDR") (bytes "127.0.0.1:8080") (show_addr c.bind_addr) parse_addr
      c.bind_addr env s.bind_addr_set (reads c.bind_addr),
  read_ok (bytes "MAX_BODY_BYTES") (bytes "16384") (show c.max_body_bytes) parse_usize
      c.max_body_bytes env s.max_body_bytes_set (parse_usize-show c.max_body_bytes h.body_fits),
  env_or_set (bytes "DATABASE_URL") (bytes "sqlite://links.db") (c.database_url) env
      s.database_url_set,
  read_ok (bytes "DATABASE_MAX_CONNECTIONS") (bytes "5") (show c.database_max_connections) parse_u32
      c.database_max_connections env s.database_max_connections_set
      (parse_u32-show c.database_max_connections h.connections_fit),
  env_or_set (bytes "PUBLIC_BASE_URL") (bytes "http://127.0.0.1:8080") (c.public_base_url) env
      s.public_base_url_set,
  read_ok (bytes "REQUEST_TIMEOUT_SECS") (bytes "10") (show c.request_timeout_secs) parse_usize
      c.request_timeout_secs env s.request_timeout_secs_set
      (parse_usize-show c.request_timeout_secs h.timeout_fits),
  read_ok (bytes "MAX_CONCURRENT_REQUESTS") (bytes "1024") (show c.max_concurrent_requests)
      parse_usize c.max_concurrent_requests env s.max_concurrent_requests_set
      (parse_usize-show c.max_concurrent_requests h.concurrent_fits),
  read_ok (bytes "RATE_LIMIT_RPS") (bytes "0") (show c.rate_limit_rps) parse_u32 c.rate_limit_rps
      env s.rate_limit_rps_set (parse_u32-show c.rate_limit_rps h.rps_fits),
  read_ok (bytes "RATE_LIMIT_BURST") (bytes "0") (show c.rate_limit_burst) parse_u32
      c.rate_limit_burst env s.rate_limit_burst_set
      (parse_u32-show c.rate_limit_burst h.burst_fits),
  read_ok (bytes "TRUST_PROXY") (bytes "false") (show_bool c.trust_proxy) parse_bool c.trust_proxy
      env s.trust_proxy_set (parse_bool-show c.trust_proxy),
  env_or_set (bytes "BLOCKED_HOSTS") [] s.hosts_text env s.blocked_hosts_set,
  s.blocked_hosts_listed,
)

-- Every configuration of the shortener can be set through the environment: where each variable holds
-- the text of its field, `BLOCKED_HOSTS` a text that lists the blocked hosts, and an address is read
-- back from its text, `from_env` gives exactly that configuration, at all values of the fields that
-- fit their types.
pub from_env-Sets_link :
    {SocketAddr : Type 0} (parse_addr : Bytes → Option SocketAddr) (show_addr : SocketAddr → Bytes)
    (reads : (a : SocketAddr) → parse_addr (show_addr a) ≡ some a) (env : Env)
    (c : Config SocketAddr)
    → Sets show_addr env c
    → IsInRange c
    → (from_env parse_addr env).0 ≡ ok c
from_env-Sets_link parse_addr show_addr reads env c s h =
    ap (λ o. o.0) (from_env_lem parse_addr show_addr reads env c s h)
