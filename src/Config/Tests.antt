-- ===== src/Config/Tests.antt =====
-- Runs of the configuration (config.rs of the three services).
use hicho.Common.{
  ◌≡◌, refl, true, false, Option, some, [], ◌∷◌, Bytes, bytes_key, bytes_eq, ok, err, arith,
}
use hicho.Common.Map.{lookup}
use hicho.Common.Text.{bytes}
use hicho.Tcp.Strings.Decimal.{parse_usize, digits_from, show}
use hicho.Config.{Env, invalid, show_bool, read, env_or}
use hicho.Config.Pastebin
use hicho.Config.Pastebin.{from_env-Sets_paste}
use hicho.Config.TcpServer
use hicho.Config.TcpServer.{from_env_rejects, is_accepted}

-- Addresses as their text.
abbrev address : Bytes → Option Bytes
address text = some text

abbrev paste_config : Pastebin.Config Bytes
paste_config = record {
  bind_addr = bytes "0.0.0.0:80";
  max_body_bytes = 2000;
  database_url = bytes "sqlite://p.db";
  database_max_connections = 7;
  public_base_url = bytes "https://p.example";
  request_timeout_secs = 3;
  max_concurrent_requests = 9;
  rate_limit_rps = 4;
  rate_limit_burst = 8;
  trust_proxy = true;
}

abbrev paste_env : Env
paste_env key = lookup key (
    (bytes "APP_BIND_ADDR", bytes "0.0.0.0:80")
    ∷ (bytes "MAX_BODY_BYTES", show 2000)
    ∷ (bytes "DATABASE_URL", bytes "sqlite://p.db")
    ∷ (bytes "DATABASE_MAX_CONNECTIONS", show 7)
    ∷ (bytes "PUBLIC_BASE_URL", bytes "https://p.example")
    ∷ (bytes "REQUEST_TIMEOUT_SECS", show 3)
    ∷ (bytes "MAX_CONCURRENT_REQUESTS", show 9)
    ∷ (bytes "RATE_LIMIT_RPS", show 4)
    ∷ (bytes "RATE_LIMIT_BURST", show 8)
    ∷ (bytes "TRUST_PROXY", show_bool true)
    ∷ (bytes "BLOCKED_HOSTS", bytes " Evil.com ,, Bad.org")
    ∷ [])

paste_env-Sets : Pastebin.Sets (λ a. a) paste_env paste_config
unfolding lookup bytes_eq
paste_env-Sets = record {
  bind_addr_set = refl;
  max_body_bytes_set = refl;
  database_url_set = refl;
  database_max_connections_set = refl;
  public_base_url_set = refl;
  request_timeout_secs_set = refl;
  max_concurrent_requests_set = refl;
  rate_limit_rps_set = refl;
  rate_limit_burst_set = refl;
  trust_proxy_set = refl;
}

from_env-Sets_paste_example : (Pastebin.from_env address paste_env).0 ≡ ok paste_config
from_env-Sets_paste_example =
    from_env-Sets_paste address (λ a. a) (λ a. refl) paste_env paste_config paste_env-Sets
      (omega arith)

-- A body limit that is no number.
abbrev bad_env : Env
bad_env key = lookup key ((bytes "MAX_BODY_BYTES", bytes "64k") ∷ [])

bad_env-err : (TcpServer.from_env address bad_env).0 ≡ err (invalid (bytes "MAX_BODY_BYTES"))
unfolding TcpServer.from_env lookup bytes_eq read env_or parse_usize digits_from
bad_env-err = refl

from_env_rejects_example :
    (value : Bytes) × (bad_env (bytes "MAX_BODY_BYTES") ≡ some value)
    × (is_accepted address (bytes "MAX_BODY_BYTES") value ≡ false)
from_env_rejects_example =
    from_env_rejects address (bytes "127.0.0.1:8100") bad_env (bytes "MAX_BODY_BYTES") refl
      bad_env-err
