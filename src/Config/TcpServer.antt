-- ===== src/Config/TcpServer.antt =====
-- `Config` of the TCP server (tcp-actor-server/src/config.rs).
use hicho.Common.{
  ℕ, ◌≡◌, ◌⊎◌, inl, inr, refl, Option, none, some, Bytes, Bool, true, false, ◌||◌, if◌then◌else◌,
  bytes_eq, err, Action, pure, ◌>>=◌, arith, Result-cases,
}
use hicho.Common.Text.{bytes}
use hicho.Tcp.Strings.Decimal.{parse_usize, digits_from}
use hicho.Config.{Env, ConfigError, invalid, setting, read, Refused, read-Refused}

-- The durations are given in seconds.
pub record Config (SocketAddr : Type 0) : Type 0 where
  pub bind_addr : SocketAddr
  pub max_connections : ℕ
  pub max_body_bytes : ℕ
  pub request_timeout : ℕ
  pub shutdown_grace : ℕ

-- `Config::from_env`; the parser of addresses is `SocketAddr::from_str`.
unfoldable pub from_env :
    {SocketAddr : Type 0} → (Bytes → Option SocketAddr) → Action Env ConfigError (Config SocketAddr)
from_env parse_addr = do
  bind_addr ← setting (bytes "APP_BIND_ADDR") (bytes "127.0.0.1:8100") parse_addr
  max_connections ← setting (bytes "MAX_CONNECTIONS") (bytes "10000") parse_usize
  max_body_bytes ← setting (bytes "MAX_BODY_BYTES") (bytes "65536") parse_usize
  request_timeout_secs ← setting (bytes "REQUEST_TIMEOUT_SECS") (bytes "30") parse_usize
  shutdown_grace_secs ← setting (bytes "SHUTDOWN_GRACE_SECS") (bytes "10") parse_usize
  pure (record {
    bind_addr = bind_addr;
    max_connections = max_connections;
    max_body_bytes = max_body_bytes;
    request_timeout = request_timeout_secs;
    shutdown_grace = shutdown_grace_secs;
  })

abbrev is_some : {A : Type 0} → Option A → Bool
is_some none = false
is_some (some a) = true

-- What `from_env` accepts of a variable.
abbrev pub is_accepted : {SocketAddr : Type 0} → (Bytes → Option SocketAddr) → Bytes → Bytes → Bool
is_accepted parse_addr key value =
    if bytes_eq key (bytes "APP_BIND_ADDR")
    then is_some (parse_addr value)
    else if bytes_eq key (bytes "MAX_CONNECTIONS")
        || bytes_eq key (bytes "MAX_BODY_BYTES")
        || bytes_eq key (bytes "REQUEST_TIMEOUT_SECS")
        || bytes_eq key (bytes "SHUTDOWN_GRACE_SECS")
    then is_some (parse_usize value)
    else true

from_env_error_lem :
    {SocketAddr : Type 0} (parse_addr : Bytes → Option SocketAddr) (default : SocketAddr)
    (env : Env) (key : Bytes)
    → parse_addr (bytes "127.0.0.1:8100") ≡ some default
    → (from_env parse_addr env).0 ≡ err (invalid key)
    → Refused (bytes "APP_BIND_ADDR") parse_addr env key
      ⊎ Refused (bytes "MAX_CONNECTIONS") parse_usize env key
      ⊎ Refused (bytes "MAX_BODY_BYTES") parse_usize env key
      ⊎ Refused (bytes "REQUEST_TIMEOUT_SECS") parse_usize env key
      ⊎ Refused (bytes "SHUTDOWN_GRACE_SECS") parse_usize env key
unfolding from_env parse_usize digits_from
from_env_error_lem parse_addr default env key d h =
    elim (Result-cases (read (bytes "APP_BIND_ADDR") (bytes "127.0.0.1:8100") parse_addr env)) [
      | inr (x0, bad) ↦ inl (
          read-Refused (bytes "APP_BIND_ADDR") (bytes "127.0.0.1:8100") parse_addr default env key d
            (ground arith))
      | inl (a0, good0) ↦
          elim (Result-cases (read (bytes "MAX_CONNECTIONS") (bytes "10000") parse_usize env)) [
            | inr (x1, bad) ↦ inr (
                inl (
                  read-Refused (bytes "MAX_CONNECTIONS") (bytes "10000") parse_usize 10000 env key
                    refl (ground arith)))
            | inl (a1, good1) ↦
                elim (Result-cases
                  (read (bytes "MAX_BODY_BYTES") (bytes "65536") parse_usize env)) [
                    | inr (x2, bad) ↦ inr (
                        inr (
                          inl (
                            read-Refused (bytes "MAX_BODY_BYTES") (bytes "65536") parse_usize 65536
                              env key refl (ground arith))))
                    | inl (a2, good2) ↦
                        elim (Result-cases
                          (read (bytes "REQUEST_TIMEOUT_SECS") (bytes "30") parse_usize env)) [
                            | inr (x3, bad) ↦ inr (
                                inr (
                                  inr (
                                    inl (
                                      read-Refused (bytes "REQUEST_TIMEOUT_SECS") (bytes "30")
                                        parse_usize 30 env key refl (ground arith)))))
                            | inl (a3, good3) ↦
                                elim (Result-cases (
                                  read (bytes "SHUTDOWN_GRACE_SECS") (bytes "10") parse_usize
                                    env)) [
                                      | inr (x4, bad) ↦ inr (
                                          inr (
                                            inr (
                                              inr (
                                                read-Refused (bytes "SHUTDOWN_GRACE_SECS")
                                                  (bytes "10") parse_usize 10 env key refl
                                                  (ground arith)))))
                                      | inl (a4, good4) ↦ absurd (ground arith)
                                    ]
                          ]
                  ]
          ]
    ]

-- `from_env` fails only for a value that is present and does not parse: where it reports a variable
-- as invalid, that variable is set, to a text that its field does not accept. (The address that is
-- the default has to be one that the parser accepts.)
pub from_env_rejects :
    {SocketAddr : Type 0} (parse_addr : Bytes → Option SocketAddr) (default : SocketAddr)
    (env : Env) (key : Bytes)
    → parse_addr (bytes "127.0.0.1:8100") ≡ some default
    → (from_env parse_addr env).0 ≡ err (invalid key)
    → (value : Bytes) × (env key ≡ some value) × (is_accepted parse_addr key value ≡ false)
unfolding Refused bytes_eq
from_env_rejects parse_addr default env key d h =
    elim (from_env_error_lem parse_addr default env key d h) [
      | inl (e, (v, set, bad)) ↦ (v, rw e set, rw (e, bad) refl)
      | inr (inl (e, (v, set, bad))) ↦ (v, rw e set, rw (e, bad) refl)
      | inr (inr (inl (e, (v, set, bad)))) ↦ (v, rw e set, rw (e, bad) refl)
      | inr (inr (inr (inl (e, (v, set, bad))))) ↦ (v, rw e set, rw (e, bad) refl)
      | inr (inr (inr (inr (e, (v, set, bad))))) ↦ (v, rw e set, rw (e, bad) refl)
    ]
