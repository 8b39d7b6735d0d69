-- ===== src/Config.antt =====
-- Configuration from the environment: `env_or`, `ConfigError` and the parsers that the three
-- `Config::from_env` share (config.rs of url-shortener/src, pastebin-service/src and
-- tcp-actor-server/src, which have the same code for them).
pub mod Shortener
pub mod Pastebin
pub mod TcpServer
mod Tests
use hicho.Common.{
  ℕ, ◌≤◌, ◌≡◌, refl, Bool, true, false, Option, none, some, Bytes, bytes_eq, Result, ok, err,
  Action, ◌>>=◌, if◌then◌else◌, leb, arith, ◌⊎◌, inl, inr, Option-cases, Result-cases, ◌>>=◌,
}
use hicho.Common.Text.{bytes}
use hicho.Tcp.Strings.Decimal.{parse_usize, show, parse_usize-show}

-- What `std::env::var` gives: the variables that are set, to valid Unicode.
abbrev pub Env : Type 0
Env = Bytes → Option Bytes

pub data ConfigError : Type 0 where
  invalid : Bytes → ConfigError

-- `env_or`
unfoldable pub env_or : Env → Bytes → Bytes → Bytes
env_or env key default = elim (env key) [ none ↦ default | some value ↦ value ]

-- `env_or(…).parse().map_err(…)`
unfoldable pub read : {A : Type 0} → Bytes → Bytes → (Bytes → Option A) → Env → Result ConfigError A
unfolding env_or
read key default parse env = elim (parse (env_or env key default)) [
  | none ↦ err (invalid key)
  | some a ↦ ok a
]

-- the same with `?`
abbrev pub setting : {A : Type 0} → Bytes → Bytes → (Bytes → Option A) → Action Env ConfigError A
setting key default parse env = (read key default parse env, env)

-- a variable that is taken as it is
abbrev pub plain : Bytes → Bytes → Action Env ConfigError Bytes
plain key default env = (ok (env_or env key default), env)

-- `parse::<bool>`
unfoldable pub parse_bool : Bytes → Option Bool
parse_bool s =
    if bytes_eq s (bytes "true")
    then some true
    else if bytes_eq s (bytes "false")
    then some false
    else none

abbrev pub u32_max : ℕ
u32_max = 4294967295

abbrev pub within_u32 : Option ℕ → Option ℕ
within_u32 none = none
within_u32 (some n) = if leb n u32_max then some n else none

-- `parse::<u32>`: a number that fits 64 bits, and then 32
unfoldable pub parse_u32 : Bytes → Option ℕ
parse_u32 s = within_u32 (parse_usize s)

pub parse_u32-show : (n : ℕ) → n ≤ 4294967295 → parse_u32 (show n) ≡ some n
unfolding parse_u32
parse_u32-show n h = ground (arith, parse_usize-show n)

pub show_bool : Bool → Bytes
show_bool true = bytes "true"
show_bool false = bytes "false"

pub parse_bool-show : (b : Bool) → parse_bool (show_bool b) ≡ some b
unfolding parse_bool show_bool bytes_eq
parse_bool-show true = refl
parse_bool-show false = refl

-- A variable that is set, and parses.
pub read_ok :
    {A : Type 0} (key default value : Bytes) (parse : Bytes → Option A) (a : A) (env : Env)
    → env key ≡ some value
    → parse value ≡ some a
    → read key default parse env ≡ ok a
unfolding read
read_ok key default value parse a env h e = ground arith

pub env_or_set :
    (key default value : Bytes) (env : Env) → env key ≡ some value → env_or env key default ≡ value
unfolding env_or
env_or_set key default value env h = ground arith

-- A variable that is refused: it is set, and does not parse.
unfoldable pub Refused : {A : Type 0} → Bytes → (Bytes → Option A) → Env → Bytes → Type 0
Refused key parse env k =
    (k ≡ key) × ((value : Bytes) × (env key ≡ some value) × (parse value ≡ none))

-- Where the default parses, an error names the variable, and the variable is refused.
pub read-Refused :
    {A : Type 0} (key default : Bytes) (parse : Bytes → Option A) (a : A) (env : Env) (k : Bytes)
    → parse default ≡ some a
    → read key default parse env ≡ err (invalid k)
    → Refused key parse env k
unfolding read Refused
read-Refused key default parse a env k d e = elim (Option-cases (env key)) [
  | inl unset ↦ absurd (ground arith)
  | inr (value, set) ↦ elim (Option-cases (parse value)) [
    | inl bad ↦ (ground arith, (value, set, bad))
    | inr (b, good) ↦ absurd (ground arith)
  ]
]
