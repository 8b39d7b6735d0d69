-- ===== src/Startup/Tests.antt =====
-- A blocked host from the environment to the response (url-shortener/src/lib.rs).
use hicho.Common.{
  ℕ, ◌+◌, ◌-◌, ◌*◌, ◌/◌, ◌≡◌, ◌≢◌, refl, true, Option, none, some, [], ◌∷◌, Bytes, bytes_key,
  bytes_eq, ok, inl, inr, false, leb, min, if◌then◌else◌,
}
use hicho.Common.Map.{lookup}
use hicho.Common.Text.{bytes, to_ascii_lowercase}
use hicho.Cache.{no_op}
use hicho.RateLimit.{Float, check}
use hicho.Tcp.Strings.{split, trim}
use hicho.Tcp.Strings.Decimal.{parse_usize, digits_from}
use hicho.Config.{Env, env_or, read, parse_u32, parse_bool}
use hicho.Config.Shortener.{Config, from_env, parse_hosts}
use hicho.Config.Shortener.Blocked.{name_of}
use hicho.Shortener.Domain.Errors.{ValidationError}
use hicho.Shortener.Domain.TargetUrl.{UrlCrate, TargetUrl}
use hicho.Shortener.Domain.TargetUrl
use hicho.Shortener.Memory.{InMemoryLinkRepository, repository}
use hicho.Shortener.Hits.{immediate}
use hicho.Api.Links.{State}
use hicho.Api.Links.Routes.{post_link, error}
use hicho.Api.{Request, client_ip}
use hicho.Startup.Links.{serve_app, build_app_with_cache_and_hits, blocklist_enforced}

-- Numbers of whole tokens and whole seconds.
abbrev whole : Float
whole = record {
  F64 = ℕ;
  of_u32 = λ n. n;
  of_nanos = λ n. n / 1000000000;
  add = λ a b. a + b;
  sub = λ a b. a - b;
  mul = λ a b. a * b;
  minimum = λ a b. min a b;
  leq = λ a b. leb a b;
}

-- A URL crate that takes each string for an HTTP URL of one host.
abbrev one_host : UrlCrate
one_host = record {
  Url = Bytes;
  parse_url = some;
  scheme = λ u. bytes "http";
  has_host = λ u. true;
  host_str = λ u. some (bytes "EVIL.com");
}

abbrev address : Bytes → Option Bytes
address text = some text

abbrev env : Env
env key = lookup key ((bytes "BLOCKED_HOSTS", bytes "bad.org, Evil.com ") ∷ [])

abbrev config : Config Bytes
config = record {
  bind_addr = bytes "127.0.0.1:8080";
  max_body_bytes = 16384;
  database_url = bytes "sqlite://links.db";
  database_max_connections = 5;
  public_base_url = bytes "http://127.0.0.1:8080";
  request_timeout_secs = 10;
  max_concurrent_requests = 1024;
  blocked_hosts = bytes "bad.org" ∷ bytes "evil.com" ∷ [];
  rate_limit_rps = 0;
  rate_limit_burst = 0;
  trust_proxy = false;
}

env_config : (from_env address env).0 ≡ ok config
unfolding from_env lookup bytes_eq read env_or parse_usize digits_from parse_u32 parse_bool
    parse_hosts split trim to_ascii_lowercase
env_config = refl

abbrev show : ValidationError → Bytes
show v = bytes "invalid"

abbrev raw : Bytes
raw = bytes "http://EVIL.com/x"

abbrev target : TargetUrl
target = TargetUrl.from_trusted raw

raw_valid : TargetUrl.parse one_host raw ≡ ok target
unfolding TargetUrl.parse bytes_eq
raw_valid = refl

raw_host : TargetUrl.host one_host target ≡ some (name_of (bytes " Evil.com "))
unfolding TargetUrl.host to_ascii_lowercase trim
raw_host = refl

named : name_of (bytes " Evil.com ") ≢ []
unfolding trim to_ascii_lowercase
named e = cc

abbrev start : State InMemoryLinkRepository
start = record { world = some []; redirects = 3 }

abbrev request : Request
request = record { x_forwarded_for = none; x_real_ip = none; peer = some (bytes "10.0.0.1") }

blocklist_enforced_example :
    let app = build_app_with_cache_and_hits whole config repository no_op (immediate repository) in
    let (is_allowed, buckets') = check whole app.rate_limiter (client_ip some request false) 7 [] in
    serve_app whole show
      (λ t. true)
      one_host
      some
      app
      7
      request
      (post_link raw none none (some 5) (λ n i. n + i))
      ([], start)
    ≡ (
      if is_allowed
          then (400, error (bytes "target host is not allowed"))
          else (429, error (bytes "rate limit exceeded")),
      (buckets', start),
    )
unfolding split env_or lookup bytes_eq
blocklist_enforced_example =
    blocklist_enforced whole address env config (bytes " Evil.com ") repository no_op
      (immediate repository) show (λ t. true) one_host some raw target none none (some 5)
      (λ n i. n + i) 7 request [] start env_config (inr (inl refl)) named raw_valid raw_host
