-- ===== src/Startup/Links.antt =====
-- The wiring of the URL shortener (url-shortener/src/lib.rs, with the constructors of `LinkService` in
-- application/mod.rs), and the blocklist from the environment to the response.
use hicho.Common.{
  ℕ, Bool, ◌≡◌, ◌≢◌, true, Option, some, List, [], Bytes, ok, err, arith, if◌then◌else◌, inl, inr,
  refl, Bool-cases,
}
use hicho.Common.Text.{bytes}
use hicho.Cache.{Cache, no_op}
use hicho.RateLimit.{Float, RateLimiter, Buckets, check}
use hicho.RateLimit
use hicho.Config.{Env, env_or}
use hicho.Config.Shortener.{Config, from_env, parse_hosts}
use hicho.Config.Shortener.Blocked.{Listed, name_of, parse_hosts-blocks}
use hicho.Tcp.Strings.{split}
use hicho.Shortener.Domain.Errors.{ValidationError}
use hicho.Shortener.Domain.Link.{LinkRepository}
use hicho.Shortener.Domain.TargetUrl.{UrlCrate, TargetUrl}
use hicho.Shortener.Domain.TargetUrl
use hicho.Shortener.Hits.{HitRecorder, immediate}
use hicho.Shortener.Service.{LinkService, ServiceError, create, is_blocked}
use hicho.Api.{Request, client_ip, rate_limit, from_service, into_response, status}
use hicho.Api.Links.{State, create_link}
use hicho.Api.Links.Routes.{Response, Endpoint, post_link, error, handle}

module _ {W : Type 0} where
  -- `LinkService::with_cache_and_hits`
  abbrev pub with_cache_and_hits :
      LinkRepository W → List Bytes → Cache W → HitRecorder W → LinkService W
  with_cache_and_hits repo blocked_hosts cache hits = record {
    repo = repo;
    blocked_hosts = blocked_hosts;
    cache = cache;
    hits = hits;
  }

  -- `LinkService::with_cache`
  abbrev pub with_cache : LinkRepository W → List Bytes → Cache W → LinkService W
  with_cache repo blocked_hosts cache =
      with_cache_and_hits repo blocked_hosts cache (immediate repo)

  -- `LinkService::new`
  abbrev pub new : LinkRepository W → List Bytes → LinkService W
  new repo blocked_hosts = with_cache repo blocked_hosts no_op

module _ (float : Float) (W SocketAddr : Type 0) where
  pub record AppState : Type 0 where
    pub config : Config SocketAddr
    pub service : LinkService W
    pub rate_limiter : RateLimiter float
    pub redirects : ℕ

module _ (float : Float) {W SocketAddr : Type 0} where
  -- The state that `build_app_with_cache_and_hits` hands to the router.
  unfoldable pub build_app_with_cache_and_hits :
      Config SocketAddr → LinkRepository W → Cache W → HitRecorder W → AppState float W SocketAddr
  build_app_with_cache_and_hits config repo cache hits = record {
    config = config;
    service = with_cache_and_hits repo config.blocked_hosts cache hits;
    rate_limiter = RateLimit.new float config.rate_limit_rps config.rate_limit_burst;
    redirects = 0;
  }

  unfoldable pub build_app_with_cache :
      Config SocketAddr → LinkRepository W → Cache W → AppState float W SocketAddr
  build_app_with_cache config repo cache = record {
    config = config;
    service = with_cache repo config.blocked_hosts cache;
    rate_limiter = RateLimit.new float config.rate_limit_rps config.rate_limit_burst;
    redirects = 0;
  }

  unfoldable pub build_app : Config SocketAddr → LinkRepository W → AppState float W SocketAddr
  unfolding build_app_with_cache
  build_app config repo = build_app_with_cache config repo no_op

-- The answer of the router's own code to a request: `rate_limit` around the handlers.
unfoldable pub serve_app :
    (float : Float) (show : ValidationError → Bytes) (is_header : Bytes → Bool) (url : UrlCrate)
    (parse_ip : Bytes → Option Bytes) {W SocketAddr : Type 0}
    → AppState float W SocketAddr
    → ℕ
    → Request
    → Endpoint
    → Buckets float × State W
    → Response × (Buckets float × State W)
serve_app float show is_header url parse_ip app now request e =
    rate_limit float app.rate_limiter parse_ip app.config.trust_proxy error
      (handle show is_header url app.config.public_base_url app.service e) now request

-- The blocked hosts of a configuration that was read.
from_env-blocked :
    {SocketAddr : Type 0} (parse_addr : Bytes → Option SocketAddr) (env : Env)
    (c : Config SocketAddr)
    → (from_env parse_addr env).0 ≡ ok c
    → c.blocked_hosts ≡ parse_hosts (env_or env (bytes "BLOCKED_HOSTS") [])
unfolding from_env
from_env-blocked parse_addr env c h = ground arith

blocked_refused :
    {W : Type 0} (url : UrlCrate) (s : LinkService W) (raw : Bytes) (target : TargetUrl)
    (alias : Option Bytes) (ttl now : Option ℕ) (draws : ℕ → ℕ → ℕ) (w : W)
    → TargetUrl.parse url raw ≡ ok target
    → is_blocked url s target ≡ true
    → create url s raw alias ttl now draws w ≡ (err ServiceError.blocked, w)
unfolding create
blocked_refused url s raw target alias ttl now draws w p b = ground arith

blocked_response :
    (show : ValidationError → Bytes) (is_header : Bytes → Bool) (url : UrlCrate) (base_url : Bytes)
    {W : Type 0} (s : LinkService W) (raw : Bytes) (alias : Option Bytes) (ttl now : Option ℕ)
    (draws : ℕ → ℕ → ℕ) (st : State W)
    → create url s raw alias ttl now draws st.world ≡ (err ServiceError.blocked, st.world)
    → handle show is_header url base_url s (post_link raw alias ttl now draws) st
      ≡ ((400, error (bytes "target host is not allowed")), st)
unfolding handle create_link from_service into_response status
blocked_response show is_header url base_url s raw alias ttl now draws st e = ground arith

-- Where the limiter's verdict on a request's client is known, the middleware's answer is too.
limited :
    (float : Float) {W B : Type 0} (l : RateLimiter float) (parse_ip : Bytes → Option Bytes)
    (trust_proxy : Bool) (wrap : Bytes → B) (next : W → (ℕ × B) × W) (now : ℕ) (request : Request)
    (buckets : Buckets float) (w : W) (answer : ℕ × B)
    → next w ≡ (answer, w)
    → let (is_allowed, buckets') =
        check float l (client_ip parse_ip request trust_proxy) now buckets in
      rate_limit float l parse_ip trust_proxy wrap next now request (buckets, w)
      ≡ (if is_allowed then answer else (429, wrap (bytes "rate limit exceeded")), (buckets', w))
unfolding rate_limit
limited float l parse_ip trust_proxy wrap next now request buckets w answer e =
    elim (Bool-cases (check float l (client_ip parse_ip request trust_proxy) now buckets).0) [
      | inl allowed ↦ rw (allowed, e) refl
      | inr refused ↦ rw refused refl
    ]

-- The blocklist works from the environment to the response: where `BLOCKED_HOSTS` lists a name, in
-- any case and with white space around it, and the configuration was read, the application that is
-- wired from it, its rate limit included and the layers of axum and tower left out, answers every POST of a valid URL whose host has that name
-- in lower case with status 400 and the text "target host is not allowed" if the limiter lets the
-- client's request through, and with 429 if it does not; and it changes neither its world nor its
-- counter, and of the buckets what the limiter's check changes, for any repository, cache and
-- recorder, alias, time to live, client and moment.
pub blocklist_enforced :
    {SocketAddr W : Type 0} (float : Float) (parse_addr : Bytes → Option SocketAddr) (env : Env)
    (c : Config SocketAddr) (part : Bytes) (repo : LinkRepository W) (cache : Cache W)
    (hits : HitRecorder W) (show : ValidationError → Bytes) (is_header : Bytes → Bool)
    (url : UrlCrate) (parse_ip : Bytes → Option Bytes) (raw : Bytes) (target : TargetUrl)
    (alias : Option Bytes) (ttl now : Option ℕ) (draws : ℕ → ℕ → ℕ) (time : ℕ) (request : Request)
    (buckets : Buckets float) (st : State W)
    → (from_env parse_addr env).0 ≡ ok c
    → Listed part (split b',' (env_or env (bytes "BLOCKED_HOSTS") []))
    → name_of part ≢ []
    → TargetUrl.parse url raw ≡ ok target
    → TargetUrl.host url target ≡ some (name_of part)
    → let app = build_app_with_cache_and_hits float c repo cache hits in
      let (is_allowed, buckets') =
        check float app.rate_limiter (client_ip parse_ip request c.trust_proxy) time buckets in
      serve_app float show is_header url parse_ip app time request
        (post_link raw alias ttl now draws)
        (buckets, st)
      ≡ (
        if is_allowed
            then (400, error (bytes "target host is not allowed"))
            else (429, error (bytes "rate limit exceeded")),
        (buckets', st),
      )
unfolding build_app_with_cache_and_hits is_blocked serve_app
blocklist_enforced float parse_addr env c part repo cache hits show is_header url parse_ip raw
      target alias ttl now draws time request buckets st e listed named p h =
    let app = build_app_with_cache_and_hits float c repo cache hits in
    let hosts = from_env-blocked parse_addr env c e in
    let covered =
      (parse_hosts-blocks (env_or env (bytes "BLOCKED_HOSTS") []) part [] listed named).0 in
    let blocks : is_blocked url app.service target ≡ true = rw (h, hosts) covered in
    let refused =
      blocked_response show is_header url c.public_base_url app.service raw alias ttl now draws st
        (blocked_refused url app.service raw target alias ttl now draws st.world p blocks) in
    limited float app.rate_limiter parse_ip c.trust_proxy error _ time request buckets st _ refused
