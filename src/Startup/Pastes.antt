-- ===== src/Startup/Pastes.antt =====
-- The wiring of the pastebin (pastebin-service/src/lib.rs, with the constructors of `PasteService` in
-- application/mod.rs).
use hicho.Common.{ℕ}
use hicho.Cache.{Cache, no_op}
use hicho.RateLimit.{Float, RateLimiter}
use hicho.RateLimit
use hicho.Config.Pastebin.{Config}
use hicho.Pastebin.Domain.Paste.{PasteRepository}
use hicho.Pastebin.Views.{ViewRecorder, immediate}
use hicho.Pastebin.Service.{PasteService}

module _ {W : Type 0} where
  -- `PasteService::with_cache_and_views`
  abbrev pub with_cache_and_views : PasteRepository W → Cache W → ViewRecorder W → PasteService W
  with_cache_and_views repo cache views = record { repo = repo; cache = cache; views = views }

  -- `PasteService::with_cache`
  abbrev pub with_cache : PasteRepository W → Cache W → PasteService W
  with_cache repo cache = record { repo = repo; cache = cache; views = immediate repo }

  -- `PasteService::new`
  abbrev pub new : PasteRepository W → PasteService W
  new repo = with_cache repo no_op

module _ (float : Float) (W SocketAddr : Type 0) where
  pub record AppState : Type 0 where
    pub config : Config SocketAddr
    pub service : PasteService W
    pub rate_limiter : RateLimiter float
    pub served : ℕ

module _ (float : Float) {W SocketAddr : Type 0} where
  -- The state that `build_app_with_cache_and_views` hands to the router.
  unfoldable pub build_app_with_cache_and_views :
      Config SocketAddr → PasteRepository W → Cache W → ViewRecorder W → AppState float W SocketAddr
  build_app_with_cache_and_views config repo cache views = record {
    config = config;
    service = with_cache_and_views repo cache views;
    rate_limiter = RateLimit.new float config.rate_limit_rps config.rate_limit_burst;
    served = 0;
  }

  unfoldable pub build_app_with_cache :
      Config SocketAddr → PasteRepository W → Cache W → AppState float W SocketAddr
  build_app_with_cache config repo cache = record {
    config = config;
    service = with_cache repo cache;
    rate_limiter = RateLimit.new float config.rate_limit_rps config.rate_limit_burst;
    served = 0;
  }

  unfoldable pub build_app : Config SocketAddr → PasteRepository W → AppState float W SocketAddr
  unfolding build_app_with_cache
  build_app config repo = build_app_with_cache config repo no_op
