-- ===== src/Shortener/System.antt =====
-- The service over the in-memory repository, a cache and the recorder that writes through the
-- same repository: `LinkService::with_cache` (url-shortener/src/application/mod.rs).
pub mod Create
pub mod Resolve
pub mod Coherence
pub mod Stale
pub mod Reach
pub mod Valid
pub mod Backed
use hicho.Common.{List, Bytes, Option, zoom}
use hicho.Shortener.Memory.{InMemoryLinkRepository, repository}
use hicho.Cache.{Cache}
use hicho.Shortener.Hits.{immediate}
use hicho.Shortener.Domain.Link.{LinkRepository}
use hicho.Shortener.Service.{LinkService}

pub record World (C : Type 0) : Type 0 where
  pub links : InMemoryLinkRepository
  pub cached : C

module _ {C : Type 0} where
  abbrev put_links : InMemoryLinkRepository → World C → World C
  put_links m w = record w { links = m }

  -- The repository as a part of the world.
  abbrev pub shared_repository : LinkRepository (World C)
  shared_repository = record {
    insert = λ link. zoom World.links put_links (repository.insert link);
    get = λ code. zoom World.links put_links (repository.get code);
    increment_hits_by = λ code n. zoom World.links put_links (repository.increment_hits_by code n);
    delete = λ code. zoom World.links put_links (repository.delete code);
    ping = zoom World.links put_links repository.ping;
  }

  abbrev pub shared_cache : Cache C → Cache (World C)
  shared_cache c = record {
    get = λ key w. let (v, s) = c.get key w.cached in (v, record w { cached = s });
    set = λ key value ttl w. record w { cached = c.set key value ttl w.cached };
    delete = λ key w. record w { cached = c.delete key w.cached };
  }

  -- `LinkService::with_cache`
  abbrev pub with_cache : List Bytes → Cache C → LinkService (World C)
  with_cache blocked_hosts c = record {
    repo = shared_repository;
    blocked_hosts = blocked_hosts;
    cache = shared_cache c;
    hits = immediate shared_repository;
  }
