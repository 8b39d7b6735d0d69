-- ===== src/Pastebin/System.antt =====
-- The service over the in-memory repository, a cache and the recorder that writes through the
-- same repository: `PasteService::with_cache` (pastebin-service/src/application/mod.rs).
pub mod OneShot
pub mod Fetch
pub mod Create
pub mod Agreement
pub mod Race
pub mod Burning
use hicho.Common.{zoom}
use hicho.Cache.{Cache}
use hicho.Pastebin.Memory.{InMemoryPasteRepository, repository}
use hicho.Pastebin.Views.{immediate}
use hicho.Pastebin.Domain.Paste.{PasteRepository}
use hicho.Pastebin.Service.{PasteService}

pub record World (C : Type 0) : Type 0 where
  pub pastes : InMemoryPasteRepository
  pub cached : C

module _ {C : Type 0} where
  abbrev put_pastes : InMemoryPasteRepository → World C → World C
  put_pastes m w = record w { pastes = m }

  -- The repository as a part of the world.
  abbrev pub shared_repository : PasteRepository (World C)
  shared_repository = record {
    insert = λ paste. zoom World.pastes put_pastes (repository.insert paste);
    get = λ i. zoom World.pastes put_pastes (repository.get i);
    take = λ i. zoom World.pastes put_pastes (repository.take i);
    increment_views_by = λ i n. zoom World.pastes put_pastes (repository.increment_views_by i n);
    delete = λ i. zoom World.pastes put_pastes (repository.delete i);
    ping = zoom World.pastes put_pastes repository.ping;
  }

  abbrev pub shared_cache : Cache C → Cache (World C)
  shared_cache c = record {
    get = λ key w. let (v, s) = c.get key w.cached in (v, record w { cached = s });
    set = λ key value ttl w. record w { cached = c.set key value ttl w.cached };
    delete = λ key w. record w { cached = c.delete key w.cached };
  }

  -- `PasteService::with_cache`
  abbrev pub with_cache : Cache C → PasteService (World C)
  with_cache c = record {
    repo = shared_repository;
    cache = shared_cache c;
    views = immediate shared_repository;
  }
