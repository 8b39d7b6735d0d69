-- ===== src/Shortener/System/Backed.antt =====
-- The service over any repository that keeps the targets of its links, a cache and the recorder that
-- writes through the repository: `LinkService::with_cache` (url-shortener/src/application/mod.rs).
pub mod Calls
pub mod Creates
pub mod Reach
use hicho.Common.{ℕ, ◌≡◌, false, Option, some, List, Bytes, bytes_eq, ok, err, zoom}
use hicho.Common.Int.{ℤ}
use hicho.Cache.{Cache}
use hicho.Cache.Lawful.{Lawful}
use hicho.Shortener.Domain.Errors.{RepoError}
use hicho.Shortener.Domain.ShortCode.{ShortCode}
use hicho.Shortener.Domain.Link.{Link, LinkRepository}
use hicho.Shortener.Hits.{immediate}
use hicho.Shortener.Service.{LinkService}

pub record World (D C : Type 0) : Type 0 where
  pub store : D
  pub cached : C

module _ {D C : Type 0} where
  abbrev put_store : D → World D C → World D C
  put_store d w = record w { store = d }

  -- The repository as a part of the world.
  abbrev pub shared_repository : LinkRepository D → LinkRepository (World D C)
  shared_repository repo = record {
    insert = λ link. zoom World.store put_store (repo.insert link);
    get = λ code. zoom World.store put_store (repo.get code);
    increment_hits_by = λ code n. zoom World.store put_store (repo.increment_hits_by code n);
    delete = λ code. zoom World.store put_store (repo.delete code);
    ping = zoom World.store put_store repo.ping;
  }

  abbrev pub shared_cache : Cache C → Cache (World D C)
  shared_cache c = record {
    get = λ key w. let (v, s) = c.get key w.cached in (v, record w { cached = s });
    set = λ key value ttl w. record w { cached = c.set key value ttl w.cached };
    delete = λ key w. record w { cached = c.delete key w.cached };
  }

  -- `LinkService::with_cache`
  abbrev pub with_cache : LinkRepository D → List Bytes → Cache C → LinkService (World D C)
  with_cache repo blocked_hosts c = record {
    repo = shared_repository repo;
    blocked_hosts = blocked_hosts;
    cache = shared_cache c;
    hits = immediate (shared_repository repo);
  }

-- What a repository shows of its links' targets: `target_of` is the target under each code, in the
-- states that `IsSound` allows, and each operation stays within those.
pub record TargetStore {D : Type 0} (repo : LinkRepository D) (IsSound : D → Type 0)
    (target_of : Bytes → D → Option Bytes) : Type 0 where
  pub get_sound : (code : ShortCode) (d : D) → IsSound d → IsSound (repo.get code d).1
  pub get_same :
      (code : ShortCode) (k : Bytes) (d : D)
      → IsSound d
      → target_of k (repo.get code d).1 ≡ target_of k d
  pub get_target :
      (code : ShortCode) (d : D) (l : Link)
      → IsSound d
      → (repo.get code d).0 ≡ ok (some l)
      → target_of code.as_str d ≡ some l.target.as_str
  pub add_sound :
      (code : ShortCode) (n : ℤ) (d : D) → IsSound d → IsSound (repo.increment_hits_by code n d).1
  pub add_same :
      (code : ShortCode) (n : ℤ) (k : Bytes) (d : D)
      → IsSound d
      → target_of k (repo.increment_hits_by code n d).1 ≡ target_of k d
  pub delete_sound : (code : ShortCode) (d : D) → IsSound d → IsSound (repo.delete code d).1
  pub delete_others :
      (code : ShortCode) (k : Bytes) (d : D)
      → IsSound d
      → bytes_eq code.as_str k ≡ false
      → target_of k (repo.delete code d).1 ≡ target_of k d
  pub delete_failed :
      (code : ShortCode) (k : Bytes) (d : D) (e : RepoError)
      → IsSound d
      → (repo.delete code d).0 ≡ err e
      → target_of k (repo.delete code d).1 ≡ target_of k d
  pub insert_sound : (link : Link) (d : D) → IsSound d → IsSound (repo.insert link d).1
  pub insert_keeps :
      (link : Link) (k t : Bytes) (d : D)
      → IsSound d
      → target_of k d ≡ some t
      → target_of k (repo.insert link d).1 ≡ some t
