-- ===== src/Pastebin/System/Burning.antt =====
-- Burn after read over any repository that takes a paste at most once
-- (pastebin-service/src/application/mod.rs over the port of domain/mod.rs).
pub mod Calls
pub mod Turns
use hicho.Common.{
  ℕ, ◌+◌, ◌≤◌, ◌≡◌, refl, Bool, true, false, Option, none, some, Bytes, bytes_eq, bytes_eq_iff,
  arith, Result, ok, err, if◌then◌else◌, Bool-cases, Option-cases, Result-cases, inl, inr, ltb,
  zoom,
}
use hicho.Common.Int.{ℤ, pos}
use hicho.Cache.{Cache}
use hicho.Cache.Lawful.{Lawful}
use hicho.Clock.{now_unix}
use hicho.Pastebin.Domain.Errors.{RepoError}
use hicho.Pastebin.Domain.PasteId.{PasteId, from_trusted, parse_cases}
use hicho.Pastebin.Domain.Paste.{Paste, PasteRepository, is_expired}
use hicho.Pastebin.Views.{immediate}
use hicho.Pastebin.Service.Snapshot.{JsonCrate, from_paste}
use hicho.Pastebin.Service.{
  PasteService, delete, Phase, start, missed, loaded, finished, Readings, advance, decode,
  from_cache, from_repository, serve, cache_ttl_secs,
}
use hicho.Pastebin.System.OneShot.{HasOneShot, served_by}

pub record World (D C : Type 0) : Type 0 where
  pub store : D
  pub cached : C

module _ {D C : Type 0} where
  abbrev put_store : D → World D C → World D C
  put_store d w = record w { store = d }

  -- The repository as a part of the world.
  abbrev pub shared_repository : PasteRepository D → PasteRepository (World D C)
  shared_repository repo = record {
    insert = λ paste. zoom World.store put_store (repo.insert paste);
    get = λ i. zoom World.store put_store (repo.get i);
    take = λ i. zoom World.store put_store (repo.take i);
    increment_views_by = λ i n. zoom World.store put_store (repo.increment_views_by i n);
    delete = λ i. zoom World.store put_store (repo.delete i);
    ping = zoom World.store put_store repo.ping;
  }

  abbrev pub shared_cache : Cache C → Cache (World D C)
  shared_cache c = record {
    get = λ key w. let (v, s) = c.get key w.cached in (v, record w { cached = s });
    set = λ key value ttl w. record w { cached = c.set key value ttl w.cached };
    delete = λ key w. record w { cached = c.delete key w.cached };
  }

  -- `PasteService::with_cache`
  abbrev pub with_cache : PasteRepository D → Cache C → PasteService (World D C)
  with_cache repo c = record {
    repo = shared_repository repo;
    cache = shared_cache c;
    views = immediate (shared_repository repo);
  }

-- 1 for an answer with a paste
abbrev pub found : Result RepoError (Option Paste) → ℕ
found (ok (some p)) = 1
found _ = 0

-- What burning needs of a repository: while it stores under `k` nothing or a one-shot paste, `get`
-- reads no other paste there, `take` gives what it removes, and no call adds a paste, but for calls
-- that `fetch` never makes for a one-shot paste. `count` is 1 if a paste is stored, and 0 if not.
pub record OneShotStore {D : Type 0} (repo : PasteRepository D) (k : Bytes) (IsBurning : D → Type 0)
    (count : D → ℕ) : Type 0 where
  pub count_lem : (d : D) → count d ≤ 1
  pub get_burns : (i : PasteId) (d : D) → IsBurning d → IsBurning (repo.get i d).1
  pub get_count : (i : PasteId) (d : D) → IsBurning d → count (repo.get i d).1 ≤ count d
  pub get_one_shot :
      (i : PasteId) (d : D) (p : Paste)
      → IsBurning d
      → (repo.get i d).0 ≡ ok (some p)
      → bytes_eq i.as_str k ≡ true
      → p.one_shot ≡ true
  pub take_burns : (i : PasteId) (d : D) → IsBurning d → IsBurning (repo.take i d).1
  pub take_count :
      (i : PasteId) (d : D)
      → IsBurning d
      → (if bytes_eq i.as_str k then found (repo.take i d).0 else 0) + count (repo.take i d).1
        ≤ count d
  pub delete_burns : (i : PasteId) (d : D) → IsBurning d → IsBurning (repo.delete i d).1
  pub delete_count : (i : PasteId) (d : D) → IsBurning d → count (repo.delete i d).1 ≤ count d
  pub add_burns :
      (i : PasteId) (n : ℤ) (d : D)
      → bytes_eq i.as_str k ≡ false
      → IsBurning d
      → IsBurning (repo.increment_views_by i n d).1
  pub add_count :
      (i : PasteId) (n : ℤ) (d : D)
      → bytes_eq i.as_str k ≡ false
      → IsBurning d
      → count (repo.increment_views_by i n d).1 ≤ count d

-- No paste is cached under `k`.
abbrev pub NotCached :
    {D C : Type 0} (repo : PasteRepository D) {c : Cache C}
    → Lawful c
    → JsonCrate
    → Bytes
    → C
    → Type 0
NotCached repo {c} law json k s = decode json (with_cache repo c) (law.holds s k) ≡ none
