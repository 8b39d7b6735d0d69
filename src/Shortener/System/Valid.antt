-- ===== src/Shortener/System/Valid.antt =====
-- The links of the store stand under their own codes (url-shortener/src/application/mod.rs).
use hicho.Common.{
  ℕ, ◌<◌, ◌≡◌, Option, none, some, List, Bytes, bytes_key, bytes_eq_iff, arith, Result, ok, err,
}
use hicho.Common.Int.{pos}
use hicho.Common.Map.{lookup, insert, remove, modify, lookup-insert, lookup-remove, lookup-modify}
use hicho.Shortener.Domain.ShortCode.{IsCode, from_trusted, parse_cases}
use hicho.Shortener.Domain.TargetUrl.{UrlCrate}
use hicho.Shortener.Domain.Link.{Link}
use hicho.Shortener.Memory.{Links, InMemoryLinkRepository, add_hits, dispatch}
use hicho.Cache.{Cache}
use hicho.Shortener.Service.{
  ServiceError, validation, not_found, conflict, blocked, backend, create, resolve,
  resolve_uncached, get, delete,
}
use hicho.Shortener.System.{World, with_cache}
use hicho.Shortener.System.Create.{Creates, create-Creates}

abbrev ValidAt : Bytes → Links → Type 0
ValidAt k m = elim (lookup k m) [ none ↦ Unit {0} | some l ↦ ((l.code.as_str ≡ k) × IsCode k) ]

abbrev ValidIn : Bytes → InMemoryLinkRepository → Type 0
ValidIn k none = Unit
ValidIn k (some m) = ValidAt k m

-- Each stored link is found under its own, well formed code.
abbrev pub IsValidStore : InMemoryLinkRepository → Type 0
IsValidStore r = (k : Bytes) → ValidIn k r

insert-ValidAt :
    (k : Bytes) (l : Link) (m : Links)
    → IsCode l.code.as_str
    → ValidAt k m
    → ValidAt k (insert l.code.as_str l m)
insert-ValidAt k l m v h =
    ground (arith, lookup-insert l.code.as_str k l m, bytes_eq_iff l.code.as_str k)

remove-ValidAt : (j k : Bytes) (m : Links) → ValidAt k m → ValidAt k (remove j m)
remove-ValidAt j k m h = ground (arith, lookup-remove j k m)

modify-ValidAt : (j k : Bytes) (m : Links) → ValidAt k m → ValidAt k (modify j (add_hits (pos 1)) m)
modify-ValidAt j k m h = ground (arith, lookup-modify j k (add_hits (pos 1)) m)

Creates-ValidIn :
    {C : Type 0} (c : Cache C) (hosts : List Bytes) (k : Bytes) (url : UrlCrate) (raw : Bytes)
    (alias : Option Bytes) (ttl now : Option ℕ) (draws : ℕ → ℕ → ℕ) (m : Links) (s : C)
    (r : Result ServiceError Link × World C)
    → ValidIn k (some m)
    → Creates c hosts url raw alias ttl now draws m s r
    → ValidIn k r.1.links
Creates-ValidIn c hosts k url raw none ttl now draws m s (ok l, w) h e =
    rw e.2.3 (insert-ValidAt k l m e.2.0 h)
Creates-ValidIn c hosts k url raw (some a) ttl now draws m s (ok l, w) h e =
    rw e.2.3 (insert-ValidAt k l m (rw e.2.0.0 e.2.0.1) h)
Creates-ValidIn c hosts k url raw alias ttl now draws m s (err (validation v), w) h e = rw e.1 h
Creates-ValidIn c hosts k url raw alias ttl now draws m s (err not_found, w) h e = absurd e
Creates-ValidIn c hosts k url raw alias ttl now draws m s (err conflict, w) h e = rw e.1 h
Creates-ValidIn c hosts k url raw alias ttl now draws m s (err blocked, w) h e = rw e.1 h
Creates-ValidIn c hosts k url raw alias ttl now draws m s (err (backend b), w) h e = absurd e

module _ {C : Type 0} (c : Cache C) (hosts : List Bytes) (k : Bytes) where
  abbrev world : InMemoryLinkRepository → C → World C
  world m s = record { links = m; cached = s }

  resolve_uncached-ValidIn :
      (raw : Bytes) (now later : Option ℕ) (m : InMemoryLinkRepository) (s : C)
      → ValidIn k m
      → ValidIn k
          (resolve_uncached (with_cache hosts c) (from_trusted raw) now later (world m s)).1.links
  unfolding resolve_uncached dispatch
  resolve_uncached-ValidIn raw now later none s h = ground arith
  resolve_uncached-ValidIn raw now later (some m) s h =
      ground (arith, remove-ValidAt raw k m h, modify-ValidAt raw k m h)

  resolve-ValidIn :
      (raw : Bytes) (now later : Option ℕ) (m : InMemoryLinkRepository) (s : C)
      → ValidIn k m
      → ValidIn k (resolve (with_cache hosts c) raw now later (world m s)).1.links
  unfolding resolve dispatch
  resolve-ValidIn raw now later none s h =
      ground (arith, parse_cases raw, resolve_uncached-ValidIn raw now later none (c.get raw s).1 h)
  resolve-ValidIn raw now later (some m) s h = ground (
    arith,
    parse_cases raw,
    modify-ValidAt raw k m h,
    resolve_uncached-ValidIn raw now later (some m) (c.get raw s).1 h,
  )

  get-ValidIn :
      (raw : Bytes) (now : Option ℕ) (m : InMemoryLinkRepository) (s : C)
      → ValidIn k m
      → ValidIn k (get (with_cache hosts c) raw now (world m s)).1.links
  unfolding get dispatch
  get-ValidIn raw now none s h = ground (arith, parse_cases raw)
  get-ValidIn raw now (some m) s h = ground (arith, parse_cases raw, remove-ValidAt raw k m h)

  delete-ValidIn :
      (raw : Bytes) (m : InMemoryLinkRepository) (s : C)
      → ValidIn k m
      → ValidIn k (delete (with_cache hosts c) raw (world m s)).1.links
  unfolding delete dispatch
  delete-ValidIn raw none s h = ground (arith, parse_cases raw)
  delete-ValidIn raw (some m) s h = ground (arith, parse_cases raw, remove-ValidAt raw k m h)

  create-ValidIn :
      (url : UrlCrate) (raw : Bytes) (alias : Option Bytes) (ttl now : Option ℕ) (draws : ℕ → ℕ → ℕ)
      (m : Links) (s : C)
      → ((i j : ℕ) → draws i j < 62)
      → ValidIn k (some m)
      → ValidIn k
          (create url (with_cache hosts c) raw alias ttl now draws (world (some m) s)).1.links
  create-ValidIn url raw alias ttl now draws m s d h =
      Creates-ValidIn c hosts k url raw alias ttl now draws m s
        (create url (with_cache hosts c) raw alias ttl now draws (world (some m) s)) h
        (create-Creates c hosts url raw alias ttl now draws m s d)

-- On a running store whose links stand under their own, well formed codes, every call leaves such
-- a store: `create` (its random indices lie in the alphabet), `resolve`, `get` and `delete`.
pub calls-IsValidStore :
    {C : Type 0} (c : Cache C) (hosts : List Bytes) (url : UrlCrate) (raw : Bytes)
    (alias : Option Bytes) (ttl now later : Option ℕ) (draws : ℕ → ℕ → ℕ) (m : Links) (s : C)
    → ((i j : ℕ) → draws i j < 62)
    → IsValidStore (some m)
    → let w : World C = record { links = some m; cached = s } in
      IsValidStore (create url (with_cache hosts c) raw alias ttl now draws w).1.links
      × IsValidStore (resolve (with_cache hosts c) raw now later w).1.links
      × IsValidStore (get (with_cache hosts c) raw now w).1.links
      × IsValidStore (delete (with_cache hosts c) raw w).1.links
calls-IsValidStore c hosts url raw alias ttl now later draws m s d h = (
  λ k. create-ValidIn c hosts k url raw alias ttl now draws m s d (h k),
  λ k. resolve-ValidIn c hosts k raw now later (some m) s (h k),
  λ k. get-ValidIn c hosts k raw now (some m) s (h k),
  λ k. delete-ValidIn c hosts k raw (some m) s (h k),
)
