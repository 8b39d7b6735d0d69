-- ===== src/Pastebin/System/OneShot.antt =====
-- Burn after read: fetches of one paste that run at the same time
-- (pastebin-service/src/application/mod.rs).
pub mod Turns
use hicho.Common.{
  ℕ, zero, suc, ◌+◌, ◌≤◌, ◌≡◌, refl, Bool, true, false, Option, none, some, List, [], ◌∷◌, Bytes,
  bytes_key, bytes_eq, bytes_eq_iff, arith, Result, ok, err, if◌then◌else◌, Bool-cases,
  Option-cases, inl, inr, ltb,
}
use hicho.Common.Int.{ℤ, pos}
use hicho.Common.Map.{lookup, remove, modify, lookup-remove, lookup-modify}
use hicho.Cache.{Cache}
use hicho.Cache.Lawful.{Lawful}
use hicho.Clock.{now_unix}
use hicho.Pastebin.Domain.PasteId.{PasteId, from_trusted, parse_cases}
use hicho.Pastebin.Domain.Paste.{Paste, is_expired}
use hicho.Pastebin.Memory.{InMemoryPasteRepository, Pastes, dispatch, add_views}
use hicho.Pastebin.Service.Snapshot.{JsonCrate, from_paste}
use hicho.Pastebin.Service.{
  delete, Phase, start, missed, loaded, finished, Readings, advance, decode, from_cache,
  from_repository, serve, cache_ttl_secs,
}
use hicho.Pastebin.System.{World, with_cache}

-- A call of `fetch` with a valid id, and how far it has come.
pub record Task : Type 0 where
  pub id : Bytes
  pub readings : Readings
  pub phase : Phase

-- 1 for a call that has served a paste
abbrev pub served_by : Phase → ℕ
served_by (finished (ok p)) = 1
served_by _ = 0

abbrev pub weight : Bytes → Task → ℕ
weight k t = if bytes_eq t.id k then served_by t.phase else 0

-- how many calls for `k` have served a paste
abbrev pub served : Bytes → List Task → ℕ
served k [] = 0
served k (t ∷ ts) = weight k t + served k ts

abbrev pub stored : Bytes → InMemoryPasteRepository → ℕ
stored k none = 0
stored k (some m) = elim (lookup k m) [ none ↦ 0 | some p ↦ 1 ]

-- what is stored under `k` burns after reading
abbrev pub StoresOneShot : Bytes → InMemoryPasteRepository → Type 0
StoresOneShot k none = Unit
StoresOneShot k (some m) = elim (lookup k m) [ none ↦ Unit {0} | some p ↦ p.one_shot ≡ true ]

abbrev pub HasOneShot : Bytes → Bytes → Phase → Type 0
HasOneShot k i (loaded p) = bytes_eq i k ≡ true → p.one_shot ≡ true
HasOneShot k i _ = Unit

module _ {C : Type 0} {c : Cache C} (law : Lawful c) (json : JsonCrate) (k : Bytes) where
  abbrev pub NotCached : C → Type 0
  NotCached s = decode json (with_cache c) (law.holds s k) ≡ none

  abbrev pub world : InMemoryPasteRepository → C → World C
  world m s = record { pastes = m; cached = s }

  -- One call and the world, before a step and after it.
  abbrev pub Burns : Bytes → Phase × World C → Phase × World C → Type 0
  Burns i (p, w) (p', w') =
      HasOneShot k i p'
      × StoresOneShot k w'.pastes
      × NotCached w'.cached
      × ((if bytes_eq i k then served_by p' else 0) + stored k w'.pastes
          ≤ (if bytes_eq i k then served_by p else 0) + stored k w.pastes)

  from_repository-Burns :
      (i : Bytes) (m : InMemoryPasteRepository) (s : C)
      → StoresOneShot k m
      → NotCached s
      → Burns i
          (missed, world m s)
          (from_repository json (with_cache c) (from_trusted i) (world m s))
  unfolding from_repository dispatch
  from_repository-Burns i none s st nc = ground arith
  from_repository-Burns i (some m) s st nc = ground (arith, bytes_eq_iff i k)

  serve-Burns :
      (i : Bytes) (r : Readings) (p : Paste) (m : InMemoryPasteRepository) (s : C)
      → HasOneShot k i (loaded p)
      → StoresOneShot k m
      → NotCached s
      → let (answer, w) = serve json (with_cache c) (from_trusted i) r p (world m s) in
        Burns i (loaded p, world m s) (finished answer, w)
  unfolding serve dispatch
  serve-Burns i r p none s one st nc = elim (Option-cases (json.to_string (from_paste p))) [
    | inl failed ↦ ground (arith, bytes_eq_iff i k, law.after_delete i k s)
    | inr (text, e) ↦ ground (
      arith,
      bytes_eq_iff i k,
      law.after_delete i k s,
      law.after_set i k text (cache_ttl_secs p (now_unix r.filled_at)) s,
    )
  ]
  serve-Burns i r p (some m) s one st nc = elim (Option-cases (json.to_string (from_paste p))) [
    | inl failed ↦ ground (
      arith,
      bytes_eq_iff i k,
      law.after_delete i k s,
      lookup-remove i k m,
      lookup-modify i k (add_views (pos 1)) m,
    )
    | inr (text, e) ↦ ground (
      arith,
      bytes_eq_iff i k,
      law.after_delete i k s,
      lookup-remove i k m,
      lookup-modify i k (add_views (pos 1)) m,
      law.after_set i k text (cache_ttl_secs p (now_unix r.filled_at)) s,
    )
  ]

  from_cache-Burns :
      (i : Bytes) (r : Readings) (m : InMemoryPasteRepository) (s : C)
      → StoresOneShot k m
      → NotCached s
      → Burns i (start, world m s) (from_cache json (with_cache c) (from_trusted i) r (world m s))
  unfolding from_cache dispatch
  from_cache-Burns i r none s st nc = ground (
    arith,
    bytes_eq_iff i k,
    law.got i s,
    law.after_get i k s,
    law.after_delete i k (c.get i s).1,
  )
  from_cache-Burns i r (some m) s st nc = ground (
    arith,
    bytes_eq_iff i k,
    law.got i s,
    law.after_get i k s,
    law.after_delete i k (c.get i s).1,
    lookup-modify i k (add_views (pos 1)) m,
  )

  pub advance-Burns :
      (i : Bytes) (r : Readings) (p : Phase) (m : InMemoryPasteRepository) (s : C)
      → HasOneShot k i p
      → StoresOneShot k m
      → NotCached s
      → Burns i (p, world m s) (advance json (with_cache c) (from_trusted i) r p (world m s))
  unfolding advance
  advance-Burns i r start m s one st nc = from_cache-Burns i r m s st nc
  advance-Burns i r missed m s one st nc = from_repository-Burns i m s st nc
  advance-Burns i r (loaded q) m s one st nc = serve-Burns i r q m s one st nc
  advance-Burns i r (finished a) m s one st nc = (tt, st, nc, omega arith)

  pub delete-Burns :
      (raw : Bytes) (m : InMemoryPasteRepository) (s : C)
      → StoresOneShot k m
      → NotCached s
      → let w = (delete (with_cache c) raw (world m s)).1 in
        StoresOneShot k w.pastes × NotCached w.cached × (stored k w.pastes ≤ stored k m)
  unfolding delete dispatch
  delete-Burns raw none s st nc = ground (arith, parse_cases raw, law.after_delete raw k s)
  delete-Burns raw (some m) s st nc =
      ground (arith, parse_cases raw, law.after_delete raw k s, lookup-remove raw k m)
