-- ===== src/Pastebin/System/Fetch.antt =====
-- `fetch` and `delete` with no other call in between (pastebin-service/src/application/mod.rs).
use hicho.Common.{
  ◌≡◌, none, some, Bytes, bytes_key, arith, Result, ok, err, if◌then◌else◌, Bool-cases,
  Option-cases, inl, inr, ltb,
}
use hicho.Common.Int.{pos}
use hicho.Common.Map.{lookup, remove, modify, modify_absent}
use hicho.Cache.{Cache}
use hicho.Clock.{now_unix}
use hicho.Pastebin.Domain.PasteId.{IsId, from_trusted, parse_accepts}
use hicho.Pastebin.Domain.Paste.{Paste, is_expired}
use hicho.Pastebin.Memory.{Pastes, dispatch, add_views}
use hicho.Pastebin.Service.Snapshot.{JsonCrate, from_paste}
use hicho.Pastebin.Service.{
  Phase, ServiceError, not_found, missed, finished, Readings, advance, decode, from_cache,
  from_repository, serve, cache_ttl_secs, fetch,
}
use hicho.Pastebin.System.{World, with_cache}

module _ {C : Type 0} (c : Cache C) (json : JsonCrate) where
  abbrev world : Pastes → C → World C
  world m s = record { pastes = some m; cached = s }

  -- what is offered to the cache
  abbrev filled : Bytes → Readings → Paste → C → C
  filled i r p s =
      let ttl = cache_ttl_secs p (now_unix r.filled_at) in
      if ltb 0 ttl
      then elim (json.to_string (from_paste p)) [ none ↦ s | some text ↦ c.set i text ttl s ]
      else s

  -- what `fetch` does with a stored paste, in one place
  abbrev from_store : Bytes → Readings → Pastes → C → Result ServiceError Paste × World C
  from_store i r m s = elim (lookup i m) [
    | none ↦ (err not_found, world m s)
    | some p ↦
        if is_expired p (now_unix r.stored_at)
        then (err not_found, world (remove i m) (c.delete i s))
        else if p.one_shot
        then (ok p, world (remove i m) s)
        else (ok p, world (modify i (add_views (pos 1)) m) (filled i r p s))
  ]

  -- the whole of `fetch`
  abbrev pub outcome : Bytes → Readings → Pastes → C → Result ServiceError Paste × World C
  outcome i r m s =
      let (entry, s') = c.get i s in
      elim (decode json (with_cache c) entry) [
        | none ↦ from_store i r m s'
        | some p ↦
            if is_expired p (now_unix r.cached_at)
            then from_store i r m (c.delete i s')
            else (ok p, world (modify i (add_views (pos 1)) m) s')
      ]

  -- the rest of a call whose cache lookup has failed
  abbrev uncached : Bytes → Readings → World C → Phase × World C
  uncached i r w =
      let (p₂, w₂) = advance json (with_cache c) (from_trusted i) r missed w in
      advance json (with_cache c) (from_trusted i) r p₂ w₂

  serve_lem :
      (i : Bytes) (r : Readings) (m : Pastes) (s : C) (p : Paste)
      → lookup i m ≡ some p
      → serve json (with_cache c) (from_trusted i) r p (world m s) ≡ from_store i r m s
  unfolding serve dispatch
  serve_lem i r m s p found = elim (Bool-cases (is_expired p (now_unix r.stored_at))) [
    | inl old ↦ ground arith
    | inr live ↦ elim (Bool-cases p.one_shot) [
      | inl once ↦ ground arith
      | inr many ↦ elim (Option-cases (json.to_string (from_paste p))) [
        | inl failed ↦ ground arith
        | inr (text, e) ↦ ground arith
      ]
    ]
  ]

  from_store_lem :
      (i : Bytes) (r : Readings) (m : Pastes) (s : C)
      → uncached i r (world m s) ≡ (finished (from_store i r m s).0, (from_store i r m s).1)
  unfolding advance from_repository dispatch
  from_store_lem i r m s = elim (Option-cases (lookup i m)) [
    | inl missing ↦ ground arith
    | inr (p, found) ↦ ground (arith, serve_lem i r m s p found)
  ]

  -- On a running store `fetch` of a valid id serves an unexpired cached paste, else what is stored:
  -- a one-shot paste is taken out as it is served, any other is offered to the cache, an expired one
  -- is purged from the store and the cache and not found. Each paste that is served and stays stored
  -- gains one view; no other paste changes.
  pub fetch-outcome :
      (i : Bytes) (r : Readings) (m : Pastes) (s : C)
      → IsId i
      → fetch json (with_cache c) i r (world m s) ≡ outcome i r m s
  unfolding fetch advance from_cache dispatch
  fetch-outcome i r m s v = elim (Option-cases (decode json (with_cache c) (c.get i s).0)) [
    | inl miss ↦ ground (arith, parse_accepts i v, from_store_lem i r m (c.get i s).1)
    | inr (p, hit) ↦ elim (Bool-cases (is_expired p (now_unix r.cached_at))) [
      | inl old ↦ ground (arith, parse_accepts i v, from_store_lem i r m (c.delete i (c.get i s).1))
      | inr live ↦ ground (arith, parse_accepts i v, modify_absent i (add_views (pos 1)) m)
    ]
  ]
