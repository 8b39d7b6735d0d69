-- ===== src/Pastebin/System/Burning/Calls.antt =====
-- One step of a call over such a repository (pastebin-service/src/application/mod.rs).
use hicho.Common.{
  ℕ, ◌+◌, ◌≤◌, ◌≡◌, true, false, Bytes, bytes_eq, bytes_eq_iff, arith, if◌then◌else◌, Bool-cases,
  Option-cases, Result-cases, inl, inr,
}
use hicho.Common.Int.{pos}
use hicho.Cache.{Cache}
use hicho.Cache.Lawful.{Lawful}
use hicho.Clock.{now_unix}
use hicho.Pastebin.Domain.PasteId.{from_trusted, parse_cases}
use hicho.Pastebin.Domain.Paste.{Paste, PasteRepository, is_expired}
use hicho.Pastebin.Service.Snapshot.{JsonCrate, from_paste}
use hicho.Pastebin.Service.{
  delete, Phase, start, missed, loaded, finished, Readings, advance, from_cache, from_repository,
  serve, cache_ttl_secs,
}
use hicho.Pastebin.System.OneShot.{HasOneShot, served_by}
use hicho.Pastebin.System.Burning.{World, with_cache, OneShotStore, NotCached}

module _ {D C : Type 0} {repo : PasteRepository D} {c : Cache C} (law : Lawful c) (json : JsonCrate)
    (k : Bytes) {IsBurning : D → Type 0} {count : D → ℕ}
    (one : OneShotStore repo k IsBurning count) where
  abbrev pub Kept : World D C → Type 0
  Kept w = IsBurning w.store × NotCached repo law json k w.cached

  abbrev pub at : D → C → World D C
  at d s = record { store = d; cached = s }

  -- One call and the world, before a step and after it.
  abbrev pub Burns : Bytes → Phase × World D C → Phase × World D C → Type 0
  Burns i (p, w) (p', w') =
      HasOneShot k i p'
      × Kept w'
      × ((if bytes_eq i k then served_by p' else 0) + count w'.store
          ≤ (if bytes_eq i k then served_by p else 0) + count w.store)

  from_repository-Burns :
      (i : Bytes) (d : D) (s : C)
      → Kept (at d s)
      → Burns i
          (missed, at d s)
          (from_repository json (with_cache repo c) (from_trusted i) (at d s))
  unfolding from_repository
  from_repository-Burns i d s h = elim (Result-cases (repo.get (from_trusted i) d).0) [
    | inr (e, failed) ↦
        ground (arith, one.get_burns (from_trusted i) d h.0, one.get_count (from_trusted i) d h.0)
    | inl (answer, got) ↦ elim (Option-cases answer) [
      | inl absent ↦
          ground (arith, one.get_burns (from_trusted i) d h.0, one.get_count (from_trusted i) d h.0)
      | inr (p, there) ↦ ground (
        arith,
        one.get_burns (from_trusted i) d h.0,
        one.get_count (from_trusted i) d h.0,
        one.get_one_shot (from_trusted i) d p h.0,
      )
    ]
  ]

  -- What `serve` leaves, by the branch it takes.
  abbrev ServeBurns : Bytes → Readings → Paste → D → C → Type 0
  ServeBurns i r p d s =
      let (answer, w) = serve json (with_cache repo c) (from_trusted i) r p (at d s) in
      Burns i (loaded p, at d s) (finished answer, w)

  expired-Burns :
      (i : Bytes) (r : Readings) (p : Paste) (d : D) (s : C)
      → is_expired p (now_unix r.stored_at) ≡ true
      → Kept (at d s)
      → ServeBurns i r p d s
  unfolding serve
  expired-Burns i r p d s late h = ground (
    arith,
    one.delete_burns (from_trusted i) d h.0,
    one.delete_count (from_trusted i) d h.0,
    law.after_delete i k s,
  )

  take-Burns :
      (i : Bytes) (r : Readings) (p : Paste) (d : D) (s : C)
      → is_expired p (now_unix r.stored_at) ≡ false
      → p.one_shot ≡ true
      → Kept (at d s)
      → ServeBurns i r p d s
  unfolding serve
  take-Burns i r p d s fresh burns h = elim (Result-cases (repo.take (from_trusted i) d).0) [
    | inr (e, failed) ↦
        ground (arith, one.take_burns (from_trusted i) d h.0, one.take_count (from_trusted i) d h.0)
    | inl (answer, got) ↦ elim (Option-cases answer) [
      | inl absent ↦
          ground
            (arith, one.take_burns (from_trusted i) d h.0, one.take_count (from_trusted i) d h.0)
      | inr (q, there) ↦
          ground
            (arith, one.take_burns (from_trusted i) d h.0, one.take_count (from_trusted i) d h.0)
    ]
  ]

  view-Burns :
      (i : Bytes) (r : Readings) (p : Paste) (d : D) (s : C)
      → is_expired p (now_unix r.stored_at) ≡ false
      → p.one_shot ≡ false
      → bytes_eq i k ≡ false
      → Kept (at d s)
      → ServeBurns i r p d s
  unfolding serve
  view-Burns i r p d s fresh kept other h = elim (Option-cases (json.to_string (from_paste p))) [
    | inl failed ↦ ground (
      arith,
      one.add_burns (from_trusted i) (pos 1) d other h.0,
      one.add_count (from_trusted i) (pos 1) d other h.0,
    )
    | inr (text, e) ↦ ground (
      arith,
      one.add_burns (from_trusted i) (pos 1) d other h.0,
      one.add_count (from_trusted i) (pos 1) d other h.0,
      law.after_set i k text (cache_ttl_secs p (now_unix r.filled_at)) s,
    )
  ]

  serve-Burns :
      (i : Bytes) (r : Readings) (p : Paste) (d : D) (s : C)
      → HasOneShot k i (loaded p)
      → Kept (at d s)
      → ServeBurns i r p d s
  serve-Burns i r p d s mine h = elim (Bool-cases (is_expired p (now_unix r.stored_at))) [
    | inl late ↦ expired-Burns i r p d s late h
    | inr fresh ↦ elim (Bool-cases p.one_shot) [
      | inl burns ↦ take-Burns i r p d s fresh burns h
      | inr kept ↦ elim (Bool-cases (bytes_eq i k)) [
        | inl same ↦ absurd (ground (arith, mine same))
        | inr other ↦ view-Burns i r p d s fresh kept other h
      ]
    ]
  ]

  from_cache-Burns :
      (i : Bytes) (r : Readings) (d : D) (s : C)
      → Kept (at d s)
      → Burns i (start, at d s) (from_cache json (with_cache repo c) (from_trusted i) r (at d s))
  unfolding from_cache
  from_cache-Burns i r d s h = elim (Bool-cases (bytes_eq i k)) [
    | inl same ↦ ground (
      arith,
      bytes_eq_iff i k,
      law.got i s,
      law.after_get i k s,
      law.after_delete i k (c.get i s).1,
    )
    | inr other ↦ ground (
      arith,
      law.after_get i k s,
      law.after_delete i k (c.get i s).1,
      one.add_burns (from_trusted i) (pos 1) d other h.0,
      one.add_count (from_trusted i) (pos 1) d other h.0,
    )
  ]

  pub advance-Burns :
      (i : Bytes) (r : Readings) (p : Phase) (w : World D C)
      → HasOneShot k i p
      → Kept w
      → Burns i (p, w) (advance json (with_cache repo c) (from_trusted i) r p w)
  unfolding advance
  advance-Burns i r start w mine h = from_cache-Burns i r w.store w.cached h
  advance-Burns i r missed w mine h = from_repository-Burns i w.store w.cached h
  advance-Burns i r (loaded q) w mine h = serve-Burns i r q w.store w.cached mine h
  advance-Burns i r (finished a) w mine h = (tt, h, omega arith)

  pub delete-Burns :
      (raw : Bytes) (w : World D C)
      → Kept w
      → let w' = (delete (with_cache repo c) raw w).1 in Kept w' × (count w'.store ≤ count w.store)
  unfolding delete
  delete-Burns raw w h = elim (parse_cases raw) [
    | inr (e, bad) ↦ rw bad (h, omega arith)
    | inl good ↦ elim (Result-cases (repo.delete (from_trusted raw) w.store).0) [
      | inr (e, failed) ↦ ground (
        arith,
        one.delete_burns (from_trusted raw) w.store h.0,
        one.delete_count (from_trusted raw) w.store h.0,
      )
      | inl (removed, done) ↦ ground (
        arith,
        one.delete_burns (from_trusted raw) w.store h.0,
        one.delete_count (from_trusted raw) w.store h.0,
        law.after_delete raw k w.cached,
      )
    ]
  ]
