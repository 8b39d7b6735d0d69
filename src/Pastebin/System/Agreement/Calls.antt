-- ===== src/Pastebin/System/Agreement/Calls.antt =====
-- Each call keeps the cache in agreement with the store (pastebin-service/src/application/mod.rs).
use hicho.Common.{
  ℕ, zero, suc, Bool, Option, none, some, Bytes, bytes_key, bytes_eq_iff, arith, Bool-cases,
  Option-cases, Result-cases, inl, inr,
}
use hicho.Common.Int.{ℤ}
use hicho.Common.Map.{lookup, lookup-insert, lookup-remove}
use hicho.Cache.{Cache}
use hicho.Cache.Lawful.{Lawful}
use hicho.Clock.{now_unix, expiry}
use hicho.Codes.{generate_code, max_generation_attempts}
use hicho.Pastebin.Domain.PasteId.{from_trusted, parse_cases}
use hicho.Pastebin.Domain.Content
use hicho.Pastebin.Domain.Content.{Content}
use hicho.Pastebin.Domain.Paste.{Paste, new}
use hicho.Pastebin.Memory.{InMemoryPasteRepository, dispatch}
use hicho.Pastebin.Service.Snapshot.{JsonCrate, ReadsBack}
use hicho.Pastebin.Service.{
  Phase, start, missed, loaded, finished, Readings, advance, from_cache, from_repository, create,
  attempts, generated_id_len, fetch, delete,
}
use hicho.Pastebin.System.{World, with_cache}
use hicho.Pastebin.System.Agreement.{
  AgreesAt, world, from_cache-AgreesAt, fill_cases, take-AgreesAt,
}

module _ {C : Type 0} {c : Cache C} (law : Lawful c) (json : JsonCrate) (k : Bytes)
    (p : Paste) where
  -- a fetch past the cache
  abbrev uncached : Bytes → Readings → World C → Phase × World C
  uncached i r w =
      let (p₂, w₂) = advance json (with_cache c) (from_trusted i) r missed w in
      advance json (with_cache c) (from_trusted i) r p₂ w₂

  uncached-AgreesAt :
      (i : Bytes) (r : Readings) (m : InMemoryPasteRepository) (s : C)
      → ReadsBack json
      → AgreesAt law json k p (world law json k p m s)
      → AgreesAt law json k p (uncached i r (world law json k p m s)).1
  unfolding advance from_repository dispatch
  uncached-AgreesAt i r none s reads h = ground arith
  uncached-AgreesAt i r (some m) s reads h = elim (Option-cases (lookup i m)) [
    | inl missing ↦ ground arith
    | inr (q, found) ↦ elim (Bool-cases q.one_shot) [
      | inl once ↦ ground (arith, take-AgreesAt law json k p i r q m s found once h)
      | inr many ↦ ground (arith, fill_cases law json k p i r q m s reads found many h)
    ]
  ]

  -- The phases that the cache lookup leads to.
  abbrev LeavesCache : Phase → Type 0
  LeavesCache missed = Unit
  LeavesCache (finished answer) = Unit
  LeavesCache _ = ⊥

  from_cache-phase :
      (i : Bytes) (r : Readings) (m : InMemoryPasteRepository) (s : C)
      → LeavesCache (from_cache json (with_cache c) (from_trusted i) r (world law json k p m s)).0
  unfolding from_cache dispatch
  from_cache-phase i r m s = ground arith

  -- the rest of a call after the cache lookup
  abbrev rest : Bytes → Readings → Phase × World C → Phase × World C
  rest i r (ph, w) =
      let (p₂, w₂) = advance json (with_cache c) (from_trusted i) r ph w in
      advance json (with_cache c) (from_trusted i) r p₂ w₂

  rest-AgreesAt :
      (i : Bytes) (r : Readings) (st : Phase × World C)
      → ReadsBack json
      → AgreesAt law json k p st.1
      → LeavesCache st.0
      → AgreesAt law json k p (rest i r st).1
  unfolding advance
  rest-AgreesAt i r (start, w) reads h l = absurd l
  rest-AgreesAt i r (missed, w) reads h l = uncached-AgreesAt i r w.pastes w.cached reads h
  rest-AgreesAt i r (loaded q, w) reads h l = absurd l
  rest-AgreesAt i r (finished answer, w) reads h l = h

  pub fetch-AgreesAt :
      (raw : Bytes) (r : Readings) (m : InMemoryPasteRepository) (s : C)
      → ReadsBack json
      → AgreesAt law json k p (world law json k p m s)
      → AgreesAt law json k p (fetch json (with_cache c) raw r (world law json k p m s)).1
  unfolding fetch advance
  fetch-AgreesAt raw r m s reads h = elim (parse_cases raw) [
    | inr (e, bad) ↦ ground arith
    | inl good ↦ ground (
      arith,
      rest-AgreesAt raw r
          (from_cache json (with_cache c) (from_trusted raw) r (world law json k p m s)) reads
          (from_cache-AgreesAt law json k p raw r m s h) (from_cache-phase raw r m s),
    )
  ]

  pub delete-AgreesAt :
      (raw : Bytes) (m : InMemoryPasteRepository) (s : C)
      → AgreesAt law json k p (world law json k p m s)
      → AgreesAt law json k p (delete (with_cache c) raw (world law json k p m s)).1
  unfolding delete dispatch
  delete-AgreesAt raw none s h = ground (arith, parse_cases raw, law.after_delete raw k s)
  delete-AgreesAt raw (some m) s h =
      ground (
        arith,
        parse_cases raw,
        bytes_eq_iff raw k,
        law.after_delete raw k s,
        lookup-remove raw k m,
      )

  attempts-AgreesAt :
      (n : ℕ) (draws : ℕ → ℕ → ℕ) (content : Content) (syntax : Option Bytes) (at : ℤ)
      (expires : Option ℤ) (once : Bool) (m : InMemoryPasteRepository) (s : C)
      → AgreesAt law json k p (world law json k p m s)
      → AgreesAt law json k p
          (attempts
            (with_cache c)
            n
            draws
            content
            syntax
            at
            expires
            once
            (world law json k p m s)).1
  unfolding attempts dispatch new
  attempts-AgreesAt zero draws content syntax at expires once m s h = h
  attempts-AgreesAt (suc n) draws content syntax at expires once none s h = h
  attempts-AgreesAt (suc n) draws content syntax at expires once (some m) s h =
      let i = generate_code generated_id_len (draws n) in
      ground (
        arith,
        bytes_eq_iff i k,
        lookup-insert i k (new (from_trusted i) content syntax at expires once) m,
        attempts-AgreesAt n draws content syntax at expires once (some m) s h,
      )

  pub create-AgreesAt :
      (raw : Bytes) (syntax : Option Bytes) (ttl : Option ℕ) (once : Bool) (now : Option ℕ)
      (draws : ℕ → ℕ → ℕ) (m : InMemoryPasteRepository) (s : C)
      → AgreesAt law json k p (world law json k p m s)
      → AgreesAt law json k p
          (create (with_cache c) raw syntax ttl once now draws (world law json k p m s)).1
  unfolding create
  create-AgreesAt raw syntax ttl once now draws m s h = elim (Result-cases (Content.parse raw)) [
    | inl (content, e) ↦ ground (
      arith,
      attempts-AgreesAt max_generation_attempts draws content syntax (now_unix now)
          (expiry (now_unix now) ttl) once m s h,
    )
    | inr (v, e) ↦ ground arith
  ]
