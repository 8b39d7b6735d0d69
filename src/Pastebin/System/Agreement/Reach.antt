-- ===== src/Pastebin/System/Agreement/Reach.antt =====
-- Runs of the service, call by call (pastebin-service/src/application/mod.rs), with a cache that
-- may drop entries at any time.
use hicho.Common.{
  ℕ, ◌≡◌, Bool, true, Option, none, some, Bytes, bytes_key, arith, ok, Option-cases, inl, inr,
}
use hicho.Common.Map.{lookup}
use hicho.Cache.{Cache}
use hicho.Cache.Lawful.{Lawful, Shrinks}
use hicho.Pastebin.Domain.PasteId.{from_trusted, parse_cases, parse-ok}
use hicho.Pastebin.Domain.Paste.{Paste}
use hicho.Pastebin.Memory.{InMemoryPasteRepository, dispatch, Pastes}
use hicho.Pastebin.Service.Snapshot.{JsonCrate, ReadsBack}
use hicho.Pastebin.Service.{
  Readings, advance, decode, from_cache, from_repository, create, fetch, delete,
}
use hicho.Pastebin.System.{World, with_cache}
use hicho.Pastebin.System.Fetch.{fetch-outcome, outcome}
use hicho.Pastebin.System.Agreement.{IsSame, IsSame-refl, AgreesAt}
use hicho.Pastebin.System.Agreement.Calls.{fetch-AgreesAt, delete-AgreesAt, create-AgreesAt}

-- What stands under `k` is `p`, up to its views.
abbrev pub Stores : Bytes → Paste → InMemoryPasteRepository → Type 0
Stores k p none = ⊥
Stores k p (some m) = elim (lookup k m) [ none ↦ ⊥ | some q ↦ IsSame p q ]

module _ {C : Type 0} {c : Cache C} (law : Lawful c) (json : JsonCrate) where
  -- Every cached snapshot is of a stored paste that does not burn after reading.
  abbrev pub IsAgreed : World C → Type 0
  IsAgreed w = (k : Bytes) (p : Paste) → AgreesAt law json k p w

  -- One call of the service, or the loss of cache entries.
  pub data Step : World C → World C → Type 0 where
    create_call :
        (w : World C) (raw : Bytes) (syntax : Option Bytes) (ttl : Option ℕ) (once : Bool)
        (now : Option ℕ) (draws : ℕ → ℕ → ℕ)
        → Step w (create (with_cache c) raw syntax ttl once now draws w).1
    fetch_call :
        (w : World C) (raw : Bytes) (r : Readings) → Step w (fetch json (with_cache c) raw r w).1
    delete_call : (w : World C) (raw : Bytes) → Step w (delete (with_cache c) raw w).1
    evict :
        (w : World C) (s : C)
        → ((k : Bytes) → Shrinks (law.holds s k) (law.holds w.cached k))
        → Step w (record w { cached = s })

  pub data Reach (first : World C) : World C → Type 0 where
    here : Reach first first
    next : {w w' : World C} → Reach first w → Step w w' → Reach first w'

  Step-IsAgreed : {w w' : World C} → ReadsBack json → Step w w' → IsAgreed w → IsAgreed w'
  Step-IsAgreed reads (create_call w raw syntax ttl once now draws) h =
      λ k p. create-AgreesAt law json k p raw syntax ttl once now draws w.pastes w.cached (h k p)
  Step-IsAgreed reads (fetch_call w raw r) h =
      λ k p. fetch-AgreesAt law json k p raw r w.pastes w.cached reads (h k p)
  Step-IsAgreed reads (delete_call w raw) h =
      λ k p. delete-AgreesAt law json k p raw w.pastes w.cached (h k p)
  Step-IsAgreed reads (evict w s less) h = λ k p. ground (arith, less k, h k p)

  Reach-IsAgreed :
      {first w : World C} → ReadsBack json → IsAgreed first → Reach first w → IsAgreed w
  Reach-IsAgreed reads h here = h
  Reach-IsAgreed reads h (next r st) = Step-IsAgreed reads st (Reach-IsAgreed reads h r)

  outcome-Stores :
      (i : Bytes) (r : Readings) (m : Pastes) (s : C) (p : Paste)
      → AgreesAt law json i p (record { pastes = some m; cached = s })
      → (outcome c json i r m s).0 ≡ ok p
      → Stores i p (some m)
  outcome-Stores i r m s p h e = ground (arith, law.got i s, IsSame-refl p)

  agreed_fetch :
      (raw : Bytes) (r : Readings) (m : InMemoryPasteRepository) (s : C) (p : Paste)
      → AgreesAt law json raw p (record { pastes = m; cached = s })
      → (fetch json (with_cache c) raw r (record { pastes = m; cached = s })).0 ≡ ok p
      → Stores raw p m
  agreed_fetch raw r none s p h e =
      unfold fetch advance from_cache from_repository dispatch in
      ground (arith, parse_cases raw, law.got raw s)
  agreed_fetch raw r (some m) s p h e = elim (parse_cases raw) [
    | inl good ↦
        let v = (parse-ok raw (from_trusted raw) good).1 in
        ground (arith, fetch-outcome c json raw r m s v, outcome-Stores raw r m s p h)
    | inr (x, bad) ↦ unfold fetch in ground arith
  ]

-- In every world that calls of `create`, `fetch` and `delete` reach one after the other, in any
-- order and with any loss of cache entries in between, `fetch` serves under an id only the paste
-- that the store holds there, up to its count of views; from a start whose cache agrees with its
-- store. Snapshots are read back as they were written.
pub fetch_serves_stored :
    {C : Type 0} {c : Cache C} (law : Lawful c) (json : JsonCrate) {first w : World C} (raw : Bytes)
    (r : Readings) (p : Paste)
    → ReadsBack json
    → IsAgreed law json first
    → Reach law json first w
    → (fetch json (with_cache c) raw r w).0 ≡ ok p
    → Stores raw p w.pastes
fetch_serves_stored law json {w = w} raw r p reads h run e =
    agreed_fetch law json raw r w.pastes w.cached p (Reach-IsAgreed law json reads h run raw p) e

-- In every world that calls of `create`, `fetch` and `delete` reach one after the other from a
-- start whose cache agrees with its store, with any loss of cache entries in between: under the id
-- of a stored paste that burns after reading the cache holds no snapshot. Snapshots are read back
-- as they were written.
pub one_shot_never_cached :
    {C : Type 0} {c : Cache C} (law : Lawful c) (json : JsonCrate) {first w : World C} (k : Bytes)
    (p : Paste) (m : Pastes)
    → ReadsBack json
    → IsAgreed law json first
    → Reach law json first w
    → w.pastes ≡ some m
    → lookup k m ≡ some p
    → p.one_shot ≡ true
    → decode json (with_cache c) (law.holds w.cached k) ≡ none
one_shot_never_cached {c = c} law json {w = w} k p m reads h run running found once =
    elim (Option-cases (decode json (with_cache c) (law.holds w.cached k))) [
      | inl miss ↦ miss
      | inr (q, hit) ↦ ground (arith, Reach-IsAgreed law json reads h run k q hit)
    ]
