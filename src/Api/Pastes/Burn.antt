-- ===== src/Api/Pastes/Burn.antt =====
-- Burn after read, over HTTP: sequences of requests for a one-shot paste
-- (pastebin-service/src/api/mod.rs over application/mod.rs).
use hicho.Common.{
  ℕ, ◌+◌, ◌≤◌, ◌==◌, ◌≡◌, refl, inl, inr, Bool, true, false, List, [], ◌∷◌, Bytes, bytes_eq, Result,
  ok, err, arith, if◌then◌else◌,
}
use hicho.Cache.{Cache}
use hicho.Cache.Lawful.{Lawful}
use hicho.Pastebin.Domain.Errors.{ValidationError}
use hicho.Pastebin.Domain.PasteId.{from_trusted, parse_cases, parse}
use hicho.Pastebin.Domain.Paste.{Paste}
use hicho.Pastebin.Memory.{dispatch}
use hicho.Pastebin.Service.{
  ServiceError, Readings, start, advance, answer_of, fetch_id, fetch, ready, Phase,
}
use hicho.Pastebin.Service.Snapshot.{JsonCrate}
use hicho.Pastebin.System.{World, with_cache}
use hicho.Pastebin.System.OneShot.{
  StoresOneShot, NotCached, stored, advance-Burns, delete-Burns, served_by,
}
use hicho.Pastebin.System.OneShot.Turns.{stored-le-one}
use hicho.Api.{into_response, status}
use hicho.Api.Pastes.{from_service, State, Response, get_paste, raw_paste, delete_paste, readiness}
use hicho.Api.Pastes.Routes.{
  Assets, Endpoint, get_index, get_app_js, get_qrcode_js, get_health, get_ready, get_metrics,
  post_paste, get_by_id, get_raw, delete_by_id, handle, run,
}

-- 1 if the answer is a paste
abbrev given : Result ServiceError Paste → ℕ
given (ok p) = 1
given (err e) = 0

-- Three steps that hand out and keep no more than they found, and the answer of the last.
weigh :
    (mine : Bool) (given₁ given₂ given₃ answer n₀ n₁ n₂ n₃ : ℕ)
    → (if mine then given₁ else 0) + n₁ ≤ (if mine then 0 else 0) + n₀
    → (if mine then given₂ else 0) + n₂ ≤ (if mine then given₁ else 0) + n₁
    → (if mine then given₃ else 0) + n₃ ≤ (if mine then given₂ else 0) + n₂
    → answer ≤ given₃
    → (if mine then answer else 0) + n₃ ≤ n₀
weigh true given₁ given₂ given₃ answer n₀ n₁ n₂ n₃ a b c d = omega arith
weigh false given₁ given₂ given₃ answer n₀ n₁ n₂ n₃ a b c d = omega arith

module _ {C : Type 0} {c : Cache C} (law : Lawful c) (json : JsonCrate) (k : Bytes) where
  -- What is stored and cached for `k` between calls, and what a call may hand out.
  abbrev Kept : World C → Type 0
  Kept w = StoresOneShot k w.pastes × NotCached law json k w.cached

  answer_of-le : (p : Phase) → given (answer_of json (with_cache c) p) ≤ served_by p
  answer_of-le p = ground arith

  fetch_id-Burns :
      (raw : Bytes) (r : Readings) (w : World C)
      → Kept w
      → let (answer, w') = fetch_id json (with_cache c) (from_trusted raw) r w in
        Kept w'
        × ((if bytes_eq raw k then given answer else 0) + stored k w'.pastes ≤ stored k w.pastes)
  unfolding fetch_id
  fetch_id-Burns raw r w h =
      let step =
        λ (p : Phase) (v : World C). advance json (with_cache c) (from_trusted raw) r p v in
      let first = advance-Burns law json k raw r start w.pastes w.cached tt h.0 h.1 in
      let (p₁, w₁) = step start w in
      let second = advance-Burns law json k raw r p₁ w₁.pastes w₁.cached first.0 first.1 first.2 in
      let (p₂, w₂) = step p₁ w₁ in
      let third =
        advance-Burns law json k raw r p₂ w₂.pastes w₂.cached second.0 second.1 second.2 in
      let p₃ = (step p₂ w₂).0 in
      (
        (third.1, third.2),
        weigh (bytes_eq raw k) _ _ _ _ _ _ _ _ first.3 second.3 third.3 (answer_of-le p₃),
      )

  fetch_lem :
      (raw : Bytes) (r : Readings) (w : World C)
      → parse raw ≡ ok (from_trusted raw)
      → fetch json (with_cache c) raw r w ≡ fetch_id json (with_cache c) (from_trusted raw) r w
  unfolding fetch
  fetch_lem raw r w good = rw good refl

  fetch_refused :
      (raw : Bytes) (r : Readings) (w : World C) (e : ValidationError)
      → parse raw ≡ err e
      → fetch json (with_cache c) raw r w ≡ (err ServiceError.not_found, w)
  unfolding fetch
  fetch_refused raw r w e bad = rw bad refl

  fetch-Burns :
      (raw : Bytes) (r : Readings) (w : World C)
      → Kept w
      → let (answer, w') = fetch json (with_cache c) raw r w in
        Kept w'
        × ((if bytes_eq raw k then given answer else 0) + stored k w'.pastes ≤ stored k w.pastes)
  fetch-Burns raw r w h = elim (parse_cases raw) [
    | inr (e, bad) ↦ rw (fetch_refused raw r w e bad) (h, ground arith)
    | inl good ↦ rw (fetch_lem raw r w good) (fetch_id-Burns raw r w h)
  ]

  -- The endpoints that create nothing.
  abbrev pub Reads : Endpoint → Type 0
  Reads (post_paste req now draws) = ⊥
  Reads _ = Unit

  abbrev pub AllRead : List Endpoint → Type 0
  AllRead [] = Unit
  AllRead (e ∷ es) = Reads e × AllRead es

  -- 1 for a response that hands out the paste `k`
  abbrev pub hands_out : Endpoint → Response → ℕ
  hands_out (get_by_id raw r) (code, body) =
      if bytes_eq raw k then (if code == 200 then 1 else 0) else 0
  hands_out (get_raw raw r) (code, body) =
      if bytes_eq raw k then (if code == 200 then 1 else 0) else 0
  hands_out _ _ = 0

  unfoldable pub handed_out : List (Endpoint × Response) → ℕ
  handed_out [] = 0
  handed_out ((e, response) ∷ log) = hands_out e response + handed_out log

  module _ (assets : Assets) (show : ValidationError → Bytes) (base_url : Bytes) where
    abbrev Hands : Endpoint → State (World C) → Type 0
    Hands e st =
        let (response, st') = handle assets show json base_url (with_cache c) e st in
        Kept st'.world
        × (hands_out e response + stored k st'.world.pastes ≤ stored k st.world.pastes)

    get-Hands :
        (raw : Bytes) (r : Readings) (st : State (World C))
        → Kept st.world
        → Hands (get_by_id raw r) st
    unfolding handle get_paste from_service into_response status
    get-Hands raw r st h = ground (arith, fetch-Burns raw r st.world h)

    raw-Hands :
        (raw : Bytes) (r : Readings) (st : State (World C))
        → Kept st.world
        → Hands (get_raw raw r) st
    unfolding handle raw_paste from_service into_response status
    raw-Hands raw r st h = ground (arith, fetch-Burns raw r st.world h)

    ready-Hands : (st : State (World C)) → Kept st.world → Hands get_ready st
    unfolding handle readiness ready dispatch
    ready-Hands st h = ground arith

    handle-Hands : (e : Endpoint) (st : State (World C)) → Reads e → Kept st.world → Hands e st
    unfolding handle delete_paste
    handle-Hands get_index st reads h = (h, omega arith)
    handle-Hands get_app_js st reads h = (h, omega arith)
    handle-Hands get_qrcode_js st reads h = (h, omega arith)
    handle-Hands get_health st reads h = (h, omega arith)
    handle-Hands get_metrics st reads h = (h, omega arith)
    handle-Hands get_ready st reads h = ready-Hands st h
    handle-Hands (post_paste req now draws) st reads h = absurd reads
    handle-Hands (get_by_id raw r) st reads h = get-Hands raw r st h
    handle-Hands (get_raw raw r) st reads h = raw-Hands raw r st h
    handle-Hands (delete_by_id raw) st reads h =
        let (one, nc, less) = delete-Burns law json k raw st.world.pastes st.world.cached h.0 h.1 in
        ((one, nc), omega (arith, less))

    run-Hands :
        (es : List Endpoint) (st : State (World C))
        → AllRead es
        → Kept st.world
        → handed_out (run assets show json base_url (with_cache c) es st).0
          ≤ stored k st.world.pastes
    unfolding run handed_out
    run-Hands [] st reads h = omega arith
    run-Hands (e ∷ es) st reads h =
        let (kept, less) = handle-Hands e st reads.0 h in
        let later =
          run-Hands es (handle assets show json base_url (with_cache c) e st).1 reads.1 kept in
        omega (arith, less, later)

-- Burn after read holds over HTTP: in every sequence of requests that creates no paste, the paste
-- under `k` is handed out at most once, through `/api/pastes/:id` and `/raw/:id` together, if it is
-- one-shot in the store and no paste is cached under its id when the sequence starts.
pub handed_out-le-one :
    {C : Type 0} {c : Cache C} (law : Lawful c) (json : JsonCrate) (k : Bytes) (assets : Assets)
    (show : ValidationError → Bytes) (base_url : Bytes) (es : List Endpoint) (st : State (World C))
    → AllRead law json k es
    → StoresOneShot k st.world.pastes
    → NotCached law json k st.world.cached
    → handed_out law json k (run assets show json base_url (with_cache c) es st).0 ≤ 1
handed_out-le-one law json k assets show base_url es st reads one nc = omega (
  arith,
  run-Hands law json k assets show base_url es st reads (one, nc),
  stored-le-one law json k st.world.pastes,
)
