-- ===== src/Api/Pastes/Served.antt =====
-- What every sequence of requests to the pastebin (pastebin-service/src/api/mod.rs) shows.
use hicho.Common.{ℕ, ◌+◌, ◌<◌, ◌==◌, if◌then◌else◌, ◌%◌, ◌≡◌, List, [], ◌∷◌, Bytes, arith}
use hicho.Common.Text.{bytes}
use hicho.Pastebin.Domain.Errors.{ValidationError}
use hicho.Pastebin.Service.{PasteService}
use hicho.Pastebin.Service.Snapshot.{JsonCrate}
use hicho.Api.{status, into_response}
use hicho.Api.Pastes.{
  Response, Body, error, State, from_service, record_served, create_paste, get_paste, raw_paste,
  delete_paste, readiness, javascript,
}
use hicho.Api.Pastes.Routes.{Assets, Endpoint, get_index, get_by_id, get_raw, handle, run}

-- 1 for a paste that was served, 0 for any other response
abbrev pub is_served : Endpoint → Response → ℕ
is_served (get_by_id id r) (code, body) = if code == 200 then 1 else 0
is_served (get_raw id r) (code, body) = if code == 200 then 1 else 0
is_served _ _ = 0

-- How many pastes the requests of a log were served.
unfoldable pub served_in : List (Endpoint × Response) → ℕ
served_in [] = 0
served_in ((e, response) ∷ log) = is_served e response + served_in log

module _ (assets : Assets) (show : ValidationError → Bytes) (json : JsonCrate) (base_url : Bytes)
    {W : Type 0} (s : PasteService W) where
  handle_served :
      (e : Endpoint) (st : State W)
      → st.served < 18446744073709551616
      → (handle assets show json base_url s e st).1.served
        ≡ (st.served + is_served e (handle assets show json base_url s e st).0)
          % 18446744073709551616
  unfolding handle create_paste get_paste raw_paste delete_paste readiness record_served
      from_service into_response status
  handle_served get_index st h = omega arith
  handle_served e st h = ground arith

-- The counter that `/metrics` reports is exact, modulo 2^64: after any sequence of requests it has
-- grown by the number of the pastes that were served, through either path, and by nothing else.
pub run-served :
    (assets : Assets) (show : ValidationError → Bytes) (json : JsonCrate) (base_url : Bytes)
    {W : Type 0} (s : PasteService W) (es : List Endpoint) (st : State W)
    → st.served < 18446744073709551616
    → (run assets show json base_url s es st).1.served
      ≡ (st.served + served_in (run assets show json base_url s es st).0) % 18446744073709551616
unfolding run served_in
run-served assets show json base_url s [] st h = omega arith
run-served assets show json base_url s (e ∷ es) st h =
    let step = handle_served assets show json base_url s e st h in
    let st' = (handle assets show json base_url s e st).1 in
    let later = run-served assets show json base_url s es st' (omega arith) in omega arith

-- The cause of an internal error stays inside: whatever is requested, in any state, a response with
-- status 500 carries only the text "internal error".
pub handle_hides_cause :
    (assets : Assets) (show : ValidationError → Bytes) (json : JsonCrate) (base_url : Bytes)
    {W : Type 0} (s : PasteService W) (e : Endpoint) (st : State W) (body : Body)
    → (handle assets show json base_url s e st).0 ≡ (500, body)
    → (handle assets show json base_url s e st).0 ≡ (500, error (bytes "internal error"))
unfolding handle create_paste get_paste raw_paste delete_paste readiness from_service into_response
    status javascript
handle_hides_cause assets show json base_url s get_index st body h = ground arith
handle_hides_cause assets show json base_url s e st body h = ground arith
