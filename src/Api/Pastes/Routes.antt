-- ===== src/Api/Pastes/Routes.antt =====
-- `router` (pastebin-service/src/api/mod.rs): which handler answers a request.
use hicho.Common.{ℕ, Option, List, [], ◌∷◌, Bytes}
use hicho.Common.Text.{bytes}
use hicho.Pastebin.Domain.Errors.{ValidationError}
use hicho.Pastebin.Service.{PasteService, Readings}
use hicho.Pastebin.Service.Snapshot.{JsonCrate}
use hicho.Api.Pastes.{
  CreatePasteRequest, Response, typed, status, pastes_served, State, javascript, create_paste,
  get_paste, raw_paste, delete_paste, readiness,
}

-- The pages and scripts that are compiled in.
pub record Assets : Type 0 where
  pub index_html : Bytes
  pub app_js : Bytes
  pub qrcode_js : Bytes

-- The routes of `router`, with what the handler reads of the request, the clock and the generator.
pub data Endpoint : Type 0 where
  get_index get_app_js get_qrcode_js get_health get_ready get_metrics : Endpoint
  post_paste : CreatePasteRequest → Option ℕ → (ℕ → ℕ → ℕ) → Endpoint
  get_by_id get_raw : Bytes → Readings → Endpoint
  delete_by_id : Bytes → Endpoint

module _ (assets : Assets) (show : ValidationError → Bytes) (json : JsonCrate) (base_url : Bytes)
    {W : Type 0} (s : PasteService W) where
  unfoldable pub handle : Endpoint → State W → Response × State W
  handle get_index st = ((200, typed (bytes "text/html; charset=utf-8") assets.index_html), st)
  handle get_app_js st = (javascript assets.app_js, st)
  handle get_qrcode_js st = (javascript assets.qrcode_js, st)
  handle get_health st = ((200, status (bytes "ok")), st)
  handle get_ready st = readiness show s st
  handle get_metrics st = ((200, pastes_served st.served), st)
  handle (post_paste req now draws) st = create_paste show s base_url req now draws st
  handle (get_by_id id r) st = get_paste show s json id r st
  handle (get_raw id r) st = raw_paste show s json id r st
  handle (delete_by_id id) st = delete_paste show s id st

  -- The requests in order, with their responses.
  unfoldable pub run : List Endpoint → State W → List (Endpoint × Response) × State W
  run [] st = ([], st)
  run (e ∷ es) st =
      let (response, st₁) = handle e st in let (log, st₂) = run es st₁ in ((e, response) ∷ log, st₂)
