-- ===== src/Api/Pastes.antt =====
-- The handlers of the pastebin (pastebin-service/src/api/mod.rs with error.rs and metrics.rs).
pub mod Routes
pub mod Served
pub mod Burn
use hicho.Common.{
  ℕ, ◌+◌, ◌%◌, ◌≡◌, Bool, Option, none, some, List, [], ◌∷◌, ◌++◌, Bytes, Result, ok, err,
}
use hicho.Common.Int.{ℤ}
use hicho.Common.Text.{bytes}
use hicho.Api.{AppError, into_response}
use hicho.Api.Links.{trim_end}
use hicho.Pastebin.Domain.Errors.{ValidationError}
use hicho.Pastebin.Domain.Paste.{Paste}
use hicho.Pastebin.Service.{ServiceError, PasteService, Readings, create, fetch, delete, ready}
use hicho.Pastebin.Service.Snapshot.{JsonCrate}

-- `From<ServiceError> for AppError`; `show` is the text of a validation error.
unfoldable pub from_service : (ValidationError → Bytes) → ServiceError → AppError
from_service show (ServiceError.validation v) = AppError.validation (show v)
from_service show ServiceError.not_found = AppError.not_found
from_service show ServiceError.conflict = AppError.conflict (bytes "paste id already in use")
from_service show (ServiceError.backend cause) = AppError.internal cause

pub record CreatePasteRequest : Type 0 where
  pub content : Bytes
  pub syntax : Option Bytes
  pub ttl_seconds : Option ℕ
  pub one_shot : Bool

pub record CreatePasteResponse : Type 0 where
  pub id : Bytes
  pub url : Bytes
  pub created_at : ℤ
  pub expires_at : Option ℤ
  pub one_shot : Bool

-- `CreatePasteResponse::from_paste`
unfoldable pub created_response : Paste → Bytes → CreatePasteResponse
created_response paste base_url = record {
  id = paste.id.as_str;
  url = trim_end b'/' base_url ++ (bytes "/api/pastes/" ++ paste.id.as_str);
  created_at = paste.created_at;
  expires_at = paste.expires_at;
  one_shot = paste.one_shot;
}

pub record PasteResponse : Type 0 where
  pub id : Bytes
  pub content : Bytes
  pub syntax : Option Bytes
  pub created_at : ℤ
  pub expires_at : Option ℤ
  pub one_shot : Bool
  pub views : ℤ

-- `PasteResponse::from_paste`
unfoldable pub paste_response : Paste → PasteResponse
paste_response paste = record {
  id = paste.id.as_str;
  content = paste.content.as_str;
  syntax = paste.syntax;
  created_at = paste.created_at;
  expires_at = paste.expires_at;
  one_shot = paste.one_shot;
  views = paste.views;
}

-- What a response carries: one of the bodies above or of the handlers' JSON objects, each named by
-- its member, or bytes under a content type.
pub data Body : Type 0 where
  created_body : CreatePasteResponse → Body
  paste_body : PasteResponse → Body
  typed : Bytes → Bytes → Body
  status : Bytes → Body
  pastes_served : ℕ → Body
  error : Bytes → Body
  empty : Body

abbrev pub Response : Type 0
Response = ℕ × Body

-- `Metrics::record_served`, on an `AtomicU64`
unfoldable pub record_served : ℕ → ℕ
record_served n = (n + 1) % 18446744073709551616

-- The state of the API: the service's world and the counter of `Metrics`.
pub record State (W : Type 0) : Type 0 where
  pub world : W
  pub served : ℕ

-- `Err(…)` of a handler, as `IntoResponse` sends it
abbrev pub refuse : AppError → Response
refuse e = let (code, text) = into_response e in (code, error text)

-- the script's content type
unfoldable pub javascript : Bytes → Response
javascript body = (200, typed (bytes "application/javascript; charset=utf-8") body)

module _ (show : ValidationError → Bytes) {W : Type 0} (s : PasteService W) where
  unfoldable pub create_paste :
      Bytes → CreatePasteRequest → Option ℕ → (ℕ → ℕ → ℕ) → State W → Response × State W
  create_paste base_url req now draws st =
      let (r, w) =
        create s req.content req.syntax req.ttl_seconds req.one_shot now draws st.world in
      (
        elim r [
          | ok paste ↦ (201, created_body (created_response paste base_url))
          | err e ↦ refuse (from_service show e)
        ],
        record st { world = w },
      )

  unfoldable pub delete_paste : Bytes → State W → Response × State W
  delete_paste raw st =
      let (r, w) = delete s raw st.world in
      (
        elim r [ ok _ ↦ (204, empty) | err e ↦ refuse (from_service show e) ],
        record st { world = w },
      )

  -- the handler `ready`
  unfoldable pub readiness : State W → Response × State W
  readiness st =
      let (r, w) = ready s st.world in
      (
        elim r [
          | ok _ ↦ (200, status (bytes "ready"))
          | err _ ↦ (503, status (bytes "unavailable"))
        ],
        record st { world = w },
      )

  module _ (json : JsonCrate) where
    -- The part that `get_paste` and `raw_paste` share: a fetch that is counted if it succeeds.
    fetch_counted : (Paste → Response) → Bytes → Readings → State W → Response × State W
    fetch_counted render raw r st =
        let (answer, w) = fetch json s raw r st.world in
        elim answer [
          | ok paste ↦ (render paste, record { world = w; served = record_served st.served })
          | err e ↦ (refuse (from_service show e), record st { world = w })
        ]

    unfoldable pub get_paste : Bytes → Readings → State W → Response × State W
    unfolding fetch_counted
    get_paste = fetch_counted (λ p. (200, paste_body (paste_response p)))

    unfoldable pub raw_paste : Bytes → Readings → State W → Response × State W
    unfolding fetch_counted
    raw_paste =
        fetch_counted (λ p. (200, typed (bytes "text/plain; charset=utf-8") p.content.as_str))
