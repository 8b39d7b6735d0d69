-- ===== src/Api.antt =====
-- The HTTP face of the services: errors and the client's address (url-shortener/src/api/mod.rs and
-- error.rs; the pastebin's have the same code where they share a function).
pub mod Links
pub mod Pastes
mod Tests
mod PasteTests
mod LinkTests
use hicho.Common.{
  ℕ, ◌≡◌, refl, Bool, true, false, Option, none, some, List, [], ◌∷◌, Bytes, bytes_key, Result, ok,
  err, if◌then◌else◌, arith, ◌++◌,
}
use hicho.Common.Text.{bytes}
use hicho.Tcp.Strings.{split, trim}
use hicho.RateLimit.{Float, RateLimiter, Buckets, check}
use hicho.Shortener.Domain.Errors.{BoxedError, ValidationError}
use hicho.Shortener.Service.{ServiceError}

pub data AppError : Type 0 where
  not_found : AppError
  validation conflict : Bytes → AppError
  internal : BoxedError → AppError

-- `AppError::status`
unfoldable pub status : AppError → ℕ
status AppError.not_found = 404
status (AppError.validation text) = 400
status (AppError.conflict text) = 409
status (internal cause) = 500

-- `IntoResponse for AppError`: the status and the text of the error, with no detail of an internal one
unfoldable pub into_response : AppError → ℕ × Bytes
into_response AppError.not_found = (status AppError.not_found, bytes "not found")
into_response (AppError.validation text) = (status (AppError.validation text), text)
into_response (AppError.conflict text) = (status (AppError.conflict text), text)
into_response (internal cause) = (status (internal cause), bytes "internal error")

-- `From<ServiceError> for AppError`; `show` is the text of a validation error.
unfoldable pub from_service : (ValidationError → Bytes) → ServiceError → AppError
from_service show (ServiceError.validation v) = AppError.validation (show v)
from_service show ServiceError.not_found = AppError.not_found
from_service show ServiceError.conflict = AppError.conflict (bytes "short code already in use")
from_service show ServiceError.blocked = AppError.validation (bytes "target host is not allowed")
from_service show (ServiceError.backend cause) = internal cause

-- What `client_ip` reads of a request: two headers as text, if they are there, and the peer. The
-- parser of addresses is of the standard library.
pub record Request : Type 0 where
  pub x_forwarded_for : Option Bytes
  pub x_real_ip : Option Bytes
  pub peer : Option Bytes

-- the first of the addresses in `x-forwarded-for`
abbrev first_hop : Bytes → Bytes
first_hop xff = elim (split b',' xff) [ [] ↦ [] | first ∷ rest ↦ trim first ]

abbrev or_else : Option Bytes → Option Bytes → Option Bytes
or_else none other = other
or_else (some a) other = some a

-- `and_then` with a parser
abbrev parsed : (Bytes → Option Bytes) → Option Bytes → Option Bytes
parsed parse none = none
parsed parse (some text) = parse text

-- the address that a trusted proxy names
unfoldable pub forwarded_ip : (Bytes → Option Bytes) → Request → Option Bytes
forwarded_ip parse_ip request =
    or_else (parsed (λ xff. parse_ip (first_hop xff)) request.x_forwarded_for)
      (parsed (λ real. parse_ip (trim real)) request.x_real_ip)

abbrev unspecified : Bytes
unspecified = bytes "0.0.0.0"

abbrev peer_or : Option Bytes → Bytes
peer_or none = unspecified
peer_or (some ip) = ip

-- `client_ip`
unfoldable pub client_ip : (Bytes → Option Bytes) → Request → Bool → Bytes
client_ip parse_ip request trust_proxy =
    if trust_proxy
    then elim (forwarded_ip parse_ip request) [ none ↦ peer_or request.peer | some ip ↦ ip ]
    else peer_or request.peer

module _ (float : Float) {W B : Type 0} where
  -- `rate_limit`: `next` is the rest of the service, on its world; the buckets are the limiter's, and
  -- `error` is the JSON object of an error text.
  unfoldable pub rate_limit :
      RateLimiter float
      → (Bytes → Option Bytes)
      → Bool
      → (Bytes → B)
      → (W → (ℕ × B) × W)
      → ℕ
      → Request
      → Buckets float × W
      → (ℕ × B) × (Buckets float × W)
  rate_limit l parse_ip trust_proxy error next now request (buckets, w) =
      let (is_allowed, buckets') =
        check float l (client_ip parse_ip request trust_proxy) now buckets in
      if is_allowed
      then (let (answer, w') = next w in (answer, (buckets', w')))
      else ((429, error (bytes "rate limit exceeded")), (buckets', w))

-- Unless proxies are trusted, a client's headers have no part in the limit: two requests from one
-- peer at one moment get the same verdict, answer and buckets, whatever headers they carry.
pub headers_ignored :
    (float : Float) {W B : Type 0} (l : RateLimiter float) (parse_ip : Bytes → Option Bytes)
    (error : Bytes → B) (next : W → (ℕ × B) × W) (now : ℕ) (a b : Request) (s : Buckets float × W)
    → a.peer ≡ b.peer
    → rate_limit float l parse_ip false error next now a s
      ≡ rate_limit float l parse_ip false error next now b s
unfolding rate_limit client_ip
headers_ignored float l parse_ip error next now a b s same = rw same refl
