-- ===== src/Api/Links/Routes.antt =====
-- `router` and the probes of the URL shortener (url-shortener/src/api/mod.rs), and what every sequence
-- of requests shows.
use hicho.Common.{
  ℕ, ◌+◌, ◌%◌, ◌<◌, ◌≡◌, ◌==◌, Bool, true, Option, List, [], ◌∷◌, Bytes, Result, ok, err,
  if◌then◌else◌, arith, Result-cases, Bool-cases, inl, inr,
}
use hicho.Common.Text.{bytes}
use hicho.Shortener.Domain.Errors.{ValidationError}
use hicho.Shortener.Domain.TargetUrl.{UrlCrate}
use hicho.Shortener.Service.{LinkService, ready, resolve}
use hicho.Api.{AppError, into_response, from_service, status}
use hicho.Api.Links.{
  CreateLinkResponse, LinkResponse, State, create_link, redirect, get_link, delete_link,
}

-- What a response carries: a body of the handlers, a JSON object named by its member, or the
-- `Location` of a redirect.
pub data Body : Type 0 where
  created_body : CreateLinkResponse → Body
  link_body : LinkResponse → Body
  location : Bytes → Body
  status_body : Bytes → Body
  redirects_body : ℕ → Body
  error : Bytes → Body
  empty : Body

abbrev pub Response : Type 0
Response = ℕ × Body

-- A handler's result, as it is sent.
abbrev pub respond : {A : Type 0} → (A → Response) → Result AppError A → Response
respond f (ok a) = f a
respond f (err e) = let (code, text) = into_response e in (code, error text)

-- The routes, with what the handler reads of the request, the clock and the generator.
pub data Endpoint : Type 0 where
  get_health get_ready get_metrics : Endpoint
  post_link : Bytes → Option Bytes → Option ℕ → Option ℕ → (ℕ → ℕ → ℕ) → Endpoint
  get_by_code : Bytes → Option ℕ → Endpoint
  delete_by_code : Bytes → Endpoint
  follow : Bytes → Option ℕ → Option ℕ → Endpoint

module _ (show : ValidationError → Bytes) (is_header : Bytes → Bool) (url : UrlCrate)
    (base_url : Bytes) {W : Type 0} (s : LinkService W) where
  -- the handler `ready`
  unfoldable pub readiness : State W → Response × State W
  readiness st =
      let (r, w) = ready s st.world in
      (
        elim r [
          | ok _ ↦ (200, status_body (bytes "ready"))
          | err _ ↦ (503, status_body (bytes "unavailable"))
        ],
        record st { world = w },
      )

  unfoldable pub handle : Endpoint → State W → Response × State W
  unfolding readiness
  handle get_health st = ((200, status_body (bytes "ok")), st)
  handle get_ready st = readiness st
  handle get_metrics st = ((200, redirects_body st.redirects), st)
  handle (post_link raw alias ttl now draws) st =
      let (r, st') = create_link show is_header s url base_url raw alias ttl now draws st in
      (respond (λ a. (a.0, created_body a.1)) r, st')
  handle (get_by_code code now) st =
      let (r, st') = get_link show is_header s code now st in
      (respond (λ a. (200, link_body a)) r, st')
  handle (delete_by_code code) st =
      let (r, st') = delete_link show is_header s code st in (respond (λ a. (a, empty)) r, st')
  handle (follow code now later) st =
      let (r, st') = redirect show is_header s code now later st in
      (respond (λ a. (a.0, location a.1)) r, st')

  -- The requests in order, with their responses.
  unfoldable pub run : List Endpoint → State W → List (Endpoint × Response) × State W
  run [] st = ([], st)
  run (e ∷ es) st =
      let (response, st₁) = handle e st in let (log, st₂) = run es st₁ in ((e, response) ∷ log, st₂)

-- 1 for a redirect that was sent, 0 for any other response
abbrev pub is_redirected : Endpoint → Response → ℕ
is_redirected (follow code now later) (sent, body) = if sent == 302 then 1 else 0
is_redirected _ _ = 0

unfoldable pub redirected_in : List (Endpoint × Response) → ℕ
redirected_in [] = 0
redirected_in ((e, response) ∷ log) = is_redirected e response + redirected_in log

module _ (show : ValidationError → Bytes) (is_header : Bytes → Bool)
    (accepts : (text : Bytes) → is_header text ≡ true) (url : UrlCrate) (base_url : Bytes)
    {W : Type 0} (s : LinkService W) where
  handle_redirected :
      (e : Endpoint) (st : State W)
      → st.redirects < 18446744073709551616
      → (handle show is_header url base_url s e st).1.redirects
        ≡ (st.redirects + is_redirected e (handle show is_header url base_url s e st).0)
          % 18446744073709551616
  unfolding handle create_link get_link delete_link redirect from_service into_response status
  handle_redirected get_health st h = omega arith
  handle_redirected (follow code now later) st h =
      elim (Result-cases (resolve s code now later st.world).0) [
        | inl (target, found) ↦ ground (arith, accepts target.as_str)
        | inr (e, failed) ↦ ground arith
      ]
  handle_redirected e st h = omega arith

-- The counter that `/metrics` reports is exact, modulo 2^64: after any sequence of requests it has
-- grown by the number of redirects that were sent, and by nothing else, where every target that is
-- stored or cached is fit for a `Location` header.
pub run-redirected :
    (show : ValidationError → Bytes) (is_header : Bytes → Bool)
    (accepts : (text : Bytes) → is_header text ≡ true) (url : UrlCrate) (base_url : Bytes)
    {W : Type 0} (s : LinkService W) (es : List Endpoint) (st : State W)
    → st.redirects < 18446744073709551616
    → (run show is_header url base_url s es st).1.redirects
      ≡ (st.redirects + redirected_in (run show is_header url base_url s es st).0)
        % 18446744073709551616
unfolding run redirected_in
run-redirected show is_header accepts url base_url s [] st h = omega arith
run-redirected show is_header accepts url base_url s (e ∷ es) st h =
    let step = handle_redirected show is_header accepts url base_url s e st h in
    let st' = (handle show is_header url base_url s e st).1 in
    let later = run-redirected show is_header accepts url base_url s es st' (omega arith) in
    omega arith

-- The cause of an internal error stays inside: whatever is requested, in any state, a response with
-- status 500 carries only the text "internal error".
pub link_errors_hide_cause :
    (show : ValidationError → Bytes) (is_header : Bytes → Bool) (url : UrlCrate) (base_url : Bytes)
    {W : Type 0} (s : LinkService W) (e : Endpoint) (st : State W) (body : Body)
    → (handle show is_header url base_url s e st).0 ≡ (500, body)
    → (handle show is_header url base_url s e st).0 ≡ (500, error (bytes "internal error"))
unfolding handle create_link get_link delete_link redirect from_service into_response status
link_errors_hide_cause show is_header url base_url s get_health st body h = ground arith
link_errors_hide_cause show is_header url base_url s (follow code now later) st body h =
    elim (Result-cases (resolve s code now later st.world).0) [
      | inl (target, found) ↦ elim (Bool-cases (is_header target.as_str)) [
        | inl fits ↦ ground arith
        | inr unfit ↦ ground arith
      ]
      | inr (e, failed) ↦ ground arith
    ]
link_errors_hide_cause show is_header url base_url s e st body h = ground arith
