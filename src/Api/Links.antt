-- ===== src/Api/Links.antt =====
-- The handlers of the URL shortener (url-shortener/src/api/mod.rs with metrics.rs).
pub mod Routes
use hicho.Common.{
  ℕ, ◌+◌, ◌%◌, ◌≡◌, ◌==◌, Bool, Option, some, List, [], ◌∷◌, ◌++◌, Bytes, bytes_key, Result, ok,
  err, Result-cases, inl, inr, if◌then◌else◌, arith, Bool-cases,
}
use hicho.Common.Int.{ℤ}
use hicho.Common.Text.{bytes}
use hicho.Api.{AppError, from_service}
use hicho.Cache.{Cache}
use hicho.Cache.Lawful.{Lawful}
use hicho.Shortener.Domain.Errors.{ValidationError}
use hicho.Shortener.Domain.TargetUrl.{UrlCrate}
use hicho.Shortener.Domain.Link.{Link}
use hicho.Shortener.Service.{LinkService, create, resolve, get, delete}
use hicho.Shortener.System.{World, with_cache}
use hicho.Shortener.System.Coherence.{IsCoherent, stored_target}
use hicho.Shortener.System.Reach.{Reach, resolve_serves_stored}

-- `trim_end_matches` of one byte
unfoldable pub trim_end : ℕ → Bytes → Bytes
trim_end c [] = []
trim_end c (b ∷ bs) = elim (trim_end c bs) [
  | [] ↦ if b == c then [] else b ∷ []
  | d ∷ ds ↦ b ∷ d ∷ ds
]

pub record CreateLinkResponse : Type 0 where
  pub code : Bytes
  pub short_url : Bytes
  pub target : Bytes
  pub created_at : ℤ
  pub expires_at : Option ℤ

-- `CreateLinkResponse::from_link`
unfoldable pub created_response : Link → Bytes → CreateLinkResponse
created_response link base_url = record {
  code = link.code.as_str;
  short_url = trim_end b'/' base_url ++ (b'/' ∷ link.code.as_str);
  target = link.target.as_str;
  created_at = link.created_at;
  expires_at = link.expires_at;
}

pub record LinkResponse : Type 0 where
  pub code : Bytes
  pub target : Bytes
  pub created_at : ℤ
  pub hits : ℤ
  pub expires_at : Option ℤ

-- `LinkResponse::from_link`
unfoldable pub link_response : Link → LinkResponse
link_response link = record {
  code = link.code.as_str;
  target = link.target.as_str;
  created_at = link.created_at;
  hits = link.hits;
  expires_at = link.expires_at;
}

-- The state of the API: the service's world and the counter of redirects.
pub record State (W : Type 0) : Type 0 where
  pub world : W
  pub redirects : ℕ

-- `record_redirect`, on an `AtomicU64`
abbrev record_redirect : {W : Type 0} → State W → State W
record_redirect st = record st { redirects = (st.redirects + 1) % 18446744073709551616 }

-- Texts of validation errors, and the test of `HeaderValue::from_str`, of the crate `http`: whether
-- it accepts the text.
module _ (show : ValidationError → Bytes) (is_header : Bytes → Bool) {W : Type 0}
    (s : LinkService W) where
  -- `create_link`: the status with the body
  unfoldable pub create_link :
      UrlCrate
      → Bytes
      → Bytes
      → Option Bytes
      → Option ℕ
      → Option ℕ
      → (ℕ → ℕ → ℕ)
      → State W
      → Result AppError (ℕ × CreateLinkResponse) × State W
  create_link url base_url raw alias ttl_seconds now draws st =
      let (r, w) = create url s raw alias ttl_seconds now draws st.world in
      (
        elim r [
          | ok link ↦ ok (201, created_response link base_url)
          | err e ↦ err (from_service show e)
        ],
        record st { world = w },
      )

  -- `redirect`: the status with the location
  unfoldable pub redirect :
      Bytes → Option ℕ → Option ℕ → State W → Result AppError (ℕ × Bytes) × State W
  redirect code now later st =
      let (r, w) = resolve s code now later st.world in
      elim r [
        | err e ↦ (err (from_service show e), record st { world = w })
        | ok target ↦
            let counted = record_redirect (record st { world = w }) in
            if is_header target.as_str
            then (ok (302, target.as_str), counted)
            else (err (AppError.internal (bytes "failed to parse header value")), counted)
      ]

  -- `get_link`
  unfoldable pub get_link : Bytes → Option ℕ → State W → Result AppError LinkResponse × State W
  get_link code now st =
      let (r, w) = get s code now st.world in
      (
        elim r [ ok link ↦ ok (link_response link) | err e ↦ err (from_service show e) ],
        record st { world = w },
      )

  -- `delete_link`
  unfoldable pub delete_link : Bytes → State W → Result AppError ℕ × State W
  delete_link code st =
      let (r, w) = delete s code st.world in
      (elim r [ ok _ ↦ ok 204 | err e ↦ err (from_service show e) ], record st { world = w })

-- In every world that calls of `create`, `resolve`, `delete` and `get` (of links that have not
-- expired) reach from a start whose cache agrees with its store, a redirect goes only to the target
-- that the store holds for the code, with status 302.
pub redirect_to_stored :
    {C : Type 0} {c : Cache C} (law : Lawful c) (hosts : List Bytes) (url : UrlCrate)
    {start w : World C} (show : ValidationError → Bytes) (is_header : Bytes → Bool) (raw : Bytes)
    (now later : Option ℕ) (n code : ℕ) (location : Bytes)
    → IsCoherent law start
    → Reach law hosts url start w
    → (redirect show is_header
        (with_cache hosts c)
        raw
        now
        later
        (record { world = w; redirects = n })).0
      ≡ ok (code, location)
    → (code ≡ 302) × (stored_target raw w.links ≡ some location)
unfolding redirect
redirect_to_stored {c = c} law hosts url {w = w} show is_header raw now later n code location h run
      e =
    elim (Result-cases (resolve (with_cache hosts c) raw now later w).0) [
      | inr (x, failed) ↦ absurd (ground arith)
      | inl (target, found) ↦
          let stored = resolve_serves_stored law hosts url raw now later target h run found in
          elim (Bool-cases (is_header target.as_str)) [
            | inl fits ↦ ground (arith, stored)
            | inr unfit ↦ absurd (ground arith)
          ]
    ]
