-- ===== src/Shortener/Domain/TargetUrl.antt =====
-- `TargetUrl` (url-shortener/src/domain/mod.rs). The crate `url` is a parameter.
use hicho.Common.{
  ℕ, Bool, ◌||◌, not, Option, none, some, ltb, if◌then◌else◌, Bytes, bytes_eq, length, map, Result,
  ok, err,
}
use hicho.Common.Text.{bytes, to_ascii_lowercase}
use hicho.Shortener.Domain.Errors.{ValidationError, url_too_long, url_invalid, url_scheme}

-- `url::Url` with the methods that the service calls
pub record UrlCrate : Type 1 where
  pub Url : Type 0
  pub parse_url : Bytes → Option Url
  pub scheme : Url → Bytes
  pub has_host : Url → Bool
  pub host_str : Url → Option Bytes

abbrev pub url_max_len : ℕ
url_max_len = 2048

pub record TargetUrl : Type 0 where
  pub as_str : Bytes

abbrev pub from_trusted : Bytes → TargetUrl
from_trusted value = record { as_str = value }

module _ (url : UrlCrate) where
  open url use {Url, parse_url, scheme, has_host, host_str}

  -- the tests on the parsed URL
  check_url : Bytes → Url → Result ValidationError TargetUrl
  check_url value parsed =
      if not (bytes_eq (scheme parsed) (bytes "http") || bytes_eq (scheme parsed) (bytes "https"))
      then err url_scheme
      else if not (has_host parsed)
      then err url_invalid
      else ok (record { as_str = value })

  unfoldable pub parse : Bytes → Result ValidationError TargetUrl
  unfolding check_url
  parse raw =
      if ltb url_max_len (length raw)
      then err url_too_long
      else elim (parse_url raw) [ none ↦ err url_invalid | some parsed ↦ check_url raw parsed ]

  -- `TargetUrl::host`
  unfoldable pub host : TargetUrl → Option Bytes
  host target = elim (parse_url target.as_str) [
    | none ↦ none
    | some u ↦ elim (host_str u) [ none ↦ none | some h ↦ some (map to_ascii_lowercase h) ]
  ]
