-- ===== src/Api/LinkTests.antt =====
-- Requests to the URL shortener (url-shortener/src/api/mod.rs).
use hicho.Common.{◌≡◌, refl, true, none, some, [], Bytes, bytes_key}
use hicho.Common.Int.{pos}
use hicho.Common.Text.{bytes, all, is_ascii_alphanumeric}
use hicho.Cache.{in_memory, InMemoryCache}
use hicho.Shortener.Domain.Errors.{ValidationError}
use hicho.Shortener.Domain.ShortCode.{from_trusted}
use hicho.Shortener.Domain.ShortCode
use hicho.Shortener.Domain.TargetUrl
use hicho.Shortener.Domain.TargetUrl.{UrlCrate}
use hicho.Shortener.Domain.Link.{Link}
use hicho.Shortener.Memory.{dispatch}
use hicho.Shortener.Service.{get}
use hicho.Shortener.System.{World, with_cache}
use hicho.Api.{from_service, into_response, status}
use hicho.Api.Links.{State, get_link}
use hicho.Api.Links.Routes.{get_by_code, error, handle}

-- A URL crate that takes each string for an HTTP URL of one host.
abbrev one_host : UrlCrate
one_host = record {
  Url = Bytes;
  parse_url = some;
  scheme = λ u. bytes "http";
  has_host = λ u. true;
  host_str = λ u. some (bytes "example.com");
}

abbrev show : ValidationError → Bytes
show v = bytes "invalid"

abbrev code : Bytes
code = bytes "abc"

abbrev link : Link
link = record {
  code = from_trusted code;
  target = TargetUrl.from_trusted (bytes "http://example.com/");
  created_at = pos 0;
  hits = pos 0;
  expires_at = none;
}

-- The store has stopped.
abbrev stopped : State (World InMemoryCache)
stopped = record { world = record { links = none; cached = some [] }; redirects = 0 }

stopped_lem :
    (handle show
      (λ t. true)
      one_host
      []
      (with_cache [] in_memory)
      (get_by_code code (some 1))
      stopped).0
    ≡ (500, error (bytes "internal error"))
unfolding handle get_link get dispatch all is_ascii_alphanumeric ShortCode.parse from_service
    into_response status
stopped_lem = refl
