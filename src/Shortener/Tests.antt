-- ===== src/Shortener/Tests.antt =====
-- Runs of the URL shortener (url-shortener/src) over a small store and the in-memory cache.
use hicho.Common.{
  ℕ, ◌≡◌, ◌↔◌, refl, true, none, some, [], ◌∷◌, Bytes, bytes_key, bytes_eq, bytes_eq_iff, arith, ok,
  err, inr,
}
use hicho.Common.Int.{pos, as_i64}
use hicho.Common.Map.{lookup, insert}
use hicho.Common.Text.{bytes, all, is_ascii_alphanumeric, starts_with}
use hicho.Api.Links.{redirect, redirect_to_stored}
use hicho.Cache.{in_memory, InMemoryCache, send}
use hicho.Cache.Lawful.{in_memory-Lawful}
use hicho.Clock.{now_unix}
use hicho.Shortener.Domain.ShortCode.{IsCode, from_trusted, parse_code-Answers, Answers}
use hicho.Shortener.Domain.ShortCode
use hicho.Shortener.Domain.TargetUrl
use hicho.Shortener.Domain.TargetUrl.{UrlCrate}
use hicho.Shortener.Domain.Link.{Link, is_expired}
use hicho.Shortener.Memory.{Links, dispatch}
use hicho.Shortener.Service.{
  not_found, create, resolve, resolve_uncached, get, delete, host_blocked, cache_ttl_secs,
}
use hicho.Shortener.Service.Blocklist.{CoveredBy, host_blocked_iff}
use hicho.Shortener.System.{World, with_cache}
use hicho.Shortener.System.Create.{Creates, create-Creates}
use hicho.Shortener.System.Resolve.{Gets, get-Gets, ResolvesVia, resolve-ResolvesVia}
use hicho.Shortener.System.Coherence.{stored_target, IsCoherent}
use hicho.Shortener.System.Stale.{get_leaves_stale}
use hicho.Shortener.System.Reach.{Reach, here, next, resolve_call, resolve_serves_stored}
use hicho.Shortener.System.Valid.{IsValidStore, calls-IsValidStore}

-- A URL crate that takes each string for an HTTP URL of one host.
abbrev one_host : UrlCrate
one_host = record {
  Url = Bytes;
  parse_url = some;
  scheme = λ u. bytes "http";
  has_host = λ u. true;
  host_str = λ u. some (bytes "example.com");
}

abbrev target : Bytes
target = bytes "http://example.com/"

abbrev code : Bytes
code = bytes "abc"

abbrev link : Link
link = record {
  code = from_trusted code;
  target = TargetUrl.from_trusted target;
  created_at = pos 0;
  hits = pos 0;
  expires_at = none;
}

-- A link that expires at 50.
abbrev old_link : Link
old_link = record link { expires_at = some (pos 50) }

abbrev links : Links
links = (code, link) ∷ []

abbrev old_links : Links
old_links = (code, old_link) ∷ []

abbrev empty_cache : InMemoryCache
empty_cache = some []

abbrev warm_cache : InMemoryCache
warm_cache = some ((code, target) ∷ [])

abbrev world : Links → InMemoryCache → World InMemoryCache
world m s = record { links = some m; cached = s }

abbrev zeros : ℕ → ℕ → ℕ
zeros i j = 0

code-IsCode : IsCode code
unfolding starts_with
code-IsCode = record {
  long_enough = omega arith;
  short_enough = omega arith;
  charset = (
    inr (inr (omega arith, omega arith)),
    (inr (inr (omega arith, omega arith)), (inr (inr (omega arith, omega arith)), tt)),
  );
}

start-IsCoherent : IsCoherent in_memory-Lawful (world links empty_cache)
unfolding lookup
start-IsCoherent k t h = cc

resolved-Reach :
    Reach in_memory-Lawful [] one_host
      (world links empty_cache)
      (resolve (with_cache [] in_memory) code (some 10) (some 10) (world links empty_cache)).1
resolved-Reach = next here (resolve_call (world links empty_cache) code (some 10) (some 10))

resolve_serves_stored_example :
    stored_target code
      (resolve (with_cache [] in_memory) code (some 10) (some 10) (world links empty_cache)).1.links
    ≡ some target
unfolding resolve resolve_uncached dispatch lookup send bytes_eq is_expired all
    is_ascii_alphanumeric ShortCode.parse now_unix cache_ttl_secs insert
resolve_serves_stored_example =
    resolve_serves_stored in_memory-Lawful [] one_host code (some 20) (some 20)
      (TargetUrl.from_trusted target) start-IsCoherent resolved-Reach refl

create-Creates_example :
    Creates in_memory [] one_host target none none (some 10) zeros links empty_cache (
      create one_host
        (with_cache [] in_memory)
        target
        none
        none
        (some 10)
        zeros
        (world links empty_cache))
create-Creates_example =
    create-Creates in_memory [] one_host target none none (some 10) zeros links empty_cache
      (λ i j. omega arith)

get-Gets_example :
    Gets code
      (now_unix (some 10))
      links
      empty_cache
      (get (with_cache [] in_memory) code (some 10) (world links empty_cache))
get-Gets_example = get-Gets in_memory [] code (some 10) links empty_cache

resolve-ResolvesVia_example :
    ResolvesVia in_memory code
      (now_unix (some 10))
      (now_unix (some 10))
      links
      (in_memory.get code empty_cache).0
      (in_memory.get code empty_cache).1
      (resolve (with_cache [] in_memory) code (some 10) (some 10) (world links empty_cache))
resolve-ResolvesVia_example =
    resolve-ResolvesVia in_memory [] code (some 10) (some 10) links empty_cache code-IsCode

empty-not-IsCode : ¬ IsCode []
empty-not-IsCode h = omega (arith, h.long_enough)

links-IsValidStore : IsValidStore (some links)
unfolding lookup
links-IsValidStore k = ground (arith, bytes_eq_iff code k, code-IsCode)

calls-IsValidStore_example :
    let w = world links empty_cache in
    IsValidStore
      (create one_host (with_cache [] in_memory) code none none (some 10) zeros w).1.links
    × IsValidStore (resolve (with_cache [] in_memory) code (some 10) (some 10) w).1.links
    × IsValidStore (get (with_cache [] in_memory) code (some 10) w).1.links
    × IsValidStore (delete (with_cache [] in_memory) code w).1.links
calls-IsValidStore_example =
    calls-IsValidStore in_memory [] one_host code none none (some 10) (some 10) zeros links
      empty_cache (λ i j. omega arith) links-IsValidStore

get_leaves_stale_example :
    let (answer, w) = get (with_cache [] in_memory) code (some 60) (world old_links warm_cache) in
    (answer ≡ err not_found)
    × (stored_target code w.links ≡ none)
    × ((resolve (with_cache [] in_memory) code (some 60) (some 60) w).0
        ≡ ok (TargetUrl.from_trusted target))
unfolding lookup bytes_eq is_expired now_unix send as_i64
get_leaves_stale_example =
    get_leaves_stale in_memory [] code target (some 60) (some 60) (some 60) old_links warm_cache
      old_link code-IsCode refl refl refl

host_blocked_iff_example :
    (host_blocked (bytes "bad.com" ∷ []) (some (bytes "www.bad.com")) ≡ true)
    ↔ CoveredBy (bytes "bad.com" ∷ []) (bytes "www.bad.com")
host_blocked_iff_example = host_blocked_iff (bytes "bad.com" ∷ []) (some (bytes "www.bad.com"))

redirect_to_stored_example :
    let status : ℕ = 302 in
    (status ≡ 302)
    × (stored_target code
          (resolve
            (with_cache [] in_memory)
            code
            (some 10)
            (some 10)
            (world links empty_cache)).1.links
        ≡ some target)
unfolding redirect resolve resolve_uncached dispatch lookup insert send bytes_eq is_expired all
    is_ascii_alphanumeric ShortCode.parse now_unix cache_ttl_secs
redirect_to_stored_example =
    redirect_to_stored in_memory-Lawful [] one_host (λ v. []) (λ t. true) code (some 20) (some 20) 0
      302 target start-IsCoherent resolved-Reach refl
