-- ===== src/Pastebin/Tests.antt =====
-- Runs of the pastebin (pastebin-service/src) over a small store and the in-memory cache.
use hicho.Common.{
  ok, ℕ, ◌≤◌, ◌≡◌, refl, Bool, true, false, Option, none, some, List, [], ◌∷◌, Bytes, bytes_key,
  bytes_eq, arith, inr, ◌++◌, length, take, drop, take-append, drop-append,
}
use hicho.Common.Int.{ℤ, pos, negsuc}
use hicho.Common.Map.{lookup, insert, remove}
use hicho.Common.Text.{bytes, all, is_ascii_alphanumeric}
use hicho.Cache.{in_memory, InMemoryCache, send}
use hicho.Cache.Lawful.{in_memory-Lawful}
use hicho.Clock.{now_unix, ttl_until}
use hicho.Pastebin.Domain.PasteId
use hicho.Pastebin.Domain.PasteId.{IsId, from_trusted, parse_id-Answers}
use hicho.Pastebin.Domain.Content
use hicho.Pastebin.Domain.Content.{parse_content-Answers}
use hicho.Pastebin.Domain.Paste.{Paste, is_expired}
use hicho.Pastebin.Memory.{Pastes, dispatch}
use hicho.Pastebin.Service.Snapshot.{JsonCrate, CachedPaste, ReadsBack, from_paste, into_paste}
use hicho.Pastebin.Service.{
  delete, start, Readings, advance, from_cache, from_repository, serve, cache_ttl_secs, create,
  fetch, decode,
}
use hicho.Pastebin.System.{World, with_cache}
use hicho.Pastebin.System.OneShot.{Task, served}
use hicho.Pastebin.System.OneShot.Turns.{Turn, fetch_step, run_turns, served-le-one}
use hicho.Pastebin.System.Fetch.{outcome, fetch-outcome}
use hicho.Pastebin.System.Race.{delete_then_fill}
use hicho.Pastebin.System.Create.{Creates, create_paste-Creates}
use hicho.Pastebin.System.Agreement.Reach.{
  IsAgreed, Stores, here, next, fetch_call, fetch_serves_stored, one_shot_never_cached,
}

-- A JSON crate that writes pastes with no syntax, expiry or burning, as a list of numbers.
abbrev write : Bytes → Bytes → Option Bytes → ℤ → Option ℤ → Bool → ℤ → Option Bytes
write i text none (pos at) none false (pos views) = some (at ∷ views ∷ length i ∷ (i ++ text))
write _ _ _ _ _ _ _ = none

abbrev read : Bytes → Option CachedPaste
read (at ∷ views ∷ n ∷ rest) = some (record {
  id = take n rest;
  content = drop n rest;
  syntax = none;
  created_at = pos at;
  expires_at = none;
  one_shot = false;
  views = pos views;
})
read _ = none

read-write :
    (i text : Bytes) (syntax : Option Bytes) (at : ℤ) (exp : Option ℤ) (once : Bool) (views : ℤ)
    (s : Bytes)
    → write i text syntax at exp once views ≡ some s
    → read s
      ≡ some (record {
        id = i;
        content = text;
        syntax = syntax;
        created_at = at;
        expires_at = exp;
        one_shot = once;
        views = views;
      })
read-write i text none (pos at) none false (pos views) s e =
    ground (arith, take-append i text, drop-append i text)
read-write i text none (pos at) none false (negsuc n) s e = cc
read-write i text none (pos at) none true views s e = cc
read-write i text none (pos at) (some x) once views s e = cc
read-write i text none (negsuc n) exp once views s e = cc
read-write i text (some x) at exp once views s e = cc

abbrev numbers_json : JsonCrate
numbers_json = record {
  to_string = λ c. write c.id c.content c.syntax c.created_at c.expires_at c.one_shot c.views;
  from_str = read;
}

numbers_json-ReadsBack : ReadsBack numbers_json
numbers_json-ReadsBack c text e =
    read-write c.id c.content c.syntax c.created_at c.expires_at c.one_shot c.views text e

abbrev paste : Paste
paste = record {
  id = from_trusted (bytes "abc");
  content = Content.from_trusted (bytes "hello");
  syntax = none;
  created_at = pos 0;
  expires_at = none;
  one_shot = true;
  views = pos 0;
}

abbrev key : Bytes
key = bytes "abc"

abbrev pastes : Pastes
pastes = (key, paste) ∷ []

abbrev empty_cache : InMemoryCache
empty_cache = some []

abbrev world : World InMemoryCache
world = record { pastes = some pastes; cached = empty_cache }

-- A paste that may be read many times.
abbrev kept_paste : Paste
kept_paste = record paste { one_shot = false }

abbrev kept : World InMemoryCache
kept = record { pastes = some ((key, kept_paste) ∷ []); cached = empty_cache }

abbrev at_ten : Readings
at_ten = record { cached_at = some 10; stored_at = some 10; filled_at = some 10 }

abbrev zeros : ℕ → ℕ → ℕ
zeros i j = 0

key-IsId : IsId key
key-IsId = record {
  long_enough = omega arith;
  short_enough = omega arith;
  charset = (
    inr (inr (omega arith, omega arith)),
    (inr (inr (omega arith, omega arith)), (inr (inr (omega arith, omega arith)), tt)),
  );
}

-- Two fetches that interleave.
abbrev tasks : List Task
tasks =
    record { id = key; readings = at_ten; phase = start }
    ∷ record { id = key; readings = at_ten; phase = start }
    ∷ []

abbrev turns : List Turn
turns = fetch_step 0 ∷ fetch_step 1 ∷ fetch_step 0 ∷ fetch_step 1 ∷ fetch_step 1 ∷ fetch_step 0 ∷ []

served-le-one_example :
    served key (run_turns numbers_json (with_cache in_memory) turns (tasks, world)).0 ≤ 1
unfolding lookup bytes_eq
served-le-one_example =
    served-le-one in_memory-Lawful numbers_json key turns tasks world (refl, (refl, tt)) refl refl

fetch-outcome_example :
    fetch numbers_json (with_cache in_memory) key at_ten world
    ≡ outcome in_memory numbers_json key at_ten pastes empty_cache
fetch-outcome_example = fetch-outcome in_memory numbers_json key at_ten pastes empty_cache key-IsId

create_paste-Creates_example :
    Creates in_memory (bytes "hello") none none true (some 10) zeros [] empty_cache (
      create
        (with_cache in_memory)
        (bytes "hello")
        none
        none
        true
        (some 10)
        zeros
        (record { pastes = some []; cached = empty_cache }))
create_paste-Creates_example =
    create_paste-Creates in_memory (bytes "hello") none none true (some 10) zeros [] empty_cache
      (λ i j. omega arith)

world-IsAgreed :
    (m : Pastes)
    → IsAgreed in_memory-Lawful numbers_json (record { pastes = some m; cached = empty_cache })
unfolding lookup
world-IsAgreed m k p h = cc

-- the world after a fetch that has filled the cache
abbrev fetched : World InMemoryCache
fetched = (fetch numbers_json (with_cache in_memory) key at_ten kept).1

fetch_serves_stored_example : Stores key kept_paste fetched.pastes
unfolding fetch advance from_cache from_repository serve dispatch lookup insert send bytes_eq
    is_expired all is_ascii_alphanumeric PasteId.parse now_unix cache_ttl_secs from_paste into_paste
    ttl_until
fetch_serves_stored_example =
    fetch_serves_stored in_memory-Lawful numbers_json {first = kept} {w = fetched} key at_ten
      kept_paste numbers_json-ReadsBack (world-IsAgreed ((key, kept_paste) ∷ []))
      (next here (fetch_call kept key at_ten)) refl

one_shot_never_cached_example : decode numbers_json (with_cache in_memory) (lookup key []) ≡ none
unfolding lookup bytes_eq
one_shot_never_cached_example =
    one_shot_never_cached in_memory-Lawful numbers_json {first = world} {w = world} key paste pastes
      numbers_json-ReadsBack (world-IsAgreed pastes) here refl refl refl

delete_then_fill_example :
    let (deleted, w) = delete (with_cache in_memory) key kept in
    let (fetched, w') =
      serve numbers_json (with_cache in_memory) (from_trusted key) at_ten kept_paste w in
    (deleted ≡ ok tt)
    × (fetched ≡ ok kept_paste)
    × (w'.pastes ≡ some (remove key ((key, kept_paste) ∷ [])))
    × (decode numbers_json (with_cache in_memory) (in_memory.get key w'.cached).0 ≡ some kept_paste)
unfolding lookup bytes_eq is_expired now_unix cache_ttl_secs ttl_until from_paste
delete_then_fill_example =
    delete_then_fill numbers_json key (0 ∷ 0 ∷ 3 ∷ (key ++ bytes "hello")) kept_paste
      ((key, kept_paste) ∷ []) [] at_ten numbers_json-ReadsBack key-IsId refl refl refl refl refl
