-- ===== src/Api/PasteTests.antt =====
-- Requests to the pastebin (pastebin-service/src/api/mod.rs).
use hicho.Common.{
  ◌+◌, ◌%◌, ◌≤◌, ◌≡◌, refl, true, none, some, List, [], ◌∷◌, Bytes, arith, bytes_eq, bytes_key,
}
use hicho.Common.Int.{pos}
use hicho.Common.Map.{lookup}
use hicho.Common.Text.{bytes, all, is_ascii_alphanumeric}
use hicho.Cache.{in_memory, InMemoryCache, send}
use hicho.Cache.Lawful.{in_memory-Lawful}
use hicho.Pastebin.Domain.Errors.{ValidationError}
use hicho.Pastebin.Domain.PasteId
use hicho.Pastebin.Domain.PasteId.{from_trusted}
use hicho.Pastebin.Domain.Content
use hicho.Pastebin.Domain.Paste.{Paste}
use hicho.Pastebin.Memory.{dispatch}
use hicho.Pastebin.Service.{Readings, fetch, advance, from_cache, from_repository}
use hicho.Pastebin.Service.Snapshot.{JsonCrate}
use hicho.Pastebin.System.{World, with_cache}
use hicho.Api.{into_response, status}
use hicho.Api.Pastes.{State, error, get_paste, from_service}
use hicho.Api.Pastes.Routes.{
  Assets, Endpoint, get_by_id, get_raw, get_ready, get_metrics, run, handle,
}
use hicho.Api.Pastes.Served.{run-served, served_in, handle_hides_cause}
use hicho.Api.Pastes.Burn.{handed_out, handed_out-le-one}

-- A JSON crate that writes nothing.
abbrev silent_json : JsonCrate
silent_json = record { to_string = λ c. none; from_str = λ text. none }

abbrev assets : Assets
assets = record { index_html = bytes "<html>"; app_js = bytes "run()"; qrcode_js = bytes "qr()" }

abbrev show : ValidationError → Bytes
show v = bytes "invalid"

abbrev base_url : Bytes
base_url = bytes "http://localhost"

abbrev at_ten : Readings
at_ten = record { cached_at = some 10; stored_at = some 10; filled_at = some 10 }

abbrev key : Bytes
key = bytes "abc"

abbrev paste : Paste
paste = record {
  id = from_trusted key;
  content = Content.from_trusted (bytes "hello");
  syntax = none;
  created_at = pos 0;
  expires_at = none;
  one_shot = true;
  views = pos 0;
}

abbrev start : State (World InMemoryCache)
start = record {
  world = record { pastes = some ((key, paste) ∷ []); cached = some [] };
  served = 0;
}

abbrev requests : List Endpoint
requests = get_ready ∷ get_by_id key at_ten ∷ get_raw key at_ten ∷ get_metrics ∷ []

run-served_example :
    (run assets show silent_json base_url (with_cache in_memory) requests start).1.served
    ≡ (0 + served_in (run assets show silent_json base_url (with_cache in_memory) requests start).0)
      % 18446744073709551616
run-served_example =
    run-served assets show silent_json base_url (with_cache in_memory) requests start (omega arith)

handed_out-le-one_example :
    handed_out in_memory-Lawful silent_json key
      (run assets show silent_json base_url (with_cache in_memory) requests start).0
    ≤ 1
unfolding lookup bytes_eq
handed_out-le-one_example =
    handed_out-le-one in_memory-Lawful silent_json key assets show base_url requests start
      (tt, (tt, (tt, (tt, tt)))) refl refl

-- The store has stopped.
abbrev stopped : State (World InMemoryCache)
stopped = record { world = record { pastes = none; cached = some [] }; served = 0 }

stopped_lem :
    (handle assets show silent_json base_url
      (with_cache in_memory)
      (get_by_id key at_ten)
      stopped).0
    ≡ (500, error (bytes "internal error"))
unfolding handle get_paste fetch advance from_cache from_repository dispatch send lookup all
    is_ascii_alphanumeric PasteId.parse from_service into_response status
stopped_lem = refl

handle_hides_cause_example :
    (handle assets show silent_json base_url
      (with_cache in_memory)
      (get_by_id key at_ten)
      stopped).0
    ≡ (500, error (bytes "internal error"))
handle_hides_cause_example =
    handle_hides_cause assets show silent_json base_url (with_cache in_memory)
      (get_by_id key at_ten) stopped (error (bytes "internal error")) stopped_lem
