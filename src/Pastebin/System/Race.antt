-- ===== src/Pastebin/System/Race.antt =====
-- A `delete` in the middle of a `fetch` (pastebin-service/src/application/mod.rs).
use hicho.Common.{◌≡◌, true, false, some, Bytes, bytes_key, bytes_eq_refl, arith, ok, ltb}
use hicho.Common.Map.{lookup, remove, lookup-remove, lookup-insert, modify_absent}
use hicho.Cache.{Entries, in_memory, send}
use hicho.Clock.{now_unix}
use hicho.Common.Int.{pos}
use hicho.Pastebin.Domain.PasteId.{IsId, from_trusted, parse_accepts}
use hicho.Pastebin.Domain.Paste.{Paste, is_expired}
use hicho.Pastebin.Memory.{Pastes, dispatch, add_views}
use hicho.Pastebin.Service.Snapshot.{JsonCrate, ReadsBack, from_paste, into_paste-from_paste}
use hicho.Pastebin.Service.{Readings, delete, serve, decode, cache_ttl_secs}
use hicho.Pastebin.System.{with_cache}

-- A `delete` that comes between a fetch's read of the repository and its last step succeeds, and the
-- fetch then serves the paste and puts it into the in-memory cache, though the store has it no more;
-- for a paste that is not to be burned, has not expired and has a time to live. Snapshots are read
-- back as they were written.
pub delete_then_fill :
    (json : JsonCrate) (k text : Bytes) (p : Paste) (m : Pastes) (entries : Entries) (r : Readings)
    → ReadsBack json
    → IsId k
    → lookup k m ≡ some p
    → p.one_shot ≡ false
    → is_expired p (now_unix r.stored_at) ≡ false
    → ltb 0 (cache_ttl_secs p (now_unix r.filled_at)) ≡ true
    → json.to_string (from_paste p) ≡ some text
    → let (deleted, w) =
        delete (with_cache in_memory) k (record { pastes = some m; cached = some entries }) in
      let (fetched, w') = serve json (with_cache in_memory) (from_trusted k) r p w in
      (deleted ≡ ok tt)
      × (fetched ≡ ok p)
      × (w'.pastes ≡ some (remove k m))
      × (decode json (with_cache in_memory) (in_memory.get k w'.cached).0 ≡ some p)
unfolding delete serve dispatch send
delete_then_fill json k text p m entries r reads v found many live long e =
    let read = reads (from_paste p) text e in
    ground (
      arith,
      parse_accepts k v,
      lookup-remove k k m,
      lookup-insert k k text (remove k entries),
      bytes_eq_refl k,
      modify_absent k (add_views (pos 1)) (remove k m),
      read,
      into_paste-from_paste p,
    )
