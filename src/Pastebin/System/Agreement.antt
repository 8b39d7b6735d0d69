-- ===== src/Pastebin/System/Agreement.antt =====
-- A cached paste is the stored one, up to its views (pastebin-service/src/application/mod.rs
-- with cache.rs).
pub mod Calls
pub mod Reach
use hicho.Common.{
  ℕ, zero, suc, ◌≡◌, refl, Bool, true, false, Option, none, some, Bytes, bytes_key, bytes_eq,
  bytes_eq_iff, arith, Result, ok, err, if◌then◌else◌, Bool-cases, Option-cases, Result-cases, inl,
  inr, ltb,
}
use hicho.Common.Int.{ℤ, pos}
use hicho.Common.Map.{lookup, insert, remove, modify, lookup-insert, lookup-remove, lookup-modify}
use hicho.Cache.{Cache}
use hicho.Cache.Lawful.{Lawful}
use hicho.Clock.{now_unix, expiry}
use hicho.Codes.{generate_code, max_generation_attempts}
use hicho.Pastebin.Domain.PasteId.{PasteId, from_trusted, parse_cases}
use hicho.Pastebin.Domain.Content
use hicho.Pastebin.Domain.Content.{Content}
use hicho.Pastebin.Domain.Paste.{Paste, new, is_expired}
use hicho.Pastebin.Memory.{InMemoryPasteRepository, Pastes, dispatch, add_views}
use hicho.Pastebin.Service.Snapshot.{
  JsonCrate, ReadsBack, CachedPaste, from_paste, into_paste, into_paste-from_paste,
}
use hicho.Pastebin.Service.{
  Phase, start, missed, loaded, finished, Readings, advance, decode, from_cache, from_repository,
  serve, cache_ttl_secs, create, attempts, generated_id_len, fetch, delete,
}
use hicho.Pastebin.System.{World, with_cache}

-- The same paste, whatever its count of views.
pub record IsSame (p q : Paste) : Type 0 where
  pub same_id : p.id ≡ q.id
  pub same_content : p.content ≡ q.content
  pub same_syntax : p.syntax ≡ q.syntax
  pub same_creation : p.created_at ≡ q.created_at
  pub same_expiry : p.expires_at ≡ q.expires_at
  pub same_one_shot : p.one_shot ≡ q.one_shot

-- What stands under `k` is `p`, and does not burn after reading.
abbrev pub Keeps : Bytes → Paste → InMemoryPasteRepository → Type 0
Keeps k p none = ⊥
Keeps k p (some m) = elim (lookup k m) [ none ↦ ⊥ | some q ↦ IsSame p q × (q.one_shot ≡ false) ]

IsSame-refl : (p : Paste) → IsSame p p
IsSame-refl p = record {
  same_id = refl;
  same_content = refl;
  same_syntax = refl;
  same_creation = refl;
  same_expiry = refl;
  same_one_shot = refl;
}

IsSame-add_views : (n : ℤ) (p q : Paste) → IsSame p q → IsSame p (add_views n q)
IsSame-add_views n p q h = record {
  same_id = h.same_id;
  same_content = h.same_content;
  same_syntax = h.same_syntax;
  same_creation = h.same_creation;
  same_expiry = h.same_expiry;
  same_one_shot = h.same_one_shot;
}

module _ {C : Type 0} {c : Cache C} (law : Lawful c) (json : JsonCrate) (k : Bytes)
    (p : Paste) where
  abbrev pub world : InMemoryPasteRepository → C → World C
  world m s = record { pastes = m; cached = s }

  -- If `k` is cached with a snapshot of `p`, then the store keeps `p` there.
  abbrev pub AgreesAt : World C → Type 0
  AgreesAt w = decode json (with_cache c) (law.holds w.cached k) ≡ some p → Keeps k p w.pastes

  Keeps-modify :
      (i : Bytes) (m : Pastes)
      → Keeps k p (some m)
      → Keeps k p (some (modify i (add_views (pos 1)) m))
  Keeps-modify i m h = elim (Option-cases (lookup k m)) [
    | inl missing ↦ ground arith
    | inr (q, found) ↦
        ground (arith, lookup-modify i k (add_views (pos 1)) m, IsSame-add_views (pos 1) p q)
  ]

  -- what `from_cache` leaves
  pub from_cache-AgreesAt :
      (i : Bytes) (r : Readings) (m : InMemoryPasteRepository) (s : C)
      → AgreesAt (world m s)
      → AgreesAt (from_cache json (with_cache c) (from_trusted i) r (world m s)).1
  unfolding from_cache dispatch
  from_cache-AgreesAt i r none s h =
      ground (arith, law.got i s, law.after_get i k s, law.after_delete i k (c.get i s).1)
  from_cache-AgreesAt i r (some m) s h = ground (
    arith,
    law.got i s,
    law.after_get i k s,
    law.after_delete i k (c.get i s).1,
    Keeps-modify i m,
  )

  -- a snapshot in the cache is read back
  decode-to_string :
      ReadsBack json
      → (q : Paste) (text : Bytes) → json.to_string (from_paste q) ≡ some text
      → decode json (with_cache c) (some text) ≡ some q
  decode-to_string reads q text e =
      ground (arith, reads (from_paste q) text e, into_paste-from_paste q)

  -- what is offered to the cache is stored
  fill-AgreesAt :
      (i : Bytes) (r : Readings) (q : Paste) (m : Pastes) (s : C) (text : Bytes)
      → ReadsBack json
      → lookup i m ≡ some q
      → q.one_shot ≡ false
      → json.to_string (from_paste q) ≡ some text
      → AgreesAt (world (some m) s)
      → AgreesAt (world (some m) (c.set i text (cache_ttl_secs q (now_unix r.filled_at)) s))
  fill-AgreesAt i r q m s text reads found many e h = elim (Bool-cases (bytes_eq i k)) [
    | inl same ↦ ground (
      arith,
      law.after_set i k text (cache_ttl_secs q (now_unix r.filled_at)) s,
      decode-to_string reads q text e,
      bytes_eq_iff i k,
      IsSame-refl p,
    )
    | inr other ↦ ground (arith, law.after_set i k text (cache_ttl_secs q (now_unix r.filled_at)) s)
  ]

  pub fill_cases :
      (i : Bytes) (r : Readings) (q : Paste) (m : Pastes) (s : C)
      → ReadsBack json
      → lookup i m ≡ some q
      → q.one_shot ≡ false
      → AgreesAt (world (some m) s)
      → AgreesAt (serve json (with_cache c) (from_trusted i) r q (world (some m) s)).1
  unfolding serve dispatch
  fill_cases i r q m s reads found many h = elim (Option-cases (json.to_string (from_paste q))) [
    | inl failed ↦ ground (arith, Keeps-modify i m, law.after_delete i k s, lookup-remove i k m)
    | inr (text, e) ↦ ground (
      arith,
      fill-AgreesAt i r q m s text reads found many e h,
      Keeps-modify i m,
      law.after_delete i k s,
      lookup-remove i k m,
      bytes_eq_iff i k,
    )
  ]

  pub take-AgreesAt :
      (i : Bytes) (r : Readings) (q : Paste) (m : Pastes) (s : C)
      → lookup i m ≡ some q
      → q.one_shot ≡ true
      → AgreesAt (world (some m) s)
      → AgreesAt (serve json (with_cache c) (from_trusted i) r q (world (some m) s)).1
  unfolding serve dispatch
  take-AgreesAt i r q m s found once h =
      ground (arith, bytes_eq_iff i k, law.after_delete i k s, lookup-remove i k m)
