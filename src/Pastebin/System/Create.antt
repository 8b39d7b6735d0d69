-- ===== src/Pastebin/System/Create.antt =====
-- `PasteService::create` (pastebin-service/src/application/mod.rs), branch by branch.
use hicho.Common.{
  ℕ, zero, suc, ◌<◌, ◌≡◌, ◌≢◌, inl, inr, refl, Bool, Option, none, some, Bytes, bytes_key, arith,
  Result, ok, err, Result-cases, Option-cases,
}
use hicho.Common.Int.{ℤ}
use hicho.Common.Map.{lookup, insert}
use hicho.Pastebin.Domain.PasteId.{IsId}
use hicho.Pastebin.Domain.Content
use hicho.Pastebin.Domain.Content.{Content}
use hicho.Pastebin.Domain.Paste.{Paste, new}
use hicho.Pastebin.Memory.{Pastes, dispatch}
use hicho.Cache.{Cache}
use hicho.Codes.{generate_code, max_generation_attempts}
use hicho.Clock.{now_unix, expiry}
use hicho.Pastebin.Service.{
  ServiceError, validation, conflict, create, attempts, generated_id_len, generate_code-IsId,
}
use hicho.Pastebin.System.{World, with_cache}

-- The ids of all `n` attempts are in use.
abbrev AllTaken : ℕ → (ℕ → ℕ → ℕ) → Pastes → Type 0
AllTaken zero draws m = Unit
AllTaken (suc n) draws m =
    (lookup (generate_code generated_id_len (draws n)) m ≢ none) × AllTaken n draws m

abbrev world : {C : Type 0} → Pastes → C → World C
world m s = record { pastes = some m; cached = s }

-- The paste is new, with no views and a free, well formed id, and is all that was added.
abbrev Adds :
    {C : Type 0}
    → Content
    → Option Bytes
    → ℤ
    → Option ℤ
    → Bool
    → Pastes
    → C
    → Paste
    → World C
    → Type 0
Adds content syntax at expires once m s p w =
    IsId p.id.as_str
    × (p ≡ new p.id content syntax at expires once)
    × (lookup p.id.as_str m ≡ none)
    × (w ≡ world (insert p.id.as_str p m) s)

module _ {C : Type 0} (c : Cache C) where
  -- the outcome of the loop over `n` attempts
  abbrev Tries :
      ℕ
      → (ℕ → ℕ → ℕ)
      → Content
      → Option Bytes
      → ℤ
      → Option ℤ
      → Bool
      → Pastes
      → C
      → Result ServiceError Paste × World C
      → Type 0
  Tries n draws content syntax at expires once m s (ok p, w) =
      Adds content syntax at expires once m s p w
  Tries n draws content syntax at expires once m s (err conflict, w) =
      AllTaken n draws m × (w ≡ world m s)
  Tries n draws content syntax at expires once m s (err _, w) = ⊥

  attempts-Tries :
      (n : ℕ) (draws : ℕ → ℕ → ℕ) (content : Content) (syntax : Option Bytes) (at : ℤ)
      (expires : Option ℤ) (once : Bool) (m : Pastes) (s : C)
      → ((i j : ℕ) → draws i j < 62)
      → Tries n draws content syntax at expires once m s
          (attempts (with_cache c) n draws content syntax at expires once (world m s))
  unfolding attempts dispatch new
  attempts-Tries zero draws content syntax at expires once m s d = (tt, refl)
  attempts-Tries (suc n) draws content syntax at expires once m s d =
      let i = generate_code generated_id_len (draws n) in
      let valid = generate_code-IsId generated_id_len (draws n) (omega arith) (omega arith) (d n) in
      elim (Option-cases (lookup i m)) [
        | inl free ↦ ground arith
        | inr (p, used) ↦
            ground (arith, attempts-Tries n draws content syntax at expires once m s d)
      ]

  -- How `create` may end, by its answer: an added paste, with the content that was parsed; or an
  -- error with its reason, and the world as it was.
  abbrev pub Creates :
      Bytes
      → Option Bytes
      → Option ℕ
      → Bool
      → Option ℕ
      → (ℕ → ℕ → ℕ)
      → Pastes
      → C
      → Result ServiceError Paste × World C
      → Type 0
  Creates raw syntax ttl once now draws m s (ok p, w) =
      (Content.parse raw ≡ ok p.content)
      × Adds p.content syntax (now_unix now) (expiry (now_unix now) ttl) once m s p w
  Creates raw syntax ttl once now draws m s (err (validation v), w) =
      (Content.parse raw ≡ err v) × (w ≡ world m s)
  Creates raw syntax ttl once now draws m s (err conflict, w) =
      AllTaken max_generation_attempts draws m × (w ≡ world m s)
  Creates raw syntax ttl once now draws m s (err _, w) = ⊥

  -- On a running store, `create` adds exactly one new paste under a free id and leaves the cache
  -- alone, or changes nothing and gives the reason: `validation` if the content is refused,
  -- `conflict` if all five generated ids are in use. The indices drawn for the ids lie in the alphabet.
  pub create_paste-Creates :
      (raw : Bytes) (syntax : Option Bytes) (ttl : Option ℕ) (once : Bool) (now : Option ℕ)
      (draws : ℕ → ℕ → ℕ) (m : Pastes) (s : C)
      → ((i j : ℕ) → draws i j < 62)
      → Creates raw syntax ttl once now draws m s
          (create (with_cache c) raw syntax ttl once now draws (world m s))
  unfolding create new
  create_paste-Creates raw syntax ttl once now draws m s d =
      elim (Result-cases (Content.parse raw)) [
        | inl (content, p) ↦ ground (
          arith,
          attempts-Tries max_generation_attempts draws content syntax (now_unix now)
              (expiry (now_unix now) ttl) once m s d,
        )
        | inr (v, p) ↦ ground arith
      ]
