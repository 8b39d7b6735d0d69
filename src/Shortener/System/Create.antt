-- ===== src/Shortener/System/Create.antt =====
-- `LinkService::create` (url-shortener/src/application/mod.rs), branch by branch.
use hicho.Common.{
  ℕ, zero, suc, ◌<◌, ◌≡◌, ◌≢◌, ◌⊎◌, inl, inr, refl, true, false, Option, none, some, List, Bytes,
  bytes_key, arith, Result, ok, err, Result-cases, Option-cases,
}
use hicho.Common.Int.{ℤ}
use hicho.Common.Map.{lookup, insert}
use hicho.Shortener.Domain.Errors.{ValidationError}
use hicho.Shortener.Domain.ShortCode.{IsCode, from_trusted, parse_cases, parse-ok}
use hicho.Shortener.Domain.ShortCode
use hicho.Shortener.Domain.TargetUrl
use hicho.Shortener.Domain.TargetUrl.{UrlCrate, TargetUrl}
use hicho.Shortener.Domain.Link.{Link, with_expiry}
use hicho.Shortener.Memory.{Links, dispatch}
use hicho.Cache.{Cache}
use hicho.Codes.{generate_code, max_generation_attempts}
use hicho.Clock.{now_unix, expiry}
use hicho.Shortener.Service.{
  ServiceError, validation, conflict, blocked, create, create_at, attempts, is_blocked,
  generated_code_len, generate_code-IsCode,
}
use hicho.Shortener.System.{World, with_cache}

-- The codes of all `n` attempts are in use.
abbrev AllTaken : ℕ → (ℕ → ℕ → ℕ) → Links → Type 0
AllTaken zero draws m = Unit
AllTaken (suc n) draws m =
    (lookup (generate_code generated_code_len (draws n)) m ≢ none) × AllTaken n draws m

-- The code of a new link: the alias, or one that was generated.
abbrev CodeFor : Option Bytes → Bytes → Type 0
CodeFor none code = IsCode code
CodeFor (some alias) code = (code ≡ alias) × IsCode alias

-- Why no code was placed: the alias is in use, or each of the five generated codes is.
abbrev NoCodeFor : Option Bytes → (ℕ → ℕ → ℕ) → Links → Type 0
NoCodeFor none draws m = AllTaken max_generation_attempts draws m
NoCodeFor (some alias) draws m = lookup alias m ≢ none

abbrev BadAlias : Option Bytes → ValidationError → Type 0
BadAlias none v = ⊥
BadAlias (some alias) v = ShortCode.parse alias ≡ err v

abbrev world : {C : Type 0} → Links → C → World C
world m s = record { links = some m; cached = s }

-- The link was new, its code free, and it is all that was added to the store.
abbrev Adds :
    {C : Type 0} → (Bytes → Type 0) → TargetUrl → ℤ → Option ℤ → Links → C → Link → World C → Type 0
Adds IsOk target at expires m s l w =
    IsOk l.code.as_str
    × (l ≡ with_expiry l.code target at expires)
    × (lookup l.code.as_str m ≡ none)
    × (w ≡ world (insert l.code.as_str l m) s)

module _ {C : Type 0} (c : Cache C) (hosts : List Bytes) (url : UrlCrate) where
  -- the outcome of the loop over `n` attempts
  abbrev Tries :
      ℕ
      → (ℕ → ℕ → ℕ)
      → TargetUrl
      → ℤ
      → Option ℤ
      → Links
      → C
      → Result ServiceError Link × World C
      → Type 0
  Tries n draws target at expires m s (ok l, w) = Adds IsCode target at expires m s l w
  Tries n draws target at expires m s (err conflict, w) = AllTaken n draws m × (w ≡ world m s)
  Tries n draws target at expires m s (err _, w) = ⊥

  attempts-Tries :
      (n : ℕ) (draws : ℕ → ℕ → ℕ) (target : TargetUrl) (at : ℤ) (expires : Option ℤ) (m : Links)
      (s : C)
      → ((i j : ℕ) → draws i j < 62)
      → Tries n draws target at expires m s
          (attempts url (with_cache hosts c) n draws target at expires (world m s))
  unfolding attempts dispatch with_expiry
  attempts-Tries zero draws target at expires m s d = (tt, refl)
  attempts-Tries (suc n) draws target at expires m s d =
      let code = generate_code generated_code_len (draws n) in
      let valid =
        generate_code-IsCode generated_code_len (draws n) (omega arith) (omega arith) (d n) in
      elim (Option-cases (lookup code m)) [
        | inl free ↦ ground arith
        | inr (l, used) ↦ ground (arith, attempts-Tries n draws target at expires m s d)
      ]

  abbrev Places :
      TargetUrl
      → Option Bytes
      → ℤ
      → Option ℤ
      → (ℕ → ℕ → ℕ)
      → Links
      → C
      → Result ServiceError Link × World C
      → Type 0
  Places target alias at expires draws m s (ok l, w) =
      (l.target ≡ target) × Adds (CodeFor alias) target at expires m s l w
  Places target alias at expires draws m s (err (validation v), w) =
      BadAlias alias v × (w ≡ world m s)
  Places target alias at expires draws m s (err conflict, w) =
      NoCodeFor alias draws m × (w ≡ world m s)
  Places target alias at expires draws m s (err _, w) = ⊥

  -- How `create` may end, by its answer: an added link, with what was parsed; or an error with
  -- its reason, and the world as it was.
  abbrev pub Creates :
      Bytes
      → Option Bytes
      → Option ℕ
      → Option ℕ
      → (ℕ → ℕ → ℕ)
      → Links
      → C
      → Result ServiceError Link × World C
      → Type 0
  Creates raw alias ttl now draws m s (ok l, w) =
      (TargetUrl.parse url raw ≡ ok l.target)
      × (is_blocked url (with_cache hosts c) l.target ≡ false)
      × Adds (CodeFor alias) l.target (now_unix now) (expiry (now_unix now) ttl) m s l w
  Creates raw alias ttl now draws m s (err (validation v), w) =
      ((TargetUrl.parse url raw ≡ err v) ⊎ BadAlias alias v) × (w ≡ world m s)
  Creates raw alias ttl now draws m s (err blocked, w) =
      elim (TargetUrl.parse url raw) [
        | ok target ↦ is_blocked url (with_cache hosts c) target ≡ true
        | err v ↦ ⊥
      ]
      × (w ≡ world m s)
  Creates raw alias ttl now draws m s (err conflict, w) = NoCodeFor alias draws m × (w ≡ world m s)
  Creates raw alias ttl now draws m s (err _, w) = ⊥

  create_at-Places :
      (target : TargetUrl) (alias : Option Bytes) (at : ℤ) (expires : Option ℤ) (draws : ℕ → ℕ → ℕ)
      (m : Links) (s : C)
      → ((i j : ℕ) → draws i j < 62)
      → Places target alias at expires draws m s
          (create_at url (with_cache hosts c) target alias at expires draws (world m s))
  unfolding create_at with_expiry
  create_at-Places target none at expires draws m s d =
      ground (arith, attempts-Tries max_generation_attempts draws target at expires m s d)
  create_at-Places target (some alias) at expires draws m s d =
      elim (Result-cases (ShortCode.parse alias)) [
        | inl (code, p) ↦ unfold dispatch with_expiry in ground (arith, parse-ok alias code p)
        | inr (v, p) ↦ ground arith
      ]

  -- On a running store, `create` adds exactly one new link under a free code, or changes nothing
  -- and gives the reason: `validation` if the URL or the alias is refused by its parser, `blocked`
  -- for a blocked host, `conflict` if the alias is in use or all five generated codes are. The
  -- indices drawn for the codes lie in the alphabet.
  pub create-Creates :
      (raw : Bytes) (alias : Option Bytes) (ttl now : Option ℕ) (draws : ℕ → ℕ → ℕ) (m : Links)
      (s : C)
      → ((i j : ℕ) → draws i j < 62)
      → Creates raw alias ttl now draws m s
          (create url (with_cache hosts c) raw alias ttl now draws (world m s))
  unfolding create
  create-Creates raw alias ttl now draws m s d = elim (Result-cases (TargetUrl.parse url raw)) [
    | inl (target, p) ↦ ground (
      arith,
      create_at-Places target alias (now_unix now) (expiry (now_unix now) ttl) draws m s d,
    )
    | inr (v, p) ↦ ground arith
  ]
