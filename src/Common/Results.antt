-- ===== src/Common/Results.antt =====
-- `Result`, and actions: a call that reads and writes a state and may fail. The state comes back
-- after a failure too, since what was written stays written.
use mathlib.Core.Path.{◌≡◌, refl}
use mathlib.Core.Logic.{◌⊎◌, inl, inr}
use mathlib.Core.Option.{Option, none, some}

pub data Result {ℓ κ} (E : Type κ) (A : Type ℓ) : Type (ℓ ⊔ κ) where
  ok : A → Result E A
  err : E → Result E A

pub Result-cases {ℓ κ} :
    {E : Type κ} {A : Type ℓ} (r : Result E A) → ((a : A) × (r ≡ ok a)) ⊎ ((e : E) × (r ≡ err e))
Result-cases (ok a) = inl (a, refl)
Result-cases (err e) = inr (e, refl)

abbrev pub Action : Type 0 → Type 0 → Type 0 → Type 0
Action W E A = W → Result E A × W

module _ {W E : Type 0} where
  abbrev pub pure : {A : Type 0} → A → Action W E A
  pure a w = (ok a, w)

  abbrev pub raise : {A : Type 0} → E → Action W E A
  raise e w = (err e, w)

  infixl 5 ◌>>=◌ ◌>>◌
  abbrev pub ◌>>=◌ : {A B : Type 0} → Action W E A → (A → Action W E B) → Action W E B
  ◌>>=◌ m f w = let (r, w') = m w in elim r [ ok a ↦ f a w' | err e ↦ (err e, w') ]

  abbrev pub ◌>>◌ : {A B : Type 0} → Action W E A → Action W E B → Action W E B
  m >> k = m >>= λ _. k

  -- `ok_or`
  abbrev pub or_raise : {A : Type 0} → Option A → E → Action W E A
  or_raise none e = raise e
  or_raise (some a) _ = pure a

  -- `Result::map_err(…)?` on a value that touches no state
  abbrev pub lift_or : {A F : Type 0} → Result F A → (F → E) → Action W E A
  lift_or (ok a) f = pure a
  lift_or (err e) f = raise (f e)

  -- a call that returns no result
  abbrev pub effect : (W → W) → Action W E (Unit {0})
  effect f w = (ok tt, f w)

  -- `?` with `From`
  abbrev pub convert : {A F : Type 0} → (F → E) → Action W F A → Action W E A
  convert f m w = let (r, w') = m w in (elim r [ ok a ↦ ok a | err e ↦ err (f e) ], w')

  -- `let _ = …`
  abbrev pub ignore : {A F : Type 0} → Action W F A → Action W E (Unit {0})
  ignore m w = (ok tt, (m w).1)

  -- a call that cannot fail
  abbrev pub call : {A : Type 0} → (W → A × W) → Action W E A
  call f w = let (a, w') = f w in (ok a, w')

-- Run an action on a part of a larger state.
abbrev pub zoom : {W S E A : Type 0} → (W → S) → (S → W → W) → Action S E A → Action W E A
zoom part put m w = let (r, s) = m (part w) in (r, put s w)
