-- ===== src/Shortener/Service/Blocklist.antt =====
-- The host blocklist (url-shortener/src/application/mod.rs).
use hicho.Common.{
  ap, Bool-cases, bytes_eq_refl, ◌≡◌, ◌↔◌, ◌⊎◌, inl, inr, refl, true, Option, none, some, List, [],
  ◌∷◌, ◌++◌, Bytes, bytes_eq, bytes_eq_iff, arith,
}
use hicho.Common.Text.{ends_with}
use hicho.Shortener.Service.Defs.{any_blocked, host_blocked}

-- The host is the blocked one, or lies below it.
abbrev pub Covers : Bytes → Bytes → Type 0
Covers b h = (h ≡ b) ⊎ ((sub : Bytes) × (h ≡ sub ++ (b'.' ∷ b)))

abbrev pub CoveredBy : List Bytes → Bytes → Type 0
CoveredBy [] h = ⊥
CoveredBy (b ∷ bs) h = Covers b h ⊎ CoveredBy bs h

ends_with_sound : (h t : Bytes) → ends_with h t ≡ true → (sub : Bytes) × (h ≡ sub ++ t)
unfolding ends_with
ends_with_sound [] t e = ([], (bytes_eq_iff [] t).0 e)
ends_with_sound (c ∷ cs) t e = elim (Bool-cases (bytes_eq (c ∷ cs) t)) [
  | inl same ↦ ([], (bytes_eq_iff (c ∷ cs) t).0 same)
  | inr other ↦ let (sub, q) = ends_with_sound cs t (rw other at e) in (c ∷ sub, ap (◌∷◌ c) q)
]

ends_with-append : (sub t : Bytes) → ends_with (sub ++ t) t ≡ true
unfolding ends_with
ends_with-append [] [] = refl
ends_with-append [] (x ∷ t) = rw (bytes_eq_refl (x ∷ t))
ends_with-append (c ∷ sub) t = ground (arith, ends_with-append sub t)

ends_with_iff :
    (h b : Bytes) → (ends_with h (b'.' ∷ b) ≡ true) ↔ ((sub : Bytes) × (h ≡ sub ++ (b'.' ∷ b)))
ends_with_iff h b = (ends_with_sound h (b'.' ∷ b), λ p. rw p.1 (ends_with-append p.0 (b'.' ∷ b)))

any_blocked_cons :
    (b : Bytes) (bs : List Bytes) (h : Bytes)
    → ((any_blocked bs h ≡ true) ↔ CoveredBy bs h)
    → any_blocked (b ∷ bs) h ≡ true
    → CoveredBy (b ∷ bs) h
unfolding any_blocked
any_blocked_cons b bs h ih e = elim (Bool-cases (bytes_eq h b)) [
  | inl same ↦ inl (inl ((bytes_eq_iff h b).0 same))
  | inr other ↦ elim (Bool-cases (ends_with h (b'.' ∷ b))) [
    | inl below ↦ inl (inr ((ends_with_iff h b).0 below))
    | inr apart ↦ inr (ih.0 (rw (other, apart) at e))
  ]
]

any_blocked_of_covered :
    (b : Bytes) (bs : List Bytes) (h : Bytes)
    → ((any_blocked bs h ≡ true) ↔ CoveredBy bs h)
    → CoveredBy (b ∷ bs) h
    → any_blocked (b ∷ bs) h ≡ true
unfolding any_blocked
any_blocked_of_covered b bs h ih (inl (inl same)) = rw ((bytes_eq_iff h b).1 same)
any_blocked_of_covered b bs h ih (inl (inr below)) = ground (arith, (ends_with_iff h b).1 below)
any_blocked_of_covered b bs h ih (inr later) = ground (arith, ih.1 later)

any_blocked_iff : (bs : List Bytes) (h : Bytes) → (any_blocked bs h ≡ true) ↔ CoveredBy bs h
unfolding any_blocked
any_blocked_iff [] h = (λ e. cc, λ e. absurd e)
any_blocked_iff (b ∷ bs) h =
    let ih = any_blocked_iff bs h in (any_blocked_cons b bs h ih, any_blocked_of_covered b bs h ih)

-- A host is blocked exactly if it is one of the blocked hosts, or ends in a dot and one of them; a
-- target with no host is not blocked.
pub host_blocked_iff :
    (bs : List Bytes) (host : Option Bytes)
    → (host_blocked bs host ≡ true) ↔ elim host [ none ↦ ⊥ | some h ↦ CoveredBy bs h ]
unfolding host_blocked
host_blocked_iff [] none = (λ e. cc, λ e. absurd e)
host_blocked_iff [] (some h) = (λ e. cc, λ e. absurd e)
host_blocked_iff (b ∷ bs) none = (λ e. cc, λ e. absurd e)
host_blocked_iff (b ∷ bs) (some h) = any_blocked_iff (b ∷ bs) h
