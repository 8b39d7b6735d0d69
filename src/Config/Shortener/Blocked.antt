-- ===== src/Config/Shortener/Blocked.antt =====
-- The blocklist from the environment to the check of a target (url-shortener/src/config.rs with
-- application/mod.rs).
use hicho.Common.{◌≡◌, ◌≢◌, ◌⊎◌, inl, inr, refl, true, some, List, [], ◌∷◌, ◌++◌, map, Bytes, sym}
use hicho.Common.Text.{to_ascii_lowercase}
use hicho.Tcp.Strings.{split, trim}
use hicho.Shortener.Service.{host_blocked}
use hicho.Shortener.Service.Blocklist.{Covers, CoveredBy, host_blocked_iff}
use hicho.Config.Shortener.{parse_hosts, normal_hosts}

-- A part of the list.
abbrev pub Listed : Bytes → List Bytes → Type 0
Listed s [] = ⊥
Listed s (x ∷ xs) = (s ≡ x) ⊎ Listed s xs

-- The name that a part stands for.
abbrev pub name_of : Bytes → Bytes
name_of part = map to_ascii_lowercase (trim part)

-- What one part adds to the list.
abbrev add_name : Bytes → List Bytes → List Bytes
add_name name rest = elim name [ [] ↦ rest | c ∷ cs ↦ (c ∷ cs) ∷ rest ]

kept :
    (name : Bytes) (xs : List Bytes) (h : Bytes)
    → name ≢ []
    → Covers name h
    → CoveredBy (add_name name (normal_hosts xs)) h
kept [] xs h n cov = absurd (n refl)
kept (c ∷ cs) xs h n cov = inl cov

weaken :
    (name : Bytes) (xs : List Bytes) (h : Bytes)
    → CoveredBy (normal_hosts xs) h
    → CoveredBy (add_name name (normal_hosts xs)) h
weaken [] xs h cov = cov
weaken (c ∷ cs) xs h cov = inr cov

normal_hosts-covers :
    (part : Bytes) (parts : List Bytes) (h : Bytes)
    → name_of part ≢ []
    → Listed part parts
    → Covers (name_of part) h
    → CoveredBy (normal_hosts parts) h
normal_hosts-covers part [] h named listed cov = elim listed [ ]
normal_hosts-covers part (x ∷ xs) h named (inl e) cov =
    kept (name_of x) xs h (rw (sym e) named) (rw (sym e) cov)
normal_hosts-covers part (x ∷ xs) h named (inr later) cov =
    weaken (name_of x) xs h (normal_hosts-covers part xs h named later cov)

-- A host that the blocklist names, in any case and with white space around it, is blocked, and so is
-- every host below it: where a part between the commas of `BLOCKED_HOSTS` trims to something, the
-- service that has the configured list blocks its lower-case name, and that name after any prefix
-- that ends in a dot.
pub parse_hosts-blocks :
    (text part sub : Bytes)
    → Listed part (split b',' text)
    → name_of part ≢ []
    → (host_blocked (parse_hosts text) (some (name_of part)) ≡ true)
      × (host_blocked (parse_hosts text) (some (sub ++ (b'.' ∷ name_of part))) ≡ true)
unfolding parse_hosts
parse_hosts-blocks text part sub listed named =
    let parts = split b',' text in
    let blocks = λ (h : Bytes) (cov : Covers (name_of part) h).
      (host_blocked_iff (normal_hosts parts) (some h)).1
        (normal_hosts-covers part parts h named listed cov) in
    (blocks (name_of part) (inl refl), blocks (sub ++ (b'.' ∷ name_of part)) (inr (sub, refl)))
