-- ===== src/Cache/Lawful.antt =====
-- What the service may rely on in a cache (url-shortener/src/cache.rs): an entry may vanish at any
-- time, but no entry appears that was not set, and a deleted entry is gone.
use hicho.Common.{
  ℕ, ◌≡◌, ◌⊎◌, refl, inl, inr, Option, none, some, Bytes, bytes_eq, bytes_key, if◌then◌else◌,
}
use hicho.Common.Map.{lookup, lookup-insert, lookup-remove}
use hicho.Cache.{Cache, no_op, in_memory, InMemoryCache, send}

-- `a` is `b`, or has vanished.
abbrev pub Shrinks : Option Bytes → Option Bytes → Type 0
Shrinks a b = (a ≡ b) ⊎ (a ≡ none)

pub record Lawful {C : Type 0} (c : Cache C) : Type 0 where
  pub holds : C → Bytes → Option Bytes
  pub got : (k : Bytes) (s : C) → Shrinks (c.get k s).0 (holds s k)
  pub after_get : (k j : Bytes) (s : C) → Shrinks (holds (c.get k s).1 j) (holds s j)
  pub after_set :
      (k j v : Bytes) (ttl : ℕ) (s : C)
      → Shrinks (holds (c.set k v ttl s) j) (if bytes_eq k j then some v else holds s j)
  pub after_delete :
      (k j : Bytes) (s : C)
      → Shrinks (holds (c.delete k s) j) (if bytes_eq k j then none else holds s j)

no_op-Lawful : {C : Type 0} → Lawful {C = C} no_op
no_op-Lawful = record {
  holds = λ s k. none;
  got = λ k s. inl refl;
  after_get = λ k j s. inl refl;
  after_set = λ k j v ttl s. inr refl;
  after_delete = λ k j s. inr refl;
}

abbrev in_memory_holds : InMemoryCache → Bytes → Option Bytes
in_memory_holds none k = none
in_memory_holds (some entries) k = lookup k entries

pub in_memory_got :
    (k : Bytes) (s : InMemoryCache) → Shrinks (in_memory.get k s).0 (in_memory_holds s k)
unfolding send
in_memory_got k none = inl refl
in_memory_got k (some entries) = inl refl

pub in_memory_after_get :
    (k j : Bytes) (s : InMemoryCache)
    → Shrinks (in_memory_holds (in_memory.get k s).1 j) (in_memory_holds s j)
unfolding send
in_memory_after_get k j none = inl refl
in_memory_after_get k j (some entries) = inl refl

pub in_memory_after_set :
    (k j v : Bytes) (ttl : ℕ) (s : InMemoryCache)
    → Shrinks
        (in_memory_holds (in_memory.set k v ttl s) j)
        (if bytes_eq k j then some v else in_memory_holds s j)
unfolding send
in_memory_after_set k j v ttl none = inr refl
in_memory_after_set k j v ttl (some entries) = inl (lookup-insert k j v entries)

pub in_memory_after_delete :
    (k j : Bytes) (s : InMemoryCache)
    → Shrinks
        (in_memory_holds (in_memory.delete k s) j)
        (if bytes_eq k j then none else in_memory_holds s j)
unfolding send
in_memory_after_delete k j none = inr refl
in_memory_after_delete k j (some entries) = inl (lookup-remove k j entries)

abbrev pub in_memory-Lawful : Lawful in_memory
in_memory-Lawful = record {
  holds = in_memory_holds;
  got = in_memory_got;
  after_get = in_memory_after_get;
  after_set = in_memory_after_set;
  after_delete = in_memory_after_delete;
}
