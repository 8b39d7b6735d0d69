-- ===== src/RateLimit/Bounds.antt =====
-- What the limiter keeps of a bucket (url-shortener/src/rate_limit.rs).
use hicho.Common.{
  ℕ, ◌-◌, ◌≡◌, true, none, some, [], ◌∷◌, Bytes, bytes_key, bytes_eq, bytes_eq_iff, arith, ◌==◌,
  if◌then◌else◌, Bool-cases, inl, inr,
}
use hicho.Common.Map.{lookup, lookup-insert, IsUnique}
use hicho.RateLimit.{Float, Bucket, Buckets, RateLimiter, new, entry, refilled, check, sweep_idle}

module _ (float : Float) where
  open float use {F64, of_u32, of_nanos, add, sub, mul, minimum, leq}

  -- Documented of `f64`, of numbers that are not negative: a minimum is not negative, and at most its
  -- second part; taking one from a number of at least one gives a number between zero and it; a
  -- `u32` converts to a number that is not negative; a sum with a product of such is not negative.
  pub record Ordered : Type 0 where
    pub minimum_le :
        (x c : F64) → leq (of_u32 0) x ≡ true → leq (of_u32 0) c ≡ true → leq (minimum x c) c ≡ true
    pub minimum_ge :
        (x c : F64)
        → leq (of_u32 0) x ≡ true
        → leq (of_u32 0) c ≡ true
        → leq (of_u32 0) (minimum x c) ≡ true
    pub less_one :
        (x c : F64)
        → leq (of_u32 1) x ≡ true
        → leq x c ≡ true
        → (leq (of_u32 0) (sub x (of_u32 1)) ≡ true) × (leq (sub x (of_u32 1)) c ≡ true)
    pub not_negative : (n : ℕ) → leq (of_u32 0) (of_u32 n) ≡ true
    pub grows :
        (x : F64) (rps nanos : ℕ)
        → leq (of_u32 0) x ≡ true
        → leq (of_u32 0) (add x (mul (of_nanos nanos) (of_u32 rps))) ≡ true
    pub itself : (x : F64) → leq (of_u32 0) x ≡ true → leq x x ≡ true

module _ {float : Float} (law : Ordered float) (rps burst : ℕ) where
  open float use {F64, of_u32, leq, sub}

  abbrev limiter : RateLimiter float
  limiter = new float rps burst

  -- From zero tokens to the capacity.
  abbrev pub IsWithin : F64 → Type 0
  IsWithin t = (leq (of_u32 0) t ≡ true) × (leq t limiter.capacity ≡ true)

  abbrev WithinAt : Bytes → Buckets float → Type 0
  WithinAt k m = elim (lookup k m) [ none ↦ Unit {0} | some b ↦ IsWithin b.tokens ]

  -- Each bucket has from zero tokens to the capacity.
  abbrev pub AllWithin : Buckets float → Type 0
  AllWithin m = (k : Bytes) → WithinAt k m

  capacity_lem : leq (of_u32 0) limiter.capacity ≡ true
  unfolding new
  capacity_lem = law.not_negative (if burst == 0 then rps else burst)

  refilled-IsWithin :
      (b : Bucket float) (now : ℕ) → IsWithin b.tokens → IsWithin (refilled float limiter b now)
  unfolding refilled new
  refilled-IsWithin b now h =
      let up = law.grows b.tokens rps (now - b.last) h.0 in
      (
        law.minimum_ge _ limiter.capacity up capacity_lem,
        law.minimum_le _ limiter.capacity up capacity_lem,
      )

  entry-IsWithin :
      (ip : Bytes) (now : ℕ) (m : Buckets float)
      → WithinAt ip m
      → IsWithin (entry float limiter ip now m).tokens
  unfolding entry
  entry-IsWithin ip now m h = ground (arith, law.itself limiter.capacity capacity_lem, capacity_lem)

  check-WithinAt :
      (ip k : Bytes) (now : ℕ) (m : Buckets float)
      → WithinAt ip m
      → WithinAt k m
      → WithinAt k (check float limiter ip now m).1
  unfolding check
  check-WithinAt ip k now m hip hk =
      let t = refilled float limiter (entry float limiter ip now m) now in
      let within =
        refilled-IsWithin (entry float limiter ip now m) now (entry-IsWithin ip now m hip) in
      ground (
        arith,
        within,
        law.less_one t limiter.capacity,
        lookup-insert ip k (record { tokens = sub t (of_u32 1); last = now }) m,
        lookup-insert ip k (record { tokens = t; last = now }) m,
      )

  sweep_idle-WithinAt :
      (k : Bytes) (now : ℕ) (m : Buckets float)
      → IsUnique m
      → WithinAt k m
      → WithinAt k (sweep_idle float now m)
  unfolding sweep_idle lookup
  sweep_idle-WithinAt k now [] u h = h
  sweep_idle-WithinAt k now ((j, b) ∷ m) u h = elim (Bool-cases (bytes_eq j k)) [
    | inl same ↦
        let absent : lookup k m ≡ none = ground (arith, bytes_eq_iff j k, u.0) in
        ground (arith, sweep_idle-WithinAt k now m u.1 (rw (WithinAt, absent) tt))
    | inr other ↦ ground (arith, sweep_idle-WithinAt k now m u.1)
  ]

  -- A bucket never holds fewer than zero tokens or more than the capacity: a `check` of any address
  -- at any time, and a sweep, keep all buckets between the two.
  pub tokens_within :
      (ip : Bytes) (now : ℕ) (m : Buckets float)
      → IsUnique m
      → AllWithin m
      → AllWithin (check float limiter ip now m).1 × AllWithin (sweep_idle float now m)
  tokens_within ip now m u h =
      (λ k. check-WithinAt ip k now m (h ip) (h k), λ k. sweep_idle-WithinAt k now m u (h k))
