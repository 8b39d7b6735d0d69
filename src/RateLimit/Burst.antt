-- ===== src/RateLimit/Burst.antt =====
-- How many requests the limiter lets through (url-shortener/src/rate_limit.rs).
use hicho.Common.{
  ℕ, zero, suc, ◌-◌, ◌≤◌, ◌<◌, ◌≡◌, ◌≢◌, refl, none, some, Bytes, bytes_key, bytes_eq_iff,
  bytes_eq_refl, arith, ltb, leb, ◌==◌, if◌then◌else◌, min,
}
use hicho.Common.Map.{lookup, lookup-insert}
use hicho.RateLimit.{Float, Bucket, Buckets, RateLimiter, new, entry, refilled, check}

-- A check of one address leaves the bucket of every other address as it was.
pub others_unaffected :
    (float : Float) (l : RateLimiter float) (ip other : Bytes) (now : ℕ) (m : Buckets float)
    → ip ≢ other
    → lookup other (check float l ip now m).1 ≡ lookup other m
unfolding check
others_unaffected float l ip other now m apart =
    let t = refilled float l (entry float l ip now m) now in
    ground (
      arith,
      apart,
      bytes_eq_iff ip other,
      lookup-insert ip other (record { tokens = float.sub t (float.of_u32 1); last = now }) m,
      lookup-insert ip other (record { tokens = t; last = now }) m,
    )

module _ (float : Float) where
  open float use {F64, of_u32, of_nanos, add, sub, mul, minimum, leq}

  -- Documented of `f64`: it holds every `u32` exactly, and compares and subtracts them; no time
  -- refills nothing.
  pub record Exact : Type 0 where
    pub leq_u32 : (a b : ℕ) → a ≤ 4294967295 → b ≤ 4294967295 → leq (of_u32 a) (of_u32 b) ≡ leb a b
    pub sub_one : (n : ℕ) → n < 4294967295 → sub (of_u32 (suc n)) (of_u32 1) ≡ of_u32 n
    pub min_u32 :
        (a b : ℕ)
        → a ≤ 4294967295
        → b ≤ 4294967295
        → minimum (of_u32 a) (of_u32 b) ≡ of_u32 (min a b)
    pub no_time :
        (n rps : ℕ)
        → n ≤ 4294967295
        → rps ≤ 4294967295
        → add (of_u32 n) (mul (of_nanos 0) (of_u32 rps)) ≡ of_u32 n

  -- how many of `n` checks of one address at the time `now` are allowed
  unfoldable pub allowed : ℕ → RateLimiter float → Bytes → ℕ → Buckets float → ℕ
  allowed zero l ip now m = 0
  allowed (suc n) l ip now m =
      let (is_allowed, m') = check float l ip now m in
      let rest = allowed n l ip now m' in if is_allowed then suc rest else rest

module _ {float : Float} (law : Exact float) (rps burst : ℕ) where
  open float use {F64, of_u32, of_nanos, add, sub, mul, minimum, leq}

  abbrev limiter : RateLimiter float
  limiter = new float rps burst

  abbrev capacity : ℕ
  capacity = if burst == 0 then rps else burst

  -- The address has `t` tokens at the time `now`.
  abbrev Has : Bytes → ℕ → ℕ → Buckets float → Type 0
  Has ip now t m =
      (elim (lookup ip m) [ none ↦ t ≡ capacity | some b ↦ (b.tokens ≡ of_u32 t) × (b.last ≡ now) ])
      × (t ≤ capacity)

  refill_none :
      (b : Bucket float) (now t : ℕ)
      → rps ≤ 4294967295
      → burst ≤ 4294967295
      → b.tokens ≡ of_u32 t
      → b.last ≡ now
      → t ≤ capacity
      → refilled float limiter b now ≡ of_u32 t
  unfolding refilled new
  refill_none b now t hr hb e at le =
      let idle : now - b.last ≡ 0 = omega arith in
      let small : capacity ≤ 4294967295 = ground arith in
      let least : min t capacity ≡ t = omega arith in
      let same = law.no_time t rps (omega arith) hr in
      let top = law.min_u32 t capacity (omega arith) small in
      rw (refilled, idle, e, same, top, least) refl

  entry_lem :
      (ip : Bytes) (now t : ℕ) (m : Buckets float)
      → Has ip now t m
      → let b = entry float limiter ip now m in (b.tokens ≡ of_u32 t) × (b.last ≡ now)
  unfolding entry new
  entry_lem ip now t m h = ground arith

  refilled_lem :
      (ip : Bytes) (now t : ℕ) (m : Buckets float)
      → rps ≤ 4294967295
      → burst ≤ 4294967295
      → Has ip now t m
      → refilled float limiter (entry float limiter ip now m) now ≡ of_u32 t
  refilled_lem ip now t m hr hb h =
      let (e, at) = entry_lem ip now t m h in
      refill_none (entry float limiter ip now m) now t hr hb e at h.1

  -- one check: it takes a token, or there is none
  check-Has :
      (ip : Bytes) (now t : ℕ) (m : Buckets float)
      → 1 ≤ rps
      → rps ≤ 4294967295
      → burst ≤ 4294967295
      → Has ip now t m
      → ((check float limiter ip now m).0 ≡ ltb 0 t)
        × Has ip now (t - 1) (check float limiter ip now m).1
  unfolding check new
  check-Has ip now zero m on hr hb h =
      let tokens = refilled_lem ip now zero m hr hb h in
      ground (
        arith,
        tokens,
        law.leq_u32 rps 0 hr (omega arith),
        law.leq_u32 1 0 (omega arith) (omega arith),
        lookup-insert ip ip (record { tokens = of_u32 0; last = now }) m,
        bytes_eq_refl ip,
      )
  check-Has ip now (suc t) m on hr hb h =
      let tokens = refilled_lem ip now (suc t) m hr hb h in
      let small : suc t ≤ 4294967295 = ground (arith, h.1) in
      ground (
        arith,
        tokens,
        law.leq_u32 rps 0 hr (omega arith),
        law.leq_u32 1 (suc t) (omega arith) small,
        law.sub_one t (omega arith),
        lookup-insert ip ip (record { tokens = of_u32 t; last = now }) m,
        bytes_eq_refl ip,
      )

  allowed_lem :
      (n : ℕ) (ip : Bytes) (now t : ℕ) (m : Buckets float)
      → 1 ≤ rps
      → rps ≤ 4294967295
      → burst ≤ 4294967295
      → Has ip now t m
      → allowed float n limiter ip now m ≡ min n t
  unfolding allowed
  allowed_lem zero ip now t m on hr hb h = omega arith
  allowed_lem (suc n) ip now t m on hr hb h =
      let (answer, next) = check-Has ip now t m on hr hb h in
      let rest = allowed_lem n ip now (t - 1) (check float limiter ip now m).1 on hr hb next in
      ground (arith, answer, rest)

  -- Of `n` requests of a new address at one moment exactly as many are let through as the burst
  -- allows (`rps`, if `burst` is zero), or all if they are fewer; for a positive rate, and for
  -- `f64` as documented.
  pub burst_allowed :
      (n : ℕ) (ip : Bytes) (now : ℕ) (m : Buckets float)
      → 1 ≤ rps
      → rps ≤ 4294967295
      → burst ≤ 4294967295
      → lookup ip m ≡ none
      → allowed float n (new float rps burst) ip now m ≡ min n (if burst == 0 then rps else burst)
  burst_allowed n ip now m on hr hb fresh =
      allowed_lem n ip now capacity m on hr hb (ground (arith, fresh))
