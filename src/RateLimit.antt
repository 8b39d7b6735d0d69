-- ===== src/RateLimit.antt =====
-- The per-IP token bucket (url-shortener/src/rate_limit.rs; pastebin-service/src/rate_limit.rs has
-- the same code).
pub mod Bounds
pub mod Burst
mod Tests
use hicho.Common.{
  ℕ, zero, suc, ◌-◌, Bool, true, false, Option, none, some, List, [], ◌∷◌, Bytes, bytes_key, ltb,
  ◌==◌, if◌then◌else◌,
}
use hicho.Common.Map.{Map, lookup, insert}

-- The operations of `f64` that the limiter calls; `of_nanos` is `as_secs_f64` of a duration.
pub record Float : Type 1 where
  pub F64 : Type 0
  pub of_u32 : ℕ → F64
  pub of_nanos : ℕ → F64
  pub add : F64 → F64 → F64
  pub sub : F64 → F64 → F64
  pub mul : F64 → F64 → F64
  pub minimum : F64 → F64 → F64
  pub leq : F64 → F64 → Bool

-- `IDLE_EVICT`, in nanoseconds
abbrev pub idle_evict : ℕ
idle_evict = 600000000000

module _ (float : Float) where
  open float use {F64, of_u32, of_nanos, add, sub, mul, minimum, leq}

  pub record Bucket : Type 0 where
    pub tokens : F64
    pub last : ℕ

  -- Addresses are the keys; an `Instant` is a number of nanoseconds.
  abbrev pub Buckets : Type 0
  Buckets = Map Bytes Bucket

  pub record RateLimiter : Type 0 where
    pub capacity : F64
    pub refill_per_sec : F64

  -- `new`
  unfoldable pub new : ℕ → ℕ → RateLimiter
  new rps burst = record {
    capacity = of_u32 (if burst == 0 then rps else burst);
    refill_per_sec = of_u32 rps;
  }

  -- `entry(ip).or_insert(…)`
  unfoldable pub entry : RateLimiter → Bytes → ℕ → Buckets → Bucket
  entry l ip now buckets = elim (lookup ip buckets) [
    | none ↦ record { tokens = l.capacity; last = now }
    | some b ↦ b
  ]

  -- the tokens after the refill; `duration_since` stops at zero
  unfoldable pub refilled : RateLimiter → Bucket → ℕ → F64
  refilled l b now =
      minimum (add b.tokens (mul (of_nanos (now - b.last)) l.refill_per_sec)) l.capacity

  -- `check`
  unfoldable pub check : RateLimiter → Bytes → ℕ → Buckets → Bool × Buckets
  check l ip now buckets =
      if leq l.refill_per_sec (of_u32 0)
      then (true, buckets)
      else (let tokens = refilled l (entry l ip now buckets) now in
          if leq (of_u32 1) tokens
          then (true, insert ip (record { tokens = sub tokens (of_u32 1); last = now }) buckets)
          else (false, insert ip (record { tokens = tokens; last = now }) buckets))

  -- one round of `sweep_idle`
  unfoldable pub sweep_idle : ℕ → Buckets → Buckets
  sweep_idle now [] = []
  sweep_idle now ((ip, b) ∷ rest) =
      let kept = sweep_idle now rest in
      if ltb (now - b.last) idle_evict then (ip, b) ∷ kept else kept
