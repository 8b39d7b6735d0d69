-- ===== src/RateLimit/Tests.antt =====
-- Runs of the limiter (url-shortener/src/rate_limit.rs) on whole tokens.
use hicho.Common.{
  ℕ, ◌+◌, ◌-◌, ◌*◌, ◌/◌, ◌≡◌, ◌≢◌, refl, [], ◌∷◌, Bytes, bytes_key, bytes_eq, bytes_eq_iff, arith,
  leb, min,
}
use hicho.Common.Map.{lookup, IsUnique}
use hicho.Common.Text.{bytes}
use hicho.RateLimit.{Float, Buckets, new, check, sweep_idle}
use hicho.RateLimit.Bounds.{Ordered, AllWithin, tokens_within}
use hicho.RateLimit.Burst.{Exact, allowed, burst_allowed}

-- Numbers of whole tokens and whole seconds.
abbrev whole : Float
whole = record {
  F64 = ℕ;
  of_u32 = λ n. n;
  of_nanos = λ n. n / 1000000000;
  add = λ a b. a + b;
  sub = λ a b. a - b;
  mul = λ a b. a * b;
  minimum = λ a b. min a b;
  leq = λ a b. leb a b;
}

whole-Ordered : Ordered whole
whole-Ordered = record {
  minimum_le = λ x c h k. ground arith;
  minimum_ge = λ x c h k. ground arith;
  less_one = λ x c h k. ground arith;
  not_negative = λ n. ground arith;
  grows = λ x rps nanos h. ground arith;
  itself = λ x h. ground arith;
}

whole-Exact : Exact whole
whole-Exact = record {
  leq_u32 = λ a b ha hb. refl;
  sub_one = λ n h. omega arith;
  min_u32 = λ a b ha hb. refl;
  no_time = λ n rps hn hr. omega arith;
}

abbrev one : Bytes
one = bytes "10.0.0.1"

abbrev two : Bytes
two = bytes "10.0.0.2"

abbrev buckets : Buckets whole
buckets = (two, record { tokens = 3; last = 0 }) ∷ []

one-two : one ≢ two
unfolding bytes_eq
one-two e = cc ((bytes_eq_iff one two).1 e)

burst_allowed_example : allowed whole 4 (new whole 5 3) one 7 buckets ≡ 3
unfolding lookup bytes_eq
burst_allowed_example =
    burst_allowed whole-Exact 5 3 4 one 7 buckets (omega arith) (omega arith) (omega arith) refl

buckets-AllWithin : AllWithin whole-Ordered 5 5 buckets
unfolding lookup new
buckets-AllWithin k = ground arith

buckets-IsUnique : IsUnique buckets
unfolding lookup
buckets-IsUnique = (refl, tt)

tokens_within_example :
    AllWithin whole-Ordered 5 5 (check whole (new whole 5 5) one 7 buckets).1
    × AllWithin whole-Ordered 5 5 (sweep_idle whole 7 buckets)
tokens_within_example =
    tokens_within whole-Ordered 5 5 one 7 buckets buckets-IsUnique buckets-AllWithin
