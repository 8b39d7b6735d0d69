-- ===== src/Clock/Bounds.antt =====
-- Bounds on expiry and time to live (url-shortener/src/application/mod.rs).
use hicho.Common.{ℕ, ◌+◌, ◌-◌, ◌≤◌, ◌<◌, ◌≡◌, min, true, some, arith}
use hicho.Common.Int.{pos, ◌+ℤ◌, ◌-ℤ◌, i64_max, as_i64, wrap_i64, saturating_add, sub_i64}
use hicho.Clock.{expired_at, expiry, ttl_until}

-- For an expiry and a clock that are not negative, the time to live in the cache is what is left
-- until the expiry, at most 300 seconds, and zero from the expiry on.
pub ttl_until_bounds :
    (exp now : ℕ)
    → exp ≤ i64_max
    → now ≤ i64_max
    → ttl_until (some (pos exp)) (pos now) ≡ min (exp - now) 300
unfolding ttl_until sub_i64 wrap_i64 ◌-ℤ◌
ttl_until_bounds exp now re rn = ground arith

-- A time to live below 2^63 seconds puts the expiry that far after the creation, or at the
-- largest i64 if that is nearer.
pub expiry_saturates :
    (created secs : ℕ)
    → created ≤ i64_max
    → secs ≤ i64_max
    → expiry (pos created) (some secs) ≡ some (pos (min (created + secs) i64_max))
unfolding expiry as_i64 wrap_i64 saturating_add ◌+ℤ◌
expiry_saturates created secs r h = ground arith

-- A time to live of 2^63 seconds or more, which is a u64 all the same, is cast to a negative i64:
-- the new link has expired when it is created.
pub expiry_born_expired :
    (created secs : ℕ)
    → created ≤ i64_max
    → i64_max < secs
    → secs ≤ 18446744073709551615
    → expired_at (expiry (pos created) (some secs)) (pos created) ≡ true
unfolding expiry as_i64 wrap_i64 saturating_add ◌+ℤ◌
expiry_born_expired created secs r lo hi = ground arith
