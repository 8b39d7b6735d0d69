-- ===== src/Clock.antt =====
-- The clock, expiry and the cache's time to live: the same code in
-- url-shortener/src/application/mod.rs and pastebin-service/src/application/mod.rs, and the test
-- of `is_expired` in their domain/mod.rs.
pub mod Bounds
mod Tests
use hicho.Common.{ℕ, Bool, false, Option, none, some, min, if◌then◌else◌}
use hicho.Common.Int.{ℤ, pos, leb_ℤ, sub_i64, as_i64, saturating_add, pos_part}

abbrev pub max_cache_ttl_secs : ℕ
max_cache_ttl_secs = 300

-- `is_expired`: the expiry is at or before `now`.
abbrev pub expired_at : Option ℤ → ℤ → Bool
expired_at none now = false
expired_at (some exp) now = leb_ℤ exp now

-- `now_unix` on what `duration_since` gives: the seconds since the epoch, or an error
unfoldable pub now_unix : Option ℕ → ℤ
now_unix none = pos 0
now_unix (some secs) = as_i64 secs

-- the expiry that `create` computes
unfoldable pub expiry : ℤ → Option ℕ → Option ℤ
expiry created_at none = none
expiry created_at (some secs) = some (saturating_add created_at (as_i64 secs))

-- `cache_ttl_secs` for an expiry; `remaining as u64` is `pos_part`, since it is positive there.
unfoldable pub ttl_until : Option ℤ → ℤ → ℕ
ttl_until none now = max_cache_ttl_secs
ttl_until (some exp) now =
    let remaining = sub_i64 exp now in
    if leb_ℤ remaining (pos 0) then 0 else min (pos_part remaining) max_cache_ttl_secs
