-- ===== src/Clock/Tests.antt =====
-- Runs of the clock's functions (url-shortener/src/application/mod.rs).
use hicho.Common.{◌≡◌, true, some, arith}
use hicho.Common.Int.{pos}
use hicho.Clock.{expiry, expired_at}
use hicho.Clock.Bounds.{expiry_born_expired}

expiry_born_expired_example :
    expired_at (expiry (pos 1000) (some 18446744073709551615)) (pos 1000) ≡ true
expiry_born_expired_example =
    expiry_born_expired 1000 18446744073709551615 (omega arith) (omega arith) (omega arith)
