-- ===== src/Api/Tests.antt =====
-- A run of the rate limit (url-shortener/src/api/mod.rs).
use hicho.Common.{ℕ, ◌+◌, ◌-◌, ◌*◌, ◌/◌, none, some, [], Bytes, leb, min}
use hicho.Common.Text.{bytes}
use hicho.RateLimit.{Float, Buckets}
use hicho.Api.{Request}

-- Numbers of whole tokens and whole seconds.
abbrev whole : Float
whole = record {
  F64 = ℕ;
  of_u32 = λ n. n;
  of_nanos = λ n. n / 1000000000;
  add = λ a b. a + b;
  sub = λ a b. a - b;
  mul = λ a b. a * b;
  minimum = λ a b. min a b;
  leq = λ a b. leb a b;
}

abbrev plain : Request
plain = record { x_forwarded_for = none; x_real_ip = none; peer = some (bytes "10.0.0.1") }

abbrev spoofed : Request
spoofed = record plain { x_forwarded_for = some (bytes "1.2.3.4, 5.6.7.8") }

abbrev count_call : ℕ → (ℕ × Bytes) × ℕ
count_call w = ((200, []), w + 1)

abbrev nobody : Buckets whole × ℕ
nobody = ([], 0)
