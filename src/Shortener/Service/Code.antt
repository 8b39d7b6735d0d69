-- ===== src/Shortener/Service/Code.antt =====
-- The time to live and the generated codes of links (url-shortener/src/application/mod.rs).
use hicho.Common.{ℕ, ◌≤◌, ◌<◌, arith}
use hicho.Common.Int.{ℤ}
use hicho.Clock.{ttl_until}
use hicho.Codes.{generate_code, generate_code-All, length-generate_code}
use hicho.Shortener.Domain.ShortCode.{IsCode}
use hicho.Shortener.Domain.Link.{Link}

abbrev pub generated_code_len : ℕ
generated_code_len = 7

unfoldable pub cache_ttl_secs : Link → ℤ → ℕ
unfolding ttl_until
cache_ttl_secs link now = ttl_until link.expires_at now

-- A generated code passes validation, whatever indices are drawn from the alphabet, at every
-- length from 1 to 32.
pub generate_code-IsCode :
    (len : ℕ) (draw : ℕ → ℕ)
    → 1 ≤ len
    → len ≤ 32
    → ((i : ℕ) → draw i < 62)
    → IsCode (generate_code len draw)
generate_code-IsCode len draw lo hi h = record {
  long_enough = omega (arith, length-generate_code len draw);
  short_enough = omega (arith, length-generate_code len draw);
  charset = generate_code-All len draw h;
}
