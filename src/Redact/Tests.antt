-- ===== src/Redact/Tests.antt =====
-- The denylist at concrete keys.
use iojournal.Prelude.{Bytes, arith, codes, false, some, true, ◌≡◌}
use iojournal.Redact.{case_equal_scalar, has_dot_scalar, key_should_redact_n, match_known_key}
use iojournal.Redact.Spec.{is_secret, should_redact}
use iojournal.Redact.Words.{match_known_key-is_secret}
use iojournal.Redact.Suffix.{key_should_redact_n-should_redact}
use iojournal.Simd.{Cpu}
use iojournal.Redact.Simd.{
  case_equal_arm_neon, case_equal_simd-eq_scalar, case_equal_x86_avx2, has_dot_arm_neon,
  has_dot_simd-eq_scalar, has_dot_x86_avx2,
}

key_should_redact_n-should_redact_example :
    key_should_redact_n (some (codes "http.Password")) ≡ should_redact (codes "http.Password")
key_should_redact_n-should_redact_example =
    key_should_redact_n-should_redact (codes "http.Password") (omega arith)

match_known_key-is_secret_example : match_known_key (codes "API-Key") ≡ is_secret (codes "API-Key")
match_known_key-is_secret_example = match_known_key-is_secret (codes "API-Key") (omega arith)

abbrev avx2 : Cpu
avx2 = record { has_x86_avx2 = true; has_arm_neon = false }

abbrev long_key : Bytes
long_key = codes "Service.Database.Primary.Password.Of.Root"

case_equal_simd-eq_scalar_example :
    (case_equal_x86_avx2 avx2 long_key (codes "token") ≡ case_equal_scalar long_key (codes "token"))
    × (case_equal_arm_neon avx2 long_key (codes "token")
        ≡ case_equal_scalar long_key (codes "token"))
case_equal_simd-eq_scalar_example =
    case_equal_simd-eq_scalar avx2 long_key (codes "token") (omega arith) (omega arith)

has_dot_simd-eq_scalar_example :
    (has_dot_x86_avx2 avx2 long_key ≡ has_dot_scalar long_key)
    × (has_dot_arm_neon avx2 long_key ≡ has_dot_scalar long_key)
has_dot_simd-eq_scalar_example = has_dot_simd-eq_scalar avx2 long_key
