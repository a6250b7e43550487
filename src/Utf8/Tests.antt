-- ===== src/Utf8/Tests.antt =====
-- Runs of the validators, and the theorems on them at concrete texts.
use iojournal.Prelude.{Bytes, IsBytes, [], arith, false, refl, true, ◌∷◌, ◌≡◌}
use iojournal.Simd.{Cpu}
use iojournal.Utf8.{advance, scalar_validate, validate_loop}
use iojournal.Utf8.Spec.{IsUtf8}
use iojournal.Utf8.Sound.{scalar_validate-IsUtf8}
use iojournal.Utf8.Simd.{is_valid_dispatch, is_valid_dispatch-eq_scalar}

-- "é€" and a letter
abbrev two_points : Bytes
two_points = 0xc3 ∷ 0xa9 ∷ 0xe2 ∷ 0x82 ∷ 0xac ∷ b'x' ∷ []

-- a surrogate, as three bytes
abbrev surrogate : Bytes
surrogate = 0xed ∷ 0xa0 ∷ 0x80 ∷ []

abbrev avx2 : Cpu
avx2 = record { has_x86_avx2 = true; has_arm_neon = false }

two_points-IsBytes : IsBytes two_points
two_points-IsBytes = omega arith

runs : (scalar_validate two_points ≡ true) × (scalar_validate surrogate ≡ false)
unfolding scalar_validate validate_loop advance
runs = (refl, refl)

scalar_validate-IsUtf8_example :
    (scalar_validate two_points ≡ true → IsUtf8 two_points)
    × (IsUtf8 two_points → scalar_validate two_points ≡ true)
scalar_validate-IsUtf8_example = scalar_validate-IsUtf8 two_points two_points-IsBytes

is_valid_dispatch-eq_scalar_example : is_valid_dispatch avx2 two_points ≡ scalar_validate two_points
is_valid_dispatch-eq_scalar_example = is_valid_dispatch-eq_scalar avx2 two_points two_points-IsBytes
