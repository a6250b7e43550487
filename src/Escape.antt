-- ===== src/Escape.antt =====
-- src/encoders/ij_json_escape_scalar.c, ij_json_escape_x86_avx2.c, ij_json_escape_arm_neon.c: the
-- scan for the first byte that JSON wants escaped. `text` from `i` on is the list of the bytes left.
pub mod Scan
mod Tests
use iojournal.Prelude.{
  Bool, Bytes, [], drop, false, if◌then◌else◌, leb, length, ltb, suc, take, true, zero, ℕ, ◌+◌, ◌-◌,
  ◌==◌, ◌||◌, ◌∷◌,
}
use iojournal.Simd.{Cpu, arm_neon, json_escape_min_len, scalar, simd_kind, x86_avx2}

-- The test of the scalar loop.
unfoldable pub is_special : ℕ → Bool
is_special c = c == b'\\' || c == b'"' || c == b'\n' || c == b'\r' || c == b'\t' || ltb c 0x20

-- `ij_json_escape_scalar_find_first_special`: the index, or the length if there is none
unfoldable pub scalar_find_first_special : Bytes → ℕ
unfolding is_special
scalar_find_first_special [] = 0
scalar_find_first_special (c ∷ s) = elim (is_special c) [
  | true ↦ 0
  | false ↦ suc (scalar_find_first_special s)
]

-- A lane of the AVX2 mask. `_mm256_subs_epu8(chunk, 0x1f)` is an unsigned subtraction that
-- saturates at 0.
pub x86_avx2_lane : ℕ → Bool
x86_avx2_lane c =
    (c == b'"' || (c == b'\\' || (c == b'\n' || (c == b'\r' || c == b'\t')))) || (c - 0x1f) == 0

-- A lane of the NEON mask.
pub arm_neon_lane : ℕ → Bool
arm_neon_lane c =
    (c == b'"' || (c == b'\\' || (c == b'\n' || (c == b'\r' || c == b'\t')))) || ltb c 0x20

-- `mask != 0` over the lanes of a chunk
unfoldable pub any_lane : (ℕ → Bool) → Bytes → Bool
any_lane lane [] = false
any_lane lane (c ∷ s) = lane c || any_lane lane s

-- `__builtin_ctz(mask)`: the first lane that is set
pub first_lane : (ℕ → Bool) → Bytes → ℕ
first_lane lane [] = 0
first_lane lane (c ∷ s) = elim (lane c) [ true ↦ 0 | false ↦ suc (first_lane lane s) ]

-- The loop that the two vector scans share, `while (i + width <= len)`, on fuel: every round but
-- the last skips `width` bytes, so the length is enough. `hit` is what a scan does in a chunk whose
-- mask is not zero.
pub scan_chunks : ℕ → (ℕ → Bool) → (Bytes → ℕ) → ℕ → Bytes → ℕ
scan_chunks width lane hit zero s = scalar_find_first_special s
scan_chunks width lane hit (suc f) s = elim (leb width (length s)) [
  | false ↦ scalar_find_first_special s
  | true ↦ elim (any_lane lane (take width s)) [
    | true ↦ hit (take width s)
    | false ↦ width + scan_chunks width lane hit f (drop width s)
  ]
]

-- `ij_json_escape_x86_avx2_impl`
pub x86_avx2_impl : Bytes → ℕ
x86_avx2_impl s = scan_chunks 32 x86_avx2_lane (first_lane x86_avx2_lane) (length s) s

-- `ij_json_escape_arm_neon_impl`: on a hit the scalar scan runs over the 16 bytes.
pub arm_neon_impl : Bytes → ℕ
arm_neon_impl s = scan_chunks 16 arm_neon_lane scalar_find_first_special (length s) s

-- `ij_json_escape_x86_avx2_find_first_special`
pub x86_avx2_find_first_special : Cpu → Bytes → ℕ
x86_avx2_find_first_special cpu s =
    if cpu.has_x86_avx2 then x86_avx2_impl s else scalar_find_first_special s

-- `ij_json_escape_arm_neon_find_first_special`
pub arm_neon_find_first_special : Cpu → Bytes → ℕ
arm_neon_find_first_special cpu s =
    if cpu.has_arm_neon then arm_neon_impl s else scalar_find_first_special s

-- `ij_json_escape_find_first_special`
pub find_first_special : Cpu → Bytes → ℕ
unfolding simd_kind x86_avx2_find_first_special arm_neon_find_first_special x86_avx2_impl
    arm_neon_impl scan_chunks scalar_find_first_special any_lane first_lane x86_avx2_lane
    arm_neon_lane is_special
find_first_special cpu s =
    if ltb (length s) json_escape_min_len
    then scalar_find_first_special s
    else elim (simd_kind cpu) [
      | x86_avx2 ↦ x86_avx2_find_first_special cpu s
      | arm_neon ↦ arm_neon_find_first_special cpu s
      | scalar ↦ scalar_find_first_special s
    ]
