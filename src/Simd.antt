-- ===== src/Simd.antt =====
-- src/encoders/ij_simd_dispatch.h: which implementation of a scan runs. What the processor offers
-- is not under the program's control: it is the argument `cpu` of every dispatcher.
use iojournal.Prelude.{Bool, if◌then◌else◌, ℕ}

-- `ij_simd_runtime_has_x86_avx2` and `ij_simd_runtime_has_arm_neon`
pub record Cpu : Type 0 where
  pub has_x86_avx2 : Bool
  pub has_arm_neon : Bool

-- `ij_simd_kind_t`
pub data SimdKind : Type 0 where
  scalar x86_avx2 arm_neon : SimdKind

-- `ij_simd_json_escape_kind` and `ij_simd_utf8_kind`, whose bodies are the same
unfoldable pub simd_kind : Cpu → SimdKind
simd_kind cpu = if cpu.has_x86_avx2 then x86_avx2 else if cpu.has_arm_neon then arm_neon else scalar

-- `IJ_SIMD_JSON_ESCAPE_MIN_LEN` and `IJ_SIMD_UTF8_MIN_LEN`
abbrev pub json_escape_min_len : ℕ
json_escape_min_len = 32

abbrev pub utf8_min_len : ℕ
utf8_min_len = 32
