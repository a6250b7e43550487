-- ===== src/Utf8/Simd.antt =====
-- The vector front ends of the validator and the dispatcher. A vector is the list of its lanes.
use iojournal.Prelude.{
  All-drop, All-take, Bool, Bytes, IsByte, IsBytes, [], arith, bit_and, drop, eq_of_same, false,
  holds_at, holds_up_to, if◌then◌else◌, leb, length, ltb, not, refl, same, some, suc, take,
  take-append-drop, true, zero, ℕ, ◌&&◌, ◌++◌, ◌==◌, ◌||◌, ◌∙◌, ◌∷◌, ◌≡◌,
}
use iojournal.Simd.{Cpu, arm_neon, scalar, simd_kind, utf8_min_len, x86_avx2}
use iojournal.Utf8.{advance, scalar_validate, validate_loop}

-- `_mm256_movemask_epi8(chunk) != 0`; NEON's `(chunk & 0x80) != 0` in some lane
pub any_high : Bytes → Bool
any_high [] = false
any_high (c ∷ s) = not (bit_and c 0x80 == 0) || any_high s

-- `while (i + width <= len)`: skip chunks with no high bit; what is left of `data`. On fuel, of
-- which `len` is enough, as every round skips `width` bytes.
pub skip_ascii : ℕ → ℕ → Bytes → Bytes
skip_ascii width zero s = s
skip_ascii width (suc f) s = elim (leb width (length s) && not (any_high (take width s))) [
  | true ↦ skip_ascii width f (drop width s)
  | false ↦ s
]

-- `ij_utf8_x86_avx2_validate`
pub x86_avx2_validate : Cpu → Bytes → Bool
x86_avx2_validate cpu s =
    if cpu.has_x86_avx2 then scalar_validate (skip_ascii 32 (length s) s) else scalar_validate s

-- `ij_utf8_arm_neon_validate`
pub arm_neon_validate : Cpu → Bytes → Bool
arm_neon_validate cpu s =
    if cpu.has_arm_neon then scalar_validate (skip_ascii 16 (length s) s) else scalar_validate s

-- `ij_utf8_is_valid_dispatch`
unfoldable pub is_valid_dispatch : Cpu → Bytes → Bool
unfolding x86_avx2_validate arm_neon_validate skip_ascii any_high simd_kind
is_valid_dispatch cpu s =
    if ltb (length s) utf8_min_len then scalar_validate s else elim (simd_kind cpu) [
      | x86_avx2 ↦ x86_avx2_validate cpu s
      | arm_neon ↦ arm_neon_validate cpu s
      | scalar ↦ scalar_validate s
    ]

pub ascii_of_table : (c : ℕ) → IsByte c → bit_and c 0x80 == 0 ≡ leb c 0x7f
unfolding holds_up_to
ascii_of_table c h =
    eq_of_same _ _ (holds_at (λ d. same (bit_and d 0x80 == 0) (leb d 0x7f)) 256 c h refl)

pub scalar_validate-cons_ascii :
    (c : ℕ) (s : Bytes) → leb c 0x7f ≡ true → scalar_validate (c ∷ s) ≡ scalar_validate s
unfolding scalar_validate
scalar_validate-cons_ascii c s h =
    let one : advance c s ≡ some 1 = unfold advance in rw (h, advance) in rw (one, validate_loop)

pub scalar_validate-append_ascii :
    (xs ys : Bytes)
    → IsBytes xs
    → any_high xs ≡ false
    → scalar_validate (xs ++ ys) ≡ scalar_validate ys
unfolding any_high
scalar_validate-append_ascii [] ys b h = refl
scalar_validate-append_ascii (c ∷ xs) ys b h =
    scalar_validate-cons_ascii c (xs ++ ys) (ground (arith, ascii_of_table c b.0))
    ∙ scalar_validate-append_ascii xs ys b.1 (ground arith)

scalar_validate-skip_ascii :
    (width f : ℕ) (s : Bytes)
    → IsBytes s
    → scalar_validate (skip_ascii width f s) ≡ scalar_validate s
unfolding skip_ascii
scalar_validate-skip_ascii width zero s b = refl
scalar_validate-skip_ascii width (suc f) s b = ground (
  arith,
  scalar_validate-skip_ascii width f (drop width s) (All-drop IsByte width s b),
  scalar_validate-append_ascii (take width s) (drop width s) (All-take IsByte width s b),
  take-append-drop width s,
)

-- Whatever the processor offers, and however long the text, the dispatcher's verdict on a byte
-- string is that of the scalar validator.
pub is_valid_dispatch-eq_scalar :
    (cpu : Cpu) (s : Bytes) → IsBytes s → is_valid_dispatch cpu s ≡ scalar_validate s
unfolding is_valid_dispatch
is_valid_dispatch-eq_scalar cpu s b = ground (
  arith,
  scalar_validate-skip_ascii 32 (length s) s b,
  scalar_validate-skip_ascii 16 (length s) s b,
)
