-- ===== src/Redact/Simd.antt =====
-- src/filters/ij_redact_match_x86_avx2.c and src/filters/ij_redact_match_arm_neon.c: the vector
-- variants of the comparison without case and of the search for a dot. A vector is the list of its
-- lanes, and a mask the answers of its lanes. The loops run on fuel, of which the length is enough.
use iojournal.Prelude.{
  ==_iff, All-drop, Bool, Bool-cases, Bytes, IsByte, IsBytes, [], arith, bit_or, drop, false,
  holds_at, holds_up_to, if◌then◌else◌, inl, inr, leb, length, length-drop, ltb, not, refl, suc,
  take, true, zero, ℕ, ◌%◌, ◌&&◌, ◌+◌, ◌-◌, ◌==◌, ◌||◌, ◌∷◌, ◌≡◌,
}
use iojournal.Simd.{Cpu}
use iojournal.Escape.{any_lane}
use iojournal.Redact.{case_equal_loop, case_equal_scalar, has_dot_scalar, tolower}

-- `_mm256_cmpgt_epi8` in a lane: the bytes are compared as signed numbers.
abbrev signed_gt : ℕ → ℕ → Bool
signed_gt a b = ltb ((b + 128) % 256) ((a + 128) % 256)

-- a lane of `ij_redact_lower_x86_avx2`
pub lower_x86_avx2 : ℕ → ℕ
lower_x86_avx2 c = if signed_gt c (b'A' - 1) && signed_gt (b'Z' + 1) c then bit_or c 0x20 else c

-- a lane of `ij_redact_lower_arm_neon`
pub lower_arm_neon : ℕ → ℕ
lower_arm_neon c = if leb b'A' c && leb c b'Z' then bit_or c 0x20 else c

-- whether all lanes of two vectors are equal
pub lanes_equal : (ℕ → ℕ) → Bytes → Bytes → Bool
lanes_equal lower [] [] = true
lanes_equal lower [] (d ∷ rhs) = false
lanes_equal lower (c ∷ lhs) [] = false
lanes_equal lower (c ∷ lhs) (d ∷ rhs) = lower c == lower d && lanes_equal lower lhs rhs

-- the loop `while (i + width <= lhs_len)` with the scalar comparison behind it
pub case_equal_chunks : ℕ → (ℕ → ℕ) → ℕ → Bytes → Bytes → Bool
case_equal_chunks width lower zero lhs rhs = case_equal_scalar lhs rhs
case_equal_chunks width lower (suc f) lhs rhs = elim (leb width (length lhs)) [
  | false ↦ case_equal_scalar lhs rhs
  | true ↦ elim (lanes_equal lower (take width lhs) (take width rhs)) [
    | false ↦ false
    | true ↦ case_equal_chunks width lower f (drop width lhs) (drop width rhs)
  ]
]

-- `ij_redact_case_equal_x86_avx2`
pub case_equal_x86_avx2 : Cpu → Bytes → Bytes → Bool
case_equal_x86_avx2 cpu lhs rhs =
    if cpu.has_x86_avx2
    then (if not (length lhs == length rhs)
        then false
        else case_equal_chunks 32 lower_x86_avx2 (length lhs) lhs rhs)
    else case_equal_scalar lhs rhs

-- `ij_redact_case_equal_arm_neon`
pub case_equal_arm_neon : Cpu → Bytes → Bytes → Bool
case_equal_arm_neon cpu lhs rhs =
    if cpu.has_arm_neon
    then (if not (length lhs == length rhs)
        then false
        else case_equal_chunks 16 lower_arm_neon (length lhs) lhs rhs)
    else case_equal_scalar lhs rhs

abbrev is_dot : ℕ → Bool
is_dot c = c == b'.'

-- the loop `while (i + width <= len)` with the scalar search behind it
pub has_dot_chunks : ℕ → ℕ → Bytes → Bool
has_dot_chunks width zero s = has_dot_scalar s
has_dot_chunks width (suc f) s = elim (leb width (length s)) [
  | false ↦ has_dot_scalar s
  | true ↦ elim (any_lane is_dot (take width s)) [
    | true ↦ true
    | false ↦ has_dot_chunks width f (drop width s)
  ]
]

-- `ij_redact_has_dot_x86_avx2`
pub has_dot_x86_avx2 : Cpu → Bytes → Bool
has_dot_x86_avx2 cpu s =
    if cpu.has_x86_avx2 then has_dot_chunks 32 (length s) s else has_dot_scalar s

-- `ij_redact_has_dot_arm_neon`
pub has_dot_arm_neon : Cpu → Bytes → Bool
has_dot_arm_neon cpu s =
    if cpu.has_arm_neon then has_dot_chunks 16 (length s) s else has_dot_scalar s

lower_x86_avx2-tolower : (c : ℕ) → IsByte c → lower_x86_avx2 c ≡ tolower c
unfolding holds_up_to lower_x86_avx2 tolower
lower_x86_avx2-tolower c h =
    (==_iff _ _).0 (holds_at (λ d. lower_x86_avx2 d == tolower d) 256 c h refl)

lower_arm_neon-tolower : (c : ℕ) → IsByte c → lower_arm_neon c ≡ tolower c
unfolding holds_up_to lower_arm_neon tolower
lower_arm_neon-tolower c h =
    (==_iff _ _).0 (holds_at (λ d. lower_arm_neon d == tolower d) 256 c h refl)

module _ (lower : ℕ → ℕ) (lower_is : (c : ℕ) → IsByte c → lower c ≡ tolower c) where
  -- The comparison of the first lanes, and that of the rest.
  case_equal_loop-split :
      (w : ℕ) (lhs rhs : Bytes)
      → length lhs ≡ length rhs
      → IsBytes lhs
      → IsBytes rhs
      → case_equal_loop lhs rhs
        ≡ (lanes_equal lower (take w lhs) (take w rhs) && case_equal_loop (drop w lhs) (drop w rhs))
  unfolding case_equal_loop lanes_equal
  case_equal_loop-split zero lhs rhs e b b' = refl
  case_equal_loop-split (suc w) [] [] e b b' = refl
  case_equal_loop-split (suc w) [] (d ∷ rhs) e b b' = absurd (omega (arith, e))
  case_equal_loop-split (suc w) (c ∷ lhs) [] e b b' = absurd (omega (arith, e))
  case_equal_loop-split (suc w) (c ∷ lhs) (d ∷ rhs) e (b, bs) (b', bs') = ground (
    arith,
    lower_is c b,
    lower_is d b',
    case_equal_loop-split w lhs rhs (omega (arith, e)) bs bs',
  )

  case_equal_chunks-loop :
      (width f : ℕ) (lhs rhs : Bytes)
      → length lhs ≡ length rhs
      → IsBytes lhs
      → IsBytes rhs
      → case_equal_chunks width lower f lhs rhs ≡ case_equal_loop lhs rhs
  unfolding case_equal_chunks case_equal_scalar
  case_equal_chunks-loop width zero lhs rhs e b b' = ground (arith, e)
  case_equal_chunks-loop width (suc f) lhs rhs e b b' = ground (
    arith,
    e,
    case_equal_loop-split width lhs rhs e b b',
    case_equal_chunks-loop width f (drop width lhs) (drop width rhs)
        (omega (arith, e, length-drop width lhs, length-drop width rhs))
        (All-drop IsByte width lhs b) (All-drop IsByte width rhs b'),
  )

-- Whatever the processor offers, the vector variants compare two byte strings without case as the
-- scalar function does.
pub case_equal_simd-eq_scalar :
    (cpu : Cpu) (lhs rhs : Bytes)
    → IsBytes lhs
    → IsBytes rhs
    → (case_equal_x86_avx2 cpu lhs rhs ≡ case_equal_scalar lhs rhs)
      × (case_equal_arm_neon cpu lhs rhs ≡ case_equal_scalar lhs rhs)
unfolding case_equal_x86_avx2 case_equal_arm_neon
case_equal_simd-eq_scalar cpu lhs rhs b b' = elim (Bool-cases (length lhs == length rhs)) [
  | inl same_length ↦
      let e : length lhs ≡ length rhs = (==_iff _ _).0 same_length in
      let scalar_is : case_equal_scalar lhs rhs ≡ case_equal_loop lhs rhs =
        unfold case_equal_scalar in ground (arith, same_length) in
      (
        ground (
          arith,
          same_length,
          scalar_is,
          case_equal_chunks-loop lower_x86_avx2 lower_x86_avx2-tolower 32 (length lhs) lhs rhs e b
              b',
        ),
        ground (
          arith,
          same_length,
          scalar_is,
          case_equal_chunks-loop lower_arm_neon lower_arm_neon-tolower 16 (length lhs) lhs rhs e b
              b',
        ),
      )
  | inr differs ↦
      let scalar_is : case_equal_scalar lhs rhs ≡ false =
        unfold case_equal_scalar in ground (arith, differs) in
      (ground (arith, differs, scalar_is), ground (arith, differs, scalar_is))
]

has_dot_scalar-split :
    (w : ℕ) (s : Bytes)
    → has_dot_scalar s ≡ (any_lane is_dot (take w s) || has_dot_scalar (drop w s))
unfolding has_dot_scalar any_lane
has_dot_scalar-split zero s = refl
has_dot_scalar-split (suc w) [] = refl
has_dot_scalar-split (suc w) (c ∷ s) = ground (arith, has_dot_scalar-split w s)

has_dot_chunks-scalar : (width f : ℕ) (s : Bytes) → has_dot_chunks width f s ≡ has_dot_scalar s
unfolding has_dot_chunks
has_dot_chunks-scalar width zero s = refl
has_dot_chunks-scalar width (suc f) s =
    ground (arith, has_dot_scalar-split width s, has_dot_chunks-scalar width f (drop width s))

-- Whatever the processor offers, the vector variants find a dot in a text exactly if the scalar
-- function does.
pub has_dot_simd-eq_scalar :
    (cpu : Cpu) (s : Bytes)
    → (has_dot_x86_avx2 cpu s ≡ has_dot_scalar s) × (has_dot_arm_neon cpu s ≡ has_dot_scalar s)
unfolding has_dot_x86_avx2 has_dot_arm_neon
has_dot_simd-eq_scalar cpu s = (
  ground (arith, has_dot_chunks-scalar 32 (length s) s),
  ground (arith, has_dot_chunks-scalar 16 (length s) s),
)
