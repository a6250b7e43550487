-- ===== src/Escape/Scan.antt =====
-- The vector scans agree with the scalar scan, and the scan finds the first special byte.
use iojournal.Prelude.{
  Bool, Bytes, [], arith, drop, false, length, length-take, not, refl, suc, take, take-append-drop,
  true, zero, ℕ, ◌++◌, ◌+◌, ◌==◌, ◌||◌, ◌∷◌, ◌≡◌, ◌≤◌,
}
use iojournal.Simd.{Cpu}
use iojournal.Escape.{
  any_lane, arm_neon_find_first_special, arm_neon_impl, arm_neon_lane, find_first_special,
  first_lane, is_special, scalar_find_first_special, scan_chunks, x86_avx2_find_first_special,
  x86_avx2_impl, x86_avx2_lane,
}

x86_avx2_lane-is_special : (c : ℕ) → x86_avx2_lane c ≡ is_special c
unfolding x86_avx2_lane is_special
x86_avx2_lane-is_special c = ground arith

arm_neon_lane-is_special : (c : ℕ) → arm_neon_lane c ≡ is_special c
unfolding arm_neon_lane is_special
arm_neon_lane-is_special c = ground arith

module _ (lane : ℕ → Bool) (lane_lem : (c : ℕ) → lane c ≡ is_special c) where
  scan_skip :
      (xs ys : Bytes)
      → any_lane lane xs ≡ false
      → scalar_find_first_special (xs ++ ys) ≡ length xs + scalar_find_first_special ys
  unfolding any_lane scalar_find_first_special
  scan_skip [] ys h = omega arith
  scan_skip (c ∷ xs) ys h = ground (arith, lane_lem c, scan_skip xs ys)

  scan_hit :
      (xs ys : Bytes)
      → any_lane lane xs ≡ true
      → scalar_find_first_special (xs ++ ys) ≡ scalar_find_first_special xs
  unfolding any_lane scalar_find_first_special
  scan_hit [] ys h = cc
  scan_hit (c ∷ xs) ys h = ground (arith, lane_lem c, scan_hit xs ys)

  first_lane-scan : (xs : Bytes) → first_lane lane xs ≡ scalar_find_first_special xs
  unfolding first_lane scalar_find_first_special
  first_lane-scan [] = refl
  first_lane-scan (c ∷ xs) = ground (arith, lane_lem c, first_lane-scan xs)

scan_chunks-scan :
    (width : ℕ) (lane : ℕ → Bool) (hit : Bytes → ℕ)
    → ((c : ℕ) → lane c ≡ is_special c)
    → ((s : Bytes) → hit s ≡ scalar_find_first_special s)
    → (f : ℕ) (s : Bytes) → scan_chunks width lane hit f s ≡ scalar_find_first_special s
unfolding scan_chunks
scan_chunks-scan width lane hit lane_lem hit_lem zero s = refl
scan_chunks-scan width lane hit lane_lem hit_lem (suc f) s = ground (
  arith,
  scan_chunks-scan width lane hit lane_lem hit_lem f (drop width s),
  scan_skip lane lane_lem (take width s) (drop width s),
  scan_hit lane lane_lem (take width s) (drop width s),
  hit_lem (take width s),
  take-append-drop width s,
  length-take width s,
)

x86_avx2_impl-scan : (s : Bytes) → x86_avx2_impl s ≡ scalar_find_first_special s
unfolding x86_avx2_impl
x86_avx2_impl-scan s =
    scan_chunks-scan 32 x86_avx2_lane (first_lane x86_avx2_lane) x86_avx2_lane-is_special
      (first_lane-scan x86_avx2_lane x86_avx2_lane-is_special) (length s) s

arm_neon_impl-scan : (s : Bytes) → arm_neon_impl s ≡ scalar_find_first_special s
unfolding arm_neon_impl
arm_neon_impl-scan s =
    scan_chunks-scan 16 arm_neon_lane scalar_find_first_special arm_neon_lane-is_special (λ _. refl)
      (length s) s

-- Whatever the processor offers, the dispatched scan returns what the scalar scan returns.
pub find_first_special-eq_scalar :
    (cpu : Cpu) (s : Bytes) → find_first_special cpu s ≡ scalar_find_first_special s
unfolding find_first_special x86_avx2_find_first_special arm_neon_find_first_special
find_first_special-eq_scalar cpu s = ground (arith, x86_avx2_impl-scan s, arm_neon_impl-scan s)

-- Some byte of the string is special.
unfoldable pub has_special : Bytes → Bool
has_special [] = false
has_special (c ∷ s) = is_special c || has_special s

pub scalar_find_first_special-le : (s : Bytes) → scalar_find_first_special s ≤ length s
unfolding scalar_find_first_special
scalar_find_first_special-le [] = omega arith
scalar_find_first_special-le (c ∷ s) = ground (arith, scalar_find_first_special-le s)

pub has_special-scan : (s : Bytes) → not (scalar_find_first_special s == length s) ≡ has_special s
unfolding has_special scalar_find_first_special
has_special-scan [] = refl
has_special-scan (c ∷ s) = ground (arith, has_special-scan s)
