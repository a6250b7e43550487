-- ===== src/Prelude/Bits.antt =====
-- `x & (2 ^ k - 1)` is a remainder, and `c & (c - 1)` is zero only for a power of two.
use Prim.Native.Nat.{
  ℕ, zero, suc, ◌+◌, ◌-◌, ◌*◌, ◌/◌, ◌%◌, ◌^◌, ◌≤◌, ◌<◌, min, bit_and, digits, bit_and-bitwise,
}
use iojournal.Prelude.Tests.{Bool-cases, ◌==◌}
use mathlib.Core.Path.{◌≡◌, refl, ◌∙◌, sym, ap}
use mathlib.Core.Logic.{inl, inr}
use native.Mathlib.Omega.{arith}
use native.Mathlib.Nat.{
  pow-suc, one-le-pow, div-add-mod', add-mul-mod_self_right, mod-eq_of_lt, mod-lt, mul_assoc,
}

halve_mod : (a p : ℕ) → 0 < p → a % (p * 2) ≡ (a / 2 % p) * 2 + a % 2
halve_mod a p h =
    let q : ℕ = a / 2 / p in
    let low : ℕ = (a / 2 % p) * 2 + a % 2 in
    let split : a ≡ low + q * (p * 2) = omega (arith, div-add-mod' (a / 2) p, mul_assoc q p 2) in
    ap (λ n. n % (p * 2)) split
    ∙ add-mul-mod_self_right low q (p * 2)
    ∙ mod-eq_of_lt (omega (arith, mod-lt (a / 2) h))

-- The digits of `x & y`, of which `n` are left.
abbrev and_from : ℕ → ℕ → ℕ → ℕ
and_from = digits (λ _. zero) min

and_from-ones : (n k a : ℕ) → a ≤ n → and_from n a (2 ^ k - 1) ≡ a % 2 ^ k
and_from-ones zero k zero h = sym (mod-eq_of_lt (omega (arith, one-le-pow k 2 (omega arith))))
and_from-ones zero k (suc a) h = absurd (omega arith)
and_from-ones (suc n) k zero h = sym (mod-eq_of_lt (omega (arith, one-le-pow k 2 (omega arith))))
and_from-ones (suc n) zero (suc a) h = omega (arith, and_from-ones n zero (suc a / 2) (omega arith))
and_from-ones (suc n) (suc k) (suc a) h =
    let one_le = one-le-pow k 2 (omega arith) in
    let half : (2 ^ suc k - 1) / 2 ≡ 2 ^ k - 1 = omega (arith, pow-suc 2 k, one_le) in
    let odd : (2 ^ suc k - 1) % 2 ≡ 1 = omega (arith, pow-suc 2 k, one_le) in
    rw (half, odd)
      (omega (
        arith,
        and_from-ones n k (suc a / 2) (omega arith),
        halve_mod (suc a) (2 ^ k) one_le,
        ap (λ m. suc a % m) (pow-suc 2 k),
      ))

pub bit_and-ones : (a k : ℕ) → bit_and a (2 ^ k - 1) ≡ a % 2 ^ k
bit_and-ones a k = bit_and-bitwise a (2 ^ k - 1) ∙ and_from-ones a k a (omega arith)

and_from_self : (n a : ℕ) → a ≤ n → and_from n a a ≡ a
and_from_self zero zero h = refl
and_from_self zero (suc a) h = absurd (omega arith)
and_from_self (suc n) zero h = refl
and_from_self (suc n) (suc a) h = omega (arith, and_from_self n (suc a / 2) (omega arith))

and_from-pred : (n c : ℕ) → suc c ≤ n → and_from n (suc c) c ≡ 0 → (k : ℕ) × (suc c ≡ 2 ^ k)
and_from-pred zero c h e = absurd (omega arith)
and_from-pred (suc n) c h e = elim (Bool-cases (c % 2 == 0)) [
  | inl even ↦
      let same_half : suc c / 2 ≡ c / 2 = ground (arith, even) in
      let digits_are : and_from n (c / 2) (c / 2) * 2 + min (suc c % 2) (c % 2) ≡ 0 =
        rw same_half at e in
      (0, ground (arith, even, digits_are, and_from_self n (c / 2) (omega arith)))
  | inr odd ↦
      let next_half : suc c / 2 ≡ suc (c / 2) = ground (arith, odd) in
      let digits_are : and_from n (suc (c / 2)) (c / 2) * 2 + min (suc c % 2) (c % 2) ≡ 0 =
        rw next_half at e in
      let (k, power) = and_from-pred n (c / 2) (ground (arith, odd)) (omega (arith, digits_are)) in
      (suc k, ground (arith, odd, power, pow-suc 2 k))
]

-- What passes the test for a power of two is one.
pub power_of_bit_and : (c : ℕ) → 0 < c → bit_and c (c - 1) ≡ 0 → (k : ℕ) × (c ≡ 2 ^ k)
power_of_bit_and zero h e = absurd (omega arith)
power_of_bit_and (suc c) h e =
    let pred : suc c - 1 ≡ c = omega arith in
    let zero_digits : bit_and (suc c) c ≡ 0 = rw pred at e in
    and_from-pred (suc c) c (omega arith) (sym (bit_and-bitwise (suc c) c) ∙ zero_digits)
