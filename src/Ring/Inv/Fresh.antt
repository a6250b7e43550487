-- ===== src/Ring/Inv/Fresh.antt =====
-- What `ij_ring_init` sets up has the invariant.
use native.Mathlib.Nat.{pow-le-pow_right, mod_self}
use iojournal.Prelude.{
  Bool-cases, arith, bit_and, bit_and-ones, false, get_or, inl, inr, leb, length-replicate,
  power_of_bit_and, refl, replicate, suc, true, zero, ℕ, ◌%◌, ◌+◌, ◌-◌, ◌^◌, ◌↔◌, ◌∙◌, ◌≡◌, ◌≤◌,
  ◌⊎◌,
}
use iojournal.Ring.{capacity_passes, fresh_ring, queue_capacity_max, queue_capacity_min}
use iojournal.Ring.Inv.{IsValid}

get_or-replicate : {A : Type 0} (n i : ℕ) (x : A) → get_or (replicate n x) i x ≡ x
get_or-replicate zero i x = refl
get_or-replicate (suc n) zero x = refl
get_or-replicate (suc n) (suc i) x = get_or-replicate n i x

-- What the test accepts is a power of two in the range.
pub capacity_passes_lem :
    (capacity : ℕ)
    → capacity_passes capacity ≡ true
    → (k : ℕ) × (capacity ≡ 2 ^ k)
      × (queue_capacity_min ≤ capacity)
      × (capacity ≤ queue_capacity_max)
unfolding capacity_passes
capacity_passes_lem capacity h =
    let zero_bits : bit_and capacity (capacity - 1) ≡ 0 = ground (arith, h) in
    let large : queue_capacity_min ≤ capacity = ground (arith, h) in
    let (k, power) = power_of_bit_and capacity (omega (arith, large)) zero_bits in
    (k, power, large, ground (arith, h))

pub fresh_ring-IsValid :
    {A : Type 0} (cleared : A) (capacity : ℕ)
    → capacity_passes capacity ≡ true
    → IsValid (fresh_ring cleared capacity)
unfolding fresh_ring
fresh_ring-IsValid cleared capacity h =
    let (k, power, large, small) = capacity_passes_lem capacity h in
    record {
      power = k;
      capacity_is = power;
      large = large;
      small = small;
      mask_is = refl;
      slots_size = length-replicate capacity cleared;
      marks_size = length-replicate capacity false;
      tail_is = omega arith;
      count_in = omega arith;
      peak = omega arith;
      peak_in = omega arith;
      marked = λ j l. absurd (omega (arith, l));
      unmarked = λ j l near. get_or-replicate capacity ((0 + j) % capacity) false;
    }

power-passes : (k : ℕ) → 8 ≤ k → k ≤ 16 → capacity_passes (2 ^ k) ≡ true
unfolding capacity_passes
power-passes k low high =
    let above : 2 ^ 8 ≤ 2 ^ k = pow-le-pow_right {n = 2} (omega arith) low in
    let below : 2 ^ k ≤ 2 ^ 16 = pow-le-pow_right {n = 2} (omega arith) high in
    let zero_bits : bit_and (2 ^ k) (2 ^ k - 1) ≡ 0 = bit_and-ones (2 ^ k) k ∙ mod_self (2 ^ k) in
    ground (arith, above, below, zero_bits)

exponent_range : (k : ℕ) → 2 ^ 8 ≤ 2 ^ k → 2 ^ k ≤ 2 ^ 16 → (8 ≤ k) × (k ≤ 16)
exponent_range k low high = (at_least (Bool-cases (leb 8 k)), at_most (Bool-cases (leb k 16)))
  where
    at_least : (leb 8 k ≡ true) ⊎ (leb 8 k ≡ false) → 8 ≤ k
    at_least (inl h) = ground (arith, h)
    at_least (inr h) =
        let less : k ≤ 7 = ground (arith, h) in
        absurd (omega (arith, low, pow-le-pow_right {n = 2} (omega arith) less))

    at_most : (leb k 16 ≡ true) ⊎ (leb k 16 ≡ false) → k ≤ 16
    at_most (inl h) = ground (arith, h)
    at_most (inr h) =
        let more : 17 ≤ k = ground (arith, h) in
        absurd (omega (arith, high, pow-le-pow_right {n = 2} (omega arith) more))

-- The test of `ij_ring_init` accepts a capacity exactly if it is 2^k for a k from 8 to 16.
pub capacity_passes_iff :
    (capacity : ℕ)
    → (capacity_passes capacity ≡ true) ↔ ((k : ℕ) × (capacity ≡ 2 ^ k) × (8 ≤ k) × (k ≤ 16))
capacity_passes_iff capacity = (
  λ h.
      let (k, power, large, small) = capacity_passes_lem capacity h in
      let range = exponent_range k (omega (arith, large, power)) (omega (arith, small, power)) in
      (k, power, range.0, range.1),
  λ w. rw w.1 (power-passes w.0 w.2 w.3),
)
