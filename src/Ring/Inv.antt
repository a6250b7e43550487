-- ===== src/Ring/Inv.antt =====
-- The invariant of the ring: where the queued events stand, and which slots are marked.
pub mod Push
pub mod Pop
pub mod Fresh
use native.Mathlib.Nat.{pow-le-pow_right}
use iojournal.Prelude.{
  Bool-cases, ap, arith, bit_and, bit_and-ones, false, get_or, inl, inr, leb, length, sym, true, ℕ,
  ◌%◌, ◌+◌, ◌-◌, ◌<◌, ◌^◌, ◌∙◌, ◌≡◌, ◌≤◌,
}
use iojournal.Ring.{Ring, increment, queue_capacity_max, queue_capacity_min}
use iojournal.Ring.Window.{wrap-mod}

-- The capacity is a power of two, the arrays have that many entries, and the counters of 64 bits are
-- `count` steps apart. Of the positions from `head` on, exactly the first `count` are marked.
pub record IsValid {A : Type 0} (r : Ring A) : Type 0 where
  pub power : ℕ
  pub capacity_is : r.capacity ≡ 2 ^ power
  pub large : queue_capacity_min ≤ r.capacity
  pub small : r.capacity ≤ queue_capacity_max
  pub mask_is : r.mask ≡ r.capacity - 1
  pub slots_size : length r.slots ≡ r.capacity
  pub marks_size : length r.occupied ≡ r.capacity
  pub tail_is : r.tail ≡ (r.head + r.count) % 2 ^ 64
  pub count_in : r.count ≤ r.capacity
  pub peak : r.count ≤ r.high_water_mark
  pub peak_in : r.high_water_mark ≤ r.capacity
  pub marked : (j : ℕ) → j < r.count → get_or r.occupied ((r.head + j) % r.capacity) false ≡ true
  pub unmarked :
      (j : ℕ)
      → r.count ≤ j
      → j < r.capacity
      → get_or r.occupied ((r.head + j) % r.capacity) false ≡ false

module _ {A : Type 0} (r : Ring A) (v : IsValid r) where
  pub power-le : v.power ≤ 64
  power-le = elim (Bool-cases (leb v.power 64)) [
    | inl low ↦ ground (arith, low)
    | inr high ↦
        let more : 64 ≤ v.power = ground (arith, high) in
        absurd (omega (arith, v.capacity_is, v.small, pow-le-pow_right {n = 2} (omega arith) more))
  ]

  pub mask-mod : (n : ℕ) → bit_and n r.mask ≡ n % r.capacity
  mask-mod n =
      let ones : r.mask ≡ 2 ^ v.power - 1 = omega (arith, v.mask_is, v.capacity_is) in
      ap (bit_and n) ones ∙ bit_and-ones n v.power ∙ ap (λ m. n % m) (sym v.capacity_is)

  pub wrap-mod_capacity : (n : ℕ) → n % 2 ^ 64 % r.capacity ≡ n % r.capacity
  wrap-mod_capacity n =
      ap (λ m. n % 2 ^ 64 % m) v.capacity_is
      ∙ wrap-mod n v.power power-le
      ∙ ap (λ m. n % m) (sym v.capacity_is)

  -- The masked counters are the positions of the first event and of the first free slot.
  pub head_index : bit_and r.head r.mask ≡ r.head % r.capacity
  head_index = mask-mod r.head

  pub tail_index : bit_and r.tail r.mask ≡ (r.head + r.count) % r.capacity
  tail_index =
      mask-mod r.tail ∙ ap (λ n. n % r.capacity) v.tail_is ∙ wrap-mod_capacity (r.head + r.count)

  pub count-increment : r.count < r.capacity → increment r.count ≡ r.count + 1
  count-increment h = omega (arith, v.small)

  pub tail_in : 0 < r.capacity
  tail_in = omega (arith, v.large)
