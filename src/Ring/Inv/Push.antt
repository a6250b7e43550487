-- ===== src/Ring/Inv/Push.antt =====
-- An event that is put in keeps the invariant.
use native.Mathlib.Nat.{mod-lt}
use iojournal.Prelude.{
  Bool-cases, arith, false, get_or, get_or-set_ne, get_or-set_self, inl, inr, length-set, set, sym,
  true, ℕ, ◌%◌, ◌+◌, ◌<◌, ◌==◌, ◌∙◌, ◌≡◌, ◌≤◌,
}
use iojournal.Ring.{Ring, push_slot}
use iojournal.Ring.Inv.{IsValid, count-increment, tail_in, tail_index}
use iojournal.Ring.Window.{positions-ne}

module _ {A : Type 0} (r : Ring A) (v : IsValid r) where
  push_slot-marked :
      r.count < r.capacity
      → (j : ℕ) → j < r.count + 1
      → get_or
          (set r.occupied ((r.head + r.count) % r.capacity) true)
          ((r.head + j) % r.capacity)
          false
        ≡ true
  push_slot-marked room j h = elim (Bool-cases (j == r.count)) [
    | inl last ↦
        let same_j : j ≡ r.count = ground (arith, last) in
        rw same_j (
          get_or-set_self r.occupied _ true false
            (omega (arith, mod-lt (r.head + r.count) (tail_in r v), v.marks_size)))
    | inr earlier ↦
        let before : j < r.count = ground (arith, earlier) in
        get_or-set_ne r.occupied _ _ true false
          (positions-ne r.capacity r.head j r.count before room)
        ∙ v.marked j before
  ]

  push_slot-unmarked :
      r.count < r.capacity
      → (j : ℕ) → r.count + 1 ≤ j
      → j < r.capacity
      → get_or
          (set r.occupied ((r.head + r.count) % r.capacity) true)
          ((r.head + j) % r.capacity)
          false
        ≡ false
  push_slot-unmarked room j h near =
      get_or-set_ne r.occupied _ _ true false
        (λ e. positions-ne r.capacity r.head r.count j (omega arith) near (sym e))
      ∙ v.unmarked j (omega arith) near

  pub push_slot-IsValid :
      (cleared event : A) → r.count < r.capacity → IsValid (push_slot cleared r event)
  unfolding push_slot
  push_slot-IsValid cleared event room =
      rw (tail_index r v, count-increment r v room)
        (record {
          power = v.power;
          capacity_is = v.capacity_is;
          large = v.large;
          small = v.small;
          mask_is = v.mask_is;
          slots_size = length-set r.slots _ event ∙ v.slots_size;
          marks_size = length-set r.occupied _ true ∙ v.marks_size;
          tail_is = omega (arith, v.tail_is);
          count_in = omega (arith, room);
          peak = ground (arith, v.peak);
          peak_in = ground (arith, v.peak_in, room);
          marked = push_slot-marked room;
          unmarked = push_slot-unmarked room;
        })
