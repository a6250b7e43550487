-- ===== src/Ring/Inv/Pop.antt =====
-- An event that is taken out keeps the invariant.
use native.Mathlib.Nat.{mod-add-mod, mod-lt, add-mod_right}
use iojournal.Prelude.{
  Bool-cases, ap, arith, false, get_or, get_or-set_ne, get_or-set_self, inl, inr, length-set, set,
  suc, sym, true, ℕ, ◌%◌, ◌+◌, ◌-◌, ◌<◌, ◌==◌, ◌∙◌, ◌≡◌, ◌≢◌, ◌≤◌,
}
use iojournal.Ring.{Ring, increment, pop_slot}
use iojournal.Ring.Inv.{IsValid, head_index, tail_in, wrap-mod_capacity}
use iojournal.Ring.Window.{positions-ne}

module _ {A : Type 0} (r : Ring A) (v : IsValid r) where
  -- The position of a counter that has wrapped.
  pub increment-position :
      (j : ℕ) → (increment r.head + j) % r.capacity ≡ (r.head + suc j) % r.capacity
  increment-position j =
      sym (mod-add-mod (increment r.head) r.capacity j)
      ∙ ap (λ m. (m + j) % r.capacity) (wrap-mod_capacity r v (r.head + 1))
      ∙ mod-add-mod (r.head + 1) r.capacity j
      ∙ ap (λ m. m % r.capacity) (omega arith)

  pub position-ne_head :
      (j : ℕ) → suc j < r.capacity → r.head % r.capacity ≢ (r.head + suc j) % r.capacity
  position-ne_head j near e =
      positions-ne r.capacity r.head 0 (suc j) (omega arith) near
        (sym e ∙ ap (λ n. n % r.capacity) (omega arith))

  pop_slot-marked :
      (j : ℕ)
      → j < r.count - 1
      → get_or
          (set r.occupied (r.head % r.capacity) false)
          ((increment r.head + j) % r.capacity)
          false
        ≡ true
  pop_slot-marked j h = rw (increment-position j) (
      get_or-set_ne r.occupied _ _ false false (position-ne_head j (omega (arith, h, v.count_in)))
      ∙ v.marked (suc j) (omega (arith, h)))

  pop_slot-unmarked :
      (j : ℕ)
      → r.count - 1 ≤ j
      → j < r.capacity
      → get_or
          (set r.occupied (r.head % r.capacity) false)
          ((increment r.head + j) % r.capacity)
          false
        ≡ false
  pop_slot-unmarked j h near = rw (increment-position j) (elim (Bool-cases (suc j == r.capacity)) [
    | inl last ↦
        let round : (r.head + suc j) % r.capacity ≡ r.head % r.capacity =
          let all : suc j ≡ r.capacity = ground (arith, last) in
          ap (λ n. (r.head + n) % r.capacity) all ∙ add-mod_right r.head r.capacity in
        rw round (
          get_or-set_self r.occupied _ false false
            (omega (arith, mod-lt r.head (tail_in r v), v.marks_size)))
    | inr inner ↦
        let before : suc j < r.capacity = ground (arith, inner, near) in
        get_or-set_ne r.occupied _ _ false false (position-ne_head j before)
        ∙ v.unmarked (suc j) (omega (arith, h)) before
  ])

  pub pop_slot-IsValid : (cleared : A) → 0 < r.count → IsValid (pop_slot cleared r)
  unfolding pop_slot
  pop_slot-IsValid cleared some_left = rw (head_index r v) (record {
    power = v.power;
    capacity_is = v.capacity_is;
    large = v.large;
    small = v.small;
    mask_is = v.mask_is;
    slots_size = length-set r.slots _ cleared ∙ v.slots_size;
    marks_size = length-set r.occupied _ false ∙ v.marks_size;
    tail_is = omega (arith, v.tail_is, some_left);
    count_in = omega (arith, v.count_in);
    peak = omega (arith, v.peak);
    peak_in = v.peak_in;
    marked = pop_slot-marked;
    unmarked = pop_slot-unmarked;
  })
