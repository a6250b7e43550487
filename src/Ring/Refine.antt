-- ===== src/Ring/Refine.antt =====
-- A valid ring behaves as the bounded queue of the events that it holds.
use native.Mathlib.Nat.{mod-lt}
use iojournal.Prelude.{
  List, [], ap, ap₂, arith, get_or, get_or-set_self, length, set, suc, sym, ℕ, ◌%◌, ◌++◌, ◌+◌, ◌-◌,
  ◌<◌, ◌∙◌, ◌∷◌, ◌≡◌,
}
use iojournal.Ring.{Ring, head_slot, increment, pop_slot, push_slot}
use iojournal.Ring.Window.{
  length-window, positions-ne, window, window-congr, window-set_out, window-snoc,
}
use iojournal.Ring.Inv.{
  IsValid, count-increment, head_index, tail_in, tail_index, wrap-mod_capacity,
}
use iojournal.Ring.Inv.Pop.{increment-position, position-ne_head}

module _ {A : Type 0} (cleared : A) where
  -- the queued events, oldest first
  abbrev pub contents : Ring A → List A
  contents r = window cleared r.capacity r.slots r.head r.count

  pub length-contents : (r : Ring A) → length (contents r) ≡ r.count
  length-contents r = length-window cleared r.capacity r.slots r.head r.count

  module _ (r : Ring A) (v : IsValid r) where
    pub contents-push_slot :
        (event : A)
        → r.count < r.capacity
        → contents (push_slot cleared r event) ≡ contents r ++ event ∷ []
    unfolding push_slot
    contents-push_slot event room =
        let i : ℕ = (r.head + r.count) % r.capacity in
        let written : get_or (set r.slots i event) i cleared ≡ event =
          get_or-set_self r.slots i event cleared
            (omega (arith, mod-lt (r.head + r.count) (tail_in r v), v.slots_size)) in
        rw (tail_index r v, count-increment r v room)
          (ap (window cleared r.capacity (set r.slots i event) r.head) {y = suc r.count}
              (omega arith)
            ∙ window-snoc cleared r.capacity (set r.slots i event) r.head r.count
            ∙ ap₂ (λ t x. t ++ x ∷ [])
                (window-set_out cleared r.capacity r.slots event i r.head r.count
                  (λ j l. positions-ne r.capacity r.head j r.count l room))
                written)

    pub contents-pop_slot :
        0 < r.count → contents r ≡ head_slot cleared r ∷ contents (pop_slot cleared r)
    unfolding pop_slot head_slot
    contents-pop_slot some_left =
        let i : ℕ = r.head % r.capacity in
        let n : ℕ = r.count - 1 in
        rw (head_index r v) (
          ap (window cleared r.capacity r.slots r.head) {y = suc n} (omega (arith, some_left))
          ∙ ap (◌∷◌ (get_or r.slots i cleared)) (
              window-congr cleared r.capacity r.slots (r.head + 1) (increment r.head) n
                (sym (wrap-mod_capacity r v (r.head + 1)))
              ∙ sym (
                  window-set_out cleared r.capacity r.slots cleared i (increment r.head) n λ j l e.
                    position-ne_head r v j (omega (arith, l, v.count_in))
                      (e ∙ increment-position r v j))))
