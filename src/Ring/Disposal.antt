-- ===== src/Ring/Disposal.antt =====
-- The marks of the slots keep count of the events: what is marked is what is queued.
use native.Mathlib.Nat.{mod-lt}
use mathlib.Core.List.{Perm, perm_append_comm}
use mathlib.Core.List.Perm
use iojournal.Prelude.{
  Bool, List, [], arith, false, get_or, length, refl, replicate, set, subst, suc, true, zero, ℕ,
  ◌%◌, ◌+◌, ◌<◌, ◌∷◌, ◌≡◌,
}
use iojournal.Ring.{Ring, fresh_ring, head_slot, occupied_slots, pop_slot, push_slot}
use iojournal.Ring.Inv.{IsValid, head_index, tail_in, tail_index}
use iojournal.Ring.Refine.{contents, contents-pop_slot, contents-push_slot}

module _ {A : Type 0} where
  occupied_slots-set_true :
      (xs : List A) (marks : List Bool) (i : ℕ) (x : A)
      → i < length xs
      → i < length marks
      → get_or marks i false ≡ false
      → Perm (occupied_slots (set xs i x) (set marks i true)) (x ∷ occupied_slots xs marks)
  unfolding occupied_slots
  occupied_slots-set_true [] marks i x h k e = absurd (omega (arith, h))
  occupied_slots-set_true (y ∷ xs) [] i x h k e = absurd (omega (arith, k))
  occupied_slots-set_true (y ∷ xs) (true ∷ marks) zero x h k e = cc
  occupied_slots-set_true (y ∷ xs) (false ∷ marks) zero x h k e = Perm.refl _
  occupied_slots-set_true (y ∷ xs) (true ∷ marks) (suc i) x h k e =
      Perm.trans
        (Perm.cons y (occupied_slots-set_true xs marks i x (omega (arith, h)) (omega (arith, k)) e))
        (Perm.swap x y (occupied_slots xs marks))
  occupied_slots-set_true (y ∷ xs) (false ∷ marks) (suc i) x h k e =
      occupied_slots-set_true xs marks i x (omega (arith, h)) (omega (arith, k)) e

  occupied_slots-set_false :
      (xs : List A) (marks : List Bool) (i : ℕ) (x : A)
      → i < length xs
      → i < length marks
      → get_or marks i false ≡ true
      → Perm
          (get_or xs i x ∷ occupied_slots (set xs i x) (set marks i false))
          (occupied_slots xs marks)
  unfolding occupied_slots
  occupied_slots-set_false [] marks i x h k e = absurd (omega (arith, h))
  occupied_slots-set_false (y ∷ xs) [] i x h k e = absurd (omega (arith, k))
  occupied_slots-set_false (y ∷ xs) (false ∷ marks) zero x h k e = cc
  occupied_slots-set_false (y ∷ xs) (true ∷ marks) zero x h k e = Perm.refl _
  occupied_slots-set_false (y ∷ xs) (true ∷ marks) (suc i) x h k e =
      Perm.trans (Perm.swap y (get_or xs i x) (occupied_slots (set xs i x) (set marks i false))) (
        Perm.cons y (occupied_slots-set_false xs marks i x (omega (arith, h)) (omega (arith, k)) e))
  occupied_slots-set_false (y ∷ xs) (false ∷ marks) (suc i) x h k e =
      occupied_slots-set_false xs marks i x (omega (arith, h)) (omega (arith, k)) e

  occupied_slots-fresh : (xs : List A) (n : ℕ) → occupied_slots xs (replicate n false) ≡ []
  unfolding occupied_slots
  occupied_slots-fresh [] n = refl
  occupied_slots-fresh (x ∷ xs) zero = refl
  occupied_slots-fresh (x ∷ xs) (suc n) = occupied_slots-fresh xs n

module _ {A : Type 0} (cleared : A) where
  -- The events in the marked slots are the queued events, in some order.
  abbrev pub IsBalanced : Ring A → Type 0
  IsBalanced r = Perm (occupied_slots r.slots r.occupied) (contents cleared r)

  pub fresh_ring-IsBalanced : (capacity : ℕ) → IsBalanced (fresh_ring cleared capacity)
  unfolding fresh_ring
  fresh_ring-IsBalanced capacity =
      rw (occupied_slots-fresh (replicate capacity cleared) capacity) (Perm.refl _)

  module _ (r : Ring A) (v : IsValid r) (b : IsBalanced r) where
    pub push_slot-IsBalanced :
        (event : A) → r.count < r.capacity → IsBalanced (push_slot cleared r event)
    push_slot-IsBalanced event room =
        let i : ℕ = (r.head + r.count) % r.capacity in
        let in_array : i < r.capacity = mod-lt (r.head + r.count) (tail_in r v) in
        let marked =
          occupied_slots-set_true r.slots r.occupied i event (omega (arith, in_array, v.slots_size))
            (omega (arith, in_array, v.marks_size)) (v.unmarked r.count (omega arith) room) in
        rw (contents-push_slot cleared r v event room) (
          unfold push_slot in
          rw (tail_index r v) (
            Perm.trans marked (
              Perm.trans (Perm.cons event b) (perm_append_comm (event ∷ []) (contents cleared r)))))

    pub pop_slot-IsBalanced : 0 < r.count → IsBalanced (pop_slot cleared r)
    pop_slot-IsBalanced some_left =
        let i : ℕ = r.head % r.capacity in
        let in_array : i < r.capacity = mod-lt r.head (tail_in r v) in
        let first : get_or r.occupied i false ≡ true =
          subst (λ n. get_or r.occupied (n % r.capacity) false ≡ true) (omega arith)
            (v.marked 0 some_left) in
        let cleared_slot =
          occupied_slots-set_false r.slots r.occupied i cleared
            (omega (arith, in_array, v.slots_size)) (omega (arith, in_array, v.marks_size)) first in
        let taken : Perm
            (head_slot cleared r
              ∷ occupied_slots (pop_slot cleared r).slots (pop_slot cleared r).occupied)
            (occupied_slots r.slots r.occupied) =
          unfold pop_slot head_slot in rw (head_index r v) cleared_slot in
        Perm.cons_inv (
          Perm.trans taken (
            subst (Perm (occupied_slots r.slots r.occupied))
              (contents-pop_slot cleared r v some_left) b))
