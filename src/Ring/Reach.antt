-- ===== src/Ring/Reach.antt =====
-- The life of a ring: it is set up, used by any number of threads, and destroyed.
use mathlib.Core.List.{Perm}
use iojournal.Prelude.{Option, arith, false, length, refl, some, subst, sym, true, ℕ, ◌==◌, ◌≡◌}
use iojournal.Types.{ok}
use iojournal.Ring.{
  Grants, Mutex, Ring, capacity_passes, fresh_ring, ring_destroy, ring_init, zero_ring,
}
use iojournal.Ring.Queue.{Answer, Op}
use iojournal.Ring.Inv.{IsValid, tail_in}
use iojournal.Ring.Inv.Fresh.{fresh_ring-IsValid}
use iojournal.Ring.Refine.{contents}
use iojournal.Ring.Disposal.{IsBalanced, fresh_ring-IsBalanced}
use iojournal.Ring.Run.{step, step-Simulates}

module _ {A : Type 0} (cleared : A) where
  -- A ring that some call of `ij_ring_init` has set up and some operations have been run on.
  pub data Reach : Ring A → Type 0 where
    set_up :
        (grants : Grants) (old : Ring A) (capacity : ℕ) {r : Ring A}
        → ring_init cleared grants (some old) capacity ≡ (ok, some r)
        → Reach r
    next :
        {r r' : Ring A} {answer : Answer A} (op : Op A)
        → Reach r
        → step cleared (some r) op ≡ (answer, some r')
        → Reach r'

  ring_init-ok :
      (grants : Grants) (old : Ring A) (capacity : ℕ) {r : Ring A}
      → ring_init cleared grants (some old) capacity ≡ (ok, some r)
      → (capacity_passes capacity ≡ true) × (r ≡ fresh_ring cleared capacity)
  unfolding ring_init
  ring_init-ok grants old capacity e = ground arith

  same_after :
      {a b : Answer A} {r r' : Ring A} {o : Answer A × Option (Ring A)}
      → o ≡ (a, some r)
      → o ≡ (b, some r')
      → r ≡ r'
  same_after e f = ground arith

  -- Every ring that `ij_ring_init` has set up and any sequence of `ij_ring_enqueue` and
  -- `ij_ring_try_dequeue` has worked on satisfies the invariant: the capacity is a power of two
  -- with its mask, tail is count places behind head, count is at most the capacity, the high water
  -- mark lies between them, and exactly the slots between head and tail are marked; and the events
  -- in marked slots are a permutation of the contents.
  pub Reach-IsValid : {r : Ring A} → Reach r → IsValid r × IsBalanced cleared r
  Reach-IsValid (set_up grants old capacity e) =
      let (passes, is_fresh) = ring_init-ok grants old capacity e in
      subst (λ r. IsValid r × IsBalanced cleared r) (sym is_fresh)
        (fresh_ring-IsValid cleared capacity passes, fresh_ring-IsBalanced cleared capacity)
  Reach-IsValid (next {r} op before e) =
      let (v, b) = Reach-IsValid before in
      let s = step-Simulates cleared r v op in
      subst (λ r. IsValid r × IsBalanced cleared r) (same_after s.answers e) (s.valid, s.balanced b)

  -- Where its mutex can be taken, `ij_ring_destroy` clears a ring that was set up and used, and
  -- disposes of exactly the events that were in it, each once, in some order.
  pub ring_destroy-Reach :
      {r : Ring A} (mutex : Mutex)
      → Reach r
      → mutex.locks ≡ true
      → ((ring_destroy mutex (some r)).0 ≡ some zero_ring)
        × Perm (ring_destroy mutex (some r)).1 (contents cleared r)
  unfolding ring_destroy
  ring_destroy-Reach {r} mutex reached locked =
      let (v, b) = Reach-IsValid reached in
      let has_slots : length r.slots == 0 ≡ false = ground (arith, v.slots_size, tail_in r v) in
      rw (has_slots, locked) (refl, b)
