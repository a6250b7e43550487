-- ===== src/Ring/Tests.antt =====
-- A ring of numbers in use.
use iojournal.Prelude.{List, [], refl, some, true, ℕ, ◌^◌, ◌↔◌, ◌∷◌, ◌≡◌, ◌≤◌}
use iojournal.Ring.Disposal.{IsBalanced}
use iojournal.Types.{ok}
use iojournal.Ring.{
  Grants, Mutex, Ring, capacity_passes, fresh_ring, push_slot, ring_destroy, ring_enqueue,
  ring_init, zero_ring,
}
use iojournal.Ring.Queue.{Op, put, queue_run, stored, take_out}
use iojournal.Ring.Inv.{IsValid}
use iojournal.Ring.Inv.Fresh.{capacity_passes_iff, fresh_ring-IsValid}
use iojournal.Ring.Refine.{contents}
use iojournal.Ring.Run.{run, run_refines, step}
use iojournal.Ring.Reach.{Reach, Reach-IsValid, next, ring_destroy-Reach, set_up}
use mathlib.Core.List.{Perm}

-- a mutex that works, and a platform that grants everything
abbrev sound : Mutex
sound = record { locks = true; unlocks = true }

abbrev granted : Grants
granted = record { slots_given = true; occupied_given = true; lock_made = true }

-- two events go in, one is taken out
abbrev three_ops : List (Op ℕ)
three_ops = put sound 7 ∷ (put sound 8 ∷ (take_out sound ∷ []))

abbrev new_ring : Ring ℕ
new_ring = fresh_ring 0 256

passes_256 : capacity_passes 256 ≡ true
unfolding capacity_passes
passes_256 = refl

run_refines_example :
    run 0 (some new_ring) three_ops ≡ queue_run 0 256 (contents 0 new_ring) three_ops
unfolding fresh_ring
run_refines_example = run_refines 0 three_ops new_ring (fresh_ring-IsValid 0 256 passes_256)

abbrev one_inside : Ring ℕ
one_inside = push_slot 0 new_ring 7

started : ring_init 0 granted (some zero_ring) 256 ≡ (ok, some new_ring)
unfolding ring_init
started = rw passes_256 refl

stepped : step 0 (some new_ring) (put sound 7) ≡ (stored ok (some 0), some one_inside)
unfolding step ring_enqueue fresh_ring
stepped = refl

reached : Reach 0 one_inside
reached = next (put sound 7) (set_up granted zero_ring 256 started) stepped

Reach-IsValid_example : IsValid one_inside × IsBalanced 0 one_inside
Reach-IsValid_example = Reach-IsValid 0 reached

ring_destroy-Reach_example :
    ((ring_destroy sound (some one_inside)).0 ≡ some zero_ring)
    × Perm (ring_destroy sound (some one_inside)).1 (contents 0 one_inside)
ring_destroy-Reach_example = ring_destroy-Reach 0 sound reached refl

capacity_passes_iff_example :
    (capacity_passes 1024 ≡ true) ↔ ((k : ℕ) × (1024 ≡ 2 ^ k) × (8 ≤ k) × (k ≤ 16))
capacity_passes_iff_example = capacity_passes_iff 1024
