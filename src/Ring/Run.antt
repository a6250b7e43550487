-- ===== src/Ring/Run.antt =====
-- The operations of any number of threads, one after the other as the mutex orders them, on the ring
-- and on the bounded queue.
use iojournal.Prelude.{
  Bool-cases, List, Option, [], ap, ap₂, arith, false, inl, inr, leb, length, refl, some, true, ℕ,
  ◌<◌, ◌==◌, ◌∙◌, ◌∷◌, ◌≡◌,
}
use iojournal.Ring.{Mutex, Ring, increment, pop_slot, push_slot, ring_enqueue, ring_try_dequeue}
use iojournal.Ring.Queue.{Answer, Op, put, queue_run, queue_step, stored, take_out, taken}
use iojournal.Ring.Inv.{IsValid, tail_in}
use iojournal.Ring.Inv.Push.{push_slot-IsValid}
use iojournal.Ring.Inv.Pop.{pop_slot-IsValid}
use iojournal.Ring.Refine.{contents, contents-pop_slot, contents-push_slot, length-contents}
use iojournal.Ring.Window.{window}
use iojournal.Ring.Disposal.{IsBalanced, pop_slot-IsBalanced, push_slot-IsBalanced}

module _ {A : Type 0} (cleared : A) where
  unfoldable pub step : Option (Ring A) → Op A → Answer A × Option (Ring A)
  step ring (put mutex event) =
      let (status, after, left) = ring_enqueue cleared mutex ring (some event) in
      (stored status left, after)
  step ring (take_out mutex) =
      let (found, after, out) = ring_try_dequeue cleared mutex ring true in (taken found out, after)

  pub run : Option (Ring A) → List (Op A) → List (Answer A)
  run ring [] = []
  run ring (op ∷ ops) = let (answer, after) = step ring op in answer ∷ run after ops

  -- What one operation does to the ring, against the bounded queue.
  pub record Simulates (r : Ring A) (op : Op A) : Type 0 where
    pub after : Ring A
    pub answers :
        step (some r) op ≡ ((queue_step cleared r.capacity (contents cleared r) op).0, some after)
    pub holds : contents cleared after ≡ (queue_step cleared r.capacity (contents cleared r) op).1
    pub valid : IsValid after
    pub capacity_kept : after.capacity ≡ r.capacity
    pub balanced : IsBalanced cleared r → IsBalanced cleared after

  counters-IsValid : (r : Ring A) → IsValid r → (n : ℕ) → IsValid (record r { dropped_events = n })
  counters-IsValid r v n = record {
    power = v.power;
    capacity_is = v.capacity_is;
    large = v.large;
    small = v.small;
    mask_is = v.mask_is;
    slots_size = v.slots_size;
    marks_size = v.marks_size;
    tail_is = v.tail_is;
    count_in = v.count_in;
    peak = v.peak;
    peak_in = v.peak_in;
    marked = v.marked;
    unmarked = v.unmarked;
  }

  module _ (r : Ring A) (v : IsValid r) where
    has_slots : length r.slots == 0 ≡ false
    has_slots = ground (arith, v.slots_size, tail_in r v)

    put-Simulates : (mutex : Mutex) (event : A) → Simulates r (put mutex event)
    unfolding step ring_enqueue queue_step
    put-Simulates mutex event = elim (Bool-cases mutex.locks) [
      | inr shut ↦ record {
        after = r;
        answers = ground (arith, has_slots, shut);
        holds = ground (arith, shut);
        valid = v;
        capacity_kept = refl;
        balanced = λ b. b;
      }
      | inl taken_lock ↦ elim (Bool-cases (leb r.capacity r.count)) [
        | inl full ↦ record {
          after = record r { dropped_events = increment r.dropped_events };
          answers = ground (arith, has_slots, taken_lock, full, length-contents cleared r);
          holds = ground (arith, taken_lock, full, length-contents cleared r);
          valid = counters-IsValid r v _;
          capacity_kept = refl;
          balanced = λ b. b;
        }
        | inr free ↦
            let room : r.count < r.capacity = ground (arith, free) in
            record {
              after = push_slot cleared r event;
              answers = ground (arith, has_slots, taken_lock, free, length-contents cleared r);
              holds =
                  contents-push_slot cleared r v event room
                  ∙ ground (arith, taken_lock, free, length-contents cleared r);
              valid = push_slot-IsValid r v cleared event room;
              capacity_kept = unfold push_slot in refl;
              balanced = λ b. push_slot-IsBalanced cleared r v b event room;
            }
      ]
    ]

    take_out-Simulates : (mutex : Mutex) → Simulates r (take_out mutex)
    unfolding step ring_try_dequeue queue_step
    take_out-Simulates mutex = elim (Bool-cases (r.count == 0)) [
      | inl empty ↦
          let none_left : contents cleared r ≡ [] =
            let z : r.count ≡ 0 = ground (arith, empty) in
            ap (window cleared r.capacity r.slots r.head) z in
          record {
            after = r;
            answers = ground (arith, has_slots, empty, none_left);
            holds = rw none_left;
            valid = v;
            capacity_kept = refl;
            balanced = λ b. b;
          }
      | inr filled ↦
          let some_left : 0 < r.count = ground (arith, filled) in
          let split = contents-pop_slot cleared r v some_left in
          elim (Bool-cases mutex.locks) [
            | inr shut ↦ record {
              after = r;
              answers = ground (arith, has_slots, filled, shut, split);
              holds = ground (arith, shut, split);
              valid = v;
              capacity_kept = refl;
              balanced = λ b. b;
            }
            | inl taken_lock ↦ record {
              after = pop_slot cleared r;
              answers = ground (arith, has_slots, filled, taken_lock, split);
              holds = ground (arith, taken_lock, split);
              valid = pop_slot-IsValid r v cleared some_left;
              capacity_kept = unfold pop_slot in refl;
              balanced = λ b. pop_slot-IsBalanced cleared r v b some_left;
            }
          ]
    ]

  pub step-Simulates : (r : Ring A) → IsValid r → (op : Op A) → Simulates r op
  step-Simulates r v (put mutex event) = put-Simulates r v mutex event
  step-Simulates r v (take_out mutex) = take_out-Simulates r v mutex

  -- From a ring that satisfies the invariant, every sequence of `ij_ring_enqueue` and
  -- `ij_ring_try_dequeue`, whatever the mutex answers, returns what the same sequence returns on a
  -- first-in, first-out queue of the same capacity and contents that refuses an event when it is
  -- full.
  pub run_refines :
      (ops : List (Op A)) (r : Ring A)
      → IsValid r
      → run (some r) ops ≡ queue_run cleared r.capacity (contents cleared r) ops
  unfolding run queue_run
  run_refines [] r v = refl
  run_refines (op ∷ ops) r v =
      let s = step-Simulates r v op in
      rw s.answers (
        ap (◌∷◌ (queue_step cleared r.capacity (contents cleared r) op).0) (
          run_refines ops s.after s.valid
          ∙ ap₂ (λ c q. queue_run cleared c q ops) s.capacity_kept s.holds))
