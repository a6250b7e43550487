-- ===== src/Ring.antt =====
-- src/core/ij_queue.c: the bounded ring of events. Every operation runs under the ring's mutex, so
-- what several threads do to it is a sequence of whole operations. `calloc` and the mutex belong to
-- the platform: what they answer is an argument. The atomic counters are 64 bits wide. The element
-- type is a parameter, with the element whose bytes are all zero.
pub mod Window
mod Tests
pub mod Inv
pub mod Queue
pub mod Refine
pub mod Run
pub mod Disposal
pub mod Reach
use iojournal.Prelude.{
  Bool, List, Option, [], bit_and, false, get_or, if◌then◌else◌, leb, length, ltb, none, not,
  replicate, set, some, true, ℕ, ◌%◌, ◌&&◌, ◌+◌, ◌-◌, ◌==◌, ◌^◌, ◌||◌, ◌∷◌,
}
use iojournal.Types.{Status, internal_error, invalid_argument, ok, queue_full}

-- `ij_ring_t`. A ring with `slots == NULL` has no slots.
pub record Ring (A : Type 0) : Type 0 where
  pub slots : List A
  pub occupied : List Bool
  pub capacity : ℕ
  pub mask : ℕ
  pub head : ℕ
  pub tail : ℕ
  pub count : ℕ
  pub dropped_events : ℕ
  pub enqueued_events : ℕ
  pub high_water_mark : ℕ

-- What the platform grants `ij_ring_init`: the two arrays, and the mutex.
pub record Grants : Type 0 where
  pub slots_given : Bool
  pub occupied_given : Bool
  pub lock_made : Bool

-- Whether `mtx_lock` and `mtx_unlock` succeed during one operation.
pub record Mutex : Type 0 where
  pub locks : Bool
  pub unlocks : Bool

abbrev pub queue_capacity_min : ℕ
queue_capacity_min = 256

abbrev pub queue_capacity_default : ℕ
queue_capacity_default = 1024

abbrev pub queue_capacity_max : ℕ
queue_capacity_max = 65536

-- `atomic_fetch_add_explicit(…, 1U, …)`, and `… + 1U`
abbrev pub increment : ℕ → ℕ
increment n = (n + 1) % 2 ^ 64

-- a ring after `memset(ring, 0, sizeof(*ring))`
abbrev pub zero_ring : {A : Type 0} → Ring A
zero_ring = record {
  slots = [];
  occupied = [];
  capacity = 0;
  mask = 0;
  head = 0;
  tail = 0;
  count = 0;
  dropped_events = 0;
  enqueued_events = 0;
  high_water_mark = 0;
}

-- the test of `ij_ring_init`, negated
unfoldable pub capacity_passes : ℕ → Bool
capacity_passes capacity = not (
    ltb capacity queue_capacity_min
    || (ltb queue_capacity_max capacity || not (bit_and capacity (capacity - 1) == 0)))

module _ {A : Type 0} (cleared : A) where
  -- a ring that `ij_ring_init` has filled in
  pub fresh_ring : ℕ → Ring A
  fresh_ring capacity = record zero_ring {
    slots = replicate capacity cleared;
    occupied = replicate capacity false;
    capacity = capacity;
    mask = capacity - 1;
  }

  -- `ij_ring_init`
  unfoldable pub ring_init : Grants → Option (Ring A) → ℕ → Status × Option (Ring A)
  ring_init grants none capacity = (invalid_argument, none)
  ring_init grants (some ring) capacity =
      if not (capacity_passes capacity)
      then (invalid_argument, some ring)
      else if not (grants.slots_given && grants.occupied_given)
      then (internal_error, some zero_ring)
      else if not grants.lock_made
      then (internal_error, some zero_ring)
      else (ok, some (fresh_ring capacity))

  -- the part of `ij_ring_enqueue` that writes an event and publishes it
  pub push_slot : Ring A → A → Ring A
  push_slot ring event =
      let tail_index = bit_and ring.tail ring.mask in
      let count = increment ring.count in
      record ring {
        slots = set ring.slots tail_index event;
        occupied = set ring.occupied tail_index true;
        tail = increment ring.tail;
        count = count;
        enqueued_events = increment ring.enqueued_events;
        high_water_mark = if ltb ring.high_water_mark count then count else ring.high_water_mark;
      }

  -- `ij_ring_enqueue`: the status, the ring, and `*event`, which is cleared when it has been moved
  pub ring_enqueue : Mutex → Option (Ring A) → Option A → Status × Option (Ring A) × Option A
  ring_enqueue mutex none event = (invalid_argument, none, event)
  ring_enqueue mutex (some ring) none = (invalid_argument, some ring, none)
  ring_enqueue mutex (some ring) (some event) =
      if length ring.slots == 0
      then (invalid_argument, some ring, some event)
      else if not mutex.locks
      then (internal_error, some ring, some event)
      else if leb ring.capacity ring.count
      then (
        (if not mutex.unlocks then internal_error else queue_full),
        some (record ring { dropped_events = increment ring.dropped_events }),
        some event,
      )
      else (
        (if not mutex.unlocks then internal_error else ok),
        some (push_slot ring event),
        some cleared,
      )

  -- the part of `ij_ring_try_dequeue` that takes an event out
  pub pop_slot : Ring A → Ring A
  pop_slot ring =
      let head_index = bit_and ring.head ring.mask in
      record ring {
        slots = set ring.slots head_index cleared;
        occupied = set ring.occupied head_index false;
        head = increment ring.head;
        count = ring.count - 1;
      }

  pub head_slot : Ring A → A
  head_slot ring = get_or ring.slots (bit_and ring.head ring.mask) cleared

  -- `ij_ring_try_dequeue`: the result, the ring, and what is written to `*out_event`; `out_given`
  -- says that the pointer is not NULL.
  pub ring_try_dequeue : Mutex → Option (Ring A) → Bool → Bool × Option (Ring A) × Option A
  ring_try_dequeue mutex none out_given = (false, none, none)
  ring_try_dequeue mutex (some ring) out_given =
      if not out_given || length ring.slots == 0
      then (false, some ring, none)
      else if not mutex.locks
      then (false, some ring, none)
      else if ring.count == 0
      then (false, some ring, none)
      else (mutex.unlocks, some (pop_slot ring), some (head_slot ring))

-- the loop of `ij_ring_destroy` over the slots: the events that are disposed of, in its order
pub occupied_slots : {A : Type 0} → List A → List Bool → List A
occupied_slots [] marks = []
occupied_slots (x ∷ xs) [] = []
occupied_slots (x ∷ xs) (mark ∷ marks) =
    let rest = occupied_slots xs marks in if mark then x ∷ rest else rest

-- `ij_ring_destroy`: the ring, and the events that `ij_event_copy_dispose` has been called with. The
-- array has `capacity` slots.
pub ring_destroy : {A : Type 0} → Mutex → Option (Ring A) → Option (Ring A) × List A
ring_destroy mutex none = (none, [])
ring_destroy mutex (some ring) =
    if length ring.slots == 0
    then (some ring, [])
    else if mutex.locks
    then (some zero_ring, occupied_slots ring.slots ring.occupied)
    else (some zero_ring, [])
