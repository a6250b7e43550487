-- ===== src/Ring/Queue.antt =====
-- What the ring promises: a first-in, first-out queue of bounded length that refuses new events
-- when it is full. An operation whose mutex cannot be taken does nothing; one whose mutex cannot be
-- given back has done its work and reports a failure all the same.
use iojournal.Prelude.{
  Bool, List, Option, [], false, if◌then◌else◌, leb, length, none, not, some, ℕ, ◌++◌, ◌∷◌,
}
use iojournal.Types.{Status, internal_error, ok, queue_full}
use iojournal.Ring.{Mutex}

-- An operation of some thread, with what the mutex answers it.
pub data Op (A : Type 0) : Type 0 where
  put : Mutex → A → Op A
  take_out : Mutex → Op A

-- What a thread is told: the status and its event, or the result and the event that it is given.
pub data Answer (A : Type 0) : Type 0 where
  stored : Status → Option A → Answer A
  taken : Bool → Option A → Answer A

module _ {A : Type 0} (cleared : A) (capacity : ℕ) where
  pub put_event : List A → Mutex → A → Answer A × List A
  put_event queue mutex event =
      if not mutex.locks
      then (stored internal_error (some event), queue)
      else if leb capacity (length queue)
      then (stored (if mutex.unlocks then queue_full else internal_error) (some event), queue)
      else (
        stored (if mutex.unlocks then ok else internal_error) (some cleared),
        queue ++ event ∷ [],
      )

  pub take_event : List A → Mutex → Answer A × List A
  take_event [] mutex = (taken false none, [])
  take_event (event ∷ queue) mutex =
      if not mutex.locks
      then (taken false none, event ∷ queue)
      else (taken mutex.unlocks (some event), queue)

  unfoldable pub queue_step : List A → Op A → Answer A × List A
  unfolding put_event take_event
  queue_step queue (put mutex event) = put_event queue mutex event
  queue_step queue (take_out mutex) = take_event queue mutex

  unfoldable pub queue_run : List A → List (Op A) → List (Answer A)
  queue_run queue [] = []
  queue_run queue (op ∷ ops) =
      let (answer, rest) = queue_step queue op in answer ∷ queue_run rest ops
