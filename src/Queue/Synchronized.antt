-- ===== src/Queue/Synchronized.antt =====
-- src/queue/SynchronizedQueue.hpp: SynchronizedQueue, an unbounded queue of chunks. Each function is
-- one critical section of `qm`; `push` ends with `cv.notify_one()`, which stands with the threads.
pub mod Laws
use ki.Prelude.{
  Bool, true, false, not, ◌&&◌, ◌||◌, Option, none, some, List, [], ◌∷◌, ◌++◌, if◌then◌else◌,
}
use ki.Queue.Wait.{Waited, blocked, returned}

pub record SynchronizedQueue {ℓ} (A : Type ℓ) : Type ℓ where
  pub items : List A
  pub is_queue_open : Bool

module _ {ℓ} {A : Type ℓ} where
  -- `queue.empty()`
  abbrev pub no_items : List A → Bool
  no_items [] = true
  no_items (x ∷ xs) = false

  unfoldable pub new_queue : SynchronizedQueue A
  new_queue = record { items = []; is_queue_open = false }

  unfoldable pub push : A → SynchronizedQueue A → SynchronizedQueue A
  push x q = record q { items = q.items ++ x ∷ [] }

  -- `none` would be a `front()` of an empty queue; the guard in `pop` keeps it out.
  take_front : SynchronizedQueue A → List A → Option A × SynchronizedQueue A
  take_front q [] = (none, q)
  take_front q (x ∷ rest) = (some x, record q { items = rest })

  unfoldable pub pop : SynchronizedQueue A → Waited (Option A × SynchronizedQueue A)
  unfolding take_front
  pop q =
      if not (no_items q.items) || not q.is_queue_open
      then if not q.is_queue_open && no_items q.items
        then returned (none, q)
        else returned (take_front q q.items)
      else blocked

  unfoldable pub is_empty : SynchronizedQueue A → Bool
  is_empty q = no_items q.items && not q.is_queue_open

  unfoldable pub close : SynchronizedQueue A → SynchronizedQueue A
  close q = record q { is_queue_open = false }

  unfoldable pub open_queue : SynchronizedQueue A → SynchronizedQueue A
  open_queue q = record q { is_queue_open = true }
