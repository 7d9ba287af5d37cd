-- ===== src/Queue/Fixed.antt =====
-- src/queue/BufferedQueue.hpp: FixedBufferQueue, the pool of buffers and the filled buffers. Each
-- function is one critical section of `queueMutex`, or one store of the atomic `isOpen`.
pub mod Laws
pub mod Pool
pub mod Refinement
use ki.Prelude.{
  ℕ, ◌≡◌, Bool, true, false, not, ◌&&◌, ◌||◌, Option, none, some, List, [], ◌∷◌, ◌++◌, map,
  if◌then◌else◌, pop_back, range_from,
}
use ki.Queue.Buffer.{Buffer, BufferType, read, write, new_buffer, set_type, buffers_in_queue}
use ki.Queue.Wait.{Waited, blocked, returned}

pub record FixedBufferQueue : Type 0 where
  pub read_buffers : List Buffer
  pub write_buffers : List Buffer
  pub is_open : Bool
  pub is_read_finished : Bool

-- `deque::empty`
abbrev pub is_nil {ℓ} : {A : Type ℓ} → List A → Bool
is_nil [] = true
is_nil (x ∷ xs) = false

-- The constructor: every buffer is free, and the queue is closed.
unfoldable pub init : FixedBufferQueue
init = record {
  read_buffers = map new_buffer (range_from 0 buffers_in_queue);
  write_buffers = [];
  is_open = false;
  is_read_finished = false;
}

-- After the guard the deque is not empty; `none` here would be a `back()` of an empty deque.
take_back : FixedBufferQueue → Option (List Buffer × Buffer) → Option Buffer × FixedBufferQueue
take_back q none = (none, q)
take_back q (some (rest, b)) = (some (set_type read b), record q { read_buffers = rest })

unfoldable pub get_free_buffer : FixedBufferQueue → Waited (Option Buffer × FixedBufferQueue)
unfolding take_back
get_free_buffer q =
    if not (is_nil q.read_buffers) || not q.is_open
    then if is_nil q.read_buffers && not q.is_open
      then returned (none, q)
      else returned (take_back q (pop_back q.read_buffers))
    else blocked

take_front : FixedBufferQueue → List Buffer → Option Buffer × FixedBufferQueue
take_front q [] = (none, q)
take_front q (b ∷ rest) = (some (set_type write b), record q { write_buffers = rest })

unfoldable pub get_filled_buffer : FixedBufferQueue → Waited (Option Buffer × FixedBufferQueue)
unfolding take_front
get_filled_buffer q =
    if not (is_nil q.write_buffers) || not q.is_open
    then if is_nil q.write_buffers && not q.is_open
      then returned (none, q)
      else returned (take_front q q.write_buffers)
    else blocked

unfoldable pub is_empty : FixedBufferQueue → Bool
is_empty q = is_nil q.write_buffers && not q.is_open

unfoldable pub close : FixedBufferQueue → FixedBufferQueue
close q = record q { is_open = false }

unfoldable pub open_queue : FixedBufferQueue → FixedBufferQueue
open_queue q = record q { is_open = true }

-- The type that a returned buffer is given: the other one.
abbrev pub type_to_set : BufferType → BufferType
type_to_set read = write
type_to_set write = read

push_back : BufferType → FixedBufferQueue → Buffer → FixedBufferQueue
push_back read q b = record q { read_buffers = q.read_buffers ++ set_type read b ∷ [] }
push_back write q b = record q { write_buffers = q.write_buffers ++ set_type write b ∷ [] }

-- The part under the lock; `cv.notify_all()` follows it, and stands with the threads.
unfoldable pub return_buffer : FixedBufferQueue → Buffer → FixedBufferQueue
unfolding push_back
return_buffer q b = push_back (type_to_set b.buffer_type) q b

unfoldable pub finish_read : FixedBufferQueue → FixedBufferQueue
finish_read q = record q { is_read_finished = true }

-- `isReadFinished`
abbrev pub read_is_finished : FixedBufferQueue → Bool
read_is_finished q = q.is_read_finished
