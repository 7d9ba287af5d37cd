-- ===== src/Queue/Examples.antt =====
-- The laws of the queues (src/queue/BufferedQueue.hpp, src/queue/SynchronizedQueue.hpp) on small queues.
use ki.Prelude.{ℕ, ◌≡◌, ◌↔◌, true, false, none, List, [], ◌∷◌, ◌++◌, length}
use ki.Queue.Buffer.{Buffer, read, write}
use ki.Queue.Wait.{returned}
use ki.Queue.Fixed.{FixedBufferQueue, get_filled_buffer, is_empty}
use ki.Queue.Fixed.Pool.{view, Call, opens, gets_free, gets_filled, returns}
use ki.Queue.Fixed.Refinement.{run, AllowsAll, run-AllowsAll}
use ki.Queue.Fixed.Laws.{is_empty-iff-refused}
use ki.Queue.Synchronized.{SynchronizedQueue}
use ki.Queue.Synchronized.Laws.{push_all, pop_all, pop_all-push_all}

abbrev filled : Buffer
filled = record { address = 3; bytes_used = 7; buffer_type = write }

abbrev fresh : Buffer
fresh = record { address = 5; bytes_used = 9; buffer_type = read }

-- An open queue with one filled buffer, and one that is closed and drained.
abbrev one_filled : FixedBufferQueue
one_filled = record {
  read_buffers = [];
  write_buffers = filled ∷ [];
  is_open = true;
  is_read_finished = false;
}

abbrev drained : FixedBufferQueue
drained = record {
  read_buffers = fresh ∷ [];
  write_buffers = [];
  is_open = false;
  is_read_finished = true;
}

is_empty-iff-refused_example :
    (is_empty drained ≡ true) ↔ (get_filled_buffer drained ≡ returned (none, drained))
is_empty-iff-refused_example = is_empty-iff-refused drained

abbrev one_chunk : SynchronizedQueue (List ℕ)
one_chunk = record { items = (1 ∷ 2 ∷ []) ∷ []; is_queue_open = true }

abbrev two_chunks : List (List ℕ)
two_chunks = (3 ∷ []) ∷ (4 ∷ 5 ∷ []) ∷ []

pop_all-push_all_example :
    pop_all (length (one_chunk.items ++ two_chunks)) (push_all two_chunks one_chunk)
    ≡ one_chunk.items ++ two_chunks
pop_all-push_all_example = pop_all-push_all two_chunks one_chunk

-- Calls of a reader and of a writer, on a queue with one buffer of each kind.
abbrev calls : List Call
calls =
    opens
    ∷ gets_free
    ∷ returns (record { address = 5; bytes_used = 9; buffer_type = read })
    ∷ gets_filled
    ∷ gets_filled
    ∷ []

run-AllowsAll_example : AllowsAll (view drained) calls (run calls drained)
run-AllowsAll_example = run-AllowsAll calls drained
