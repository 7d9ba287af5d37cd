-- ===== src/Tool/Parallel.antt =====
-- src/common/ParallelCopyTool.hpp: ParallelCopyTool. The reading loop of `copy` and the writing thread
-- share the queue and the flag `readFinished`; the mappings of the two files belong to one thread each.
--
-- A thread stands at a program point with its chunk and moves from one access of shared state to the
-- next. A thread that sleeps on the condition variable of the queue moves when `push` notifies it.
pub mod Invariant
pub mod Parts
pub mod Moves
pub mod Safety
pub mod LostWakeup
pub mod Measure
pub mod Progress
pub mod End
pub mod Runs
mod Examples
use ki.Prelude.{ℕ, ◌≡◌, Bool, true, false, Option, none, some, List, [], ◌∷◌, if◌then◌else◌, length}
use ki.Error.{Result, ok, err, ◌>>=◌}
use ki.Queue.Wait.{Waited, blocked, returned}
use ki.Queue.Synchronized.{SynchronizedQueue, new_queue, push, pop, is_empty, close, open_queue}
use ki.Reader.Mmap.{MMapFileReader, is_read_finished, read, finish_read, new_reader, open_reader}
use ki.Writer.Mmap.{MMapFileWriter, write, finish_write, new_writer, create}

-- The thread that calls `copy`, from the head of its loop on.
pub data ReaderPc : Type 0 where
  loop_test : ReaderPc  -- `while (!fileReader->isReadFinished())`
  read_chunk : ReaderPc  -- `fileReader->read()`
  push_chunk : List ℕ → ReaderPc  -- `queue->push(…)`
  close_queue : ReaderPc  -- `queue->close()`
  finish_reading : ReaderPc  -- `fileReader->finishRead()`
  read_done : ReaderPc  -- after `copy`
  read_threw : ReaderPc  -- an exception has left `read`

-- The thread of `writingFunction`.
pub data WriterPc : Type 0 where
  test_flag : WriterPc  -- `!fileReader->isReadFinished()`
  test_queue : WriterPc  -- `!queue->isEmpty()`
  want_chunk : WriterPc  -- `queue->pop()`
  sleep_chunk : WriterPc  -- asleep in it
  write_chunk : List ℕ → WriterPc  -- `fileWriter->write(std::move(*buf))`
  finish_writing : WriterPc  -- `fileWriter->finishWrite()`
  write_done : WriterPc  -- after `writingFunction`
  write_threw : WriterPc  -- an exception has left `write`

pub record System : Type 0 where
  pub queue : SynchronizedQueue (List ℕ)
  pub reader : MMapFileReader
  pub writer : MMapFileWriter
  -- The destination, once `finishWrite` has released it.
  pub destination : Option (List ℕ)
  pub reader_pc : ReaderPc
  pub writer_pc : WriterPc

-- `cv.notify_one()`: nobody but the writing thread waits.
abbrev pub notify_writer : WriterPc → WriterPc
notify_writer sleep_chunk = want_chunk
notify_writer test_flag = test_flag
notify_writer test_queue = test_queue
notify_writer want_chunk = want_chunk
notify_writer (write_chunk buf) = write_chunk buf
notify_writer finish_writing = finish_writing
notify_writer write_done = write_done
notify_writer write_threw = write_threw

abbrev after_read : System → Result (List ℕ × MMapFileReader) → System
after_read s (err e) = record s { reader_pc = read_threw }
after_read s (ok (buf, r)) = record s { reader = r; reader_pc = push_chunk buf }

-- One move of the reading thread; `none` where it cannot move.
unfoldable pub reader_move : System → ReaderPc → Option System
reader_move s loop_test =
    some (record s { reader_pc = if is_read_finished s.reader then close_queue else read_chunk })
reader_move s read_chunk = some (after_read s (read s.reader))
reader_move s (push_chunk buf) = some (record s {
  queue = push buf s.queue;
  reader_pc = loop_test;
  writer_pc = notify_writer s.writer_pc;
})
reader_move s close_queue = some (record s { queue = close s.queue; reader_pc = finish_reading })
reader_move s finish_reading =
    some (record s { reader = finish_read s.reader; reader_pc = read_done })
reader_move s read_done = none
reader_move s read_threw = none

-- What follows `pop`: without a chunk the loop ends.
abbrev take_chunk : System → Waited (Option (List ℕ) × SynchronizedQueue (List ℕ)) → System
take_chunk s blocked = record s { writer_pc = sleep_chunk }
take_chunk s (returned (none, q)) = record s { queue = q; writer_pc = finish_writing }
take_chunk s (returned (some buf, q)) = record s { queue = q; writer_pc = write_chunk buf }

abbrev after_write : System → Result MMapFileWriter → System
after_write s (err e) = record s { writer_pc = write_threw }
after_write s (ok w) = record s { writer = w; writer_pc = test_flag }

-- One move of the writing thread.
unfoldable pub writer_move : System → WriterPc → Option System
writer_move s test_flag =
    some (record s { writer_pc = if is_read_finished s.reader then test_queue else want_chunk })
writer_move s test_queue =
    some (record s { writer_pc = if is_empty s.queue then finish_writing else want_chunk })
writer_move s want_chunk = some (take_chunk s (pop s.queue))
writer_move s sleep_chunk = none
writer_move s (write_chunk buf) = some (after_write s (write buf s.writer))
writer_move s finish_writing = some (record s {
  writer = (finish_write s.writer).0;
  destination = (finish_write s.writer).1;
  writer_pc = write_done;
})
writer_move s write_done = none
writer_move s write_threw = none

-- Two threads in any order; a wait may also end without a notification.
pub data Step (s : System) : System → Type 0 where
  reads : {t : System} → reader_move s s.reader_pc ≡ some t → Step s t
  writes : {t : System} → writer_move s s.writer_pc ≡ some t → Step s t
  wakes : s.writer_pc ≡ sleep_chunk → Step s (record s { writer_pc = want_chunk })

pub data Reach (s : System) : System → Type 0 where
  here : Reach s s
  step : {t u : System} → Reach s t → Step t u → Reach s u

-- The state in which `copy` starts the writing thread: the source, what the mapping of the
-- destination holds, and the size of a page. `mmap` refuses an empty file, so that `copy` comes to this
-- state only for a file that is not empty.
abbrev pub start : List ℕ → List ℕ → ℕ → System
start file old page = record {
  queue = open_queue new_queue;
  reader = record {
    default_buffer_size = page;
    file_size = length file;
    mmapped_file = some file;
    current_offset = 0;
    read_finished = false;
  };
  writer = record {
    file_size = length file;
    mmapped_file = some old;
    current_offset = 0;
    write_finished = false;
  };
  destination = none;
  reader_pc = loop_test;
  writer_pc = test_flag;
}

-- The constructors, as the tool's factory calls them, and the head of `copy`. The arguments are the
-- size of a page, the results of the `open` and the `file_size` of the source, of the two `mmap`, and
-- of the `open` and the `ftruncate` of the destination.
unfoldable pub copy_start :
    ℕ → Bool → Option ℕ → Option (List ℕ) → Bool → Bool → Option (List ℕ) → Result System
unfolding new_reader open_reader create
copy_start page found size source opened resized mapped = do
  r ← new_reader page found size
  let w = new_writer r.file_size
  r' ← open_reader source r
  w' ← create opened resized mapped w
  ok (record {
    queue = open_queue new_queue;
    reader = r';
    writer = w';
    destination = none;
    reader_pc = loop_test;
    writer_pc = test_flag;
  })
