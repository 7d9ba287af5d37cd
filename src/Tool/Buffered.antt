-- ===== src/Tool/Buffered.antt =====
-- src/common/BufferedParallelCopyTool.hpp: BPCopyTool. The reading loop of `copy` and the writing
-- thread share the queue, the blocks of the buffers and the flag `readFinished`.
--
-- A thread stands at a program point with its live buffer, and moves from one access of shared state
-- to the next; a call under `queueMutex` is one move. A thread that sleeps on the condition variable
-- makes no move: the notification of `returnBuffer` sends it back to test its predicate.
pub mod Invariant
pub mod Start
pub mod ReaderParts
pub mod ReaderMoves
pub mod WriterMoves
pub mod Safety
pub mod Measure
pub mod Progress
pub mod Awake
pub mod Flags
pub mod Fits
pub mod Bounds
pub mod Throws
pub mod End
pub mod LostWakeup
pub mod Runs
mod Examples
use ki.Prelude.{
  ℕ, ◌≡◌, Bool, true, false, Option, none, some, List, [], ◌∷◌, if◌then◌else◌, replicate, length,
}
use ki.Error.{Result, ok, err, ◌>>=◌}
use ki.Queue.Buffer.{Buffer, Memory, buffer_size}
use ki.Queue.Wait.{Waited, blocked, returned}
use ki.Queue.Fixed.{
  FixedBufferQueue, init, get_free_buffer, get_filled_buffer, is_empty, close, open_queue,
  return_buffer, finish_read,
}
use ki.Reader.Buffered.{
  BufferedReader, new_reader, open_reader, fill, mark_finished, at_end, is_read_finished,
}
use ki.Writer.Buffered.{BufferedFileWriter, new_writer, create, write_bytes}

-- The thread that calls `copy`, from the head of its loop on.
pub data ReaderPc : Type 0 where
  loop_test : ReaderPc  -- `while (!fileReader->isReadFinished())`
  want_free : ReaderPc  -- `queue->getFreeBuffer()`
  sleep_free : ReaderPc  -- asleep in it
  fill_chunk : Buffer → ReaderPc  -- the body of `read` up to `currentOffset = readCount`
  set_flag : Buffer → ReaderPc  -- `readFinished.store(true)`
  tell_queue : Buffer → ReaderPc  -- `queue->finishRead()`
  give_filled : Buffer → ReaderPc  -- `queue->returnBuffer(std::move(buf))`
  close_queue : ReaderPc  -- `queue->close()`
  read_done : ReaderPc  -- after `copy`
  threw : ReaderPc  -- an exception has left `read`

-- The thread of `writingFunction`.
pub data WriterPc : Type 0 where
  test_flag : WriterPc  -- `!fileReader->isReadFinished()`
  test_queue : WriterPc  -- `!queue->isEmpty()`
  want_filled : WriterPc  -- `queue->getFilledBuffer()`
  sleep_filled : WriterPc  -- asleep in it
  write_chunk : Buffer → WriterPc  -- `fwrite`
  give_free : Buffer → WriterPc  -- `queue->returnBuffer(std::move(*buf))`
  write_done : WriterPc  -- after the loop

pub record System : Type 0 where
  pub queue : FixedBufferQueue
  pub memory : Memory
  pub reader : BufferedReader
  pub writer : BufferedFileWriter
  pub reader_pc : ReaderPc
  pub writer_pc : WriterPc

-- `cv.notify_all()` as it concerns the other thread.
abbrev pub notify_writer : WriterPc → WriterPc
notify_writer sleep_filled = want_filled
notify_writer test_flag = test_flag
notify_writer test_queue = test_queue
notify_writer want_filled = want_filled
notify_writer (write_chunk b) = write_chunk b
notify_writer (give_free b) = give_free b
notify_writer write_done = write_done

abbrev pub notify_reader : ReaderPc → ReaderPc
notify_reader sleep_free = want_free
notify_reader loop_test = loop_test
notify_reader want_free = want_free
notify_reader (fill_chunk b) = fill_chunk b
notify_reader (set_flag b) = set_flag b
notify_reader (tell_queue b) = tell_queue b
notify_reader (give_filled b) = give_filled b
notify_reader close_queue = close_queue
notify_reader read_done = read_done
notify_reader threw = threw

-- What follows `getFreeBuffer`; `value()` of an empty optional throws.
abbrev pub take_free : System → Waited (Option Buffer × FixedBufferQueue) → System
take_free s blocked = record s { reader_pc = sleep_free }
take_free s (returned (none, q)) = record s { queue = q; reader_pc = threw }
take_free s (returned (some b, q)) = record s { queue = q; reader_pc = fill_chunk b }

-- What follows the chunk: the flags only at the end of the file.
abbrev pub after_fill : System → Result (BufferedReader × Memory × Buffer) → System
after_fill s (err e) = record s { reader_pc = threw }
after_fill s (ok (r, mem, b)) = record s {
  reader = r;
  memory = mem;
  reader_pc = if at_end r then set_flag b else give_filled b;
}

-- One move of the reading thread; `none` where it cannot move. `accepted` is the answer of `setvbuf`.
abbrev pub answered_move : Bool → System → ReaderPc → Option System
answered_move accepted s loop_test =
    some (record s { reader_pc = if is_read_finished s.reader then close_queue else want_free })
answered_move accepted s want_free = some (take_free s (get_free_buffer s.queue))
answered_move accepted s sleep_free = none
answered_move accepted s (fill_chunk b) = some (after_fill s (fill accepted s.reader s.memory b))
answered_move accepted s (set_flag b) =
    some (record s { reader = mark_finished s.reader; reader_pc = tell_queue b })
answered_move accepted s (tell_queue b) =
    some (record s { queue = finish_read s.queue; reader_pc = give_filled b })
answered_move accepted s (give_filled b) = some (record s {
  queue = return_buffer s.queue b;
  reader_pc = loop_test;
  writer_pc = notify_writer s.writer_pc;
})
answered_move accepted s close_queue =
    some (record s { queue = close s.queue; reader_pc = read_done })
answered_move accepted s read_done = none
answered_move accepted s threw = none

-- A move where `setvbuf` accepts the block of the buffer.
unfoldable pub reader_move : System → ReaderPc → Option System
reader_move s pc = answered_move true s pc

-- What follows `getFilledBuffer`: without a buffer, `write` returns.
abbrev pub take_filled : System → Waited (Option Buffer × FixedBufferQueue) → System
take_filled s blocked = record s { writer_pc = sleep_filled }
take_filled s (returned (none, q)) = record s { queue = q; writer_pc = test_flag }
take_filled s (returned (some b, q)) = record s { queue = q; writer_pc = write_chunk b }

-- One move of the writing thread.
unfoldable pub writer_move : System → WriterPc → Option System
writer_move s test_flag =
    some (record s { writer_pc = if is_read_finished s.reader then test_queue else want_filled })
writer_move s test_queue =
    some (record s { writer_pc = if is_empty s.queue then write_done else want_filled })
writer_move s want_filled = some (take_filled s (get_filled_buffer s.queue))
writer_move s sleep_filled = none
writer_move s (write_chunk b) =
    some (record s { writer = write_bytes s.memory b s.writer; writer_pc = give_free b })
writer_move s (give_free b) = some (record s {
  queue = return_buffer s.queue b;
  reader_pc = notify_reader s.reader_pc;
  writer_pc = test_flag;
})
writer_move s write_done = none

-- Two threads in any order.
pub data Step (s : System) : System → Type 0 where
  reads : {t : System} → reader_move s s.reader_pc ≡ some t → Step s t
  writes : {t : System} → writer_move s s.writer_pc ≡ some t → Step s t

-- A wait may also end without a notification, as the C++ standard allows; nothing says that it does.
pub data Wake (s : System) : System → Type 0 where
  wakes_reader : s.reader_pc ≡ sleep_free → Wake s (record s { reader_pc = want_free })
  wakes_writer : s.writer_pc ≡ sleep_filled → Wake s (record s { writer_pc = want_filled })

pub data Reach (s : System) : System → Type 0 where
  here : Reach s s
  step : {t u : System} → Reach s t → Step t u → Reach s u
  wake : {t u : System} → Reach s t → Wake t u → Reach s u

-- The blocks of NonIPCBase, `buffers{}`.
abbrev pub zeroed : Memory
zeroed = λ a. replicate buffer_size 0

-- The state in which `copy` starts the writing thread.
abbrev pub start : List ℕ → (List ℕ → ℕ) → System
start file flushed = record {
  queue = open_queue init;
  memory = zeroed;
  reader = record {
    stream = some (record { contents = file; position = 0; vbuf = none });
    file_size = length file;
    current_offset = 0;
    read_finished = false;
  };
  writer = record {
    stream = some (record { flushed = flushed; file = []; pending = []; durable = [] });
    write_finished = false;
  };
  reader_pc = loop_test;
  writer_pc = test_flag;
}

-- The head of `copy`, after the constructors: `queue->open()`, `fileReader->open()` and
-- `fileWriter->create()`. The arguments are the size of the source, what `fopen` gives for the source
-- and for the destination, and the result of `setvbuf`.
unfoldable pub copy_start : ℕ → Option (List ℕ) → Option (List ℕ → ℕ) → Bool → Result System
unfolding open_reader create
copy_start size source created accepted = do
  r ← open_reader source (new_reader size)
  w ← create created accepted new_writer
  ok (record {
    queue = open_queue init;
    memory = zeroed;
    reader = r;
    writer = w;
    reader_pc = loop_test;
    writer_pc = test_flag;
  })
