-- ===== src/Tool/Shared.antt =====
-- src/common/IPCTool.hpp: IPCTool::copy in the two processes that have a role. The queue, the blocks of
-- its buffers and ProcInfo are in the memory that they share; the reader belongs to one process and the
-- writer to the other.
--
-- The loops are those of BPCopyTool, up to the test of the writing process, so `core` is a state of it:
-- its points `test_flag` and `test_queue` are `queue->isReadFinished()` and `queue->isEmpty()` here. The
-- stages are what comes before and after the loops.
pub mod Commute
pub mod Simulation
pub mod ReaderMoves
pub mod WriterMoves
pub mod Reached
pub mod Safety
pub mod Stranded
mod Examples
use ki.Prelude.{ℕ, ◌≡◌, Bool, true, false, Option, none, some, List, if◌then◌else◌}
use ki.Error.{Result, ok, err}
use ki.Queue.Fixed.{open_queue, init, read_is_finished}
use ki.Reader.Buffered.{BufferedReader, new_reader, open_reader}
use ki.Writer.Buffered.{BufferedFileWriter, new_writer, create}
use ki.Ipc.ProcInfo.{ProcInfo, start_writing}
use ki.Tool.Buffered
use ki.Tool.Buffered.{
  ReaderPc, loop_test, want_free, sleep_free, fill_chunk, set_flag, tell_queue, give_filled,
  close_queue, read_done, threw, WriterPc, test_flag, test_queue, want_filled, sleep_filled,
  write_chunk, give_free, write_done, zeroed,
}

-- What the C library gives to the two processes: the source, the destination with the way in which its
-- stream flushes, and the result of `setvbuf` for it.
pub record Files : Type 0 where
  pub source : Option (List ℕ)
  pub destination : Option (List ℕ → ℕ)
  pub accepted : Bool

-- The process that reads.
pub data ReaderStage : Type 0 where
  opens_queue : ReaderStage  -- `queue->open()`
  opens_file : ReaderStage  -- `fileReader->open()`
  reads_file : ReaderStage  -- the loop, and `queue->close()`
  wants_writer : ReaderStage  -- the test in `writingStartedCondition.wait`
  sleeps_writer : ReaderStage  -- asleep in it
  reader_left : ReaderStage  -- after `copy`
  reader_threw : ReaderStage  -- an exception has left `open`

-- The process that writes.
pub data WriterStage : Type 0 where
  creates_file : WriterStage  -- `fileWriter->create()`
  announces : WriterStage  -- `isWritingStarted = true`
  writes_file : WriterStage  -- the loop; `write_done` is after it
  writer_threw : WriterStage  -- an exception has left `create`

pub record System : Type 0 where
  pub core : Buffered.System
  pub info : ProcInfo
  pub reader_stage : ReaderStage
  pub writer_stage : WriterStage

abbrev opened_file : System → Result BufferedReader → System
opened_file s (err e) = record s { reader_stage = reader_threw }
opened_file s (ok r) = record s { core = record s.core { reader = r }; reader_stage = reads_file }

-- A move of the loop; `read_done` is its end.
abbrev looped : System → ReaderPc → Option Buffered.System → Option System
looped s read_done x = some (record s { reader_stage = wants_writer })
looped s pc none = none
looped s pc (some c) = some (record s { core = c; reader_stage = reads_file })

-- One move of the process that reads; `none` where it cannot move.
unfoldable pub reader_move : Files → System → ReaderStage → Option System
reader_move f s opens_queue = some (record s {
  core = record s.core { queue = open_queue s.core.queue };
  reader_stage = opens_file;
})
reader_move f s opens_file = some (opened_file s (open_reader f.source s.core.reader))
reader_move f s reads_file =
    looped s s.core.reader_pc (Buffered.reader_move s.core s.core.reader_pc)
reader_move f s wants_writer =
    some
      (record s { reader_stage = if s.info.is_writing_started then reader_left else sleeps_writer })
reader_move f s sleeps_writer = none
reader_move f s reader_left = none
reader_move f s reader_threw = none

-- A move of the loop of the process that writes.
unfoldable pub loop_move : Buffered.System → WriterPc → Option Buffered.System
loop_move c test_flag =
    some (record c { writer_pc = if read_is_finished c.queue then test_queue else want_filled })
loop_move c pc = Buffered.writer_move c pc

abbrev created_file : System → Result BufferedFileWriter → System
created_file s (err e) = record s { writer_stage = writer_threw }
created_file s (ok w) = record s { core = record s.core { writer = w }; writer_stage = announces }

-- `writingStartedCondition.notify_all()`
abbrev pub notify_started : ReaderStage → ReaderStage
notify_started sleeps_writer = wants_writer
notify_started opens_queue = opens_queue
notify_started opens_file = opens_file
notify_started reads_file = reads_file
notify_started wants_writer = wants_writer
notify_started reader_left = reader_left
notify_started reader_threw = reader_threw

abbrev with_core : System → Option Buffered.System → Option System
with_core s none = none
with_core s (some c) = some (record s { core = c; writer_stage = writes_file })

-- One move of the process that writes.
unfoldable pub writer_move : Files → System → WriterStage → Option System
writer_move f s creates_file = some (created_file s (create f.destination f.accepted s.core.writer))
writer_move f s announces = some (record s {
  info = start_writing s.info;
  reader_stage = notify_started s.reader_stage;
  writer_stage = writes_file;
})
writer_move f s writes_file = with_core s (loop_move s.core s.core.writer_pc)
writer_move f s writer_threw = none

-- The two processes in any order.
pub data Step (f : Files) (s : System) : System → Type 0 where
  reads : {t : System} → reader_move f s s.reader_stage ≡ some t → Step f s t
  writes : {t : System} → writer_move f s s.writer_stage ≡ some t → Step f s t

-- A wait may also end without a notification.
pub data Wake (s : System) : System → Type 0 where
  wakes_free :
      s.core.reader_pc ≡ sleep_free
      → Wake s (record s { core = record s.core { reader_pc = want_free } })
  wakes_filled :
      s.core.writer_pc ≡ sleep_filled
      → Wake s (record s { core = record s.core { writer_pc = want_filled } })
  wakes_started : s.reader_stage ≡ sleeps_writer → Wake s (record s { reader_stage = wants_writer })

pub data Reach (f : Files) (s : System) : System → Type 0 where
  here : Reach f s s
  step : {t u : System} → Reach f s t → Step f t u → Reach f s u
  wake : {t u : System} → Reach f s t → Wake t u → Reach f s u

-- The state in which both processes have their tools: the queue that the first of them has constructed,
-- the counters of ProcInfo, and the size of the source.
abbrev pub launch : ProcInfo → ℕ → System
launch info size = record {
  core = record {
    queue = init;
    memory = zeroed;
    reader = new_reader size;
    writer = new_writer;
    reader_pc = loop_test;
    writer_pc = test_flag;
  };
  info = info;
  reader_stage = opens_queue;
  writer_stage = creates_file;
}
