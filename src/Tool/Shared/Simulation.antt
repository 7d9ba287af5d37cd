-- ===== src/Tool/Shared/Simulation.antt =====
-- src/common/IPCTool.hpp: the states of the two processes against those of the threads of BPCopyTool.
use ki.Prelude.{ℕ, ◌≡◌, ◌⊎◌, true, some, List, length}
use ki.Queue.Fixed.{init}
use ki.Reader.Buffered.{BufferedReader, new_reader}
use ki.Writer.Buffered.{BufferedFileWriter, new_writer}
use ki.Tool.Buffered
use ki.Tool.Buffered.{
  ReaderPc, loop_test, want_free, sleep_free, fill_chunk, set_flag, tell_queue, give_filled,
  close_queue, read_done, threw, WriterPc, test_flag, test_queue, want_filled, sleep_filled,
  write_chunk, give_free, write_done, zeroed, start, wakes_reader, wakes_writer, take_filled,
  notify_reader,
}
use ki.Tool.Shared.{
  Files, System, ReaderStage, opens_queue, opens_file, reads_file, wants_writer, sleeps_writer,
  reader_left, reader_threw, WriterStage, creates_file, announces, writes_file, writer_threw,
}

-- The calls of the C library succeed.
abbrev pub files : List ℕ → (List ℕ → ℕ) → Files
files file flushed = record { source = some file; destination = some flushed; accepted = true }

module _ (file : List ℕ) (flushed : List ℕ → ℕ) where
  -- The reader and the writer as if their files were open from the start.
  abbrev pub view_reader : ReaderStage → BufferedReader → BufferedReader
  view_reader opens_queue r = (start file flushed).reader
  view_reader opens_file r = (start file flushed).reader
  view_reader reads_file r = r
  view_reader wants_writer r = r
  view_reader sleeps_writer r = r
  view_reader reader_left r = r
  view_reader reader_threw r = r

  abbrev pub view_writer : WriterStage → BufferedFileWriter → BufferedFileWriter
  view_writer creates_file w = (start file flushed).writer
  view_writer announces w = w
  view_writer writes_file w = w
  view_writer writer_threw w = w

  -- The state of BPCopyTool that a state of the two processes stands for.
  abbrev pub view : ReaderStage → WriterStage → Buffered.System → Buffered.System
  view rs ws c = record c { reader = view_reader rs c.reader; writer = view_writer ws c.writer }

  -- What is known of the reading side once the queue is open.
  abbrev pub ReaderSeen : ReaderStage → BufferedReader → ReaderPc → Type 0
  ReaderSeen opens_queue r rpc = ⊥
  ReaderSeen opens_file r rpc = (r ≡ new_reader (length file)) × (rpc ≡ loop_test)
  ReaderSeen reads_file r rpc = Unit {0}
  ReaderSeen wants_writer r rpc = rpc ≡ read_done
  ReaderSeen sleeps_writer r rpc = rpc ≡ read_done
  ReaderSeen reader_left r rpc = rpc ≡ read_done
  ReaderSeen reader_threw r rpc = ⊥

  abbrev pub WriterSeen : WriterStage → BufferedFileWriter → WriterPc → Type 0
  WriterSeen creates_file w wpc = (w ≡ new_writer) × (wpc ≡ test_flag)
  WriterSeen announces w wpc = wpc ≡ test_flag
  WriterSeen writes_file w wpc = Unit {0}
  WriterSeen writer_threw w wpc = ⊥

  -- Before the queue is open the writing process finds nothing in it, again and again.
  pub record Unopened (ws : WriterStage) (c : Buffered.System) : Type 0 where
    pub queue : c.queue ≡ init
    pub memory : c.memory ≡ zeroed
    pub reader : c.reader ≡ new_reader (length file)
    pub reader_pc : c.reader_pc ≡ loop_test
    pub writer : view_writer ws c.writer ≡ (start file flushed).writer
    pub writer_pc : (c.writer_pc ≡ test_flag) ⊎ (c.writer_pc ≡ want_filled)

  pub data Simulated (rs : ReaderStage) (ws : WriterStage) (c : Buffered.System) : Type 0 where
    before :
        rs ≡ opens_queue → Unopened ws c → WriterSeen ws c.writer c.writer_pc → Simulated rs ws c
    after :
        ReaderSeen rs c.reader c.reader_pc
        → WriterSeen ws c.writer c.writer_pc
        → Buffered.Reach (start file flushed) (view rs ws c)
        → Simulated rs ws c

  abbrev pub Sim : System → Type 0
  Sim s = Simulated s.reader_stage s.writer_stage s.core
