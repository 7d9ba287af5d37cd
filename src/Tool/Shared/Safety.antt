-- ===== src/Tool/Shared/Safety.antt =====
-- src/common/IPCTool.hpp: what holds of `copy` under every order of the two processes.
use ki.Prelude.{ℕ, ◌+◌, ◌<◌, ◌≡◌, ◌≢◌, refl, sym, ap, ◌∙◌, inl, inr, some, List, length}
use ki.Queue.Buffer.{buffer_size}
use ki.Reader.Buffered.{size_mod}
use ki.Stdio.{DiskFile}
use ki.Writer.Buffered.{BufferedFileWriter, finish_write}
use ki.Ipc.ProcInfo.{ProcInfo}
use ki.Tool.Buffered
use ki.Tool.Buffered.{ReaderPc, WriterPc, read_done, threw, write_done, start}
use ki.Tool.Buffered.Safety.{copy_correct, never_throws}
use ki.Tool.Shared.{
  System, ReaderStage, opens_queue, reader_threw, WriterStage, creates_file, announces, writes_file,
  writer_threw, Reach, launch,
}
use ki.Tool.Shared.Reached.{Reach-Simulated}
use ki.Tool.Shared.Simulation.{files, view, view_writer, WriterSeen, ReaderSeen, before, after}

view_writer-done :
    (file : List ℕ) (flushed : List ℕ → ℕ) (ws : WriterStage) (w : BufferedFileWriter)
    {pc : WriterPc}
    → pc ≡ write_done
    → WriterSeen file flushed ws w pc
    → view_writer file flushed ws w ≡ w
view_writer-done file flushed creates_file w e h = absurd (cc (h.1))
view_writer-done file flushed announces w e h = refl
view_writer-done file flushed writes_file w e h = refl
view_writer-done file flushed writer_threw w e h = refl

module _ {file : List ℕ} {flushed : List ℕ → ℕ} (small : length file + buffer_size < size_mod)
    {info : ProcInfo} {s : System}
    (run : Reach (files file flushed) (launch info (length file)) s) where
  -- Once the queue is open, every state that the two processes of IPCTool reach from a new queue,
  -- where the calls of the C library succeed and for a file whose size and one block stay below
  -- 2^64, is a reachable state of the two threads of BPCopyTool, with the reader and the writer as
  -- if their files had been open from the start.
  pub shared_copy_refines :
      s.reader_stage ≢ opens_queue
      → Buffered.Reach (start file flushed) (view file flushed s.reader_stage s.writer_stage s.core)
  shared_copy_refines n = elim (Reach-Simulated file flushed small run) [
    | before e v w ↦ absurd (n e)
    | after a w r ↦ r
  ]

  -- In every state that the two processes of IPCTool reach from a new queue, where the calls of the
  -- C library succeed, for a file whose size and one block stay below 2^64 and under every order of
  -- the processes, also one that writes before the other has opened the queue: if the writing
  -- process has ended its loop, then the reading process has ended its own, and finishWrite leaves a
  -- file with exactly the bytes of the source.
  pub shared_copy_correct :
      s.core.writer_pc ≡ write_done
      → (s.core.reader_pc ≡ read_done)
        × ((d : DiskFile) × ((finish_write s.core.writer).1 ≡ some d) × (d.contents ≡ file))
  shared_copy_correct e = elim (Reach-Simulated file flushed small run) [
    | before e0 v w ↦ absurd (elim v.writer_pc [ inl h ↦ cc | inr h ↦ cc ])
    | after a w r ↦
        let done = copy_correct small r e in
        let same = view_writer-done file flushed s.writer_stage s.core.writer e w in
        (done.0, (done.1.0, ap (λ x. (finish_write x).1) (sym same) ∙ done.1.1, done.1.2))
  ]

  -- In no state that the two processes of IPCTool reach from a new queue, where the calls of the C
  -- library succeed and for a file whose size and one block stay below 2^64, has an exception left
  -- read, open or create.
  pub shared_never_throws :
      (s.core.reader_pc ≢ threw) × (s.reader_stage ≢ reader_threw) × (s.writer_stage ≢ writer_threw)
  shared_never_throws = elim (Reach-Simulated file flushed small run) [
    | before e0 v w ↦ (λ h. cc (h, v.reader_pc), λ h. cc (h, e0), no_throw s.writer_stage w)
    | after a w r ↦
        (never_throws small r, no_read_throw s.reader_stage a, no_throw s.writer_stage w)
  ]
    where
      no_throw :
          (ws : WriterStage)
          → WriterSeen file flushed ws s.core.writer s.core.writer_pc
          → ws ≢ writer_threw
      no_throw writer_threw h e = h
      no_throw _ h e = cc

      no_read_throw :
          (rs : ReaderStage)
          → ReaderSeen file flushed rs s.core.reader s.core.reader_pc
          → rs ≢ reader_threw
      no_read_throw reader_threw h e = h
      no_read_throw _ h e = cc
