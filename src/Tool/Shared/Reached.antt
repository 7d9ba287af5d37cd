-- ===== src/Tool/Shared/Reached.antt =====
-- src/common/IPCTool.hpp: what every state that the two processes reach stands for.
use mathlib.Core.Path.{subst}
use ki.Prelude.{ℕ, ◌+◌, ◌<◌, ◌≡◌, refl, ap, inl, inr, List, length}
use ki.Queue.Buffer.{buffer_size}
use ki.Reader.Buffered.{BufferedReader, size_mod}
use ki.Writer.Buffered.{BufferedFileWriter}
use ki.Ipc.ProcInfo.{ProcInfo}
use ki.Tool.Buffered
use ki.Tool.Buffered.{
  ReaderPc, loop_test, want_free, sleep_free, fill_chunk, set_flag, tell_queue, give_filled,
  close_queue, read_done, threw, WriterPc, test_flag, test_queue, want_filled, sleep_filled,
  write_chunk, give_free, write_done, zeroed, start, wakes_reader, wakes_writer, take_filled,
  notify_reader,
}
use ki.Tool.Shared.{
  System, ReaderStage, opens_queue, opens_file, reads_file, wants_writer, sleeps_writer,
  reader_left, reader_threw, WriterStage, creates_file, announces, writes_file, writer_threw, reads,
  writes, Wake, wakes_free, wakes_filled, wakes_started, Reach, launch, here, step, wake,
}
use ki.Tool.Shared.Simulation.{files, view, ReaderSeen, WriterSeen, Simulated, before, after, Sim}
use ki.Tool.Shared.ReaderMoves.{reader_move-Simulated}
use ki.Tool.Shared.WriterMoves.{writer_move-Simulated}

module _ (file : List ℕ) (flushed : List ℕ → ℕ) where
  launch-Simulated :
      (info : ProcInfo)
      → (Simulated file flushed) opens_queue creates_file (launch info (length file)).core
  launch-Simulated info =
      before refl
        (record {
          queue = refl;
          memory = refl;
          reader = refl;
          reader_pc = refl;
          writer = refl;
          writer_pc = inl refl;
        })
        (refl, refl)

  ReaderSeen-woken :
      (rs : ReaderStage) (r : BufferedReader) {pc : ReaderPc}
      → pc ≡ sleep_free
      → (ReaderSeen file flushed) rs r pc
      → (ReaderSeen file flushed) rs r want_free
  ReaderSeen-woken opens_queue r e h = h
  ReaderSeen-woken opens_file r e h = absurd (cc (h.1))
  ReaderSeen-woken reads_file r e h = tt
  ReaderSeen-woken wants_writer r e h = absurd (cc (h))
  ReaderSeen-woken sleeps_writer r e h = absurd (cc (h))
  ReaderSeen-woken reader_left r e h = absurd (cc (h))
  ReaderSeen-woken reader_threw r e h = h

  WriterSeen-woken :
      (ws : WriterStage) (w : BufferedFileWriter) {pc : WriterPc}
      → pc ≡ sleep_filled
      → (WriterSeen file flushed) ws w pc
      → (WriterSeen file flushed) ws w want_filled
  WriterSeen-woken creates_file w e h = absurd (cc (h.1))
  WriterSeen-woken announces w e h = absurd (cc (h))
  WriterSeen-woken writes_file w e h = tt
  WriterSeen-woken writer_threw w e h = h

  Wake-Simulated : {s t : System} → Wake s t → (Sim file flushed) s → (Sim file flushed) t
  Wake-Simulated {s} (wakes_free e) (before e0 v w) = absurd (cc (v.reader_pc))
  Wake-Simulated {s} (wakes_free e) (after a w r) =
      after (ReaderSeen-woken s.reader_stage s.core.reader e a) w (Buffered.wake r (wakes_reader e))
  Wake-Simulated {s} (wakes_filled e) (before e0 v w) =
      absurd (elim v.writer_pc [ inl h ↦ cc | inr h ↦ cc ])
  Wake-Simulated {s} (wakes_filled e) (after a w r) =
      after a (WriterSeen-woken s.writer_stage s.core.writer e w) (Buffered.wake r (wakes_writer e))
  Wake-Simulated {s} (wakes_started e) (before e0 v w) = absurd (cc (e0))
  Wake-Simulated {s} (wakes_started e) (after a w r) =
      after (subst (λ rs. (ReaderSeen file flushed) rs s.core.reader s.core.reader_pc) e a) w (
        subst (Buffered.Reach (start file flushed))
          (ap (λ rs. (view file flushed) rs s.writer_stage s.core) e) r)

  pub Reach-Simulated :
      {info : ProcInfo} {s : System}
      → length file + buffer_size < size_mod
      → Reach (files file flushed) (launch info (length file)) s
      → (Sim file flushed) s
  Reach-Simulated {info} small here = launch-Simulated info
  Reach-Simulated small (step {t} r (reads e)) =
      reader_move-Simulated file flushed t t.reader_stage (Reach-Simulated small r) e
  Reach-Simulated small (step {t} r (writes e)) =
      writer_move-Simulated file flushed small t t.writer_stage (Reach-Simulated small r) e
  Reach-Simulated small (wake r w) = Wake-Simulated w (Reach-Simulated small r)
