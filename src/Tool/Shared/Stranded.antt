-- ===== src/Tool/Shared/Stranded.antt =====
-- src/common/IPCTool.hpp, src/queue/BufferedQueue.hpp: a writing process that sleeps when the queue is
-- closed, and what `timeout` decides for it.
use mathlib.Core.Path.{subst}
use ki.Prelude.{
  ℕ, ◌+◌, ◌<◌, ◌≡◌, refl, sym, ap, ◌∙◌, ◌⊎◌, inl, inr, Bool, true, false, some, List, length,
  eq_of_some, if◌then◌else◌,
}
use ki.Queue.Buffer.{buffer_size}
use ki.Queue.Fixed.{close}
use ki.Reader.Buffered.{BufferedReader, size_mod}
use ki.Writer.Buffered.{BufferedFileWriter}
use ki.Ipc.ProcInfo.{ProcInfo, writer_process}
use ki.Ipc.Observer.{terminates}
use ki.Tool.Buffered
use ki.Tool.Buffered.{ReaderPc, WriterPc, close_queue, read_done, sleep_filled, start}
use ki.Tool.Buffered.Flags.{Reach-Flagged, Flagged}
use ki.Tool.Shared.{
  Files, System, ReaderStage, opens_queue, opens_file, reads_file, wants_writer, sleeps_writer,
  reader_left, reader_threw, WriterStage, creates_file, announces, writes_file, writer_threw,
  reader_move, writer_move, looped, loop_move, with_core, Step, reads, writes, Reach, launch,
}
use ki.Tool.Shared.Reached.{Reach-Simulated}
use ki.Tool.Shared.Simulation.{files, WriterSeen, ReaderSeen, Sim, before, after}

-- A run of moves alone: every wait that ends was notified.
pub data Run (f : Files) (s : System) : System → Type 0 where
  here : Run f s s
  move : {t u : System} → Run f s t → Step f t u → Run f s u

-- The reading process has nothing left to do but to close the queue and to leave.
abbrev Ending : ReaderStage → ReaderPc → Type 0
Ending opens_queue rpc = ⊥
Ending opens_file rpc = ⊥
Ending reads_file rpc = (rpc ≡ close_queue) ⊎ (rpc ≡ read_done)
Ending wants_writer rpc = Unit {0}
Ending sleeps_writer rpc = Unit {0}
Ending reader_left rpc = Unit {0}
Ending reader_threw rpc = ⊥

record IsStranded (s : System) : Type 0 where
  ending : Ending s.reader_stage s.core.reader_pc
  writing : s.writer_stage ≡ writes_file
  asleep : s.core.writer_pc ≡ sleep_filled
  flag : s.core.queue.is_read_finished ≡ true

module _ (f : Files) (s : System) where
  reader_move-IsStranded :
      (rs : ReaderStage) {t : System}
      → Ending rs s.core.reader_pc
      → s.writer_stage ≡ writes_file
      → s.core.writer_pc ≡ sleep_filled
      → s.core.queue.is_read_finished ≡ true
      → reader_move f s rs ≡ some t
      → IsStranded t
  unfolding reader_move Buffered.reader_move close
  reader_move-IsStranded opens_queue h w a g e = absurd h
  reader_move-IsStranded opens_file h w a g e = absurd h
  reader_move-IsStranded reads_file (inl h) w a g e =
      subst IsStranded
        (eq_of_some (ap (λ pc. looped s pc (Buffered.reader_move s.core pc)) (sym h) ∙ e))
        (record { ending = inr refl; writing = w; asleep = a; flag = g })
  reader_move-IsStranded reads_file (inr h) w a g e =
      subst IsStranded
        (eq_of_some (ap (λ pc. looped s pc (Buffered.reader_move s.core pc)) (sym h) ∙ e))
        (record { ending = tt; writing = w; asleep = a; flag = g })
  reader_move-IsStranded wants_writer h w a g e =
      subst IsStranded (eq_of_some e)
        (record { ending = tested s.info.is_writing_started; writing = w; asleep = a; flag = g })
    where
      tested : (b : Bool) → Ending (if b then reader_left else sleeps_writer) s.core.reader_pc
      tested true = tt
      tested false = tt
  reader_move-IsStranded sleeps_writer h w a g e = absurd (cc)
  reader_move-IsStranded reader_left h w a g e = absurd (cc)
  reader_move-IsStranded reader_threw h w a g e = absurd h

Step-IsStranded : {f : Files} {s t : System} → Step f s t → IsStranded s → IsStranded t
unfolding writer_move loop_move Buffered.writer_move
Step-IsStranded {f} {s} (reads e) v =
    reader_move-IsStranded f s s.reader_stage v.ending v.writing v.asleep v.flag e
Step-IsStranded {f} {s} (writes e) v = absurd (
    cc (
      ap (λ pc. with_core s (loop_move s.core pc)) (sym v.asleep)
      ∙ (ap (writer_move f s) (sym v.writing) ∙ e)))

Run-IsStranded : {f : Files} {s t : System} → Run f s t → IsStranded s → IsStranded t
Run-IsStranded here v = v
Run-IsStranded (move r st) v = Step-IsStranded st (Run-IsStranded r v)

-- What is known of the stages where the reader closes the queue and the writer sleeps.
reads_file-stage :
    (file : List ℕ) (flushed : List ℕ → ℕ) (rs : ReaderStage) (r : BufferedReader) {pc : ReaderPc}
    → pc ≡ close_queue
    → ReaderSeen file flushed rs r pc
    → rs ≡ reads_file
reads_file-stage file flushed opens_queue r e h = absurd h
reads_file-stage file flushed opens_file r e h = absurd (cc (h.1))
reads_file-stage file flushed reads_file r e h = refl
reads_file-stage file flushed reader_threw r e h = absurd h
reads_file-stage file flushed wants_writer r e h = absurd (cc (h))
reads_file-stage file flushed sleeps_writer r e h = absurd (cc (h))
reads_file-stage file flushed reader_left r e h = absurd (cc (h))

writes_file-stage :
    (file : List ℕ) (flushed : List ℕ → ℕ) (ws : WriterStage) (w : BufferedFileWriter)
    {pc : WriterPc}
    → pc ≡ sleep_filled
    → WriterSeen file flushed ws w pc
    → ws ≡ writes_file
writes_file-stage file flushed creates_file w e h = absurd (cc (h.1))
writes_file-stage file flushed announces w e h = absurd (cc (h))
writes_file-stage file flushed writes_file w e h = refl
writes_file-stage file flushed writer_threw w e h = absurd h

-- Where the calls of the C library succeed, for a file whose size and one block stay below 2^64: if
-- the writing process of IPCTool sleeps in getFilledBuffer when the reading process is about to
-- close the queue, then it sleeps after every further run of moves with no spurious end of a wait,
-- and the timeout of its observer does not end it.
pub shared_copy_stranded :
    {file : List ℕ} {flushed : List ℕ → ℕ} {info : ProcInfo} {s t : System}
    → length file + buffer_size < size_mod
    → Reach (files file flushed) (launch info (length file)) s
    → s.core.reader_pc ≡ close_queue
    → s.core.writer_pc ≡ sleep_filled
    → Run (files file flushed) s t
    → (t.core.writer_pc ≡ sleep_filled)
      × (terminates writer_process t.core.queue.is_read_finished ≡ false)
unfolding terminates
shared_copy_stranded {file} {flushed} {info} {s} {t} small run er ew later =
    let v = Run-IsStranded later (stranded (Reach-Simulated file flushed small run)) in
    (v.asleep, rw v.flag refl)
  where
    stranded : Sim file flushed s → IsStranded s
    stranded (before e0 v w) = absurd (elim v.writer_pc [ inl h ↦ cc | inr h ↦ cc ])
    stranded (after a w r) =
        let rs = reads_file-stage file flushed s.reader_stage s.core.reader er a in
        record {
          ending = subst (λ x. Ending x s.core.reader_pc) (sym rs) (inl er);
          writing = writes_file-stage file flushed s.writer_stage s.core.writer ew w;
          asleep = ew;
          flag = subst (Flagged s.core.queue.is_read_finished _) er (Reach-Flagged small r).0;
        }
