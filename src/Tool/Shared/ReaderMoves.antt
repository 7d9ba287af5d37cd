-- ===== src/Tool/Shared/ReaderMoves.antt =====
-- src/common/IPCTool.hpp: a move of the reading process is one of the reading thread, or changes nothing
-- that BPCopyTool sees.
use mathlib.Core.Path.{subst}
use ki.Prelude.{
  ℕ, ◌≡◌, refl, sym, ap, ◌∙◌, ◌⊎◌, inl, inr, Bool, true, false, none, some, Option, List, length,
  arith, eq_of_some, if◌then◌else◌,
}
use ki.Error.{ok}
use ki.Queue.Fixed.{open_queue}
use ki.Reader.Buffered.{new_reader, open_reader}
use ki.Writer.Buffered.{BufferedFileWriter}
use ki.Tool.Buffered
use ki.Tool.Buffered.{
  ReaderPc, loop_test, want_free, sleep_free, fill_chunk, set_flag, tell_queue, give_filled,
  close_queue, read_done, threw, WriterPc, test_flag, test_queue, want_filled, sleep_filled,
  write_chunk, give_free, write_done, zeroed, start, wakes_reader, wakes_writer, take_filled,
  notify_reader,
}
use ki.Tool.Shared.{
  System, ReaderStage, opens_queue, opens_file, reads_file, wants_writer, sleeps_writer,
  reader_left, reader_threw, WriterStage, creates_file, announces, writes_file, writer_threw,
  reader_move, looped, opened_file,
}
use ki.Tool.Shared.Commute.{reader_move-writer, reader_move-SameWriter}
use ki.Tool.Shared.Simulation.{
  files, view_writer, view, WriterSeen, Unopened, Simulated, before, after, Sim,
}

module _ (file : List ℕ) (flushed : List ℕ → ℕ) where
  -- The move that opens the queue leads to the start of a copy, or to the state after the first move
  -- of the writing side.
  opened-Reach :
      (ws : WriterStage) (c : Buffered.System)
      → (Unopened file flushed) ws c
      → Buffered.Reach
          (start file flushed)
          ((view file flushed) opens_file ws (record c { queue = open_queue c.queue }))
  unfolding Buffered.writer_move
  opened-Reach ws c v = elim v.writer_pc [
    | inl e ↦ subst (Buffered.Reach (start file flushed)) (same test_flag (sym e)) Buffered.here
    | inr e ↦
        subst (Buffered.Reach (start file flushed)) (same want_filled (sym e))
          (Buffered.step Buffered.here (Buffered.writes refl))
  ]
    where
      same :
          (pc : WriterPc)
          → pc ≡ c.writer_pc
          → record (start file flushed) { writer_pc = pc }
            ≡ (view file flushed) opens_file ws (record c { queue = open_queue c.queue })
      same pc e = λ i. record {
        queue = open_queue (sym v.queue i);
        memory = sym v.memory i;
        reader = (start file flushed).reader;
        writer = sym v.writer i;
        reader_pc = sym v.reader_pc i;
        writer_pc = e i;
      }

  WriterSeen-same :
      (ws : WriterStage) {w w' : BufferedFileWriter} {pc pc' : WriterPc}
      → w' ≡ w
      → (pc ≡ test_flag → pc' ≡ test_flag)
      → (WriterSeen file flushed) ws w pc
      → (WriterSeen file flushed) ws w' pc'
  WriterSeen-same creates_file e k (h, h') = (e ∙ h, k h')
  WriterSeen-same announces e k h = k h
  WriterSeen-same writes_file e k h = tt
  WriterSeen-same writer_threw e k h = h

  -- `open` with a source.
  opened : open_reader (some file) (new_reader (length file)) ≡ ok (start file flushed).reader
  unfolding open_reader
  opened = ground arith

  -- A move of the loop of the reading process.
  looped_cases :
      (s : System) (pc : ReaderPc) (x : Option Buffered.System) {t : System}
      → looped s pc x ≡ some t
      → ((pc ≡ read_done) × (record s { reader_stage = wants_writer } ≡ t))
        ⊎ ((d : Buffered.System) × (x ≡ some d)
            × (record s { core = d; reader_stage = reads_file } ≡ t))
  looped_cases s read_done x e = inl (refl, eq_of_some e)
  looped_cases s _ none e = absurd (cc)
  looped_cases s _ (some d) e = inr (d, refl, eq_of_some e)

  pub reader_move-Simulated :
      (s : System) (rs : ReaderStage) {t : System}
      → (Simulated file flushed) rs s.writer_stage s.core
      → reader_move (files file flushed) s rs ≡ some t
      → (Sim file flushed) t
  unfolding reader_move
  reader_move-Simulated s opens_queue (before e0 v w) e =
      subst (Sim file flushed) (eq_of_some e)
        (after (v.reader, v.reader_pc) w (opened-Reach s.writer_stage s.core v))
  reader_move-Simulated s opens_queue (after a w r) e = absurd a
  reader_move-Simulated s opens_file (before e0 v w) e = absurd (cc (e0))
  reader_move-Simulated s opens_file (after a w r) e =
      subst (Sim file flushed)
        (ap (opened_file s) (sym (ap (open_reader (some file)) a.0 ∙ opened)) ∙ eq_of_some e)
        (after tt w r)
  reader_move-Simulated s reads_file (before e0 v w) e = absurd (cc (e0))
  reader_move-Simulated s reads_file (after a w r) e =
      elim (looped_cases s s.core.reader_pc (Buffered.reader_move s.core s.core.reader_pc) e) [
        | inl (pc, h) ↦ subst (Sim file flushed) h (after pc w r)
        | inr (d, m, h) ↦
            let same = reader_move-SameWriter s.core s.core.reader_pc m in
            subst (Sim file flushed) h (
              after tt (WriterSeen-same s.writer_stage same.0 same.1 w) (
                subst (Buffered.Reach (start file flushed))
                  (ap (λ x. record d { writer = (view_writer file flushed) s.writer_stage x })
                    (sym same.0))
                  (Buffered.step r (
                    Buffered.reads (
                      reader_move-writer s.core
                        ((view_writer file flushed) s.writer_stage s.core.writer) s.core.reader_pc
                        m)))))
      ]
  reader_move-Simulated s wants_writer (before e0 v w) e = absurd (cc (e0))
  reader_move-Simulated s wants_writer (after a w r) e =
      subst (Sim file flushed) (eq_of_some e) (tested s.info.is_writing_started)
    where
      tested :
          (started : Bool)
          → (Simulated file flushed)
              (if started then reader_left else sleeps_writer)
              s.writer_stage
              s.core
      tested true = after a w r
      tested false = after a w r
  reader_move-Simulated s sleeps_writer v e = absurd (cc)
  reader_move-Simulated s reader_left v e = absurd (cc)
  reader_move-Simulated s reader_threw v e = absurd (cc)
