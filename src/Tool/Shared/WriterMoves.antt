-- ===== src/Tool/Shared/WriterMoves.antt =====
-- src/common/IPCTool.hpp: a move of the writing process is at most two of the writing thread.
use mathlib.Core.Path.{subst}
use ki.Prelude.{
  ℕ, ◌+◌, ◌<◌, ◌≡◌, ◌≢◌, refl, sym, ap, ◌∙◌, inl, inr, Bool, true, false, none, some, Option, List,
  length, eq_of_some, if◌then◌else◌,
}
use ki.Error.{ok}
use ki.Queue.Buffer.{buffer_size}
use ki.Queue.Fixed.{FixedBufferQueue, init, get_filled_buffer}
use ki.Queue.Fixed.Laws.{is_empty-open}
use ki.Reader.Buffered.{BufferedReader, size_mod}
use ki.Writer.Buffered.{new_writer, create}
use ki.Tool.Buffered
use ki.Tool.Buffered.{
  ReaderPc, loop_test, want_free, sleep_free, fill_chunk, set_flag, tell_queue, give_filled,
  close_queue, read_done, threw, WriterPc, test_flag, test_queue, want_filled, sleep_filled,
  write_chunk, give_free, write_done, zeroed, start, wakes_reader, wakes_writer, take_filled,
  notify_reader,
}
use ki.Tool.Buffered.Flags.{unflagged-open, flagged-ended}
use ki.Tool.Shared.{
  System, ReaderStage, opens_queue, opens_file, reads_file, wants_writer, sleeps_writer,
  reader_left, reader_threw, WriterStage, creates_file, announces, writes_file, writer_threw,
  writer_move, loop_move, with_core, created_file, notify_started,
}
use ki.Tool.Shared.Commute.{writer_move-reader, SameReader, writer_move-SameReader}
use ki.Tool.Shared.Simulation.{
  files, view_reader, view, ReaderSeen, Unopened, Simulated, before, after, Sim,
}

module _ (file : List ℕ) (flushed : List ℕ → ℕ) where
  ReaderSeen-same :
      (rs : ReaderStage) {r r' : BufferedReader} {pc pc' : ReaderPc}
      → r' ≡ r
      → ((x : ReaderPc) → notify_reader x ≡ x → pc ≡ x → pc' ≡ x)
      → (ReaderSeen file flushed) rs r pc
      → (ReaderSeen file flushed) rs r' pc'
  ReaderSeen-same opens_queue e k h = h
  ReaderSeen-same opens_file e k (h, h') = (e ∙ h, k loop_test refl h')
  ReaderSeen-same reads_file e k h = tt
  ReaderSeen-same wants_writer e k h = k read_done refl h
  ReaderSeen-same sleeps_writer e k h = k read_done refl h
  ReaderSeen-same reader_left e k h = k read_done refl h
  ReaderSeen-same reader_threw e k h = h

  ReaderSeen-notify :
      (rs : ReaderStage) (r : BufferedReader) (pc : ReaderPc)
      → (ReaderSeen file flushed) rs r pc
      → (ReaderSeen file flushed) (notify_started rs) r pc
  ReaderSeen-notify opens_queue r pc h = h
  ReaderSeen-notify sleeps_writer r pc h = h
  ReaderSeen-notify _ r pc h = h

  view_reader-notify :
      (rs : ReaderStage) (r : BufferedReader)
      → (view_reader file flushed) rs r ≡ (view_reader file flushed) (notify_started rs) r
  view_reader-notify sleeps_writer r = refl
  view_reader-notify _ r = refl

  -- `create` with a destination.
  created : create (some flushed) true new_writer ≡ ok (start file flushed).writer
  unfolding create
  created = refl

  -- A move of the loop of the writing process.
  with_core_cases :
      (s : System) (x : Option Buffered.System) {t : System}
      → with_core s x ≡ some t
      → (d : Buffered.System) × (x ≡ some d)
        × (record s { core = d; writer_stage = writes_file } ≡ t)
  with_core_cases s none e = absurd (cc)
  with_core_cases s (some d) e = (d, refl, eq_of_some e)

  -- Before the queue is open, the writing process goes round without a change.
  idle_move :
      (c d : Buffered.System)
      → (Unopened file flushed) writes_file c
      → loop_move c c.writer_pc ≡ some d
      → (Unopened file flushed) writes_file d
  unfolding loop_move Buffered.writer_move get_filled_buffer init
  idle_move c d v e = elim v.writer_pc [
    | inl h ↦
        subst ((Unopened file flushed) writes_file)
          (eq_of_some (
            ap
              (λ (q : FixedBufferQueue).
                some
                  (record c { writer_pc = if q.is_read_finished then test_queue else want_filled }))
              (sym v.queue)
            ∙ (ap (loop_move c) (sym h) ∙ e)))
          (record {
            queue = v.queue;
            memory = v.memory;
            reader = v.reader;
            reader_pc = v.reader_pc;
            writer = v.writer;
            writer_pc = inr refl;
          })
    | inr h ↦
        subst ((Unopened file flushed) writes_file)
          (eq_of_some (
            ap (λ (q : FixedBufferQueue). some (take_filled c (get_filled_buffer q))) (sym v.queue)
            ∙ (ap (loop_move c) (sym h) ∙ e)))
          (record {
            queue = refl;
            memory = v.memory;
            reader = v.reader;
            reader_pc = v.reader_pc;
            writer = v.writer;
            writer_pc = inl refl;
          })
  ]

  module _ (small : length file + buffer_size < size_mod) where
    loop_other :
        (rs : ReaderStage) (c d : Buffered.System) (pc : WriterPc)
        → pc ≢ test_flag
        → Buffered.Reach (start file flushed) ((view file flushed) rs writes_file c)
        → c.writer_pc ≡ pc
        → Buffered.writer_move c pc ≡ some d
        → Buffered.Reach (start file flushed) ((view file flushed) rs writes_file d)
          × SameReader c d
    loop_other rs c d pc n r e h =
        let same = writer_move-SameReader c pc h in
        (
          subst (Buffered.Reach (start file flushed))
              (ap (λ x. record d { reader = (view_reader file flushed) rs x }) (sym same.0))
              (Buffered.step r (
                Buffered.writes (
                  ap (Buffered.writer_move ((view file flushed) rs writes_file c)) e
                  ∙ writer_move-reader c ((view_reader file flushed) rs c.reader) pc n h))),
          same,
        )

    -- A move of the loop of the writing process is one or two moves of the writing thread.
    loop_move-Reach :
        (rs : ReaderStage) (c d : Buffered.System) (pc : WriterPc)
        → Buffered.Reach (start file flushed) ((view file flushed) rs writes_file c)
        → c.writer_pc ≡ pc
        → loop_move c pc ≡ some d
        → Buffered.Reach (start file flushed) ((view file flushed) rs writes_file d)
          × SameReader c d
    unfolding loop_move Buffered.writer_move
    loop_move-Reach rs c d test_flag r e h = split c.queue.is_read_finished refl
      where
        b : Buffered.System
        b = (view file flushed) rs writes_file c

        result : Buffered.System → Type 0
        result d =
            Buffered.Reach (start file flushed) ((view file flushed) rs writes_file d)
            × SameReader c d

        to : WriterPc → Buffered.System
        to pc = record c { writer_pc = pc }

        to_d :
            (f : Bool)
            → c.queue.is_read_finished ≡ f
            → to (if f then test_queue else want_filled) ≡ d
        to_d f g =
            eq_of_some
              (ap (λ (x : Bool). some (to (if x then test_queue else want_filled))) (sym g) ∙ h)

        tested :
            (ended : Bool)
            → b.reader.read_finished ≡ ended
            → Buffered.writer_move b b.writer_pc
              ≡ some (record b { writer_pc = if ended then test_queue else want_filled })
        tested ended g =
            ap (Buffered.writer_move b) e
            ∙ ap
                (λ (x : Bool).
                  some (record b { writer_pc = if x then test_queue else want_filled }))
                g

        wanted :
            (ended : Bool)
            → b.reader.read_finished ≡ ended
            → c.queue.is_read_finished ≡ false
            → Buffered.Reach
                (start file flushed)
                ((view file flushed) rs writes_file (to want_filled))
        wanted false g f = Buffered.step r (Buffered.writes (tested false g))
        wanted true g f = Buffered.step (Buffered.step r (Buffered.writes (tested true g))) (
            Buffered.writes (
              ap
                (λ (x : Bool).
                  some (record b { writer_pc = if x then write_done else want_filled }))
                (is_empty-open b.queue (unflagged-open small r f))))

        split : (f : Bool) → c.queue.is_read_finished ≡ f → result d
        split true f = subst result (to_d true f) (
          Buffered.step r (Buffered.writes (tested true (flagged-ended small r f))),
          (refl, λ x n k. k),
        )
        split false f =
            subst result (to_d false f) (wanted b.reader.read_finished refl f, (refl, λ x n k. k))
    loop_move-Reach rs c d pc r e h = loop_other rs c d pc (λ k. cc) r e h

    pub writer_move-Simulated :
        (s : System) (ws : WriterStage) {t : System}
        → (Simulated file flushed) s.reader_stage ws s.core
        → writer_move (files file flushed) s ws ≡ some t
        → (Sim file flushed) t
    unfolding writer_move
    writer_move-Simulated s creates_file (before e0 v w) e =
        subst (Sim file flushed)
          (ap (created_file s) (sym (ap (create (some flushed) true) w.0 ∙ created)) ∙ eq_of_some e)
          (before e0
            (record {
              queue = v.queue;
              memory = v.memory;
              reader = v.reader;
              reader_pc = v.reader_pc;
              writer = refl;
              writer_pc = v.writer_pc;
            })
            w.1)
    writer_move-Simulated s creates_file (after a w r) e =
        subst (Sim file flushed)
          (ap (created_file s) (sym (ap (create (some flushed) true) w.0 ∙ created)) ∙ eq_of_some e)
          (after a w.1 r)
    writer_move-Simulated s announces (before e0 v w) e = subst (Sim file flushed) (eq_of_some e) (
        before (ap notify_started e0)
          (record {
            queue = v.queue;
            memory = v.memory;
            reader = v.reader;
            reader_pc = v.reader_pc;
            writer = v.writer;
            writer_pc = v.writer_pc;
          })
          tt)
    writer_move-Simulated s announces (after a w r) e = subst (Sim file flushed) (eq_of_some e) (
        after (ReaderSeen-notify s.reader_stage s.core.reader s.core.reader_pc a) tt (
          subst (Buffered.Reach (start file flushed))
            (ap (λ x. record s.core { reader = x })
              (view_reader-notify s.reader_stage s.core.reader))
            r))
    writer_move-Simulated s writes_file (before e0 v w) e =
        let (d, m, h) = with_core_cases s (loop_move s.core s.core.writer_pc) e in
        subst (Sim file flushed) h (before e0 (idle_move s.core d v m) tt)
    writer_move-Simulated s writes_file (after a w r) e =
        let (d, m, h) = with_core_cases s (loop_move s.core s.core.writer_pc) e in
        let moved = loop_move-Reach s.reader_stage s.core d s.core.writer_pc r refl m in
        subst (Sim file flushed) h
          (after (ReaderSeen-same s.reader_stage moved.1.0 moved.1.1 a) tt moved.0)
    writer_move-Simulated s writer_threw v e = absurd (cc)
