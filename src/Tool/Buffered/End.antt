-- ===== src/Tool/Buffered/End.antt =====
-- src/common/BufferedParallelCopyTool.hpp: the destructor of BPCopyTool, which destroys its members
-- from the last one to the first: it joins the writing thread, gives the queue up, and ends with
-- `~BufferedFileWriter`, `~BufferedReader` and `~StopWatch`.
use Prim.Native.String.{String}
use mathlib.Core.Path.{subst}
use ki.Prelude.{
  ℕ, ◌+◌, ◌-◌, ◌<◌, ◌≤◌, ◌≡◌, refl, sym, ap, ◌∙◌, true, none, some, Option, List, length,
  eq_of_some,
}
use ki.Stdio.{DiskFile}
use ki.StopWatch.{StopWatch, Report, create_auto_start_watch, finish}
use ki.StopWatch.Laws.{started, timed, finish-create_auto_start_watch}
use ki.Queue.Buffer.{buffer_size}
use ki.Reader.Buffered.{BufferedReader, close_reader, end_reader, size_mod}
use ki.Writer.Buffered.{BufferedFileWriter, end_writer}
use ki.Writer.Buffered.Laws.{finish_write-written}
use ki.Tool.Buffered.{
  System, WriterPc, test_flag, test_queue, want_filled, sleep_filled, write_chunk, give_free,
  write_done, read_done, Reach, start,
}
use ki.Tool.Buffered.Start.{start-Inv}
use ki.Tool.Buffered.Safety.{Reach-Inv, copy_correct}

-- What the destructor leaves.
pub record Destroyed : Type 0 where
  pub writer : BufferedFileWriter
  pub file : Option DiskFile
  pub reader : BufferedReader
  pub report : Option Report

-- `none` while the join waits for the writing thread.
unfoldable pub destroy : ℕ → StopWatch → System → WriterPc → Option Destroyed
destroy now sw s test_flag = none
destroy now sw s test_queue = none
destroy now sw s want_filled = none
destroy now sw s sleep_filled = none
destroy now sw s (write_chunk b) = none
destroy now sw s (give_free b) = none
destroy now sw s write_done = some (record {
  writer = (end_writer s.writer).0;
  file = (end_writer s.writer).1;
  reader = end_reader s.reader;
  report = finish now sw;
})

-- The files are closed, the destination is the source, and the time is printed.
pub record Leaves (file : List ℕ) (desc : String) (begun now : ℕ) (s : System) (d : Destroyed)
    : Type 0 where
  pub after_copy : s.reader_pc ≡ read_done
  pub disk : DiskFile
  pub written : d.file ≡ some disk
  pub copied : disk.contents ≡ file
  pub closed :
      (d.writer.stream ≡ none) × (d.writer.write_finished ≡ true) × (d.reader.stream ≡ none)
  pub printed : d.report ≡ some (timed desc (now - begun))

joined :
    (now : ℕ) (sw : StopWatch) (s : System) (w : WriterPc) {d : Destroyed}
    → destroy now sw s w ≡ some d
    → w ≡ write_done
unfolding destroy
joined now sw s write_done e = refl
joined now sw s test_flag e = absurd (cc e)
joined now sw s test_queue e = absurd (cc e)
joined now sw s want_filled e = absurd (cc e)
joined now sw s sleep_filled e = absurd (cc e)
joined now sw s (write_chunk b) e = absurd (cc e)
joined now sw s (give_free b) e = absurd (cc e)

-- In every state that BPCopyTool reaches from the start of a copy, for a file whose size and one
-- block stay below 2^64, and a clock that does not go back: if the destructor comes past its join of
-- the writing thread, then the reading thread has left copy, the destination has exactly the bytes
-- of the source, both streams are closed, and the watch of the tool prints the whole seconds and
-- milliseconds from its construction on.
pub destroy-Leaves :
    (file : List ℕ) (flushed : List ℕ → ℕ) (desc : String) (begun now : ℕ) {s : System}
    {d : Destroyed}
    → length file + buffer_size < size_mod
    → begun ≤ now
    → Reach (start file flushed) s
    → destroy now (create_auto_start_watch desc begun) s s.writer_pc ≡ some d
    → Leaves file desc begun now s d
unfolding destroy close_reader
destroy-Leaves file flushed desc begun now {s} {d} small time run e =
    let sw = create_auto_start_watch desc begun in
    let done = joined now sw s s.writer_pc e in
    let right = copy_correct small run done in
    let closes = finish_write-written (Reach-Inv (start-Inv file flushed small) run).writing in
    subst (Leaves file desc begun now s) (eq_of_some (sym (ap (destroy now sw s) done) ∙ e))
      (record {
        after_copy = right.0;
        disk = right.1.0;
        written = right.1.1;
        copied = right.1.2;
        closed = (ap (λ p. p.0.stream) closes.1, ap (λ p. p.0.write_finished) closes.1, refl);
        printed = (finish-create_auto_start_watch desc begun now (started 0) time).1;
      })
