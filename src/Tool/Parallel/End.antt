-- ===== src/Tool/Parallel/End.antt =====
-- src/common/ParallelCopyTool.hpp: the destructor of ParallelCopyTool. It joins the writing thread and
-- ends the watch; the destructors of MMapFileReader and MMapFileWriter are the default ones, and do
-- nothing to a mapping.
use Prim.Native.String.{String}
use mathlib.Core.Path.{subst}
use ki.Prelude.{
  ℕ, ◌+◌, ◌-◌, ◌<◌, ◌≤◌, ◌≡◌, refl, sym, ap, ◌∙◌, none, some, Option, List, length, eq_of_some,
}
use ki.StopWatch.{StopWatch, Report, create_auto_start_watch, finish}
use ki.StopWatch.Laws.{started, timed, finish-create_auto_start_watch}
use ki.Reader.Buffered.{size_mod}
use ki.Tool.Parallel.{
  System, WriterPc, test_flag, test_queue, want_chunk, sleep_chunk, write_chunk, finish_writing,
  write_done, write_threw, Reach, start,
}
use ki.Tool.Parallel.Safety.{parallel_copy_correct}

-- What the destructor leaves.
pub record Destroyed : Type 0 where
  pub destination : Option (List ℕ)
  pub report : Option Report

-- `none` while the join waits for the writing thread. An exception that has left the thread ends the
-- program.
unfoldable pub destroy : ℕ → StopWatch → System → WriterPc → Option Destroyed
destroy now sw s test_flag = none
destroy now sw s test_queue = none
destroy now sw s want_chunk = none
destroy now sw s sleep_chunk = none
destroy now sw s (write_chunk buf) = none
destroy now sw s finish_writing = none
destroy now sw s write_done = some (record { destination = s.destination; report = finish now sw })
destroy now sw s write_threw = none

-- The destination is the source, and the time is printed.
pub record Leaves (file : List ℕ) (desc : String) (begun now : ℕ) (d : Destroyed) : Type 0 where
  pub copied : d.destination ≡ some file
  pub printed : d.report ≡ some (timed desc (now - begun))

joined :
    (now : ℕ) (sw : StopWatch) (s : System) (w : WriterPc) {d : Destroyed}
    → destroy now sw s w ≡ some d
    → w ≡ write_done
unfolding destroy
joined now sw s write_done e = refl
joined now sw s test_flag e = absurd (cc e)
joined now sw s test_queue e = absurd (cc e)
joined now sw s want_chunk e = absurd (cc e)
joined now sw s sleep_chunk e = absurd (cc e)
joined now sw s (write_chunk buf) e = absurd (cc e)
joined now sw s finish_writing e = absurd (cc e)
joined now sw s write_threw e = absurd (cc e)

-- In every state that ParallelCopyTool reaches from the start of a copy, for a page that is not
-- empty, a file whose size and one page stay below 2^64, a destination that ftruncate has made as
-- long as the source, and a clock that does not go back: if the destructor comes past its join of
-- the writing thread, then the destination is the source, and the watch of the tool prints the whole
-- seconds and milliseconds from its construction on.
pub parallel_destroy-Leaves :
    (file old : List ℕ) (page : ℕ) (desc : String) (begun now : ℕ) {s : System} {d : Destroyed}
    → 0 < page
    → length file + page < size_mod
    → length old ≡ length file
    → begun ≤ now
    → Reach (start file old page) s
    → destroy now (create_auto_start_watch desc begun) s s.writer_pc ≡ some d
    → Leaves file desc begun now d
unfolding destroy
parallel_destroy-Leaves file old page desc begun now {s} {d} some_page small resized time run e =
    let sw = create_auto_start_watch desc begun in
    let done = joined now sw s s.writer_pc e in
    subst (Leaves file desc begun now) (eq_of_some (sym (ap (destroy now sw s) done) ∙ e)) (record {
      copied = parallel_copy_correct some_page small resized run done;
      printed = (finish-create_auto_start_watch desc begun now (started 0) time).1;
    })
