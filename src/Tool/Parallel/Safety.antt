-- ===== src/Tool/Parallel/Safety.antt =====
-- src/common/ParallelCopyTool.hpp: what holds of `copy` under every order of the two threads.
use mathlib.Core.Path.{subst, ap₂}
use ki.Prelude.{
  ℕ, ◌+◌, ◌<◌, ◌≡◌, ◌≢◌, refl, sym, ap, ◌∙◌, some, none, Option, List, [], ◌++◌, length, append-nil,
}
use ki.Reader.Buffered.{size_mod}
use ki.Queue.Synchronized.{SynchronizedQueue}
use ki.Reader.Mmap.{MMapFileReader}
use ki.Writer.Mmap.{MMapFileWriter}
use ki.Reader.Mmap.Laws.{rest}
use ki.Tool.Parallel.{
  System, ReaderPc, read_threw, write_done, write_threw, Reach, here, step, start,
}
use ki.Tool.Parallel.Invariant.{
  At, Inv, Phase, WriterPhase, in_flight, joined, closed_rest, start-Inv, reader_hand,
}
use ki.Tool.Parallel.Moves.{Step-Inv}

pub Reach-Inv : {file : List ℕ} {s t : System} → Inv file s → Reach s t → Inv file t
Reach-Inv v here = v
Reach-Inv v (step r st) = Step-Inv st (Reach-Inv v r)

released :
    {file : List ℕ} {q : SynchronizedQueue (List ℕ)} {r : MMapFileReader} {w : MMapFileWriter}
    {rpc : ReaderPc} (d : Option (List ℕ))
    → At file q r w d rpc write_done
    → d ≡ some file
released none v = absurd (v.writer_phase.0 refl)
released {file} {q} {r} {w} {rpc} (some bytes) v =
    ap some (sym (append-nil bytes) ∙ (ap (λ xs. bytes ++ xs) (sym nothing) ∙ v.copied))
  where
    idle : (reader_hand rpc ≡ []) × (rest file r ≡ [])
    idle = closed_rest file q.is_queue_open r rpc v.writer_phase.1 v.phase

    nothing : in_flight q rpc write_done ++ rest file r ≡ []
    nothing = ap₂ ◌++◌ (ap₂ ◌++◌ (ap joined v.writer_phase.2) idle.0) idle.1

module _ {file old : List ℕ} {page : ℕ} (some_page : 0 < page)
    (small : length file + page < size_mod) (resized : length old ≡ length file) {s : System}
    (run : Reach (start file old page) s) where
  inv : Inv file s
  inv = Reach-Inv (start-Inv file old page some_page small resized) run

  -- In every state that ParallelCopyTool reaches from the start of a copy, for a page that is not
  -- empty, a file whose size and one page stay below 2^64, and a destination that ftruncate has made
  -- as long as the source: if the writing thread has ended, then the destination is the source, byte
  -- for byte, whatever it held before.
  pub parallel_copy_correct : s.writer_pc ≡ write_done → s.destination ≡ some file
  parallel_copy_correct e =
      released s.destination
        (subst (At file s.queue s.reader s.writer s.destination s.reader_pc) e inv)

  -- In no state that ParallelCopyTool reaches, for a page that is not empty, a file whose size and
  -- one page stay below 2^64, and a destination as long as the source, has an exception left read or
  -- write: no chunk is too long for the destination.
  pub parallel_never_throws : (s.reader_pc ≢ read_threw) × (s.writer_pc ≢ write_threw)
  parallel_never_throws = (
    λ e. subst (Phase file s.queue.is_queue_open s.reader) e inv.phase,
    λ e. subst (WriterPhase s.queue s.writer s.destination) e inv.writer_phase,
  )
