-- ===== src/Tool/Parallel/Progress.antt =====
-- src/common/ParallelCopyTool.hpp: the way from a reachable state to the end of the copy.
use mathlib.Core.Path.{subst}
use ki.Prelude.{ℕ, zero, suc, ◌+◌, ◌<◌, ◌≡◌, refl, ap, ◌⊎◌, inl, inr, false, List, length, arith}
use ki.Reader.Buffered.{size_mod}
use ki.Tool.Parallel.{
  System, ReaderPc, read_done, WriterPc, want_chunk, sleep_chunk, write_done, Step, reads, writes,
  wakes, Reach, here, step, start,
}
use ki.Tool.Parallel.Invariant.{Inv, Phase, start-Inv}
use ki.Tool.Parallel.Moves.{Step-Inv}
use ki.Tool.Parallel.Safety.{Reach-Inv}
use ki.Tool.Parallel.Measure.{to_go, writer_weight, reader-nearer, writer-nearer}

abbrev Forward : List ℕ → System → Type 0
Forward file s = (t : System) × Step s t × (to_go file t < to_go file s)

abbrev HasEnded : System → Type 0
HasEnded s = (s.reader_pc ≡ read_done) × (s.writer_pc ≡ write_done)

module _ {file : List ℕ} {s : System} (v : Inv file s) where
  wake_writer : s.writer_pc ≡ sleep_chunk → Forward file s
  wake_writer e =
      (record s { writer_pc = want_chunk }, wakes e, rw (ap writer_weight e) (omega arith))

  -- After the reading thread, the writing one goes on.
  drains :
      (wpc : WriterPc)
      → s.writer_pc ≡ wpc
      → s.reader_pc ≡ read_done
      → s.queue.is_queue_open ≡ false
      → HasEnded s ⊎ Forward file s
  drains write_done e er closed = inl (er, e)
  drains sleep_chunk e er closed = inr (wake_writer e)
  drains wpc e er closed =
      let (t, m, less) = writer-nearer file s s.writer_pc closed (λ h. cc) (λ h. cc) v in
      inr (t, writes m, less)

  -- Either both threads have ended, or a move lowers the bound.
  forward : (rpc : ReaderPc) → s.reader_pc ≡ rpc → HasEnded s ⊎ Forward file s
  forward read_done e =
      drains s.writer_pc refl e (subst (Phase file s.queue.is_queue_open s.reader) e v.phase).0
  forward rpc e =
      let (t, m, less) = reader-nearer file s s.reader_pc (λ h. cc) v in inr (t, reads m, less)

-- A run from a state to one in which both threads have ended.
abbrev pub Finishes : System → Type 0
Finishes s = (t : System) × Reach s t × (t.reader_pc ≡ read_done) × (t.writer_pc ≡ write_done)

Finishes-within :
    (file : List ℕ) (fuel : ℕ) (s t : System)
    → Inv file t
    → to_go file t < fuel
    → Reach s t
    → Finishes s
Finishes-within file zero s t v h r = absurd (omega arith)
Finishes-within file (suc fuel) s t v h r = elim (forward v t.reader_pc refl) [
  | inl (er, ew) ↦ (t, r, er, ew)
  | inr (u, n, less) ↦ Finishes-within file fuel s u (Step-Inv n v) (omega arith) (step r n)
]

-- From every state that ParallelCopyTool reaches from the start of a copy, for a page that is not
-- empty, a file whose size and one page stay below 2^64, and a destination as long as the source, a
-- state is reachable in which both threads have ended; a wait may have to end without a notification
-- on the way.
pub parallel_copy_can_finish :
    (file old : List ℕ) (page : ℕ) (s : System)
    → 0 < page
    → length file + page < size_mod
    → length old ≡ length file
    → Reach (start file old page) s
    → Finishes s
parallel_copy_can_finish file old page s some_page small resized run =
    let v = Reach-Inv (start-Inv file old page some_page small resized) run in
    Finishes-within file (suc (to_go file s)) s s v (omega arith) here
