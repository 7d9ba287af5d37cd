-- ===== src/Tool/Parallel/Moves.antt =====
-- src/common/ParallelCopyTool.hpp: every move of the two threads keeps the invariant.
use mathlib.Core.Path.{subst}
use ki.Prelude.{ℕ, ◌≡◌, refl, sym, ap, ◌∙◌, some, none, Option, List, eq_of_some}
use ki.Queue.Synchronized.{SynchronizedQueue, is_empty}
use ki.Queue.Synchronized.Laws.{sleeps, refuses, hands, pop-outcome}
use ki.Reader.Mmap.{MMapFileReader}
use ki.Reader.Mmap.Laws.{read-Chunk}
use ki.Writer.Mmap.{MMapFileWriter}
use ki.Writer.Mmap.Laws.{write-Added}
use ki.Tool.Parallel.{
  System, ReaderPc, loop_test, read_chunk, push_chunk, close_queue, finish_reading, read_done,
  read_threw, WriterPc, test_flag, test_queue, want_chunk, sleep_chunk, write_chunk, finish_writing,
  write_done, write_threw, after_read, reader_move, take_chunk, after_write, writer_move, Step,
  reads, writes, wakes,
}
use ki.Tool.Parallel.Invariant.{At, Inv}
use ki.Tool.Parallel.Parts.{
  loop_test-At, read_chunk-At, push_chunk-At, close_queue-At, finish_reading-At, stroll-At,
  tested_flag-At, tested_queue-At, got_chunk-At, room, written_chunk-At, finished-At,
}

-- The invariant after a move of the reading thread, by where it stands.
reader_move-Inv :
    {file : List ℕ} (s : System) (rpc : ReaderPc) {t : System}
    → At file s.queue s.reader s.writer s.destination rpc s.writer_pc
    → reader_move s rpc ≡ some t
    → Inv file t
unfolding reader_move
reader_move-Inv {file} s loop_test v e =
    subst (Inv file) (eq_of_some e) (loop_test-At v s.reader.read_finished refl)
reader_move-Inv {file} s read_chunk v e =
    let c = read-Chunk v.phase.1 in
    subst (Inv file) (ap (after_read s) (sym c.given) ∙ eq_of_some e) (read_chunk-At v c)
reader_move-Inv {file} s (push_chunk buf) v e =
    subst (Inv file) (eq_of_some e) (push_chunk-At buf v)
reader_move-Inv {file} s close_queue v e = subst (Inv file) (eq_of_some e) (close_queue-At v)
reader_move-Inv {file} s finish_reading v e = subst (Inv file) (eq_of_some e) (finish_reading-At v)
reader_move-Inv s read_done v e = absurd (cc)
reader_move-Inv s read_threw v e = absurd v.phase

-- The same with a destination that is known not to be released.
pub unreleased :
    {file : List ℕ} {q : SynchronizedQueue (List ℕ)} {r : MMapFileReader} {w : MMapFileWriter}
    {d : Option (List ℕ)} {rpc : ReaderPc} {wpc : WriterPc}
    → d ≡ none
    → At file q r w d rpc wpc
    → At file q r w none rpc wpc
unreleased {file} {q} {r} {w} {rpc} {wpc} e v = subst (λ d. At file q r w d rpc wpc) e v

-- The invariant after a move of the writing thread, by where it stands.
writer_move-Inv :
    {file : List ℕ} (s : System) (wpc : WriterPc) {t : System}
    → At file s.queue s.reader s.writer s.destination s.reader_pc wpc
    → writer_move s wpc ≡ some t
    → Inv file t
unfolding writer_move
writer_move-Inv {file} s test_flag v e =
    subst (Inv file) (eq_of_some e) (tested_flag-At s.reader.read_finished v)
writer_move-Inv {file} s test_queue v e =
    subst (Inv file) (eq_of_some e) (tested_queue-At (is_empty s.queue) refl v)
writer_move-Inv {file} s want_chunk v e = elim (pop-outcome s.queue) [
  | sleeps h o g ↦
      subst (Inv file) (ap (take_chunk s) (sym g) ∙ eq_of_some e) (stroll-At refl v.writer_phase v)
  | refuses h o g ↦
      subst (Inv file) (ap (take_chunk s) (sym g) ∙ eq_of_some e)
        (stroll-At refl (v.writer_phase, o, h) v)
  | hands buf l h g ↦
      subst (Inv file) (ap (take_chunk s) (sym g) ∙ eq_of_some e) (got_chunk-At l buf h v)
]
writer_move-Inv s sleep_chunk v e = absurd (cc)
writer_move-Inv {file} s (write_chunk buf) v e =
    let v' = unreleased v.writer_phase.1 v in
    let a = write-Added buf v'.writer_phase.0 (room buf v') in
    subst (Inv file) (ap (after_write s) (sym a.done) ∙ eq_of_some e) (
      subst (λ d. At file s.queue s.reader a.writer d s.reader_pc test_flag) (sym v.writer_phase.1)
        (written_chunk-At buf v' a))
writer_move-Inv {file} s finish_writing v e =
    subst (Inv file) (eq_of_some e) (finished-At (unreleased v.writer_phase.0.1 v))
writer_move-Inv s write_done v e = absurd (cc)
writer_move-Inv s write_threw v e = absurd v.writer_phase

-- Every move of a thread, and every end of a wait, keeps the invariant.
pub Step-Inv : {file : List ℕ} {s t : System} → Step s t → Inv file s → Inv file t
Step-Inv {s} (reads e) v = reader_move-Inv s s.reader_pc v e
Step-Inv {s} (writes e) v = writer_move-Inv s s.writer_pc v e
Step-Inv {file} {s} (wakes e) v =
    let asleep = subst (λ pc. At file s.queue s.reader s.writer s.destination s.reader_pc pc) e v in
    stroll-At refl asleep.writer_phase asleep
