-- ===== src/Tool/Buffered/ReaderMoves.antt =====
-- src/common/BufferedParallelCopyTool.hpp: every move of the reading thread keeps the invariant.
use ki.Prelude.{ℕ, ◌≡◌, refl, sym, ap, ◌∙◌, some, List, eq_of_some}
use mathlib.Core.Path.{subst}
use ki.Queue.Buffer.{Memory}
use ki.Queue.Fixed.{FixedBufferQueue}
use ki.Queue.Fixed.Laws.{sleeps, refuses, hands, get_free_buffer-outcome}
use ki.Reader.Buffered.{BufferedReader, at_end}
use ki.Reader.Buffered.Chunk.{fill-Chunk}
use ki.Writer.Buffered.{BufferedFileWriter}
use ki.Tool.Buffered.{
  System, ReaderPc, loop_test, want_free, sleep_free, fill_chunk, set_flag, tell_queue, give_filled,
  close_queue, read_done, threw, WriterPc, take_free, after_fill, reader_move,
}
use ki.Tool.Buffered.Invariant.{At, Inv}
use ki.Tool.Buffered.ReaderParts.{
  filled-At, loop_test-At, sleeping-At, got_free-At, set_flag-At, tell_queue-At, give_filled-At,
  close_queue-At,
}

-- The invariant after a move of the reading thread, by where it stands.
move-Inv :
    {file : List ℕ} (s : System) (rpc : ReaderPc) {t : System}
    → At file s.queue s.memory s.reader s.writer rpc s.writer_pc
    → reader_move s rpc ≡ some t
    → Inv file t
unfolding reader_move
move-Inv {file} s loop_test v e =
    subst (Inv file) (eq_of_some e) (loop_test-At v s.reader.read_finished refl)
move-Inv {file} s want_free v e = elim (get_free_buffer-outcome s.queue) [
  | sleeps h o g ↦ subst (Inv file) (ap (take_free s) (sym g) ∙ eq_of_some e) (sleeping-At v)
  | refuses h o g ↦ absurd (cc (v.phase.0))
  | hands l b h g ↦ subst (Inv file) (ap (take_free s) (sym g) ∙ eq_of_some e) (got_free-At l b h v)
]
move-Inv s sleep_free v e = absurd (cc)
move-Inv {file} s (fill_chunk b) v e =
    let c = fill-Chunk v.reading s.memory b in
    subst (Inv file) (ap (after_fill s) (sym c.filled) ∙ eq_of_some e)
      (filled-At v c (at_end c.reader) refl)
move-Inv {file} s (set_flag b) v e = subst (Inv file) (eq_of_some e) (set_flag-At b v)
move-Inv {file} s (tell_queue b) v e = subst (Inv file) (eq_of_some e) (tell_queue-At b v)
move-Inv {file} s (give_filled b) v e = subst (Inv file) (eq_of_some e) (give_filled-At b v)
move-Inv {file} s close_queue v e = subst (Inv file) (eq_of_some e) (close_queue-At v)
move-Inv s read_done v e = absurd (cc)
move-Inv s threw v e = absurd v.phase

-- Every move of the reading thread keeps the invariant.
pub reader_move-Inv :
    {file : List ℕ} {s t : System} → Inv file s → reader_move s s.reader_pc ≡ some t → Inv file t
reader_move-Inv {s} v e = move-Inv s s.reader_pc v e

waking-At :
    {file : List ℕ} {q : FixedBufferQueue} {mem : Memory} {r : BufferedReader}
    {w : BufferedFileWriter} {wpc : WriterPc}
    → At file q mem r w sleep_free wpc
    → At file q mem r w want_free wpc
waking-At v = record {
  reading = v.reading;
  writing = v.writing;
  kept = v.kept;
  copied = v.copied;
  phase = v.phase;
  writer_phase = v.writer_phase;
}

-- So does a wait of the reading thread that ends without a notification.
pub woken-Inv :
    {file : List ℕ} (s : System)
    → Inv file s
    → s.reader_pc ≡ sleep_free
    → Inv file (record s { reader_pc = want_free })
woken-Inv {file} s v e =
    waking-At (subst (λ pc. At file s.queue s.memory s.reader s.writer pc s.writer_pc) e v)
