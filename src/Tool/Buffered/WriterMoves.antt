-- ===== src/Tool/Buffered/WriterMoves.antt =====
-- src/common/BufferedParallelCopyTool.hpp: every move of the writing thread keeps the invariant.
use mathlib.Core.Path.{subst}
use ki.Prelude.{
  ℕ, ◌≡◌, refl, sym, ap, ◌∙◌, Bool, true, false, some, List, ◌∷◌, ◌++◌, arith, count, if◌then◌else◌,
  append_assoc, eq_of_some,
}
use ki.Queue.Buffer.{Buffer, write, Memory, payload, set_type}
use ki.Queue.Fixed.{FixedBufferQueue, return_buffer, is_empty}
use ki.Queue.Fixed.Laws.{
  addresses, held-return_buffer, return_buffer-write, sleeps, refuses, hands,
  get_filled_buffer-outcome,
}
use ki.Reader.Buffered.{BufferedReader}
use ki.Reader.Buffered.Chunk.{rest}
use ki.Writer.Buffered.{BufferedFileWriter, written, write_bytes}
use ki.Writer.Buffered.Laws.{write_bytes-IsWriting, written-write_bytes}
use ki.Tool.Buffered.{
  System, ReaderPc, loop_test, WriterPc, test_flag, test_queue, want_filled, sleep_filled,
  write_chunk, give_free, write_done, take_filled, writer_move, notify_reader,
}
use ki.Tool.Buffered.Invariant.{
  At, Inv, payloads, reader_hand, reader_full, writer_hand, writer_full, Phase, WriterPhase,
}

-- A notification changes neither what the reading thread holds nor what it knows.
record Notified (file : List ℕ) (o : Bool) (r : BufferedReader) (rpc : ReaderPc) : Type 0 where
  hand : reader_hand (notify_reader rpc) ≡ reader_hand rpc
  full : reader_full (notify_reader rpc) ≡ reader_full rpc
  phase : Phase file o r rpc → Phase file o r (notify_reader rpc)

notify_reader-Notified :
    (file : List ℕ) (o : Bool) (r : BufferedReader) (rpc : ReaderPc) → Notified file o r rpc
notify_reader-Notified file o r loop_test = record { hand = refl; full = refl; phase = λ h. h }
notify_reader-Notified file o r _ = record { hand = refl; full = refl; phase = λ h. h }

module _ {file : List ℕ} {q : FixedBufferQueue} {mem : Memory} {r : BufferedReader}
    {w : BufferedFileWriter} {rpc : ReaderPc} where
  -- Between two points at which the thread holds the same.
  stroll-At :
      {wpc wpc' : WriterPc}
      → writer_hand wpc' ≡ writer_hand wpc
      → writer_full wpc' ≡ writer_full wpc
      → WriterPhase q wpc'
      → At file q mem r w rpc wpc
      → At file q mem r w rpc wpc'
  stroll-At same_hand same_full p v = record {
    reading = v.reading;
    writing = v.writing;
    kept = λ a. rw same_hand (v.kept a);
    copied = rw same_full v.copied;
    phase = v.phase;
    writer_phase = p;
  }

  tested_flag-At :
      (ended : Bool)
      → At file q mem r w rpc test_flag
      → At file q mem r w rpc (if ended then test_queue else want_filled)
  tested_flag-At true = stroll-At refl refl tt
  tested_flag-At false = stroll-At refl refl tt

  write_chunk-At :
      (b : Buffer)
      → At file q mem r w rpc (write_chunk b)
      → At file q mem r (write_bytes mem b w) rpc (give_free b)
  write_chunk-At b v = record {
    reading = v.reading;
    writing = write_bytes-IsWriting mem b v.writing;
    kept = v.kept;
    copied =
        rw (written-write_bytes mem b v.writing, append_assoc (written w) (payload mem b))
          (rw (append_assoc (payload mem b)) at v.copied);
    phase = v.phase;
    writer_phase = v.writer_phase;
  }

  give_free-At :
      (b : Buffer)
      → At file q mem r w rpc (give_free b)
      → At file (return_buffer q b) mem r w (notify_reader rpc) test_flag
  give_free-At b v = record {
    reading = v.reading;
    writing = v.writing;
    kept = λ a. rw n.hand (omega (arith, held-return_buffer a q b, v.kept a));
    copied = rw (n.full, return_buffer-write q b v.writer_phase) v.copied;
    phase = rw (return_buffer-write q b v.writer_phase) (n.phase v.phase);
    writer_phase = tt;
  }
    where
      n : Notified file q.is_open r rpc
      n = notify_reader-Notified file q.is_open r rpc

  got_filled-At :
      (l : List Buffer) (b : Buffer)
      → q.write_buffers ≡ b ∷ l
      → At file q mem r w rpc want_filled
      → At file (record q { write_buffers = l }) mem r w rpc (write_chunk (set_type write b))
  got_filled-At l b e v = record {
    reading = v.reading;
    writing = v.writing;
    kept = λ a. omega (arith, v.kept a, ap (λ xs. count a (addresses xs)) e);
    copied =
        (ap (λ xs. written w ++ (payloads mem (xs ++ reader_full rpc) ++ rest file r)) (sym e)
          ∙ v.copied);
    phase = v.phase;
    writer_phase = refl;
  }

  tested_queue-At :
      (empty : Bool)
      → is_empty q ≡ empty
      → At file q mem r w rpc test_queue
      → At file q mem r w rpc (if empty then write_done else want_filled)
  unfolding is_empty
  tested_queue-At true e = stroll-At refl refl (ground arith, ground arith)
  tested_queue-At false e = stroll-At refl refl tt

-- The invariant after a move of the writing thread, by where it stands.
move-Inv :
    {file : List ℕ} (s : System) (wpc : WriterPc) {t : System}
    → At file s.queue s.memory s.reader s.writer s.reader_pc wpc
    → writer_move s wpc ≡ some t
    → Inv file t
unfolding writer_move
move-Inv {file} s test_flag v e =
    subst (Inv file) (eq_of_some e) (tested_flag-At s.reader.read_finished v)
move-Inv {file} s test_queue v e =
    subst (Inv file) (eq_of_some e) (tested_queue-At (is_empty s.queue) refl v)
move-Inv {file} s want_filled v e = elim (get_filled_buffer-outcome s.queue) [
  | sleeps h o g ↦
      subst (Inv file) (ap (take_filled s) (sym g) ∙ eq_of_some e) (stroll-At refl refl tt v)
  | refuses h o g ↦
      subst (Inv file) (ap (take_filled s) (sym g) ∙ eq_of_some e) (stroll-At refl refl tt v)
  | hands l b h g ↦
      subst (Inv file) (ap (take_filled s) (sym g) ∙ eq_of_some e) (got_filled-At l b h v)
]
move-Inv s sleep_filled v e = absurd (cc)
move-Inv {file} s (write_chunk b) v e = subst (Inv file) (eq_of_some e) (write_chunk-At b v)
move-Inv {file} s (give_free b) v e = subst (Inv file) (eq_of_some e) (give_free-At b v)
move-Inv s write_done v e = absurd (cc)

-- Every move of the writing thread keeps the invariant.
pub writer_move-Inv :
    {file : List ℕ} {s t : System} → Inv file s → writer_move s s.writer_pc ≡ some t → Inv file t
writer_move-Inv {s} v e = move-Inv s s.writer_pc v e

-- So does a wait of the writing thread that ends without a notification.
pub woken-Inv :
    {file : List ℕ} (s : System)
    → Inv file s
    → s.writer_pc ≡ sleep_filled
    → Inv file (record s { writer_pc = want_filled })
woken-Inv s v e = stroll-At (ap writer_hand (sym e)) (ap writer_full (sym e)) tt v
