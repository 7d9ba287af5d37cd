-- ===== src/Tool/Buffered/Awake.antt =====
-- src/common/BufferedParallelCopyTool.hpp: runs without spurious ends of waits, and the moves after
-- which both threads are awake.
use mathlib.Core.Path.{subst}
use ki.Prelude.{
  ◌≡◌, ◌≢◌, refl, sym, ap, ◌∙◌, Bool, true, false, Option, none, some, arith, eq_of_some,
}
use ki.Error.{Result, ok, err}
use ki.Queue.Wait.{returned}
use ki.Queue.Buffer.{Buffer, Memory}
use ki.Queue.Fixed.{FixedBufferQueue, get_filled_buffer, get_free_buffer}
use ki.Reader.Buffered.{BufferedReader}
use ki.Tool.Buffered.{
  System, ReaderPc, loop_test, want_free, sleep_free, fill_chunk, set_flag, tell_queue, give_filled,
  close_queue, read_done, threw, WriterPc, test_flag, test_queue, want_filled, sleep_filled,
  write_chunk, give_free, write_done, take_free, take_filled, after_fill, reader_move, writer_move,
  Step, notify_reader, notify_writer,
}

-- A run of moves alone: every wait that ends was notified.
pub data Run (s : System) : System → Type 0 where
  here : Run s s
  move : {t u : System} → Run s t → Step t u → Run s u

-- Neither thread can move.
abbrev pub IsStuck : System → Type 0
IsStuck s = (reader_move s s.reader_pc ≡ none) × (writer_move s s.writer_pc ≡ none)

-- The thread is awake, and the reading thread has not left `copy`.
abbrev pub reader_awake : ReaderPc → Bool
reader_awake sleep_free = false
reader_awake read_done = false
reader_awake _ = true

abbrev pub writer_awake : WriterPc → Bool
writer_awake sleep_filled = false
writer_awake _ = true

abbrev pub IsAwake : System → Type 0
IsAwake s = (reader_awake s.reader_pc ≡ true) × (writer_awake s.writer_pc ≡ true)

notify_writer-awake : (wpc : WriterPc) → writer_awake (notify_writer wpc) ≡ true
notify_writer-awake sleep_filled = refl
notify_writer-awake _ = refl

notify_reader-awake : (rpc : ReaderPc) → reader_awake rpc ≡ true → notify_reader rpc ≡ rpc
notify_reader-awake sleep_free h = absurd (cc)
notify_reader-awake rpc h = refl

after_fill-IsAwake :
    (s : System) (x : Result (BufferedReader × Memory × Buffer))
    → writer_awake s.writer_pc ≡ true
    → IsAwake (after_fill s x)
after_fill-IsAwake s (err e) w = (refl, w)
after_fill-IsAwake s (ok (r, mem, b)) w = (ground arith, w)

-- A move of the reading thread other than a call of the queue's that may wait, and `close`.
pub reader_move-IsAwake :
    (s : System) (rpc : ReaderPc) {t : System}
    → rpc ≢ want_free
    → rpc ≢ close_queue
    → writer_awake s.writer_pc ≡ true
    → reader_move s rpc ≡ some t
    → IsAwake t
unfolding reader_move
reader_move-IsAwake s loop_test h k w e = subst IsAwake (eq_of_some e) (ground arith, w)
reader_move-IsAwake s want_free h k w e = absurd (h refl)
reader_move-IsAwake s sleep_free h k w e = absurd (cc)
reader_move-IsAwake s (fill_chunk b) h k w e =
    subst IsAwake (eq_of_some e) (after_fill-IsAwake s _ w)
reader_move-IsAwake s (set_flag b) h k w e = subst IsAwake (eq_of_some e) (refl, w)
reader_move-IsAwake s (tell_queue b) h k w e = subst IsAwake (eq_of_some e) (refl, w)
reader_move-IsAwake s (give_filled b) h k w e =
    subst IsAwake (eq_of_some e) (refl, notify_writer-awake s.writer_pc)
reader_move-IsAwake s close_queue h k w e = absurd (k refl)
reader_move-IsAwake s read_done h k w e = absurd (cc)
reader_move-IsAwake s threw h k w e = absurd (cc)

-- A move of the writing thread other than a call that may wait.
pub writer_move-awake :
    (s : System) (wpc : WriterPc) {t : System}
    → wpc ≢ want_filled
    → reader_awake s.reader_pc ≡ true
    → writer_move s wpc ≡ some t
    → (t.reader_pc ≡ s.reader_pc) × (writer_awake t.writer_pc ≡ true)
unfolding writer_move
writer_move-awake s wpc h r e = at_point wpc h e
  where
    Kept : System → Type 0
    Kept t = (t.reader_pc ≡ s.reader_pc) × (writer_awake t.writer_pc ≡ true)

    at_point :
        (wpc : WriterPc) {t : System} → wpc ≢ want_filled → writer_move s wpc ≡ some t → Kept t
    at_point test_flag h e = subst Kept (eq_of_some e) (refl, ground arith)
    at_point test_queue h e = subst Kept (eq_of_some e) (refl, ground arith)
    at_point want_filled h e = absurd (h refl)
    at_point sleep_filled h e = absurd (cc)
    at_point (write_chunk b) h e = subst Kept (eq_of_some e) (refl, refl)
    at_point (give_free b) h e = subst Kept (eq_of_some e) (notify_reader-awake s.reader_pc r, refl)
    at_point write_done h e = absurd (cc)

pub want_filled-awake :
    (s : System) (got : Option Buffer × FixedBufferQueue) {t : System}
    → get_filled_buffer s.queue ≡ returned got
    → writer_move s want_filled ≡ some t
    → (t.reader_pc ≡ s.reader_pc) × (writer_awake t.writer_pc ≡ true)
unfolding writer_move
want_filled-awake s (none, q) g e =
    subst (λ t. (t.reader_pc ≡ s.reader_pc) × (writer_awake t.writer_pc ≡ true))
      (ap (take_filled s) (sym g) ∙ eq_of_some e) (refl, refl)
want_filled-awake s (some b, q) g e =
    subst (λ t. (t.reader_pc ≡ s.reader_pc) × (writer_awake t.writer_pc ≡ true))
      (ap (take_filled s) (sym g) ∙ eq_of_some e) (refl, refl)

pub want_free-IsAwake :
    (s : System) (b : Buffer) (q : FixedBufferQueue) {t : System}
    → get_free_buffer s.queue ≡ returned (some b, q)
    → writer_awake s.writer_pc ≡ true
    → reader_move s want_free ≡ some t
    → IsAwake t
unfolding reader_move
want_free-IsAwake s b q g w e = subst IsAwake (ap (take_free s) (sym g) ∙ eq_of_some e) (refl, w)
