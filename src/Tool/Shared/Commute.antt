-- ===== src/Tool/Shared/Commute.antt =====
-- src/common/BufferedParallelCopyTool.hpp, src/common/IPCTool.hpp: a move of one side does not look at
-- the file of the other side.
use mathlib.Core.Path.{subst}
use ki.Prelude.{◌≡◌, refl, ap, ◌∙◌, true, Option, none, some, eq_of_some, ◌≢◌}
use ki.Error.{Result, ok, err}
use ki.Queue.Buffer.{Buffer, Memory}
use ki.Queue.Wait.{Waited, blocked, returned}
use ki.Queue.Fixed.{FixedBufferQueue, get_free_buffer, get_filled_buffer}
use ki.Reader.Buffered.{BufferedReader, fill}
use ki.Writer.Buffered.{BufferedFileWriter}
use ki.Tool.Buffered.{
  System, ReaderPc, loop_test, want_free, sleep_free, fill_chunk, set_flag, tell_queue, give_filled,
  close_queue, read_done, threw, WriterPc, test_flag, test_queue, want_filled, sleep_filled,
  write_chunk, give_free, write_done, take_free, take_filled, after_fill, notify_reader,
  notify_writer, reader_move, writer_move,
}

abbrev with_writer : BufferedFileWriter → Option System → Option System
with_writer w none = none
with_writer w (some c) = some (record c { writer = w })

abbrev with_reader : BufferedReader → Option System → Option System
with_reader r none = none
with_reader r (some c) = some (record c { reader = r })

module _ (c : System) (w : BufferedFileWriter) where
  took_free :
      (x : Waited (Option Buffer × FixedBufferQueue))
      → take_free (record c { writer = w }) x ≡ record (take_free c x) { writer = w }
  took_free blocked = refl
  took_free (returned (none, q)) = refl
  took_free (returned (some b, q)) = refl

  after_filled :
      (x : Result (BufferedReader × Memory × Buffer))
      → after_fill (record c { writer = w }) x ≡ record (after_fill c x) { writer = w }
  after_filled (err e) = refl
  after_filled (ok (r, mem, b)) = refl

  moved_reader :
      (pc : ReaderPc) → reader_move (record c { writer = w }) pc ≡ with_writer w (reader_move c pc)
  unfolding reader_move
  moved_reader loop_test = refl
  moved_reader want_free = ap some (took_free (get_free_buffer c.queue))
  moved_reader sleep_free = refl
  moved_reader (fill_chunk b) = ap some (after_filled (fill true c.reader c.memory b))
  moved_reader (set_flag b) = refl
  moved_reader (tell_queue b) = refl
  moved_reader (give_filled b) = refl
  moved_reader close_queue = refl
  moved_reader read_done = refl
  moved_reader threw = refl

  -- A move of the reading side is one for every file of the writing side.
  pub reader_move-writer :
      (pc : ReaderPc) {d : System}
      → reader_move c pc ≡ some d
      → reader_move (record c { writer = w }) pc ≡ some (record d { writer = w })
  reader_move-writer pc e = moved_reader pc ∙ ap (with_writer w) e

-- What a move of the reading side leaves to the writing side.
abbrev pub SameWriter : System → System → Type 0
SameWriter c d = (d.writer ≡ c.writer) × (c.writer_pc ≡ test_flag → d.writer_pc ≡ test_flag)

took_free-SameWriter :
    (c : System) (x : Waited (Option Buffer × FixedBufferQueue)) → SameWriter c (take_free c x)
took_free-SameWriter c blocked = (refl, λ h. h)
took_free-SameWriter c (returned (none, q)) = (refl, λ h. h)
took_free-SameWriter c (returned (some b, q)) = (refl, λ h. h)

after_filled-SameWriter :
    (c : System) (x : Result (BufferedReader × Memory × Buffer)) → SameWriter c (after_fill c x)
after_filled-SameWriter c (err e) = (refl, λ h. h)
after_filled-SameWriter c (ok (r, mem, b)) = (refl, λ h. h)

pub reader_move-SameWriter :
    (c : System) (pc : ReaderPc) {d : System} → reader_move c pc ≡ some d → SameWriter c d
unfolding reader_move
reader_move-SameWriter c loop_test e = subst (SameWriter c) (eq_of_some e) (refl, λ h. h)
reader_move-SameWriter c want_free e =
    subst (SameWriter c) (eq_of_some e) (took_free-SameWriter c (get_free_buffer c.queue))
reader_move-SameWriter c sleep_free e = absurd (cc)
reader_move-SameWriter c (fill_chunk b) e =
    subst (SameWriter c) (eq_of_some e) (after_filled-SameWriter c (fill true c.reader c.memory b))
reader_move-SameWriter c (set_flag b) e = subst (SameWriter c) (eq_of_some e) (refl, λ h. h)
reader_move-SameWriter c (tell_queue b) e = subst (SameWriter c) (eq_of_some e) (refl, λ h. h)
reader_move-SameWriter c (give_filled b) e =
    subst (SameWriter c) (eq_of_some e) (refl, λ h. ap notify_writer h)
reader_move-SameWriter c close_queue e = subst (SameWriter c) (eq_of_some e) (refl, λ h. h)
reader_move-SameWriter c read_done e = absurd (cc)
reader_move-SameWriter c threw e = absurd (cc)

module _ (c : System) (r : BufferedReader) where
  took_filled :
      (x : Waited (Option Buffer × FixedBufferQueue))
      → take_filled (record c { reader = r }) x ≡ record (take_filled c x) { reader = r }
  took_filled blocked = refl
  took_filled (returned (none, q)) = refl
  took_filled (returned (some b, q)) = refl

  moved_writer :
      (pc : WriterPc)
      → pc ≢ test_flag
      → writer_move (record c { reader = r }) pc ≡ with_reader r (writer_move c pc)
  unfolding writer_move
  moved_writer test_flag h = absurd (h refl)
  moved_writer test_queue h = refl
  moved_writer want_filled h = ap some (took_filled (get_filled_buffer c.queue))
  moved_writer sleep_filled h = refl
  moved_writer (write_chunk b) h = refl
  moved_writer (give_free b) h = refl
  moved_writer write_done h = refl

  -- So is a move of the writing side that does not test the flag of the reader.
  pub writer_move-reader :
      (pc : WriterPc) {d : System}
      → pc ≢ test_flag
      → writer_move c pc ≡ some d
      → writer_move (record c { reader = r }) pc ≡ some (record d { reader = r })
  writer_move-reader pc h e = moved_writer pc h ∙ ap (with_reader r) e

-- What a move of the writing side leaves to the reading side.
abbrev pub SameReader : System → System → Type 0
SameReader c d =
    (d.reader ≡ c.reader)
    × ((pc : ReaderPc) → notify_reader pc ≡ pc → c.reader_pc ≡ pc → d.reader_pc ≡ pc)

took_filled-SameReader :
    (c : System) (x : Waited (Option Buffer × FixedBufferQueue)) → SameReader c (take_filled c x)
took_filled-SameReader c blocked = (refl, λ pc n h. h)
took_filled-SameReader c (returned (none, q)) = (refl, λ pc n h. h)
took_filled-SameReader c (returned (some b, q)) = (refl, λ pc n h. h)

pub writer_move-SameReader :
    (c : System) (pc : WriterPc) {d : System} → writer_move c pc ≡ some d → SameReader c d
unfolding writer_move
writer_move-SameReader c test_flag e = subst (SameReader c) (eq_of_some e) (refl, λ pc n h. h)
writer_move-SameReader c test_queue e = subst (SameReader c) (eq_of_some e) (refl, λ pc n h. h)
writer_move-SameReader c want_filled e =
    subst (SameReader c) (eq_of_some e) (took_filled-SameReader c (get_filled_buffer c.queue))
writer_move-SameReader c sleep_filled e = absurd (cc)
writer_move-SameReader c (write_chunk b) e = subst (SameReader c) (eq_of_some e) (refl, λ pc n h. h)
writer_move-SameReader c (give_free b) e =
    subst (SameReader c) (eq_of_some e) (refl, λ pc n h. ap notify_reader h ∙ n)
writer_move-SameReader c write_done e = absurd (cc)
