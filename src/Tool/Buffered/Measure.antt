-- ===== src/Tool/Buffered/Measure.antt =====
-- src/common/BufferedParallelCopyTool.hpp: how far a copy is from its end, and the moves that bring it
-- nearer.
use ki.Prelude.{
  ℕ, ◌+◌, ◌*◌, ◌≤◌, ◌<◌, ◌≡◌, ◌≢◌, refl, ap, Bool, true, false, some, List, [], ◌∷◌, ◌++◌, length,
  arith, if◌then◌else◌, length-append, length-drop,
}
use ki.Error.{ok}
use ki.Queue.Buffer.{Buffer, read, write, Memory, set_type}
use ki.Queue.Fixed.{FixedBufferQueue, get_free_buffer, is_empty, finish_read, close}
use ki.Queue.Fixed.Laws.{
  is_empty-open, sleeps, refuses, hands, get_filled_buffer-outcome, return_buffer-read,
  return_buffer-write,
}
use ki.Queue.Wait.{returned}
use ki.Reader.Buffered.{BufferedReader, at_end}
use ki.Reader.Buffered.Chunk.{IsReading, rest, Chunk, fill-Chunk}
use ki.Tool.Buffered.{
  System, ReaderPc, loop_test, want_free, sleep_free, fill_chunk, set_flag, tell_queue, give_filled,
  close_queue, read_done, threw, WriterPc, test_flag, test_queue, want_filled, sleep_filled,
  write_chunk, give_free, write_done, take_free, take_filled, after_fill, reader_move, writer_move,
  notify_reader, notify_writer,
}
use ki.Tool.Buffered.Invariant.{At, Phase}

-- How far the threads are from the end: unread bytes, filled buffers and the points to pass.
abbrev pub reader_weight : ReaderPc → ℕ
reader_weight loop_test = 6
reader_weight want_free = 2
reader_weight sleep_free = 3
reader_weight (fill_chunk b) = 1
reader_weight (set_flag b) = 0
reader_weight (tell_queue b) = 14
reader_weight (give_filled b) = 13
reader_weight close_queue = 5
reader_weight read_done = 0
reader_weight threw = 0

abbrev pub writer_weight : Bool → WriterPc → ℕ
writer_weight empty test_flag = 4
writer_weight empty test_queue = 3
writer_weight empty want_filled = if empty then 5 else 1
writer_weight empty sleep_filled = if empty then 6 else 2
writer_weight empty (write_chunk b) = 6
writer_weight empty (give_free b) = 5
writer_weight empty write_done = 0

abbrev pub distance : List ℕ → FixedBufferQueue → BufferedReader → ReaderPc → WriterPc → ℕ
distance file q r rpc wpc =
    13 * length (rest file r)
    + (if r.read_finished then 0 else 15)
    + reader_weight rpc
    + (6 * length q.write_buffers + writer_weight (is_empty q) wpc)

abbrev pub to_go : List ℕ → System → ℕ
to_go file s = distance file s.queue s.reader s.reader_pc s.writer_pc

-- A chunk of a file leaves fewer bytes, unless it is the last.
Chunk-shorter :
    {file : List ℕ} {r : BufferedReader} {mem : Memory} {b : Buffer} (c : Chunk file r mem b)
    → IsReading file r
    → (at_end c.reader ≡ false → length (rest file c.reader) < length (rest file r))
      × (length (rest file c.reader) ≤ length (rest file r))
Chunk-shorter {file} {r} c v = (
  λ h. ground (
    arith,
    c.offset,
    v.within,
    c.reading.sized,
    length-drop c.reader.current_offset file,
    length-drop r.current_offset file,
  ),
  ground (
    arith,
    c.offset,
    v.within,
    length-drop c.reader.current_offset file,
    length-drop r.current_offset file,
  ),
)

notify_writer-weight :
    (empty : Bool) (wpc : WriterPc)
    → writer_weight empty (notify_writer wpc) ≤ writer_weight empty wpc
notify_writer-weight true sleep_filled = omega arith
notify_writer-weight false sleep_filled = omega arith
notify_writer-weight empty _ = omega arith

notify_reader-weight : (rpc : ReaderPc) → reader_weight (notify_reader rpc) ≤ reader_weight rpc
notify_reader-weight sleep_free = omega arith
notify_reader-weight _ = omega arith

-- Until the flag is up, the queue is open.
unfinished-open :
    (file : List ℕ) (o : Bool) (r : BufferedReader) (rpc : ReaderPc)
    → r.read_finished ≡ false
    → Phase file o r rpc
    → o ≡ true
unfinished-open file o r read_done e h = absurd (cc (h.1))
unfinished-open file o r threw e h = absurd h
unfinished-open file o r rpc e h = h.0

writer_weight-closed :
    (empty : Bool) (wpc : WriterPc) → writer_weight empty wpc ≤ writer_weight false wpc + 4
writer_weight-closed true want_filled = omega arith
writer_weight-closed true sleep_filled = omega arith
writer_weight-closed true _ = omega arith
writer_weight-closed false wpc = omega arith

-- The thread makes a move that brings the end nearer.
abbrev pub ReaderNearer : List ℕ → System → ReaderPc → Type 0
ReaderNearer file s rpc =
    (t : System) × (reader_move s rpc ≡ some t)
    × (to_go file t < distance file s.queue s.reader rpc s.writer_pc)

abbrev pub WriterNearer : List ℕ → System → WriterPc → Type 0
WriterNearer file s wpc =
    (t : System) × (writer_move s wpc ≡ some t)
    × (to_go file t < distance file s.queue s.reader s.reader_pc wpc)

module _ (file : List ℕ) (s : System) where
  fill-nearer :
      (b : Buffer)
      → At file s.queue s.memory s.reader s.writer (fill_chunk b) s.writer_pc
      → ReaderNearer file s (fill_chunk b)
  unfolding reader_move
  fill-nearer b v =
      let c = fill-Chunk v.reading s.memory b in
      (
        after_fill s (ok (c.reader, c.memory, c.buffer)),
        ap (λ x. some (after_fill s x)) c.filled,
        ground (arith, Chunk-shorter c v.reading, c.unfinished),
      )

  give-nearer :
      (b : Buffer)
      → At file s.queue s.memory s.reader s.writer (give_filled b) s.writer_pc
      → ReaderNearer file s (give_filled b)
  unfolding reader_move
  give-nearer b v = (
    _,
    refl,
    rw
        (
          is_empty-open s.queue v.phase.0,
          return_buffer-read s.queue b v.phase.2,
          is_empty-open
              (record s.queue { write_buffers = s.queue.write_buffers ++ set_type write b ∷ [] })
              v.phase.0,
        )
        (omega (
          arith,
          length-append s.queue.write_buffers (set_type write b ∷ []),
          notify_writer-weight false s.writer_pc,
        )),
  )

  close-nearer :
      At file s.queue s.memory s.reader s.writer close_queue s.writer_pc
      → ReaderNearer file s close_queue
  unfolding reader_move close
  close-nearer v = (
    _,
    refl,
    rw (is_empty-open s.queue v.phase.0)
        (omega (arith, writer_weight-closed (is_empty (close s.queue)) s.writer_pc)),
  )

  -- The reading thread can go on, unless it is at the end or waits for a buffer.
  pub reader-nearer :
      (rpc : ReaderPc)
      → rpc ≢ read_done
      → rpc ≢ want_free
      → rpc ≢ sleep_free
      → At file s.queue s.memory s.reader s.writer rpc s.writer_pc
      → ReaderNearer file s rpc
  unfolding reader_move finish_read is_empty
  reader-nearer loop_test h k l v = (_, refl, ground arith)
  reader-nearer want_free h k l v = absurd (k refl)
  reader-nearer sleep_free h k l v = absurd (l refl)
  reader-nearer (fill_chunk b) h k l v = fill-nearer b v
  reader-nearer (set_flag b) h k l v = (_, refl, ground arith)
  reader-nearer (tell_queue b) h k l v = (_, refl, omega arith)
  reader-nearer (give_filled b) h k l v = give-nearer b v
  reader-nearer close_queue h k l v = close-nearer v
  reader-nearer read_done h k l v = absurd (h refl)
  reader-nearer threw h k l v = absurd v.phase

  pub writer-nearer :
      (wpc : WriterPc)
      → wpc ≢ write_done
      → wpc ≢ want_filled
      → wpc ≢ sleep_filled
      → At file s.queue s.memory s.reader s.writer s.reader_pc wpc
      → WriterNearer file s wpc
  unfolding writer_move
  writer-nearer test_flag h k l v = (
    _,
    refl,
    ground (
      arith,
      λ (e : s.reader.read_finished ≡ false).
          is_empty-open s.queue
            (unfinished-open file s.queue.is_open s.reader s.reader_pc e v.phase),
    ),
  )
  writer-nearer test_queue h k l v = (_, refl, ground arith)
  writer-nearer want_filled h k l v = absurd (k refl)
  writer-nearer sleep_filled h k l v = absurd (l refl)
  writer-nearer (write_chunk b) h k l v = (_, refl, omega arith)
  writer-nearer (give_free b) h k l v = (
    _,
    refl,
    rw (return_buffer-write s.queue b v.writer_phase)
        (omega (arith, notify_reader-weight s.reader_pc)),
  )
  writer-nearer write_done h k l v = absurd (h refl)

  pub want_free-nearer :
      (l : List Buffer) (b : Buffer)
      → get_free_buffer s.queue
        ≡ returned (some (set_type read b), record s.queue { read_buffers = l })
      → ReaderNearer file s want_free
  unfolding reader_move is_empty
  want_free-nearer l b g = (_, ap (λ x. some (take_free s x)) g, omega arith)

  -- A writing thread that waits can go on, if there is a filled buffer or the queue is closed.
  pub want_filled-nearer :
      (s.queue.write_buffers ≡ [] → s.queue.is_open ≡ true → ⊥) → WriterNearer file s want_filled
  unfolding writer_move is_empty
  want_filled-nearer ready = elim (get_filled_buffer-outcome s.queue) [
    | sleeps e o g ↦ absurd (ready e o)
    | refuses e o g ↦ (_, ap (λ x. some (take_filled s x)) g, ground arith)
    | hands l b e g ↦ (_, ap (λ x. some (take_filled s x)) g, ground (arith, ap length e))
  ]
