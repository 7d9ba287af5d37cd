-- ===== src/Tool/Parallel/Measure.antt =====
-- src/common/ParallelCopyTool.hpp: a bound on the moves that are left, and the moves that lower it.
use ki.Prelude.{
  ℕ, ◌+◌, ◌*◌, ◌<◌, ◌≤◌, ◌≡◌, ◌≢◌, refl, ap, Bool, false, some, List, [], ◌∷◌, length, arith,
  if◌then◌else◌, length-append, length-drop,
}
use ki.Error.{ok}
use ki.Queue.Synchronized.{SynchronizedQueue, push, close}
use ki.Queue.Synchronized.Laws.{sleeps, refuses, hands, pop-outcome}
use ki.Reader.Mmap.{MMapFileReader, finish_read}
use ki.Reader.Mmap.Laws.{Chunk, IsReading, rest, read-Chunk}
use ki.Writer.Mmap.Laws.{write-Added}
use ki.Tool.Parallel.{
  System, ReaderPc, loop_test, read_chunk, push_chunk, close_queue, finish_reading, read_done,
  read_threw, WriterPc, test_flag, test_queue, want_chunk, sleep_chunk, write_chunk, finish_writing,
  write_done, write_threw, after_read, reader_move, take_chunk, after_write, writer_move,
  notify_writer,
}
use ki.Tool.Parallel.Invariant.{At}
use ki.Tool.Parallel.Parts.{room}
use ki.Tool.Parallel.Moves.{unreleased}

-- The weight of a point; before the flag is up, a chunk is still to be read.
abbrev pub reader_weight : Bool → ReaderPc → ℕ
reader_weight ended loop_test = if ended then 3 else 10
reader_weight ended read_chunk = 9
reader_weight ended (push_chunk buf) = if ended then 8 else 15
reader_weight ended close_queue = 2
reader_weight ended finish_reading = 1
reader_weight ended read_done = 0
reader_weight ended read_threw = 0

abbrev pub writer_weight : WriterPc → ℕ
writer_weight (write_chunk buf) = 5
writer_weight test_flag = 4
writer_weight test_queue = 3
writer_weight sleep_chunk = 3
writer_weight want_chunk = 2
writer_weight finish_writing = 1
writer_weight write_done = 0
writer_weight write_threw = 0

abbrev pub distance : List ℕ → SynchronizedQueue (List ℕ) → MMapFileReader → ReaderPc → WriterPc → ℕ
distance file q r rpc wpc =
    7 * length (rest file r)
    + reader_weight r.read_finished rpc
    + (4 * length q.items + writer_weight wpc)

abbrev pub to_go : List ℕ → System → ℕ
to_go file s = distance file s.queue s.reader s.reader_pc s.writer_pc

notify_writer-weight : (wpc : WriterPc) → writer_weight (notify_writer wpc) ≤ writer_weight wpc
notify_writer-weight sleep_chunk = omega arith
notify_writer-weight _ = omega arith

-- A chunk brings the flag up, or leaves fewer bytes.
Chunk-shorter :
    {file : List ℕ} {r : MMapFileReader} (c : Chunk file r)
    → IsReading file r
    → (c.reader.read_finished ≡ false → length (rest file c.reader) < length (rest file r))
      × (length (rest file c.reader) ≤ length (rest file r))
Chunk-shorter {file} {r} c v = (
  λ h. ground (
    arith,
    c.offset,
    c.size,
    c.flag,
    v.within,
    v.page,
    length-drop c.reader.current_offset file,
    length-drop r.current_offset file,
  ),
  omega (
    arith,
    c.offset,
    length-drop c.reader.current_offset file,
    length-drop r.current_offset file,
  ),
)

-- A thread can make a move that lowers the bound.
abbrev pub ReaderNearer : List ℕ → System → ReaderPc → Type 0
ReaderNearer file s rpc =
    (t : System) × (reader_move s rpc ≡ some t)
    × (to_go file t < distance file s.queue s.reader rpc s.writer_pc)

abbrev pub WriterNearer : List ℕ → System → WriterPc → Type 0
WriterNearer file s wpc =
    (t : System) × (writer_move s wpc ≡ some t)
    × (to_go file t < distance file s.queue s.reader s.reader_pc wpc)

module _ (file : List ℕ) (s : System) where
  -- The reading thread can go on until its end.
  pub reader-nearer :
      (rpc : ReaderPc)
      → rpc ≢ read_done
      → At file s.queue s.reader s.writer s.destination rpc s.writer_pc
      → ReaderNearer file s rpc
  unfolding reader_move push close finish_read
  reader-nearer loop_test h v = (_, refl, ground arith)
  reader-nearer read_chunk h v =
      let c = read-Chunk v.phase.1 in
      (
        after_read s (ok (c.bytes, c.reader)),
        ap (λ x. some (after_read s x)) c.given,
        ground (arith, Chunk-shorter c v.phase.1),
      )
  reader-nearer (push_chunk buf) h v = (
    _,
    refl,
    ground (arith, length-append s.queue.items (buf ∷ []), notify_writer-weight s.writer_pc),
  )
  reader-nearer close_queue h v = (_, refl, omega arith)
  reader-nearer finish_reading h v = (_, refl, omega arith)
  reader-nearer read_done h v = absurd (h refl)
  reader-nearer read_threw h v = absurd v.phase

  -- Once the queue is closed, the writing thread can go on until its end, unless it sleeps.
  pub writer-nearer :
      (wpc : WriterPc)
      → s.queue.is_queue_open ≡ false
      → wpc ≢ write_done
      → wpc ≢ sleep_chunk
      → At file s.queue s.reader s.writer s.destination s.reader_pc wpc
      → WriterNearer file s wpc
  unfolding writer_move
  writer-nearer test_flag closed h k v = (_, refl, ground arith)
  writer-nearer test_queue closed h k v = (_, refl, ground arith)
  writer-nearer want_chunk closed h k v = elim (pop-outcome s.queue) [
    | sleeps e o g ↦ absurd (cc (o, closed))
    | refuses e o g ↦ (_, ap (λ x. some (take_chunk s x)) g, omega arith)
    | hands buf l e g ↦ (_, ap (λ x. some (take_chunk s x)) g, omega (arith, ap length e))
  ]
  writer-nearer sleep_chunk closed h k v = absurd (k refl)
  writer-nearer (write_chunk buf) closed h k v =
      let v' = unreleased v.writer_phase.1 v in
      let a = write-Added buf v'.writer_phase.0 (room buf v') in
      (after_write s (ok a.writer), ap (λ x. some (after_write s x)) a.done, omega arith)
  writer-nearer finish_writing closed h k v = (_, refl, omega arith)
  writer-nearer write_done closed h k v = absurd (h refl)
  writer-nearer write_threw closed h k v = absurd v.writer_phase
