-- ===== src/Tool/Parallel/LostWakeup.antt =====
-- src/common/ParallelCopyTool.hpp and src/queue/SynchronizedQueue.hpp: `close` notifies nobody, so a
-- writing thread that sleeps in `pop` when the queue is closed is not told.
use mathlib.Core.Path.{ap₂}
use ki.Prelude.{
  ℕ, zero, suc, ◌+◌, ◌<◌, ◌≡◌, refl, sym, ap, ◌∙◌, inl, inr, Bool, true, false, none, some, List,
  [], ◌∷◌, ◌++◌, length, arith, append-nil, Bool-cases, if◌then◌else◌, length-drop,
}
use ki.Error.{ok}
use ki.Queue.Synchronized.{SynchronizedQueue, push, close}
use ki.Queue.Synchronized.Laws.{pop-cons, pop-blocked, is_empty-open}
use ki.Reader.Buffered.{size_mod}
use ki.Reader.Mmap.{MMapFileReader, finish_read}
use ki.Reader.Mmap.Laws.{rest, Chunk, read-Chunk}
use ki.Writer.Mmap.{MMapFileWriter}
use ki.Writer.Mmap.Laws.{written, write-Added}
use ki.Tool.Parallel.{
  System, ReaderPc, loop_test, read_chunk, close_queue, read_done, WriterPc, test_flag, test_queue,
  want_chunk, sleep_chunk, finish_writing, write_chunk, take_chunk, after_read, after_write,
  reader_move, writer_move, start, copy_start,
}
use ki.Tool.Parallel.Invariant.{At, joined, in_flight, start-Inv, copy_start-start}
use ki.Tool.Parallel.Parts.{
  loop_test-At, read_chunk-At, push_chunk-At, tested_flag-At, tested_queue-At, got_chunk-At, room,
  written_chunk-At,
}

-- A run of moves alone: every wait that ends was notified.
pub data Run (s : System) : System → Type 0 where
  here : Run s s
  reads : {t u : System} → Run s t → reader_move t t.reader_pc ≡ some u → Run s u
  writes : {t u : System} → Run s t → writer_move t t.writer_pc ≡ some u → Run s u

-- A state in which the writer has not released the destination.
abbrev at_work :
    SynchronizedQueue (List ℕ) → MMapFileReader → MMapFileWriter → ReaderPc → WriterPc → System
at_work q r w rpc wpc = record {
  queue = q;
  reader = r;
  writer = w;
  destination = none;
  reader_pc = rpc;
  writer_pc = wpc;
}

-- The bytes that are not read, and the flag that is not set.
abbrev unread : List ℕ → MMapFileReader → ℕ
unread file r = length (rest file r) + (if r.read_finished then 0 else 1)

unread-Chunk :
    (file : List ℕ) {r : MMapFileReader} (some_page : 0 < r.default_buffer_size)
    → r.read_finished ≡ false
    → (c : Chunk file r) → unread file c.reader < unread file r
unread-Chunk file {r} some_page e c = ground (
  arith,
  length-drop r.current_offset file,
  length-drop c.reader.current_offset file,
  c.offset,
  c.size,
  c.flag,
)

module _ (file : List ℕ) (s : System) where
  -- All chunks are in the queue, and the writing thread has not begun.
  abbrev AllRead : MMapFileWriter → Type 0
  AllRead w =
      (q : SynchronizedQueue (List ℕ)) × (r : MMapFileReader) × At file q r w none close_queue
        test_flag
      × Run s (at_work q r w close_queue test_flag)

  read_all :
      (fuel : ℕ) (q : SynchronizedQueue (List ℕ)) (r : MMapFileReader) (w : MMapFileWriter)
      → At file q r w none loop_test test_flag
      → unread file r < fuel
      → Run s (at_work q r w loop_test test_flag)
      → AllRead w
  unfolding reader_move
  read_all zero q r w v h run = absurd (omega arith)
  read_all (suc fuel) q r w v h run = elim (Bool-cases r.read_finished) [
    | inl e ↦ (q, r, loop_test-At v true e, reads run (tested true e))
    | inr e ↦
        let v1 = loop_test-At v false e in
        let c = read-Chunk v1.phase.1 in
        read_all fuel (push c.bytes q) c.reader w (push_chunk-At c.bytes (read_chunk-At v1 c))
          (omega (arith, unread-Chunk file v1.phase.1.page e c))
          (reads
            (reads (reads run (tested false e))
              (ap (λ x. some (after_read (at_work q r w read_chunk test_flag) x)) c.given))
            refl)
  ]
    where
      tested :
          (ended : Bool)
          → r.read_finished ≡ ended
          → reader_move (at_work q r w loop_test test_flag) loop_test
            ≡ some (at_work q r w (if ended then close_queue else read_chunk) test_flag)
      tested ended e =
          ap (λ b. some (at_work q r w (if b then close_queue else read_chunk) test_flag)) e

  -- All chunks are written, and the writing thread asks for another one.
  abbrev AllWritten : Type 0
  AllWritten =
      (q : SynchronizedQueue (List ℕ)) × (r : MMapFileReader) × (w : MMapFileWriter) × (q.items
        ≡ [])
      × At file q r w none close_queue want_chunk
      × Run s (at_work q r w close_queue want_chunk)

  -- With the queue open, the writing thread goes on to `pop`.
  to_want :
      (q : SynchronizedQueue (List ℕ)) (r : MMapFileReader) (w : MMapFileWriter)
      → At file q r w none close_queue test_flag
      → Run s (at_work q r w close_queue test_flag)
      → At file q r w none close_queue want_chunk × Run s (at_work q r w close_queue want_chunk)
  unfolding writer_move
  to_want q r w v run = elim (Bool-cases r.read_finished) [
    | inr e ↦ (tested_flag-At false v, writes run (tested false e))
    | inl e ↦
        let open_empty = is_empty-open q v.phase.0 in
        (
          tested_queue-At false open_empty (tested_flag-At true v),
          writes (writes run (tested true e)) (
              ap (λ b. some (at_work q r w close_queue (if b then finish_writing else want_chunk)))
                open_empty),
        )
  ]
    where
      tested :
          (ended : Bool)
          → r.read_finished ≡ ended
          → writer_move (at_work q r w close_queue test_flag) test_flag
            ≡ some (at_work q r w close_queue (if ended then test_queue else want_chunk))
      tested ended e =
          ap (λ b. some (at_work q r w close_queue (if b then test_queue else want_chunk))) e

  write_all :
      (l : List (List ℕ)) (q : SynchronizedQueue (List ℕ)) (r : MMapFileReader) (w : MMapFileWriter)
      → q.items ≡ l
      → At file q r w none close_queue test_flag
      → Run s (at_work q r w close_queue test_flag)
      → AllWritten
  unfolding writer_move
  write_all [] q r w e v run = let (v', run') = to_want q r w v run in (q, r, w, e, v', run')
  write_all (x ∷ l) q r w e v run =
      let (v1, run1) = to_want q r w v run in
      let q' : SynchronizedQueue (List ℕ) = record q { items = l } in
      let v2 = got_chunk-At l x e v1 in
      let a = write-Added x v2.writer_phase.0 (room x v2) in
      write_all l q' r a.writer refl (written_chunk-At x v2 a) (
        writes
          (writes run1 (
            ap (λ p. some (take_chunk (at_work q r w close_queue want_chunk) p))
              (pop-cons x l q e)))
          (ap (λ y. some (after_write (at_work q' r w close_queue (write_chunk x)) y)) a.done))

-- Neither thread can move.
abbrev pub IsStuck : System → Type 0
IsStuck s = (reader_move s s.reader_pc ≡ none) × (writer_move s s.writer_pc ≡ none)

-- A run to a state in which the reading thread has left `copy`, and the writing thread sleeps with the
-- whole file written but not released, and neither can move.
abbrev pub HangsUnreleased : List ℕ → System → Type 0
HangsUnreleased file s =
    (t : System) × Run s t
    × (t.reader_pc ≡ read_done)
    × (t.writer_pc ≡ sleep_chunk)
    × (written t.writer ≡ file)
    × (t.destination ≡ none)
    × IsStuck t

AllWritten-HangsUnreleased :
    (file : List ℕ) (s : System) → AllWritten file s → HangsUnreleased file s
unfolding reader_move writer_move
AllWritten-HangsUnreleased file s (q, r, w, e, v, run) = (
  at_work (close q) (finish_read r) w read_done sleep_chunk,
  reads
      (reads
        (writes run (
          ap (λ p. some (take_chunk (at_work q r w close_queue want_chunk) p))
            (pop-blocked q e v.phase.0)))
        refl)
      refl,
  refl,
  refl,
  sym (append-nil (written w)) ∙ (ap (λ xs. written w ++ xs) (sym nothing) ∙ v.copied),
  refl,
  (refl, refl),
)
  where
    nothing : in_flight q close_queue want_chunk ++ rest file r ≡ []
    nothing = ap₂ ◌++◌ (ap (λ xs. joined xs ++ []) e) v.phase.1

start-HangsUnreleased :
    (file old : List ℕ) (page : ℕ)
    → 0 < page
    → length file + page < size_mod
    → length old ≡ length file
    → HangsUnreleased file (start file old page)
start-HangsUnreleased file old page some_page small resized =
    let s = start file old page in
    let (q, r, v, run) =
      read_all file s (suc (unread file s.reader)) s.queue s.reader s.writer
        (start-Inv file old page some_page small resized) (omega arith) here in
    AllWritten-HangsUnreleased file s (write_all file s q.items q r s.writer refl v run)

-- For every page that is not empty, every file that is not empty and whose size and one page stay
-- below 2^64, and every destination as long as the file: where the calls of the system succeed, the
-- constructors and the head of copy come to a state from which there is a run of ParallelCopyTool,
-- with no spurious end of a wait, into a deadlock: the reading thread has left copy, the writing
-- thread has written every byte of the file and sleeps in pop before finishWrite, and neither of
-- them can move.
pub parallel_copy_can_hang :
    (byte : ℕ) (file old : List ℕ) (page : ℕ)
    → 0 < page
    → length (byte ∷ file) + page < size_mod
    → length old ≡ length (byte ∷ file)
    → (s : System) × (copy_start page true
          (some (length (byte ∷ file)))
          (some (byte ∷ file))
          true
          true
          (some old)
        ≡ ok s)
      × HangsUnreleased (byte ∷ file) s
parallel_copy_can_hang byte file old page some_page small resized = (
  start (byte ∷ file) old page,
  copy_start-start (byte ∷ file) old page,
  start-HangsUnreleased (byte ∷ file) old page some_page small resized,
)
