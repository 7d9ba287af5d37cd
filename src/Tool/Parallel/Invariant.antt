-- ===== src/Tool/Parallel/Invariant.antt =====
-- src/common/ParallelCopyTool.hpp: what holds between any two moves of the two threads.
use ki.Prelude.{
  ℕ, ◌+◌, ◌<◌, ◌≡◌, ◌≢◌, refl, sym, ap, ◌∙◌, Bool, true, false, some, none, Option, List, [], ◌∷◌,
  ◌++◌, arith, length, append_assoc, append-nil,
}
use ki.Error.{ok}
use ki.Queue.Synchronized.{SynchronizedQueue, open_queue, new_queue}
use ki.Reader.Buffered.{size_mod}
use ki.Reader.Mmap.{MMapFileReader}
use ki.Reader.Mmap.Laws.{IsReading, rest}
use ki.Writer.Mmap.{MMapFileWriter}
use ki.Writer.Mmap.Laws.{IsWriting, written}
use ki.Tool.Parallel.{
  System, ReaderPc, loop_test, read_chunk, push_chunk, close_queue, finish_reading, read_done,
  read_threw, WriterPc, test_flag, test_queue, want_chunk, sleep_chunk, write_chunk, finish_writing,
  write_done, write_threw, start, copy_start,
}

-- The chunk in the hand of a thread.
abbrev pub reader_hand : ReaderPc → List ℕ
reader_hand (push_chunk buf) = buf
reader_hand loop_test = []
reader_hand read_chunk = []
reader_hand close_queue = []
reader_hand finish_reading = []
reader_hand read_done = []
reader_hand read_threw = []

abbrev pub writer_hand : WriterPc → List ℕ
writer_hand (write_chunk buf) = buf
writer_hand test_flag = []
writer_hand test_queue = []
writer_hand want_chunk = []
writer_hand sleep_chunk = []
writer_hand finish_writing = []
writer_hand write_done = []
writer_hand write_threw = []

-- The bytes of the chunks in the queue.
abbrev pub joined : List (List ℕ) → List ℕ
joined [] = []
joined (x ∷ xs) = x ++ joined xs

-- The bytes on their way, in the order of the file.
abbrev pub in_flight : SynchronizedQueue (List ℕ) → ReaderPc → WriterPc → List ℕ
in_flight q rpc wpc = writer_hand wpc ++ (joined q.items ++ reader_hand rpc)

-- What the reading thread knows where it stands.
abbrev pub Phase : List ℕ → Bool → MMapFileReader → ReaderPc → Type 0
Phase file o r loop_test = (o ≡ true) × IsReading file r
Phase file o r read_chunk = (o ≡ true) × IsReading file r
Phase file o r (push_chunk buf) = (o ≡ true) × IsReading file r
Phase file o r close_queue = (o ≡ true) × (rest file r ≡ [])
Phase file o r finish_reading = (o ≡ false) × (rest file r ≡ [])
Phase file o r read_done = (o ≡ false) × (rest file r ≡ [])
Phase file o r read_threw = ⊥

-- The writer writes, and has not released the destination.
abbrev pub IsBusy : MMapFileWriter → Option (List ℕ) → Type 0
IsBusy w d = IsWriting w × (d ≡ none)

-- What the writing thread knows where it stands.
abbrev pub WriterPhase :
    SynchronizedQueue (List ℕ) → MMapFileWriter → Option (List ℕ) → WriterPc → Type 0
WriterPhase q w d test_flag = IsBusy w d
WriterPhase q w d test_queue = IsBusy w d
WriterPhase q w d want_chunk = IsBusy w d
WriterPhase q w d sleep_chunk = IsBusy w d
WriterPhase q w d (write_chunk buf) = IsBusy w d
WriterPhase q w d finish_writing = (IsBusy w d) × (q.is_queue_open ≡ false) × (q.items ≡ [])
WriterPhase q w d write_done = (d ≢ none) × (q.is_queue_open ≡ false) × (q.items ≡ [])
WriterPhase q w d write_threw = ⊥

-- What has been written, before and after the destination is released.
abbrev pub output : Option (List ℕ) → MMapFileWriter → List ℕ
output none w = written w
output (some bytes) w = bytes

-- The invariant of a system, part by part.
pub record At (file : List ℕ) (q : SynchronizedQueue (List ℕ)) (r : MMapFileReader)
    (w : MMapFileWriter) (d : Option (List ℕ)) (rpc : ReaderPc) (wpc : WriterPc) : Type 0 where
  -- Written, on the way and not yet read: together the file.
  pub copied : output d w ++ (in_flight q rpc wpc ++ rest file r) ≡ file
  pub sized : w.file_size ≡ length file
  pub phase : Phase file q.is_queue_open r rpc
  pub writer_phase : WriterPhase q w d wpc

abbrev pub Inv : List ℕ → System → Type 0
Inv file s = At file s.queue s.reader s.writer s.destination s.reader_pc s.writer_pc

pub joined-append : (xs : List (List ℕ)) (x : List ℕ) → joined (xs ++ x ∷ []) ≡ joined xs ++ x
joined-append [] x = append-nil x
joined-append (y ∷ ys) x = ap (◌++◌ y) (joined-append ys x) ∙ sym (append_assoc y (joined ys) x)

-- The queue is closed at the end of the reading thread only, when nothing is left to read.
pub closed_rest :
    (file : List ℕ) (o : Bool) (r : MMapFileReader) (rpc : ReaderPc)
    → o ≡ false
    → Phase file o r rpc
    → (reader_hand rpc ≡ []) × (rest file r ≡ [])
closed_rest file o r finish_reading e h = (refl, h.1)
closed_rest file o r read_done e h = (refl, h.1)
closed_rest file o r read_threw e h = absurd h
closed_rest file o r rpc e h = absurd (cc (h.0))

pub copy_start-start :
    (file old : List ℕ) (page : ℕ)
    → copy_start page true (some (length file)) (some file) true true (some old)
      ≡ ok (start file old page)
unfolding copy_start
copy_start-start file old page = ground arith

pub start-Inv :
    (file old : List ℕ) (page : ℕ)
    → 0 < page
    → length file + page < size_mod
    → length old ≡ length file
    → Inv file (start file old page)
unfolding open_queue new_queue
start-Inv file old page some_page small same = record {
  copied = refl;
  sized = refl;
  phase = (
    refl,
    record {
      mapped = refl;
      sized = refl;
      page = some_page;
      fits = small;
      within = omega arith;
      ended = λ h. cc;
    },
  );
  writer_phase = (
    record { bytes = old; mapped = refl; sized = same; within = omega arith; fits = omega arith },
    refl,
  );
}
