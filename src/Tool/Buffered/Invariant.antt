-- ===== src/Tool/Buffered/Invariant.antt =====
-- src/common/BufferedParallelCopyTool.hpp: what holds between any two moves of the two threads.
use mathlib.Core.Path.{ap₂}
use ki.Prelude.{
  append-nil, ℕ, ◌+◌, ◌≤◌, ◌≡◌, ◌≢◌, refl, sym, ap, ◌∙◌, Bool, true, false, List, [], ◌∷◌, ◌++◌,
  arith, count, if◌then◌else◌, ltb, append_assoc, ==_iff,
}
use ki.Queue.Buffer.{Buffer, read, write, Memory, payload, buffers_in_queue}
use ki.Queue.Fixed.{FixedBufferQueue}
use ki.Queue.Fixed.Laws.{addresses, held}
use ki.Reader.Buffered.{BufferedReader}
use ki.Reader.Buffered.Chunk.{IsReading, rest}
use ki.Writer.Buffered.{BufferedFileWriter, written}
use ki.Writer.Buffered.Laws.{IsWriting}
use ki.Tool.Buffered.{
  System, ReaderPc, loop_test, want_free, sleep_free, fill_chunk, set_flag, tell_queue, give_filled,
  close_queue, read_done, threw, WriterPc, test_flag, test_queue, want_filled, sleep_filled,
  write_chunk, give_free, write_done,
}

-- The buffer that a thread holds.
abbrev pub reader_hand : ReaderPc → List Buffer
reader_hand (fill_chunk b) = b ∷ []
reader_hand (set_flag b) = b ∷ []
reader_hand (tell_queue b) = b ∷ []
reader_hand (give_filled b) = b ∷ []
reader_hand loop_test = []
reader_hand want_free = []
reader_hand sleep_free = []
reader_hand close_queue = []
reader_hand read_done = []
reader_hand threw = []

abbrev pub writer_hand : WriterPc → List Buffer
writer_hand (write_chunk b) = b ∷ []
writer_hand (give_free b) = b ∷ []
writer_hand test_flag = []
writer_hand test_queue = []
writer_hand want_filled = []
writer_hand sleep_filled = []
writer_hand write_done = []

-- The buffer of a thread whose bytes are read and not yet written.
abbrev pub reader_full : ReaderPc → List Buffer
reader_full (set_flag b) = b ∷ []
reader_full (tell_queue b) = b ∷ []
reader_full (give_filled b) = b ∷ []
reader_full (fill_chunk b) = []
reader_full loop_test = []
reader_full want_free = []
reader_full sleep_free = []
reader_full close_queue = []
reader_full read_done = []
reader_full threw = []

abbrev pub writer_full : WriterPc → List Buffer
writer_full (write_chunk b) = b ∷ []
writer_full (give_free b) = []
writer_full test_flag = []
writer_full test_queue = []
writer_full want_filled = []
writer_full sleep_filled = []
writer_full write_done = []

-- The bytes that some buffers stand for.
abbrev pub payloads : Memory → List Buffer → List ℕ
payloads mem [] = []
payloads mem (b ∷ bs) = payload mem b ++ payloads mem bs

-- The buffers whose bytes are on their way, in the order of the file.
abbrev pub in_flight : FixedBufferQueue → ReaderPc → WriterPc → List Buffer
in_flight q rpc wpc = writer_full wpc ++ (q.write_buffers ++ reader_full rpc)

-- How often the threads and the queue hold the buffer at an address.
abbrev pub holders : ℕ → FixedBufferQueue → ReaderPc → WriterPc → ℕ
holders a q rpc wpc =
    held a q + count a (addresses (reader_hand rpc)) + count a (addresses (writer_hand wpc))

-- What the reading thread knows where it stands.
abbrev pub Phase : List ℕ → Bool → BufferedReader → ReaderPc → Type 0
Phase file o r loop_test = (o ≡ true) × (r.read_finished ≡ true → rest file r ≡ [])
Phase file o r want_free = (o ≡ true) × (r.read_finished ≡ false)
Phase file o r sleep_free = (o ≡ true) × (r.read_finished ≡ false)
Phase file o r (fill_chunk b) = (o ≡ true) × (r.read_finished ≡ false) × (b.buffer_type ≡ read)
Phase file o r (set_flag b) =
    (o ≡ true) × (rest file r ≡ []) × (b.buffer_type ≡ read) × (r.read_finished ≡ false)
Phase file o r (tell_queue b) = (o ≡ true) × (rest file r ≡ []) × (b.buffer_type ≡ read)
Phase file o r (give_filled b) =
    (o ≡ true) × (r.read_finished ≡ true → rest file r ≡ []) × (b.buffer_type ≡ read)
Phase file o r close_queue = (o ≡ true) × (r.read_finished ≡ true) × (rest file r ≡ [])
Phase file o r read_done = (o ≡ false) × (r.read_finished ≡ true) × (rest file r ≡ [])
Phase file o r threw = ⊥

abbrev pub WriterPhase : FixedBufferQueue → WriterPc → Type 0
WriterPhase q (write_chunk b) = b.buffer_type ≡ write
WriterPhase q (give_free b) = b.buffer_type ≡ write
WriterPhase q write_done = (q.is_open ≡ false) × (q.write_buffers ≡ [])
WriterPhase q test_flag = Unit
WriterPhase q test_queue = Unit
WriterPhase q want_filled = Unit
WriterPhase q sleep_filled = Unit

-- The invariant of a system, part by part.
pub record At (file : List ℕ) (q : FixedBufferQueue) (mem : Memory) (r : BufferedReader)
    (w : BufferedFileWriter) (rpc : ReaderPc) (wpc : WriterPc) : Type 0 where
  pub reading : IsReading file r
  pub writing : IsWriting w
  -- Each of the buffers is in one place, and no other buffer is anywhere.
  pub kept : (a : ℕ) → holders a q rpc wpc ≡ (if ltb a buffers_in_queue then 1 else 0)
  -- Written, on the way and not yet read: together the file.
  pub copied : written w ++ (payloads mem (in_flight q rpc wpc) ++ rest file r) ≡ file
  pub phase : Phase file q.is_open r rpc
  pub writer_phase : WriterPhase q wpc

abbrev pub Inv : List ℕ → System → Type 0
Inv file s = At file s.queue s.memory s.reader s.writer s.reader_pc s.writer_pc

pub payloads-append :
    (mem : Memory) (xs ys : List Buffer)
    → payloads mem (xs ++ ys) ≡ payloads mem xs ++ payloads mem ys
payloads-append mem [] ys = refl
payloads-append mem (x ∷ xs) ys =
    ap (◌++◌ (payload mem x)) (payloads-append mem xs ys)
    ∙ sym (append_assoc (payload mem x) (payloads mem xs) (payloads mem ys))

-- A change of a block that none of the buffers points to changes none of their bytes.
pub payloads-frame :
    (mem mem' : Memory) (a : ℕ) (bs : List Buffer)
    → ((c : ℕ) → c ≢ a → mem' c ≡ mem c)
    → count a (addresses bs) ≡ 0
    → payloads mem' bs ≡ payloads mem bs
payloads-frame mem mem' a [] same apart = refl
payloads-frame mem mem' a (b ∷ bs) same apart =
    ground (arith, same b.address, payloads-frame mem mem' a bs same, ==_iff a b.address)

pub one_if_lt-le : (a : ℕ) → (if ltb a buffers_in_queue then 1 else 0) ≤ 1
one_if_lt-le a = ground arith

-- With nothing on the way and nothing left to read, the whole file is written.
pub At-written :
    {file : List ℕ} {q : FixedBufferQueue} {mem : Memory} {r : BufferedReader}
    {w : BufferedFileWriter} {rpc : ReaderPc} {wpc : WriterPc}
    → At file q mem r w rpc wpc
    → writer_full wpc ≡ []
    → q.write_buffers ≡ []
    → reader_full rpc ≡ []
    → rest file r ≡ []
    → written w ≡ file
At-written {file} {q} {mem} {r} {w} {rpc} {wpc} v ew eq er e =
    sym (append-nil (written w)) ∙ (ap (λ xs. written w ++ xs) (sym no_more) ∙ v.copied)
  where
    no_more : payloads mem (in_flight q rpc wpc) ++ rest file r ≡ []
    no_more = ap₂ ◌++◌ (ap₂ (λ xs ys. payloads mem (xs ++ ys)) ew (ap₂ ◌++◌ eq er)) e
