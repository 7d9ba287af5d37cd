-- ===== src/Tool/Buffered/Fits.antt =====
-- src/queue/BufferedQueue.hpp: buffers whose parts in use fit into their blocks.
use ki.Prelude.{ℕ, ◌≤◌, ◌≡◌, refl, List, [], ◌∷◌, ◌++◌, length}
use ki.Queue.Buffer.{Buffer, BufferType, read, write, set_type, Memory, buffer_size}
use ki.Queue.Fixed.{FixedBufferQueue, return_buffer}
use ki.Queue.Fixed.Laws.{return_buffer-read, return_buffer-write}
use ki.Tool.Buffered.{
  System, ReaderPc, sleep_free, WriterPc, sleep_filled, notify_reader, notify_writer,
}
use ki.Tool.Buffered.Invariant.{reader_hand, writer_hand}

-- No more bytes of a buffer are in use than its block has.
abbrev pub AllFit : List Buffer → Type 0
AllFit [] = Unit {0}
AllFit (b ∷ bs) = (b.bytes_used ≤ buffer_size) × AllFit bs

-- Every block has its length, and every buffer fits into one, wherever it is.
pub record InBounds (q : FixedBufferQueue) (mem : Memory) (rpc : ReaderPc) (wpc : WriterPc)
    : Type 0 where
  pub blocks : (a : ℕ) → length (mem a) ≡ buffer_size
  pub free : AllFit q.read_buffers
  pub filled : AllFit q.write_buffers
  pub in_reader : AllFit (reader_hand rpc)
  pub in_writer : AllFit (writer_hand wpc)

abbrev pub IsInBounds : System → Type 0
IsInBounds s = InBounds s.queue s.memory s.reader_pc s.writer_pc

pub AllFit-append : (xs ys : List Buffer) → AllFit xs → AllFit ys → AllFit (xs ++ ys)
AllFit-append [] ys h k = k
AllFit-append (x ∷ xs) ys h k = (h.0, AllFit-append xs ys h.1 k)

pub AllFit-split : (xs ys : List Buffer) → AllFit (xs ++ ys) → AllFit xs × AllFit ys
AllFit-split [] ys h = (tt, h)
AllFit-split (x ∷ xs) ys h = let (h', k) = AllFit-split xs ys h.1 in ((h.0, h'), k)

pub notify_writer-AllFit :
    (wpc : WriterPc) → AllFit (writer_hand wpc) → AllFit (writer_hand (notify_writer wpc))
notify_writer-AllFit sleep_filled h = h
notify_writer-AllFit _ h = h

pub notify_reader-AllFit :
    (rpc : ReaderPc) → AllFit (reader_hand rpc) → AllFit (reader_hand (notify_reader rpc))
notify_reader-AllFit sleep_free h = h
notify_reader-AllFit _ h = h

module _ {q : FixedBufferQueue} {mem : Memory} where
  -- Between two points at which the threads hold the same.
  pub stroll-InBounds :
      {rpc rpc' : ReaderPc} {wpc wpc' : WriterPc}
      → AllFit (reader_hand rpc')
      → AllFit (writer_hand wpc')
      → InBounds q mem rpc wpc
      → InBounds q mem rpc' wpc'
  stroll-InBounds h k v = record {
    blocks = v.blocks;
    free = v.free;
    filled = v.filled;
    in_reader = h;
    in_writer = k;
  }

  pub return_buffer-InBounds :
      (b : Buffer) {rpc rpc' : ReaderPc} {wpc wpc' : WriterPc}
      → b.bytes_used ≤ buffer_size
      → AllFit (reader_hand rpc')
      → AllFit (writer_hand wpc')
      → InBounds q mem rpc wpc
      → InBounds (return_buffer q b) mem rpc' wpc'
  return_buffer-InBounds b {rpc'} {wpc'} fit h k v = by_type b.buffer_type refl
    where
      by_type : (t : BufferType) → b.buffer_type ≡ t → InBounds (return_buffer q b) mem rpc' wpc'
      by_type read e = rw (return_buffer-read q b e) (record {
        blocks = v.blocks;
        free = v.free;
        filled = AllFit-append q.write_buffers (set_type write b ∷ []) v.filled (fit, tt);
        in_reader = h;
        in_writer = k;
      })
      by_type write e = rw (return_buffer-write q b e) (record {
        blocks = v.blocks;
        free = AllFit-append q.read_buffers (set_type read b ∷ []) v.free (fit, tt);
        filled = v.filled;
        in_reader = h;
        in_writer = k;
      })
