-- ===== src/Reader/Buffered.antt =====
-- src/reader/BufferedFileReader.hpp: BufferedReader. The bytes of a chunk go from the stream to the
-- block of a free buffer, which `setvbuf` makes the stream's own.
pub mod Chunk
use ki.Prelude.{
  ℕ, ◌+◌, ◌-◌, ◌%◌, ◌^◌, Bool, true, false, not, Option, none, some, List, ltb, leb, if◌then◌else◌,
  min,
}
use ki.Error.{
  Result, ok, err, ◌>>=◌, ◌>>◌, guard, cannot_open_file, cannot_set_buffering, bad_optional_access,
  null_stream,
}
use ki.Stdio.{InputStream, open_input, setvbuf, fgetc, fseek_forward}
use ki.Queue.Buffer.{Buffer, Memory, buffer_size}
use ki.Queue.Wait.{Waited, blocked, returned}
use ki.Queue.Fixed.{FixedBufferQueue, get_free_buffer, finish_read, return_buffer}

pub record BufferedReader : Type 0 where
  pub stream : Option InputStream
  pub file_size : ℕ
  pub current_offset : ℕ
  pub read_finished : Bool

-- The constructor, with the size that the file system gives.
abbrev pub new_reader : ℕ → BufferedReader
new_reader size = record {
  stream = none;
  file_size = size;
  current_offset = 0;
  read_finished = false;
}

-- `open`: `fopen` gives the contents of the file, or fails.
unfoldable pub open_reader : Option (List ℕ) → BufferedReader → Result BufferedReader
open_reader none r = err cannot_open_file
open_reader (some contents) r = ok (record r {
  stream = some (open_input contents);
  read_finished = if ltb r.file_size r.current_offset then false else r.read_finished;
})

-- size_t
abbrev pub size_mod : ℕ
size_mod = 2 ^ 64

abbrev pub next_offset : BufferedReader → ℕ
next_offset r = (r.current_offset + buffer_size) % size_mod

abbrev pub chunk_size : BufferedReader → ℕ
chunk_size r =
    if leb (next_offset r) r.file_size
    then buffer_size
    else (r.file_size + size_mod - r.current_offset) % size_mod

-- Has the chunk that was read last reached the end of the file?
abbrev pub at_end : BufferedReader → Bool
at_end r = not (ltb r.current_offset r.file_size)

-- The stream after the chunk: past the end of a full block, or left alone at the end of the file.
seek : BufferedReader → InputStream → BufferedReader
seek r s =
    if ltb r.current_offset r.file_size
    then record r { stream = some (fseek_forward (buffer_size - 1) s) }
    else record r { stream = some s }

fill_from :
    Option InputStream
    → BufferedReader
    → Memory
    → Buffer
    → Result (BufferedReader × Memory × Buffer)
unfolding seek
fill_from none r mem b = err null_stream
fill_from (some s) r mem b =
    let (mem', s') = fgetc mem (setvbuf b.address s) in
    ok (
      seek (record r { current_offset = min (next_offset r) r.file_size }) s',
      mem',
      record b { bytes_used = chunk_size r },
    )

-- `read` between `getFreeBuffer` and the test for the end. `accepted` says whether `setvbuf` succeeds.
unfoldable pub fill :
    Bool → BufferedReader → Memory → Buffer → Result (BufferedReader × Memory × Buffer)
unfolding fill_from fgetc
fill accepted r mem b = guard accepted cannot_set_buffering >> fill_from r.stream r mem b

-- `readFinished.store(true)`
abbrev pub mark_finished : BufferedReader → BufferedReader
mark_finished r = record r { read_finished = true }

-- `isReadFinished`
abbrev pub is_read_finished : BufferedReader → Bool
is_read_finished r = r.read_finished

-- What a reader, the queue and the memory are after a call.
pub record ReadState : Type 0 where
  pub reader : BufferedReader
  pub queue : FixedBufferQueue
  pub memory : Memory

-- The end of `read`: the flags, where the file has ended, and the return of the buffer.
finish_chunk : FixedBufferQueue → BufferedReader → Memory → Buffer → ReadState
finish_chunk q r mem b =
    if at_end r
    then record { reader = mark_finished r; queue = return_buffer (finish_read q) b; memory = mem }
    else record { reader = r; queue = return_buffer q b; memory = mem }

read_into : Bool → BufferedReader → Memory → Option Buffer × FixedBufferQueue → Result ReadState
unfolding finish_chunk
read_into accepted r mem (none, q) = err bad_optional_access
read_into accepted r mem (some b, q) = do
  (r', mem', b') ← fill accepted r mem b
  ok (finish_chunk q r' mem' b')

read_waited :
    Bool
    → BufferedReader
    → Memory
    → Waited (Option Buffer × FixedBufferQueue)
    → Waited (Result ReadState)
read_waited accepted r mem blocked = blocked
read_waited accepted r mem (returned got) = returned (read_into accepted r mem got)

-- The whole of `read`, for a reader that runs alone.
unfoldable pub read : Bool → ReadState → Waited (Result ReadState)
unfolding read_waited read_into
read accepted s = read_waited accepted s.reader s.memory (get_free_buffer s.queue)

-- `finishRead`
unfoldable pub close_reader : BufferedReader → BufferedReader
close_reader r = record r { stream = none }

-- The destructor.
abbrev pub end_reader : BufferedReader → BufferedReader
end_reader r = close_reader r
