-- ===== src/Reader/Mmap.antt =====
-- src/reader/MMapFileReader.hpp: MMapFileReader. The bytes of the mapping are those of the file.
pub mod Laws
use ki.Prelude.{
  ℕ, ◌+◌, ◌-◌, ◌%◌, ◌^◌, Bool, true, false, Option, none, some, List, ltb, leb, if◌then◌else◌, min,
  take, drop,
}
use ki.Error.{Result, ok, err, cannot_open_file, cannot_size_file, cannot_map_file, null_stream}
use ki.Reader.Buffered.{size_mod}

-- `default_buffer_size` is `sysconf(_SC_PAGESIZE)`.
pub record MMapFileReader : Type 0 where
  pub default_buffer_size : ℕ
  pub file_size : ℕ
  pub mmapped_file : Option (List ℕ)
  pub current_offset : ℕ
  pub read_finished : Bool

-- The constructor: whether `::open` succeeds, and the answer of `file_size`, which may throw too.
unfoldable pub new_reader : ℕ → Bool → Option ℕ → Result MMapFileReader
new_reader page false size = err cannot_open_file
new_reader page true none = err cannot_size_file
new_reader page true (some size) = ok (record {
  default_buffer_size = page;
  file_size = size;
  mmapped_file = none;
  current_offset = 0;
  read_finished = false;
})

-- `open`, with the result of `mmap`.
unfoldable pub open_reader : Option (List ℕ) → MMapFileReader → Result MMapFileReader
open_reader none r = err cannot_map_file
open_reader (some bytes) r = ok (record r {
  mmapped_file = some bytes;
  read_finished = if ltb r.file_size r.current_offset then false else r.read_finished;
})

abbrev pub read_count : MMapFileReader → ℕ
read_count r = min ((r.current_offset + r.default_buffer_size) % size_mod) r.file_size

read_from : Option (List ℕ) → MMapFileReader → Result (List ℕ × MMapFileReader)
read_from none r = err null_stream
read_from (some bytes) r = ok (
  take (read_count r - r.current_offset) (drop r.current_offset bytes),
  record r {
    current_offset = read_count r;
    read_finished = if leb r.file_size (read_count r) then true else r.read_finished;
  },
)

-- `read`: the chunk, and the reader after it.
unfoldable pub read : MMapFileReader → Result (List ℕ × MMapFileReader)
unfolding read_from
read r = read_from r.mmapped_file r

-- `finishRead`
unfoldable pub finish_read : MMapFileReader → MMapFileReader
finish_read r = record r { mmapped_file = none; read_finished = true }

-- `isReadFinished`
abbrev pub is_read_finished : MMapFileReader → Bool
is_read_finished r = r.read_finished

-- `getFileSize`
abbrev pub get_file_size : MMapFileReader → ℕ
get_file_size r = r.file_size
