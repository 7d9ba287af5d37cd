-- ===== src/Writer/Mmap.antt =====
-- src/writer/MMapFileWriter.hpp: MMapFileWriter. The mapping is as long as the file after `ftruncate`.
pub mod Laws
use ki.Prelude.{
  ℕ, ◌+◌, ◌%◌, Bool, true, false, not, Option, none, some, List, ◌++◌, ltb, length, take, drop,
}
use ki.Error.{
  Result, ok, err, ◌>>=◌, ◌>>◌, guard, cannot_create_file, cannot_resize_file, cannot_map_file,
  writing_more_than_expected, null_stream,
}
use ki.Reader.Buffered.{size_mod}

pub record MMapFileWriter : Type 0 where
  pub file_size : ℕ
  pub mmapped_file : Option (List ℕ)
  pub current_offset : ℕ
  pub write_finished : Bool

-- The constructor.
abbrev pub new_writer : ℕ → MMapFileWriter
new_writer size = record {
  file_size = size;
  mmapped_file = none;
  current_offset = 0;
  write_finished = false;
}

or_fail {ℓ} : {A : Type ℓ} → Option A → Result A
or_fail none = err cannot_map_file
or_fail (some a) = ok a

-- `create`: whether `open` and `ftruncate` succeed, and the result of `mmap`: the bytes that the file
-- has then. An old file keeps its first bytes.
unfoldable pub create : Bool → Bool → Option (List ℕ) → MMapFileWriter → Result MMapFileWriter
unfolding or_fail
create opened resized mapped w = do
  guard opened cannot_create_file
  guard resized cannot_resize_file
  bytes ← or_fail mapped
  ok (record w { mmapped_file = some bytes })

-- `std::copy` to an offset of the mapping.
abbrev pub splice : ℕ → List ℕ → List ℕ → List ℕ
splice offset buf bytes = take offset bytes ++ (buf ++ drop (offset + length buf) bytes)

copy_to : Option (List ℕ) → List ℕ → MMapFileWriter → Result MMapFileWriter
copy_to none buf w = err null_stream
copy_to (some bytes) buf w = ok (record w {
  mmapped_file = some (splice w.current_offset buf bytes);
  current_offset = (w.current_offset + length buf) % size_mod;
})

-- `write`
unfoldable pub write : List ℕ → MMapFileWriter → Result MMapFileWriter
unfolding copy_to
write buf w = do
  guard (not (ltb w.file_size ((w.current_offset + length buf) % size_mod)))
      writing_more_than_expected
  copy_to w.mmapped_file buf w

finish_mapping : Option (List ℕ) → MMapFileWriter → MMapFileWriter × Option (List ℕ)
finish_mapping none w = (w, none)
finish_mapping (some bytes) w =
    (record w { write_finished = true; mmapped_file = none }, some bytes)

-- `finishWrite`, with the file that it leaves: synchronised, unmapped and closed. The second call
-- does nothing.
unfoldable pub finish_write : MMapFileWriter → MMapFileWriter × Option (List ℕ)
unfolding finish_mapping
finish_write w = finish_mapping w.mmapped_file w
