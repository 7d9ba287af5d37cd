-- ===== src/Reader/Mmap/Laws.antt =====
-- src/reader/MMapFileReader.hpp: what `read` gives, chunk by chunk and until the file has ended.
use ki.Prelude.{
  ℕ, ◌+◌, ◌-◌, ◌≤◌, ◌<◌, ◌≡◌, refl, sym, ap, ◌∙◌, true, some, List, ◌++◌, arith, length, take, drop,
  min, leb, if◌then◌else◌, take-append-drop, drop-drop, length-take, length-drop,
}
use ki.Error.{ok}
use ki.Reader.Buffered.{size_mod}
use ki.Reader.Mmap.{MMapFileReader, read, read_from, read_count}

-- A reader in the middle of a file that is not empty.
pub record IsReading (file : List ℕ) (r : MMapFileReader) : Type 0 where
  pub mapped : r.mmapped_file ≡ some file
  pub sized : r.file_size ≡ length file
  pub page : 0 < r.default_buffer_size
  pub fits : length file + r.default_buffer_size < size_mod
  pub within : r.current_offset ≤ length file
  pub ended : r.read_finished ≡ true → r.current_offset ≡ length file

-- What is left of the file.
abbrev pub rest : List ℕ → MMapFileReader → List ℕ
rest file r = drop r.current_offset file

-- The result of a chunk.
pub record Chunk (file : List ℕ) (r : MMapFileReader) : Type 0 where
  pub bytes : List ℕ
  pub reader : MMapFileReader
  pub given : read r ≡ ok (bytes, reader)
  pub reading : IsReading file reader
  pub cut : bytes ++ rest file reader ≡ rest file r
  pub size : length bytes ≡ min r.default_buffer_size (length file - r.current_offset)
  -- The flag goes up with the last byte, and never down.
  pub flag :
      reader.read_finished
      ≡ (if leb (length file) reader.current_offset then true else r.read_finished)
  pub offset : reader.current_offset ≡ r.current_offset + length bytes

-- One read of MMapFileReader in the middle of a file: the chunk is the next bytes, a page or as many
-- as are left; the offset goes on by its length; readFinished goes up when the offset reaches the
-- end and never down; and the reader is again in the middle of the file.
pub read-Chunk : {file : List ℕ} {r : MMapFileReader} → IsReading file r → Chunk file r
unfolding read
read-Chunk {file} {r} v = record {
  bytes = take size (rest file r);
  reader = record r {
    current_offset = read_count r;
    read_finished = if leb r.file_size (read_count r) then true else r.read_finished;
  };
  given = rw (v.mapped, read_from) refl;
  reading = record {
    mapped = v.mapped;
    sized = v.sized;
    page = v.page;
    fits = v.fits;
    within = omega (arith, v.sized);
    ended = λ h. ground (arith, v.sized, v.ended, next);
  };
  cut =
      ap (λ xs. take size (rest file r) ++ xs)
        (sym (drop-drop r.current_offset size (read_count r) file (omega (arith, next))))
      ∙ take-append-drop size (rest file r);
  size = omega (arith, length-take size (rest file r), length-drop r.current_offset file, next);
  flag = rw v.sized refl;
  offset = omega (arith, length-take size (rest file r), length-drop r.current_offset file, next);
}
  where
    size : ℕ
    size = read_count r - r.current_offset

    next : read_count r ≡ min (r.current_offset + r.default_buffer_size) (length file)
    next = omega (arith, v.sized, v.fits, v.within)
