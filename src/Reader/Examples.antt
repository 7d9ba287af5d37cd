-- ===== src/Reader/Examples.antt =====
-- One chunk of a small file for each of the readers in src/reader.
use ki.Prelude.{ℕ, refl, false, none, some, List, [], ◌∷◌, arith}
use ki.Stdio.{InputStream}
use ki.Queue.Buffer.{Buffer, Memory, read}
use ki.Reader.Buffered.{BufferedReader}
use ki.Reader.Buffered.Chunk
use ki.Reader.Mmap.{MMapFileReader}
use ki.Reader.Mmap.Laws

abbrev letters : List ℕ
letters = 65 ∷ 66 ∷ 67 ∷ 68 ∷ 69 ∷ []

abbrev untouched_memory : Memory
untouched_memory = λ a. []

abbrev target : Buffer
target = record { address = 2; bytes_used = 0; buffer_type = read }

abbrev stream_of_letters : InputStream
stream_of_letters = record { contents = letters; position = 0; vbuf = none }

abbrev buffered : BufferedReader
buffered = record {
  stream = some stream_of_letters;
  file_size = 5;
  current_offset = 0;
  read_finished = false;
}

buffered-IsReading : Chunk.IsReading letters buffered
buffered-IsReading = record {
  stream = stream_of_letters;
  opened = refl;
  over = refl;
  sized = refl;
  fits = omega arith;
  within = omega arith;
  placed = λ h. refl;
}

fill-Chunk_example : Chunk.Chunk letters buffered untouched_memory target
fill-Chunk_example = Chunk.fill-Chunk buffered-IsReading untouched_memory target

-- The second of three chunks, with pages of two bytes.
abbrev mapped_reader : MMapFileReader
mapped_reader = record {
  default_buffer_size = 2;
  file_size = 5;
  mmapped_file = some letters;
  current_offset = 2;
  read_finished = false;
}

mapped_reader-IsReading : Laws.IsReading letters mapped_reader
mapped_reader-IsReading = record {
  mapped = refl;
  sized = refl;
  page = omega arith;
  fits = omega arith;
  within = omega arith;
  ended = λ h. absurd (cc);
}
