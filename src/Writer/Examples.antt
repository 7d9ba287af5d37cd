-- ===== src/Writer/Examples.antt =====
-- Small files for the writers in src/writer.
use ki.Prelude.{◌≡◌, refl, true, false, none, some, List, [], ◌∷◌, ◌++◌, arith}
use ki.Stdio.{DiskFile, open_output}
use ki.Writer.Buffered.{BufferedFileWriter, new_writer, create, finish_write}
use ki.Writer.Buffered.Durable.{write_all, payloads, kept_back, finish_write-write_all}
use ki.Error.{ok}
use ki.Queue.Buffer.{Buffer, Memory, write}
use ki.Writer.Mmap.{MMapFileWriter}
use ki.Writer.Mmap.Laws.{IsWriting}

-- A library that passes on nothing before the end, and two bytes of a block of three.
abbrev opened : BufferedFileWriter
opened = record { stream = some (open_output (λ xs. 0)); write_finished = false }

abbrev two_bytes : List (Memory × Buffer)
two_bytes = (λ a. 5 ∷ 6 ∷ 7 ∷ [], record { address = 0; bytes_used = 2; buffer_type = write }) ∷ []

opened_by_create : create (some (λ xs. 0)) true new_writer ≡ ok opened
unfolding create
opened_by_create = refl

finish_write-write_all_example :
    (done : BufferedFileWriter) × (d : DiskFile) × (finish_write (write_all two_bytes opened)
      ≡ (done, some d))
    × (d.contents ≡ payloads two_bytes)
    × (d.contents ≡ d.durable ++ kept_back (λ xs. 0) [] two_bytes)
    × (finish_write done ≡ (done, none))
finish_write-write_all_example =
    finish_write-write_all (λ xs. 0) true two_bytes new_writer opened_by_create

-- Two of five bytes are written.
abbrev mapped_writer : MMapFileWriter
mapped_writer = record {
  file_size = 5;
  mmapped_file = some (1 ∷ 2 ∷ 0 ∷ 0 ∷ 0 ∷ []);
  current_offset = 2;
  write_finished = false;
}

mapped_writer-IsWriting : IsWriting mapped_writer
mapped_writer-IsWriting = record {
  bytes = 1 ∷ 2 ∷ 0 ∷ 0 ∷ 0 ∷ [];
  mapped = refl;
  sized = refl;
  within = omega arith;
  fits = omega arith;
}
