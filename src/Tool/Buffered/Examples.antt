-- ===== src/Tool/Buffered/Examples.antt =====
-- Runs of the two threads of BPCopyTool (src/common/BufferedParallelCopyTool.hpp) over a small file.
use ki.Prelude.{
  ℕ, ◌+◌, ◌<◌, ◌≡◌, ◌≢◌, ◌⊎◌, refl, ap, Bool, true, false, some, List, [], ◌∷◌, length, arith,
  range_from, replicate, length-replicate, count,
}
use ki.Stdio.{DiskFile}
use ki.Queue.Buffer.{read, write, Buffer, buffer_size}
use ki.Queue.Fixed.{
  init, get_free_buffer, get_filled_buffer, is_empty, close, open_queue, return_buffer, finish_read,
}
use ki.Queue.Fixed.Laws.{held, addresses}
use ki.Reader.Buffered.{fill, close_reader, size_mod}
use ki.StopWatch.{create_auto_start_watch, finish}
use ki.Writer.Buffered.{write_bytes, finish_write}
use ki.Tool.Buffered.Runs.{play, play-Reach}
use ki.Tool.Buffered.{
  System, reader_move, writer_move, read_done, threw, write_done, reads, here, start,
}
use ki.Tool.Buffered.Invariant.{reader_hand, writer_hand}
use ki.Tool.Buffered.Fits.{InBounds}
use ki.Tool.Buffered.Bounds.{reached-InBounds}
use ki.Tool.Buffered.Safety.{copy_correct, hands_apart, buffers_conserved}
use ki.Tool.Buffered.End.{Destroyed, destroy, Leaves, destroy-Leaves}
use ki.Tool.Buffered.Throws.{Attempt, begins, moves, refuses, threw-iff-refused}
use ki.Tool.Buffered.Progress.{Finishes, copy_can_finish}
use ki.Tool.Buffered.LostWakeup.{Hangs, copy_can_hang}

abbrev small_file : List ℕ
small_file = 75 ∷ 105 ∷ 33 ∷ []

-- A library that passes on a byte for every two.
abbrev half : List ℕ → ℕ
half [] = 0
half (x ∷ []) = 0
half (x ∷ y ∷ rest) = 1 + half rest

abbrev begin : System
begin = start small_file half

-- The reader reads its only chunk, the writer writes it, the reader closes and the writer ends.
abbrev whole : List Bool
whole =
    true ∷ true ∷ true ∷ true ∷ true ∷ true ∷ true ∷ true ∷ false ∷ false ∷ false ∷ false ∷ false
    ∷ false ∷ false ∷ false ∷ false ∷ []

-- The reader is about to give its chunk back.
abbrev midway : List Bool
midway = true ∷ true ∷ true ∷ true ∷ true ∷ []

whole_ends : (play whole begin).writer_pc ≡ write_done
unfolding play reader_move writer_move get_free_buffer get_filled_buffer fill return_buffer
    finish_read close open_queue init range_from is_empty write_bytes
whole_ends = refl

small_fits : length small_file + buffer_size < size_mod
small_fits = omega arith

copy_correct_example :
    ((play whole begin).reader_pc ≡ read_done)
    × ((d : DiskFile) × ((finish_write (play whole begin).writer).1 ≡ some d)
        × (d.contents ≡ small_file))
copy_correct_example = copy_correct small_fits (play-Reach whole begin here) whole_ends

-- The last block, with nothing in it.
abbrev first_buffer : Buffer
first_buffer = record { address = 511; bytes_used = 0; buffer_type = read }

-- The reader has a buffer for its only chunk.
abbrev holding : System
holding = play (true ∷ true ∷ []) begin

holding-Attempt : Attempt begin 0 holding
unfolding play reader_move get_free_buffer init range_from open_queue
holding-Attempt = moves (moves begins (reads refl)) (reads refl)

-- `setvbuf` refuses its block.
abbrev refused : System
refused = record holding { reader_pc = threw }

refused-Attempt : Attempt begin 1 refused
unfolding play reader_move get_free_buffer init range_from open_queue fill
refused-Attempt = refuses first_buffer holding-Attempt refl refl

threw-iff-refused_example :
    ((◌≡◌ {A = ℕ} 1 0) × (refused.reader_pc ≢ threw))
    ⊎ ((◌≡◌ {A = ℕ} 1 1) × (refused.reader_pc ≡ threw))
threw-iff-refused_example = threw-iff-refused small_fits refused-Attempt

copy_can_finish_example : Finishes (play midway begin)
copy_can_finish_example =
    copy_can_finish small_file half (play midway begin) small_fits (play-Reach midway begin here)

copy_can_hang_example : Hangs small_file begin
copy_can_hang_example = copy_can_hang small_file half small_fits

-- A file of two chunks: the writer holds the first while the reader fills the second.
abbrev two_chunks : List ℕ
two_chunks = replicate 5000 7

abbrev overlap : List Bool
overlap = true ∷ true ∷ true ∷ true ∷ true ∷ true ∷ false ∷ false ∷ []

abbrev first : Buffer
first = record { address = 511; bytes_used = 4096; buffer_type = write }

abbrev second : Buffer
second = record { address = 510; bytes_used = 0; buffer_type = read }

overlap_reader : reader_hand (play overlap (start two_chunks half)).reader_pc ≡ second ∷ []
unfolding play reader_move writer_move get_free_buffer get_filled_buffer fill return_buffer
    finish_read close open_queue init range_from is_empty write_bytes
overlap_reader = refl

overlap_writer : writer_hand (play overlap (start two_chunks half)).writer_pc ≡ first ∷ []
unfolding play reader_move writer_move get_free_buffer get_filled_buffer fill return_buffer
    finish_read close open_queue init range_from is_empty write_bytes
overlap_writer = refl

two_chunks_fit : length two_chunks + buffer_size < size_mod
two_chunks_fit = omega (arith, length-replicate {A = ℕ} 5000 7)

hands_apart_example :
    (second.address ≢ first.address)
    × (held second.address (play overlap (start two_chunks half)).queue ≡ 0)
    × (held first.address (play overlap (start two_chunks half)).queue ≡ 0)
hands_apart_example =
    hands_apart two_chunks_fit (play-Reach overlap (start two_chunks half) here) second first
      overlap_reader overlap_writer

buffers_conserved_example :
    held 510 (play overlap (start two_chunks half)).queue
      + count 510 (addresses (reader_hand (play overlap (start two_chunks half)).reader_pc))
      + count 510 (addresses (writer_hand (play overlap (start two_chunks half)).writer_pc))
    ≡ 1
buffers_conserved_example =
    buffers_conserved two_chunks_fit (play-Reach overlap (start two_chunks half) here) 510

reached-InBounds_example :
    InBounds
      (play overlap (start two_chunks half)).queue
      (play overlap (start two_chunks half)).memory
      (play overlap (start two_chunks half)).reader_pc
      (play overlap (start two_chunks half)).writer_pc
reached-InBounds_example =
    reached-InBounds two_chunks_fit (play-Reach overlap (start two_chunks half) here)

-- The destructor, two seconds after the constructor.
abbrev destroyed : Destroyed
destroyed = record {
  writer = (finish_write (play whole begin).writer).0;
  file = (finish_write (play whole begin).writer).1;
  reader = close_reader (play whole begin).reader;
  report = finish 2000000005 (create_auto_start_watch "copy" 5);
}

destroyed_by :
    destroy 2000000005
      (create_auto_start_watch "copy" 5)
      (play whole begin)
      (play whole begin).writer_pc
    ≡ some destroyed
unfolding destroy
destroyed_by =
    ap (destroy 2000000005 (create_auto_start_watch "copy" 5) (play whole begin)) whole_ends

destroy-Leaves_example : Leaves small_file "copy" 5 2000000005 (play whole begin) destroyed
destroy-Leaves_example =
    destroy-Leaves small_file half "copy" 5 2000000005 small_fits (omega arith)
      (play-Reach whole begin here) destroyed_by
