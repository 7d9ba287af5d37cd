-- ===== src/Tool/Parallel/Examples.antt =====
-- Runs of the two threads of ParallelCopyTool (src/common/ParallelCopyTool.hpp) over a small file.
use ki.Prelude.{
  ℕ, ◌+◌, ◌<◌, ◌^◌, ◌≡◌, ◌≢◌, refl, ap, Bool, true, false, some, List, [], ◌∷◌, length, arith,
}
use ki.Error.{ok}
use ki.Queue.Synchronized.{push, pop, is_empty, close, open_queue, new_queue}
use ki.Reader.Mmap.{read, finish_read}
use ki.Writer.Mmap.{write, finish_write}
use ki.Tool.Parallel.Runs.{play, play-Reach}
use ki.Tool.Parallel.{
  System, reader_move, writer_move, read_threw, write_threw, write_done, here, start, copy_start,
}
use ki.Tool.Parallel.LostWakeup.{HangsUnreleased, parallel_copy_can_hang}
use ki.StopWatch.{create_auto_start_watch, finish}
use ki.Tool.Parallel.End.{Destroyed, destroy, Leaves, parallel_destroy-Leaves}
use ki.Tool.Parallel.Progress.{Finishes, parallel_copy_can_finish}
use ki.Tool.Parallel.Safety.{parallel_copy_correct, parallel_never_throws}

abbrev small_file : List ℕ
small_file = 75 ∷ 105 ∷ 33 ∷ []

-- What the blocks of the destination held before.
abbrev old_bytes : List ℕ
old_bytes = 9 ∷ 9 ∷ 0 ∷ []

-- Pages of two bytes: two chunks.
abbrev begin : System
begin = start small_file old_bytes 2

-- The writer sleeps, is woken by the first chunk, and writes it while the reader goes on.
abbrev whole : List Bool
whole =
    false ∷ false ∷ true ∷ true ∷ true ∷ false ∷ true ∷ true ∷ false ∷ true ∷ true ∷ true ∷ true
    ∷ false ∷ false ∷ false ∷ false ∷ false ∷ false ∷ false ∷ []

whole_ends : (play whole begin).writer_pc ≡ write_done
unfolding play reader_move writer_move push pop is_empty close open_queue new_queue read finish_read
    write finish_write
whole_ends = refl

some_page : 0 < 2
some_page = omega arith

small_fits : length small_file + 2 < 2 ^ 64
small_fits = omega arith

parallel_copy_correct_example : (play whole begin).destination ≡ some small_file
parallel_copy_correct_example =
    parallel_copy_correct some_page small_fits refl (play-Reach whole begin here) whole_ends

parallel_never_throws_example :
    ((play whole begin).reader_pc ≢ read_threw) × ((play whole begin).writer_pc ≢ write_threw)
parallel_never_throws_example =
    parallel_never_throws some_page small_fits refl (play-Reach whole begin here)

parallel_copy_can_hang_example :
    (s : System) × (copy_start 2 true (some 3) (some small_file) true true (some old_bytes) ≡ ok s)
    × HangsUnreleased small_file s
parallel_copy_can_hang_example =
    parallel_copy_can_hang 75 (105 ∷ 33 ∷ []) old_bytes 2 some_page small_fits refl

-- The writer sleeps, and nothing has been read.
parallel_copy_can_finish_example : Finishes (play (false ∷ false ∷ []) begin)
parallel_copy_can_finish_example =
    parallel_copy_can_finish small_file old_bytes 2 (play (false ∷ false ∷ []) begin) some_page
      small_fits refl (play-Reach (false ∷ false ∷ []) begin here)

-- The destructor, two seconds after the constructor.
abbrev destroyed : Destroyed
destroyed = record {
  destination = (play whole begin).destination;
  report = finish 2000000005 (create_auto_start_watch "copy" 5);
}

destroyed_by :
    destroy 2000000005
      (create_auto_start_watch "copy" 5)
      (play whole begin)
      (play whole begin).writer_pc
    ≡ some destroyed
unfolding destroy
destroyed_by =
    ap (destroy 2000000005 (create_auto_start_watch "copy" 5) (play whole begin)) whole_ends

parallel_destroy-Leaves_example : Leaves small_file "copy" 5 2000000005 destroyed
parallel_destroy-Leaves_example =
    parallel_destroy-Leaves small_file old_bytes 2 "copy" 5 2000000005 some_page small_fits refl
      (omega arith) (play-Reach whole begin here) destroyed_by
