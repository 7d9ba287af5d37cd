-- ===== src/Factory/Examples.antt =====
-- Whole runs of ki (src/main.cpp) on a small file.
use ki.Prelude.{ℕ, ◌≡◌, refl, Bool, true, false, some, List, [], ◌∷◌, length, arith}
use ki.Error.{ok, too_few_arguments}
use ki.Ipc.ProcInfo.{new_info}
use ki.Stdio.{DiskFile}
use ki.Queue.Fixed.{
  init, get_free_buffer, get_filled_buffer, is_empty, close, open_queue, return_buffer, finish_read,
}
use ki.Queue.Synchronized
use ki.Reader.Buffered.{fill}
use ki.Reader.Mmap
use ki.Writer.Buffered.{write_bytes, finish_write}
use ki.Writer.Mmap as MmapWriter
use ki.Prelude.{range_from}
use ki.Options.{ParsedOptions, ToolType, parallel, ipc, buffered_parallel, parse, get_tool_type}
use ki.Options.Laws.{tool_name}
use ki.Tool.Buffered as Buffered
use ki.Tool.Buffered.Runs as BufferedRuns
use ki.Tool.Parallel as Parallel
use ki.Tool.Parallel.Runs as ParallelRuns
use ki.Factory.{Environment, parallel_started, buffered_started, create_tool, begin_copy, main}
use ki.Factory.Failures.{thrown, first_failure, calls, is_complete, main-thrown}
use ki.Factory.Correct.{main-copy_correct, main-parallel_copy_correct}

abbrev small_file : List ℕ
small_file = 75 ∷ 105 ∷ 33 ∷ []

-- A library that passes on nothing before the end.
abbrev nothing : List ℕ → ℕ
nothing bytes = 0

-- Pages of two bytes; `setvbuf` fails where `accepted` is false.
abbrev machine : Bool → Environment
machine accepted = record {
  page = 2;
  found = true;
  size = some 3;
  source = some small_file;
  mapped_source = some small_file;
  destination = some nothing;
  accepted = accepted;
  opened = true;
  resized = true;
  mapped_destination = some (0 ∷ 0 ∷ 0 ∷ []);
  is_first = true;
  shared = record { counters = new_info; dst = "" };
}

abbrev command : ToolType → ParsedOptions
command t = record {
  help_count = 0;
  src_count = 1;
  dst_count = 1;
  type_count = 1;
  shobj_count = 1;
  src = "source";
  dst = "destination";
  tool = tool_name t;
  shared_obj_name = "shared";
}

abbrev later : ParsedOptions
later = record (command ipc) { src_count = 0; dst_count = 0; src = ""; dst = "" }

main-thrown_example :
    thrown (main (machine false) (command buffered_parallel))
    ≡ first_failure (
        record {
          holds = is_complete (command buffered_parallel) buffered_parallel;
          thrown = too_few_arguments;
        }
        ∷ calls (machine false) buffered_parallel)
main-thrown_example = main-thrown (machine false) (command buffered_parallel) buffered_parallel refl

abbrev buffered_begin : Buffered.System
buffered_begin = Buffered.start small_file nothing

vbuf_starts : main (machine true) (command buffered_parallel) ≡ ok (buffered_started buffered_begin)
unfolding main parse get_tool_type create_tool begin_copy
vbuf_starts = ground arith

abbrev buffered_run : List Bool
buffered_run =
    true ∷ true ∷ true ∷ true ∷ true ∷ true ∷ true ∷ true ∷ false ∷ false ∷ false ∷ false ∷ false
    ∷ false ∷ false ∷ false ∷ false ∷ []

buffered_ends : (BufferedRuns.play buffered_run buffered_begin).writer_pc ≡ Buffered.write_done
unfolding BufferedRuns.play Buffered.reader_move Buffered.writer_move get_free_buffer
    get_filled_buffer fill return_buffer finish_read close open_queue init range_from is_empty
    write_bytes
buffered_ends = refl

main-copy_correct_example :
    (d : DiskFile) × ((finish_write (BufferedRuns.play buffered_run buffered_begin).writer).1
      ≡ some d)
    × (d.contents ≡ small_file)
main-copy_correct_example =
    main-copy_correct (machine true) (command buffered_parallel) refl refl (omega arith) vbuf_starts
      (BufferedRuns.play-Reach buffered_run buffered_begin Buffered.here) buffered_ends

abbrev parallel_begin : Parallel.System
parallel_begin = Parallel.start small_file (0 ∷ 0 ∷ 0 ∷ []) 2

mmap_starts : main (machine true) (command parallel) ≡ ok (parallel_started parallel_begin)
unfolding main parse get_tool_type create_tool begin_copy
mmap_starts = ground arith

abbrev parallel_run : List Bool
parallel_run =
    false ∷ false ∷ true ∷ true ∷ true ∷ false ∷ true ∷ true ∷ false ∷ true ∷ true ∷ true ∷ true
    ∷ false ∷ false ∷ false ∷ false ∷ false ∷ false ∷ false ∷ []

parallel_ends : (ParallelRuns.play parallel_run parallel_begin).writer_pc ≡ Parallel.write_done
unfolding ParallelRuns.play Parallel.reader_move Parallel.writer_move Synchronized.push
    Synchronized.pop Synchronized.is_empty Synchronized.close Synchronized.open_queue
    Synchronized.new_queue Mmap.read Mmap.finish_read MmapWriter.write MmapWriter.finish_write
parallel_ends = refl

-- The mapping of the destination is as long as the source.
mapped_length :
    (old : List ℕ) → (machine true).mapped_destination ≡ some old → length old ≡ length small_file
mapped_length old e = ground arith

main-parallel_copy_correct_example :
    (ParallelRuns.play parallel_run parallel_begin).destination ≡ some small_file
main-parallel_copy_correct_example =
    main-parallel_copy_correct (machine true) (command parallel) refl refl mapped_length
      (omega arith) (omega arith) mmap_starts
      (ParallelRuns.play-Reach parallel_run parallel_begin Parallel.here) parallel_ends
