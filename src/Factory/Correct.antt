-- ===== src/Factory/Correct.antt =====
-- src/main.cpp: the whole program, from its command line to the copied file.
use mathlib.Core.Path.{subst}
use ki.Prelude.{ℕ, ◌+◌, ◌<◌, ◌≡◌, refl, Option, none, some, List, length, arith}
use ki.Error.{returned_first, ok, ◌>>=◌}
use ki.Queue.Buffer.{buffer_size}
use ki.Reader.Buffered.{size_mod}
use ki.Writer.Buffered.{finish_write}
use ki.Stdio.{DiskFile}
use ki.Tool.Buffered as Buffered
use ki.Tool.Buffered.Safety.{copy_correct}
use ki.Tool.Parallel as Parallel
use ki.Tool.Parallel.Safety.{parallel_copy_correct}
use ki.Options.{ToolType, parallel, buffered_parallel, ipc, ParsedOptions, parse, get_tool_type}
use ki.Factory.{
  Environment, Started, parallel_started, buffered_started, create_tool, begin_copy, main,
}

BufferedStart : Environment → List ℕ → Buffered.System → Type 0
BufferedStart e file s = (flushed : List ℕ → ℕ) × (s ≡ Buffered.start file flushed)

-- What the tool of one type starts for a file.
vbuf_created :
    (e : Environment) (vm : ParsedOptions) (file : List ℕ) (s : Buffered.System)
    (d : Option (List ℕ → ℕ))
    → e.destination ≡ d
    → e.size ≡ some (length file)
    → e.source ≡ some file
    → (create_tool e vm buffered_parallel >>= begin_copy e) ≡ ok (buffered_started s)
    → BufferedStart e file s
unfolding create_tool begin_copy BufferedStart
vbuf_created e vm file s none created sized opened h = ground arith
vbuf_created e vm file s (some flushed) created sized opened h = (flushed, ground arith)

vbuf_start :
    (e : Environment) (vm : ParsedOptions) (t : ToolType) (file : List ℕ) (s : Buffered.System)
    → e.size ≡ some (length file)
    → e.source ≡ some file
    → (create_tool e vm t >>= begin_copy e) ≡ ok (buffered_started s)
    → BufferedStart e file s
unfolding create_tool begin_copy
vbuf_start e vm parallel file s sized opened h = ground arith
vbuf_start e vm buffered_parallel file s sized opened h =
    vbuf_created e vm file s e.destination refl sized opened h
vbuf_start e vm ipc file s sized opened h = ground arith

ParallelStart : Environment → List ℕ → Parallel.System → Type 0
ParallelStart e file s =
    (old : List ℕ) × (e.mapped_destination ≡ some old) × (s ≡ Parallel.start file old e.page)

mmap_created :
    (e : Environment) (vm : ParsedOptions) (file : List ℕ) (s : Parallel.System)
    (d : Option (List ℕ))
    → e.mapped_destination ≡ d
    → e.size ≡ some (length file)
    → e.mapped_source ≡ some file
    → (create_tool e vm parallel >>= begin_copy e) ≡ ok (parallel_started s)
    → ParallelStart e file s
unfolding create_tool begin_copy ParallelStart
mmap_created e vm file s none mapped sized opened h = ground arith
mmap_created e vm file s (some old) mapped sized opened h = (old, mapped, ground arith)

mmap_start :
    (e : Environment) (vm : ParsedOptions) (t : ToolType) (file : List ℕ) (s : Parallel.System)
    → e.size ≡ some (length file)
    → e.mapped_source ≡ some file
    → (create_tool e vm t >>= begin_copy e) ≡ ok (parallel_started s)
    → ParallelStart e file s
unfolding create_tool begin_copy
mmap_start e vm parallel file s sized opened h =
    mmap_created e vm file s e.mapped_destination refl sized opened h
mmap_start e vm buffered_parallel file s sized opened h = ground arith
mmap_start e vm ipc file s sized opened h = ground arith

main_tool :
    (e : Environment) (vm : ParsedOptions) (started : Started)
    → main e vm ≡ ok started
    → (parsed : ParsedOptions) × (t : ToolType) × ((create_tool e parsed t >>= begin_copy e)
        ≡ ok started)
unfolding main
main_tool e vm started h =
    let parsed = returned_first (parse vm) _ h in
    let tool = returned_first (get_tool_type parsed.0.tool) _ parsed.2 in (parsed.0, tool.0, tool.2)

-- If main, for some command line and some answers of the system, comes to the threads of BPCopyTool,
-- and the size and the bytes that the system has given are those of a file whose size and one block
-- stay below 2^64: in every state that the two threads reach in which the writing thread has ended,
-- finishWrite leaves a file with exactly the bytes of the source.
pub main-copy_correct :
    (e : Environment) (vm : ParsedOptions) {file : List ℕ} {s t : Buffered.System}
    → e.size ≡ some (length file)
    → e.source ≡ some file
    → length file + buffer_size < size_mod
    → main e vm ≡ ok (buffered_started s)
    → Buffered.Reach s t
    → t.writer_pc ≡ Buffered.write_done
    → (d : DiskFile) × ((finish_write t.writer).1 ≡ some d) × (d.contents ≡ file)
unfolding BufferedStart
main-copy_correct e vm {file} {s} {t} sized opened small started run ended =
    let tool = main_tool e vm (buffered_started s) started in
    let begun = vbuf_start e tool.0 tool.1 file s sized opened tool.2 in
    (copy_correct small (subst (λ x. Buffered.Reach x t) begun.1 run) ended).1

-- If main, for some command line and some answers of the system, comes to the threads of
-- ParallelCopyTool, and the size and the mapping that the system has given are those of a file whose
-- size and one page stay below 2^64, the page is not empty and the mapping of the destination is as
-- long as the source: in every state that the two threads reach in which the writing thread has
-- ended, the destination is the source.
pub main-parallel_copy_correct :
    (e : Environment) (vm : ParsedOptions) {file : List ℕ} {s t : Parallel.System}
    → e.size ≡ some (length file)
    → e.mapped_source ≡ some file
    → ((old : List ℕ) → e.mapped_destination ≡ some old → length old ≡ length file)
    → 0 < e.page
    → length file + e.page < size_mod
    → main e vm ≡ ok (parallel_started s)
    → Parallel.Reach s t
    → t.writer_pc ≡ Parallel.write_done
    → t.destination ≡ some file
unfolding ParallelStart
main-parallel_copy_correct e vm {file} {s} {t} sized opened resized some_page small started run
      ended =
    let tool = main_tool e vm (parallel_started s) started in
    let begun = mmap_start e tool.0 tool.1 file s sized opened tool.2 in
    parallel_copy_correct some_page small (resized begun.0 begun.1)
      (subst (λ x. Parallel.Reach x t) begun.2 run) ended
