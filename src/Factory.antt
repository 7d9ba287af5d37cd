-- ===== src/Factory.antt =====
-- src/common/PseudoToolFactory.hpp and src/main.cpp: from the options to the tool, and to the start of
-- its `copy`.
pub mod Failures
pub mod Correct
pub mod Pair
pub mod Shared
mod Examples
use Prim.Native.String.{String}
use ki.Prelude.{ℕ, Bool, true, false, Option, none, some, List, if◌then◌else◌}
use ki.Error.{Result, ok, err, ◌>>=◌, cannot_size_file, missing_reader, missing_writer}
use ki.Queue.Fixed.{FixedBufferQueue, init, open_queue}
use ki.Queue.Synchronized
use ki.Queue.Synchronized.{SynchronizedQueue}
use ki.Reader.Buffered.{BufferedReader}
use ki.Reader.Buffered
use ki.Reader.Mmap.{MMapFileReader}
use ki.Reader.Mmap
use ki.Writer.Buffered.{BufferedFileWriter}
use ki.Writer.Buffered as BufferedWriter
use ki.Writer.Mmap.{MMapFileWriter}
use ki.Writer.Mmap as MmapWriter
use ki.Ipc.ProcInfo.{
  SharedInfo, ProcessType, reader_process, writer_process, invalid, choose_role, register,
  start_writing,
}
use ki.Options.{
  ToolType, parallel, buffered_parallel, ipc, ParsedOptions, parse, get_tool_type, get_dst,
}
use ki.Tool.Buffered as BufferedTool
use ki.Tool.Parallel as ParallelTool

-- What the operating system and the libraries answer to the calls of one process.
pub record Environment : Type 0 where
  pub page : ℕ  -- `sysconf(_SC_PAGESIZE)`
  pub found : Bool  -- `::open` of the source
  pub size : Option ℕ  -- `file_size` of the source
  pub source : Option (List ℕ)  -- `fopen` of the source
  pub mapped_source : Option (List ℕ)  -- `mmap` of the source
  pub destination : Option (List ℕ → ℕ)  -- `fopen` of the destination
  pub accepted : Bool  -- `setvbuf` of the destination
  pub opened : Bool  -- `open` of the destination
  pub resized : Bool  -- `ftruncate` of the destination
  pub mapped_destination : Option (List ℕ)  -- `mmap` of the destination
  pub is_first : Bool  -- `SharedMemoryManager::isFirstProcess`
  pub shared : SharedInfo

pub data Tool : Type 0 where
  parallel_tool : MMapFileReader → MMapFileWriter → SynchronizedQueue (List ℕ) → Tool
  buffered_tool : BufferedReader → BufferedFileWriter → FixedBufferQueue → Tool
  -- The role that the process has got, its reader or writer, and the structure after the registration.
  ipc_tool :
      ProcessType → Option BufferedReader → Option (String × BufferedFileWriter) → SharedInfo → Tool

-- The constructor of BufferedReader.
sized : Option ℕ → Result BufferedReader
sized none = err cannot_size_file
sized (some size) = ok (Buffered.new_reader size)

-- The first process leaves the destination, and sets `isWritingStarted` to false.
abbrev pub prepared : Bool → String → SharedInfo → SharedInfo
prepared true dst info = record info {
  dst = dst;
  counters = record info.counters { is_writing_started = false };
}
prepared false dst info = info

-- The reader of a process that has chosen to read.
ipc_reader : ProcessType → Option ℕ → Result (Option BufferedReader)
unfolding sized
ipc_reader reader_process size = do r ← sized size; ok (some r)
ipc_reader writer_process size = ok none
ipc_reader invalid size = ok none

-- The writer, with its path, of a process that has chosen to write.
ipc_writer : ProcessType → String → Option (String × BufferedFileWriter)
ipc_writer reader_process dst = none
ipc_writer writer_process dst = some (dst, BufferedWriter.new_writer)
ipc_writer invalid dst = none

unfoldable pub create_tool : Environment → ParsedOptions → ToolType → Result Tool
unfolding sized ipc_reader ipc_writer Mmap.new_reader
create_tool e vm parallel = do
  r ← Mmap.new_reader e.page e.found e.size
  ok (
      parallel_tool r (MmapWriter.new_writer (Mmap.get_file_size r))
        (Synchronized.open_queue Synchronized.new_queue))
create_tool e vm buffered_parallel = do
  r ← sized e.size
  ok (buffered_tool r BufferedWriter.new_writer init)
create_tool e vm ipc = do
  let info = prepared e.is_first (get_dst vm) e.shared
  let role = choose_role info.counters
  r ← ipc_reader role e.size
  let (got, counters') = register role info.counters
  ok (ipc_tool got r (ipc_writer role info.dst) (record info { counters = counters' }))

-- A process of the IPC tool that has come to its loop, with the structure as it leaves it, or that has
-- no role and returns.
pub data IpcStart : Type 0 where
  reads_file : BufferedReader → SharedInfo → IpcStart
  writes_file : BufferedFileWriter → SharedInfo → IpcStart
  has_no_role : IpcStart

-- A `copy` that has come to its threads, or to the loops of its process.
pub data Started : Type 0 where
  parallel_started : ParallelTool.System → Started
  buffered_started : BufferedTool.System → Started
  ipc_started : IpcStart → Started

-- IPCTool::copy up to its loop. The queue, which the reading process opens first, is in the shared
-- memory: see Tool/Shared.
begin_ipc :
    Environment
    → ProcessType
    → Option BufferedReader
    → Option (String × BufferedFileWriter)
    → SharedInfo
    → Result IpcStart
unfolding Buffered.open_reader BufferedWriter.create
begin_ipc e reader_process none w info = err missing_reader
begin_ipc e reader_process (some r) w info = do
  r' ← Buffered.open_reader e.source r
  ok (reads_file r' info)
begin_ipc e writer_process r none info = err missing_writer
begin_ipc e writer_process r (some (path, w)) info = do
  w' ← BufferedWriter.create e.destination e.accepted w
  ok (writes_file w' (record info { counters = start_writing info.counters }))
begin_ipc e invalid r w info = ok has_no_role

unfoldable pub begin_copy : Environment → Tool → Result Started
unfolding Mmap.open_reader MmapWriter.create Buffered.open_reader BufferedWriter.create begin_ipc
begin_copy e (parallel_tool r w q) = do
  r' ← Mmap.open_reader e.mapped_source r
  w' ← MmapWriter.create e.opened e.resized e.mapped_destination w
  ok (
      parallel_started (record {
        queue = q;
        reader = r';
        writer = w';
        destination = none;
        reader_pc = ParallelTool.loop_test;
        writer_pc = ParallelTool.test_flag;
      }))
begin_copy e (buffered_tool r w q) = do
  r' ← Buffered.open_reader e.source r
  w' ← BufferedWriter.create e.destination e.accepted w
  ok (
      buffered_started (record {
        queue = open_queue q;
        memory = BufferedTool.zeroed;
        reader = r';
        writer = w';
        reader_pc = BufferedTool.loop_test;
        writer_pc = BufferedTool.test_flag;
      }))
begin_copy e (ipc_tool role r w info) = do s ← begin_ipc e role r w info; ok (ipc_started s)

-- `main` up to there.
unfoldable pub main : Environment → ParsedOptions → Result Started
main e vm = do
  parsed ← parse vm
  t ← get_tool_type parsed.tool
  tool ← create_tool e parsed t
  begin_copy e tool
