-- ===== src/Lib.antt =====
-- ki: a copy tool that reads a file in one thread or process and writes it in another.
--
-- The program has four layers. The queues (src/queue) carry chunks from a reader to a writer: one
-- is a pool of 512 buffers of 4096 bytes, the other an unbounded queue of chunks. The readers and
-- the writers (src/reader, src/writer) move bytes between a file and a chunk, by stdio with the
-- buffer of the pool as the stream's own, or by a mapping of the file. The tools (src/common) run
-- a reader and a writer in two threads over one queue, or in two processes over a queue in shared
-- memory. The processes of the last kind agree on their roles by counters in the shared memory,
-- and each observes whether the other is there (src/IPC).
--
-- Which file models which part:
--   Queue/Buffer        src/queue/Buffer.hpp, src/queue/Buffer/BufferConfiguration.hpp
--   Queue/Wait          `cv.wait(lock, predicate)`: the caller sleeps, or goes on with a value
--   Queue/Fixed         FixedBufferQueue of src/queue/BufferedQueue.hpp, one function per method
--   Queue/Synchronized  SynchronizedQueue of src/queue/SynchronizedQueue.hpp
--   Reader/Buffered     BufferedReader of src/reader/BufferedFileReader.hpp
--   Reader/Mmap         MMapFileReader of src/reader/MMapFileReader.hpp
--   Writer/Buffered     BufferedFileWriter of src/writer/BufferedFileWriter.hpp
--   Writer/Mmap         MMapFileWriter of src/writer/MMapFileWriter.hpp
--   Tool/Buffered       BPCopyTool of src/common/BufferedParallelCopyTool.hpp
--   Tool/Parallel       ParallelCopyTool of src/common/ParallelCopyTool.hpp
--   Tool/Shared         IPCTool::copy of src/common/IPCTool.hpp, in its two processes
--   Ipc/ProcInfo        src/IPC/IPCProcInfo.hpp, the counters as src/common/IPCTool.hpp,
--                       src/common/PseudoToolFactory.hpp and src/IPC/SharedMemoryManager.cpp use them
--   Ipc/Roles           the critical sections of many processes on these counters
--   Ipc/Observer        the loop of src/IPC/SiblingProcessObserver.cpp and the callback of IPCTool
--   Ipc/Observer/Thread its thread, startObserver and the destructor
--   Ipc/Memory          src/IPC/SharedMemoryManager.cpp, and the constructor of the shared queue
--   Options             src/common/OptionsParser.hpp, src/common/ToolTypeEnum.hpp
--   Factory             src/common/PseudoToolFactory.hpp and src/main.cpp, up to the threads of `copy`
--   Factory/Shared      createTool's branch for the IPC tool, over the objects of Ipc/Memory; its child
--                       Lifetime has the destructor of IPCTool over them (src/common/IPCTool.hpp)
--   Terminator          src/common/ProcessTerminator.hpp, and src/main.cpp from its begin to its end
--   StopWatch           src/common/StopWatch.cpp, src/common/StopWatch.h
--   Stdio               fgetc, fseek, setvbuf, fwrite, fsync and fclose as the code uses them
--   Prelude, Error      shared names, and the exceptions as a result type
-- The other files prove. Invariant says what holds between the moves of two threads, Start that it
-- holds at first, ReaderParts, ReaderMoves, WriterMoves, Parts and Moves that every move keeps it;
-- End is the destructor of the tool, Throws the failure of setvbuf; Safety, Measure, Progress,
-- Awake, LostWakeup and Flags draw the consequences, Fits and Bounds are about the sizes of the
-- buffers, and Runs plays a schedule. In Tool/Shared, Commute, Simulation, ReaderMoves,
-- WriterMoves and Reached relate IPCTool to BPCopyTool, and Stranded is about the end of it.
-- Queue/Fixed/Pool is the contract of FixedBufferQueue, Refinement compares the two. In Factory,
-- Failures is about what is thrown, Correct about what is copied and Pair about the processes of
-- the IPC tool. In Ipc/Memory, Laws says what boost::interprocess has to do, Machine is one that
-- does, Blocks and First are about the process that creates the segment, Sharing about the next
-- one. In Factory/Shared, Laws follows one process over the segment, Processes several, Lifetime a
-- pair to its end, and Stuck those that come after processes which were killed. In Terminator,
-- Safety is about all runs and Twice about one kind. In Ipc/Observer/Thread, Refinement relates
-- the thread to the loop, and Stop ends it. The other Laws, Durable, Chunk, Exclusion, Timeout and
-- Callback belong to the module above them. Examples apply the theorems to concrete values.
--
-- A tool is a record of the shared state and the program points of its two threads. A move goes
-- from one access of shared state to the next; a critical section of a mutex is one move, and a
-- notification moves a sleeping thread back to its test. `Reach` is any order of such moves. The
-- moves are functions, so that a schedule of moves can be run on a file.
--
-- Bounds: a number of type size_t wraps at 2^64 where it is added. The systems of the three tools
-- are about a file whose size and one block, or one page, stay below 2^64. mmap refuses an empty
-- file, so that the system of ParallelCopyTool is one of the program for other files only. Those
-- of BPCopyTool and ParallelCopyTool start after the files are open, that of IPCTool opens them,
-- and there the calls of the library succeed; in all three, setvbuf accepts the block of every
-- buffer, but in Tool/Buffered/Throws, where it may refuse; `open`, `create` and the constructors
-- take the results of these calls as arguments and have all their error branches. Fuel is used in
-- proofs only, as a bound on the moves that are left: for the file, the deques and the program
-- points, and for the observer the four steps that can follow its stop request.
--
-- Assumptions on the library: a stream over a regular file fills its block as far as the file goes
-- and no further; a setvbuf on a stream in use installs the new block and gives back what was read
-- ahead, which BufferedReader relies on; fwrite keeps a part of what it is given in the stream, as
-- a function `flushed` says, and fclose passes on the rest; a mapping of a file is the bytes of
-- the file; the clock of the observer and of the stop watch is an argument of each round or call.
--
-- boost::interprocess is a parameter of Ipc/Memory, with its documented behaviour as laws and a
-- machine of one segment that has them. Factory takes whether the process is the first one, and
-- ProcInfo, as arguments; Factory/Shared gives it those that Ipc/Memory finds, for processes of
-- which no two are in createTool or in a destructor at the same time. An exception that nothing
-- catches runs no destructor, as C++ allows and as the handlers, which are set later, do not
-- change: what the process has stored in the shared memory stays. The handlers of SIGINT, SIGABRT
-- and terminate are called at any point and on any thread; another signal has its default action,
-- which ends the program; a longjmp leaves the frames that it jumps out of as they are, and the
-- destructor of unique_ptr does not clear the pointer before it deletes the tool.
--
-- Not modelled: what boost::program_options finds on the command line, the mutexes and conditions
-- of boost (a critical section is one move), what becomes of the objects in the frames that a
-- longjmp leaves, and the printing but for the times of the stop watch.
mod Prelude
pub mod Error
pub mod Stdio
pub mod Reader
pub mod Writer
pub mod Tool
pub mod Ipc
pub mod Queue
pub mod Options
pub mod Factory
pub mod StopWatch
pub mod Terminator
