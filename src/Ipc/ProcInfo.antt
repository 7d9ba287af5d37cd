-- ===== src/Ipc/ProcInfo.antt =====
-- src/IPC/IPCProcInfo.hpp, src/IPC/IPCToolType.hpp, and the accesses of the counters in
-- src/common/IPCTool.hpp and src/common/PseudoToolFactory.hpp. Each function is one critical section
-- of `ProcInfo::mutex`.
use Prim.Native.String.{String}
use ki.Prelude.{ℕ, ◌+◌, ◌-◌, ◌%◌, Bool, true, false, leb, ◌==◌, ◌&&◌, if◌then◌else◌}
use ki.Reader.Buffered.{size_mod}

pub data ProcessType : Type 0 where
  reader_process writer_process invalid : ProcessType

pub record ProcInfo : Type 0 where
  pub is_writing_started : Bool
  pub reader_process_count : ℕ
  pub writer_process_count : ℕ

-- The whole structure, with its `dst`.
pub record SharedInfo : Type 0 where
  pub counters : ProcInfo
  pub dst : String

-- The counters of a new structure.
abbrev pub new_info : ProcInfo
new_info = record { is_writing_started = false; reader_process_count = 0; writer_process_count = 0 }

-- The object that SharedMemoryManager constructs.
abbrev pub new_shared_info : SharedInfo
new_shared_info = record { counters = new_info; dst = "" }

-- ToolFactory::createTool: the role that a new process asks for.
unfoldable pub choose_role : ProcInfo → ProcessType
choose_role p =
    if leb p.reader_process_count p.writer_process_count then reader_process else writer_process

add_reader : ProcInfo → ProcessType × ProcInfo
add_reader p =
    if p.reader_process_count == 0
    then (
      reader_process,
      record p { reader_process_count = (p.reader_process_count + 1) % size_mod },
    )
    else (invalid, p)

add_writer : ProcInfo → ProcessType × ProcInfo
add_writer p =
    if p.writer_process_count == 0
    then (
      writer_process,
      record p { writer_process_count = (p.writer_process_count + 1) % size_mod },
    )
    else (invalid, p)

-- The constructor of IPCTool: the role that the process gets.
unfoldable pub register : ProcessType → ProcInfo → ProcessType × ProcInfo
unfolding add_reader add_writer
register reader_process p = add_reader p
register writer_process p = add_writer p
register invalid p = (invalid, p)

-- The destructor of IPCTool.
unfoldable pub unregister : ProcessType → ProcInfo → ProcInfo
unregister reader_process p = record p {
  reader_process_count = (p.reader_process_count + size_mod - 1) % size_mod;
}
unregister writer_process p = record p {
  writer_process_count = (p.writer_process_count + size_mod - 1) % size_mod;
}
unregister invalid p = p

-- `procInfo->isWritingStarted = true` in IPCTool::copy
unfoldable pub start_writing : ProcInfo → ProcInfo
start_writing p = record p { is_writing_started = true }

-- The destructor of SharedMemoryManager: is the shared memory object removed?
unfoldable pub removes_memory : ProcInfo → Bool
removes_memory p = p.writer_process_count == 0 && p.reader_process_count == 0
