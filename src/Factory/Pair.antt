-- ===== src/Factory/Pair.antt =====
-- src/common/PseudoToolFactory.hpp: the processes of the IPC tool, one after the other.
use Prim.Native.String.{String}
use ki.Prelude.{ℕ, ◌≡◌, refl, Bool, true, false, none, some}
use ki.Error.{ok}
use ki.Reader.Buffered
use ki.Writer.Buffered as BufferedWriter
use ki.Ipc.ProcInfo.{SharedInfo, reader_process, writer_process, invalid, choose_role, register}
use ki.Options.{ipc, ParsedOptions}
use ki.Factory.{Environment, ipc_tool, create_tool}

-- The structure with so many readers and writers.
abbrev pub joined : ℕ → ℕ → String → SharedInfo
joined readers writers dst = record {
  counters = record {
    is_writing_started = false;
    reader_process_count = readers;
    writer_process_count = writers;
  };
  dst = dst;
}

-- What one process meets: the size of the source, and the structure as the others have left it.
abbrev pub meets : Environment → Bool → ℕ → SharedInfo → Environment
meets e first size info = record e { is_first = first; size = some size; shared = info }

-- createTool for the IPC tool in three processes, one after the other and each on a source whose
-- size is found: the first gets a reader and leaves its destination in ProcInfo, the second gets a
-- writer for that destination, whatever its own command line names, and the third gets no role and
-- leaves ProcInfo as it is; the counters go from none to one reader, and to one of each.
pub create_tool-joined :
    (e f g : Environment) (vm vm' vm'' : ParsedOptions) (size size' size'' : ℕ) (old : String)
    → (create_tool (meets e true size (joined 0 0 old)) vm ipc
        ≡ ok (ipc_tool reader_process (some (Buffered.new_reader size)) none (joined 1 0 vm.dst)))
      × (create_tool (meets f false size' (joined 1 0 vm.dst)) vm' ipc
          ≡ ok (
              ipc_tool writer_process none
                (some (vm.dst, BufferedWriter.new_writer))
                (joined 1 1 vm.dst)))
      × (create_tool (meets g false size'' (joined 1 1 vm.dst)) vm'' ipc
          ≡ ok (ipc_tool invalid (some (Buffered.new_reader size'')) none (joined 1 1 vm.dst)))
unfolding create_tool choose_role register
create_tool-joined e f g vm vm' vm'' size size' size'' old = (refl, refl, refl)
