-- ===== src/Factory/Shared.antt =====
-- src/common/PseudoToolFactory.hpp: createTool for the IPC tool over the objects in the shared memory
-- (src/IPC/SharedMemoryManager.cpp), with no other process in between. What a process has stored
-- stays stored when it throws: nothing catches the exception, so no destructor runs.
pub mod Laws
pub mod Processes
pub mod Lifetime
pub mod Stuck
mod Examples
use Prim.Native.String.{String}
use ki.Prelude.{ℕ, ◌≡◌, Option, none, some}
use ki.Error.{Result, ok, err, ◌>>=◌, null_pointer}
use ki.Ipc.ProcInfo.{SharedInfo}
use ki.Ipc.Memory.{
  Boost, Object, info_object, queue_object, SharedMemoryManager, new_manager, get_queue,
  get_proc_info, is_first,
}
use ki.Options.{ipc, ParsedOptions, get_dst, get_shared_obj_name}
use ki.Factory.{Environment, Tool, parallel_tool, buffered_tool, ipc_tool, prepared, create_tool}

abbrev pub queue_name : String
queue_name = "shQueue"

-- What createTool leaves in the structure: with an exception, what it had prepared.
abbrev pub left_behind : SharedInfo → Result Tool → SharedInfo
left_behind info (err x) = info
left_behind info (ok (parallel_tool r w q)) = info
left_behind info (ok (buffered_tool r w q)) = info
left_behind info (ok (ipc_tool role r w info')) = info'

module _ (b : Boost) where
  -- The process once its tool is constructed, or has thrown.
  pub record Process : Type 0 where
    pub manager : SharedMemoryManager b
    pub queue : Option ℕ  -- `none` is a null pointer
    pub tool : Result Tool

  -- The environment with what the shared memory holds.
  abbrev pub finds : Environment → SharedMemoryManager b → SharedInfo → Environment
  finds e manager info = record e { is_first = is_first b manager; shared = info }

  -- The tool, and the machine after the writes to the structure.
  unfoldable pub build :
      Environment
      → ParsedOptions
      → SharedMemoryManager b
      → Option ℕ
      → ℕ
      → SharedInfo
      → Boost.Machine b
      → Process × Boost.Machine b
  build e vm manager queue a info m =
      let tool = create_tool (finds e manager info) vm ipc in
      (
        record { manager = manager; queue = queue; tool = tool },
        Boost.store b a
            (info_object (left_behind (prepared (is_first b manager) (get_dst vm) info) tool)) m,
      )

  build_at :
      Environment
      → ParsedOptions
      → SharedMemoryManager b
      → Option ℕ
      → ℕ
      → Boost.Machine b
      → Option Object
      → Result (Process × Boost.Machine b)
  unfolding build
  build_at e vm manager queue a m none = err null_pointer
  build_at e vm manager queue a m (some (queue_object q)) = err null_pointer
  build_at e vm manager queue a m (some (info_object info)) = ok (build e vm manager queue a info m)

  -- The accesses through `getProcInfo`.
  build_through :
      Environment
      → ParsedOptions
      → SharedMemoryManager b
      → Option ℕ
      → Boost.Machine b
      → Option ℕ
      → Result (Process × Boost.Machine b)
  unfolding build_at
  build_through e vm manager queue m none = err null_pointer
  build_through e vm manager queue m (some a) =
      build_at e vm manager queue a m (Boost.object_at b a m)

  unfoldable pub create_shared :
      ℕ → Environment → ParsedOptions → Boost.Machine b → Result (Process × Boost.Machine b)
  unfolding build_through
  create_shared queue_bytes e vm m = do
    (manager, m') ← new_manager b queue_bytes (get_shared_obj_name vm) m
    (queue, m'') ← get_queue b manager queue_name m'
    build_through e vm manager queue m'' (get_proc_info b manager)
