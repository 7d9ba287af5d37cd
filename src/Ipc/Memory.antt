-- ===== src/Ipc/Memory.antt =====
-- src/IPC/SharedMemoryManager.cpp: SharedMemoryManager, and the constructor of the queue that it places
-- in the shared memory (src/queue/BufferedQueue.hpp). boost::interprocess is a parameter: what it
-- answers to one call, and the machine after it. It places an object and runs its constructor under
-- the lock of the segment, so an object is found as a whole or not at all.
pub mod Laws
pub mod Machine
pub mod Blocks
pub mod First
pub mod Sharing
mod Examples
use Prim.Native.String.{String}
use ki.Prelude.{
  ℕ, zero, suc, ◌+◌, ◌*◌, ◌/◌, Bool, true, false, Option, none, some, List, [], ◌∷◌, map,
  if◌then◌else◌,
}
use ki.Error.{Result, ok, err, ◌>>=◌, cannot_open_segment, out_of_segment, null_pointer}
use ki.Queue.Buffer.{buffer_size, buffers_in_queue, new_buffer}
use ki.Queue.Fixed.{FixedBufferQueue}
use ki.Ipc.ProcInfo.{SharedInfo, new_shared_info, removes_memory}

-- What the shared memory holds.
pub data Object : Type 0 where
  info_object : SharedInfo → Object
  queue_object : FixedBufferQueue → Object

-- The calls of boost::interprocess; `none` is an exception, or for `find` a null pointer.
pub record Boost : Type 1 where
  pub Machine : Type 0
  pub Segment : Type 0
  pub create_only : String → ℕ → Machine → Option (Segment × Machine)
  pub open_only : String → Machine → Option Segment
  pub construct : Segment → String → Object → Machine → Option (ℕ × Machine)
  pub find : Segment → String → Machine → Option ℕ
  pub object_at : ℕ → Machine → Option Object
  pub store : ℕ → Object → Machine → Machine
  -- One block for the bytes of a buffer.
  pub allocate : Segment → Machine → Option (ℕ × Machine)
  pub remove : String → Machine → Bool × Machine

unfoldable pub or_throw {ℓ} : {A : Type ℓ} → Option A → Result A
or_throw none = err out_of_segment
or_throw (some a) = ok a

-- `calculateNeededSize`, for the `sizeof` of the queue.
abbrev pub needed_size : ℕ → ℕ
needed_size queue_bytes = (buffer_size * buffers_in_queue + queue_bytes) * 17 / 10

abbrev pub info_name : String
info_name = "kiProcInfo"

module _ (b : Boost) where
  pub record SharedMemoryManager : Type 0 where
    pub segment : Boost.Segment b
    pub is_first_process : Bool
    pub proc_info : Option ℕ  -- `none` is a null pointer
    pub name : String

  -- The handler of the constructor: it opens what another process has created.
  attach : Bool → String → Boost.Machine b → Option (Boost.Segment b) → Result SharedMemoryManager
  attach first name m none = err cannot_open_segment
  attach first name m (some g) = ok (record {
    segment = g;
    is_first_process = first;
    proc_info = Boost.find b g info_name m;
    name = name;
  })

  attached : Bool → String → Boost.Machine b → Result (SharedMemoryManager × Boost.Machine b)
  unfolding attach
  attached first name m = do
    manager ← attach first name m (Boost.open_only b name m)
    ok (manager, m)

  -- After `create_only`: an exception of `construct` also leads to the handler.
  place_info :
      String
      → Boost.Segment b
      → Boost.Machine b
      → Option (ℕ × Boost.Machine b)
      → Result (SharedMemoryManager × Boost.Machine b)
  unfolding attached
  place_info name g m none = attached true name m
  place_info name g m (some (a, m')) =
      ok (record { segment = g; is_first_process = true; proc_info = some a; name = name }, m')

  created :
      String
      → Boost.Machine b
      → Option (Boost.Segment b × Boost.Machine b)
      → Result (SharedMemoryManager × Boost.Machine b)
  unfolding attached place_info
  created name m none = attached false name m
  created name m (some (g, m')) =
      place_info name g m' (Boost.construct b g info_name (info_object new_shared_info) m')

  -- The constructor.
  unfoldable pub new_manager :
      ℕ → String → Boost.Machine b → Result (SharedMemoryManager × Boost.Machine b)
  unfolding created
  new_manager queue_bytes name m =
      created name m (Boost.create_only b name (needed_size queue_bytes) m)

  -- The loop of the queue's constructor: the blocks, in the order of their allocation.
  unfoldable pub allocate_blocks :
      ℕ → Boost.Segment b → Boost.Machine b → Result (List ℕ × Boost.Machine b)
  unfolding or_throw
  allocate_blocks zero g m = ok ([], m)
  allocate_blocks (suc n) g m = do
    (a, m') ← or_throw (Boost.allocate b g m)
    (blocks, m'') ← allocate_blocks n g m'
    ok (a ∷ blocks, m'')

  -- The constructor of the queue for IPCTool: every buffer is free, and the queue is closed.
  abbrev pub queue_of : List ℕ → FixedBufferQueue
  queue_of blocks = record {
    read_buffers = map new_buffer blocks;
    write_buffers = [];
    is_open = false;
    is_read_finished = false;
  }

  construct_queue : Boost.Segment b → String → Boost.Machine b → Result (Option ℕ × Boost.Machine b)
  unfolding or_throw allocate_blocks
  construct_queue g name m = do
    (blocks, m') ← allocate_blocks buffers_in_queue g m
    (a, m'') ← or_throw (Boost.construct b g name (queue_object (queue_of blocks)) m')
    ok (some a, m'')

  find_or_construct :
      Bool → Boost.Segment b → String → Boost.Machine b → Result (Option ℕ × Boost.Machine b)
  unfolding construct_queue
  find_or_construct true g name m = construct_queue g name m
  find_or_construct false g name m = ok (Boost.find b g name m, m)

  -- `getQueue`: the pointer, null where the queue is not found.
  unfoldable pub get_queue :
      SharedMemoryManager → String → Boost.Machine b → Result (Option ℕ × Boost.Machine b)
  unfolding find_or_construct
  get_queue manager name m = find_or_construct manager.is_first_process manager.segment name m

  -- `getProcInfo`
  abbrev pub get_proc_info : SharedMemoryManager → Option ℕ
  get_proc_info manager = manager.proc_info

  -- `isFirstProcess`
  abbrev pub is_first : SharedMemoryManager → Bool
  is_first manager = manager.is_first_process

  -- `tryRemoveActiveSharedMemoryObject`
  abbrev pub try_remove : SharedMemoryManager → Boost.Machine b → Boost.Machine b
  try_remove manager m = (Boost.remove b manager.name m).1

  unfoldable pub finish :
      SharedMemoryManager → Boost.Machine b → Option Object → Result (Boost.Machine b)
  finish manager m none = err null_pointer
  finish manager m (some (queue_object q)) = err null_pointer
  finish manager m (some (info_object info)) =
      if removes_memory info.counters then ok (try_remove manager m) else ok m

  unfoldable pub pointed : Boost.Machine b → Option ℕ → Option Object
  pointed m none = none
  pointed m (some a) = Boost.object_at b a m

  -- The destructor, which reads the counters through `procInfo`.
  unfoldable pub end_manager : SharedMemoryManager → Boost.Machine b → Result (Boost.Machine b)
  unfolding finish pointed
  end_manager manager m = finish manager m (pointed m manager.proc_info)
