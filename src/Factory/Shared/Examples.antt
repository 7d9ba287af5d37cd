-- ===== src/Factory/Shared/Examples.antt =====
-- Processes of the IPC tool on a machine with one shared memory segment.
use ki.Prelude.{ℕ, ◌≡◌, refl, if◌then◌else◌, Bool, true, false, Option, none, some, [], ◌∷◌}
use ki.Error.{Result, ok, err, cannot_size_file}
use ki.Ipc.ProcInfo.{new_shared_info, choose_role, register}
use ki.Ipc.Memory.{new_manager, get_queue, allocate_blocks, or_throw}
use ki.Ipc.Memory.Machine.{Machine, machine, machine-BoostLaws, address_of, object_of, put_object}
use ki.Options.{ParsedOptions}
use ki.Factory.{Environment, create_tool}
use ki.Factory.Shared.{Process, create_shared, build}
use ki.Factory.Shared.Lifetime.{Lives, create_shared-end_tool}
use ki.Factory.Shared.Processes.{Pairs, create_shared-pair}

abbrev empty : Machine
empty = record { made = false; placed = []; next = 7 }

-- The second process names another destination.
abbrev command : Bool → ParsedOptions
command first = record {
  help_count = 0;
  src_count = 1;
  dst_count = 1;
  type_count = 1;
  shobj_count = 1;
  src = "source";
  dst = if first then "first" else "second";
  tool = "ipc";
  shared_obj_name = "ki";
}

-- A source of three bytes.
abbrev place : Environment
place = record {
  page = 4096;
  found = true;
  size = some 3;
  source = some (75 ∷ 105 ∷ 33 ∷ []);
  mapped_source = none;
  destination = none;
  accepted = true;
  opened = true;
  resized = true;
  mapped_destination = none;
  is_first = false;
  shared = new_shared_info;
}

-- The first process of a call that has not thrown.
came_back :
    Process machine × Machine → Result (Process machine × Machine) → Process machine × Machine
came_back p (err x) = p
came_back p (ok q) = q

abbrev no_process : Process machine × Machine
no_process = (
  record {
    manager = record { segment = tt; is_first_process = false; proc_info = none; name = "" };
    queue = none;
    tool = err cannot_size_file;
  },
  empty,
)

abbrev started : Option ℕ → Process machine × Machine
unfolding came_back
started size =
    came_back no_process
      (create_shared machine 300 (record place { size = size }) (command true) empty)

well_started :
    create_shared machine 300 (record place { size = some 3 }) (command true) empty
    ≡ ok ((started (some 3)).0, (started (some 3)).1)
unfolding create_shared new_manager get_queue allocate_blocks or_throw build create_tool choose_role
    register came_back address_of object_of put_object started
well_started = refl

create_shared-pair_example :
    Pairs machine-BoostLaws 300 place
      (command true)
      (command false)
      3
      (started (some 3)).0
      (started (some 3)).1
create_shared-pair_example =
    create_shared-pair machine-BoostLaws 300 place place (command true) (command false) 3 refl refl
      well_started

create_shared-end_tool_example :
    Lives machine-BoostLaws 300 place
      (command true)
      (command false)
      3
      (started (some 3)).0
      (started (some 3)).1
create_shared-end_tool_example =
    create_shared-end_tool machine-BoostLaws 300 place place (command true) (command false) 3 refl
      refl well_started
