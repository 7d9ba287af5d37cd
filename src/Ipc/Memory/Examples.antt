-- ===== src/Ipc/Memory/Examples.antt =====
-- Two processes of ki on a machine with one shared memory segment.
use ki.Prelude.{ℕ, ◌≡◌, ◌≢◌, refl, true, false, Option, none, some, [], ◌∷◌}
use ki.Error.{Result, ok, err}
use ki.Ipc.ProcInfo.{new_shared_info}
use ki.Ipc.Memory.{
  info_object, created, place_info, find_or_construct, construct_queue, allocate_blocks, or_throw,
  SharedMemoryManager, new_manager, get_queue, info_name,
}
use ki.Ipc.Memory.Sharing.{Shares, new_manager-Shares, TooEarly, create_only-TooEarly}
use ki.Ipc.Memory.Machine.{Machine, machine, machine-BoostLaws}

-- Addresses from 7 on.
abbrev empty : Machine
empty = record { made = false; placed = []; next = 7 }

abbrev informed : Machine
informed = record {
  made = true;
  placed = record { name = info_name; address = 7; object = info_object new_shared_info } ∷ [];
  next = 8;
}

abbrev first : SharedMemoryManager machine
first = record { segment = tt; is_first_process = true; proc_info = some 7; name = "ki" }

first_made : new_manager machine 300 "ki" empty ≡ ok (first, informed)
unfolding new_manager created place_info
first_made = refl

-- Where no queue would have been made, there is no machine either.
after_queue : Machine → Result (Option ℕ × Machine) → Option ℕ × Machine
after_queue m (err x) = (none, m)
after_queue m (ok p) = p

abbrev queued : Option ℕ × Machine
unfolding after_queue
queued = after_queue informed (get_queue machine first "shQueue" informed)

queue_made : get_queue machine first "shQueue" informed ≡ ok (queued.0, queued.1)
unfolding get_queue find_or_construct construct_queue allocate_blocks or_throw queued after_queue
queue_made = refl

other_name : "shQueue" ≢ info_name
other_name e = absurd (cc e)

new_manager-Shares_example : Shares machine-BoostLaws "ki" "shQueue" first queued.0 queued.1 300
new_manager-Shares_example =
    new_manager-Shares machine-BoostLaws 300 300 other_name refl first_made queue_made

create_only-TooEarly_example :
    TooEarly machine-BoostLaws "ki" "shQueue" (record { made = true; placed = []; next = 7 }) 300
create_only-TooEarly_example =
    create_only-TooEarly machine-BoostLaws 3565468 300 "ki" "shQueue" {m = empty} refl
