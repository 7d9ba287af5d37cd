-- ===== src/Ipc/Examples.antt =====
-- Processes that choose and register, and rounds of the observer (src/common/IPCTool.hpp,
-- src/IPC/SiblingProcessObserver.cpp).
use ki.Prelude.{ℕ, ◌*◌, ◌≤◌, ◌≡◌, refl, ◌↔◌, true, false, List, [], ◌∷◌, arith}
use ki.Ipc.ProcInfo.{choose_role, register, removes_memory, reader_process, invalid}
use ki.Ipc.Roles.{running, Processes, Reach, launch, here, step, chooses, registers}
use ki.Ipc.Roles.Exclusion.{reads, writes, total, roles_exclusive, removes_memory-iff-idle}
use ki.Ipc.Observer.{Poll, observe_siblings, new_observer, poll, tick}
use ki.Ipc.Observer.Callback.{Spaced, callback-Spaced}
use ki.Ipc.Observer.Timeout.{AllAbsent, Ordered, Silence, callback-Silence}

-- After both processes have chosen to read before one of them has registered: process 1 registers
-- first, and process 0 gets no role.
abbrev raced : Processes
raced = record {
  info = record { is_writing_started = false; reader_process_count = 1; writer_process_count = 0 };
  stages = running invalid ∷ running reader_process ∷ [];
}

race : Reach (launch 2) raced
unfolding choose_role register
race =
    step
      (step (step (step here (chooses 0 refl)) (chooses 1 refl)) (registers 1 reader_process refl))
      (registers 0 reader_process refl)

roles_exclusive_example :
    (total reads raced.stages ≤ 1)
    × (total writes raced.stages ≤ 1)
    × (raced.info.reader_process_count ≡ total reads raced.stages)
    × (raced.info.writer_process_count ≡ total writes raced.stages)
roles_exclusive_example = roles_exclusive 2 raced race

removes_memory-iff-idle_example :
    (removes_memory raced.info ≡ true)
    ↔ ((total reads raced.stages ≡ 0) × (total writes raced.stages ≡ 0))
removes_memory-iff-idle_example = removes_memory-iff-idle 2 raced race

-- A sibling at first, then none for eleven seconds.
abbrev rounds : List Poll
rounds =
    (record { count = 1; now = 1000000000 })
    ∷ (record { count = 0; now = 2000000000 })
    ∷ (record { count = 0; now = 3000000000 })
    ∷ (record { count = 0; now = 13500000000 })
    ∷ []

rounds-Ordered : Ordered 0 rounds
rounds-Ordered = (omega arith, (omega arith, (omega arith, (omega arith, tt))))

rounds_call : observe_siblings rounds (new_observer 5 6) ≡ true
unfolding observe_siblings poll tick
rounds_call = refl

callback-Silence_example : Silence rounds
callback-Silence_example = callback-Silence rounds 0 5 6 rounds-Ordered rounds_call

-- A sibling, and then none in eleven rounds, a second apart.
abbrev absent_at : ℕ → Poll
absent_at seconds = record { count = 0; now = seconds * 1000000000 }

abbrev present : Poll
present = record { count = 1; now = 1000000000 }

abbrev ten_seconds : List Poll
ten_seconds =
    absent_at 3
    ∷ absent_at 4
    ∷ absent_at 5
    ∷ absent_at 6
    ∷ absent_at 7
    ∷ absent_at 8
    ∷ absent_at 9
    ∷ absent_at 10
    ∷ absent_at 11
    ∷ absent_at 12
    ∷ []

ten_seconds-Spaced : Spaced (absent_at 2).now ten_seconds
ten_seconds-Spaced = omega arith

ten_seconds-AllAbsent : AllAbsent (absent_at 2 ∷ ten_seconds)
ten_seconds-AllAbsent = omega arith

callback-Spaced_example :
    observe_siblings (present ∷ absent_at 2 ∷ ten_seconds) (new_observer 5 6) ≡ true
callback-Spaced_example =
    callback-Spaced (present ∷ []) (absent_at 2) ten_seconds [] (new_observer 5 6)
      ten_seconds-AllAbsent ten_seconds-Spaced (omega arith)
