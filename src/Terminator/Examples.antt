-- ===== src/Terminator/Examples.antt =====
-- src/common/ProcessTerminator.hpp: runs of the program.
use ki.Prelude.{refl, true, false}
use ki.Terminator.{
  copying, returning, exited, Program, launch, advance, reset, interrupt, terminate_handler, act,
  sigint, long_jump, delete, advances, interrupts, Reach, here, step,
}
use ki.Terminator.Safety.{Ended, reached-Ended}
use ki.Terminator.Twice.{Destroys, destroyed_twice}

-- The tool is made, the handlers are set, the point is saved, and the copy is made.
abbrev copies : Program
copies = record launch { stage = copying; pointer = true; handlers = true; saved = true }

to_copying : Reach launch copies
unfolding advance
to_copying =
    step (step (step (step here (advances refl)) (advances refl)) (advances refl)) (advances refl)

abbrev returns : Program
returns = delete (record copies { stage = returning; copied = true }) 0

to_return : Reach launch returns
unfolding advance
to_return = step (step to_copying (advances refl)) (advances refl)

-- Ctrl-C while the thread of `main` copies.
abbrev cancelled : Program
cancelled = record copies {
  stage = exited 1;
  pointer = false;
  jumps = 1;
  begun = 1;
  completed = true;
}

to_cancelled : Reach launch cancelled
unfolding advance reset interrupt act terminate_handler long_jump
to_cancelled =
    step (step (step to_copying (interrupts sigint true refl)) (advances refl)) (advances refl)

reached-Ended_example : Ended cancelled (exited 1)
reached-Ended_example = reached-Ended to_cancelled

destroyed_twice_example : Destroys returns 1 2
destroyed_twice_example = destroyed_twice to_return refl
