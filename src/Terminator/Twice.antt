-- ===== src/Terminator/Twice.antt =====
-- src/common/ProcessTerminator.hpp: an interruption in the destructor of the tool.
use mathlib.Core.Path.{subst}
use ki.Prelude.{ℕ, ◌+◌, ◌≡◌, refl, ap, ◌∙◌, if◌then◌else◌, true, false, some}
use ki.Terminator.{
  jumped, destroying, exited, Program, launch, advance, reset, interrupt, terminate_handler, act,
  sigint, long_jump, in_destructor, delete, advances, interrupts, Reach, here, step,
}
use ki.Terminator.Safety.{At, Reach-Inv}

-- The moves after the jump out of the destructor.
abbrev torn_jump : Program → Program
torn_jump s = record s { stage = jumped; jumps = s.jumps + 1; torn = true }

abbrev again : Program → Program
again s = delete (record (torn_jump s) { pointer = false }) 1

abbrev ends : Program → Program
ends s = record (again s) { stage = exited 1; completed = true }

jumps_back :
    (s : Program)
    → s.stage ≡ destroying 0
    → s.handlers ≡ true
    → s.saved ≡ true
    → interrupt sigint true s s.stage ≡ some (torn_jump s)
unfolding interrupt act terminate_handler long_jump
jumps_back s at h k =
    ap (interrupt sigint true s) at
    ∙ ap some (
        ap (λ set. act set sigint true s) h
        ∙ (ap (λ saved. long_jump saved true s) k
            ∙ ap
                (λ stage. record s {
                  stage = jumped;
                  jumps = s.jumps + 1;
                  torn = if in_destructor stage then true else s.torn;
                })
                at))

resets : (s : Program) → s.pointer ≡ true → advance (torn_jump s) jumped ≡ some (again s)
unfolding advance reset
resets s p = ap (λ held. some (reset (torn_jump s) held)) p

-- How a program has ended, and how often it has destroyed its tool.
pub record Destroys (s : Program) (code times : ℕ) : Type 0 where
  pub last : Program
  pub run : Reach s last
  pub exits : last.stage ≡ exited code
  pub destructions : last.begun ≡ times

-- From every state that main reaches in which it destroys the tool on the way to return 0, there is
-- a run with one interruption on the thread of main to an exit with 1 in which the destructor of the
-- tool has begun twice.
pub destroyed_twice : {s : Program} → Reach launch s → s.stage ≡ destroying 0 → Destroys s 1 2
unfolding advance
destroyed_twice {s} run at =
    let ((h, k), v) = subst (At s) at (Reach-Inv run) in
    let jumps = step here (interrupts sigint true (jumps_back s at h k)) in
    record {
      last = ends s;
      run = step (step jumps (advances (resets s v.3))) (advances refl);
      exits = refl;
      destructions = ap (λ n. n + 1) v.1;
    }
