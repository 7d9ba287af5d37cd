-- ===== src/Terminator/Safety.antt =====
-- src/common/ProcessTerminator.hpp: what has become of the tool when the program has ended.
use mathlib.Core.Path.{subst}
use ki.Prelude.{
  zero, suc, ◌≤◌, ◌<◌, ◌≡◌, refl, sym, ap, ◌∙◌, Bool, true, false, some, arith, eq_of_some,
  if◌then◌else◌,
}
use ki.Terminator.{
  Stage, parsing, creating, arming, saving, copying, returning, jumped, destroying, exited, killed,
  undefined, Program, launch, advance, reset, interrupt, terminate_handler, act, Interruption,
  uncaught, sigabrt, sigint, other_signal, get_instance, long_jump, in_destructor, Step, advances,
  interrupts, Reach, here, step,
}

-- Nothing has been destroyed, and nothing has jumped.
abbrev pub IsWhole : Program → Type 0
IsWhole s = (s.begun ≡ 0) × (s.jumps ≡ 0) × (s.torn ≡ false)

abbrev pub IsUnarmed : Program → Type 0
IsUnarmed s = (s.handlers ≡ false) × (s.saved ≡ false) × IsWhole s

abbrev pub IsArmed : Program → Type 0
IsArmed s = (s.handlers ≡ true) × (s.saved ≡ true)

-- Only a signal without a handler ends the program by its default action at any time.
abbrev pub Killed : Program → Interruption → Type 0
Killed s uncaught = (s.handlers ≡ false) × (s.begun ≡ 0)
Killed s sigabrt = (s.handlers ≡ false) × (s.begun ≡ 0)
Killed s sigint = (s.handlers ≡ false) × (s.begun ≡ 0)
Killed s other_signal = Unit {0}

-- What is known of the program where its thread stands.
abbrev pub At : Program → Stage → Type 0
At s parsing = IsUnarmed s
At s creating = IsUnarmed s
At s arming = IsUnarmed s × (s.pointer ≡ true)
At s saving = (s.handlers ≡ true) × (s.saved ≡ false) × (IsWhole s × (s.pointer ≡ true))
At s copying = IsArmed s × (IsWhole s × (s.pointer ≡ true))
At s returning = IsArmed s × (IsWhole s × (s.pointer ≡ true) × (s.copied ≡ true))
At s (destroying zero) =
    IsArmed s
    × ((s.jumps ≡ 0) × (s.begun ≡ 1) × (s.torn ≡ false) × (s.pointer ≡ true) × (s.copied ≡ true))
At s jumped =
    IsArmed s
    × ((0 < s.jumps)
        × (s.begun ≤ 2)
        × (s.pointer ≡ true → s.begun ≤ 1)
        × (s.torn ≡ false → (s.begun ≡ 0) × (s.pointer ≡ true))
        × (s.pointer ≡ false → 0 < s.begun))
At s (destroying (suc zero)) =
    IsArmed s
    × ((0 < s.jumps)
        × (0 < s.begun)
        × (s.begun ≤ 2)
        × (s.pointer ≡ false)
        × (s.torn ≡ false → s.begun ≡ 1))
At s (destroying (suc (suc code))) = ⊥
At s (exited zero) = (s.copied ≡ true) × (s.jumps ≡ 0) × (s.begun ≡ 1) × (s.completed ≡ true)
At s (exited (suc zero)) =
    (0 < s.jumps)
    × (0 < s.begun)
    × (s.begun ≤ 2)
    × (s.torn ≡ false → (s.begun ≡ 1) × (s.completed ≡ true))
At s (exited (suc (suc code))) = ⊥
At s (killed i) = Killed s i
At s undefined = s.handlers ≡ true

abbrev pub Inv : Program → Type 0
Inv s = At s s.stage

reset-Inv : (s : Program) (p : Bool) → s.pointer ≡ p → At s jumped → Inv (reset s p)
unfolding reset
reset-Inv s true e (armed, v) = (armed, ground arith)
reset-Inv s false e (armed, v) = ground arith

get_instance-handlers :
    (s : Program) (set : Bool) → s.handlers ≡ set → get_instance s ≡ record s { handlers = true }
unfolding get_instance
get_instance-handlers s true e = rw e refl
get_instance-handlers s false e = ap (λ set. if set then s else record s { handlers = true }) e

advance-Inv : (s t : Program) (stage : Stage) → At s stage → advance s stage ≡ some t → Inv t
unfolding advance
advance-Inv s t parsing v e = subst Inv (eq_of_some e) v
advance-Inv s t creating v e = subst Inv (eq_of_some e) (v, refl)
advance-Inv s t arming ((h, k, w), p) e =
    subst Inv
      (ap (λ (x : Program). record x { stage = saving }) (sym (get_instance-handlers s false h))
        ∙ eq_of_some e)
      (refl, k, (w, p))
advance-Inv s t saving (h, k, w) e = subst Inv (eq_of_some e) ((h, refl), w)
advance-Inv s t copying (a, (w, p)) e = subst Inv (eq_of_some e) (a, (w, p, refl))
advance-Inv s t returning (a, (w, p, c)) e =
    subst Inv (eq_of_some e) (a, (omega (arith, w), omega (arith, w), w.2, p, c))
advance-Inv s t jumped v e = subst Inv (eq_of_some e) (reset-Inv s s.pointer refl v)
advance-Inv s t (destroying zero) v e = subst Inv (eq_of_some e) (ground arith)
advance-Inv s t (destroying (suc zero)) v e = subst Inv (eq_of_some e) (ground arith)
advance-Inv s t (destroying (suc (suc code))) v e = absurd v
advance-Inv s t (exited code) v e = absurd (cc e)
advance-Inv s t (killed i) v e = absurd (cc e)
advance-Inv s t undefined v e = absurd (cc e)

-- What a jump finds, with the destructor that it leaves.
abbrev Jumps : Program → Bool → Type 0
Jumps s torn =
    (s.begun ≤ 2)
    × (s.pointer ≡ true → s.begun ≤ 1)
    × (torn ≡ false → (s.begun ≡ 0) × (s.pointer ≡ true))
    × (s.pointer ≡ false → 0 < s.begun)

abbrev torn_by : Program → Bool
torn_by s = if in_destructor s.stage then true else s.torn

long_jump-Inv :
    (s : Program) (saved on_main : Bool)
    → s.handlers ≡ true
    → s.saved ≡ saved
    → (saved ≡ true → Jumps s (torn_by s))
    → Inv (long_jump saved on_main s)
unfolding long_jump
long_jump-Inv s true true h k j = let (a, c, d, f) = j refl in ((h, k), (omega arith, a, c, d, f))
long_jump-Inv s true false h k j = h
long_jump-Inv s false on_main h k j = h

unarmed-Killed : (s : Program) (i : Interruption) → s.handlers ≡ false → s.begun ≡ 0 → Killed s i
unarmed-Killed s uncaught h w = (h, w)
unarmed-Killed s sigabrt h w = (h, w)
unarmed-Killed s sigint h w = (h, w)
unarmed-Killed s other_signal h w = tt

act-Inv :
    (s : Program) (handlers : Bool) (i : Interruption) (on_main : Bool)
    → s.handlers ≡ handlers
    → (handlers ≡ false → s.begun ≡ 0)
    → (handlers ≡ true → s.saved ≡ true → Jumps s (torn_by s))
    → Inv (act handlers i on_main s)
unfolding act terminate_handler
act-Inv s true uncaught on_main h w j = long_jump-Inv s s.saved on_main h refl (j refl)
act-Inv s true sigabrt on_main h w j = long_jump-Inv s s.saved on_main h refl (j refl)
act-Inv s true sigint on_main h w j = long_jump-Inv s s.saved on_main h refl (j refl)
act-Inv s true other_signal on_main h w j = tt
act-Inv s false i on_main h w j = unarmed-Killed s i h (w refl)

-- With the buffer filled, the default action is out of the question.
armed_jump :
    (s : Program) (torn : Bool)
    → IsArmed s
    → Jumps s torn
    → (s.handlers ≡ false → s.begun ≡ 0) × (s.handlers ≡ true → s.saved ≡ true → Jumps s torn)
armed_jump s torn a j = (λ h. absurd (cc (a.0, h)), λ h k. j)

whole-Jumps : (s : Program) → IsWhole s → s.pointer ≡ true → Jumps s s.torn
whole-Jumps s w p =
    (omega (arith, w), λ h. omega (arith, w), λ h. (w.0, p), λ h. absurd (cc (p, h)))

interrupt-At :
    (i : Interruption) (s : Program) (stage : Stage) (on_main : Bool) {t : Program}
    → At s stage
    → interrupt i on_main s stage ≡ some t
    → (s.handlers ≡ false → s.begun ≡ 0)
      × (s.handlers ≡ true
          → s.saved ≡ true
          → Jumps s (if in_destructor stage then true else s.torn))
unfolding interrupt
interrupt-At i s parsing b v e = (λ h. v.2.0, λ h k. absurd (cc (v.0, h)))
interrupt-At i s creating b v e = (λ h. v.2.0, λ h k. absurd (cc (v.0, h)))
interrupt-At i s arming b v e = (λ h. v.0.2.0, λ h k. absurd (cc (v.0.0, h)))
interrupt-At i s saving b v e = (λ h. v.2.0.0, λ h k. absurd (cc (v.1, k)))
interrupt-At i s copying b v e = armed_jump s s.torn v.0 (whole-Jumps s v.1.0 v.1.1)
interrupt-At i s returning b v e = armed_jump s s.torn v.0 (whole-Jumps s v.1.0 v.1.1)
interrupt-At i s jumped b (a, v) e = armed_jump s s.torn a (v.1, v.2, v.3, v.4)
interrupt-At i s (destroying zero) b (a, v) e =
    armed_jump s true a
      (omega (arith, v), λ h. omega (arith, v), λ h. absurd (cc h), λ h. omega (arith, v))
interrupt-At i s (destroying (suc zero)) b (a, v) e =
    armed_jump s true a (v.2, λ h. absurd (cc (v.3, h)), λ h. absurd (cc h), λ h. v.1)
interrupt-At i s (destroying (suc (suc code))) b v e = absurd v
interrupt-At i s (exited code) b v e = absurd (cc e)
interrupt-At i s (killed j) b v e = absurd (cc e)
interrupt-At i s undefined b v e = absurd (cc e)

interrupted :
    (i : Interruption) (s : Program) (stage : Stage) (on_main : Bool) {t : Program}
    → interrupt i on_main s stage ≡ some t
    → act s.handlers i on_main s ≡ t
unfolding interrupt
interrupted i s (exited code) b e = absurd (cc e)
interrupted i s (killed j) b e = absurd (cc e)
interrupted i s undefined b e = absurd (cc e)
interrupted i s parsing b e = eq_of_some e
interrupted i s creating b e = eq_of_some e
interrupted i s arming b e = eq_of_some e
interrupted i s saving b e = eq_of_some e
interrupted i s copying b e = eq_of_some e
interrupted i s returning b e = eq_of_some e
interrupted i s jumped b e = eq_of_some e
interrupted i s (destroying code) b e = eq_of_some e

Step-Inv : {s t : Program} → Step s t → Inv s → Inv t
Step-Inv {s} {t} (advances e) v = advance-Inv s t s.stage v e
Step-Inv {s} {t} (interrupts i b e) v =
    let j = interrupt-At i s s.stage b v e in
    subst Inv (interrupted i s s.stage b e) (act-Inv s s.handlers i b refl j.0 j.1)

pub Reach-Inv : {s : Program} → Reach launch s → Inv s
Reach-Inv here = (refl, refl, (refl, refl, refl))
Reach-Inv (step r st) = Step-Inv st (Reach-Inv r)

-- What has become of the tool, by how the program has ended.
abbrev pub Ended : Program → Stage → Type 0
Ended s (exited zero) = (s.copied ≡ true) × (s.jumps ≡ 0) × (s.begun ≡ 1) × (s.completed ≡ true)
Ended s (exited (suc zero)) =
    (0 < s.jumps)
    × (0 < s.begun)
    × (s.begun ≤ 2)
    × (s.torn ≡ false → (s.begun ≡ 1) × (s.completed ≡ true))
Ended s (exited (suc (suc code))) = ⊥
Ended s (killed i) = Killed s i
Ended s undefined = s.handlers ≡ true
Ended s stage = Unit {0}

At-Ended : (s : Program) (stage : Stage) → At s stage → Ended s stage
At-Ended s (exited zero) v = v
At-Ended s (exited (suc zero)) v = v
At-Ended s (exited (suc (suc code))) v = v
At-Ended s (killed i) v = v
At-Ended s undefined v = v
At-Ended s _ v = tt

-- In every state that main reaches, with signals and uncaught exceptions at any point and on any
-- thread: an exit with 0 comes after copy has returned, without a jump, and the tool has been
-- destroyed once; an exit with 1 comes after a jump, the destructor of the tool has begun once or
-- twice, and where no jump has left it, it has begun once and come to its end; there is no other
-- exit code; where the default action of an uncaught exception, of SIGABRT or of SIGINT has ended
-- the program, the handlers were not set and no destructor had begun, while another signal may end
-- it at any time; a jump to a point that is not saved, or into another stack, comes from the
-- handlers.
pub reached-Ended : {s : Program} → Reach launch s → Ended s s.stage
reached-Ended {s} run = At-Ended s s.stage (Reach-Inv run)
