-- ===== src/Ipc/Observer/Thread/Stop.antt =====
-- src/IPC/SiblingProcessObserver.cpp: the destructor waits for a thread that comes to its end.
use mathlib.Core.Path.{subst}
use ki.Prelude.{
  ℕ, zero, suc, ◌<◌, ◌≤◌, ◌≡◌, refl, sym, ap, ◌∙◌, Bool, true, false, some, arith, eq_of_some,
  if◌then◌else◌, ◌⊎◌, inl, inr,
}
use ki.Ipc.Observer.{Observer, Poll, poll}
use ki.Ipc.Observer.Thread.{
  joining, destroyed, ThreadPc, not_started, test_stop, look, asleep, calling, ended, Watch,
  new_watch, thread_move, owner_move, after_poll, join, Step, runs, owns, Reach,
}
use ki.Ipc.Observer.Thread.Refinement.{Owned, Reach-Inv}

-- Every run has at most so many steps, and its last state has the observer destroyed.
abbrev pub AllEnd : ℕ → Watch → Type 0
AllEnd zero w = (w.owner ≡ destroyed) × ((v : Watch) → ¬ (Step w v))
AllEnd (suc n) w =
    ((w.owner ≡ destroyed) × ((v : Watch) → ¬ (Step w v)))
    ⊎ (((v : Watch) × Step w v) × ((v : Watch) → Step w v → AllEnd n v))

-- The moves that the thread still makes once the stop is requested.
abbrev rank : ThreadPc → ℕ
rank look = 3
rank asleep = 2
rank test_stop = 1
rank calling = 1
rank ended = 0
rank not_started = 0

still : (p : Poll) (w v : Watch) → ¬ (thread_move p w not_started ≡ some v)
unfolding thread_move
still p w v e = cc e

over : (p : Poll) (w v : Watch) → ¬ (thread_move p w ended ≡ some v)
unfolding thread_move
over p w v e = cc e

no_step :
    (w v : Watch)
    → w.owner ≡ destroyed
    → (w.thread ≡ not_started) ⊎ (w.thread ≡ ended)
    → ¬ (Step w v)
unfolding owner_move
no_step w v d (inl t) (runs p e) = still p w v (sym (ap (thread_move p w) t) ∙ e)
no_step w v d (inr t) (runs p e) = over p w v (sym (ap (thread_move p w) t) ∙ e)
no_step w v d t (owns starts e) = absurd (cc (ap (owner_move starts w) d, e))

-- The thread, once the stop is requested.
record Drops (t : ThreadPc) (w v : Watch) : Type 0 where
  owner : v.owner ≡ w.owner
  stop : v.stop_requested ≡ true
  lower : rank v.thread < rank t

look-Drops :
    (p : Poll) (w : Watch) (has_info : Bool) (r : Observer × Bool)
    → w.stop_requested ≡ true
    → Drops look w (if has_info then after_poll w p r else record w { thread = asleep })
unfolding after_poll
look-Drops p w true (o, true) h = record { owner = refl; stop = h; lower = omega arith }
look-Drops p w true (o, false) h = record { owner = refl; stop = h; lower = omega arith }
look-Drops p w false r h = record { owner = refl; stop = h; lower = omega arith }

thread_move-Drops :
    (p : Poll) (w : Watch) (t : ThreadPc) {v : Watch}
    → w.stop_requested ≡ true
    → thread_move p w t ≡ some v
    → Drops t w v
unfolding thread_move
thread_move-Drops p w not_started h e = absurd (cc e)
thread_move-Drops p w test_stop h e =
    subst (Drops test_stop w)
      (ap (λ stop. record w { thread = if stop then ended else look }) (sym h) ∙ eq_of_some e)
      (record { owner = refl; stop = h; lower = omega arith })
thread_move-Drops p w look h e =
    subst (Drops look w) (eq_of_some e) (look-Drops p w w.has_info (poll p w.observer) h)
thread_move-Drops p w asleep h e =
    subst (Drops asleep w) (eq_of_some e) (record { owner = refl; stop = h; lower = omega arith })
thread_move-Drops p w calling h e =
    subst (Drops calling w) (eq_of_some e) (record { owner = refl; stop = h; lower = omega arith })
thread_move-Drops p w ended h e = absurd (cc e)

join-destroyed :
    (w : Watch) (t : ThreadPc) {v : Watch}
    → w.thread ≡ t
    → join w t ≡ some v
    → (v.owner ≡ destroyed) × ((v.thread ≡ not_started) ⊎ (v.thread ≡ ended))
unfolding join
join-destroyed w not_started at e =
    subst (λ v. (v.owner ≡ destroyed) × ((v.thread ≡ not_started) ⊎ (v.thread ≡ ended)))
      (eq_of_some e) (refl, inl at)
join-destroyed w ended at e =
    subst (λ v. (v.owner ≡ destroyed) × ((v.thread ≡ not_started) ⊎ (v.thread ≡ ended)))
      (eq_of_some e) (refl, inr at)
join-destroyed w test_stop at e = absurd (cc e)
join-destroyed w look at e = absurd (cc e)
join-destroyed w asleep at e = absurd (cc e)
join-destroyed w calling at e = absurd (cc e)

destroyed-AllEnd :
    (n : ℕ) (w : Watch)
    → w.owner ≡ destroyed
    → (w.thread ≡ not_started) ⊎ (w.thread ≡ ended)
    → AllEnd n w
destroyed-AllEnd zero w d t = (d, λ v. no_step w v d t)
destroyed-AllEnd (suc n) w d t = inl (d, λ v. no_step w v d t)

-- Somebody can move.
abbrev any_round : Poll
any_round = record { count = 0; now = 0 }

some_step : (w : Watch) (t : ThreadPc) → w.thread ≡ t → w.owner ≡ joining → (v : Watch) × Step w v
unfolding thread_move owner_move join
some_step w not_started at j = (_, owns false (ap (owner_move false w) j ∙ ap (join w) at))
some_step w ended at j = (_, owns false (ap (owner_move false w) j ∙ ap (join w) at))
some_step w test_stop at j = (_, runs any_round (ap (thread_move any_round w) at))
some_step w look at j = (_, runs any_round (ap (thread_move any_round w) at))
some_step w asleep at j = (_, runs any_round (ap (thread_move any_round w) at))
some_step w calling at j = (_, runs any_round (ap (thread_move any_round w) at))

joined-AllEnd :
    (n : ℕ) (w v : Watch) (starts : Bool)
    → w.owner ≡ joining
    → owner_move starts w w.owner ≡ some v
    → AllEnd n v
unfolding owner_move
joined-AllEnd n w v starts j e =
    let d = join-destroyed w w.thread refl (sym (ap (owner_move starts w) j) ∙ e) in
    destroyed-AllEnd n v d.0 d.1

step-AllEnd :
    (n : ℕ) (w v : Watch)
    → ((u : Watch)
        → rank u.thread < rank w.thread
        → u.owner ≡ joining
        → u.stop_requested ≡ true
        → AllEnd n u)
    → w.owner ≡ joining
    → (w.thread ≡ not_started) ⊎ (w.stop_requested ≡ true)
    → Step w v
    → AllEnd n v
step-AllEnd n w v rest j (inl t) (runs p e) =
    absurd (still p w v (sym (ap (thread_move p w) t) ∙ e))
step-AllEnd n w v rest j (inr h) (runs p e) =
    let d = thread_move-Drops p w w.thread h e in rest v d.lower (d.owner ∙ j) d.stop
step-AllEnd n w v rest j d (owns starts e) = joined-AllEnd n w v starts j e

joining-AllEnd :
    (n : ℕ) (w : Watch)
    → rank w.thread ≤ n
    → w.owner ≡ joining
    → (w.thread ≡ not_started) ⊎ (w.stop_requested ≡ true)
    → AllEnd (suc n) w
joining-AllEnd zero w le j d = inr (
  some_step w w.thread refl j,
  λ v. step-AllEnd 0 w v (λ u lower j' h. absurd (omega (arith, lower, le))) j d,
)
joining-AllEnd (suc n) w le j d = inr (
  some_step w w.thread refl j,
  λ v.
      step-AllEnd (suc n) w v
        (λ u lower j' h. joining-AllEnd n u (omega (arith, lower, le)) j' (inr h)) j d,
)

rank-le : (t : ThreadPc) → rank t ≤ 3
rank-le not_started = omega arith
rank-le test_stop = omega arith
rank-le look = omega arith
rank-le asleep = omega arith
rank-le calling = omega arith
rank-le ended = omega arith

-- In every state that a SiblingProcessObserver and its thread reach in which the destructor has
-- requested the stop, if a callback that is called returns: until the observer is destroyed there is
-- always a step, every order of steps comes to that within four, and no step follows it.
pub joining-ends :
    (has_info : Bool) (prev watch : ℕ) {w : Watch}
    → Reach (new_watch has_info prev watch) w
    → w.owner ≡ joining
    → AllEnd 4 w
joining-ends has_info prev watch {w} run j =
    joining-AllEnd 3 w (rank-le w.thread) j
      (subst (λ x. Owned x w.thread w.stop_requested) j (Reach-Inv has_info prev watch run).owned)
