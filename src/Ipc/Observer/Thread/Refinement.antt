-- ===== src/Ipc/Observer/Thread/Refinement.antt =====
-- src/IPC/SiblingProcessObserver.cpp: the rounds of the thread, and the loop over them.
use mathlib.Core.Path.{subst}
use ki.Prelude.{
  ℕ, ◌+◌, ◌≡◌, refl, sym, ap, ◌∙◌, Bool, true, false, some, List, [], ◌∷◌, ◌++◌, eq_of_some,
  if◌then◌else◌, ◌⊎◌, inl, inr, ◌≢◌,
}
use ki.Ipc.Observer.{Observer, Poll, poll, observe_siblings, new_observer}
use ki.Ipc.Observer.Thread.{
  OwnerPc, constructed, observing, joining, destroyed, ThreadPc, not_started, test_stop, look,
  asleep, calling, ended, Watch, new_watch, thread_move, owner_move, after_poll, join, Step, runs,
  owns, Reach, here, step,
}

-- The loop over the rounds so far goes on as the thread does, or has ended with the callback.
abbrev pub Goes : Observer → Watch → Type 0
Goes o w =
    ((more : List Poll) → observe_siblings (w.seen ++ more) o ≡ observe_siblings more w.observer)
    × (w.calls ≡ 0)

abbrev pub Called : Observer → Watch → Type 0
Called o w = ((more : List Poll) → observe_siblings (w.seen ++ more) o ≡ true) × (w.calls ≡ 1)

abbrev pub At : Observer → Watch → ThreadPc → Type 0
At o w calling = Called o w
At o w ended = Goes o w ⊎ Called o w
At o w not_started = Goes o w
At o w test_stop = Goes o w
At o w look = Goes o w
At o w asleep = Goes o w

-- What the owner has done for the thread to stand there.
abbrev pub Owned : OwnerPc → ThreadPc → Bool → Type 0
Owned constructed t stop = t ≡ not_started
Owned observing t stop = Unit {0}
Owned joining t stop = (t ≡ not_started) ⊎ (stop ≡ true)
Owned destroyed t stop = (t ≡ not_started) ⊎ (t ≡ ended)

pub record Inv (o : Observer) (w : Watch) : Type 0 where
  pub rounds : At o w w.thread
  pub owned : Owned w.owner w.thread w.stop_requested

append_more : (seen more : List Poll) (p : Poll) → (seen ++ (p ∷ [])) ++ more ≡ seen ++ (p ∷ more)
append_more [] more p = refl
append_more (x ∷ seen) more p = ap (◌∷◌ x) (append_more seen more p)

append_nil : (seen : List Poll) → seen ++ [] ≡ seen
append_nil [] = refl
append_nil (x ∷ seen) = ap (◌∷◌ x) (append_nil seen)

-- The rest of the loop after a round.
after_poll-Inv :
    (o : Observer) (w : Watch) (p : Poll) (r : Observer × Bool)
    → ((more : List Poll)
        → observe_siblings ((w.seen ++ (p ∷ [])) ++ more) o
          ≡ (if r.1 then true else observe_siblings more r.0))
    → w.calls ≡ 0
    → Owned w.owner (after_poll w p r).thread w.stop_requested
    → Inv o (after_poll w p r)
unfolding after_poll
after_poll-Inv o w p (o', true) h e v = record { rounds = (h, ap (λ n. n + 1) e); owned = v }
after_poll-Inv o w p (o', false) h e v = record { rounds = (h, e); owned = v }

poll-Goes :
    (o : Observer) (w : Watch) (p : Poll)
    → Goes o w
    → (more : List Poll)
    → observe_siblings ((w.seen ++ (p ∷ [])) ++ more) o
      ≡ (if (poll p w.observer).1 then true else observe_siblings more (poll p w.observer).0)
unfolding observe_siblings
poll-Goes o w p g more =
    ap (λ ps. observe_siblings ps o) (append_more w.seen more p) ∙ g.0 (p ∷ more)

-- A thread that moves from one point of the loop to another is one that was started.
moved-Owned :
    (owner : OwnerPc) (t t' : ThreadPc) (stop : Bool)
    → t ≢ not_started
    → t ≢ ended
    → Owned owner t stop
    → Owned owner t' stop
moved-Owned constructed t t' stop n d v = absurd (n v)
moved-Owned observing t t' stop n d v = v
moved-Owned joining t t' stop n d (inl e) = absurd (n e)
moved-Owned joining t t' stop n d (inr e) = inr e
moved-Owned destroyed t t' stop n d (inl e) = absurd (n e)
moved-Owned destroyed t t' stop n d (inr e) = absurd (d e)

tested-Inv :
    (o : Observer) (w : Watch) (stop : Bool)
    → Goes o w
    → Owned w.owner test_stop w.stop_requested
    → Inv o (record w { thread = if stop then ended else look })
tested-Inv o w true g d = record {
  rounds = inl g;
  owned = moved-Owned w.owner test_stop ended w.stop_requested (λ x. cc x) (λ x. cc x) d;
}
tested-Inv o w false g d = record {
  rounds = g;
  owned = moved-Owned w.owner test_stop look w.stop_requested (λ x. cc x) (λ x. cc x) d;
}

looked-Inv :
    (o : Observer) (p : Poll) (w : Watch) (has_info : Bool)
    → Goes o w
    → Owned w.owner look w.stop_requested
    → Inv o (if has_info then after_poll w p (poll p w.observer) else record w { thread = asleep })
unfolding after_poll
looked-Inv o p w true g d =
    after_poll-Inv o w p (poll p w.observer) (poll-Goes o w p g) g.1
      (moved-Owned w.owner look _ w.stop_requested (λ x. cc x) (λ x. cc x) d)
looked-Inv o p w false g d = record {
  rounds = g;
  owned = moved-Owned w.owner look asleep w.stop_requested (λ x. cc x) (λ x. cc x) d;
}

thread_move-Inv :
    (o : Observer) (p : Poll) (w : Watch) (t : ThreadPc) {v : Watch}
    → At o w t
    → Owned w.owner t w.stop_requested
    → thread_move p w t ≡ some v
    → Inv o v
unfolding thread_move
thread_move-Inv o p w not_started a d e = absurd (cc e)
thread_move-Inv o p w test_stop a d e =
    subst (Inv o) (eq_of_some e) (tested-Inv o w w.stop_requested a d)
thread_move-Inv o p w look a d e = subst (Inv o) (eq_of_some e) (looked-Inv o p w w.has_info a d)
thread_move-Inv o p w asleep a d e = subst (Inv o) (eq_of_some e) (record {
  rounds = a;
  owned = moved-Owned w.owner asleep test_stop w.stop_requested (λ x. cc x) (λ x. cc x) d;
})
thread_move-Inv o p w calling a d e = subst (Inv o) (eq_of_some e) (record {
  rounds = inr a;
  owned = moved-Owned w.owner calling ended w.stop_requested (λ x. cc x) (λ x. cc x) d;
})
thread_move-Inv o p w ended a d e = absurd (cc e)

join-Inv :
    (o : Observer) (w : Watch) (t : ThreadPc) {v : Watch}
    → w.thread ≡ t
    → At o w w.thread
    → join w t ≡ some v
    → Inv o v
unfolding join
join-Inv o w not_started at a e =
    subst (Inv o) (eq_of_some e) (record { rounds = a; owned = inl at })
join-Inv o w test_stop at a e = absurd (cc e)
join-Inv o w look at a e = absurd (cc e)
join-Inv o w asleep at a e = absurd (cc e)
join-Inv o w calling at a e = absurd (cc e)
join-Inv o w ended at a e = subst (Inv o) (eq_of_some e) (record { rounds = a; owned = inr at })

owner_move-Inv :
    (o : Observer) (starts : Bool) (w : Watch) (owner : OwnerPc) {v : Watch}
    → At o w w.thread
    → Owned owner w.thread w.stop_requested
    → owner_move starts w owner ≡ some v
    → Inv o v
unfolding owner_move
owner_move-Inv o true w constructed a d e =
    subst (Inv o) (eq_of_some e) (record { rounds = subst (At o w) d a; owned = tt })
owner_move-Inv o false w constructed a d e =
    subst (Inv o) (eq_of_some e) (record { rounds = a; owned = inl d })
owner_move-Inv o starts w observing a d e =
    subst (Inv o) (eq_of_some e) (record { rounds = a; owned = inr refl })
owner_move-Inv o starts w joining a d e = join-Inv o w w.thread refl a e
owner_move-Inv o starts w destroyed a d e = absurd (cc e)

Step-Inv : {o : Observer} {w v : Watch} → Step w v → Inv o w → Inv o v
Step-Inv {o} {w} (runs p e) i = thread_move-Inv o p w w.thread i.rounds i.owned e
Step-Inv {o} {w} (owns starts e) i = owner_move-Inv o starts w w.owner i.rounds i.owned e

pub Reach-Inv :
    (has_info : Bool) (prev watch : ℕ) {w : Watch}
    → Reach (new_watch has_info prev watch) w
    → Inv (new_observer prev watch) w
Reach-Inv has_info prev watch here = record { rounds = (λ more. refl, refl); owned = refl }
Reach-Inv has_info prev watch (step r st) = Step-Inv st (Reach-Inv has_info prev watch r)

seen-calls :
    (o : Observer) (w : Watch) (over : Bool)
    → observe_siblings (w.seen ++ []) o ≡ over
    → w.calls ≡ (if over then 1 else 0)
    → w.calls ≡ (if observe_siblings w.seen o then 1 else 0)
seen-calls o w over h e =
    e ∙ ap (λ x. if x then 1 else 0) (sym h ∙ ap (λ ps. observe_siblings ps o) (append_nil w.seen))

Goes-calls :
    (o : Observer) (w : Watch) → Goes o w → w.calls ≡ (if observe_siblings w.seen o then 1 else 0)
unfolding observe_siblings
Goes-calls o w g = seen-calls o w false (g.0 []) g.1

Called-calls :
    (o : Observer) (w : Watch) → Called o w → w.calls ≡ (if observe_siblings w.seen o then 1 else 0)
Called-calls o w c = seen-calls o w true (c.0 []) c.1

At-calls :
    (o : Observer) (w : Watch) (t : ThreadPc)
    → At o w t
    → w.calls ≡ (if observe_siblings w.seen o then 1 else 0)
At-calls o w not_started a = Goes-calls o w a
At-calls o w test_stop a = Goes-calls o w a
At-calls o w look a = Goes-calls o w a
At-calls o w asleep a = Goes-calls o w a
At-calls o w calling a = Called-calls o w a
At-calls o w ended (inl g) = Goes-calls o w g
At-calls o w ended (inr c) = Called-calls o w c

-- In every state that a SiblingProcessObserver and its thread reach, in any order of their steps and
-- with or without a processInfo: the callback has been called once if the loop over the rounds so
-- far ends with the callback, and else not at all.
pub reached-observe_siblings :
    (has_info : Bool) (prev watch : ℕ) {w : Watch}
    → Reach (new_watch has_info prev watch) w
    → w.calls ≡ (if observe_siblings w.seen (new_observer prev watch) then 1 else 0)
reached-observe_siblings has_info prev watch {w} run =
    At-calls (new_observer prev watch) w w.thread (Reach-Inv has_info prev watch run).rounds
