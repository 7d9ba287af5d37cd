-- ===== src/Ipc/Observer/Thread/Examples.antt =====
-- src/IPC/SiblingProcessObserver.cpp: runs of the observer.
use ki.Prelude.{◌≡◌, refl, true, false, [], ◌∷◌, if◌then◌else◌}
use ki.Ipc.Observer.{Poll, poll, tick, observe_siblings, new_observer}
use ki.Ipc.Observer.Thread.{
  observing, joining, calling, asleep, Watch, new_watch, thread_move, owner_move, after_poll, runs,
  owns, Reach, here, step,
}
use ki.Ipc.Observer.Thread.Refinement.{reached-observe_siblings}
use ki.Ipc.Observer.Thread.Stop.{AllEnd, joining-ends}

-- No sibling is registered, and ten seconds go by between two rounds.
abbrev first_round : Poll
first_round = record { count = 0; now = 0 }

abbrev late_round : Poll
late_round = record { count = 0; now = 10000000000 }

abbrev waits : Watch
waits = record {
  has_info = true;
  observer = record { stopwatch_started = true; prev_check = 0; stopwatch = 0 };
  stop_requested = false;
  owner = observing;
  thread = asleep;
  calls = 0;
  seen = first_round ∷ [];
}

to_waits : Reach (new_watch true 5 7) waits
unfolding thread_move owner_move after_poll poll tick
to_waits = step (step (step here (owns true refl)) (runs first_round refl)) (runs first_round refl)

abbrev calls_back : Watch
calls_back = record {
  has_info = true;
  observer = record { stopwatch_started = true; prev_check = 10000000000; stopwatch = 10000 };
  stop_requested = false;
  owner = observing;
  thread = calling;
  calls = 1;
  seen = first_round ∷ (late_round ∷ []);
}

to_calls_back : Reach (new_watch true 5 7) calls_back
unfolding thread_move after_poll poll tick
to_calls_back =
    step (step (step to_waits (runs late_round refl)) (runs late_round refl)) (runs late_round refl)

reached-observe_siblings_example :
    calls_back.calls
    ≡ (if observe_siblings (first_round ∷ (late_round ∷ [])) (new_observer 5 7) then 1 else 0)
reached-observe_siblings_example = reached-observe_siblings true 5 7 to_calls_back

-- The destructor while the thread sleeps.
abbrev stops : Watch
stops = record waits { stop_requested = true; owner = joining }

to_stops : Reach (new_watch true 5 7) stops
unfolding owner_move
to_stops = step to_waits (owns false refl)

joining-ends_example : AllEnd 4 stops
joining-ends_example = joining-ends true 5 7 to_stops refl
