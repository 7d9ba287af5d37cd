-- ===== src/Ipc/Observer/Thread.antt =====
-- src/IPC/SiblingProcessObserver.cpp: the thread of the observer with its stop request, startObserver
-- and the destructor. The process that makes the observer and the thread take their steps in any
-- order; the destructor of the jthread waits for the end of the thread.
pub mod Refinement
pub mod Stop
mod Examples
use ki.Prelude.{
  ℕ, ◌+◌, Bool, true, false, Option, none, some, List, [], ◌∷◌, ◌++◌, ◌≡◌, if◌then◌else◌,
}
use ki.Ipc.Observer.{Observer, Poll, poll, new_observer}

-- The process that holds the observer.
pub data OwnerPc : Type 0 where
  constructed : OwnerPc
  observing : OwnerPc  -- after `startObserver`
  joining : OwnerPc  -- in the destructor, after `request_stop`
  destroyed : OwnerPc

-- The thread of `observeSiblings`.
pub data ThreadPc : Type 0 where
  not_started : ThreadPc
  test_stop : ThreadPc  -- `while (!token.stop_requested())`
  look : ThreadPc  -- the body of the loop
  asleep : ThreadPc  -- `sleep_for(pollInterval)`
  calling : ThreadPc  -- in the callback
  ended : ThreadPc

pub record Watch : Type 0 where
  pub has_info : Bool  -- is `processInfo` not null?
  pub observer : Observer
  pub stop_requested : Bool
  pub owner : OwnerPc
  pub thread : ThreadPc
  pub calls : ℕ  -- how often the callback has been called
  pub seen : List Poll  -- the rounds so far, the first one first

-- The constructor; the stopwatch and the time are not initialised.
abbrev pub new_watch : Bool → ℕ → ℕ → Watch
new_watch has_info prev watch = record {
  has_info = has_info;
  observer = new_observer prev watch;
  stop_requested = false;
  owner = constructed;
  thread = not_started;
  calls = 0;
  seen = [];
}

-- What a round of the loop makes of its result.
after_poll : Watch → Poll → Observer × Bool → Watch
after_poll w p (o, over) = record w {
  observer = o;
  thread = if over then calling else asleep;
  calls = if over then w.calls + 1 else w.calls;
  seen = w.seen ++ (p ∷ []);
}

-- One move of the thread, with what it would see; `none` where it cannot move.
unfoldable pub thread_move : Poll → Watch → ThreadPc → Option Watch
unfolding after_poll
thread_move p w not_started = none
thread_move p w test_stop = some (record w { thread = if w.stop_requested then ended else look })
thread_move p w look =
    some (if w.has_info then after_poll w p (poll p w.observer) else record w { thread = asleep })
thread_move p w asleep = some (record w { thread = test_stop })
thread_move p w calling = some (record w { thread = ended })
thread_move p w ended = none

-- `join` in the destructor of the jthread; a thread that was never started is not waited for.
join : Watch → ThreadPc → Option Watch
join w not_started = some (record w { owner = destroyed })
join w test_stop = none
join w look = none
join w asleep = none
join w calling = none
join w ended = some (record w { owner = destroyed })

-- `startObserver` on a new observer, or the destructor.
unfoldable pub owner_move : Bool → Watch → OwnerPc → Option Watch
unfolding join
owner_move true w constructed = some (record w { owner = observing; thread = test_stop })
owner_move false w constructed = some (record w { owner = joining })
owner_move starts w observing = some (record w { stop_requested = true; owner = joining })
owner_move starts w joining = join w w.thread
owner_move starts w destroyed = none

pub data Step (w : Watch) : Watch → Type 0 where
  runs : (p : Poll) {v : Watch} → thread_move p w w.thread ≡ some v → Step w v
  owns : (starts : Bool) {v : Watch} → owner_move starts w w.owner ≡ some v → Step w v

pub data Reach (w : Watch) : Watch → Type 0 where
  here : Reach w w
  step : {u v : Watch} → Reach w u → Step u v → Reach w v
