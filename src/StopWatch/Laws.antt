-- ===== src/StopWatch/Laws.antt =====
-- src/common/StopWatch.cpp: the times that a watch shows.
use Prim.Native.String.{String}
use ki.Prelude.{ℕ, ◌-◌, ◌/◌, ◌≤◌, ◌≡◌, refl, false, none, some, List, [], ◌∷◌, arith}
use ki.Error.{Result, ok, err, ◌>>=◌, watch_in_auto_mode}
use ki.StopWatch.{
  StopWatch, Report, create_auto_start_watch, create_manual_watch, start, stop, duration_cast,
  elapsed, get_stamp, finish,
}

-- The calls of `start` and `stop`, with their times.
pub data Event : Type 0 where
  started stopped : ℕ → Event

apply : Event → StopWatch → Result StopWatch
apply (started now) w = start now w
apply (stopped now) w = stop now w

unfoldable pub run : List Event → StopWatch → Result StopWatch
unfolding apply
run [] w = ok w
run (e ∷ es) w = apply e w >>= run es

-- The last time at which the watch was started, and at which it was stopped.
unfoldable pub last_start : ℕ → List Event → ℕ
last_start t [] = t
last_start t (started now ∷ es) = last_start now es
last_start t (stopped now ∷ es) = last_start t es

unfoldable pub last_stop : ℕ → List Event → ℕ
last_stop t [] = t
last_stop t (started now ∷ es) = last_stop t es
last_stop t (stopped now ∷ es) = last_stop now es

run-last :
    (es : List Event) (a z : ℕ) (desc : String)
    → run es (record { start_time = a; end_time = z; is_auto_mode = false; desc = desc })
      ≡ ok (record {
        start_time = last_start a es;
        end_time = last_stop z es;
        is_auto_mode = false;
        desc = desc;
      })
unfolding run apply last_start last_stop start stop
run-last [] a z desc = refl
run-last (started now ∷ es) a z desc = run-last es now z desc
run-last (stopped now ∷ es) a z desc = run-last es a now desc

-- After any sequence of calls of start and stop, none of which throws, getStamp of a watch in manual
-- mode is the time from the last start to the last stop, towards zero in its unit, a call that is
-- missing being the epoch; the destructor prints nothing.
pub get_stamp-run :
    (es : List Event) (desc : String) (now : ℕ)
    → (w : StopWatch) × (run es (create_manual_watch desc now) ≡ ok w)
      × ((unit : ℕ)
          → get_stamp unit w ≡ duration_cast unit (elapsed (last_stop 0 es) (last_start 0 es)))
      × ((later : ℕ) → finish later w ≡ none)
unfolding create_manual_watch get_stamp finish
get_stamp-run es desc now = (_, run-last es 0 0 desc, λ unit. refl, λ later. refl)

-- The report of so much time, in whole seconds and in whole milliseconds.
abbrev pub timed : String → ℕ → Report
timed desc time = record {
  desc = desc;
  seconds = record { is_negative = false; magnitude = time / 1000000000 };
  milliseconds = record { is_negative = false; magnitude = time / 1000000 };
}

-- A watch in auto mode refuses start and stop, and if the clock does not go back its destructor
-- prints the whole seconds and the whole milliseconds from its construction on.
pub finish-create_auto_start_watch :
    (desc : String) (begun ended : ℕ) (e : Event)
    → begun ≤ ended
    → (run (e ∷ []) (create_auto_start_watch desc begun) ≡ err watch_in_auto_mode)
      × (finish ended (create_auto_start_watch desc begun) ≡ some (timed desc (ended - begun)))
unfolding create_auto_start_watch finish get_stamp run apply start stop
finish-create_auto_start_watch desc begun ended (started now) h = (refl, ground arith)
finish-create_auto_start_watch desc begun ended (stopped now) h = (refl, ground arith)
