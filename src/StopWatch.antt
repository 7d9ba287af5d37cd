-- ===== src/StopWatch.antt =====
-- src/common/StopWatch.cpp and src/common/StopWatch.h: StopWatch. The times are nanoseconds of the
-- clock; a time point that is not set is its epoch.
pub mod Laws
use Prim.Native.String.{String}
use ki.Prelude.{
  ℕ, ◌-◌, ◌/◌, Bool, true, false, not, Option, none, some, List, [], ◌∷◌, ltb, if◌then◌else◌,
}
use ki.Error.{Result, ok, err, ◌>>=◌, ◌>>◌, guard, watch_in_auto_mode}

pub record StopWatch : Type 0 where
  pub start_time : ℕ
  pub end_time : ℕ
  pub is_auto_mode : Bool
  pub desc : String

-- The constructor.
new_watch : Bool → String → ℕ → StopWatch
new_watch mode desc now = record {
  start_time = if mode then now else 0;
  end_time = 0;
  is_auto_mode = mode;
  desc = desc;
}

unfoldable pub create_auto_start_watch : String → ℕ → StopWatch
unfolding new_watch
create_auto_start_watch desc now = new_watch true desc now

unfoldable pub create_manual_watch : String → ℕ → StopWatch
unfolding new_watch
create_manual_watch desc now = new_watch false desc now

unfoldable pub start : ℕ → StopWatch → Result StopWatch
start now w = do guard (not w.is_auto_mode) watch_in_auto_mode; ok (record w { start_time = now })

unfoldable pub stop : ℕ → StopWatch → Result StopWatch
stop now w = do guard (not w.is_auto_mode) watch_in_auto_mode; ok (record w { end_time = now })

-- A signed number of units.
pub record Duration : Type 0 where
  pub is_negative : Bool
  pub magnitude : ℕ

-- `duration_cast` to a unit of so many smaller ones: towards zero.
abbrev pub duration_cast : ℕ → Duration → Duration
duration_cast unit d = record d { magnitude = d.magnitude / unit }

-- `mEnd - mStart`
abbrev pub elapsed : ℕ → ℕ → Duration
elapsed end start =
    if ltb end start
    then record { is_negative = true; magnitude = start - end }
    else record { is_negative = false; magnitude = end - start }

-- `getStamp`, for a unit of so many nanoseconds.
unfoldable pub get_stamp : ℕ → StopWatch → Duration
get_stamp unit w = duration_cast unit (elapsed w.end_time w.start_time)

-- The line that the destructor prints: the seconds and the milliseconds.
pub record Report : Type 0 where
  pub desc : String
  pub seconds : Duration
  pub milliseconds : Duration

report : StopWatch → Report
unfolding get_stamp
report w =
    let dur = get_stamp 1000000 w in
    record { desc = w.desc; seconds = duration_cast 1000 dur; milliseconds = dur }

-- The destructor.
unfoldable pub finish : ℕ → StopWatch → Option Report
unfolding report
finish now w = if w.is_auto_mode then some (report (record w { end_time = now })) else none
