-- ===== src/Ipc/Observer.antt =====
-- src/IPC/SiblingProcessObserver.cpp: the thread that looks once a second whether a process of the
-- other kind is registered, and the callback of src/common/IPCTool.hpp that it calls after 10 seconds
-- without one. Times are nanoseconds, as `high_resolution_clock` gives them.
pub mod Timeout
pub mod Callback
pub mod Thread
use ki.Prelude.{
  ℕ, ◌+◌, ◌-◌, ◌/◌, ◌*◌, Bool, true, false, not, ◌||◌, List, [], ◌∷◌, leb, ltb, if◌then◌else◌,
}
use ki.Error.{Result, ok, err, observes_nothing}
use ki.Ipc.ProcInfo.{ProcInfo, ProcessType, reader_process, writer_process, invalid}

pub record Observer : Type 0 where
  pub stopwatch_started : Bool
  pub prev_check : ℕ
  pub stopwatch : ℕ  -- milliseconds

-- What a round of the loop sees: the counter that is observed, and the time.
pub record Poll : Type 0 where
  pub count : ℕ
  pub now : ℕ

abbrev pub waiting_time : ℕ
waiting_time = 10  -- seconds

abbrev pub nanoseconds : ℕ → ℕ
nanoseconds seconds = seconds * 1000000000

-- `duration_cast<milliseconds>(now - prevCheck)`, for a clock that does not go back.
abbrev pub elapsed_ms : ℕ → ℕ → ℕ
elapsed_ms now prev = (now - prev) / 1000000

-- The counter that the constructor selects. There is none for an invalid tool, and it throws.
unfoldable pub counter_of : ProcessType → ProcInfo → Result ℕ
counter_of writer_process p = ok p.writer_process_count
counter_of reader_process p = ok p.reader_process_count
counter_of invalid p = err observes_nothing

-- The kind of process that IPCTool lets its observer look for.
abbrev pub sibling : ProcessType → ProcessType
sibling reader_process = writer_process
sibling writer_process = reader_process
sibling invalid = reader_process

-- The stopwatch after a round without a sibling: started, or read.
unfoldable pub tick : ℕ → Observer → Observer
tick now o =
    if not o.stopwatch_started
    then record { stopwatch_started = true; prev_check = now; stopwatch = 0 }
    else record o { stopwatch = o.stopwatch + elapsed_ms now o.prev_check; prev_check = now }

-- Has the stopwatch reached the waiting time?
abbrev pub is_over : Observer → Bool
is_over o = leb waiting_time (o.stopwatch / 1000)

-- One round: the observer after it, and whether the loop ends with the callback.
unfoldable pub poll : Poll → Observer → Observer × Bool
unfolding tick
poll p o =
    if ltb 0 p.count
    then (record o { stopwatch_started = false }, false)
    else let o' = tick p.now o in (o', is_over o')

-- The loop over the rounds until a stop is requested: does it end with the callback?
unfoldable pub observe_siblings : List Poll → Observer → Bool
observe_siblings [] o = false
observe_siblings (p ∷ ps) o =
    let rest = observe_siblings ps (poll p o).0 in if (poll p o).1 then true else rest

-- A new observer. The stopwatch and the time are not initialised; nothing reads them before they are.
abbrev pub new_observer : ℕ → ℕ → Observer
new_observer prev watch = record { stopwatch_started = false; prev_check = prev; stopwatch = watch }

-- IPCTool::timeout: does it terminate the process?
unfoldable pub terminates : ProcessType → Bool → Bool
terminates reader_process is_read_finished = true
terminates writer_process is_read_finished = not is_read_finished
terminates invalid is_read_finished = not is_read_finished
