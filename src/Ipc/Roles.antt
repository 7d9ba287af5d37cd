-- ===== src/Ipc/Roles.antt =====
-- src/common/PseudoToolFactory.hpp and src/common/IPCTool.hpp: any number of processes on one shared
-- memory object, from the choice of a role in the factory to the end of the tool. Between the choice
-- and the constructor of IPCTool other processes may move. A process that is killed is not modelled.
pub mod Exclusion
use ki.Prelude.{ℕ, zero, suc, ◌+◌, ◌≡◌, some, none, Option, List, [], ◌∷◌, replicate}
use ki.Ipc.ProcInfo.{
  ProcessType, reader_process, writer_process, invalid, ProcInfo, new_info, choose_role, register,
  unregister,
}

-- Where a process stands.
pub data Stage : Type 0 where
  starting : Stage  -- before the choice of a role
  chosen : ProcessType → Stage  -- the factory has chosen a role
  running : ProcessType → Stage  -- IPCTool is constructed
  ended : Stage  -- IPCTool is destroyed

pub record Processes : Type 0 where
  pub info : ProcInfo
  pub stages : List Stage

abbrev pub stage_at : List Stage → ℕ → Option Stage
stage_at [] i = none
stage_at (x ∷ xs) zero = some x
stage_at (x ∷ xs) (suc i) = stage_at xs i

abbrev pub set_stage : List Stage → ℕ → Stage → List Stage
set_stage [] i v = []
set_stage (x ∷ xs) zero v = v ∷ xs
set_stage (x ∷ xs) (suc i) v = x ∷ set_stage xs i v

-- One critical section of process `i`.
pub data Step (s : Processes) : Processes → Type 0 where
  chooses :
      (i : ℕ)
      → stage_at s.stages i ≡ some starting
      → Step s (record s { stages = set_stage s.stages i (chosen (choose_role s.info)) })
  registers :
      (i : ℕ) (t : ProcessType)
      → stage_at s.stages i ≡ some (chosen t)
      → Step s (record {
        info = (register t s.info).1;
        stages = set_stage s.stages i (running (register t s.info).0);
      })
  unregisters :
      (i : ℕ) (t : ProcessType)
      → stage_at s.stages i ≡ some (running t)
      → Step s (record { info = unregister t s.info; stages = set_stage s.stages i ended })

pub data Reach (s : Processes) : Processes → Type 0 where
  here : Reach s s
  step : {t u : Processes} → Reach s t → Step t u → Reach s u

-- `n` processes and a new shared memory object.
abbrev pub launch : ℕ → Processes
launch n = record { info = new_info; stages = replicate n starting }
