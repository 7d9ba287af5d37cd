-- ===== src/Ipc/Roles/Exclusion.antt =====
-- src/common/IPCTool.hpp, src/common/PseudoToolFactory.hpp and src/IPC/SharedMemoryManager.cpp: the
-- processes that run in a role, and the counters of them.
use ki.Prelude.{
  ℕ, zero, suc, ◌+◌, ◌≤◌, ◌≡◌, refl, true, ◌↔◌, some, List, [], ◌∷◌, arith, replicate, ◌==◌,
  if◌then◌else◌,
}
use ki.Ipc.ProcInfo.{
  ProcessType, reader_process, writer_process, invalid, ProcInfo, choose_role, register, unregister,
  removes_memory,
}
use ki.Ipc.Roles.{
  Stage, starting, chosen, running, ended, Processes, stage_at, set_stage, Step, chooses, registers,
  unregisters, Reach, here, step, launch,
}

-- 1 for a process that runs as a reader, and for one that runs as a writer.
abbrev pub reads : Stage → ℕ
reads (running reader_process) = 1
reads (running writer_process) = 0
reads (running invalid) = 0
reads starting = 0
reads (chosen t) = 0
reads ended = 0

abbrev pub writes : Stage → ℕ
writes (running writer_process) = 1
writes (running reader_process) = 0
writes (running invalid) = 0
writes starting = 0
writes (chosen t) = 0
writes ended = 0

abbrev pub total : (Stage → ℕ) → List Stage → ℕ
total f [] = 0
total f (x ∷ xs) = f x + total f xs

total-set_stage :
    (f : Stage → ℕ) (xs : List Stage) (i : ℕ) (old v : Stage)
    → stage_at xs i ≡ some old
    → total f (set_stage xs i v) + f old ≡ total f xs + f v
total-set_stage f [] i old v e = absurd (cc)
total-set_stage f (x ∷ xs) zero old v e = ground arith
total-set_stage f (x ∷ xs) (suc i) old v e = omega (arith, total-set_stage f xs i old v e)

-- The counters are the numbers of running readers and writers, and neither is above one.
pub record Inv (s : Processes) : Type 0 where
  pub readers : s.info.reader_process_count ≡ total reads s.stages
  pub writers : s.info.writer_process_count ≡ total writes s.stages
  pub one_reader : s.info.reader_process_count ≤ 1
  pub one_writer : s.info.writer_process_count ≤ 1

register-Inv :
    (p : ProcInfo) (xs : List Stage) (i : ℕ) (t : ProcessType)
    → stage_at xs i ≡ some (chosen t)
    → Inv (record { info = p; stages = xs })
    → Inv (record { info = (register t p).1; stages = set_stage xs i (running (register t p).0) })
unfolding register
register-Inv p xs i reader_process e v = ground (
  arith,
  total-set_stage reads xs i (chosen reader_process) (running reader_process) e,
  total-set_stage writes xs i (chosen reader_process) (running reader_process) e,
  total-set_stage reads xs i (chosen reader_process) (running invalid) e,
  total-set_stage writes xs i (chosen reader_process) (running invalid) e,
)
register-Inv p xs i writer_process e v = ground (
  arith,
  total-set_stage reads xs i (chosen writer_process) (running writer_process) e,
  total-set_stage writes xs i (chosen writer_process) (running writer_process) e,
  total-set_stage reads xs i (chosen writer_process) (running invalid) e,
  total-set_stage writes xs i (chosen writer_process) (running invalid) e,
)
register-Inv p xs i invalid e v = omega (
  arith,
  total-set_stage reads xs i (chosen invalid) (running invalid) e,
  total-set_stage writes xs i (chosen invalid) (running invalid) e,
)

unregister-Inv :
    (p : ProcInfo) (xs : List Stage) (i : ℕ) (t : ProcessType)
    → stage_at xs i ≡ some (running t)
    → Inv (record { info = p; stages = xs })
    → Inv (record { info = unregister t p; stages = set_stage xs i ended })
unfolding unregister
unregister-Inv p xs i t e v = by_role t e
  where
    by_role :
        (t : ProcessType)
        → stage_at xs i ≡ some (running t)
        → Inv (record { info = unregister t p; stages = set_stage xs i ended })
    by_role reader_process e = omega (
      arith,
      total-set_stage reads xs i (running reader_process) ended e,
      total-set_stage writes xs i (running reader_process) ended e,
    )
    by_role writer_process e = omega (
      arith,
      total-set_stage reads xs i (running writer_process) ended e,
      total-set_stage writes xs i (running writer_process) ended e,
    )
    by_role invalid e = omega (
      arith,
      total-set_stage reads xs i (running invalid) ended e,
      total-set_stage writes xs i (running invalid) ended e,
    )

Step-Inv : {s t : Processes} → Step s t → Inv s → Inv t
Step-Inv {s} (chooses i e) v = omega (
  arith,
  total-set_stage reads s.stages i starting (chosen (choose_role s.info)) e,
  total-set_stage writes s.stages i starting (chosen (choose_role s.info)) e,
)
Step-Inv {s} (registers i t e) v = register-Inv s.info s.stages i t e v
Step-Inv {s} (unregisters i t e) v = unregister-Inv s.info s.stages i t e v

none_running :
    (n : ℕ) → (total reads (replicate n starting) ≡ 0) × (total writes (replicate n starting) ≡ 0)
none_running zero = (refl, refl)
none_running (suc n) = omega (arith, none_running n)

launch-Inv : (n : ℕ) → Inv (launch n)
launch-Inv n = omega (arith, none_running n)

Reach-Inv : (n : ℕ) {s : Processes} → Reach (launch n) s → Inv s
Reach-Inv n here = launch-Inv n
Reach-Inv n (step r st) = Step-Inv st (Reach-Inv n r)

-- However the critical sections of any number of processes interleave on a new shared memory object,
-- also between the choice of a role and its registration: at most one process runs as the reader and
-- at most one as the writer, and the two counters are the numbers of such processes.
pub roles_exclusive :
    (n : ℕ) (s : Processes)
    → Reach (launch n) s
    → (total reads s.stages ≤ 1)
      × (total writes s.stages ≤ 1)
      × (s.info.reader_process_count ≡ total reads s.stages)
      × (s.info.writer_process_count ≡ total writes s.stages)
roles_exclusive n s r = omega (arith, Reach-Inv n r)

-- In every reachable state of the processes, the destructor of SharedMemoryManager removes the
-- shared memory object exactly when no process runs as the reader or as the writer.
pub removes_memory-iff-idle :
    (n : ℕ) (s : Processes)
    → Reach (launch n) s
    → (removes_memory s.info ≡ true) ↔ ((total reads s.stages ≡ 0) × (total writes s.stages ≡ 0))
unfolding removes_memory
removes_memory-iff-idle n s r =
    let v = Reach-Inv n r in (λ h. ground (arith, v), λ h. ground (arith, v))

-- With counters of at most one, a process that chooses and registers with no other process in
-- between becomes the reader if there is none, else the writer if there is none, else it gets no
-- role and the counters stay.
pub register-choose_role :
    (p : ProcInfo)
    → p.reader_process_count ≤ 1
    → p.writer_process_count ≤ 1
    → register (choose_role p) p ≡ (
        if p.reader_process_count == 0
        then (reader_process, record p { reader_process_count = 1 })
        else if p.writer_process_count == 0
        then (writer_process, record p { writer_process_count = 1 })
        else (invalid, p))
unfolding register choose_role
register-choose_role p hr hw = ground arith
