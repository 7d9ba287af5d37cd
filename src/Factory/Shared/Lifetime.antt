-- ===== src/Factory/Shared/Lifetime.antt =====
-- src/common/IPCTool.hpp: the destructor of the tool over the objects in the shared memory, with the
-- destructor of its SharedMemoryManager, which the tool is the last to hold.
use Prim.Native.String.{String}
use mathlib.Core.Path.{subst}
use ki.Prelude.{ℕ, ◌≡◌, refl, sym, ap, ◌∙◌, true, false, none, some, Option, if◌then◌else◌}
use ki.Error.{Result, ok, err, ◌>>=◌, null_pointer}
use ki.Ipc.ProcInfo.{
  SharedInfo, ProcessType, reader_process, writer_process, start_writing, unregister,
  removes_memory,
}
use ki.Ipc.Memory.{
  Boost, Object, info_object, queue_object, SharedMemoryManager, end_manager, finish, pointed,
  try_remove,
}
use ki.Ipc.Memory.Laws.{BoostLaws}
use ki.Options.{ParsedOptions}
use ki.Factory.{Environment}
use ki.Factory.Pair.{joined}
use ki.Factory.Shared.{Process, create_shared}
use ki.Factory.Shared.Laws.{Left, stored-Left}
use ki.Factory.Shared.Processes.{Pairs, create_shared-pair}

module _ (b : Boost) where
  -- The counter goes down, as `unregister` says.
  unregister_at : ProcessType → ℕ → Boost.Machine b → Option Object → Result (Boost.Machine b)
  unregister_at role a m none = err null_pointer
  unregister_at role a m (some (queue_object q)) = err null_pointer
  unregister_at role a m (some (info_object info)) =
      ok
        (Boost.store b a (info_object (record info { counters = unregister role info.counters })) m)

  -- A null pointer is left alone.
  unregister_through : ProcessType → Boost.Machine b → Option ℕ → Result (Boost.Machine b)
  unfolding unregister_at
  unregister_through role m none = ok m
  unregister_through role m (some a) = unregister_at role a m (Boost.object_at b a m)

  pub end_tool : ProcessType → SharedMemoryManager b → Boost.Machine b → Result (Boost.Machine b)
  unfolding unregister_through
  end_tool role manager m = do
    m' ← unregister_through role m manager.proc_info
    end_manager b manager m'

module _ {b : Boost} (laws : BoostLaws b) where
  abbrev pub ended : ProcessType → SharedInfo → SharedInfo
  ended role info = record info { counters = unregister role info.counters }

  -- A tool that is destroyed, up to the question of its manager.
  end_tool-finish :
      (role : ProcessType) (manager : SharedMemoryManager b) {name : String} {g : Boost.Segment b}
      {a : ℕ} {queue : Option ℕ} {info : SharedInfo} {m : Boost.Machine b}
      → manager.proc_info ≡ some a
      → Left laws name g a queue info m
      → end_tool b role manager m
        ≡ finish b manager
            (Boost.store b a (info_object (ended role info)) m)
            (some (info_object (ended role info)))
  unfolding end_tool unregister_through unregister_at end_manager pointed
  end_tool-finish role manager {a} {info} {m} pointer l =
      let m' = Boost.store b a (info_object (ended role info)) m in
      ap (λ x. unregister_through b role m x >>= end_manager b manager) pointer
      ∙ (ap (λ x. unregister_at b role a m x >>= end_manager b manager) l.holds
          ∙ (ap (λ x. finish b manager m' (pointed b m' x)) pointer
              ∙ ap (finish b manager m') (BoostLaws.stored laws l.holds)))

  -- The first of two tools goes, and the memory stays for the other.
  pub end_tool-stays :
      (role : ProcessType) (manager : SharedMemoryManager b) {name : String} {g : Boost.Segment b}
      {a : ℕ} {queue : Option ℕ} {info : SharedInfo} {m : Boost.Machine b}
      → manager.proc_info ≡ some a
      → removes_memory (unregister role info.counters) ≡ false
      → Left laws name g a queue info m
      → end_tool b role manager m ≡ ok (Boost.store b a (info_object (ended role info)) m)
  unfolding finish
  end_tool-stays role manager {a} {info} {m} pointer stays l =
      let m' = Boost.store b a (info_object (ended role info)) m in
      end_tool-finish role manager pointer l
      ∙ ap (λ removes. if removes then ok (try_remove b manager m') else ok m') stays

  end_tool-removes :
      (role : ProcessType) (manager : SharedMemoryManager b) {name : String} {g : Boost.Segment b}
      {a : ℕ} {queue : Option ℕ} {info : SharedInfo} {m : Boost.Machine b}
      → manager.proc_info ≡ some a
      → removes_memory (unregister role info.counters) ≡ true
      → Left laws name g a queue info m
      → end_tool b role manager m
        ≡ ok (try_remove b manager (Boost.store b a (info_object (ended role info)) m))
  unfolding finish
  end_tool-removes role manager {a} {info} {m} pointer goes l =
      let m' = Boost.store b a (info_object (ended role info)) m in
      end_tool-finish role manager pointer l
      ∙ ap (λ removes. if removes then ok (try_remove b manager m') else ok m') goes

  -- Two tools that are destroyed, one after the other.
  pub record Closes (name : String) (first last : ProcessType × SharedMemoryManager b)
      (g : Boost.Segment b) (a : ℕ) (queue : Option ℕ) (info : SharedInfo) (m : Boost.Machine b)
      : Type 0 where
    pub between : Boost.Machine b
    pub after : Boost.Machine b
    pub first_ends : end_tool b first.0 first.1 m ≡ ok between
    pub left : Left laws name g a queue info between
    pub last_ends : end_tool b last.0 last.1 between ≡ ok after
    pub gone : Boost.open_only b name after ≡ none

  pub closes :
      (name : String) (first last : ProcessType × SharedMemoryManager b) {g : Boost.Segment b}
      {a : ℕ} {queue : Option ℕ} {info : SharedInfo} {m : Boost.Machine b}
      → first.1.proc_info ≡ some a
      → last.1.proc_info ≡ some a
      → last.1.name ≡ name
      → removes_memory (unregister first.0 info.counters) ≡ false
      → removes_memory (unregister last.0 (unregister first.0 info.counters)) ≡ true
      → Left laws name g a queue info m
      → Closes name first last g a queue (ended first.0 info) m
  closes name first last {a} {info} {m} pointer pointer' named stays goes l =
      let l' = stored-Left laws (ended first.0 info) l in
      let info' = ended last.0 (ended first.0 info) in
      let last_machine =
        Boost.store b a (info_object info')
          (Boost.store b a (info_object (ended first.0 info)) m) in
      record {
        between = _;
        after = _;
        first_ends = end_tool-stays first.0 first.1 pointer stays l;
        left = l';
        last_ends = end_tool-removes last.0 last.1 pointer' goes l';
        gone =
            subst (λ x. Boost.open_only b name (Boost.remove b x last_machine).1 ≡ none) (sym named)
              (BoostLaws.removed laws name last_machine);
      }

  -- The structure of a pair once the writer has said that it writes.
  abbrev writing : String → SharedInfo
  writing dst = record { counters = start_writing (joined 1 1 dst).counters; dst = dst }

  abbrev written :
      {queue_bytes : ℕ} {f : Environment} {vm vm' : ParsedOptions} {size : ℕ} {p : Process b}
      {m : Boost.Machine b}
      → Pairs laws queue_bytes f vm vm' size p m
      → Boost.Machine b
  written {vm} pair = Boost.store b pair.address (info_object (writing vm.dst)) pair.second.machine

  -- A pair, and its end in both orders.
  pub record Lives (queue_bytes : ℕ) (f : Environment) (vm vm' : ParsedOptions) (size : ℕ)
      (p : Process b) (m : Boost.Machine b) : Type 0 where
    pub pair : Pairs laws queue_bytes f vm vm' size p m
    pub reader_first :
        Closes vm.shared_obj_name
          (reader_process, p.manager)
          (writer_process, pair.second.process.manager)
          pair.segment
          pair.address
          p.queue
          (ended reader_process (writing vm.dst))
          (written pair)
    pub writer_first :
        Closes vm.shared_obj_name
          (writer_process, pair.second.process.manager)
          (reader_process, p.manager)
          pair.segment
          pair.address
          p.queue
          (ended writer_process (writing vm.dst))
          (written pair)

  -- For every boost::interprocess that behaves as documented, where no shared memory object of the
  -- name exists and the size of the source is found: once two processes with the name have made
  -- their tools and the writer has said that it writes, the two tools can be destroyed in both
  -- orders; the first destructor only takes its process off the counters and keeps the shared memory
  -- object, the second one removes it, so that again no object of the name exists.
  pub create_shared-end_tool :
      (queue_bytes : ℕ) (e f : Environment) (vm vm' : ParsedOptions) (size : ℕ)
      {m m' : Boost.Machine b} {p : Process b}
      → Boost.open_only b vm.shared_obj_name m ≡ none
      → vm'.shared_obj_name ≡ vm.shared_obj_name
      → create_shared b queue_bytes (record e { size = some size }) vm m ≡ ok (p, m')
      → Lives queue_bytes f vm vm' size p m'
  unfolding unregister removes_memory start_writing
  create_shared-end_tool queue_bytes e f vm vm' size {p} absent same h =
      let pair = create_shared-pair laws queue_bytes e f vm vm' size absent same h in
      let name = vm.shared_obj_name in
      let reads : ProcessType × SharedMemoryManager b = (reader_process, p.manager) in
      let writes : ProcessType × SharedMemoryManager b =
        (writer_process, pair.second.process.manager) in
      let l = stored-Left laws (writing vm.dst) (
        subst
          (λ x.
            Left laws x pair.segment pair.address p.queue (joined 1 1 vm.dst) pair.second.machine)
          same pair.second.left) in
      record {
        pair = pair;
        reader_first =
            closes name reads writes pair.pointer pair.second.pointer (pair.second.named ∙ same)
              refl refl l;
        writer_first =
            closes name writes reads pair.second.pointer pair.pointer pair.named refl refl l;
      }
