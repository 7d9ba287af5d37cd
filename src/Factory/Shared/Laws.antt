-- ===== src/Factory/Shared/Laws.antt =====
-- src/common/PseudoToolFactory.hpp: what one process of the IPC tool leaves to the next.
use Prim.Native.String.{String}
use mathlib.Core.Path.{subst}
use ki.Prelude.{ℕ, ◌≡◌, ◌≢◌, refl, sym, ap, ◌∙◌, true, false, none, some, Option}
use ki.Error.{Result, ok, ◌>>=◌, returned_first, ok_injective}
use ki.Ipc.ProcInfo.{SharedInfo, new_shared_info}
use ki.Ipc.Memory.{Boost, info_object, SharedMemoryManager, new_manager, get_queue, info_name}
use ki.Ipc.Memory.Laws.{BoostLaws}
use ki.Ipc.Memory.First.{
  opener, attached_second, get_queue-opener, new_manager-Made, get_queue-Queued,
}
use ki.Options.{ipc, ParsedOptions}
use ki.Factory.{Environment, prepared, create_tool}
use ki.Factory.Shared.{
  Process, finds, build, build_at, build_through, create_shared, queue_name, left_behind,
}

other_name : queue_name ≢ info_name
other_name e = absurd (cc e)

module _ {b : Boost} (laws : BoostLaws b) where
  -- The segment with its two objects, as a process leaves it.
  pub record Left (name : String) (segment : Boost.Segment b) (address : ℕ) (queue : Option ℕ)
      (info : SharedInfo) (m : Boost.Machine b) : Type 0 where
    pub opened : Boost.open_only b name m ≡ some segment
    pub found : Boost.find b segment info_name m ≡ some address
    pub holds : Boost.object_at b address m ≡ some (info_object info)
    pub queued : Boost.find b segment queue_name m ≡ queue

  -- A write to the structure.
  pub stored-Left :
      {name : String} {g : Boost.Segment b} {a : ℕ} {queue : Option ℕ} {info : SharedInfo}
      {m : Boost.Machine b} (info' : SharedInfo)
      → Left name g a queue info m
      → Left name g a queue info' (Boost.store b a (info_object info') m)
  stored-Left info' l = record {
    opened = BoostLaws.stored_inside laws ∙ l.opened;
    found = BoostLaws.stored_apart laws ∙ l.found;
    holds = BoostLaws.stored laws l.holds;
    queued = BoostLaws.stored_apart laws ∙ l.queued;
  }

  -- After the constructor of the manager.
  after_manager :
      (e : Environment) (vm : ParsedOptions)
      → SharedMemoryManager b × Boost.Machine b
      → Result (Process b × Boost.Machine b)
  after_manager e vm (manager, m) =
      get_queue b manager queue_name m >>= λ (q : Option ℕ × Boost.Machine b).
      build_through b e vm manager q.0 q.1 manager.proc_info

  pub create_shared-build :
      (queue_bytes : ℕ) (e : Environment) (vm : ParsedOptions) {g : Boost.Segment b} {a : ℕ}
      {queue : Option ℕ} {info : SharedInfo} {m : Boost.Machine b}
      → Left vm.shared_obj_name g a queue info m
      → create_shared b queue_bytes e vm m
        ≡ ok (build b e vm (opener b false vm.shared_obj_name g m) queue a info m)
  unfolding create_shared build_through build_at after_manager
  create_shared-build queue_bytes e vm {g} {a} {queue} {info} {m} l =
      let joiner = opener b false vm.shared_obj_name g m in
      ap (λ made. made >>= after_manager e vm) (attached_second laws queue_bytes l.opened)
      ∙ (ap
            (λ got. got >>= λ (q : Option ℕ × Boost.Machine b).
              build_through b e vm joiner q.0 q.1 joiner.proc_info)
            (get_queue-opener b vm.shared_obj_name queue_name g m ∙ ap (λ x. ok (x, m)) l.queued)
          ∙ (ap (build_through b e vm joiner queue m) l.found
              ∙ ap (build_at b e vm joiner queue a m) l.holds))

  -- What the process that creates the segment has made of it.
  pub record Opens (e : Environment) (vm : ParsedOptions) (p : Process b) (m : Boost.Machine b)
      : Type 0 where
    pub first : p.manager.is_first_process ≡ true
    pub made : p.tool ≡ create_tool (finds b e p.manager new_shared_info) vm ipc
    pub segment : Boost.Segment b
    pub address : ℕ
    pub named : p.manager.name ≡ vm.shared_obj_name
    pub pointer : p.manager.proc_info ≡ some address
    pub left :
        Left vm.shared_obj_name segment address p.queue
          (left_behind (prepared p.manager.is_first_process vm.dst new_shared_info) p.tool)
          m

  through-Opens :
      (e : Environment) (vm : ParsedOptions) (manager : SharedMemoryManager b)
      {queue got : Option ℕ} {m m' : Boost.Machine b} {p : Process b}
      → manager.is_first_process ≡ true
      → Boost.open_only b vm.shared_obj_name m ≡ some manager.segment
      → Boost.find b manager.segment info_name m ≡ got
      → Boost.find b manager.segment queue_name m ≡ queue
      → manager.name ≡ vm.shared_obj_name
      → manager.proc_info ≡ got
      → ((a : ℕ) → got ≡ some a → Boost.object_at b a m ≡ some (info_object new_shared_info))
      → build_through b e vm manager queue m got ≡ ok (p, m')
      → Opens e vm p m'
  unfolding build_through build_at build
  through-Opens e vm manager {got = none} first opened found queued named pointer holds h =
      absurd (cc h)
  through-Opens e vm manager {queue} {got = some a} {m} first opened found queued named pointer
        holds h =
      subst (λ (x : Process b × Boost.Machine b). Opens e vm x.0 x.1)
        (ok_injective (sym (ap (build_at b e vm manager queue a m) (holds a refl)) ∙ h))
        (record {
          first = first;
          made = refl;
          segment = manager.segment;
          address = a;
          named = named;
          pointer = pointer;
          left =
              stored-Left _
                (record { opened = opened; found = found; holds = holds a refl; queued = queued });
        })

  pub create_shared-Opens :
      (queue_bytes : ℕ) (e : Environment) (vm : ParsedOptions) {m m' : Boost.Machine b}
      {p : Process b}
      → Boost.open_only b vm.shared_obj_name m ≡ none
      → create_shared b queue_bytes e vm m ≡ ok (p, m')
      → Opens e vm p m'
  unfolding create_shared
  create_shared-Opens queue_bytes e vm {m} absent h =
      let makes = returned_first (new_manager b queue_bytes vm.shared_obj_name m) _ h in
      let gets = returned_first (get_queue b makes.0.0 queue_name makes.0.1) _ makes.2 in
      let made = new_manager-Made laws queue_bytes absent makes.1 in
      let queued = get_queue-Queued laws makes.0.0 made.is_first gets.1 in
      through-Opens e vm makes.0.0 made.is_first (queued.segments vm.shared_obj_name ∙ made.opened)
        (queued.objects info_name (λ same. other_name (sym same)) ∙ made.found) queued.found
        made.named refl (λ a got. queued.contents a _ (made.holds a got)) gets.2
