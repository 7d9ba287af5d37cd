-- ===== src/Ipc/Memory/First.antt =====
-- src/IPC/SharedMemoryManager.cpp: the process that creates the segment.
use Prim.Native.String.{String}
use mathlib.Core.Path.{subst}
use ki.Prelude.{
  ℕ, ◌≡◌, ◌≢◌, refl, sym, ap, ◌∙◌, Bool, true, false, none, some, Option, List, eq_of_some,
}
use ki.Error.{ok, ◌>>=◌, returned_first, ok_injective}
use ki.Queue.Buffer.{buffers_in_queue}
use ki.Ipc.ProcInfo.{new_shared_info}
use ki.Ipc.Memory.{
  Boost, Object, info_object, queue_object, SharedMemoryManager, new_manager, get_queue,
  allocate_blocks, queue_of, info_name, needed_size, place_info, created, attach, attached,
  construct_queue, find_or_construct, or_throw,
}
use ki.Ipc.Memory.Laws.{BoostLaws}
use ki.Ipc.Memory.Blocks.{Fresh, or_throw-some, allocate_blocks-Fresh}

-- A manager that has opened the segment.
abbrev pub opener :
    (b : Boost) → Bool → String → Boost.Segment b → Boost.Machine b → SharedMemoryManager b
opener b first name g m = record {
  segment = g;
  is_first_process = first;
  proc_info = Boost.find b g info_name m;
  name = name;
}

pub get_queue-opener :
    (b : Boost) (name queue_name : String) (g : Boost.Segment b) (m : Boost.Machine b)
    → get_queue b (opener b false name g m) queue_name m ≡ ok (Boost.find b g queue_name m, m)
unfolding get_queue find_or_construct
get_queue-opener b name queue_name g m = refl

module _ {b : Boost} (laws : BoostLaws b) where
  -- The manager of a process that has created the segment.
  pub record Made (name : String) (manager : SharedMemoryManager b) (m : Boost.Machine b)
      : Type 0 where
    pub opened : Boost.open_only b name m ≡ some manager.segment
    pub found : Boost.find b manager.segment info_name m ≡ manager.proc_info
    pub holds :
        (a : ℕ)
        → manager.proc_info ≡ some a
        → Boost.object_at b a m ≡ some (info_object new_shared_info)
    pub named : manager.name ≡ name
    pub is_first : manager.is_first_process ≡ true

  attached-opened :
      (first : Bool) (name : String) (m : Boost.Machine b) (g : Boost.Segment b)
      → Boost.open_only b name m ≡ some g
      → attached b first name m ≡ ok (opener b first name g m, m)
  unfolding attached attach
  attached-opened first name m g opened =
      ap (λ got. attach b first name m got >>= λ manager. ok (manager, m)) opened

  placed-Made :
      {name : String} {g : Boost.Segment b} {m m' : Boost.Machine b}
      {manager : SharedMemoryManager b} (got : Option (ℕ × Boost.Machine b))
      → Boost.construct b g info_name (info_object new_shared_info) m ≡ got
      → Boost.open_only b name m ≡ some g
      → ((object : String) → Boost.find b g object m ≡ none)
      → place_info b name g m got ≡ ok (manager, m')
      → Made name manager m'
  unfolding place_info attached attach
  placed-Made {name} {g} {m} none e opened new h =
      subst (λ p. Made name p.0 p.1) (ok_injective (sym (attached-opened true name m g opened) ∙ h))
        (record {
          opened = opened;
          found = refl;
          holds = λ a e. absurd (cc (e, new info_name));
          named = refl;
          is_first = refl;
        })
  placed-Made {name} {g} {m} (some (a, m')) e opened new h =
      subst (λ p. Made name p.0 p.1) (ok_injective h)
        (record {
          opened = BoostLaws.placed_inside laws e ∙ opened;
          found = (BoostLaws.placed laws e).0;
          holds = λ c same.
              subst (λ x. Boost.object_at b x m' ≡ some (info_object new_shared_info))
                (eq_of_some same) (BoostLaws.placed laws e).1;
          named = refl;
          is_first = refl;
        })

  created-Made :
      {name : String} {size : ℕ} {m m' : Boost.Machine b} {manager : SharedMemoryManager b}
      (got : Option (Boost.Segment b × Boost.Machine b))
      → Boost.create_only b name size m ≡ got
      → Boost.open_only b name m ≡ none
      → created b name m got ≡ ok (manager, m')
      → Made name manager m'
  unfolding created attached attach
  created-Made none e absent h = absurd (cc (absent, h))
  created-Made (some (g, m')) e absent h =
      placed-Made (Boost.construct b g info_name (info_object new_shared_info) m') refl
        (BoostLaws.creates laws e).0 (BoostLaws.creates laws e).1 h

  pub new_manager-Made :
      (queue_bytes : ℕ) {name : String} {m m' : Boost.Machine b} {manager : SharedMemoryManager b}
      → Boost.open_only b name m ≡ none
      → new_manager b queue_bytes name m ≡ ok (manager, m')
      → Made name manager m'
  unfolding new_manager
  new_manager-Made queue_bytes {name} {m} absent h =
      created-Made (Boost.create_only b name (needed_size queue_bytes) m) refl absent h

  -- A manager that opens what is there.
  pub attached_second :
      (queue_bytes : ℕ) {name : String} {m : Boost.Machine b} {g : Boost.Segment b}
      → Boost.open_only b name m ≡ some g
      → new_manager b queue_bytes name m ≡ ok (opener b false name g m, m)
  unfolding new_manager created
  attached_second queue_bytes {name} {m} {g} opened =
      ap (created b name m) (BoostLaws.exclusive laws opened)
      ∙ attached-opened false name m g opened

  -- The queue of the process that has created the segment.
  pub record Queued (m : Boost.Machine b) (m' : Boost.Machine b) (g : Boost.Segment b)
      (name : String) (pointer : Option ℕ) : Type 0 where
    pub segments : (segment : String) → Boost.open_only b segment m' ≡ Boost.open_only b segment m
    pub objects :
        (object : String) → object ≢ name → Boost.find b g object m' ≡ Boost.find b g object m
    pub contents :
        (c : ℕ) (y : Object) → Boost.object_at b c m ≡ some y → Boost.object_at b c m' ≡ some y
    pub found : Boost.find b g name m' ≡ pointer
    pub blocks : List ℕ
    pub fresh : Fresh laws m buffers_in_queue blocks
    pub address : ℕ
    pub pointed : pointer ≡ some address
    pub holds : Boost.object_at b address m' ≡ some (queue_object (queue_of b blocks))

  construct_queue-Queued :
      {g : Boost.Segment b} {name : String} {m m' : Boost.Machine b} {pointer : Option ℕ}
      → construct_queue b g name m ≡ ok (pointer, m')
      → Queued m m' g name pointer
  unfolding construct_queue
  construct_queue-Queued {g} {name} {m} h =
      let allocated = returned_first (allocate_blocks b buffers_in_queue g m) _ h in
      let constructed =
        returned_first
          (or_throw
            (Boost.construct b g name (queue_object (queue_of b allocated.0.0)) allocated.0.1))
          _ allocated.2 in
      let e =
        or_throw-some
          (Boost.construct b g name (queue_object (queue_of b allocated.0.0)) allocated.0.1)
          constructed.1 in
      let blocks = allocate_blocks-Fresh laws buffers_in_queue allocated.1 in
      subst (λ p. Queued m p.1 g name p.0) (ok_injective constructed.2)
        (record {
          segments = λ segment. BoostLaws.placed_inside laws e ∙ blocks.0.segments segment;
          objects = λ object other. BoostLaws.placed_apart laws e other ∙ blocks.0.objects object;
          contents = λ c y h. BoostLaws.placed_beside laws e (blocks.0.contents c y h);
          found = (BoostLaws.placed laws e).0;
          blocks = allocated.0.0;
          fresh = blocks.1;
          address = constructed.0.0;
          pointed = refl;
          holds = (BoostLaws.placed laws e).1;
        })

  pub get_queue-Queued :
      (manager : SharedMemoryManager b) {name : String} {m m' : Boost.Machine b}
      {pointer : Option ℕ}
      → manager.is_first_process ≡ true
      → get_queue b manager name m ≡ ok (pointer, m')
      → Queued m m' manager.segment name pointer
  unfolding get_queue find_or_construct
  get_queue-Queued manager {name} {m} {m'} {pointer} e h =
      construct_queue-Queued
        (subst (λ first. find_or_construct b first manager.segment name m ≡ ok (pointer, m')) e h)
