-- ===== src/Ipc/Memory/Sharing.antt =====
-- src/IPC/SharedMemoryManager.cpp: what a second process finds of the first one's objects.
use Prim.Native.String.{String}
use ki.Prelude.{
  ℕ, ◌≤◌, count, length, ◌≡◌, ◌≢◌, refl, sym, ap, ◌∙◌, true, false, none, some, Option, List,
}
use ki.Error.{ok, err, null_pointer}
use ki.Queue.Buffer.{buffers_in_queue}
use ki.Ipc.Memory.{
  Boost, queue_object, SharedMemoryManager, new_manager, get_queue, queue_of, info_name,
  find_or_construct, finish, pointed, end_manager,
}
use ki.Ipc.Memory.Laws.{BoostLaws}
use ki.Ipc.Memory.First.{opener, attached_second, new_manager-Made, get_queue-Queued}

module _ {b : Boost} (laws : BoostLaws b) where
  -- A second process, after the first one's constructor and its call of `getQueue`.
  pub record Shares (name queue_name : String) (first : SharedMemoryManager b) (pointer : Option ℕ)
      (m : Boost.Machine b) (queue_bytes : ℕ) : Type 0 where
    second : SharedMemoryManager b
    attaches : new_manager b queue_bytes name m ≡ ok (second, m)
    roles : (first.is_first_process ≡ true) × (second.is_first_process ≡ false)
    same_info : second.proc_info ≡ first.proc_info
    same_queue : get_queue b second queue_name m ≡ ok (pointer, m)
    address : ℕ
    not_null : pointer ≡ some address
    blocks : List ℕ
    holds : Boost.object_at b address m ≡ some (queue_object (queue_of b blocks))
    all_blocks : length blocks ≡ buffers_in_queue
    apart : (a : ℕ) → count a blocks ≤ 1

  -- For every boost::interprocess that behaves as documented, where no shared memory object of the
  -- name exists: after the constructor of SharedMemoryManager and getQueue of a first process, the
  -- constructor of a second one succeeds, only the first is the first process, both have the same
  -- ProcInfo and the same queue, and this queue holds 512 distinct blocks.
  pub new_manager-Shares :
      (first_bytes queue_bytes : ℕ) {name queue_name : String} {m m' m'' : Boost.Machine b}
      {first : SharedMemoryManager b} {pointer : Option ℕ}
      → queue_name ≢ info_name
      → Boost.open_only b name m ≡ none
      → new_manager b first_bytes name m ≡ ok (first, m')
      → get_queue b first queue_name m' ≡ ok (pointer, m'')
      → Shares name queue_name first pointer m'' queue_bytes
  unfolding get_queue find_or_construct
  new_manager-Shares first_bytes queue_bytes {name} {queue_name} {m'' = m''} {first} other absent
        makes gets =
      let made = new_manager-Made laws first_bytes absent makes in
      let queued = get_queue-Queued laws first made.is_first gets in
      record {
        second = _;
        attaches = attached_second laws queue_bytes (queued.segments name ∙ made.opened);
        roles = (made.is_first, refl);
        same_info = queued.objects info_name (λ e. other (sym e)) ∙ made.found;
        same_queue = ap (λ x. ok (x, m'')) queued.found;
        address = queued.address;
        not_null = queued.pointed;
        blocks = queued.blocks;
        holds = queued.holds;
        all_blocks = queued.fresh.many;
        apart = queued.fresh.apart;
      }

  -- A process that comes before the first one has placed its objects.
  pub record TooEarly (name queue_name : String) (m : Boost.Machine b) (queue_bytes : ℕ)
      : Type 0 where
    second : SharedMemoryManager b
    attaches : new_manager b queue_bytes name m ≡ ok (second, m)
    no_info : second.proc_info ≡ none
    no_queue : get_queue b second queue_name m ≡ ok (none, m)
    ends_in_fault : end_manager b second m ≡ err null_pointer

  -- For every boost::interprocess that behaves as documented: a process whose SharedMemoryManager is
  -- constructed between the create_only of a first process and its construction of ProcInfo succeeds
  -- with null pointers for ProcInfo and for the queue, and its destructor reads through the null
  -- pointer.
  pub create_only-TooEarly :
      (size queue_bytes : ℕ) (name queue_name : String) {m m' : Boost.Machine b}
      {g : Boost.Segment b}
      → Boost.create_only b name size m ≡ some (g, m')
      → TooEarly name queue_name m' queue_bytes
  unfolding get_queue find_or_construct end_manager finish pointed
  create_only-TooEarly size queue_bytes name queue_name {m} {m'} {g} e =
      let fresh = BoostLaws.creates laws e in
      record {
        second = opener b false name g m';
        attaches = attached_second laws queue_bytes fresh.0;
        no_info = fresh.1 info_name;
        no_queue = ap (λ x. ok (x, m')) (fresh.1 queue_name);
        ends_in_fault =
            ap (λ x. finish b (opener b false name g m') m' (pointed b m' x)) (fresh.1 info_name);
      }
