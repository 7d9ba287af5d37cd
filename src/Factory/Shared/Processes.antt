-- ===== src/Factory/Shared/Processes.antt =====
-- src/common/PseudoToolFactory.hpp: the processes of the IPC tool over one shared memory object, one
-- after the other.
use Prim.Native.String.{String}
use mathlib.Core.Path.{subst}
use ki.Prelude.{ℕ, ◌≡◌, refl, sym, ap, ◌∙◌, true, false, none, some, Option}
use ki.Error.{Result, ok, err, cannot_size_file}
use ki.Reader.Buffered
use ki.Writer.Buffered as BufferedWriter
use ki.Ipc.ProcInfo.{
  SharedInfo, new_shared_info, reader_process, writer_process, choose_role, register,
}
use ki.Ipc.Memory.{Boost}
use ki.Ipc.Memory.First.{opener}
use ki.Ipc.Memory.Laws.{BoostLaws}
use ki.Options.{ipc, ParsedOptions}
use ki.Factory.{Environment, Tool, ipc_tool, prepared, create_tool}
use ki.Factory.Pair.{joined}
use ki.Factory.Shared.{Process, build, create_shared, left_behind}
use ki.Factory.Shared.Laws.{Left, stored-Left, create_shared-build, Opens, create_shared-Opens}

-- The tools of a pair.
abbrev pub reads : ℕ → String → Result Tool
reads size dst =
    ok (ipc_tool reader_process (some (Buffered.new_reader size)) none (joined 1 0 dst))

abbrev pub writes : String → Result Tool
writes dst =
    ok (ipc_tool writer_process none (some (dst, BufferedWriter.new_writer)) (joined 1 1 dst))

module _ {b : Boost} (laws : BoostLaws b) where
  -- A process that finds the segment, its tool, and what it leaves.
  pub record Joins (queue_bytes : ℕ) (e : Environment) (vm : ParsedOptions) (m : Boost.Machine b)
      (g : Boost.Segment b) (a : ℕ) (queue : Option ℕ) (tool : Result Tool) (info : SharedInfo)
      : Type 0 where
    pub process : Process b
    pub machine : Boost.Machine b
    pub attaches : create_shared b queue_bytes e vm m ≡ ok (process, machine)
    pub same_queue : process.queue ≡ queue
    pub not_first : process.manager.is_first_process ≡ false
    pub makes : process.tool ≡ tool
    pub named : process.manager.name ≡ vm.shared_obj_name
    pub pointer : process.manager.proc_info ≡ some a
    pub left : Left laws vm.shared_obj_name g a queue info machine

  -- A reader, and a writer that joins it.
  pub record Pairs (queue_bytes : ℕ) (f : Environment) (vm vm' : ParsedOptions) (size : ℕ)
      (p : Process b) (m : Boost.Machine b) : Type 0 where
    pub segment : Boost.Segment b
    pub address : ℕ
    pub named : p.manager.name ≡ vm.shared_obj_name
    pub pointer : p.manager.proc_info ≡ some address
    pub reading : p.tool ≡ reads size vm.dst
    pub second :
        Joins queue_bytes f vm' m segment address p.queue (writes vm.dst) (joined 1 1 vm.dst)

  -- A process that has failed, and two that follow it.
  pub record Stale (queue_bytes : ℕ) (f g : Environment) (vm vm' vm'' : ParsedOptions) (size : ℕ)
      (p : Process b) (m : Boost.Machine b) : Type 0 where
    pub segment : Boost.Segment b
    pub address : ℕ
    pub failed : p.tool ≡ err cannot_size_file
    pub second :
        Joins queue_bytes
          (record f { size = some size })
          vm'
          m
          segment
          address
          p.queue
          (reads size vm.dst)
          (joined 1 0 vm.dst)
    pub third :
        Joins queue_bytes g vm'' second.machine segment address p.queue
          (writes vm.dst)
          (joined 1 1 vm.dst)

  pub joins :
      (queue_bytes : ℕ) (e : Environment) (vm : ParsedOptions) {name : String} {g : Boost.Segment b}
      {a : ℕ} {queue : Option ℕ} {info : SharedInfo} {m : Boost.Machine b} (tool : Result Tool)
      → vm.shared_obj_name ≡ name
      → create_tool (record e { is_first = false; shared = info }) vm ipc ≡ tool
      → Left laws name g a queue info m
      → Joins queue_bytes e vm m g a queue tool (left_behind info tool)
  unfolding build
  joins queue_bytes e vm {g} {a} {queue} {info} {m} tool same makes l =
      let l' = subst (λ x. Left laws x g a queue info m) (sym same) l in
      let built = build b e vm (opener b false vm.shared_obj_name g m) queue a info m in
      record {
        process = built.0;
        machine = built.1;
        attaches = create_shared-build laws queue_bytes e vm l';
        same_queue = refl;
        not_first = refl;
        makes = makes;
        named = refl;
        pointer = l'.found;
        left =
            subst
              (λ (x : Result Tool).
                Left laws vm.shared_obj_name g a queue (left_behind info x) built.1)
              makes (stored-Left laws _ l');
      }

  -- The first process, by the answer to its question for the size of the source.
  opened_by :
      (e : Environment) (vm : ParsedOptions) {m : Boost.Machine b} {p : Process b}
      (tool : Result Tool)
      → create_tool (record e { is_first = true; shared = new_shared_info }) vm ipc ≡ tool
      → (o : Opens laws e vm p m)
      → (p.tool ≡ tool)
        × Left laws vm.shared_obj_name o.segment o.address p.queue
            (left_behind (prepared true vm.dst new_shared_info) tool)
            m
  opened_by e vm {m} {p} tool makes o =
      let made =
        o.made
        ∙ (ap
              (λ first.
                create_tool (record e { is_first = first; shared = new_shared_info }) vm ipc)
              o.first
            ∙ makes) in
      (
        made,
        subst
            (λ (x : Result Tool).
              Left laws vm.shared_obj_name o.segment o.address p.queue
                (left_behind (prepared true vm.dst new_shared_info) x) m)
            made
            (subst
              (λ first.
                Left laws vm.shared_obj_name o.segment o.address p.queue
                  (left_behind (prepared first vm.dst new_shared_info) p.tool) m)
              o.first o.left),
      )

  -- For every boost::interprocess that behaves as documented, where no shared memory object of the
  -- name exists and the size of the source is found: if createTool for the IPC tool comes to its end
  -- in a first process, its tool is a reader; in a second process with the same name, whatever its
  -- command line and the system's answers, createTool comes to its end too: the process is not the
  -- first, has the same queue, and its tool is a writer for the destination of the first process;
  -- ProcInfo then counts one reader and one writer.
  pub create_shared-pair :
      (queue_bytes : ℕ) (e f : Environment) (vm vm' : ParsedOptions) (size : ℕ)
      {m m' : Boost.Machine b} {p : Process b}
      → Boost.open_only b vm.shared_obj_name m ≡ none
      → vm'.shared_obj_name ≡ vm.shared_obj_name
      → create_shared b queue_bytes (record e { size = some size }) vm m ≡ ok (p, m')
      → Pairs queue_bytes f vm vm' size p m'
  unfolding create_tool choose_role register
  create_shared-pair queue_bytes e f vm vm' size absent same h =
      let o = create_shared-Opens laws queue_bytes (record e { size = some size }) vm absent h in
      let first = opened_by (record e { size = some size }) vm (reads size vm.dst) refl o in
      record {
        segment = o.segment;
        address = o.address;
        named = o.named;
        pointer = o.pointer;
        reading = first.0;
        second = joins queue_bytes f vm' (writes vm.dst) same refl first.1;
      }
