-- ===== src/Factory/Shared/Stuck.antt =====
-- src/common/PseudoToolFactory.hpp and src/common/IPCTool.hpp: what a reader and a writer leave that
-- end without their destructors, as by SIGKILL, or by a signal before the handlers are set.
use Prim.Native.String.{String}
use mathlib.Core.Path.{subst}
use ki.Prelude.{ℕ, ◌≡◌, refl, Bool, false, none, some, Option}
use ki.Error.{Result, ok, err, cannot_size_file}
use ki.Reader.Buffered
use ki.Writer.Buffered as BufferedWriter
use ki.Ipc.ProcInfo.{SharedInfo, ProcessType, invalid, choose_role, register}
use ki.Ipc.Memory.{Boost}
use ki.Ipc.Memory.Laws.{BoostLaws}
use ki.Options.{ipc, ParsedOptions}
use ki.Factory.{Environment, Tool, ipc_tool, create_tool}
use ki.Factory.Shared.{Process, create_shared, left_behind}
use ki.Factory.Shared.Laws.{Left}
use ki.Factory.Shared.Lifetime.{end_tool}
use ki.Factory.Shared.Processes.{Joins, joins}

-- The structure with a reader and a writer.
abbrev pub occupied : Bool → String → SharedInfo
occupied started dst = record {
  counters = record {
    is_writing_started = started;
    reader_process_count = 1;
    writer_process_count = 1;
  };
  dst = dst;
}

-- The tool that a further process gets, by the size of its source.
abbrev pub refused : Option ℕ → SharedInfo → Result Tool
refused none info = err cannot_size_file
refused (some size) info = ok (ipc_tool invalid (some (Buffered.new_reader size)) none info)

create_tool-refused :
    (e : Environment) (vm : ParsedOptions) (started : Bool) (dst : String) (size : Option ℕ)
    → create_tool (record e { is_first = false; size = size; shared = occupied started dst }) vm ipc
      ≡ refused size (occupied started dst)
unfolding create_tool choose_role register
create_tool-refused e vm started dst none = refl
create_tool-refused e vm started dst (some size) = refl

left-refused : (size : Option ℕ) (info : SharedInfo) → left_behind info (refused size info) ≡ info
left-refused none info = refl
left-refused (some size) info = refl

-- More processes over the shared memory of a name: each makes its tool, or throws, and it is killed
-- or destroys the tool.
pub data Passes (b : Boost) (name : String) (m : Boost.Machine b) : Boost.Machine b → Type 0 where
  nobody : Passes b name m m
  killed :
      {t u : Boost.Machine b} {p : Process b} (queue_bytes : ℕ) (e : Environment)
      (vm : ParsedOptions)
      → Passes b name m t
      → vm.shared_obj_name ≡ name
      → create_shared b queue_bytes e vm t ≡ ok (p, u)
      → Passes b name m u
  ends :
      {t u v : Boost.Machine b} {p : Process b} {role : ProcessType}
      {r : Option Buffered.BufferedReader} {w : Option (String × BufferedWriter.BufferedFileWriter)}
      {info : SharedInfo} (queue_bytes : ℕ) (e : Environment) (vm : ParsedOptions)
      → Passes b name m t
      → vm.shared_obj_name ≡ name
      → create_shared b queue_bytes e vm t ≡ ok (p, u)
      → p.tool ≡ ok (ipc_tool role r w info)
      → end_tool b role p.manager u ≡ ok v
      → Passes b name m v

module _ {b : Boost} (laws : BoostLaws b) (name : String) (g : Boost.Segment b) (a : ℕ)
    (queue : Option ℕ) (started : Bool) (dst : String) where
  -- The segment with its structure as the two have left it.
  abbrev Stands : Boost.Machine b → Type 0
  Stands m = Left laws name g a queue (occupied started dst) m

  -- One more process.
  pub refuses :
      (queue_bytes : ℕ) (e : Environment) (vm : ParsedOptions) {m : Boost.Machine b}
      → vm.shared_obj_name ≡ name
      → Stands m
      → Joins laws queue_bytes e vm m g a queue
          (refused e.size (occupied started dst))
          (occupied started dst)
  refuses queue_bytes e vm {m} same l =
      subst (Joins laws queue_bytes e vm m g a queue (refused e.size (occupied started dst)))
        (left-refused e.size (occupied started dst))
        (joins laws queue_bytes e vm _ same (create_tool-refused e vm started dst e.size) l)
