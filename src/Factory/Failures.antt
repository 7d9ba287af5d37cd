-- ===== src/Factory/Failures.antt =====
-- src/main.cpp and src/common/PseudoToolFactory.hpp: what is started, and what is thrown.
use Prim.Native.String.{String}
use ki.Prelude.{
  Bool, true, false, not, ◌&&◌, ◌||◌, if◌then◌else◌, ◌≡◌, refl, refl, ap, ◌∙◌, Option, none, some,
  List, [], ◌∷◌, ◌++◌, arith,
}
use ki.Error.{
  Error, Result, ok, err, ◌>>=◌, cannot_size_file, cannot_open_file, cannot_map_file,
  cannot_create_file, cannot_resize_file, cannot_set_buffering, too_few_arguments,
}
use ki.Ipc.ProcInfo.{
  SharedInfo, ProcessType, reader_process, writer_process, invalid, choose_role, register,
}
use ki.Options.{
  ToolType, parallel, buffered_parallel, ipc, ParsedOptions, parse, get_tool_type, get_dst,
}
use ki.Options.Laws.{tool_name, get_tool_type-name}
use ki.Options.{is_given}
use text.Mathlib.Text.{◌==◌}
use ki.Factory.{
  Environment, prepared, create_tool, begin_copy, begin_ipc, ipc_reader, ipc_writer, ipc_started,
  main,
}

-- The calls of one process, in the order in which it makes them: does the call succeed, and the error
-- where it does not?
pub record Check : Type 0 where
  pub holds : Bool
  pub thrown : Error

unfoldable pub is_some {ℓ} : {A : Type ℓ} → Option A → Bool
is_some none = false
is_some (some a) = true

unfoldable pub first_failure : List Check → Option Error
first_failure [] = none
first_failure (c ∷ cs) = if c.holds then first_failure cs else some c.thrown

unfoldable pub sizes_source : Environment → ProcessType → List Check
unfolding is_some
sizes_source e reader_process = record { holds = is_some e.size; thrown = cannot_size_file } ∷ []
sizes_source e writer_process = []
sizes_source e invalid = []

-- The call of the process that has got this role.
unfoldable pub opens_file : Environment → ProcessType → List Check
unfolding is_some
opens_file e reader_process = record { holds = is_some e.source; thrown = cannot_open_file } ∷ []
opens_file e writer_process =
    record { holds = is_some e.destination; thrown = cannot_create_file }
    ∷ (record { holds = e.accepted; thrown = cannot_set_buffering } ∷ [])
opens_file e invalid = []

unfoldable pub calls : Environment → ToolType → List Check
calls e parallel =
    record { holds = e.found; thrown = cannot_open_file }
    ∷ (record { holds = is_some e.size; thrown = cannot_size_file }
        ∷ (record { holds = is_some e.mapped_source; thrown = cannot_map_file }
            ∷ (record { holds = e.opened; thrown = cannot_create_file }
                ∷ (record { holds = e.resized; thrown = cannot_resize_file }
                    ∷ (record { holds = is_some e.mapped_destination; thrown = cannot_map_file }
                        ∷ [])))))
calls e buffered_parallel =
    record { holds = is_some e.size; thrown = cannot_size_file }
    ∷ (record { holds = is_some e.source; thrown = cannot_open_file }
        ∷ (record { holds = is_some e.destination; thrown = cannot_create_file }
            ∷ (record { holds = e.accepted; thrown = cannot_set_buffering } ∷ [])))
calls e ipc =
    let role = choose_role e.shared.counters in
    sizes_source e role ++ opens_file e (register role e.shared.counters).0

unfoldable pub thrown {ℓ} : {A : Type ℓ} → Result A → Option Error
thrown (err x) = some x
thrown (ok a) = none

-- What the first process prepares does not change the choice.
choose_role-prepared :
    (first : Bool) (dst : String) (info : SharedInfo)
    → choose_role (prepared first dst info).counters ≡ choose_role info.counters
unfolding choose_role
choose_role-prepared true dst info = refl
choose_role-prepared false dst info = refl

-- A process that has chosen its role gets it, or none.
registered-thrown :
    (e : Environment) (role : ProcessType) (dst : String) (info : SharedInfo)
    → thrown (do
      r ← ipc_reader role e.size
      s ←
          begin_ipc e
            (register role info.counters).0
            r
            (ipc_writer role dst)
            (record info { counters = (register role info.counters).1 })
      ok (ipc_started s))
      ≡ first_failure (sizes_source e role ++ opens_file e (register role info.counters).0)
unfolding thrown first_failure begin_ipc ipc_reader ipc_writer register opens_file sizes_source
    is_some
registered-thrown e reader_process dst info = ground arith
registered-thrown e writer_process dst info = ground arith
registered-thrown e invalid dst info = refl

register-prepared :
    (first : Bool) (dst : String) (info : SharedInfo) (role : ProcessType)
    → (register role (prepared first dst info).counters).0 ≡ (register role info.counters).0
unfolding register
register-prepared true dst info reader_process = ground arith
register-prepared true dst info writer_process = ground arith
register-prepared true dst info invalid = refl
register-prepared false dst info role = refl

then_ok {ℓ} :
    {A : Type ℓ} {B : Type ℓ} {C : Type ℓ} (m : Result A) (f : A → B) (g : B → Result C)
    → (m >>= (λ a. ok (f a)) >>= g) ≡ (m >>= λ a. g (f a))
then_ok (err x) f g = refl
then_ok (ok a) f g = refl

ipc-thrown :
    (e : Environment) (vm : ParsedOptions)
    → thrown (create_tool e vm ipc >>= begin_copy e) ≡ first_failure (calls e ipc)
unfolding create_tool begin_copy calls
ipc-thrown e vm =
    let info = prepared e.is_first (get_dst vm) e.shared in
    let role = choose_role info.counters in
    ap thrown (then_ok (ipc_reader role e.size) _ (begin_copy e))
    ∙ (registered-thrown e role info.dst info
        ∙ ap (λ got. first_failure (sizes_source e role ++ opens_file e got))
            (register-prepared e.is_first (get_dst vm) e.shared role)
        ∙ ap
            (λ r. first_failure (sizes_source e r ++ opens_file e (register r e.shared.counters).0))
            (choose_role-prepared e.is_first (get_dst vm) e.shared))

calls-thrown :
    (e : Environment) (vm : ParsedOptions) (t : ToolType)
    → thrown (create_tool e vm t >>= begin_copy e) ≡ first_failure (calls e t)
unfolding thrown first_failure calls create_tool begin_copy sizes_source is_some
calls-thrown e vm parallel = ground arith
calls-thrown e vm buffered_parallel = ground arith
calls-thrown e vm ipc = ipc-thrown e vm

-- Is the command line complete for this tool?
unfoldable pub names_files : ParsedOptions → ToolType → Bool
names_files vm parallel = is_given vm.src_count && is_given vm.dst_count
names_files vm buffered_parallel = is_given vm.src_count && is_given vm.dst_count
names_files vm ipc = true

unfoldable pub is_complete : ParsedOptions → ToolType → Bool
unfolding names_files
is_complete vm t =
    not (is_given vm.help_count)
    && (names_files vm t && (not (is_given vm.type_count) || is_given vm.shobj_count))

parse_complete :
    (vm : ParsedOptions) (t : ToolType)
    → vm.tool ≡ tool_name t
    → parse vm ≡ (if is_complete vm t then ok vm else err too_few_arguments)
unfolding parse is_complete names_files
parse_complete vm parallel e = ground (arith, ap (λ x. x == "ipc") e)
parse_complete vm buffered_parallel e = ground (arith, ap (λ x. x == "ipc") e)
parse_complete vm ipc e = ground (arith, ap (λ x. x == "ipc") e)

gets_tool :
    (vm : ParsedOptions) (t : ToolType) → vm.tool ≡ tool_name t → get_tool_type vm.tool ≡ ok t
gets_tool vm t named = ap get_tool_type named ∙ get_tool_type-name t

-- What follows the command line.
main-calls :
    (e : Environment) (vm : ParsedOptions) (t : ToolType)
    → vm.tool ≡ tool_name t
    → main e vm
      ≡ (if is_complete vm t then create_tool e vm t >>= begin_copy e else err too_few_arguments)
unfolding main
main-calls e vm t named =
    ap
      (λ m. m >>= λ parsed.
        get_tool_type parsed.tool >>= λ t'. create_tool e parsed t' >>= begin_copy e)
      (parse_complete vm t named)
    ∙ elim (is_complete vm t)
        as (λ b.
          ((if b then ok vm else err too_few_arguments) >>= λ parsed.
          get_tool_type parsed.tool >>= λ t'. create_tool e parsed t' >>= begin_copy e)
          ≡ (if b then create_tool e vm t >>= begin_copy e else err too_few_arguments)) [
            | true ↦
                ap (λ m. m >>= λ t'. create_tool e vm t' >>= begin_copy e) (gets_tool vm t named)
            | false ↦ refl
          ]

-- For a command line that names a tool, and for ipc with the shared memory at hand, what main throws
-- before the threads or the loops of copy is the error of the first step that fails, in their order:
-- the check of the command line; then for mmap the opening, the size and the mapping of the source,
-- and the opening, resizing and mapping of the destination; for vbuf the size and the opening of the
-- source, the opening of the destination and its buffering mode; for ipc the size of the source,
-- where the process chooses the role of the reader, and the opening of the source where it gets this
-- role, or the opening of the destination and its buffering mode where it gets the role of the
-- writer. It throws nothing where no step fails.
pub main-thrown :
    (e : Environment) (vm : ParsedOptions) (t : ToolType)
    → vm.tool ≡ tool_name t
    → thrown (main e vm)
      ≡ first_failure (record { holds = is_complete vm t; thrown = too_few_arguments } ∷ calls e t)
unfolding first_failure thrown
main-thrown e vm t named = ground (arith, main-calls e vm t named, calls-thrown e vm t)
