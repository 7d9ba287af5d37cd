-- ===== src/Options.antt =====
-- src/common/OptionsParser.hpp: OptionsParser, and the type of the tool that it selects. What
-- boost::program_options finds on the command line is an argument.
pub mod Laws
mod Examples
use Prim.Native.String.{String}
use text.Mathlib.Text.{◌==◌}
use ki.Prelude.{ℕ, Bool, not, ◌&&◌, ◌||◌, ltb, if◌then◌else◌}
use ki.Error.{Result, ok, err, ◌>>=◌, ◌>>◌, guard, too_few_arguments, incorrect_tool_type}

-- src/common/ToolTypeEnum.hpp
pub data ToolType : Type 0 where
  parallel buffered_parallel ipc : ToolType

-- The results of `store` and `notify`: how often an option is there, and the members that are set. A
-- member without an option or a default is the empty string.
pub record ParsedOptions : Type 0 where
  pub help_count : ℕ
  pub src_count : ℕ
  pub dst_count : ℕ
  pub type_count : ℕ
  pub shobj_count : ℕ
  pub src : String
  pub dst : String
  pub tool : String
  pub shared_obj_name : String

-- `vm.count(...)` as a condition.
abbrev pub is_given : ℕ → Bool
is_given n = ltb 0 n

-- The condition under which the constructor throws.
abbrev pub lacks_arguments : ParsedOptions → Bool
lacks_arguments vm =
    is_given vm.help_count
    || (((not (is_given vm.src_count) || not (is_given vm.dst_count)) && not (vm.tool == "ipc"))
        || (is_given vm.type_count && not (is_given vm.shobj_count)))

-- The constructor; it keeps what is parsed, or throws.
unfoldable pub parse : ParsedOptions → Result ParsedOptions
parse vm = guard (not (lacks_arguments vm)) too_few_arguments >> ok vm

-- `getToolType`
unfoldable pub get_tool_type : String → Result ToolType
get_tool_type tool =
    if tool == "vbuf"
    then ok buffered_parallel
    else if tool == "mmap"
    then ok parallel
    else if tool == "ipc"
    then ok ipc
    else err incorrect_tool_type

-- `getDst`
abbrev pub get_dst : ParsedOptions → String
get_dst vm = vm.dst

-- `getSharedObjName`
abbrev pub get_shared_obj_name : ParsedOptions → String
get_shared_obj_name vm = vm.shared_obj_name
