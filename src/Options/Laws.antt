-- ===== src/Options/Laws.antt =====
-- src/common/OptionsParser.hpp: the texts that select a tool, and the command lines that are accepted.
use Prim.Native.String.{String}
use text.Mathlib.TextEquality.{eq_iff}
use mathlib.Core.Path.{subst}
use ki.Prelude.{sym, ◌<◌, ◌≡◌, ◌↔◌, ◌⊎◌, refl, arith}
use ki.Error.{ok}
use ki.Options.{ToolType, parallel, buffered_parallel, ipc, ParsedOptions, parse, get_tool_type}

-- The text that the user gives for a tool.
abbrev pub tool_name : ToolType → String
tool_name parallel = "mmap"
tool_name buffered_parallel = "vbuf"
tool_name ipc = "ipc"

name-get_tool_type : (s : String) (t : ToolType) → get_tool_type s ≡ ok t → s ≡ tool_name t
unfolding get_tool_type
name-get_tool_type s parallel h = ground (arith, eq_iff s "vbuf", eq_iff s "mmap", eq_iff s "ipc")
name-get_tool_type s buffered_parallel h =
    ground (arith, eq_iff s "vbuf", eq_iff s "mmap", eq_iff s "ipc")
name-get_tool_type s ipc h = ground (arith, eq_iff s "vbuf", eq_iff s "mmap", eq_iff s "ipc")

pub get_tool_type-name : (t : ToolType) → get_tool_type (tool_name t) ≡ ok t
unfolding get_tool_type
get_tool_type-name parallel = refl
get_tool_type-name buffered_parallel = refl
get_tool_type-name ipc = refl

-- getToolType gives a tool exactly for the text that names it: mmap, vbuf or ipc; every other text
-- is refused.
pub get_tool_type-iff-tool_name :
    (s : String) (t : ToolType) → (get_tool_type s ≡ ok t) ↔ (s ≡ tool_name t)
get_tool_type-iff-tool_name s t = (
  name-get_tool_type s t,
  λ e. subst (λ x. get_tool_type x ≡ ok t) (sym e) (get_tool_type-name t),
)

-- Where shobj is counted, as an option with a default is, the constructor of OptionsParser accepts a
-- command line exactly if it does not ask for help, and either names the source and the destination
-- or selects the IPC tool.
pub parse-iff_complete :
    (vm : ParsedOptions)
    → 0 < vm.shobj_count
    → (parse vm ≡ ok vm)
      ↔ ((vm.help_count ≡ 0) × (((0 < vm.src_count) × (0 < vm.dst_count)) ⊎ (vm.tool ≡ "ipc")))
unfolding parse
parse-iff_complete vm h = ground (arith, eq_iff vm.tool "ipc")
