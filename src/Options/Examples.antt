-- ===== src/Options/Examples.antt =====
-- Command lines of ki (src/common/OptionsParser.hpp).
use Prim.Native.String.{String}
use ki.Prelude.{◌<◌, ◌≡◌, ◌↔◌, ◌⊎◌, arith}
use ki.Error.{ok}
use ki.Options.{ParsedOptions, parse}
use ki.Options.Laws.{parse-iff_complete}

abbrev mapped : String
mapped = "mmap"

-- A second process of the IPC tool: it names neither file.
abbrev second_process : ParsedOptions
second_process = record {
  help_count = 0;
  src_count = 0;
  dst_count = 0;
  type_count = 1;
  shobj_count = 1;
  src = "";
  dst = "";
  tool = "ipc";
  shared_obj_name = "shared";
}

parse-iff_complete_example : (parse second_process ≡ ok second_process) ↔ (
    (second_process.help_count ≡ 0)
    × (((0 < second_process.src_count) × (0 < second_process.dst_count))
        ⊎ (second_process.tool ≡ "ipc")))
parse-iff_complete_example = parse-iff_complete second_process (omega arith)
