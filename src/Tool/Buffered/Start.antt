-- ===== src/Tool/Buffered/Start.antt =====
-- src/common/BufferedParallelCopyTool.hpp: the state in which the writing thread is started.
use ki.Prelude.{ℕ, ◌+◌, ◌<◌, ◌≡◌, refl, true, some, none, List, [], length, arith}
use ki.Error.{ok}
use ki.Queue.Buffer.{buffer_size}
use ki.Queue.Fixed.{open_queue, init}
use ki.Queue.Fixed.Laws.{held-init}
use ki.Reader.Buffered.{size_mod}
use ki.Tool.Buffered.{start, copy_start}
use ki.Tool.Buffered.Invariant.{Inv}

pub copy_start-start :
    (file : List ℕ) (flushed : List ℕ → ℕ)
    → copy_start (length file) (some file) (some flushed) true ≡ ok (start file flushed)
unfolding copy_start
copy_start-start file flushed = ground arith

pub start-Inv :
    (file : List ℕ) (flushed : List ℕ → ℕ)
    → length file + buffer_size < size_mod
    → Inv file (start file flushed)
unfolding open_queue init
start-Inv file flushed small = record {
  reading = record {
    stream = record { contents = file; position = 0; vbuf = none };
    opened = refl;
    over = refl;
    sized = refl;
    fits = small;
    within = omega arith;
    placed = λ h. refl;
  };
  writing = record {
    stream = record { flushed = flushed; file = []; pending = []; durable = [] };
    opened = refl;
  };
  kept = λ a. omega (arith, held-init a);
  copied = refl;
  phase = (refl, λ h. cc);
  writer_phase = tt;
}
