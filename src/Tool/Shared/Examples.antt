-- ===== src/Tool/Shared/Examples.antt =====
-- Runs of the two processes of IPCTool (src/common/IPCTool.hpp) over a small file.
use mathlib.Core.Path.{subst}
use ki.Prelude.{
  sym, ◌⊎◌, inl, inr, ℕ, ◌+◌, ◌<◌, ◌≡◌, ◌≢◌, refl, Bool, true, false, Option, none, some, List, [],
  ◌∷◌, length, arith, range_from,
}
use ki.Stdio.{DiskFile}
use ki.Queue.Buffer.{buffer_size}
use ki.Queue.Fixed.{
  init, get_free_buffer, get_filled_buffer, is_empty, close, open_queue, return_buffer, finish_read,
}
use ki.Reader.Buffered.{fill, size_mod, open_reader}
use ki.Writer.Buffered.{write_bytes, finish_write, create}
use ki.Ipc.ProcInfo.{ProcInfo, start_writing, writer_process}
use ki.Ipc.Observer.{terminates}
use ki.Tool.Buffered
use ki.Tool.Buffered.{read_done, threw, write_done, close_queue, sleep_filled, start}
use ki.Tool.Shared.{
  Files, System, opens_queue, reader_threw, writer_threw, reader_move, writer_move, loop_move, Step,
  reads, writes, Reach, here, step, launch,
}
use ki.Tool.Shared.Simulation.{files, view}
use ki.Tool.Shared.Safety.{shared_copy_refines, shared_copy_correct, shared_never_throws}
use ki.Tool.Shared.Stranded.{Run, move, shared_copy_stranded}
use ki.Tool.Shared.Stranded

abbrev small_file : List ℕ
small_file = 75 ∷ 105 ∷ 33 ∷ []

-- A library that passes on nothing before the end.
abbrev lazy : List ℕ → ℕ
lazy xs = 0

abbrev small_files : Files
small_files = files small_file lazy

after : (s : System) (x : Option System) → System
after s none = s
after s (some t) = t

-- `true` is a move of the reading process, `false` one of the writing process.
turn : Bool → System → System
unfolding after
turn true s = after s (reader_move small_files s s.reader_stage)
turn false s = after s (writer_move small_files s s.writer_stage)

play : List Bool → System → System
unfolding turn
play [] s = s
play (b ∷ bs) s = play bs (turn b s)

-- A turn is a step, or it changes nothing.
turn-Step : (b : Bool) (t : System) → (turn b t ≡ t) ⊎ Step small_files t (turn b t)
unfolding turn after
turn-Step true t = moved (reader_move small_files t t.reader_stage) refl
  where
    moved :
        (x : Option System)
        → reader_move small_files t t.reader_stage ≡ x
        → (after t x ≡ t) ⊎ Step small_files t (after t x)
    moved none e = inl refl
    moved (some u) e = inr (reads e)
turn-Step false t = moved (writer_move small_files t t.writer_stage) refl
  where
    moved :
        (x : Option System)
        → writer_move small_files t t.writer_stage ≡ x
        → (after t x ≡ t) ⊎ Step small_files t (after t x)
    moved none e = inl refl
    moved (some u) e = inr (writes e)

play-Reach :
    {s : System} (bs : List Bool) (t : System)
    → Reach small_files s t
    → Reach small_files s (play bs t)
unfolding play
play-Reach [] t r = r
play-Reach {s} (b ∷ bs) t r =
    play-Reach bs (turn b t)
      (elim (turn-Step b t) [ inl e ↦ subst (Reach small_files s) (sym e) r | inr st ↦ step r st ])

play-Run :
    {s : System} (bs : List Bool) (t : System) → Run small_files s t → Run small_files s (play bs t)
unfolding play
play-Run [] t r = r
play-Run {s} (b ∷ bs) t r =
    play-Run bs (turn b t)
      (elim (turn-Step b t) [ inl e ↦ subst (Run small_files s) (sym e) r | inr st ↦ move r st ])

abbrev two_processes : ProcInfo
two_processes = record {
  is_writing_started = false;
  reader_process_count = 1;
  writer_process_count = 1;
}

abbrev begin : System
begin = launch two_processes 3

-- The writing process creates its file and announces itself, and finds a closed queue twice. The
-- reading process opens it and gives in its only chunk, which the other writes, while the reader closes
-- the queue and leaves.
abbrev whole : List Bool
whole =
    false ∷ false ∷ false ∷ false ∷ false ∷ true ∷ true ∷ true ∷ true ∷ true ∷ true ∷ true ∷ true
    ∷ true ∷ true ∷ true ∷ true ∷ true ∷ false ∷ false ∷ false ∷ false ∷ false ∷ false ∷ false
    ∷ false ∷ false ∷ false ∷ []

whole_ends : (play whole begin).core.writer_pc ≡ write_done
unfolding play reader_move writer_move loop_move Buffered.reader_move Buffered.writer_move
    get_free_buffer get_filled_buffer fill return_buffer finish_read close open_queue init
    range_from is_empty write_bytes open_reader create start_writing
whole_ends = refl

small_fits : length small_file + buffer_size < size_mod
small_fits = omega arith

shared_copy_correct_example :
    ((play whole begin).core.reader_pc ≡ read_done)
    × ((d : DiskFile) × ((finish_write (play whole begin).core.writer).1 ≡ some d)
        × (d.contents ≡ small_file))
shared_copy_correct_example =
    shared_copy_correct small_fits (play-Reach whole begin here) whole_ends

shared_never_throws_example :
    ((play whole begin).core.reader_pc ≢ threw)
    × ((play whole begin).reader_stage ≢ reader_threw)
    × ((play whole begin).writer_stage ≢ writer_threw)
shared_never_throws_example = shared_never_throws small_fits (play-Reach whole begin here)

-- The reading process is about to close the queue; the other has written the chunk and sleeps.
abbrev parked : List Bool
parked =
    true ∷ true ∷ true ∷ true ∷ true ∷ true ∷ true ∷ true ∷ true ∷ false ∷ false ∷ false ∷ false
    ∷ false ∷ false ∷ false ∷ false ∷ false ∷ false ∷ []

parked_queue : (play parked begin).reader_stage ≢ opens_queue
unfolding play reader_move writer_move loop_move Buffered.reader_move Buffered.writer_move
    get_free_buffer get_filled_buffer fill return_buffer finish_read close open_queue init
    range_from is_empty write_bytes open_reader create start_writing
parked_queue e = cc (e)

parked_reader : (play parked begin).core.reader_pc ≡ close_queue
unfolding play reader_move writer_move loop_move Buffered.reader_move Buffered.writer_move
    get_free_buffer get_filled_buffer fill return_buffer finish_read close open_queue init
    range_from is_empty write_bytes open_reader create start_writing
parked_reader = refl

parked_writer : (play parked begin).core.writer_pc ≡ sleep_filled
unfolding play reader_move writer_move loop_move Buffered.reader_move Buffered.writer_move
    get_free_buffer get_filled_buffer fill return_buffer finish_read close open_queue init
    range_from is_empty write_bytes open_reader create start_writing
parked_writer = refl

-- The reading process closes the queue and leaves, and the other has three turns.
abbrev ending : List Bool
ending = true ∷ true ∷ true ∷ false ∷ false ∷ false ∷ []

shared_copy_refines_example : Buffered.Reach (start small_file lazy) (
    view small_file lazy
      (play parked begin).reader_stage
      (play parked begin).writer_stage
      (play parked begin).core)
shared_copy_refines_example =
    shared_copy_refines small_fits (play-Reach parked begin here) parked_queue

shared_copy_stranded_example :
    ((play ending (play parked begin)).core.writer_pc ≡ sleep_filled)
    × (terminates writer_process (play ending (play parked begin)).core.queue.is_read_finished
        ≡ false)
shared_copy_stranded_example =
    shared_copy_stranded small_fits (play-Reach parked begin here) parked_reader parked_writer
      (play-Run ending (play parked begin) Stranded.here)
