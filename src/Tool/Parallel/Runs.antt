-- ===== src/Tool/Parallel/Runs.antt =====
-- Runs of the two threads of src/common/ParallelCopyTool.hpp, move by move.
use ki.Prelude.{◌≡◌, refl, Bool, true, false, Option, none, some, List, [], ◌∷◌}
use ki.Tool.Parallel.{System, reader_move, writer_move, Reach, step, reads, writes}

-- The state after a move, or the same state where there is none.
unfoldable pub after : (s : System) (x : Option System) → System
after s none = s
after s (some t) = t

-- `true` is a move of the reading thread, `false` one of the writing thread.
unfoldable pub turn : Bool → System → System
unfolding after
turn true s = after s (reader_move s s.reader_pc)
turn false s = after s (writer_move s s.writer_pc)

unfoldable pub play : List Bool → System → System
unfolding turn
play [] s = s
play (b ∷ bs) s = play bs (turn b s)

after-reads :
    {s t : System} (x : Option System)
    → reader_move t t.reader_pc ≡ x
    → Reach s t
    → Reach s (after t x)
unfolding after
after-reads none e r = r
after-reads (some u) e r = step r (reads e)

after-writes :
    {s t : System} (x : Option System)
    → writer_move t t.writer_pc ≡ x
    → Reach s t
    → Reach s (after t x)
unfolding after
after-writes none e r = r
after-writes (some u) e r = step r (writes e)

pub play-Reach : {s : System} (bs : List Bool) (t : System) → Reach s t → Reach s (play bs t)
unfolding play
play-Reach [] t r = r
play-Reach (true ∷ bs) t r =
    play-Reach bs (turn true t) (after-reads (reader_move t t.reader_pc) refl r)
play-Reach (false ∷ bs) t r =
    play-Reach bs (turn false t) (after-writes (writer_move t t.writer_pc) refl r)
