-- ===== src/Tool/Buffered/LostWakeup.antt =====
-- src/common/BufferedParallelCopyTool.hpp and src/queue/BufferedQueue.hpp: `close` notifies nobody, so
-- a writing thread that sleeps when the queue is closed is not told.
use mathlib.Core.Path.{subst}
use ki.Prelude.{
  ℕ, zero, suc, ◌+◌, ◌<◌, ◌≡◌, ◌≢◌, refl, sym, ap, ◌∙◌, ◌⊎◌, inl, inr, true, Option, some, List, [],
  ◌∷◌, length, arith,
}
use ki.Queue.Wait.{returned, blocked}
use ki.Queue.Buffer.{read, set_type, Buffer, buffer_size}
use ki.Queue.Fixed.{FixedBufferQueue, get_filled_buffer, get_free_buffer, is_empty, close}
use ki.Queue.Fixed.Laws.{sleeps, refuses, hands, get_free_buffer-outcome, get_filled_buffer-outcome}
use ki.Reader.Buffered.{size_mod}
use ki.Writer.Buffered.{written}
use ki.Tool.Buffered.{
  System, ReaderPc, want_free, sleep_free, close_queue, read_done, WriterPc, want_filled,
  sleep_filled, write_done, take_filled, reader_move, writer_move, Step, reads, writes, start,
}
use ki.Tool.Buffered.Invariant.{
  At-written, reader_full, writer_full, Inv, Phase, reader_hand, writer_hand,
}
use ki.Tool.Buffered.Start.{start-Inv}
use ki.Tool.Buffered.ReaderMoves.{reader_move-Inv}
use ki.Tool.Buffered.WriterMoves.{writer_move-Inv}
use ki.Tool.Buffered.Progress.{both_wait, open-going}
use ki.Tool.Buffered.Measure.{
  to_go, reader_weight, writer_weight, ReaderNearer, WriterNearer, reader-nearer, writer-nearer,
  want_free-nearer, want_filled-nearer,
}
use ki.Tool.Buffered.Awake.{
  Run, here, move, IsStuck, reader_awake, writer_awake, IsAwake, reader_move-IsAwake,
  writer_move-awake, want_filled-awake, want_free-IsAwake,
}

-- A move after which both threads are awake, and which brings the end nearer.
abbrev Onward : List ℕ → System → Type 0
Onward file s = (t : System) × Step s t × IsAwake t × (to_go file t < to_go file s)

-- The writing thread is about to wait for a filled buffer, and there is none.
abbrev IsStarved : System → Type 0
IsStarved s = (s.writer_pc ≡ want_filled) × (s.queue.write_buffers ≡ [])

module _ {file : List ℕ} {s : System} (v : Inv file s) (awake : IsAwake s) where
  by_reader :
      s.reader_pc ≢ close_queue
      → s.reader_pc ≢ want_free
      → ReaderNearer file s s.reader_pc
      → Onward file s
  by_reader h k (t, e, less) = (t, reads e, reader_move-IsAwake s s.reader_pc k h awake.1 e, less)

  kept-IsAwake :
      (t : System) → (t.reader_pc ≡ s.reader_pc) × (writer_awake t.writer_pc ≡ true) → IsAwake t
  kept-IsAwake t (same, w) = (rw same awake.0, w)

  by_writer : s.writer_pc ≢ want_filled → WriterNearer file s s.writer_pc → Onward file s
  by_writer h (t, e, less) =
      (t, writes e, kept-IsAwake t (writer_move-awake s s.writer_pc h awake.0 e), less)

  -- The writing thread's turn while the queue is open.
  writer-Onward : s.queue.is_open ≡ true → IsStarved s ⊎ Onward file s
  writer-Onward o = at_point s.writer_pc refl
    where
      fed :
          s.writer_pc ≡ want_filled
          → (l : List Buffer) (b : Buffer) → s.queue.write_buffers ≡ b ∷ l
          → (got : Option Buffer × FixedBufferQueue) → get_filled_buffer s.queue ≡ returned got
          → Onward file s
      fed e l b h got g =
          let (t, m, less) = want_filled-nearer file s (λ h' o'. cc (h, h')) in
          (
            t,
            writes (subst (λ pc. writer_move s pc ≡ some t) (sym e) m),
            kept-IsAwake t (want_filled-awake s got g m),
            rw (ap (writer_weight (is_empty s.queue)) e) less,
          )

      at_point : (wpc : WriterPc) → s.writer_pc ≡ wpc → IsStarved s ⊎ Onward file s
      at_point want_filled e = elim (get_filled_buffer-outcome s.queue) [
        | sleeps h o' g ↦ inl (e, h)
        | refuses h o' g ↦ absurd (cc (o, o'))
        | hands l b h g ↦ inr (fed e l b h _ g)
      ]
      at_point sleep_filled e = absurd (cc (subst (λ pc. writer_awake pc ≡ true) e awake.1))
      at_point write_done e = absurd (open-going v o e)
      at_point wpc e =
          inr
            (by_writer (λ h. cc) (writer-nearer file s s.writer_pc (λ h. cc) (λ h. cc) (λ h. cc) v))

  -- The reading thread has read the file, and the writing thread has written it and wants more.
  abbrev IsParked : Type 0
  IsParked = (s.reader_pc ≡ close_queue) × IsStarved s

  onward : IsParked ⊎ Onward file s
  onward = at_point s.reader_pc refl
    where
      phase : (rpc : ReaderPc) → s.reader_pc ≡ rpc → Phase file s.queue.is_open s.reader rpc
      phase rpc e = subst (Phase file s.queue.is_open s.reader) e v.phase

      parked : s.reader_pc ≡ close_queue → IsStarved s ⊎ Onward file s → IsParked ⊎ Onward file s
      parked e (inl starved) = inl (e, starved)
      parked e (inr on) = inr on

      served :
          s.reader_pc ≡ want_free
          → s.queue.read_buffers ≡ []
          → IsStarved s ⊎ Onward file s
          → IsParked ⊎ Onward file s
      served e free (inl (ew, filled)) =
          absurd (both_wait v free (ap reader_hand e) (ap writer_hand ew) filled)
      served e free (inr on) = inr on

      fed :
          s.reader_pc ≡ want_free
          → (l : List Buffer) (b : Buffer)
          → get_free_buffer s.queue
            ≡ returned (some (set_type read b), record s.queue { read_buffers = l })
          → Onward file s
      fed e l b g =
          let (t, m, less) = want_free-nearer file s l b g in
          (
            t,
            reads (subst (λ pc. reader_move s pc ≡ some t) (sym e) m),
            want_free-IsAwake s _ _ g awake.1 m,
            rw (ap reader_weight e) less,
          )

      at_point : (rpc : ReaderPc) → s.reader_pc ≡ rpc → IsParked ⊎ Onward file s
      at_point close_queue e = parked e (writer-Onward (phase close_queue e).0)
      at_point want_free e = elim (get_free_buffer-outcome s.queue) [
        | sleeps h o g ↦ served e h (writer-Onward o)
        | refuses h o g ↦ absurd (cc (o, (phase want_free e).0))
        | hands l b h g ↦ inr (fed e l b g)
      ]
      at_point sleep_free e = absurd (cc (subst (λ pc. reader_awake pc ≡ true) e awake.0))
      at_point read_done e = absurd (cc (subst (λ pc. reader_awake pc ≡ true) e awake.0))
      at_point rpc e = inr (
          by_reader (λ h. cc) (λ h. cc)
            (reader-nearer file s s.reader_pc (λ h. cc) (λ h. cc) (λ h. cc) v))

-- A run to a state in which the reading thread has left `copy`, the writing thread sleeps with the
-- whole file written, and neither can move.
abbrev pub Hangs : List ℕ → System → Type 0
Hangs file s =
    (t : System) × Run s t
    × (t.reader_pc ≡ read_done)
    × (t.writer_pc ≡ sleep_filled)
    × (written t.writer ≡ file)
    × IsStuck t

Step-Inv : {file : List ℕ} {s t : System} → Step s t → Inv file s → Inv file t
Step-Inv (reads e) v = reader_move-Inv v e
Step-Inv (writes e) v = writer_move-Inv v e

starved-blocked :
    (q : FixedBufferQueue) → q.is_open ≡ true → q.write_buffers ≡ [] → get_filled_buffer q ≡ blocked
starved-blocked q o h = elim (get_filled_buffer-outcome q) [
  | sleeps h' o' g ↦ g
  | refuses h' o' g ↦ absurd (cc (o, o'))
  | hands l b h' g ↦ absurd (cc (h, h'))
]

parked-Hangs :
    {file : List ℕ} (s t : System)
    → Inv file t
    → (t.reader_pc ≡ close_queue) × IsStarved t
    → Run s t
    → Hangs file s
unfolding reader_move writer_move
parked-Hangs {file} s t v (er, (ew, empty)) r = (
  record t { queue = close t.queue; reader_pc = read_done; writer_pc = sleep_filled },
  move (move r (writes {t = asleep} falls_asleep)) (reads (ap (reader_move asleep) er)),
  refl,
  refl,
  At-written v (ap writer_full ew) empty (ap reader_full er) phase.2,
  (refl, refl),
)
  where
    asleep : System
    asleep = record t { writer_pc = sleep_filled }

    phase : Phase file t.queue.is_open t.reader close_queue
    phase = subst (Phase file t.queue.is_open t.reader) er v.phase

    falls_asleep : writer_move t t.writer_pc ≡ some asleep
    falls_asleep =
        ap (writer_move t) ew
        ∙ ap (λ x. some (take_filled t x)) (starved-blocked t.queue phase.0 empty)

Hangs-within :
    (file : List ℕ) (fuel : ℕ) (s t : System)
    → Inv file t
    → IsAwake t
    → to_go file t < fuel
    → Run s t
    → Hangs file s
Hangs-within file zero s t v a h r = absurd (omega arith)
Hangs-within file (suc fuel) s t v a h r = elim (onward v a) [
  | inl p ↦ parked-Hangs s t v p r
  | inr (u, st, b, less) ↦ Hangs-within file fuel s u (Step-Inv st v) b (omega arith) (move r st)
]

-- For every file whose size and one block stay below 2^64 there is a run of BPCopyTool, with no
-- spurious end of a wait, into a deadlock: the reading thread has left copy, the writing thread has
-- taken over every byte of the file and sleeps in getFilledBuffer, and neither of them can move.
pub copy_can_hang :
    (file : List ℕ) (flushed : List ℕ → ℕ)
    → length file + buffer_size < size_mod
    → Hangs file (start file flushed)
copy_can_hang file flushed small =
    Hangs-within file (suc (to_go file (start file flushed))) _ (start file flushed)
      (start-Inv file flushed small) (refl, refl) (omega arith) here
