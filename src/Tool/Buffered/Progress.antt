-- ===== src/Tool/Buffered/Progress.antt =====
-- src/common/BufferedParallelCopyTool.hpp: the way from a reachable state to
-- the end of the copy.
use mathlib.Core.Path.{subst}
use ki.Prelude.{
  ℕ, zero, suc, ◌+◌, ◌<◌, ◌≡◌, ◌≢◌, refl, sym, ap, ◌⊎◌, inl, inr, true, List, [], length, arith,
  count,
}
use ki.Queue.Buffer.{buffer_size}
use ki.Queue.Fixed.{is_empty}
use ki.Queue.Fixed.Laws.{sleeps, refuses, hands, get_free_buffer-outcome, addresses}
use ki.Tool.Buffered.Start.{start-Inv}
use ki.Reader.Buffered.{size_mod}
use ki.Tool.Buffered.{
  System, ReaderPc, want_free, sleep_free, read_done, WriterPc, want_filled, sleep_filled,
  write_done, Step, reads, writes, Wake, wakes_reader, wakes_writer, Reach, here, step, wake, start,
}
use ki.Tool.Buffered.Invariant.{Inv, Phase, WriterPhase, reader_hand, writer_hand}
use ki.Tool.Buffered.Safety.{Reach-Inv}
use ki.Tool.Buffered.Measure.{
  reader_weight, writer_weight, to_go, ReaderNearer, WriterNearer, reader-nearer, writer-nearer,
  want_free-nearer, want_filled-nearer,
}

-- A move of a thread, or the end of a wait.
data Next (s : System) : System → Type 0 where
  moves : {t : System} → Step s t → Next s t
  awakes : {t : System} → Wake s t → Next s t

abbrev Forward : List ℕ → System → Type 0
Forward file s = (t : System) × Next s t × (to_go file t < to_go file s)

module _ {file : List ℕ} {s : System} (v : Inv file s) where
  by_reader : ReaderNearer file s s.reader_pc → Forward file s
  by_reader (t, e, h) = (t, moves (reads e), h)

  by_writer : WriterNearer file s s.writer_pc → Forward file s
  by_writer (t, e, h) = (t, moves (writes e), h)

  wake_writer : s.writer_pc ≡ sleep_filled → Forward file s
  wake_writer e = (
    record s { writer_pc = want_filled },
    awakes (wakes_writer e),
    rw (ap (writer_weight (is_empty s.queue)) e) (ground arith),
  )

  wake_reader : s.reader_pc ≡ sleep_free → Forward file s
  wake_reader e = (
    record s { reader_pc = want_free },
    awakes (wakes_reader e),
    rw (ap reader_weight e) (omega arith),
  )

  -- The writing thread brings the end nearer, if it need not wait and has not ended.
  by_waiting_writer :
      (writer_hand s.writer_pc ≡ [] → s.queue.write_buffers ≡ [] → s.queue.is_open ≡ true → ⊥)
      → s.writer_pc ≢ write_done
      → Forward file s
  by_waiting_writer ready going = at_point s.writer_pc refl
    where
      at_point : (wpc : WriterPc) → s.writer_pc ≡ wpc → Forward file s
      at_point want_filled e = by_writer (
          subst (WriterNearer file s) (sym e)
            (want_filled-nearer file s (ready (ap writer_hand e))))
      at_point sleep_filled e = wake_writer e
      at_point write_done e = absurd (going e)
      at_point wpc e = by_writer (writer-nearer file s s.writer_pc (λ h. cc) (λ h. cc) (λ h. cc) v)

  -- With every buffer in the queue or in a hand, the threads cannot both wait.
  pub both_wait :
      s.queue.read_buffers ≡ []
      → reader_hand s.reader_pc ≡ []
      → writer_hand s.writer_pc ≡ []
      → s.queue.write_buffers ≡ []
      → ⊥
  both_wait free er ew filled = omega (
    arith,
    v.kept 0,
    ap (λ xs. count 0 (addresses xs)) free,
    ap (λ xs. count 0 (addresses xs)) er,
    ap (λ xs. count 0 (addresses xs)) ew,
    ap (λ xs. count 0 (addresses xs)) filled,
  )

  pub open-going : s.queue.is_open ≡ true → s.writer_pc ≢ write_done
  open-going o e = cc (o, (subst (WriterPhase s.queue) e v.writer_phase).0)

  by_free_or_writer :
      s.queue.is_open ≡ true
      → reader_hand s.reader_pc ≡ []
      → s.queue.read_buffers ≡ []
      → Forward file s
  by_free_or_writer o er free =
      by_waiting_writer (λ ew filled o'. both_wait free er ew filled) (open-going o)

  -- Either both threads have ended, or a move or the end of a wait brings the end nearer.
  forward : ((s.reader_pc ≡ read_done) × (s.writer_pc ≡ write_done)) ⊎ Forward file s
  forward = at_point s.reader_pc refl
    where
      phase : (rpc : ReaderPc) → s.reader_pc ≡ rpc → Phase file s.queue.is_open s.reader rpc
      phase rpc e = subst (Phase file s.queue.is_open s.reader) e v.phase

      ended :
          s.reader_pc ≡ read_done
          → (wpc : WriterPc) → s.writer_pc ≡ wpc
          → ((s.reader_pc ≡ read_done) × (s.writer_pc ≡ write_done)) ⊎ Forward file s
      ended er write_done ew = inl (er, ew)
      ended er wpc ew = inr (by_waiting_writer (λ _ _ o. cc (o, (phase read_done er).0)) (λ h. cc))

      at_point :
          (rpc : ReaderPc)
          → s.reader_pc ≡ rpc
          → ((s.reader_pc ≡ read_done) × (s.writer_pc ≡ write_done)) ⊎ Forward file s
      at_point want_free e = inr (elim (get_free_buffer-outcome s.queue) [
        | sleeps h o g ↦ by_free_or_writer o (ap reader_hand e) h
        | refuses h o g ↦ absurd (cc (o, (phase want_free e).0))
        | hands l b h g ↦
            by_reader (subst (ReaderNearer file s) (sym e) (want_free-nearer file s l b g))
      ])
      at_point sleep_free e = inr (elim (get_free_buffer-outcome s.queue) [
        | sleeps h o g ↦ by_free_or_writer o (ap reader_hand e) h
        | refuses h o g ↦ absurd (cc (o, (phase sleep_free e).0))
        | hands l b h g ↦ wake_reader e
      ])
      at_point read_done e = ended e s.writer_pc refl
      at_point rpc e =
          inr (by_reader (reader-nearer file s s.reader_pc (λ h. cc) (λ h. cc) (λ h. cc) v))

continue : {s t u : System} → Reach s t → Next t u → Reach s u
continue r (moves st) = step r st
continue r (awakes wk) = wake r wk

-- A run from a state to one in which both threads have ended.
abbrev pub Finishes : System → Type 0
Finishes s = (t : System) × Reach s t × (t.reader_pc ≡ read_done) × (t.writer_pc ≡ write_done)

Finishes-within :
    (file : List ℕ) (fuel : ℕ) (s t : System)
    → Inv file t
    → to_go file t < fuel
    → Reach s t
    → Finishes s
Finishes-within file zero s t v h r = absurd (omega arith)
Finishes-within file (suc fuel) s t v h r = elim (forward v) [
  | inl (er, ew) ↦ (t, r, er, ew)
  | inr (u, n, less) ↦
      Finishes-within file fuel s u (Reach-Inv v (continue here n)) (omega arith) (continue r n)
]

-- From every state that BPCopyTool reaches from the start of a copy, for a file whose size and one
-- block stay below 2^64, a state is reachable in which both threads have ended; a wait may have to
-- end without a notification on the way.
pub copy_can_finish :
    (file : List ℕ) (flushed : List ℕ → ℕ) (s : System)
    → length file + buffer_size < size_mod
    → Reach (start file flushed) s
    → Finishes s
copy_can_finish file flushed s small run =
    let v = Reach-Inv (start-Inv file flushed small) run in
    Finishes-within file (suc (to_go file s)) s s v (omega arith) here
