-- ===== src/Tool/Buffered/Safety.antt =====
-- src/common/BufferedParallelCopyTool.hpp: what holds of `copy` under every order of the two threads.
use mathlib.Core.Path.{subst}
use ki.Prelude.{
  ℕ, Bool, false, count, if◌then◌else◌, ltb, one_if_eq, one_if_eq_refl, ◌+◌, ◌<◌, ◌≡◌, ◌≢◌, refl,
  ap, ◌∙◌, some, List, [], ◌∷◌, ◌++◌, length, arith,
}
use ki.Queue.Buffer.{Buffer, buffer_size, buffers_in_queue}
use ki.Reader.Buffered.{BufferedReader, size_mod}
use ki.Writer.Buffered.{written, finish_write}
use ki.Writer.Buffered.Laws.{finish_write-written}
use ki.Stdio.{DiskFile}
use ki.Reader.Buffered.Chunk.{rest}
use ki.Queue.Fixed.Laws.{addresses, held}
use ki.Tool.Buffered.{
  System, ReaderPc, read_done, threw, write_done, Step, reads, writes, Wake, wakes_reader,
  wakes_writer, Reach, here, step, wake, start,
}
use ki.Tool.Buffered.Invariant.{
  At-written, one_if_lt-le, Inv, Phase, reader_hand, writer_hand, writer_full, reader_full,
  WriterPhase,
}
use ki.Tool.Buffered.Start.{start-Inv}
use ki.Tool.Buffered.ReaderMoves.{reader_move-Inv}
use ki.Tool.Buffered.WriterMoves.{writer_move-Inv}
use ki.Tool.Buffered.ReaderMoves
use ki.Tool.Buffered.WriterMoves

Step-Inv : {file : List ℕ} {s t : System} → Step s t → Inv file s → Inv file t
Step-Inv (reads e) v = reader_move-Inv v e
Step-Inv (writes e) v = writer_move-Inv v e

Wake-Inv : {file : List ℕ} {s t : System} → Wake s t → Inv file s → Inv file t
Wake-Inv {s} (wakes_reader e) v = ReaderMoves.woken-Inv s v e
Wake-Inv {s} (wakes_writer e) v = WriterMoves.woken-Inv s v e

pub Reach-Inv : {file : List ℕ} {s t : System} → Inv file s → Reach s t → Inv file t
Reach-Inv v here = v
Reach-Inv v (step r st) = Step-Inv st (Reach-Inv v r)
Reach-Inv v (wake r wk) = Wake-Inv wk (Reach-Inv v r)

-- The queue is closed by the last move of the reading thread only.
closed-read_done :
    (file : List ℕ) (o : Bool) (r : BufferedReader) (rpc : ReaderPc)
    → o ≡ false
    → Phase file o r rpc
    → (rpc ≡ read_done) × (rest file r ≡ [])
closed-read_done file o r read_done e h = (refl, h.2)
closed-read_done file o r threw e h = absurd h
closed-read_done file o r rpc e h = absurd (cc (h.0))

module _ {file : List ℕ} {flushed : List ℕ → ℕ} (small : length file + buffer_size < size_mod)
    {s : System} (run : Reach (start file flushed) s) where
  inv : Inv file s
  inv = Reach-Inv (start-Inv file flushed small) run

  -- In every state that BPCopyTool reaches from the start of a copy, for a file whose size and one
  -- block stay below 2^64 and under every order of the two threads: if the writing thread has ended,
  -- then the reading thread has left copy, and finishWrite leaves a file with exactly the bytes of
  -- the source.
  pub copy_correct :
      s.writer_pc ≡ write_done
      → (s.reader_pc ≡ read_done)
        × ((d : DiskFile) × ((finish_write s.writer).1 ≡ some d) × (d.contents ≡ file))
  copy_correct e =
      let ended = subst (WriterPhase s.queue) e inv.writer_phase in
      let reader = closed-read_done file s.queue.is_open s.reader s.reader_pc ended.0 inv.phase in
      let d = finish_write-written inv.writing in
      (
        reader.0,
        (
          d.0,
          ap (λ p. p.1) d.1,
          d.2 ∙ At-written inv (ap writer_full e) ended.1 (ap reader_full reader.0) reader.1,
        ),
      )

  -- In every state that BPCopyTool reaches, for a file whose size and one block stay below 2^64: the
  -- bytes that the writer has taken over are a beginning of the source.
  pub written_prefix : (later : List ℕ) × (written s.writer ++ later ≡ file)
  written_prefix = (_, inv.copied)

  -- In no state that BPCopyTool reaches, for a file whose size and one block stay below 2^64, has an
  -- exception left read: getFreeBuffer always has a value for it, and its stream is open.
  pub never_throws : s.reader_pc ≢ threw
  never_throws e = subst (Phase file s.queue.is_open s.reader) e inv.phase

  -- In every state that BPCopyTool reaches, for a file whose size and one block stay below 2^64:
  -- each of the 512 blocks is in exactly one place, in one of the two deques of the queue or in the
  -- hand of one thread, and no other block is anywhere.
  pub buffers_conserved :
      (a : ℕ)
      → held a s.queue
          + count a (addresses (reader_hand s.reader_pc))
          + count a (addresses (writer_hand s.writer_pc))
        ≡ (if ltb a buffers_in_queue then 1 else 0)
  buffers_conserved = inv.kept

  -- In every state that BPCopyTool reaches, for a file whose size and one block stay below 2^64:
  -- where the reading thread holds a buffer b and the writing thread a buffer c, their blocks
  -- differ, and neither block is in the queue.
  pub hands_apart :
      (b c : Buffer)
      → reader_hand s.reader_pc ≡ b ∷ []
      → writer_hand s.writer_pc ≡ c ∷ []
      → (b.address ≢ c.address) × (held b.address s.queue ≡ 0) × (held c.address s.queue ≡ 0)
  hands_apart b c eb ec = (
    λ e. omega (
      arith,
      at_hands b.address,
      one_if_eq_refl b.address,
      ap (one_if_eq b.address) e,
      one_if_lt-le b.address,
    ),
    omega (arith, at_hands b.address, one_if_eq_refl b.address, one_if_lt-le b.address),
    omega (arith, at_hands c.address, one_if_eq_refl c.address, one_if_lt-le c.address),
  )
    where
      at_hands :
          (a : ℕ)
          → held a s.queue + (one_if_eq a b.address + 0) + (one_if_eq a c.address + 0)
            ≡ (if ltb a buffers_in_queue then 1 else 0)
      at_hands a = rw (eb, ec) at (inv.kept a)
