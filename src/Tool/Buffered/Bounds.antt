-- ===== src/Tool/Buffered/Bounds.antt =====
-- src/common/BufferedParallelCopyTool.hpp, src/queue/BufferedQueue.hpp: the sizes of the blocks and of
-- their parts in use.
use mathlib.Core.Path.{subst}
use ki.Prelude.{
  ℕ, ◌+◌, ◌≤◌, ◌<◌, ◌≡◌, sym, ap, ◌∙◌, Bool, true, false, some, List, [], ◌∷◌, length, arith, map,
  range_from, eq_of_some, length-replicate, if◌then◌else◌,
}
use ki.Queue.Buffer.{new_buffer, Buffer, Memory, buffer_size, buffers_in_queue}
use ki.Queue.Fixed.{open_queue, init, close, finish_read}
use ki.Queue.Fixed.Laws.{sleeps, refuses, hands, get_free_buffer-outcome, get_filled_buffer-outcome}
use ki.Reader.Buffered.{size_mod, at_end}
use ki.Reader.Buffered.Chunk.{fill-Chunk}
use ki.Tool.Buffered.{
  System, ReaderPc, loop_test, want_free, sleep_free, fill_chunk, set_flag, tell_queue, give_filled,
  close_queue, read_done, threw, WriterPc, test_flag, test_queue, want_filled, sleep_filled,
  write_chunk, give_free, write_done, take_free, take_filled, after_fill, reader_move, writer_move,
  reads, writes, wakes_reader, wakes_writer, Reach, here, step, wake, start,
}
use ki.Tool.Buffered.Invariant.{At}
use ki.Tool.Buffered.Start.{start-Inv}
use ki.Tool.Buffered.Safety.{Reach-Inv}
use ki.Tool.Buffered.Fits.{
  AllFit, InBounds, IsInBounds, AllFit-split, notify_writer-AllFit, notify_reader-AllFit,
  stroll-InBounds, return_buffer-InBounds,
}

reader_move-InBounds :
    {file : List ℕ} (s : System) (rpc : ReaderPc) {t : System}
    → At file s.queue s.memory s.reader s.writer rpc s.writer_pc
    → InBounds s.queue s.memory rpc s.writer_pc
    → reader_move s rpc ≡ some t
    → IsInBounds t
unfolding reader_move finish_read close
reader_move-InBounds s loop_test v w e =
    subst IsInBounds (eq_of_some e) (tested s.reader.read_finished)
  where
    tested :
        (ended : Bool)
        → InBounds s.queue s.memory (if ended then close_queue else want_free) s.writer_pc
    tested true = stroll-InBounds tt w.in_writer w
    tested false = stroll-InBounds tt w.in_writer w
reader_move-InBounds s want_free v w e = elim (get_free_buffer-outcome s.queue) [
  | sleeps h o g ↦
      subst IsInBounds (ap (take_free s) (sym g) ∙ eq_of_some e) (stroll-InBounds tt w.in_writer w)
  | refuses h o g ↦
      subst IsInBounds (ap (take_free s) (sym g) ∙ eq_of_some e) (stroll-InBounds tt w.in_writer w)
  | hands l b h g ↦
      let (rest, last) = AllFit-split l (b ∷ []) (subst AllFit h w.free) in
      subst IsInBounds (ap (take_free s) (sym g) ∙ eq_of_some e) (record {
        blocks = w.blocks;
        free = rest;
        filled = w.filled;
        in_reader = last;
        in_writer = w.in_writer;
      })
]
reader_move-InBounds s sleep_free v w e = absurd (cc)
reader_move-InBounds s (fill_chunk b) v w e =
    let c = fill-Chunk v.reading s.memory b in
    subst IsInBounds (ap (after_fill s) (sym c.filled) ∙ eq_of_some e) (
      filled c.buffer c.memory c.bounded (λ a. c.blocks (w.blocks b.address) a ∙ w.blocks a)
        (at_end c.reader))
  where
    filled :
        (b : Buffer) (mem : Memory)
        → b.bytes_used ≤ buffer_size
        → ((a : ℕ) → length (mem a) ≡ buffer_size)
        → (ended : Bool)
        → InBounds s.queue mem (if ended then set_flag b else give_filled b) s.writer_pc
    filled b mem fit blocks true = record {
      blocks = blocks;
      free = w.free;
      filled = w.filled;
      in_reader = (fit, tt);
      in_writer = w.in_writer;
    }
    filled b mem fit blocks false = record {
      blocks = blocks;
      free = w.free;
      filled = w.filled;
      in_reader = (fit, tt);
      in_writer = w.in_writer;
    }
reader_move-InBounds s (set_flag b) v w e =
    subst IsInBounds (eq_of_some e) (stroll-InBounds w.in_reader w.in_writer w)
reader_move-InBounds s (tell_queue b) v w e = subst IsInBounds (eq_of_some e) (record {
  blocks = w.blocks;
  free = w.free;
  filled = w.filled;
  in_reader = w.in_reader;
  in_writer = w.in_writer;
})
reader_move-InBounds s (give_filled b) v w e =
    subst IsInBounds (eq_of_some e)
      (return_buffer-InBounds b w.in_reader.0 tt (notify_writer-AllFit s.writer_pc w.in_writer) w)
reader_move-InBounds s close_queue v w e = subst IsInBounds (eq_of_some e) (record {
  blocks = w.blocks;
  free = w.free;
  filled = w.filled;
  in_reader = tt;
  in_writer = w.in_writer;
})
reader_move-InBounds s read_done v w e = absurd (cc)
reader_move-InBounds s threw v w e = absurd (cc)

writer_move-InBounds :
    (s : System) (wpc : WriterPc) {t : System}
    → InBounds s.queue s.memory s.reader_pc wpc
    → writer_move s wpc ≡ some t
    → IsInBounds t
unfolding writer_move
writer_move-InBounds s test_flag w e =
    subst IsInBounds (eq_of_some e) (tested s.reader.read_finished)
  where
    tested :
        (ended : Bool)
        → InBounds s.queue s.memory s.reader_pc (if ended then test_queue else want_filled)
    tested true = stroll-InBounds w.in_reader tt w
    tested false = stroll-InBounds w.in_reader tt w
writer_move-InBounds s test_queue w e = subst IsInBounds (eq_of_some e) (tested _)
  where
    tested :
        (empty : Bool)
        → InBounds s.queue s.memory s.reader_pc (if empty then write_done else want_filled)
    tested true = stroll-InBounds w.in_reader tt w
    tested false = stroll-InBounds w.in_reader tt w
writer_move-InBounds s want_filled w e = elim (get_filled_buffer-outcome s.queue) [
  | sleeps h o g ↦
      subst IsInBounds (ap (take_filled s) (sym g) ∙ eq_of_some e)
        (stroll-InBounds w.in_reader tt w)
  | refuses h o g ↦
      subst IsInBounds (ap (take_filled s) (sym g) ∙ eq_of_some e)
        (stroll-InBounds w.in_reader tt w)
  | hands l b h g ↦
      let both = subst AllFit h w.filled in
      subst IsInBounds (ap (take_filled s) (sym g) ∙ eq_of_some e) (record {
        blocks = w.blocks;
        free = w.free;
        filled = both.1;
        in_reader = w.in_reader;
        in_writer = (both.0, tt);
      })
]
writer_move-InBounds s sleep_filled w e = absurd (cc)
writer_move-InBounds s (write_chunk b) w e =
    subst IsInBounds (eq_of_some e) (stroll-InBounds w.in_reader w.in_writer w)
writer_move-InBounds s (give_free b) w e =
    subst IsInBounds (eq_of_some e)
      (return_buffer-InBounds b w.in_writer.0 (notify_reader-AllFit s.reader_pc w.in_reader) tt w)
writer_move-InBounds s write_done w e = absurd (cc)

new_buffers-AllFit : (xs : List ℕ) → AllFit (map new_buffer xs)
new_buffers-AllFit [] = tt
new_buffers-AllFit (x ∷ xs) = (omega arith, new_buffers-AllFit xs)

start-InBounds : (file : List ℕ) (flushed : List ℕ → ℕ) → IsInBounds (start file flushed)
unfolding open_queue init
start-InBounds file flushed = record {
  blocks = λ a. length-replicate {A = ℕ} buffer_size 0;
  free = new_buffers-AllFit (range_from 0 buffers_in_queue);
  filled = tt;
  in_reader = tt;
  in_writer = tt;
}

-- In every state that BPCopyTool reaches from the start of a copy, for a file whose size and one
-- block stay below 2^64: every block of the memory has 4096 bytes, and no buffer in the queue or in
-- the hand of a thread has more than 4096 bytes in use.
pub reached-InBounds :
    {file : List ℕ} {flushed : List ℕ → ℕ} {s : System}
    → length file + buffer_size < size_mod
    → Reach (start file flushed) s
    → InBounds s.queue s.memory s.reader_pc s.writer_pc
reached-InBounds {file} {flushed} small here = start-InBounds file flushed
reached-InBounds {file} {flushed} small (step {t} r (reads e)) =
    reader_move-InBounds t t.reader_pc (Reach-Inv (start-Inv file flushed small) r)
      (reached-InBounds small r) e
reached-InBounds small (step {t} r (writes e)) =
    writer_move-InBounds t t.writer_pc (reached-InBounds small r) e
reached-InBounds small (wake r (wakes_reader e)) =
    let w = reached-InBounds small r in stroll-InBounds tt w.in_writer w
reached-InBounds small (wake r (wakes_writer e)) =
    let w = reached-InBounds small r in stroll-InBounds w.in_reader tt w
