-- ===== src/Tool/Buffered/Flags.antt =====
-- src/common/BufferedParallelCopyTool.hpp and src/queue/BufferedQueue.hpp: the flag of the reader and
-- that of the queue, which `read` sets one after the other.
use mathlib.Core.Path.{subst}
use ki.Prelude.{
  ℕ, ◌+◌, ◌<◌, ◌≡◌, refl, sym, ap, ◌∙◌, Bool, true, false, some, List, length, arith, eq_of_some,
  if◌then◌else◌,
}
use ki.Queue.Buffer.{Buffer, buffer_size}
use ki.Queue.Fixed.{FixedBufferQueue, open_queue, init, close, finish_read, return_buffer}
use ki.Queue.Fixed.Laws.{sleeps, refuses, hands, get_free_buffer-outcome, get_filled_buffer-outcome}
use ki.Reader.Buffered.{BufferedReader, size_mod, at_end}
use ki.Reader.Buffered.Chunk.{fill-Chunk}
use ki.Tool.Buffered.{
  System, ReaderPc, loop_test, want_free, sleep_free, fill_chunk, set_flag, tell_queue, give_filled,
  close_queue, read_done, threw, WriterPc, test_flag, test_queue, want_filled, sleep_filled,
  write_chunk, give_free, write_done, take_free, take_filled, after_fill, notify_reader,
  reader_move, writer_move, reads, writes, wakes_reader, wakes_writer, Reach, here, step, wake,
  start,
}
use ki.Tool.Buffered.Invariant.{At, Phase}
use ki.Tool.Buffered.Start.{start-Inv}
use ki.Tool.Buffered.Safety.{Reach-Inv}

-- Once the reader has told the queue, the flag of the queue is up: `flag` is that of the queue, `ended`
-- that of the reader.
abbrev pub Flagged : Bool → Bool → ReaderPc → Type 0
Flagged flag ended loop_test = ended ≡ true → flag ≡ true
Flagged flag ended (give_filled b) = ended ≡ true → flag ≡ true
Flagged flag ended close_queue = flag ≡ true
Flagged flag ended read_done = flag ≡ true
Flagged flag ended want_free = Unit {0}
Flagged flag ended sleep_free = Unit {0}
Flagged flag ended (fill_chunk b) = Unit {0}
Flagged flag ended (set_flag b) = Unit {0}
Flagged flag ended (tell_queue b) = ended ≡ true
Flagged flag ended threw = Unit {0}

abbrev pub FlaggedAt : System → Type 0
FlaggedAt s =
    Flagged s.queue.is_read_finished s.reader.read_finished s.reader_pc
    × (s.queue.is_read_finished ≡ true → s.reader.read_finished ≡ true)

notify_reader-Flagged :
    (flag ended : Bool) (rpc : ReaderPc)
    → Flagged flag ended rpc
    → Flagged flag ended (notify_reader rpc)
notify_reader-Flagged flag ended sleep_free h = tt
notify_reader-Flagged flag ended _ h = h

return_buffer-flag :
    (q : FixedBufferQueue) (b : Buffer) → (return_buffer q b).is_read_finished ≡ q.is_read_finished
unfolding return_buffer
return_buffer-flag q b = ground arith

reader_move-Flagged :
    {file : List ℕ} (s : System) (rpc : ReaderPc) {t : System}
    → At file s.queue s.memory s.reader s.writer rpc s.writer_pc
    → Flagged s.queue.is_read_finished s.reader.read_finished rpc
    → (s.queue.is_read_finished ≡ true → s.reader.read_finished ≡ true)
    → reader_move s rpc ≡ some t
    → FlaggedAt t
unfolding reader_move finish_read close
reader_move-Flagged s loop_test v f k e =
    subst FlaggedAt (eq_of_some e) (tested s.reader.read_finished refl, k)
  where
    tested :
        (ended : Bool)
        → s.reader.read_finished ≡ ended
        → Flagged s.queue.is_read_finished s.reader.read_finished
            (if ended then close_queue else want_free)
    tested true h = f h
    tested false h = tt
reader_move-Flagged s want_free v f k e = elim (get_free_buffer-outcome s.queue) [
  | sleeps h o g ↦ subst FlaggedAt (ap (take_free s) (sym g) ∙ eq_of_some e) (tt, k)
  | refuses h o g ↦ subst FlaggedAt (ap (take_free s) (sym g) ∙ eq_of_some e) (tt, k)
  | hands l b h g ↦ subst FlaggedAt (ap (take_free s) (sym g) ∙ eq_of_some e) (tt, k)
]
reader_move-Flagged s sleep_free v f k e = absurd (cc)
reader_move-Flagged s (fill_chunk b) v f k e =
    let c = fill-Chunk v.reading s.memory b in
    subst FlaggedAt (ap (after_fill s) (sym c.filled) ∙ eq_of_some e) (
      filled c.reader c.buffer (c.unfinished ∙ v.phase.1) (at_end c.reader),
      λ h. c.unfinished ∙ k h,
    )
  where
    filled :
        (r : BufferedReader) (b : Buffer)
        → r.read_finished ≡ false
        → (ended : Bool)
        → Flagged s.queue.is_read_finished r.read_finished
            (if ended then set_flag b else give_filled b)
    filled r b h true = tt
    filled r b h false = λ h'. cc
reader_move-Flagged s (set_flag b) v f k e = subst FlaggedAt (eq_of_some e) (refl, λ h. refl)
reader_move-Flagged s (tell_queue b) v f k e = subst FlaggedAt (eq_of_some e) (λ h. refl, λ h. f)
reader_move-Flagged s (give_filled b) v f k e =
    subst FlaggedAt (eq_of_some e)
      (λ h. return_buffer-flag s.queue b ∙ f h, λ h. k (sym (return_buffer-flag s.queue b) ∙ h))
reader_move-Flagged s close_queue v f k e = subst FlaggedAt (eq_of_some e) (f, k)
reader_move-Flagged s read_done v f k e = absurd (cc)
reader_move-Flagged s threw v f k e = absurd v.phase

writer_move-Flagged :
    (s : System) (wpc : WriterPc) {t : System}
    → FlaggedAt s
    → writer_move s wpc ≡ some t
    → FlaggedAt t
unfolding writer_move
writer_move-Flagged s test_flag f e = subst FlaggedAt (eq_of_some e) f
writer_move-Flagged s test_queue f e = subst FlaggedAt (eq_of_some e) f
writer_move-Flagged s want_filled f e = elim (get_filled_buffer-outcome s.queue) [
  | sleeps h o g ↦ subst FlaggedAt (ap (take_filled s) (sym g) ∙ eq_of_some e) f
  | refuses h o g ↦ subst FlaggedAt (ap (take_filled s) (sym g) ∙ eq_of_some e) f
  | hands l b h g ↦ subst FlaggedAt (ap (take_filled s) (sym g) ∙ eq_of_some e) f
]
writer_move-Flagged s sleep_filled f e = absurd (cc)
writer_move-Flagged s (write_chunk b) f e = subst FlaggedAt (eq_of_some e) f
writer_move-Flagged s (give_free b) f e = subst FlaggedAt (eq_of_some e) (
    subst
      (λ g.
        Flagged g s.reader.read_finished (notify_reader s.reader_pc)
        × (g ≡ true → s.reader.read_finished ≡ true))
      (sym (return_buffer-flag s.queue b))
      (notify_reader-Flagged s.queue.is_read_finished s.reader.read_finished s.reader_pc f.0, f.1))
writer_move-Flagged s write_done f e = absurd (cc)

pub Reach-Flagged :
    {file : List ℕ} {flushed : List ℕ → ℕ} {s : System}
    → length file + buffer_size < size_mod
    → Reach (start file flushed) s
    → FlaggedAt s
unfolding open_queue init
Reach-Flagged small here = (λ h. cc, λ h. cc)
Reach-Flagged {file} {flushed} small (step {t} r (reads e)) =
    reader_move-Flagged t t.reader_pc (Reach-Inv (start-Inv file flushed small) r)
      (Reach-Flagged small r).0 (Reach-Flagged small r).1 e
Reach-Flagged small (step {t} r (writes e)) =
    writer_move-Flagged t t.writer_pc (Reach-Flagged small r) e
Reach-Flagged small (wake r (wakes_reader e)) = (tt, (Reach-Flagged small r).1)
Reach-Flagged small (wake r (wakes_writer e)) = Reach-Flagged small r

-- Until the flag of the queue is up, the queue is open.
pub unflagged-open :
    {file : List ℕ} {flushed : List ℕ → ℕ} {s : System}
    → length file + buffer_size < size_mod
    → Reach (start file flushed) s
    → s.queue.is_read_finished ≡ false
    → s.queue.is_open ≡ true
unflagged-open {file} {flushed} {s} small r e =
    at_point s.reader_pc (Reach-Flagged small r).0
      (Reach-Inv (start-Inv file flushed small) r).phase
  where
    at_point :
        (rpc : ReaderPc)
        → Flagged s.queue.is_read_finished s.reader.read_finished rpc
        → Phase file s.queue.is_open s.reader rpc
        → s.queue.is_open ≡ true
    at_point read_done f h = absurd (cc (f))
    at_point threw f h = absurd h
    at_point rpc f h = h.0

-- The flag of the reader is up before that of the queue.
pub flagged-ended :
    {file : List ℕ} {flushed : List ℕ → ℕ} {s : System}
    → length file + buffer_size < size_mod
    → Reach (start file flushed) s
    → s.queue.is_read_finished ≡ true
    → s.reader.read_finished ≡ true
flagged-ended small r = (Reach-Flagged small r).1
