-- ===== src/Tool/Buffered/Throws.antt =====
-- src/common/BufferedParallelCopyTool.hpp with src/reader/BufferedFileReader.hpp: runs in which
-- `setvbuf` may refuse the block of a buffer, so that `read` throws.
use mathlib.Core.Path.{subst}
use ki.Prelude.{
  ℕ, suc, ◌+◌, ◌<◌, ◌≡◌, ◌≢◌, refl, sym, ap, ◌∙◌, false, none, some, Option, List, length,
  eq_of_some, ◌⊎◌, inl, inr,
}
use ki.Queue.Buffer.{Buffer, buffer_size}
use ki.Queue.Wait.{Waited, blocked, returned}
use ki.Queue.Fixed.{FixedBufferQueue, get_filled_buffer}
use ki.Reader.Buffered.{fill, size_mod}
use ki.Tool.Buffered.{
  System, fill_chunk, threw, WriterPc, test_flag, test_queue, want_filled, sleep_filled,
  write_chunk, give_free, write_done, answered_move, reader_move, writer_move, take_filled,
  notify_reader, Step, reads, writes, Wake, wakes_reader, wakes_writer, Reach, here, step, wake,
  start,
}
use ki.Tool.Buffered.Safety.{never_throws}

-- A run with so many refusals.
pub data Attempt (s : System) : ℕ → System → Type 0 where
  begins : Attempt s 0 s
  moves : {n : ℕ} {t u : System} → Attempt s n t → Step t u → Attempt s n u
  awakes : {n : ℕ} {t u : System} → Attempt s n t → Wake t u → Attempt s n u
  refuses :
      {n : ℕ} {t u : System} (b : Buffer)
      → Attempt s n t
      → t.reader_pc ≡ fill_chunk b
      → answered_move false t t.reader_pc ≡ some u
      → Attempt s (suc n) u

-- Nothing follows the exception in the reading thread.
abbrev HasThrown : System → Type 0
HasThrown s = s.reader_pc ≡ threw

take_filled-HasThrown :
    (s : System) (got : Waited (Option Buffer × FixedBufferQueue))
    → HasThrown s
    → HasThrown (take_filled s got)
take_filled-HasThrown s blocked h = h
take_filled-HasThrown s (returned (none, q)) h = h
take_filled-HasThrown s (returned (some b, q)) h = h

writer_move-HasThrown :
    (s : System) (w : WriterPc) {t : System} → HasThrown s → writer_move s w ≡ some t → HasThrown t
unfolding writer_move
writer_move-HasThrown s test_flag h e = subst HasThrown (eq_of_some e) h
writer_move-HasThrown s test_queue h e = subst HasThrown (eq_of_some e) h
writer_move-HasThrown s want_filled h e =
    subst HasThrown (eq_of_some e) (take_filled-HasThrown s (get_filled_buffer s.queue) h)
writer_move-HasThrown s sleep_filled h e = absurd (cc e)
writer_move-HasThrown s (write_chunk b) h e = subst HasThrown (eq_of_some e) h
writer_move-HasThrown s (give_free b) h e = subst HasThrown (eq_of_some e) (ap notify_reader h)
writer_move-HasThrown s write_done h e = absurd (cc e)

Step-HasThrown : {s t : System} → Step s t → HasThrown s → HasThrown t
unfolding reader_move
Step-HasThrown {s} (reads e) h = absurd (cc (h, e))
Step-HasThrown {s} (writes e) h = writer_move-HasThrown s s.writer_pc h e

Wake-HasThrown : {s t : System} → Wake s t → HasThrown s → HasThrown t
Wake-HasThrown (wakes_reader e) h = absurd (cc (e, h))
Wake-HasThrown (wakes_writer e) h = h

-- The exception of a refusal.
refused-HasThrown :
    (t : System) (b : Buffer) {u : System}
    → t.reader_pc ≡ fill_chunk b
    → answered_move false t t.reader_pc ≡ some u
    → HasThrown u
unfolding fill
refused-HasThrown t b at e =
    sym (ap (λ (x : System). x.reader_pc) (eq_of_some (sym (ap (answered_move false t) at) ∙ e)))

module _ {file : List ℕ} {flushed : List ℕ → ℕ} (small : length file + buffer_size < size_mod) where
  Attempt-cases :
      {n : ℕ} {s : System}
      → Attempt (start file flushed) n s
      → ((n ≡ 0) × Reach (start file flushed) s) ⊎ ((n ≡ 1) × HasThrown s)
  Attempt-cases begins = inl (refl, here)
  Attempt-cases (moves r st) = elim (Attempt-cases r) [
    | inl (e, run) ↦ inl (e, step run st)
    | inr (e, h) ↦ inr (e, Step-HasThrown st h)
  ]
  Attempt-cases (awakes r wk) = elim (Attempt-cases r) [
    | inl (e, run) ↦ inl (e, wake run wk)
    | inr (e, h) ↦ inr (e, Wake-HasThrown wk h)
  ]
  Attempt-cases (refuses {t} b r at e) = elim (Attempt-cases r) [
    | inl (z, run) ↦ inr (ap suc z, refused-HasThrown t b at e)
    | inr (z, h) ↦ absurd (cc (at, h))
  ]

  -- In every run of BPCopyTool from the start of a copy, for a file whose size and one block stay
  -- below 2^64, in which setvbuf may refuse the block of any buffer: either it has refused none, and
  -- no exception has left read; or it has refused exactly one, and an exception of read has ended
  -- the reading thread.
  pub threw-iff-refused :
      {n : ℕ} {s : System}
      → Attempt (start file flushed) n s
      → ((n ≡ 0) × (s.reader_pc ≢ threw)) ⊎ ((n ≡ 1) × (s.reader_pc ≡ threw))
  threw-iff-refused run = elim (Attempt-cases run) [
    | inl (e, r) ↦ inl (e, never_throws small r)
    | inr t ↦ inr t
  ]
