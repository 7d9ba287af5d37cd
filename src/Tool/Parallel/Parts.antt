-- ===== src/Tool/Parallel/Parts.antt =====
-- src/common/ParallelCopyTool.hpp: the invariant after each of the moves of the two threads.
use mathlib.Core.Path.{ap₂}
use ki.Prelude.{
  ℕ, ◌+◌, ◌≤◌, ◌≡◌, refl, sym, ap, ◌∙◌, Bool, true, false, none, Option, List, [], ◌∷◌, ◌++◌, arith,
  length, append_assoc, append-nil, length-append, if◌then◌else◌, drop-all,
}
use ki.Queue.Synchronized.{SynchronizedQueue, push, is_empty, close}
use ki.Reader.Mmap.{MMapFileReader, finish_read}
use ki.Reader.Mmap.Laws.{rest, Chunk}
use ki.Writer.Mmap.{MMapFileWriter, finish_write}
use ki.Writer.Mmap.Laws.{IsWriting, written, Added, finish_write_lem, written-all, length-written}
use ki.Tool.Parallel.{
  ReaderPc, loop_test, read_chunk, push_chunk, close_queue, finish_reading, read_done, WriterPc,
  test_flag, test_queue, want_chunk, sleep_chunk, write_chunk, finish_writing, write_done,
  write_threw, notify_writer,
}
use ki.Tool.Parallel.Invariant.{
  At, WriterPhase, in_flight, joined, joined-append, closed_rest, reader_hand, writer_hand, output,
}

-- While the queue is open the writing thread has not ended, and knows nothing of the queue.
WriterPhase-open :
    (q q' : SynchronizedQueue (List ℕ)) (w : MMapFileWriter) (d : Option (List ℕ)) (wpc : WriterPc)
    → q.is_queue_open ≡ true
    → WriterPhase q w d wpc
    → WriterPhase q' w d (notify_writer wpc) × WriterPhase q' w d wpc
WriterPhase-open q q' w d finish_writing o h = absurd (cc (h.1))
WriterPhase-open q q' w d write_done o h = absurd (cc (h.1))
WriterPhase-open q q' w d write_threw o h = absurd h
WriterPhase-open q q' w d wpc o h = (h, h)

notify_writer-hand : (wpc : WriterPc) → writer_hand (notify_writer wpc) ≡ writer_hand wpc
notify_writer-hand sleep_chunk = refl
notify_writer-hand _ = refl

module _ {file : List ℕ} {q : SynchronizedQueue (List ℕ)} {r : MMapFileReader} {w : MMapFileWriter}
    {d : Option (List ℕ)} {wpc : WriterPc} where
  pub loop_test-At :
      At file q r w d loop_test wpc
      → (ended : Bool) → r.read_finished ≡ ended
      → At file q r w d (if ended then close_queue else read_chunk) wpc
  loop_test-At v true e = record {
    copied = v.copied;
    sized = v.sized;
    phase = (v.phase.0, drop-all r.current_offset file (omega (arith, v.phase.1.ended e)));
    writer_phase = v.writer_phase;
  }
  loop_test-At v false e = record {
    copied = v.copied;
    sized = v.sized;
    phase = v.phase;
    writer_phase = v.writer_phase;
  }

  pub read_chunk-At :
      (v : At file q r w d read_chunk wpc) (c : Chunk file r)
      → At file q c.reader w d (push_chunk c.bytes) wpc
  read_chunk-At v c = record {
    copied =
        rw
          (
            ← append_assoc (writer_hand wpc) (joined q.items) c.bytes,
            append_assoc (writer_hand wpc ++ joined q.items),
            c.cut,
          )
          (rw append-nil at v.copied);
    sized = v.sized;
    phase = (v.phase.0, c.reading);
    writer_phase = v.writer_phase;
  }

  pub push_chunk-At :
      (buf : List ℕ)
      → At file q r w d (push_chunk buf) wpc
      → At file (push buf q) r w d loop_test (notify_writer wpc)
  unfolding push
  push_chunk-At buf v = record {
    copied = rw (notify_writer-hand wpc, joined-append q.items buf, append-nil) v.copied;
    sized = v.sized;
    phase = v.phase;
    writer_phase = (WriterPhase-open q (push buf q) w d wpc v.phase.0 v.writer_phase).0;
  }

  pub close_queue-At : At file q r w d close_queue wpc → At file (close q) r w d finish_reading wpc
  unfolding close
  close_queue-At v = record {
    copied = v.copied;
    sized = v.sized;
    phase = (refl, v.phase.1);
    writer_phase = (WriterPhase-open q (close q) w d wpc v.phase.0 v.writer_phase).1;
  }

  pub finish_reading-At :
      At file q r w d finish_reading wpc → At file q (finish_read r) w d read_done wpc
  unfolding finish_read
  finish_reading-At v = record {
    copied = v.copied;
    sized = v.sized;
    phase = v.phase;
    writer_phase = v.writer_phase;
  }

module _ {file : List ℕ} {q : SynchronizedQueue (List ℕ)} {r : MMapFileReader} {w : MMapFileWriter}
    {d : Option (List ℕ)} {rpc : ReaderPc} where
  -- Between two points at which the thread holds the same.
  pub stroll-At :
      {wpc wpc' : WriterPc}
      → writer_hand wpc' ≡ writer_hand wpc
      → WriterPhase q w d wpc'
      → At file q r w d rpc wpc
      → At file q r w d rpc wpc'
  stroll-At same p v = record {
    copied = rw same v.copied;
    sized = v.sized;
    phase = v.phase;
    writer_phase = p;
  }

  pub tested_flag-At :
      (ended : Bool)
      → At file q r w d rpc test_flag
      → At file q r w d rpc (if ended then test_queue else want_chunk)
  tested_flag-At true v = stroll-At refl v.writer_phase v
  tested_flag-At false v = stroll-At refl v.writer_phase v

  pub tested_queue-At :
      (empty : Bool)
      → is_empty q ≡ empty
      → At file q r w d rpc test_queue
      → At file q r w d rpc (if empty then finish_writing else want_chunk)
  unfolding is_empty
  tested_queue-At true e v = stroll-At refl (v.writer_phase, ground arith, ground arith) v
  tested_queue-At false e v = stroll-At refl v.writer_phase v

  pub got_chunk-At :
      (l : List (List ℕ)) (buf : List ℕ)
      → q.items ≡ buf ∷ l
      → At file q r w d rpc want_chunk
      → At file (record q { items = l }) r w d rpc (write_chunk buf)
  got_chunk-At l buf e v = record {
    copied = rw (← append_assoc buf (joined l) (reader_hand rpc)) (
        ap (λ xs. output d w ++ ((joined xs ++ reader_hand rpc) ++ rest file r)) (sym e)
        ∙ v.copied);
    sized = v.sized;
    phase = v.phase;
    writer_phase = v.writer_phase;
  }

module _ {file : List ℕ} {q : SynchronizedQueue (List ℕ)} {r : MMapFileReader} {w : MMapFileWriter}
    {rpc : ReaderPc} where
  -- A chunk on its way fits behind what is written.
  pub room :
      (buf : List ℕ)
      → At file q r w none rpc (write_chunk buf)
      → w.current_offset + length buf ≤ w.file_size
  room buf v = omega (
    arith,
    ap length v.copied,
    v.sized,
    length-written v.writer_phase.0,
    length-append (written w) (in_flight q rpc (write_chunk buf) ++ rest file r),
    length-append (in_flight q rpc (write_chunk buf)) (rest file r),
    length-append buf (joined q.items ++ reader_hand rpc),
  )

  pub written_chunk-At :
      (buf : List ℕ) (v : At file q r w none rpc (write_chunk buf))
      → (a : Added w buf) → At file q r a.writer none rpc test_flag
  written_chunk-At buf v a = record {
    copied = rw (a.appended, append_assoc (written w) buf) (rw (append_assoc buf) at v.copied);
    sized = a.size ∙ v.sized;
    phase = v.phase;
    writer_phase = (a.writing, refl);
  }

  pub finished-At :
      At file q r w none rpc finish_writing
      → At file q r (finish_write w).0 (finish_write w).1 rpc write_done
  finished-At v = rw (finish_write_lem going) (record {
    copied =
        ap (λ xs. xs ++ (in_flight q rpc finish_writing ++ rest file r))
          (sym (written-all going (omega (arith, ap length whole, v.sized))))
        ∙ v.copied;
    sized = v.sized;
    phase = v.phase;
    writer_phase = (λ h. cc, v.writer_phase.1, v.writer_phase.2);
  })
    where
      going : IsWriting w
      going = v.writer_phase.0.0

      idle : (reader_hand rpc ≡ []) × (rest file r ≡ [])
      idle = closed_rest file q.is_queue_open r rpc v.writer_phase.1 v.phase

      nothing : in_flight q rpc finish_writing ++ rest file r ≡ []
      nothing = ap₂ ◌++◌ (ap₂ ◌++◌ (ap joined v.writer_phase.2) idle.0) idle.1

      whole : written w ≡ file
      whole = sym (append-nil (written w)) ∙ (ap (λ xs. written w ++ xs) (sym nothing) ∙ v.copied)
