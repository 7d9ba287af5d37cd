-- ===== src/Tool/Buffered/ReaderParts.antt =====
-- src/common/BufferedParallelCopyTool.hpp: the invariant after each of the moves of the reading thread.
use ki.Prelude.{
  ℕ, ◌≤◌, ◌≡◌, refl, ap, ◌∙◌, Bool, true, false, List, [], ◌∷◌, ◌++◌, arith, count, if◌then◌else◌,
  append_assoc, append-nil, drop-all, one_if_eq_refl,
}
use ki.Queue.Buffer.{Buffer, read, write, Memory, set_type}
use ki.Queue.Fixed.{FixedBufferQueue, return_buffer, finish_read, close}
use ki.Queue.Fixed.Laws.{addresses, held-return_buffer, return_buffer-read, count-addresses-append}
use ki.Reader.Buffered.{BufferedReader, mark_finished, at_end}
use ki.Reader.Buffered.Chunk.{rest, Chunk}
use ki.Writer.Buffered.{BufferedFileWriter, written}
use ki.Tool.Buffered.{
  loop_test, want_free, sleep_free, fill_chunk, set_flag, tell_queue, give_filled, close_queue,
  read_done, WriterPc, test_flag, test_queue, want_filled, sleep_filled, write_chunk, give_free,
  write_done, notify_writer,
}
use ki.Tool.Buffered.Invariant.{
  one_if_lt-le, At, payloads, payloads-append, payloads-frame, in_flight, writer_hand, writer_full,
  WriterPhase,
}

-- While the queue is open the writing thread has not ended, and knows nothing of the queue.
WriterPhase-open :
    (q q' : FixedBufferQueue) (wpc : WriterPc)
    → q.is_open ≡ true
    → WriterPhase q wpc
    → WriterPhase q' wpc
WriterPhase-open q q' write_done o h = absurd (cc (h.0))
WriterPhase-open q q' (write_chunk b) o h = h
WriterPhase-open q q' (give_free b) o h = h
WriterPhase-open q q' test_flag o h = tt
WriterPhase-open q q' test_queue o h = tt
WriterPhase-open q q' want_filled o h = tt
WriterPhase-open q q' sleep_filled o h = tt

-- A notification changes neither what the writing thread holds nor what it knows.
record Notified (q : FixedBufferQueue) (wpc : WriterPc) : Type 0 where
  hand : writer_hand (notify_writer wpc) ≡ writer_hand wpc
  full : writer_full (notify_writer wpc) ≡ writer_full wpc
  phase : WriterPhase q wpc → WriterPhase q (notify_writer wpc)

notify_writer-Notified : (q : FixedBufferQueue) (wpc : WriterPc) → Notified q wpc
notify_writer-Notified q test_flag = record { hand = refl; full = refl; phase = λ h. h }
notify_writer-Notified q _ = record { hand = refl; full = refl; phase = λ h. h }

full-le-hand :
    (a : ℕ) (wpc : WriterPc)
    → count a (addresses (writer_full wpc)) ≤ count a (addresses (writer_hand wpc))
full-le-hand a (give_free b) = omega arith
full-le-hand a _ = omega arith

module _ {file : List ℕ} {q : FixedBufferQueue} {mem : Memory} {r : BufferedReader}
    {w : BufferedFileWriter} {wpc : WriterPc} where
  pub loop_test-At :
      At file q mem r w loop_test wpc
      → (ended : Bool) → r.read_finished ≡ ended
      → At file q mem r w (if ended then close_queue else want_free) wpc
  loop_test-At v true e = record {
    reading = v.reading;
    writing = v.writing;
    kept = v.kept;
    copied = v.copied;
    phase = (v.phase.0, e, v.phase.1 e);
    writer_phase = v.writer_phase;
  }
  loop_test-At v false e = record {
    reading = v.reading;
    writing = v.writing;
    kept = v.kept;
    copied = v.copied;
    phase = (v.phase.0, e);
    writer_phase = v.writer_phase;
  }

  pub sleeping-At : At file q mem r w want_free wpc → At file q mem r w sleep_free wpc
  sleeping-At v = record {
    reading = v.reading;
    writing = v.writing;
    kept = v.kept;
    copied = v.copied;
    phase = v.phase;
    writer_phase = v.writer_phase;
  }

  pub got_free-At :
      (l : List Buffer) (b : Buffer)
      → q.read_buffers ≡ l ++ b ∷ []
      → At file q mem r w want_free wpc
      → At file (record q { read_buffers = l }) mem r w (fill_chunk (set_type read b)) wpc
  got_free-At l b e v = record {
    reading = v.reading;
    writing = v.writing;
    kept = λ a.
        omega (
          arith,
          v.kept a,
          ap (λ xs. count a (addresses xs)) e,
          count-addresses-append a l (b ∷ []),
        );
    copied = v.copied;
    phase = (v.phase.0, v.phase.1, refl);
    writer_phase = WriterPhase-open q (record q { read_buffers = l }) wpc v.phase.0 v.writer_phase;
  }

  -- The blocks of the buffers on their way are not the block that is filled.
  apart :
      (b : Buffer)
      → At file q mem r w (fill_chunk b) wpc
      → count b.address (addresses (in_flight q (fill_chunk b) wpc)) ≡ 0
  apart b v = omega (
    arith,
    v.kept b.address,
    full-le-hand b.address wpc,
    count-addresses-append b.address (writer_full wpc) (q.write_buffers ++ []),
    count-addresses-append b.address q.write_buffers [],
    one_if_eq_refl b.address,
    one_if_lt-le b.address,
  )

  module _ {b : Buffer} (v : At file q mem r w (fill_chunk b) wpc) (c : Chunk file r mem b) where
    frame :
        payloads c.memory (in_flight q (fill_chunk b) wpc)
        ≡ payloads mem (in_flight q (fill_chunk b) wpc)
    frame =
        payloads-frame mem c.memory b.address (in_flight q (fill_chunk b) wpc) c.others (apart b v)

    -- The bytes of the chunk go from the rest of the file into the buffer.
    filled-copied :
        written w
          ++ (payloads c.memory (writer_full wpc ++ (q.write_buffers ++ c.buffer ∷ []))
              ++ rest file c.reader)
        ≡ file
    filled-copied =
        rw
          (
            ← append_assoc (writer_full wpc) q.write_buffers (c.buffer ∷ []),
            payloads-append c.memory (writer_full wpc ++ q.write_buffers) (c.buffer ∷ []),
            (rw append-nil at frame),
            append-nil,
            append_assoc (payloads mem (writer_full wpc ++ q.write_buffers)),
            c.cut,
          )
          (rw append-nil at v.copied)

    ended-rest : at_end c.reader ≡ true → rest file c.reader ≡ []
    ended-rest e = drop-all c.reader.current_offset file (ground (arith, c.reading.sized))

    pub filled-At :
        (ended : Bool)
        → at_end c.reader ≡ ended
        → At file q c.memory c.reader w
            (if ended then set_flag c.buffer else give_filled c.buffer)
            wpc
    filled-At true e = record {
      reading = c.reading;
      writing = v.writing;
      kept = λ a. rw c.address (v.kept a);
      copied = filled-copied;
      phase = (v.phase.0, ended-rest e, c.buffer_type ∙ v.phase.2, c.unfinished ∙ v.phase.1);
      writer_phase = v.writer_phase;
    }
    filled-At false e = record {
      reading = c.reading;
      writing = v.writing;
      kept = λ a. rw c.address (v.kept a);
      copied = filled-copied;
      phase = (v.phase.0, λ h. cc, c.buffer_type ∙ v.phase.2);
      writer_phase = v.writer_phase;
    }

  pub set_flag-At :
      (b : Buffer)
      → At file q mem r w (set_flag b) wpc
      → At file q mem (mark_finished r) w (tell_queue b) wpc
  set_flag-At b v = record {
    reading = record {
      stream = v.reading.stream;
      opened = v.reading.opened;
      over = v.reading.over;
      sized = v.reading.sized;
      fits = v.reading.fits;
      within = v.reading.within;
      placed = v.reading.placed;
    };
    writing = v.writing;
    kept = v.kept;
    copied = v.copied;
    phase = (v.phase.0, v.phase.1, v.phase.2);
    writer_phase = v.writer_phase;
  }

  pub tell_queue-At :
      (b : Buffer)
      → At file q mem r w (tell_queue b) wpc
      → At file (finish_read q) mem r w (give_filled b) wpc
  unfolding finish_read
  tell_queue-At b v = record {
    reading = v.reading;
    writing = v.writing;
    kept = v.kept;
    copied = v.copied;
    phase = (v.phase.0, λ h. v.phase.1, v.phase.2);
    writer_phase = WriterPhase-open q (finish_read q) wpc v.phase.0 v.writer_phase;
  }

  pub give_filled-At :
      (b : Buffer)
      → At file q mem r w (give_filled b) wpc
      → At file (return_buffer q b) mem r w loop_test (notify_writer wpc)
  give_filled-At b v = record {
    reading = v.reading;
    writing = v.writing;
    kept = λ a. rw n.hand (omega (arith, held-return_buffer a q b, v.kept a));
    copied =
        rw
          (
            n.full,
            return_buffer-read q b v.phase.2,
            append-nil,
            payloads-append mem (writer_full wpc) (q.write_buffers ++ set_type write b ∷ []),
            payloads-append mem q.write_buffers (set_type write b ∷ []),
          )
          (rw
            (
              payloads-append mem (writer_full wpc) (q.write_buffers ++ b ∷ []),
              payloads-append mem q.write_buffers (b ∷ []),
            )
            at v.copied);
    phase = rw (return_buffer-read q b v.phase.2) (v.phase.0, v.phase.1);
    writer_phase = n.phase (WriterPhase-open q (return_buffer q b) wpc v.phase.0 v.writer_phase);
  }
    where
      n : Notified (return_buffer q b) wpc
      n = notify_writer-Notified (return_buffer q b) wpc

  pub close_queue-At : At file q mem r w close_queue wpc → At file (close q) mem r w read_done wpc
  unfolding close
  close_queue-At v = record {
    reading = v.reading;
    writing = v.writing;
    kept = v.kept;
    copied = v.copied;
    phase = (refl, v.phase.1, v.phase.2);
    writer_phase = WriterPhase-open q (close q) wpc v.phase.0 v.writer_phase;
  }
