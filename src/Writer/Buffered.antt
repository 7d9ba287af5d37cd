-- ===== src/Writer/Buffered.antt =====
-- src/writer/BufferedFileWriter.hpp: BufferedFileWriter.
pub mod Laws
pub mod Durable
use ki.Prelude.{ℕ, Bool, true, false, Option, none, some, List, ◌∷◌, [], ◌++◌}
use ki.Error.{Result, ok, err, ◌>>=◌, ◌>>◌, guard, cannot_create_file, cannot_set_buffering}
use ki.Stdio.{OutputStream, DiskFile, open_output, fwrite, fsync, fclose}
use ki.Queue.Buffer.{Buffer, Memory, payload}
use ki.Queue.Wait.{Waited, blocked, returned}
use ki.Queue.Fixed.{FixedBufferQueue, get_filled_buffer, return_buffer}

pub record BufferedFileWriter : Type 0 where
  pub stream : Option OutputStream
  pub write_finished : Bool

-- The constructor.
abbrev pub new_writer : BufferedFileWriter
new_writer = record { stream = none; write_finished = false }

-- `create`: `created` is the result of `fopen`, with the way in which the library flushes the new
-- stream, and `accepted` that of `setvbuf`.
unfoldable pub create : Option (List ℕ → ℕ) → Bool → BufferedFileWriter → Result BufferedFileWriter
create none accepted w = err cannot_create_file
create (some flushed) accepted w = do
  guard accepted cannot_set_buffering
  ok (record w { stream = some (open_output flushed) })

-- The `fwrite` of `write`. The tools write after `create`; a null stream is left alone.
unfoldable pub write_bytes : Memory → Buffer → BufferedFileWriter → BufferedFileWriter
unfolding fwrite
write_bytes mem b w = record w {
  stream = elim w.stream [ none ↦ none | some s ↦ some (fwrite (payload mem b) s) ];
}

write_from :
    Memory
    → BufferedFileWriter
    → Option Buffer × FixedBufferQueue
    → BufferedFileWriter × FixedBufferQueue
write_from mem w (none, q) = (w, q)
write_from mem w (some b, q) = (write_bytes mem b w, return_buffer q b)

write_waited :
    Memory
    → BufferedFileWriter
    → Waited (Option Buffer × FixedBufferQueue)
    → Waited (BufferedFileWriter × FixedBufferQueue)
write_waited mem w blocked = blocked
write_waited mem w (returned got) = returned (write_from mem w got)

-- The whole of `write`, for a writer that runs alone.
unfoldable pub write :
    Memory → BufferedFileWriter → FixedBufferQueue → Waited (BufferedFileWriter × FixedBufferQueue)
unfolding write_waited write_from
write mem w q = write_waited mem w (get_filled_buffer q)

finish_stream : BufferedFileWriter → Option OutputStream → BufferedFileWriter × Option DiskFile
finish_stream w none = (w, none)
finish_stream w (some s) =
    (record w { write_finished = true; stream = none }, some (fclose (fsync s)))

-- `finishWrite`, with the file that it leaves on the disk. The second call does nothing.
unfoldable pub finish_write : BufferedFileWriter → BufferedFileWriter × Option DiskFile
unfolding finish_stream fsync fclose
finish_write w = finish_stream w w.stream

-- The destructor.
abbrev pub end_writer : BufferedFileWriter → BufferedFileWriter × Option DiskFile
end_writer w = finish_write w

-- The bytes that the writer has taken over so far.
abbrev pub written : BufferedFileWriter → List ℕ
written w = elim w.stream [ none ↦ [] | some s ↦ s.file ++ s.pending ]
