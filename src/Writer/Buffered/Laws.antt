-- ===== src/Writer/Buffered/Laws.antt =====
-- src/writer/BufferedFileWriter.hpp: the bytes that are written, in the file and on the disk.
use ki.Prelude.{◌≡◌, refl, true, none, some, ◌++◌}
use ki.Stdio.{OutputStream, DiskFile, fwrite}
use ki.Stdio.Laws.{output-fwrite}
use ki.Queue.Buffer.{Buffer, Memory, payload}
use ki.Writer.Buffered.{BufferedFileWriter, write_bytes, written, finish_write, finish_stream}

-- A writer with an open stream.
pub record IsWriting (w : BufferedFileWriter) : Type 0 where
  pub stream : OutputStream
  pub opened : w.stream ≡ some stream

pub write_bytes-IsWriting :
    (mem : Memory) (b : Buffer) {w : BufferedFileWriter}
    → IsWriting w
    → IsWriting (write_bytes mem b w)
unfolding write_bytes
write_bytes-IsWriting mem b {w} going = record {
  stream = fwrite (payload mem b) going.stream;
  opened = rw going.opened refl;
}

pub written-write_bytes :
    (mem : Memory) (b : Buffer) {w : BufferedFileWriter}
    → IsWriting w
    → written (write_bytes mem b w) ≡ written w ++ payload mem b
unfolding write_bytes
written-write_bytes mem b {w} going = rw going.opened (output-fwrite (payload mem b) going.stream)

-- With an open stream, finishWrite leaves a file with every byte that was written, and clears the
-- stream. The bytes that fsync has made durable are those that the stream had passed on before: what
-- was pending is in the file but not synchronised.
pub finish_write-written :
    {w : BufferedFileWriter} (going : IsWriting w)
    → (d : DiskFile) × (finish_write w
        ≡ (record w { write_finished = true; stream = none }, some d))
      × (d.contents ≡ written w)
      × (d.contents ≡ d.durable ++ going.stream.pending)
unfolding finish_write
finish_write-written {w} going = (
  record { contents = going.stream.file ++ going.stream.pending; durable = going.stream.file },
  rw (going.opened, finish_stream) refl,
  rw going.opened refl,
  refl,
)
