-- ===== src/Writer/Buffered/Durable.antt =====
-- src/writer/BufferedFileWriter.hpp: a file from `create` to `finishWrite`, and what is on the disk then.
use ki.Prelude.{
  ℕ, ◌≡◌, refl, sym, ap, ◌∙◌, Bool, true, false, none, some, List, [], ◌∷◌, ◌++◌, drop, append-nil,
  append_assoc,
}
use ki.Error.{ok, ok_injective}
use ki.Stdio.{OutputStream, DiskFile, fwrite, output, open_output}
use ki.Stdio.Laws.{output-fwrite}
use ki.Queue.Buffer.{Buffer, Memory, payload}
use ki.Writer.Buffered.{BufferedFileWriter, create, write_bytes, finish_write, finish_stream}
use ki.Writer.Buffered.Laws.{finish_write-written}

-- The buffers that are written, each with the memory of that time.
unfoldable pub write_all : List (Memory × Buffer) → BufferedFileWriter → BufferedFileWriter
write_all [] w = w
write_all ((mem, b) ∷ writes) w = write_all writes (write_bytes mem b w)

unfoldable pub payloads : List (Memory × Buffer) → List ℕ
payloads [] = []
payloads ((mem, b) ∷ writes) = payload mem b ++ payloads writes

-- What the library keeps back of them, if so many bytes have waited before.
unfoldable pub kept_back : (List ℕ → ℕ) → List ℕ → List (Memory × Buffer) → List ℕ
kept_back flushed waiting [] = waiting
kept_back flushed waiting ((mem, b) ∷ writes) =
    let now = waiting ++ payload mem b in kept_back flushed (drop (flushed now) now) writes

-- An open stream after the writes.
record Written (w : BufferedFileWriter) (s : OutputStream) (writes : List (Memory × Buffer))
    : Type 0 where
  stream : OutputStream
  opened : (write_all writes w).stream ≡ some stream
  taken : output stream ≡ output s ++ payloads writes
  waits : stream.pending ≡ kept_back s.flushed s.pending writes

write_all-Written :
    (writes : List (Memory × Buffer)) (w : BufferedFileWriter) (s : OutputStream)
    → w.stream ≡ some s
    → Written w s writes
unfolding write_all payloads kept_back write_bytes fwrite
write_all-Written [] w s e = record {
  stream = s;
  opened = e;
  taken = sym (append-nil (output s));
  waits = refl;
}
write_all-Written ((mem, b) ∷ writes) w s e =
    let r = write_all-Written writes (write_bytes mem b w) (fwrite (payload mem b) s) (rw e refl) in
    record {
      stream = r.stream;
      opened = r.opened;
      taken =
          r.taken
          ∙ (ap (λ xs. xs ++ payloads writes) (output-fwrite (payload mem b) s)
              ∙ append_assoc (output s) (payload mem b) (payloads writes));
      waits = r.waits;
    }

create-stream :
    (flushed : List ℕ → ℕ) (accepted : Bool) (w : BufferedFileWriter) {opened : BufferedFileWriter}
    → create (some flushed) accepted w ≡ ok opened
    → opened.stream ≡ some (open_output flushed)
unfolding create
create-stream flushed true w h = sym (ap (λ (x : BufferedFileWriter). x.stream) (ok_injective h))
create-stream flushed false w h = absurd (cc h)

-- Where create succeeds, and after any sequence of buffers that are written, whatever the library
-- passes on of them: finishWrite leaves a file with the bytes of the buffers in their order; those
-- that fsync has made durable are the beginning of it without what the library has kept back; and a
-- second finishWrite does nothing.
pub finish_write-write_all :
    (flushed : List ℕ → ℕ) (accepted : Bool) (writes : List (Memory × Buffer))
    (w : BufferedFileWriter) {opened : BufferedFileWriter}
    → create (some flushed) accepted w ≡ ok opened
    → (done : BufferedFileWriter) × (d : DiskFile) × (finish_write (write_all writes opened)
        ≡ (done, some d))
      × (d.contents ≡ payloads writes)
      × (d.contents ≡ d.durable ++ kept_back flushed [] writes)
      × (finish_write done ≡ (done, none))
unfolding finish_write finish_stream
finish_write-write_all flushed accepted writes w {opened} h =
    let r =
      write_all-Written writes opened (open_output flushed) (create-stream flushed accepted w h) in
    let last = write_all writes opened in
    let f = finish_write-written {w = last} (record { stream = r.stream; opened = r.opened }) in
    (
      record last { write_finished = true; stream = none },
      f.0,
      f.1,
      f.2 ∙ (rw r.opened refl ∙ r.taken),
      f.3 ∙ ap (λ xs. f.0.durable ++ xs) r.waits,
      refl,
    )
