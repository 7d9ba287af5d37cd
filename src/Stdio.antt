-- ===== src/Stdio.antt =====
-- The part of <cstdio> that the buffered reader and writer use: a stream over a regular file. A
-- stream over a regular file reads as many bytes as the file still has.
pub mod Laws
use ki.Prelude.{ℕ, ◌+◌, Option, none, some, List, [], ◌∷◌, ◌++◌, take, drop}
use ki.Queue.Buffer.{Memory, store, buffer_size}

-- A file opened with "rb". `vbuf` is the block that `setvbuf` has installed.
pub record InputStream : Type 0 where
  pub contents : List ℕ
  pub position : ℕ
  pub vbuf : Option ℕ

abbrev pub open_input : List ℕ → InputStream
open_input contents = record { contents = contents; position = 0; vbuf = none }

-- The installed block is empty: what the stream had read ahead is given back.
abbrev pub setvbuf : ℕ → InputStream → InputStream
setvbuf address s = record s { vbuf = some address }

fill_block : Memory → InputStream → Option ℕ → List ℕ → Memory × InputStream
fill_block mem s a [] = (mem, s)
fill_block mem s none (x ∷ xs) = (mem, record s { position = s.position + 1 })
fill_block mem s (some a) (x ∷ xs) = (store mem a (x ∷ xs), record s { position = s.position + 1 })

-- With an empty block: the block is filled from the file, and one byte of it is consumed. At the end
-- of the file nothing happens.
unfoldable pub fgetc : Memory → InputStream → Memory × InputStream
unfolding fill_block
fgetc mem s = fill_block mem s s.vbuf (take buffer_size (drop s.position s.contents))

-- `fseek(stream, n, SEEK_CUR)` for n ≥ 0.
abbrev pub fseek_forward : ℕ → InputStream → InputStream
fseek_forward n s = record s { position = s.position + n }

-- A file opened with "wb". Bytes wait in `pending` until the library passes them to the file;
-- `flushed` is its choice of how many it passes on when it has some. `durable` has reached the disk.
pub record OutputStream : Type 0 where
  pub flushed : List ℕ → ℕ
  pub file : List ℕ
  pub pending : List ℕ
  pub durable : List ℕ

pub record DiskFile : Type 0 where
  pub contents : List ℕ
  pub durable : List ℕ

abbrev pub open_output : (List ℕ → ℕ) → OutputStream
open_output flushed = record { flushed = flushed; file = []; pending = []; durable = [] }

-- The bytes that the stream has taken in.
abbrev pub output : OutputStream → List ℕ
output s = s.file ++ s.pending

unfoldable pub fwrite : List ℕ → OutputStream → OutputStream
fwrite bytes s =
    let waiting = s.pending ++ bytes in
    let n = s.flushed waiting in
    record s { file = s.file ++ take n waiting; pending = drop n waiting }

unfoldable pub fsync : OutputStream → OutputStream
fsync s = record s { durable = s.file }

unfoldable pub fclose : OutputStream → DiskFile
fclose s = record { contents = s.file ++ s.pending; durable = s.durable }
