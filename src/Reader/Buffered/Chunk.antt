-- ===== src/Reader/Buffered/Chunk.antt =====
-- src/reader/BufferedFileReader.hpp: what one call of `read` puts into the buffer.
use ki.Prelude.{
  ℕ, ◌+◌, ◌-◌, ◌≤◌, ◌<◌, ◌≡◌, ◌≢◌, refl, sym, ap, ◌∙◌, true, some, List, ◌++◌, arith, length, take,
  drop, min, ltb, length-take, length-drop, take-append-drop, drop-drop, drop-all, drop-min, dec_lt,
  Bool-cases, inl, inr, ltb→lt, ltb→le,
}
use ki.Error.{ok}
use ki.Stdio.{InputStream, fgetc, setvbuf, fseek_forward}
use ki.Stdio.Laws.{Fetched, fgetc-Fetched, block}
use ki.Queue.Buffer.{Buffer, Memory, payload, buffer_size}
use ki.Reader.Buffered.{BufferedReader, size_mod, fill, fill_from, seek, chunk_size, next_offset}

-- A reader in the middle of a file: its stream stands at the offset, until the file has ended.
pub record IsReading (file : List ℕ) (r : BufferedReader) : Type 0 where
  pub stream : InputStream
  pub opened : r.stream ≡ some stream
  pub over : stream.contents ≡ file
  pub sized : r.file_size ≡ length file
  pub fits : length file + buffer_size < size_mod
  pub within : r.current_offset ≤ length file
  pub placed : r.current_offset < length file → stream.position ≡ r.current_offset

-- What is left of the file for a reader.
abbrev pub rest : List ℕ → BufferedReader → List ℕ
rest file r = drop r.current_offset file

-- The result of a chunk: the buffer stands for the next bytes of the file, no other block of the
-- memory has changed, blocks keep their lengths, and the reader has gone on by as much.
pub record Chunk (file : List ℕ) (r : BufferedReader) (mem : Memory) (b : Buffer) : Type 0 where
  pub reader : BufferedReader
  pub memory : Memory
  pub buffer : Buffer
  pub filled : fill true r mem b ≡ ok (reader, memory, buffer)
  pub reading : IsReading file reader
  pub cut : payload memory buffer ++ rest file reader ≡ rest file r
  pub others : (a : ℕ) → a ≢ b.address → memory a ≡ mem a
  pub address : buffer.address ≡ b.address
  pub buffer_type : buffer.buffer_type ≡ b.buffer_type
  pub unfinished : reader.read_finished ≡ r.read_finished
  pub bounded : buffer.bytes_used ≤ buffer_size
  pub blocks : length (mem b.address) ≡ buffer_size → (a : ℕ) → length (memory a) ≡ length (mem a)
  pub offset : reader.current_offset ≡ min (r.current_offset + buffer_size) (length file)

module _ {file : List ℕ} {r : BufferedReader} (going : IsReading file r) where
  open going use {stream, opened, over, sized, fits, within, placed}

  offset-within : next_offset r ≡ r.current_offset + buffer_size
  offset-within = omega arith

  chunk_size-min : chunk_size r ≡ min buffer_size (length file - r.current_offset)
  chunk_size-min = ground (arith, offset-within)

  -- The stream and the reader after the chunk.
  module _ (mem : Memory) (b : Buffer) where
    fetched : Fetched mem stream b.address
    fetched = fgetc-Fetched mem stream b.address

    abbrev after : Memory × InputStream
    after = fgetc mem (setvbuf b.address stream)

    abbrev advanced : BufferedReader
    advanced = record r { current_offset = min (next_offset r) r.file_size }

    length-block : r.current_offset < length file → length (block stream) ≡ chunk_size r
    length-block h = omega (
      arith,
      length-take buffer_size (drop stream.position stream.contents),
      length-drop stream.position stream.contents,
      chunk_size-min,
      placed h,
      ap length over,
    )

    block-rest : r.current_offset < length file → block stream ≡ take buffer_size (rest file r)
    block-rest h = rw (placed h, over) refl

    -- The offset stays below 2 ^ 64, so it does not wrap.
    advanced-offset : advanced.current_offset ≡ min (r.current_offset + buffer_size) (length file)
    advanced-offset = omega (arith, offset-within)

    seek-IsReading : IsReading file (seek advanced after.1)
    unfolding seek
    seek-IsReading = elim (Bool-cases (ltb advanced.current_offset r.file_size)) [
      | inl more ↦ rw more (record {
        stream = fseek_forward (buffer_size - 1) after.1;
        opened = refl;
        over = fetched.same ∙ over;
        sized = sized;
        fits = fits;
        within = omega (arith, advanced-offset);
        placed = λ h. omega (
          arith,
          advanced-offset,
          ltb→lt advanced.current_offset r.file_size more,
          length-block (omega (arith, advanced-offset)),
          chunk_size-min,
          fetched.moved,
          placed (omega (arith, advanced-offset)),
        );
      })
      | inr last ↦ rw last (record {
        stream = after.1;
        opened = refl;
        over = fetched.same ∙ over;
        sized = sized;
        fits = fits;
        within = omega (arith, advanced-offset);
        placed = λ h. absurd (omega (arith, ltb→le advanced.current_offset r.file_size last));
      })
    ]

    seek-fields :
        ((seek advanced after.1).read_finished ≡ r.read_finished)
        × ((seek advanced after.1).current_offset ≡ advanced.current_offset)
    unfolding seek
    seek-fields = ground arith

    abbrev loaded : Buffer
    loaded = record b { bytes_used = chunk_size r }

    payload-loaded : payload after.0 loaded ≡ take buffer_size (rest file r)
    payload-loaded = elim (dec_lt r.current_offset (length file)) [
      | yes h ↦
          ap (λ n. take n (after.0 b.address)) (sym (length-block h))
          ∙ (fetched.loaded ∙ block-rest h)
      | no h ↦
          let e : chunk_size r ≡ 0 = omega (arith, chunk_size-min) in
          ap (λ n. take n (after.0 b.address)) e
          ∙ sym (ap (take buffer_size) (drop-all r.current_offset file (omega arith)))
    ]

    rest-advanced : rest file (seek advanced after.1) ≡ drop buffer_size (rest file r)
    rest-advanced =
        ap (λ n. drop n file) (seek-fields.1 ∙ advanced-offset)
        ∙ (drop-min (r.current_offset + buffer_size) file
            ∙ sym (drop-drop r.current_offset buffer_size _ file refl))

    -- One chunk of BufferedReader in the middle of a file: the buffer stands for the next bytes of
    -- the file, what is left after it is the rest, no other block of the memory changes, the buffer
    -- keeps its address and type and has at most a block of bytes in use, the blocks keep their
    -- lengths, the offset goes on by a block or to the end, and the reader is again in the middle of
    -- the file.
    pub fill-Chunk : Chunk file r mem b
    unfolding fill
    fill-Chunk = record {
      reader = seek advanced after.1;
      memory = after.0;
      buffer = loaded;
      filled = rw (opened, fill_from) refl;
      reading = seek-IsReading;
      cut =
          ap (λ xs. xs ++ rest file (seek advanced after.1)) payload-loaded
          ∙ (ap (λ xs. take buffer_size (rest file r) ++ xs) rest-advanced
              ∙ take-append-drop buffer_size (rest file r));
      others = fetched.others;
      address = refl;
      buffer_type = refl;
      unfinished = seek-fields.0;
      bounded = omega (arith, chunk_size-min);
      blocks = fetched.kept;
      offset = seek-fields.1 ∙ advanced-offset;
    }
