-- ===== src/Writer/Mmap/Laws.antt =====
-- src/writer/MMapFileWriter.hpp: what `write` does, where a chunk fits and where it does not.
use ki.Prelude.{
  ℕ, ◌+◌, ◌%◌, ◌≤◌, ◌<◌, ◌≡◌, refl, sym, ap, ◌∙◌, true, none, some, List, [], ◌++◌, arith, length,
  take, drop, length-append, length-take, length-drop, take-append, drop-append, append_assoc,
  drop-drop, take-all, le→ltb, lt→ltb,
}
use ki.Error.{ok, err, writing_more_than_expected}
use ki.Reader.Buffered.{size_mod}
use ki.Writer.Mmap.{MMapFileWriter, write, finish_write, finish_mapping, copy_to, splice}

-- A writer with a mapping of the whole file.
pub record IsWriting (w : MMapFileWriter) : Type 0 where
  pub bytes : List ℕ
  pub mapped : w.mmapped_file ≡ some bytes
  pub sized : length bytes ≡ w.file_size
  pub within : w.current_offset ≤ w.file_size
  pub fits : w.file_size < size_mod

-- The bytes up to the write position.
abbrev pub written : MMapFileWriter → List ℕ
written w = elim w.mmapped_file [ none ↦ [] | some bytes ↦ take w.current_offset bytes ]

-- The part of the mapping behind the write position.
abbrev pub untouched : MMapFileWriter → List ℕ
untouched w = elim w.mmapped_file [ none ↦ [] | some bytes ↦ drop w.current_offset bytes ]

-- The result of a write that fits.
pub record Added (w : MMapFileWriter) (buf : List ℕ) : Type 0 where
  pub writer : MMapFileWriter
  pub done : write buf w ≡ ok writer
  pub writing : IsWriting writer
  pub appended : written writer ≡ written w ++ buf
  pub behind : untouched writer ≡ drop (length buf) (untouched w)
  pub size : writer.file_size ≡ w.file_size
  pub offset : writer.current_offset ≡ w.current_offset + length buf

-- A chunk that fits is appended to what MMapFileWriter has written: the bytes before it and those
-- behind it stay, the offset goes on by its length, and the mapping keeps the size of the file.
pub write-Added :
    {w : MMapFileWriter} (buf : List ℕ)
    → IsWriting w
    → w.current_offset + length buf ≤ w.file_size
    → Added w buf
unfolding write
write-Added {w} buf v room = record {
  writer = record w {
    mmapped_file = some (splice w.current_offset buf v.bytes);
    current_offset = (w.current_offset + length buf) % size_mod;
  };
  done = rw (le→ltb w.file_size next (omega arith), v.mapped, copy_to) refl;
  writing = record {
    bytes = splice w.current_offset buf v.bytes;
    mapped = refl;
    sized = omega (
      arith,
      length-append front (buf ++ back),
      length-append buf back,
      length-take w.current_offset v.bytes,
      length-drop (w.current_offset + length buf) v.bytes,
      v.sized,
    );
    within = omega (arith, v.fits);
    fits = v.fits;
  };
  appended = rw v.mapped (
      ap (take next) (sym (append_assoc front buf back))
      ∙ take-append next (front ++ buf) back sizes);
  behind = rw v.mapped (
      ap (drop next) (sym (append_assoc front buf back))
      ∙ (drop-append next (front ++ buf) back sizes
          ∙ sym (drop-drop w.current_offset (length buf) _ v.bytes refl)));
  size = refl;
  offset = omega (arith, v.fits);
}
  where
    next : ℕ
    next = (w.current_offset + length buf) % size_mod

    front : List ℕ
    front = take w.current_offset v.bytes

    back : List ℕ
    back = drop (w.current_offset + length buf) v.bytes

    sizes : length (front ++ buf) ≡ next
    sizes =
        omega
          (arith, length-append front buf, length-take w.current_offset v.bytes, v.sized, v.fits)

-- A chunk that reaches beyond the end of the file, where the sum of the offset and its length does
-- not wrap, is refused by MMapFileWriter with the error of the source.
pub write-refused :
    (w : MMapFileWriter) (buf : List ℕ)
    → w.current_offset + length buf < size_mod
    → w.file_size < w.current_offset + length buf
    → write buf w ≡ err writing_more_than_expected
unfolding write
write-refused w buf small over =
    rw (lt→ltb w.file_size ((w.current_offset + length buf) % size_mod) (omega arith)) refl

-- `finishWrite` releases the bytes of the mapping.
pub finish_write_lem :
    {w : MMapFileWriter} (v : IsWriting w)
    → finish_write w ≡ (record w { write_finished = true; mmapped_file = none }, some v.bytes)
unfolding finish_write
finish_write_lem {w} v = rw (v.mapped, finish_mapping) refl

pub length-written : {w : MMapFileWriter} → IsWriting w → length (written w) ≡ w.current_offset
length-written {w} v =
    rw v.mapped (omega (arith, length-take w.current_offset v.bytes, v.sized, v.within))

-- At the end of the mapping all of it is written.
pub written-all :
    {w : MMapFileWriter} (v : IsWriting w) → w.file_size ≤ length (written w) → written w ≡ v.bytes
written-all {w} v h =
    rw v.mapped (take-all w.current_offset v.bytes (omega (arith, length-written v, v.sized)))
