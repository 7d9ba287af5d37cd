-- ===== src/Stdio/Laws.antt =====
-- What a `setvbuf` and an `fgetc` do together, and how the bytes of a stream pass through to the file.
use ki.Prelude.{
  ◌≤◌, length-append, length-drop, length-take, ℕ, ◌+◌, ◌<◌, ◌≡◌, ◌≢◌, refl, sym, ap, ◌∙◌, List, [],
  ◌∷◌, ◌++◌, arith, length, take, drop, take-append, take-append-drop, append_assoc, ==_iff,
}
use ki.Queue.Buffer.{Memory, store, buffer_size}
use ki.Stdio.{InputStream, OutputStream, setvbuf, fgetc, fill_block, fwrite, output}

-- The bytes that an `fgetc` reads ahead from where a stream stands.
abbrev pub block : InputStream → List ℕ
block s = take buffer_size (drop s.position s.contents)

store_self : (mem : Memory) (a : ℕ) (xs : List ℕ) → take (length xs) (store mem a xs a) ≡ xs
store_self mem a xs =
    ground (arith, take-append (length xs) xs (drop (length xs) (mem a)) refl, ==_iff a a)

store_other : (mem : Memory) (a c : ℕ) (xs : List ℕ) → c ≢ a → store mem a xs c ≡ mem c
store_other mem a c xs h = ground (arith, ==_iff a c)

-- Bytes that fit into a block change the length of no block.
length-store :
    (mem : Memory) (a c : ℕ) (xs : List ℕ)
    → length xs ≤ length (mem a)
    → length (store mem a xs c) ≡ length (mem c)
length-store mem a c xs h = ground (
  arith,
  length-append xs (drop (length xs) (mem a)),
  length-drop (length xs) (mem a),
  ==_iff a c,
  λ (e : a ≡ c). ap (λ (x : ℕ). length (mem x)) e,
)

-- What the memory and the stream are after `setvbuf` and `fgetc`.
pub record Fetched (mem : Memory) (s : InputStream) (a : ℕ) : Type 0 where
  pub loaded : take (length (block s)) ((fgetc mem (setvbuf a s)).0 a) ≡ block s
  pub others : (c : ℕ) → c ≢ a → (fgetc mem (setvbuf a s)).0 c ≡ mem c
  pub kept :
      length (mem a) ≡ buffer_size
      → (c : ℕ) → length ((fgetc mem (setvbuf a s)).0 c) ≡ length (mem c)
  pub same : (fgetc mem (setvbuf a s)).1.contents ≡ s.contents
  pub moved : 0 < length (block s) → (fgetc mem (setvbuf a s)).1.position ≡ s.position + 1

pub fgetc-Fetched : (mem : Memory) (s : InputStream) (a : ℕ) → Fetched mem s a
unfolding fgetc
fgetc-Fetched mem s a = split (block s) refl
  where
    split : (xs : List ℕ) → block s ≡ xs → Fetched mem s a
    split [] e = record {
      loaded = rw e refl;
      others = λ c h. rw (e, fill_block) refl;
      kept = λ h c. rw (e, fill_block) refl;
      same = rw (e, fill_block) refl;
      moved = λ h. absurd (omega (arith, ap length e));
    }
    split (x ∷ xs) e = record {
      loaded = rw (e, fill_block) (store_self mem a (x ∷ xs));
      others = λ c h. rw (e, fill_block) (store_other mem a c (x ∷ xs) h);
      kept = λ h c.
          rw (e, fill_block)
            (length-store mem a c (x ∷ xs)
              (omega (arith, ap length e, length-take buffer_size (drop s.position s.contents))));
      same = rw (e, fill_block) refl;
      moved = λ h. rw (e, fill_block) refl;
    }

-- A stream takes in every byte, in order, whatever it has passed on to the file already.
pub output-fwrite :
    (bytes : List ℕ) (s : OutputStream) → output (fwrite bytes s) ≡ output s ++ bytes
unfolding fwrite
output-fwrite bytes s =
    append_assoc s.file (take n (s.pending ++ bytes)) (drop n (s.pending ++ bytes))
    ∙ (ap (◌++◌ s.file) (take-append-drop n (s.pending ++ bytes))
        ∙ sym (append_assoc s.file s.pending bytes))
  where
    n : ℕ
    n = s.flushed (s.pending ++ bytes)
