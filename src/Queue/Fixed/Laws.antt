-- ===== src/Queue/Fixed/Laws.antt =====
-- src/queue/BufferedQueue.hpp: what the operations of FixedBufferQueue promise, on every branch.
use ki.Prelude.{
  ℕ, ◌+◌, ◌≡◌, refl, ap, ◌↔◌, ◌⊎◌, inl, inr, Bool, true, false, none, some, List, [], ◌∷◌, ◌++◌,
  map, arith, pop_back, count, count-range_from, range_from, if◌then◌else◌, ltb,
}
use ki.Queue.Buffer.{Buffer, read, write, set_type, new_buffer, buffers_in_queue}
use ki.Queue.Wait.{blocked, returned}
use ki.Queue.Fixed.{
  FixedBufferQueue, get_free_buffer, get_filled_buffer, is_empty, return_buffer, is_nil, init,
  open_queue,
}

pub pop_back-append {ℓ} :
    {A : Type ℓ} (xs : List A) (x : A) → pop_back (xs ++ x ∷ []) ≡ some (xs, x)
pop_back-append [] x = refl
pop_back-append (y ∷ []) x = refl
pop_back-append (y ∷ z ∷ zs) x = rw (pop_back-append (z ∷ zs) x)

-- A list is empty, or has a last element.
pub snoc_cases {ℓ} :
    {A : Type ℓ} (xs : List A) → (xs ≡ []) ⊎ ((ys : List A) × (y : A) × (xs ≡ ys ++ y ∷ []))
snoc_cases [] = inl refl
snoc_cases (x ∷ xs) = elim (snoc_cases xs) [
  | inl e ↦ inr ([], x, ap (◌∷◌ x) e)
  | inr (ys, y, e) ↦ inr (x ∷ ys, y, ap (◌∷◌ x) e)
]

is_nil-append {ℓ} : {A : Type ℓ} (xs : List A) (x : A) → is_nil (xs ++ x ∷ []) ≡ false
is_nil-append [] x = refl
is_nil-append (y ∷ ys) x = refl

-- The three ways in which `get_free_buffer` ends.
pub data FreeOutcome (q : FixedBufferQueue) : Type 0 where
  sleeps : q.read_buffers ≡ [] → q.is_open ≡ true → get_free_buffer q ≡ blocked → FreeOutcome q
  refuses :
      q.read_buffers ≡ []
      → q.is_open ≡ false
      → get_free_buffer q ≡ returned (none, q)
      → FreeOutcome q
  hands :
      (rest : List Buffer) (b : Buffer)
      → q.read_buffers ≡ rest ++ b ∷ []
      → get_free_buffer q ≡ returned (some (set_type read b), record q { read_buffers = rest })
      → FreeOutcome q

-- The three ways in which `get_filled_buffer` ends.
pub data FilledOutcome (q : FixedBufferQueue) : Type 0 where
  sleeps : q.write_buffers ≡ [] → q.is_open ≡ true → get_filled_buffer q ≡ blocked → FilledOutcome q
  refuses :
      q.write_buffers ≡ []
      → q.is_open ≡ false
      → get_filled_buffer q ≡ returned (none, q)
      → FilledOutcome q
  hands :
      (rest : List Buffer) (b : Buffer)
      → q.write_buffers ≡ b ∷ rest
      → get_filled_buffer q ≡ returned (some (set_type write b), record q { write_buffers = rest })
      → FilledOutcome q

-- getFreeBuffer ends in one of three ways: it waits, where no buffer is free and the queue is open;
-- it refuses and changes nothing, where none is free and the queue is closed; else it hands out the
-- last free buffer as one to read into, and the others stay.
pub get_free_buffer-outcome : (q : FixedBufferQueue) → FreeOutcome q
unfolding get_free_buffer
get_free_buffer-outcome q = elim (snoc_cases q.read_buffers) [
  | inl e ↦ empty (q.is_open) refl e
  | inr (rest, b, e) ↦ hands rest b e (ground (arith, is_nil-append rest b, pop_back-append rest b))
]
  where
    empty : (o : Bool) → q.is_open ≡ o → q.read_buffers ≡ [] → FreeOutcome q
    empty true o e = sleeps e o (ground arith)
    empty false o e = refuses e o (ground arith)

-- getFilledBuffer ends in one of three ways: it waits, where no buffer is filled and the queue is
-- open; it refuses and changes nothing, where none is filled and the queue is closed; else it hands
-- out the first filled buffer as one to write from, and the others stay.
pub get_filled_buffer-outcome : (q : FixedBufferQueue) → FilledOutcome q
unfolding get_filled_buffer
get_filled_buffer-outcome q = split q.write_buffers refl q.is_open refl
  where
    split : (xs : List Buffer) → q.write_buffers ≡ xs → (o : Bool) → q.is_open ≡ o → FilledOutcome q
    split [] e true o = sleeps e o (ground arith)
    split [] e false o = refuses e o (ground arith)
    split (b ∷ rest) e o h = hands rest b e (ground arith)

-- The addresses of some buffers.
abbrev pub addresses : List Buffer → List ℕ
addresses = map λ b. b.address

pub count-addresses-append :
    (a : ℕ) (xs ys : List Buffer)
    → count a (addresses (xs ++ ys)) ≡ count a (addresses xs) + count a (addresses ys)
count-addresses-append a [] ys = omega arith
count-addresses-append a (x ∷ xs) ys = omega (arith, count-addresses-append a xs ys)

-- How often the queue holds the buffer at an address.
abbrev pub held : ℕ → FixedBufferQueue → ℕ
held a q = count a (addresses q.read_buffers) + count a (addresses q.write_buffers)

-- returnBuffer puts the block of the buffer into the queue exactly once, whichever deque it goes to,
-- and the number of times that the queue holds any other block stays.
pub held-return_buffer :
    (a : ℕ) (q : FixedBufferQueue) (b : Buffer)
    → held a (return_buffer q b) ≡ held a q + count a (b.address ∷ [])
unfolding return_buffer
held-return_buffer a q b = ground (
  arith,
  count-addresses-append a q.read_buffers (set_type read b ∷ []),
  count-addresses-append a q.write_buffers (set_type write b ∷ []),
)

-- isEmpty of FixedBufferQueue is true exactly where getFilledBuffer refuses: it gives no buffer,
-- does not wait and changes nothing.
pub is_empty-iff-refused :
    (q : FixedBufferQueue) → (is_empty q ≡ true) ↔ (get_filled_buffer q ≡ returned (none, q))
unfolding is_empty get_filled_buffer
is_empty-iff-refused q = (λ h. ground arith, λ h. ground arith)

addresses-new_buffer : (xs : List ℕ) → addresses (map new_buffer xs) ≡ xs
addresses-new_buffer [] = refl
addresses-new_buffer (x ∷ xs) = ap (◌∷◌ x) (addresses-new_buffer xs)

-- The constructor's buffers are those below `buffers_in_queue`, one each, and all are free.
pub held-init : (a : ℕ) → held a (open_queue init) ≡ (if ltb a buffers_in_queue then 1 else 0)
unfolding init open_queue
held-init a =
    rw (addresses-new_buffer (range_from 0 buffers_in_queue), count-range_from a 0 buffers_in_queue)
      (ground arith)

-- A buffer that was handed out to be read into goes to the end of the filled ones.
pub return_buffer-read :
    (q : FixedBufferQueue) (b : Buffer)
    → b.buffer_type ≡ read
    → return_buffer q b ≡ record q { write_buffers = q.write_buffers ++ set_type write b ∷ [] }
unfolding return_buffer
return_buffer-read q b h = ground arith

-- A buffer that was handed out to be written from goes back to the free ones.
pub return_buffer-write :
    (q : FixedBufferQueue) (b : Buffer)
    → b.buffer_type ≡ write
    → return_buffer q b ≡ record q { read_buffers = q.read_buffers ++ set_type read b ∷ [] }
unfolding return_buffer
return_buffer-write q b h = ground arith

-- An open queue does not count as empty.
pub is_empty-open : (q : FixedBufferQueue) → q.is_open ≡ true → is_empty q ≡ false
unfolding is_empty
is_empty-open q o = ground arith
