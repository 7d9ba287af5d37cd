-- ===== src/Queue/Fixed/Pool.antt =====
-- src/queue/BufferedQueue.hpp: what a client of FixedBufferQueue may rely on. The free buffers are a bag
-- of addresses: which of them is given next is not promised. The filled ones are a queue.
use mathlib.Core.Quot
use mathlib.Core.Quot.{Quot}
use ki.Prelude.{
  ℕ, ◌≡◌, Bool, true, false, not, ◌&&◌, Option, none, some, List, [], ◌∷◌, ◌++◌, arith, count,
}
use ki.Queue.Buffer.{Buffer, read, write, set_type}
use ki.Queue.Wait.{Waited, blocked, returned}
use ki.Queue.Fixed.{
  FixedBufferQueue, get_free_buffer, get_filled_buffer, is_empty, close, open_queue, return_buffer,
  finish_read, is_nil,
}
use ki.Queue.Fixed.Laws.{addresses}

-- Two lists have the same addresses, as often.
abbrev SameAddresses : List ℕ → List ℕ → Type 0
SameAddresses xs ys = (a : ℕ) → count a xs ≡ count a ys

abbrev pub Addresses : Type 0
Addresses = Quot SameAddresses

abbrev pub none_free : Addresses
none_free = Quot.mk []

-- One address more.
unfoldable pub put : ℕ → Addresses → Addresses
put a =
    Quot.lift Quot.Quot-set (λ xs. Quot.mk (a ∷ xs))
      (λ xs ys h. Quot.sound (λ c. omega (arith, h c)))

pub record Pool : Type 0 where
  pub free : Addresses
  pub filled : List Buffer
  pub is_open : Bool
  pub is_read_finished : Bool

abbrev pub view : FixedBufferQueue → Pool
view q = record {
  free = Quot.mk (addresses q.read_buffers);
  filled = q.write_buffers;
  is_open = q.is_open;
  is_read_finished = q.is_read_finished;
}

pub data Call : Type 0 where
  gets_free gets_filled asks_empty asks_finished closes opens finishes : Call
  returns : Buffer → Call

pub data Reply : Type 0 where
  waits done : Reply
  gives : Option Buffer → Reply
  says : Bool → Reply

abbrev pub replied :
    FixedBufferQueue → Waited (Option Buffer × FixedBufferQueue) → Reply × FixedBufferQueue
replied q blocked = (waits, q)
replied q (returned (b, q')) = (gives b, q')

-- A call of a client; one that waits leaves the queue as it is.
unfoldable pub execute : Call → FixedBufferQueue → Reply × FixedBufferQueue
execute gets_free q = replied q (get_free_buffer q)
execute gets_filled q = replied q (get_filled_buffer q)
execute asks_empty q = (says (is_empty q), q)
execute asks_finished q = (says q.is_read_finished, q)
execute closes q = (done, close q)
execute opens q = (done, open_queue q)
execute finishes q = (done, finish_read q)
execute (returns b) q = (done, return_buffer q b)

-- What the pool allows as the reply to a call, and as the pool after it.
pub data Allows (p : Pool) : Call → Reply → Pool → Type 0 where
  gives_free :
      (b : Buffer) (rest : Addresses)
      → p.free ≡ put b.address rest
      → b.buffer_type ≡ read
      → Allows p gets_free (gives (some b)) (record p { free = rest })
  waits_free : p.free ≡ none_free → p.is_open ≡ true → Allows p gets_free waits p
  refuses_free : p.free ≡ none_free → p.is_open ≡ false → Allows p gets_free (gives none) p
  gives_filled :
      (b : Buffer) (rest : List Buffer)
      → p.filled ≡ b ∷ rest
      → Allows p gets_filled (gives (some (set_type write b))) (record p { filled = rest })
  waits_filled : p.filled ≡ [] → p.is_open ≡ true → Allows p gets_filled waits p
  refuses_filled : p.filled ≡ [] → p.is_open ≡ false → Allows p gets_filled (gives none) p
  says_empty : Allows p asks_empty (says (is_nil p.filled && not p.is_open)) p
  says_finished : Allows p asks_finished (says p.is_read_finished) p
  closed : Allows p closes done (record p { is_open = false })
  opened : Allows p opens done (record p { is_open = true })
  finished : Allows p finishes done (record p { is_read_finished = true })
  -- A buffer that was given to read into becomes the last filled one, any other becomes free.
  filled_back :
      (b : Buffer)
      → b.buffer_type ≡ read
      → Allows p (returns b) done (record p { filled = p.filled ++ set_type write b ∷ [] })
  freed_back :
      (b : Buffer)
      → b.buffer_type ≡ write
      → Allows p (returns b) done (record p { free = put b.address p.free })
