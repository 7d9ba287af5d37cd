-- ===== src/Queue/Fixed/Refinement.antt =====
-- src/queue/BufferedQueue.hpp: FixedBufferQueue against the pool of its contract.
use mathlib.Core.Path.{subst}
use mathlib.Core.Quot
use ki.Prelude.{◌≡◌, refl, sym, ap, ◌∙◌, List, [], ◌∷◌, ◌++◌, arith}
use ki.Queue.Buffer.{Buffer, BufferType, read, write, set_type}
use ki.Queue.Fixed.{FixedBufferQueue, is_empty, close, open_queue, return_buffer, finish_read}
use ki.Queue.Fixed.Laws.{
  sleeps, refuses, hands, get_free_buffer-outcome, get_filled_buffer-outcome, addresses,
  count-addresses-append, return_buffer-read, return_buffer-write,
}
use ki.Queue.Fixed.Pool.{
  put, Addresses, Pool, view, Call, gets_free, gets_filled, asks_empty, asks_finished, closes,
  opens, finishes, returns, Reply, replied, execute, Allows, gives_free, waits_free, refuses_free,
  gives_filled, waits_filled, refuses_filled, says_empty, says_finished, closed, opened, finished,
  filled_back, freed_back,
}

-- In the bag it makes no difference at which end of the deque a buffer is.
addresses-snoc :
    (bs : List Buffer) (b : Buffer)
    → ◌≡◌ {A = Addresses}
        (Quot.mk (addresses (bs ++ b ∷ [])))
        (put b.address (Quot.mk (addresses bs)))
unfolding put
addresses-snoc bs b = Quot.sound (λ a. omega (arith, count-addresses-append a bs (b ∷ [])))

-- What a call gives and leaves is allowed.
abbrev Answered : FixedBufferQueue → Call → Reply × FixedBufferQueue → Type 0
Answered q c (r, q') = Allows (view q) c r (view q')

execute-Allows : (c : Call) (q : FixedBufferQueue) → Answered q c (execute c q)
unfolding execute is_empty close open_queue finish_read
execute-Allows gets_free q = elim (get_free_buffer-outcome q) [
  | sleeps h o g ↦
      subst (Answered q gets_free) (ap (replied q) (sym g))
        (waits_free (ap (λ bs. Quot.mk (addresses bs)) h) o)
  | refuses h o g ↦
      subst (Answered q gets_free) (ap (replied q) (sym g))
        (refuses_free (ap (λ bs. Quot.mk (addresses bs)) h) o)
  | hands rest b h g ↦ subst (Answered q gets_free) (ap (replied q) (sym g)) (
      gives_free (set_type read b) (Quot.mk (addresses rest))
        (ap (λ bs. Quot.mk (addresses bs)) h ∙ addresses-snoc rest b) refl)
]
execute-Allows gets_filled q = elim (get_filled_buffer-outcome q) [
  | sleeps h o g ↦ subst (Answered q gets_filled) (ap (replied q) (sym g)) (waits_filled h o)
  | refuses h o g ↦ subst (Answered q gets_filled) (ap (replied q) (sym g)) (refuses_filled h o)
  | hands rest b h g ↦
      subst (Answered q gets_filled) (ap (replied q) (sym g)) (gives_filled b rest h)
]
execute-Allows asks_empty q = says_empty
execute-Allows asks_finished q = says_finished
execute-Allows closes q = closed
execute-Allows opens q = opened
execute-Allows finishes q = finished
execute-Allows (returns b) q = returned_back b.buffer_type refl
  where
    returned_back :
        (t : BufferType)
        → b.buffer_type ≡ t
        → Allows (view q) (returns b) Reply.done (view (return_buffer q b))
    returned_back read e =
        subst (λ x. Allows (view q) (returns b) Reply.done (view x))
          (sym (return_buffer-read q b e)) (filled_back b e)
    returned_back write e =
        subst (λ x. Allows (view q) (returns b) Reply.done (view x))
          (sym (return_buffer-write q b e))
          (subst (λ f. Allows (view q) (returns b) Reply.done (record (view q) { free = f }))
            (sym (addresses-snoc q.read_buffers (set_type read b))) (freed_back b e))

-- The replies to some calls, one after another.
pub run : List Call → FixedBufferQueue → List Reply
run [] q = []
run (c ∷ cs) q = (execute c q).0 ∷ run cs (execute c q).1

-- A sequence of replies that the pool allows.
pub data AllowsAll : Pool → List Call → List Reply → Type 0 where
  ends : {p : Pool} → AllowsAll p [] []
  goes_on :
      {p : Pool} {c : Call} {r : Reply} (p' : Pool) {cs : List Call} {rs : List Reply}
      → Allows p c r p'
      → AllowsAll p' cs rs
      → AllowsAll p (c ∷ cs) (r ∷ rs)

-- Every reply that FixedBufferQueue gives to any sequence of calls, from any state, is one that the
-- pool of its contract allows: the free buffers are a bag of blocks, of which any may be handed out,
-- the filled ones are a first-in first-out queue, a call waits only where its side is empty and the
-- queue is open, and refuses only where it is empty and closed.
pub run-AllowsAll : (cs : List Call) (q : FixedBufferQueue) → AllowsAll (view q) cs (run cs q)
unfolding run
run-AllowsAll [] q = ends
run-AllowsAll (c ∷ cs) q =
    goes_on (view (execute c q).1) (execute-Allows c q) (run-AllowsAll cs (execute c q).1)
