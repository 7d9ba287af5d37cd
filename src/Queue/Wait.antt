-- ===== src/Queue/Wait.antt =====
-- `cv.wait(lock, predicate)` in src/queue/BufferedQueue.hpp and src/queue/SynchronizedQueue.hpp.
-- The test of the predicate and what follows it run under the mutex, as one step.

-- `blocked`: the predicate is false, and the caller sleeps on the condition variable.
pub data Waited {ℓ} (A : Type ℓ) : Type ℓ where
  blocked : Waited A
  returned : A → Waited A
