-- ===== src/Queue/Synchronized/Laws.antt =====
-- src/queue/SynchronizedQueue.hpp: the branches of `pop`, and the order of the chunks.
use ki.Prelude.{
  ℕ, suc, zero, ◌≡◌, refl, ap, sym, ◌∙◌, ◌↔◌, Bool, true, false, none, some, List, [], ◌∷◌, ◌++◌,
  arith, append_assoc, append-nil, length,
}
use ki.Queue.Wait.{blocked, returned}
use ki.Queue.Synchronized.{SynchronizedQueue, push, pop, is_empty}

-- The three ways in which `pop` ends.
pub data PopOutcome {ℓ} {A : Type ℓ} (q : SynchronizedQueue A) : Type ℓ where
  sleeps : q.items ≡ [] → q.is_queue_open ≡ true → pop q ≡ blocked → PopOutcome q
  refuses : q.items ≡ [] → q.is_queue_open ≡ false → pop q ≡ returned (none, q) → PopOutcome q
  hands :
      (x : A) (rest : List A)
      → q.items ≡ x ∷ rest
      → pop q ≡ returned (some x, record q { items = rest })
      → PopOutcome q

module _ {ℓ} {A : Type ℓ} where
  pub pop-outcome : (q : SynchronizedQueue A) → PopOutcome q
  unfolding pop
  pop-outcome q = split q.items refl q.is_queue_open refl
    where
      split : (xs : List A) → q.items ≡ xs → (o : Bool) → q.is_queue_open ≡ o → PopOutcome q
      split [] e true o = sleeps e o (ground arith)
      split [] e false o = refuses e o (ground arith)
      split (x ∷ rest) e o h = hands x rest e (ground arith)

  -- `is_empty` is exactly the case in which `pop` has nothing to give and does not wait.
  pub is_empty-iff-pop_refused :
      (q : SynchronizedQueue A) → (is_empty q ≡ true) ↔ (pop q ≡ returned (none, q))
  unfolding is_empty pop
  is_empty-iff-pop_refused q = (λ h. ground arith, λ h. ground arith)

  -- Pushes, one after another.
  pub push_all : List A → SynchronizedQueue A → SynchronizedQueue A
  push_all [] q = q
  push_all (x ∷ xs) q = push_all xs (push x q)

  -- What calls of `pop` give until one gives nothing or waits; at most `fuel` calls.
  pub pop_all : ℕ → SynchronizedQueue A → List A
  pop_all zero q = []
  pop_all (suc fuel) q = elim (pop q) [
    | blocked ↦ []
    | returned (none, q') ↦ []
    | returned (some x, q') ↦ x ∷ pop_all fuel q'
  ]

  push_all-items :
      (xs : List A) (q : SynchronizedQueue A) → push_all xs q ≡ record q { items = q.items ++ xs }
  unfolding push_all push
  push_all-items [] q = ap (λ ys. record q { items = ys }) (sym (append-nil q.items))
  push_all-items (x ∷ xs) q =
      push_all-items xs (push x q)
      ∙ ap (λ ys. record q { items = ys }) (append_assoc q.items (x ∷ []) xs)

  pub pop-cons :
      (x : A) (rest : List A) (q : SynchronizedQueue A)
      → q.items ≡ x ∷ rest
      → pop q ≡ returned (some x, record q { items = rest })
  unfolding pop
  pop-cons x rest q e = ground arith

  -- An open queue without a chunk lets the caller wait.
  pub pop-blocked :
      (q : SynchronizedQueue A) → q.items ≡ [] → q.is_queue_open ≡ true → pop q ≡ blocked
  unfolding pop
  pop-blocked q e o = ground arith

  pub is_empty-open : (q : SynchronizedQueue A) → q.is_queue_open ≡ true → is_empty q ≡ false
  unfolding is_empty
  is_empty-open q o = ground arith

  pop_all-items :
      (xs : List A) (q : SynchronizedQueue A) → q.items ≡ xs → pop_all (length xs) q ≡ xs
  unfolding pop_all
  pop_all-items [] q e = refl
  pop_all-items (x ∷ xs) q e =
      rw (pop-cons x xs q e, pop_all) (ap (◌∷◌ x) (pop_all-items xs (record q { items = xs }) refl))

  -- First in, first out: after some pushes, as many calls of pop as the queue has chunks give the
  -- chunks that were there before, and then those that were pushed, in their order.
  pub pop_all-push_all :
      (xs : List A) (q : SynchronizedQueue A)
      → pop_all (length (q.items ++ xs)) (push_all xs q) ≡ q.items ++ xs
  pop_all-push_all xs q =
      pop_all-items (q.items ++ xs) (push_all xs q)
        (ap (λ (r : SynchronizedQueue A). r.items) (push_all-items xs q))
