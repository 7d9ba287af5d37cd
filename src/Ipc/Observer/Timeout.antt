-- ===== src/Ipc/Observer/Timeout.antt =====
-- src/IPC/SiblingProcessObserver.cpp: when the callback is called.
use ki.Prelude.{
  ℕ, ◌+◌, ◌*◌, ◌/◌, ◌≤◌, ◌≡◌, refl, ap, Bool, true, false, List, [], ◌∷◌, ◌++◌, arith, ltb, ltb→le,
  le→ltb, leb→le, Bool-cases, ◌⊎◌, inl, inr, if◌then◌else◌,
}
use ki.Ipc.Observer.{
  Observer, Poll, waiting_time, nanoseconds, elapsed_ms, tick, is_over, poll, observe_siblings,
  new_observer,
}

-- The rounds come in the order of time.
abbrev pub Ordered : ℕ → List Poll → Type 0
Ordered t [] = Unit {0}
Ordered t (p ∷ ps) = (t ≤ p.now) × Ordered p.now ps

-- No sibling is seen in any of the rounds.
abbrev pub AllAbsent : List Poll → Type 0
AllAbsent [] = Unit {0}
AllAbsent (p ∷ ps) = (p.count ≡ 0) × AllAbsent ps

-- The time of the last round.
abbrev pub last_time : ℕ → List Poll → ℕ
last_time t [] = t
last_time t (p ∷ ps) = last_time p.now ps

-- Rounds in a row without a sibling, the last at least 10 seconds after the first.
pub record Silence (ps : List Poll) : Type 0 where
  pub before : List Poll
  pub first : Poll
  pub during : List Poll
  pub after : List Poll
  pub split : ps ≡ before ++ (first ∷ (during ++ after))
  pub absent : AllAbsent (first ∷ during)
  pub lasts : first.now + nanoseconds waiting_time ≤ last_time first.now during

-- Later rounds that go on with a silence which began at `from`, until it has lasted 10 seconds.
record Ongoing (from t : ℕ) (ps : List Poll) : Type 0 where
  during : List Poll
  after : List Poll
  split : ps ≡ during ++ after
  absent : AllAbsent during
  lasts : from + nanoseconds waiting_time ≤ last_time t during

later : (p : Poll) {ps : List Poll} → Silence ps → Silence (p ∷ ps)
later p s = record {
  before = p ∷ s.before;
  first = s.first;
  during = s.during;
  after = s.after;
  split = ap (◌∷◌ p) s.split;
  absent = s.absent;
  lasts = s.lasts;
}

begins : (p : Poll) {ps : List Poll} → p.count ≡ 0 → Ongoing p.now p.now ps → Silence (p ∷ ps)
begins p e g = record {
  before = [];
  first = p;
  during = g.during;
  after = g.after;
  split = ap (◌∷◌ p) g.split;
  absent = (e, g.absent);
  lasts = g.lasts;
}

goes_on :
    {from t : ℕ} (p : Poll) {ps : List Poll}
    → p.count ≡ 0
    → Ongoing from p.now ps
    → Ongoing from t (p ∷ ps)
goes_on p e g = record {
  during = p ∷ g.during;
  after = g.after;
  split = ap (◌∷◌ p) g.split;
  absent = (e, g.absent);
  lasts = g.lasts;
}

-- A stopwatch that runs shows no more than the time since `from`.
abbrev Shows : Observer → ℕ → ℕ → Type 0
Shows o from t =
    o.stopwatch_started ≡ true → (from + o.stopwatch * 1000000 ≤ o.prev_check) × (o.prev_check ≤ t)

abbrev Heard : Observer → ℕ → ℕ → List Poll → Type 0
Heard o from t ps = Silence ps ⊎ ((o.stopwatch_started ≡ true) × Ongoing from t ps)

-- The rest of the loop after a round.
abbrev continues : List Poll → Observer × Bool → Bool
continues ps (o, over) = if over then true else observe_siblings ps o

poll-present :
    (p : Poll) (o : Observer)
    → ltb 0 p.count ≡ true
    → poll p o ≡ (record o { stopwatch_started = false }, false)
unfolding poll
poll-present p o e = rw e refl

pub poll-absent :
    (p : Poll) (o : Observer) → p.count ≡ 0 → poll p o ≡ (tick p.now o, is_over (tick p.now o))
unfolding poll
poll-absent p o e = rw (le→ltb 0 p.count (omega arith)) refl

pub tick-start :
    (now : ℕ) (o : Observer)
    → o.stopwatch_started ≡ false
    → tick now o ≡ record { stopwatch_started = true; prev_check = now; stopwatch = 0 }
unfolding tick
tick-start now o e = ground arith

pub tick-read :
    (now : ℕ) (o : Observer)
    → o.stopwatch_started ≡ true
    → tick now o ≡ record {
      stopwatch_started = true;
      prev_check = now;
      stopwatch = o.stopwatch + elapsed_ms now o.prev_check;
    }
unfolding tick
tick-read now o e = ground arith

module _ (p : Poll) (ps : List Poll) (o : Observer) (from t : ℕ)
    (ih : (o' : Observer) (from' : ℕ)
      → Shows o' from' p.now
      → observe_siblings ps o' ≡ true
      → Heard o' from' p.now ps) where
  Heard-present : ltb 0 p.count ≡ true → continues ps (poll p o) ≡ true → Heard o from t (p ∷ ps)
  Heard-present e h = elim (ih quiet from (λ q. cc) (rw (poll-present p o e) at h)) [
    | inl s ↦ inl (later p s)
    | inr (q, g) ↦ absurd (cc (q))
  ]
    where
      quiet : Observer
      quiet = record o { stopwatch_started = false }

  Heard-start :
      p.count ≡ 0
      → o.stopwatch_started ≡ false
      → continues ps (poll p o) ≡ true
      → Heard o from t (p ∷ ps)
  Heard-start e q h =
      elim (ih fresh p.now (λ x. omega arith) (rw (poll-absent p o e, tick-start p.now o q) at h)) [
        | inl s ↦ inl (later p s)
        | inr (x, g) ↦ inl (begins p e g)
      ]
    where
      fresh : Observer
      fresh = record { stopwatch_started = true; prev_check = p.now; stopwatch = 0 }

  Heard-read :
      Shows o from t
      → t ≤ p.now
      → p.count ≡ 0
      → o.stopwatch_started ≡ true
      → continues ps (poll p o) ≡ true
      → Heard o from t (p ∷ ps)
  Heard-read s le e q h =
      go (Bool-cases (is_over read)) (rw (poll-absent p o e, tick-read p.now o q) at h)
    where
      read : Observer
      read = record {
        stopwatch_started = true;
        prev_check = p.now;
        stopwatch = o.stopwatch + elapsed_ms p.now o.prev_check;
      }

      shows : from + read.stopwatch * 1000000 ≤ p.now
      shows = let f = s q in omega arith

      go :
          ((is_over read ≡ true) ⊎ (is_over read ≡ false))
          → continues ps (read, is_over read) ≡ true
          → Heard o from t (p ∷ ps)
      go (inl over) h' = inr (
        q,
        record {
          during = p ∷ [];
          after = ps;
          split = refl;
          absent = (e, tt);
          lasts = omega (arith, leb→le waiting_time (read.stopwatch / 1000) over, shows);
        },
      )
      go (inr not_yet) h' = elim (ih read from (λ x. (shows, omega arith)) (rw not_yet at h')) [
        | inl l ↦ inl (later p l)
        | inr (x, g) ↦ inr (q, goes_on p e g)
      ]

  Heard-round :
      Shows o from t → t ≤ p.now → continues ps (poll p o) ≡ true → Heard o from t (p ∷ ps)
  Heard-round s le h = elim (Bool-cases (ltb 0 p.count)) [
    | inl present ↦ Heard-present present h
    | inr absent ↦ elim (Bool-cases o.stopwatch_started) [
      | inl q ↦ Heard-read s le (omega (arith, ltb→le 0 p.count absent)) q h
      | inr q ↦ Heard-start (omega (arith, ltb→le 0 p.count absent)) q h
    ]
  ]

Observer-Heard :
    (ps : List Poll) (o : Observer) (from t : ℕ)
    → Shows o from t
    → Ordered t ps
    → observe_siblings ps o ≡ true
    → Heard o from t ps
unfolding observe_siblings
Observer-Heard [] o from t s ord h = absurd (cc)
Observer-Heard (p ∷ ps) o from t s ord h =
    Heard-round p ps o from t (λ o' from' s' h'. Observer-Heard ps o' from' p.now s' ord.1 h') s
      ord.0 h

-- If the loop of SiblingProcessObserver ends with the callback, and the clock did not go back, then
-- some rounds in a row have seen no sibling, the last of them at least 10 seconds after the first,
-- whatever the stopwatch and the time were before they were set.
pub callback-Silence :
    (ps : List Poll) (t prev watch : ℕ)
    → Ordered t ps
    → observe_siblings ps (new_observer prev watch) ≡ true
    → Silence ps
callback-Silence ps t prev watch ord h =
    elim (Observer-Heard ps (new_observer prev watch) 0 t (λ q. cc) ord h) [
      | inl s ↦ s
      | inr (q, g) ↦ absurd (cc (q))
    ]
