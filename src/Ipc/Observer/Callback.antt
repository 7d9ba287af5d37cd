-- ===== src/Ipc/Observer/Callback.antt =====
-- src/IPC/SiblingProcessObserver.cpp: rounds that must end with the callback.
use ki.Prelude.{
  ℕ, ◌+◌, ◌*◌, ◌≤◌, ◌≡◌, refl, true, false, List, [], ◌∷◌, ◌++◌, arith, length, Bool-cases, inl,
  inr,
}
use ki.Ipc.Observer.{Observer, Poll, nanoseconds, elapsed_ms, tick, is_over, poll, observe_siblings}
use ki.Ipc.Observer.Timeout.{AllAbsent, poll-absent, tick-start, tick-read}

-- Each round is at least a second after the one before it, as `sleep_for(pollInterval)` makes it.
abbrev pub Spaced : ℕ → List Poll → Type 0
Spaced t [] = Unit {0}
Spaced t (p ∷ ps) = (t + nanoseconds 1 ≤ p.now) × Spaced p.now ps

observe-absent :
    (p : Poll) (ps : List Poll) (o : Observer)
    → p.count ≡ 0
    → (is_over (tick p.now o) ≡ false → observe_siblings ps (tick p.now o) ≡ true)
    → observe_siblings (p ∷ ps) o ≡ true
unfolding observe_siblings
observe-absent p ps o e h = elim (Bool-cases (is_over (tick p.now o))) [
  | inl over ↦ rw (poll-absent p o e, over) refl
  | inr going ↦ rw (poll-absent p o e, going) (h going)
]

-- A stopwatch that runs reaches the waiting time in the rounds that are left.
runs_out :
    (during after : List Poll) (o : Observer)
    → o.stopwatch_started ≡ true
    → AllAbsent during
    → Spaced o.prev_check during
    → is_over o ≡ false
    → 10000 ≤ o.stopwatch + 1000 * length during
    → observe_siblings (during ++ after) o ≡ true
runs_out [] after o q absent spaced going h = absurd (ground arith)
runs_out (p ∷ ps) after o q absent spaced going h =
    observe-absent p (ps ++ after) o absent.0 (λ going'. rw (tick-read p.now o q) (
      runs_out ps after read refl absent.1 spaced.1 (rw (tick-read p.now o q) at going')
        (omega (arith, spaced.0))))
  where
    read : Observer
    read = record {
      stopwatch_started = true;
      prev_check = p.now;
      stopwatch = o.stopwatch + elapsed_ms p.now o.prev_check;
    }

silence_runs_out :
    (first : Poll) (during after : List Poll) (o : Observer)
    → AllAbsent (first ∷ during)
    → Spaced first.now during
    → 10 ≤ length during
    → observe_siblings (first ∷ (during ++ after)) o ≡ true
silence_runs_out first during after o absent spaced long =
    observe-absent first (during ++ after) o absent.0 (elim (Bool-cases o.stopwatch_started) [
      | inl q ↦ λ going. rw (tick-read first.now o q) (
          runs_out during after _ refl absent.1 spaced (rw (tick-read first.now o q) at going)
            (omega arith))
      | inr q ↦ λ going. rw (tick-start first.now o q) (
          runs_out during after _ refl absent.1 spaced (rw (tick-start first.now o q) at going)
            (omega arith))
    ])

-- If the loop of SiblingProcessObserver goes through a round without a sibling and then ten more of
-- them, each at least a second after the one before, then it ends with the callback, in these rounds
-- or before, whatever was seen before and in whatever state the observer began.
pub callback-Spaced :
    (before : List Poll) (first : Poll) (during after : List Poll) (o : Observer)
    → AllAbsent (first ∷ during)
    → Spaced first.now during
    → 10 ≤ length during
    → observe_siblings (before ++ first ∷ (during ++ after)) o ≡ true
unfolding observe_siblings
callback-Spaced [] first during after o absent spaced long =
    silence_runs_out first during after o absent spaced long
callback-Spaced (p ∷ before) first during after o absent spaced long =
    elim (Bool-cases (poll p o).1) [
      | inl over ↦ rw over refl
      | inr going ↦
          rw going (callback-Spaced before first during after (poll p o).0 absent spaced long)
    ]
