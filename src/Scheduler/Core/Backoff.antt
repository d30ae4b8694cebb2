-- ===== src/Scheduler/Core/Backoff.antt =====
-- The waits of the update loop (internal/scheduler/core.go).
use Prim.Native.Nat.{min}
use m_ui.Prelude.{
  true, ◌^◌, ◌≤◌, All, ℕ, zero, suc, ◌*◌, ◌<◌, ◌≡◌, refl, ap, Option, none, some, List, [], ◌∷◌,
  arith,
}
use m_ui.Scheduler.Core.{
  UpdateError, busy, other, CoreScheduler, new_core, next_backoff, core_round, run, is_positive,
}

-- `n` rounds that fail with an error other than the busy one.
abbrev pub failing : ℕ → List (Option UpdateError)
failing zero = []
failing (suc n) = some other ∷ failing n

-- The waits that double from `delay` up to the cap, `n` of them.
abbrev pub doubled : ℕ → ℕ → ℕ → List ℕ
doubled max_backoff delay zero = []
doubled max_backoff delay (suc n) = min max_backoff delay ∷ doubled max_backoff (delay * 2) n

-- Twice a duration below this does not wrap: 146 years.
abbrev pub backoff_bound : ℕ
backoff_bound = 2 ^ 62

next_backoff-min :
    (s : CoreScheduler) (delay : ℕ)
    → 0 < s.max_backoff
    → s.max_backoff < backoff_bound
    → 0 < delay
    → next_backoff s (min s.max_backoff delay) ≡ min s.max_backoff (delay * 2)
unfolding next_backoff
next_backoff-min s delay h b k = ground arith

next_backoff-zero :
    (s : CoreScheduler)
    → s.max_backoff < backoff_bound
    → s.poll_interval < 2 ^ 63
    → next_backoff s 0 ≡ min s.max_backoff s.poll_interval
unfolding next_backoff
next_backoff-zero s b p = ground arith

run-failing_from :
    (s : CoreScheduler) (delay n : ℕ)
    → 0 < s.max_backoff
    → s.max_backoff < backoff_bound
    → 0 < delay
    → run s (min s.max_backoff delay) (failing n) ≡ doubled s.max_backoff (delay * 2) n
unfolding run core_round
run-failing_from s delay zero h b k = refl
run-failing_from s delay (suc n) h b k = rw (next_backoff-min s delay h b k) (
    ap (λ l. min s.max_backoff (delay * 2) ∷ l)
      (run-failing_from s (delay * 2) n h b (omega arith)))

-- With positive intervals and a cap below 2^62 nanoseconds, the rounds of a run of failures wait
-- the poll interval, then twice that, and so on, each capped.
pub run-failing :
    (s : CoreScheduler) (n : ℕ)
    → 0 < s.max_backoff
    → s.max_backoff < backoff_bound
    → is_positive s.poll_interval ≡ true
    → run s 0 (failing n) ≡ doubled s.max_backoff s.poll_interval n
unfolding run core_round
run-failing s zero h b k = refl
run-failing s (suc n) h b k = rw (next_backoff-zero s b (ground arith)) (
    ap (λ l. min s.max_backoff s.poll_interval ∷ l)
      (run-failing_from s s.poll_interval n h b (ground arith)))

next_backoff-fits :
    (s : CoreScheduler) (backoff : ℕ)
    → 0 < s.max_backoff
    → s.max_backoff < backoff_bound
    → is_positive s.poll_interval ≡ true
    → backoff ≤ s.max_backoff
    → (0 < next_backoff s backoff) × (next_backoff s backoff ≤ s.max_backoff)
unfolding next_backoff
next_backoff-fits s backoff h b k f = ground arith

run_from-positive :
    (s : CoreScheduler) (backoff : ℕ) (es : List (Option UpdateError))
    → 0 < s.max_backoff
    → s.max_backoff < backoff_bound
    → is_positive s.poll_interval ≡ true
    → backoff ≤ s.max_backoff
    → All (λ wait. is_positive wait ≡ true) (run s backoff es)
unfolding run core_round
run_from-positive s backoff [] h b k f = tt
run_from-positive s backoff (none ∷ es) h b k f = (k, run_from-positive s 0 es h b k (omega arith))
run_from-positive s backoff (some busy ∷ es) h b k f =
    (refl, run_from-positive s 0 es h b k (omega arith))
run_from-positive s backoff (some other ∷ es) h b k f =
    let fits = next_backoff-fits s backoff h b k f in
    (ground arith, run_from-positive s (next_backoff s backoff) es h b k fits.1)

new_core-positive :
    (poll_interval max_backoff : ℕ)
    → (0 < (new_core poll_interval max_backoff).max_backoff)
      × (is_positive (new_core poll_interval max_backoff).poll_interval ≡ true)
unfolding new_core
new_core-positive poll_interval max_backoff = ground arith

-- A scheduler made by its constructor, from any intervals, never spins: with a cap below 2^62
-- nanoseconds, every wait of a run is positive, whatever the errors of its rounds.
pub run-positive :
    (poll_interval max_backoff : ℕ) (es : List (Option UpdateError))
    → (new_core poll_interval max_backoff).max_backoff < backoff_bound
    → All (λ wait. is_positive wait ≡ true) (run (new_core poll_interval max_backoff) 0 es)
run-positive poll_interval max_backoff es b =
    let made = new_core-positive poll_interval max_backoff in
    run_from-positive (new_core poll_interval max_backoff) 0 es made.0 b made.1 (omega arith)
