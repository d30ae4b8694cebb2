-- ===== src/Scheduler/Core/Tests.antt =====
-- The update loop with a poll interval of 10 and a cap of 25.
use m_ui.Prelude.{◌≡◌, ◌^◌, ◌-◌, refl, true, none, some, [], ◌∷◌, All, arith}
use m_ui.Scheduler.Core.{CoreScheduler, busy, other, is_positive, new_core, run}
use m_ui.Scheduler.Core.Backoff.{failing, doubled, run-failing, run-positive}

abbrev quick : CoreScheduler
quick = record { poll_interval = 10; max_backoff = 25 }

run-failing_example : run quick 0 (failing 3) ≡ doubled 25 10 3
run-failing_example = run-failing quick 3 (omega arith) (omega arith) refl

-- An interval of -1, and a cap that is left to the default.
run-positive_example :
    All
      (λ wait. is_positive wait ≡ true)
      (run (new_core (2 ^ 64 - 1) 0) 0 (some other ∷ some busy ∷ some other ∷ none ∷ []))
run-positive_example =
    run-positive (2 ^ 64 - 1) 0 (some other ∷ some busy ∷ some other ∷ none ∷ [])
      (unfold new_core in omega arith)
