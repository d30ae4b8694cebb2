-- ===== src/Scheduler/Core.antt =====
-- internal/scheduler/core.go: the loop that checks for an update of the Mihomo core. A duration is an
-- int64 of nanoseconds in two's complement: from 2^63 on it is negative. The manager's answers are
-- arguments.
pub mod Backoff
mod Tests
use m_ui.Prelude.{
  ℕ, zero, suc, ◌+◌, ◌*◌, ◌%◌, ◌^◌, not, ◌&&◌, Bool, Option, none, some, List, [], ◌∷◌, ltb, ◌==◌,
  if◌then◌else◌, true, false,
}

-- `operation.ErrBusy`, or any other error.
pub data UpdateError : Type 0 where
  busy other : UpdateError

pub record CoreScheduler : Type 0 where
  pub poll_interval : ℕ
  pub max_backoff : ℕ

-- `0 < d`.
abbrev pub is_positive : ℕ → Bool
is_positive d = ltb 0 d && ltb d (2 ^ 63)

-- `a < b`.
abbrev pub duration_ltb : ℕ → ℕ → Bool
duration_ltb a b = ltb ((a + 2 ^ 63) % 2 ^ 64) ((b + 2 ^ 63) % 2 ^ 64)

-- A second.
abbrev pub core_busy_retry_interval : ℕ
core_busy_retry_interval = 1_000_000_000

-- A minute and an hour stand in for intervals that are not positive.
unfoldable pub new_core : ℕ → ℕ → CoreScheduler
new_core poll_interval max_backoff = record {
  poll_interval = if is_positive poll_interval then poll_interval else 60_000_000_000;
  max_backoff = if is_positive max_backoff then max_backoff else 3_600_000_000_000;
}

-- The error of a round: `Update` is called where `Due` says so and does not fail.
abbrev pub round_error : Option UpdateError → Bool → Option UpdateError → Option UpdateError
round_error none true update = update
round_error none false update = none
round_error (some e) due update = some e

unfoldable pub next_backoff : CoreScheduler → ℕ → ℕ
next_backoff s backoff =
    let next = if backoff == 0 then s.poll_interval else backoff * 2 % 2 ^ 64 in
    if duration_ltb s.max_backoff next then s.max_backoff else next

-- One round of `Run`: the new back-off and the time to wait.
unfoldable pub core_round : CoreScheduler → ℕ → Option UpdateError → ℕ × ℕ
unfolding next_backoff
core_round s backoff (some busy) = (0, core_busy_retry_interval)
core_round s backoff (some other) = (next_backoff s backoff, next_backoff s backoff)
core_round s backoff none = (0, s.poll_interval)

-- The waits of `Run` for the errors of its rounds, from a back-off.
unfoldable pub run : CoreScheduler → ℕ → List (Option UpdateError) → List ℕ
unfolding core_round
run s backoff [] = []
run s backoff (e ∷ es) = let (next, wait) = core_round s backoff e in wait ∷ run s next es
