-- ===== src/Auth/Limiter.antt =====
-- internal/auth/limiter.go. Times and durations are nanoseconds; the clock's reading is an argument
-- of each call. The mutex makes each method one step, so a method is a function on the limiter.
-- A key is an address and a normalised user name, which the limiter only compares.
pub mod Delay
pub mod Attempts
pub mod Escalation
mod Tests
use m_ui.Prelude.{
  ℕ, zero, suc, ◌+◌, ◌-◌, ◌*◌, ◌/◌, ◌%◌, ◌^◌, Bool, Option, none, some, List, [], ltb, leb, ◌==◌,
  if◌then◌else◌, Key, lookup, insert, delete, sweep,
}

pub record LoginAttempt : Type 0 where
  pub failures : ℕ  -- uint8
  pub next : ℕ
  pub last_update : ℕ

-- `attempts[key]` on a missing key gives Go's zero value.
abbrev pub zero_attempt : LoginAttempt
zero_attempt = record { failures = 0; next = 0; last_update = 0 }

abbrev pub or_zero : Option LoginAttempt → LoginAttempt
or_zero none = zero_attempt
or_zero (some a) = a

pub record LoginLimiter (K : Type 0) : Type 0 where
  pub attempts : List (K × LoginAttempt)
  pub base_delay : ℕ
  pub max_delay : ℕ
  pub retention : ℕ
  pub updates : ℕ  -- uint64

-- 250ms, 30s and 1h.
unfoldable pub new_login_limiter : {K : Type 0} → LoginLimiter K
new_login_limiter = record {
  attempts = [];
  base_delay = 250_000_000;
  max_delay = 30_000_000_000;
  retention = 3_600_000_000_000;
  updates = 0;
}

-- The loop of `Failure`: `rounds` more doublings, with the `break` once half the cap is reached.
pub double_delay : ℕ → ℕ → ℕ → ℕ
double_delay zero max_delay delay = delay
double_delay (suc rounds) max_delay delay =
    let rest = double_delay rounds max_delay (delay * 2) in
    if leb (max_delay / 2) delay then max_delay else rest

-- The delay after `failures` failures: the loop, then the final cap.
pub failure_delay : ℕ → ℕ → ℕ → ℕ
unfolding double_delay
failure_delay base_delay max_delay failures =
    let delay = double_delay (failures - 1) max_delay base_delay in
    if ltb max_delay delay then max_delay else delay

-- The counter stops at 31, so its uint8 never wraps.
pub bump_failures : ℕ → ℕ
bump_failures failures = if ltb failures 31 then (failures + 1) % 2 ^ 8 else failures

-- `now.Sub(t)` is negative for a later `t`, and then not past the retention: `-` gives 0 there.
pub is_stale : ℕ → ℕ → LoginAttempt → Bool
is_stale retention now a = ltb retention (now - a.last_update)

-- What `RetryAfter` returns for the attempt it found.
abbrev pub wait_until : ℕ → Option LoginAttempt → ℕ
wait_until now none = 0
wait_until now (some attempt) = if ltb now attempt.next then attempt.next - now else 0

module _ {K : Type 0} ⦃k : Key K⦄ where
  unfoldable pub retry_after : LoginLimiter K → K → ℕ → ℕ
  retry_after l key now = wait_until now (lookup key l.attempts)

  pub cleanup : LoginLimiter K → ℕ → LoginLimiter K
  cleanup l now = record l { attempts = sweep (is_stale l.retention now) l.attempts }

  -- The attempt that `Failure` stores.
  pub failed_attempt : LoginLimiter K → K → ℕ → LoginAttempt
  unfolding failure_delay bump_failures
  failed_attempt l key now =
      let old = or_zero (lookup key l.attempts) in
      let failures = bump_failures old.failures in
      record {
        failures = failures;
        next = now + failure_delay l.base_delay l.max_delay failures;
        last_update = now;
      }

  pub failure : LoginLimiter K → K → ℕ → LoginLimiter K × ℕ
  unfolding failed_attempt cleanup
  failure l key now =
      let attempt = failed_attempt l key now in
      let updates = (l.updates + 1) % 2 ^ 64 in
      let stored = record l { attempts = insert key attempt l.attempts; updates = updates } in
      (
        if updates % 256 == 0 then cleanup stored now else stored,
        failure_delay l.base_delay l.max_delay attempt.failures,
      )

  pub success : LoginLimiter K → K → LoginLimiter K
  success l key = record l { attempts = delete key l.attempts }
