-- ===== src/Auth/Limiter/Escalation.antt =====
-- The back-off of a key that keeps failing (internal/auth/limiter.go).
use Prim.Native.Nat.{min}
use m_ui.Prelude.{
  ℕ, suc, ◌+◌, ◌*◌, ◌%◌, ◌^◌, ◌≤◌, ◌≡◌, refl, ◌∙◌, arith, none, List, [], ◌∷◌, length, Key, lookup,
}
use m_ui.Auth.Limiter.{LoginLimiter, or_zero, bump_failures, failed_attempt, failure}
use m_ui.Auth.Limiter.Delay.{failure_delay-eq-min}
use m_ui.Auth.Limiter.Attempts.{lookup-failure, settings-failure}

bump : (f : ℕ) → f ≤ 31 → bump_failures f ≡ min 31 (f + 1)
unfolding bump_failures
bump f h = ground arith

module _ {K : Type 0} ⦃k : Key K⦄ where
  -- Failures of one key at the given times, oldest first.
  pub fail_all : LoginLimiter K → K → List ℕ → LoginLimiter K
  fail_all l key [] = l
  fail_all l key (t ∷ ts) = fail_all (failure l key t).0 key ts

  failures_of : LoginLimiter K → K → ℕ
  failures_of l key = (or_zero (lookup key l.attempts)).failures

  failures-failure :
      (l : LoginLimiter K) (key : K) (t : ℕ)
      → failures_of (failure l key t).0 key ≡ bump_failures (failures_of l key)
  unfolding failures_of failed_attempt
  failures-failure l key t = rw (lookup-failure l key t, failures_of)

  failures-fail_all :
      (l : LoginLimiter K) (key : K) (ts : List ℕ)
      → failures_of l key ≤ 31
      → failures_of (fail_all l key ts) key ≡ min 31 (failures_of l key + length ts)
  unfolding fail_all
  failures-fail_all l key [] h = omega arith
  failures-fail_all l key (t ∷ ts) h = omega (
    arith,
    failures-fail_all (failure l key t).0 key ts
        (omega (arith, failures-failure l key t, bump (failures_of l key))),
    failures-failure l key t,
    bump (failures_of l key),
  )

  settings-fail_all :
      (l : LoginLimiter K) (key : K) (ts : List ℕ)
      → ((fail_all l key ts).base_delay ≡ l.base_delay)
        × ((fail_all l key ts).max_delay ≡ l.max_delay)
  unfolding fail_all
  settings-fail_all l key [] = (refl, refl)
  settings-fail_all l key (t ∷ ts) =
      let (b, m) = settings-fail_all (failure l key t).0 key ts in
      let (b', m') = settings-failure l key t in (b ∙ b', m ∙ m')

  counted :
      (l : LoginLimiter K) (key : K) (ts : List ℕ)
      → lookup key l.attempts ≡ none
      → bump_failures (failures_of (fail_all l key ts) key) ≡ suc (min 30 (length ts))
  unfolding failures_of
  counted l key ts none_yet =
      let zero_yet : failures_of l key ≡ 0 = rw (none_yet, failures_of) in
      omega (
        arith,
        failures-fail_all l key ts (omega arith),
        bump (failures_of (fail_all l key ts) key),
      )

  -- For an even cap that is not below the base delay, and a key with no attempt stored: after the
  -- failures at the times `ts`, the next failure returns the base delay doubled once for each of
  -- them, at most thirty times, and capped.
  pub failure-fail_all :
      (l : LoginLimiter K) (key : K) (ts : List ℕ) (now : ℕ)
      → lookup key l.attempts ≡ none
      → l.max_delay % 2 ≡ 0
      → l.base_delay ≤ l.max_delay
      → (failure (fail_all l key ts) key now).1
        ≡ min l.max_delay (l.base_delay * 2 ^ min 30 (length ts))
  unfolding failure failed_attempt failures_of
  failure-fail_all l key ts now none_yet even fits =
      let (b, m) = settings-fail_all l key ts in
      rw (b, m)
        (rw (counted l key ts none_yet)
          (failure_delay-eq-min l.base_delay l.max_delay (min 30 (length ts)) even fits))
