-- ===== src/Auth/Limiter/Attempts.antt =====
-- The attempts that the limiter stores, and what a caller waits (internal/auth/limiter.go).
use m_ui.Prelude.{
  ℕ, ◌+◌, ◌-◌, ◌%◌, ◌^◌, ◌≤◌, ◌≡◌, ◌∙◌, refl, inl, inr, arith, true, false, some, ltb, ◌==◌,
  if◌then◌else◌, Bool-cases, Option-cases, Key, lookup, insert, lookup-insert, lookup-delete,
  Distinct, Values, Values-lookup, insert-Values, delete-Values, sweep-Values, insert-Distinct,
  delete-Distinct, sweep-Distinct, lookup-sweep-none, lookup-sweep_kept, lookup-sweep_gone,
}
use m_ui.Auth.Limiter.{
  LoginAttempt, LoginLimiter, is_stale, retry_after, cleanup, failed_attempt, failure, success,
  new_login_limiter,
}
use m_ui.Auth.Limiter.Delay.{failure_delay-le-max}

-- A stored attempt never blocks its key for longer than the cap after its last update.
abbrev pub IsCapped : ℕ → LoginAttempt → Type 0
IsCapped max_delay a = a.next ≤ a.last_update + max_delay

pub record IsValid {K : Type 0} ⦃k : Key K⦄ (l : LoginLimiter K) : Type 0 where
  pub capped : Values (IsCapped l.max_delay) l.attempts
  pub distinct : Distinct l.attempts
  pub retained : l.max_delay ≤ l.retention

nothing_left : (n now : ℕ) → ltb n (now - now) ≡ false
nothing_left n now = ground arith

module _ {K : Type 0} ⦃k : Key K⦄ where
  pub new_login_limiter-IsValid : IsValid {K = K} new_login_limiter
  unfolding new_login_limiter
  new_login_limiter-IsValid = record { capped = tt; distinct = tt; retained = omega arith }

  pub cleanup-IsValid : (l : LoginLimiter K) (now : ℕ) → IsValid l → IsValid (cleanup l now)
  unfolding cleanup
  cleanup-IsValid l now v = record {
    capped = sweep-Values _ _ l.attempts v.capped;
    distinct = sweep-Distinct _ l.attempts v.distinct;
    retained = v.retained;
  }

  stored : LoginLimiter K → K → ℕ → LoginLimiter K
  stored l key now = record l {
    attempts = insert key (failed_attempt l key now) l.attempts;
    updates = (l.updates + 1) % 2 ^ 64;
  }

  stored-IsValid : (l : LoginLimiter K) (key : K) (now : ℕ) → IsValid l → IsValid (stored l key now)
  unfolding stored failed_attempt
  stored-IsValid l key now v = record {
    capped =
        insert-Values (IsCapped l.max_delay) key _ l.attempts
          (omega (arith, failure_delay-le-max l.base_delay l.max_delay _)) v.capped;
    distinct = insert-Distinct key _ l.attempts v.distinct;
    retained = v.retained;
  }

  -- `failure` stores the attempt and, once in 256 updates, cleans up.
  failure_cases {ℓ} :
      (P : LoginLimiter K → Type ℓ) (l : LoginLimiter K) (key : K) (now : ℕ)
      → P (stored l key now)
      → P (cleanup (stored l key now) now)
      → P (failure l key now).0
  unfolding failure stored
  failure_cases P l key now plain cleaned =
      elim (Bool-cases (((l.updates + 1) % 2 ^ 64) % 256 == 0)) [
        | inl e ↦ rw (e, failure) cleaned
        | inr e ↦ rw (e, failure) plain
      ]

  -- A failure keeps the limiter valid: no stored attempt waits past the cap after its last update,
  -- no key is stored twice, and the retention is not below the cap.
  pub failure-IsValid :
      (l : LoginLimiter K) (key : K) (now : ℕ) → IsValid l → IsValid (failure l key now).0
  failure-IsValid l key now v =
      failure_cases IsValid l key now (stored-IsValid l key now v)
        (cleanup-IsValid _ now (stored-IsValid l key now v))

  pub success-IsValid : (l : LoginLimiter K) (key : K) → IsValid l → IsValid (success l key)
  unfolding success
  success-IsValid l key v = record {
    capped = delete-Values _ key l.attempts v.capped;
    distinct = delete-Distinct key l.attempts v.distinct;
    retained = v.retained;
  }

  lookup-stored :
      (l : LoginLimiter K) (key : K) (now : ℕ)
      → lookup key (stored l key now).attempts ≡ some (failed_attempt l key now)
  unfolding stored
  lookup-stored l key now =
      ground (arith, lookup-insert key key (failed_attempt l key now) l.attempts, k.beq_iff key key)

  fresh :
      (l : LoginLimiter K) (key : K) (now : ℕ)
      → is_stale l.retention now (failed_attempt l key now) ≡ false
  unfolding is_stale failed_attempt
  fresh l key now = nothing_left l.retention now

  -- The clean-up after a failure never drops the attempt that was just stored.
  pub lookup-failure :
      (l : LoginLimiter K) (key : K) (now : ℕ)
      → lookup key (failure l key now).0.attempts ≡ some (failed_attempt l key now)
  unfolding cleanup stored
  lookup-failure l key now =
      failure_cases (λ m. lookup key m.attempts ≡ some (failed_attempt l key now)) l key now
        (lookup-stored l key now)
        (lookup-sweep_kept _ key _ _ (lookup-stored l key now) (fresh l key now))

  -- After a failure at `now` the same key waits out exactly the returned delay.
  pub retry_after-failure :
      (l : LoginLimiter K) (key : K) (now later : ℕ)
      → now ≤ later
      → retry_after (failure l key now).0 key later ≡ (failure l key now).1 - (later - now)
  unfolding retry_after failed_attempt failure
  retry_after-failure l key now later h = rw (lookup-failure l key now) (ground arith)

  -- Cleaning up never shortens what a key still has to wait.
  retry_after-cleanup :
      (l : LoginLimiter K) (key : K) (now later : ℕ)
      → IsValid l
      → now ≤ later
      → retry_after (cleanup l now) key later ≡ retry_after l key later
  unfolding retry_after cleanup
  retry_after-cleanup l key now later v h = elim (Option-cases (lookup key l.attempts)) [
    | inl e ↦ rw (e, lookup-sweep-none (is_stale l.retention now) key l.attempts e)
    | inr (a, e) ↦ elim (Bool-cases (is_stale l.retention now a)) [
      | inl s ↦
          rw (e, lookup-sweep_gone (is_stale l.retention now) key a l.attempts v.distinct e s)
            (expired a s (Values-lookup _ key a l.attempts v.capped e))
      | inr s ↦ rw (e, lookup-sweep_kept (is_stale l.retention now) key a l.attempts e s)
    ]
  ]
    where
      expired :
          (a : LoginAttempt)
          → is_stale l.retention now a ≡ true
          → a.next ≤ a.last_update + l.max_delay
          → 0 ≡ (if ltb later a.next then a.next - later else 0)
      expired a s c = unfold is_stale in ground (arith, v.retained)

  retry_after-stored_ne :
      (l : LoginLimiter K) (key other : K) (now later : ℕ)
      → k.beq key other ≡ false
      → retry_after (stored l key now) other later ≡ retry_after l other later
  unfolding retry_after stored
  retry_after-stored_ne l key other now later ne =
      rw (lookup-insert key other (failed_attempt l key now) l.attempts, ne)

  -- On a valid limiter, a failure of one key at `now` changes no other key's wait from then on.
  pub retry_after-failure_ne :
      (l : LoginLimiter K) (key other : K) (now later : ℕ)
      → IsValid l
      → k.beq key other ≡ false
      → now ≤ later
      → retry_after (failure l key now).0 other later ≡ retry_after l other later
  retry_after-failure_ne l key other now later v ne h =
      let plain = retry_after-stored_ne l key other now later ne in
      failure_cases (λ m. retry_after m other later ≡ retry_after l other later) l key now plain
        (retry_after-cleanup _ other now later (stored-IsValid l key now v) h ∙ plain)

  -- A success clears its key's wait and no other's.
  pub retry_after-success :
      (l : LoginLimiter K) (key other : K) (now : ℕ)
      → retry_after (success l key) other now
        ≡ (if k.beq key other then 0 else retry_after l other now)
  unfolding retry_after success
  retry_after-success l key other now = ground (arith, lookup-delete key other l.attempts)

  pub settings-failure :
      (l : LoginLimiter K) (key : K) (t : ℕ)
      → ((failure l key t).0.base_delay ≡ l.base_delay)
        × ((failure l key t).0.max_delay ≡ l.max_delay)
  unfolding stored cleanup
  settings-failure l key t =
      failure_cases (λ m. (m.base_delay ≡ l.base_delay) × (m.max_delay ≡ l.max_delay)) l key t
        (refl, refl) (refl, refl)
