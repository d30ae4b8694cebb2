-- ===== src/Auth/Limiter/Tests.antt =====
-- The limiter at two keys.
use Prim.Native.Nat.{min}
use m_ui.Prelude.{ℕ, ◌-◌, ◌*◌, ◌^◌, ◌≡◌, refl, [], ◌∷◌, arith, ◌==◌, Key, lookup-nil}
use m_ui.Auth.Limiter.{
  LoginLimiter, new_login_limiter, failure_delay, retry_after, failure, success,
}
use m_ui.Auth.Limiter.Delay.{failure_delay-eq-min}
use m_ui.Auth.Limiter.Attempts.{
  IsValid, new_login_limiter-IsValid, failure-IsValid, retry_after-failure, retry_after-failure_ne,
  retry_after-success,
}
use m_ui.Auth.Limiter.Escalation.{fail_all, failure-fail_all}

instance number_key : Key ℕ
number_key = record { beq = λ a b. a == b; beq_iff = λ a b. (λ h. ground arith, λ h. ground arith) }

abbrev fresh : LoginLimiter ℕ
fresh = new_login_limiter

failure_delay-eq-min_example :
    failure_delay 250_000_000 30_000_000_000 4 ≡ min 30_000_000_000 (250_000_000 * 2 ^ 3)
failure_delay-eq-min_example = failure_delay-eq-min 250_000_000 30_000_000_000 3 refl (omega arith)

failure-IsValid_example : IsValid (failure fresh 7 100).0
failure-IsValid_example = failure-IsValid fresh 7 100 new_login_limiter-IsValid

retry_after-failure_example :
    retry_after (failure fresh 7 100).0 7 150 ≡ (failure fresh 7 100).1 - 50
retry_after-failure_example = retry_after-failure fresh 7 100 150 (omega arith)

retry_after-failure_ne_example : retry_after (failure fresh 7 100).0 8 150 ≡ retry_after fresh 8 150
unfolding number_key
retry_after-failure_ne_example =
    retry_after-failure_ne fresh 7 8 100 150 new_login_limiter-IsValid refl (omega arith)

retry_after-success_example : retry_after (success fresh 7) 7 150 ≡ 0
unfolding number_key
retry_after-success_example = retry_after-success fresh 7 7 150

failure-fail_all_example :
    (failure (fail_all fresh 7 (1 ∷ 2 ∷ [])) 7 3).1
    ≡ min fresh.max_delay (fresh.base_delay * 2 ^ min 30 2)
unfolding new_login_limiter
failure-fail_all_example = failure-fail_all fresh 7 (1 ∷ 2 ∷ []) 3 (lookup-nil 7) refl (omega arith)
