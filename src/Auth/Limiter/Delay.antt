-- ===== src/Auth/Limiter/Delay.antt =====
-- The back-off that `Failure` computes (internal/auth/limiter.go).
use Prim.Native.Nat.{min}
use m_ui.Prelude.{
  ℕ, zero, suc, ◌-◌, ◌*◌, ◌/◌, ◌%◌, ◌^◌, ◌≤◌, ◌<◌, ◌≡◌, ◌∙◌, ap, inl, inr, arith, leb, leb→le,
  Bool-cases,
}
use m_ui.Auth.Limiter.{double_delay, failure_delay}

pow-suc' : (r : ℕ) → 2 ^ suc r ≡ 2 * 2 ^ r
pow-suc' r = omega arith

one-le-pow : (r : ℕ) → 1 ≤ 2 ^ r
one-le-pow zero = omega arith
one-le-pow (suc r) = omega (arith, one-le-pow r, pow-suc' r)

capped :
    (rounds max_delay delay : ℕ)
    → max_delay / 2 ≤ delay
    → max_delay % 2 ≡ 0
    → max_delay ≡ min max_delay (delay * 2 ^ suc rounds)
capped rounds max_delay delay half even = grind (arith, one-le-pow rounds)

-- Within the cap, the loop doubles `rounds` times or reaches the cap.
double_delay-eq-min :
    (rounds max_delay delay : ℕ)
    → max_delay % 2 ≡ 0
    → delay ≤ max_delay
    → double_delay rounds max_delay delay ≡ min max_delay (delay * 2 ^ rounds)
unfolding double_delay
double_delay-eq-min zero max_delay delay even fits = omega arith
double_delay-eq-min (suc rounds) max_delay delay even fits =
    elim (Bool-cases (leb (max_delay / 2) delay)) [
      | inl half ↦ rw half (capped rounds max_delay delay (leb→le _ _ half) even)
      | inr low ↦ rw low (
          double_delay-eq-min rounds max_delay (delay * 2) even (ground arith)
          ∙ ap (min max_delay) (omega (arith, ap (λ (t : ℕ). delay * t) (pow-suc' rounds))))
    ]

-- For an even cap that is not below the base delay, the delay is the base delay doubled once for
-- every failure after the first, and capped.
pub failure_delay-eq-min :
    (base_delay max_delay n : ℕ)
    → max_delay % 2 ≡ 0
    → base_delay ≤ max_delay
    → failure_delay base_delay max_delay (suc n) ≡ min max_delay (base_delay * 2 ^ n)
unfolding failure_delay
failure_delay-eq-min base_delay max_delay n even fits =
    ground (arith, double_delay-eq-min n max_delay base_delay even fits)

double_delay-ge :
    (rounds max_delay delay : ℕ)
    → 0 < max_delay
    → 0 < delay
    → 0 < double_delay rounds max_delay delay
unfolding double_delay
double_delay-ge zero max_delay delay h k = k
double_delay-ge (suc rounds) max_delay delay h k =
    ground (arith, double_delay-ge rounds max_delay (delay * 2))

pub failure_delay-pos :
    (base_delay max_delay failures : ℕ)
    → 0 < base_delay
    → 0 < max_delay
    → 0 < failure_delay base_delay max_delay failures
unfolding failure_delay
failure_delay-pos base_delay max_delay failures h k =
    ground (arith, double_delay-ge (failures - 1) max_delay base_delay)

pub failure_delay-le-max :
    (base_delay max_delay failures : ℕ) → failure_delay base_delay max_delay failures ≤ max_delay
unfolding failure_delay
failure_delay-le-max base_delay max_delay failures = ground arith
