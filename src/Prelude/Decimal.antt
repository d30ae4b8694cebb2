-- ===== src/Prelude/Decimal.antt =====
-- A number that is printed is read back.
use Prim.Native.Nat.{ℕ, zero, suc, ◌+◌, ◌*◌, ◌/◌, ◌%◌, ◌^◌, ◌≤◌, ◌<◌}
use mathlib.Core.Path.{◌≡◌, refl, subst, ◌∙◌}
use mathlib.Core.Logic.{inl, inr}
use mathlib.Core.Bool.{Bool, true, false, ◌&&◌}
use mathlib.Core.Option.{some}
use mathlib.Core.List.{[], ◌∷◌}
use native.Mathlib.Omega.{arith}
use m_ui.Prelude.Tests.{ltb, Bool-cases}
use m_ui.Prelude.Strings.{Text, is_digit, scan_digits, parse_uint, digits}

ten_pow_suc : (r : ℕ) → 10 ^ suc r ≡ 10 * 10 ^ r
ten_pow_suc r = omega arith

scan_last :
    (max n : ℕ) (out : Text)
    → n ≤ max
    → scan_digits max ((b'0' + n % 10) ∷ out) (n / 10) ≡ scan_digits max out n
unfolding scan_digits
scan_last max n out h = ground arith

scan_digits-digits :
    (max fuel n : ℕ) (out : Text)
    → n < 10 ^ fuel
    → n ≤ max
    → scan_digits max (digits fuel n out) 0 ≡ scan_digits max out n
unfolding digits
scan_digits-digits max zero n out h k = let is_zero : n ≡ 0 = omega arith in rw is_zero refl
scan_digits-digits max (suc fuel) n out h k = elim (Bool-cases (ltb n 10)) [
  | inl e ↦ rw e (
      let none_before : n / 10 ≡ 0 = ground arith in
      subst (λ q. scan_digits max ((b'0' + n % 10) ∷ out) q ≡ scan_digits max out n) none_before
        (scan_last max n out k))
  | inr e ↦ rw e (
      scan_digits-digits max fuel (n / 10) ((b'0' + n % 10) ∷ out) (omega (arith, ten_pow_suc fuel))
        (omega arith)
      ∙ scan_last max n out k)
]

-- All characters are digits.
abbrev pub all_digits : Text → Bool
all_digits [] = true
all_digits (c ∷ s) = is_digit c && all_digits s

abbrev is_filled : Text → Bool
is_filled [] = false
is_filled (c ∷ s) = true

digits-filled :
    (fuel n : ℕ) (out : Text) → is_filled out ≡ true → is_filled (digits fuel n out) ≡ true
unfolding digits
digits-filled zero n out h = h
digits-filled (suc fuel) n out h = elim (Bool-cases (ltb n 10)) [
  | inl e ↦ rw e refl
  | inr e ↦ rw e (digits-filled fuel (n / 10) ((b'0' + n % 10) ∷ out) refl)
]

pub all_digits-digits :
    (fuel n : ℕ) (out : Text) → all_digits out ≡ true → all_digits (digits fuel n out) ≡ true
unfolding digits
all_digits-digits zero n out h = h
all_digits-digits (suc fuel) n out h =
    let one : all_digits ((b'0' + n % 10) ∷ out) ≡ true = ground arith in
    elim (Bool-cases (ltb n 10)) [
      | inl e ↦ rw e one
      | inr e ↦ rw e (all_digits-digits fuel (n / 10) ((b'0' + n % 10) ∷ out) one)
    ]

first_filled : (fuel n : ℕ) → is_filled (digits (suc fuel) n []) ≡ true
unfolding digits
first_filled fuel n = elim (Bool-cases (ltb n 10)) [
  | inl e ↦ rw e refl
  | inr e ↦ rw e (digits-filled fuel (n / 10) ((b'0' + n % 10) ∷ []) refl)
]

parse-scan : (max : ℕ) (s : Text) → is_filled s ≡ true → parse_uint max s ≡ scan_digits max s 0
unfolding parse_uint
parse-scan max [] h = cc
parse-scan max (c ∷ s) h = refl

pub parse_uint-digits :
    (max fuel n : ℕ)
    → n < 10 ^ suc fuel
    → n ≤ max
    → parse_uint max (digits (suc fuel) n []) ≡ some n
unfolding scan_digits
parse_uint-digits max fuel n h k =
    parse-scan max (digits (suc fuel) n []) (first_filled fuel n)
    ∙ scan_digits-digits max (suc fuel) n [] h k
