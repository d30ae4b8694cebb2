-- ===== src/Domain/Distinct.antt =====
-- Loops that refuse a key that stands among those seen before, and checks without a problem.
use Prim.Native.String.{String}
use m_ui.Prelude.{
  ◌≡◌, refl, ap, ◌≢◌, Bool, true, false, List, [], ◌∷◌, ◌++◌, arith, All, Text, text_eq_refl,
  one_of,
}
use m_ui.Domain.Checks.{Problems, refuse, join}

pub refuse-nil : (b : Bool) (message : String) → refuse b message ≡ [] → b ≡ false
refuse-nil true message h = cc
refuse-nil false message h = refl

module _ {ℓ} {A : Type ℓ} where
  pub left_nil : (xs ys : List A) → xs ++ ys ≡ [] → xs ≡ []
  left_nil [] ys h = refl
  left_nil (x ∷ xs) ys h = cc

  pub right_nil : (xs ys : List A) → xs ++ ys ≡ [] → ys ≡ []
  right_nil [] ys h = h
  right_nil (x ∷ xs) ys h = cc

  pub both_nil : {xs ys : List A} → xs ≡ [] → ys ≡ [] → xs ++ ys ≡ []
  both_nil {xs} {ys} h k = rw h k

  pub append_nil : (xs : List A) → xs ++ [] ≡ xs
  append_nil [] = refl
  append_nil (x ∷ xs) = ap (λ t. x ∷ t) (append_nil xs)

  -- Every two members, in their order.
  abbrev pub Pairs {κ} : (A → A → Type κ) → List A → Type κ
  Pairs R [] = Unit
  Pairs R (x ∷ xs) = All (R x) xs × Pairs R xs

  -- Each key is new to those seen before.
  abbrev pub Fresh : (A → Text) → List Text → List A → Type 0
  Fresh key seen [] = Unit
  Fresh key seen (x ∷ xs) = (one_of (key x) seen ≡ false) × Fresh key (key x ∷ seen) xs

  abbrev pub Unlike : (A → Text) → A → A → Type 0
  Unlike key x y = key x ≢ key y

  -- Members whose keys are new to a larger list are unlike each member of it.
  apart_from :
      (key : A → Text) (k : Text) (seen : List Text) (xs : List A)
      → ((v : Text) → one_of v seen ≡ false → k ≢ v)
      → Fresh key seen xs
      → All (λ (y : A). k ≢ key y) xs
  apart_from key k seen [] sep f = tt
  apart_from key k seen (x ∷ xs) sep f =
      (sep (key x) f.0, apart_from key k (key x ∷ seen) xs (λ v e. sep v (ground arith)) f.1)

  pub Fresh-Pairs :
      (key : A → Text) (seen : List Text) (xs : List A) → Fresh key seen xs → Pairs (Unlike key) xs
  Fresh-Pairs key seen [] f = tt
  Fresh-Pairs key seen (x ∷ xs) f = (
    apart_from key (key x) (key x ∷ seen) xs (λ v e same. ground (arith, text_eq_refl v)) f.1,
    Fresh-Pairs key (key x ∷ seen) xs f.1,
  )

abbrev pub Passed : Problems → Type 0
Passed problems = problems ≡ []

pub join-Passed : (checks : List Problems) → join checks ≡ [] → All Passed checks
join-Passed [] h = tt
join-Passed (problems ∷ checks) h =
    (left_nil problems (join checks) h, join-Passed checks (right_nil problems (join checks) h))
