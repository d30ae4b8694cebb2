-- ===== src/Prelude/Keys.antt =====
-- A Go map as an association list. The key type brings its own Boolean equality.
use mathlib.Core.Path.{◌≡◌, refl, subst}
use mathlib.Core.Logic.{◌↔◌, inl, inr}
use mathlib.Core.Bool.{Bool, true, false}
use mathlib.Core.Option.{Option, none, some}
use mathlib.Core.List.{List, [], ◌∷◌}
use native.Mathlib.Omega.{arith}
use m_ui.Prelude.Tests.{if◌then◌else◌, Bool-cases}

pub record Key {ℓ} (K : Type ℓ) : Type ℓ where
  pub beq : K → K → Bool
  pub beq_iff : (a b : K) → (beq a b ≡ true) ↔ (a ≡ b)

module _ {ℓ κ} {K : Type ℓ} {V : Type κ} ⦃k : Key K⦄ where
  -- `m[key]`, with the second result of the comma-ok form as the option.
  unfoldable pub lookup : K → List (K × V) → Option V
  lookup a [] = none
  lookup a ((b, v) ∷ m) = if k.beq b a then some v else lookup a m

  -- The empty map has no key.
  pub lookup-nil : (a : K) → lookup a [] ≡ none
  unfolding lookup
  lookup-nil a = refl

  -- `m[key] = value`.
  pub insert : K → V → List (K × V) → List (K × V)
  insert a v [] = (a, v) ∷ []
  insert a v ((b, w) ∷ m) = if k.beq b a then (a, v) ∷ m else (b, w) ∷ insert a v m

  -- `delete(m, key)`.
  pub delete : K → List (K × V) → List (K × V)
  delete a [] = []
  delete a ((b, w) ∷ m) = let rest = delete a m in if k.beq b a then rest else (b, w) ∷ rest

  -- `for key, value := range m { if gone(value) { delete(m, key) } }`.
  pub sweep : (V → Bool) → List (K × V) → List (K × V)
  sweep gone [] = []
  sweep gone ((b, w) ∷ m) = let rest = sweep gone m in if gone w then rest else (b, w) ∷ rest

  pub lookup-insert :
      (a b : K) (v : V) (m : List (K × V))
      → lookup b (insert a v m) ≡ (if k.beq a b then some v else lookup b m)
  unfolding lookup insert
  lookup-insert a b v [] = refl
  lookup-insert a b v ((c, w) ∷ m) =
      ground (arith, k.beq_iff a b, k.beq_iff c a, k.beq_iff c b, lookup-insert a b v m)

  pub lookup-delete :
      (a b : K) (m : List (K × V))
      → lookup b (delete a m) ≡ (if k.beq a b then none else lookup b m)
  unfolding lookup delete
  lookup-delete a b [] = ground arith
  lookup-delete a b ((c, w) ∷ m) =
      ground (arith, k.beq_iff a b, k.beq_iff c a, k.beq_iff c b, lookup-delete a b m)

  -- No key stands twice.
  abbrev pub Distinct : List (K × V) → Type κ
  Distinct [] = Unit
  Distinct ((b, w) ∷ m) = (lookup b m ≡ none) × Distinct m

  pub lookup-sweep-none :
      (gone : V → Bool) (b : K) (m : List (K × V))
      → lookup b m ≡ none
      → lookup b (sweep gone m) ≡ none
  unfolding lookup sweep
  lookup-sweep-none gone b [] h = refl
  lookup-sweep-none gone b ((c, w) ∷ m) h = ground (arith, lookup-sweep-none gone b m)

  pub lookup-sweep_kept :
      (gone : V → Bool) (b : K) (v : V) (m : List (K × V))
      → lookup b m ≡ some v
      → gone v ≡ false
      → lookup b (sweep gone m) ≡ some v
  unfolding lookup sweep
  lookup-sweep_kept gone b v [] h g = h
  lookup-sweep_kept gone b v ((c, w) ∷ m) h g = ground (arith, lookup-sweep_kept gone b v m)

  pub lookup-sweep_gone :
      (gone : V → Bool) (b : K) (v : V) (m : List (K × V))
      → Distinct m
      → lookup b m ≡ some v
      → gone v ≡ true
      → lookup b (sweep gone m) ≡ none
  unfolding lookup sweep
  lookup-sweep_gone gone b v [] d h g = cc
  lookup-sweep_gone gone b v ((c, w) ∷ m) d h g =
      ground
        (arith, k.beq_iff c b, lookup-sweep_gone gone b v m d.1, lookup-sweep-none gone c m d.0)

  pub insert-Distinct : (a : K) (v : V) (m : List (K × V)) → Distinct m → Distinct (insert a v m)
  unfolding insert lookup
  insert-Distinct a v [] d = (refl, tt)
  insert-Distinct a v ((c, w) ∷ m) d =
      ground (arith, k.beq_iff c a, k.beq_iff a c, insert-Distinct a v m d.1, lookup-insert a c v m)

  pub delete-Distinct : (a : K) (m : List (K × V)) → Distinct m → Distinct (delete a m)
  unfolding delete
  delete-Distinct a [] d = tt
  delete-Distinct a ((c, w) ∷ m) d = ground (arith, delete-Distinct a m d.1, lookup-delete a c m)

  pub sweep-Distinct : (gone : V → Bool) (m : List (K × V)) → Distinct m → Distinct (sweep gone m)
  unfolding sweep
  sweep-Distinct gone [] d = tt
  sweep-Distinct gone ((c, w) ∷ m) d =
      ground (arith, sweep-Distinct gone m d.1, lookup-sweep-none gone c m d.0)

  -- A property of every value, kept by the three writes.
  abbrev pub Values {μ} : (V → Type μ) → List (K × V) → Type μ
  Values P [] = Unit
  Values P ((b, w) ∷ m) = P w × Values P m

  pub Values-lookup {μ} :
      (P : V → Type μ) (b : K) (v : V) (m : List (K × V)) → Values P m → lookup b m ≡ some v → P v
  unfolding lookup
  Values-lookup P b v [] h e = cc
  Values-lookup P b v ((c, w) ∷ m) h e = elim (Bool-cases (k.beq c b)) [
    | inl hit ↦ subst P (ground arith) h.0
    | inr miss ↦ Values-lookup P b v m h.1 (ground arith)
  ]

  pub insert-Values {μ} :
      (P : V → Type μ) (a : K) (v : V) (m : List (K × V))
      → P v
      → Values P m
      → Values P (insert a v m)
  unfolding insert
  insert-Values P a v [] p h = (p, tt)
  insert-Values P a v ((c, w) ∷ m) p h = elim (Bool-cases (k.beq c a)) [
    | inl hit ↦ rw hit (p, h.1)
    | inr miss ↦ rw miss (h.0, insert-Values P a v m p h.1)
  ]

  pub delete-Values {μ} :
      (P : V → Type μ) (a : K) (m : List (K × V)) → Values P m → Values P (delete a m)
  unfolding delete
  delete-Values P a [] h = tt
  delete-Values P a ((c, w) ∷ m) h = elim (Bool-cases (k.beq c a)) [
    | inl hit ↦ rw hit (delete-Values P a m h.1)
    | inr miss ↦ rw miss (h.0, delete-Values P a m h.1)
  ]

  pub sweep-Values {μ} :
      (P : V → Type μ) (gone : V → Bool) (m : List (K × V)) → Values P m → Values P (sweep gone m)
  unfolding sweep
  sweep-Values P gone [] h = tt
  sweep-Values P gone ((c, w) ∷ m) h = elim (Bool-cases (gone w)) [
    | inl hit ↦ rw hit (sweep-Values P gone m h.1)
    | inr miss ↦ rw miss (h.0, sweep-Values P gone m h.1)
  ]
