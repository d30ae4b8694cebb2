-- ===== src/Operation/Coordinator/Invariant.antt =====
-- What every action keeps (internal/operation/coordinator.go).
use m_ui.Prelude.{
  ℕ, ◌≡◌, refl, ◌≢◌, ◌∙◌, sym, subst, ap, Bool, true, false, ◌&&◌, ◌⊎◌, inl, inr, Option, some,
  arith, ◌==◌, Bool-cases,
}
use m_ui.Operation.Coordinator.{
  Coordinator, Pc, idle, requesting, locked, running, unlocking, deactivating, taken, busy, Move,
  start, cancel, take, no_token, lock, lock_failed, wait, refuse_busy, again, cancel_polling,
  release_local, activate, release, release_again, unlock, deactivate, return_token, update, System,
  initial,
}

-- The caller has the token of its process.
abbrev pub holds : Pc → Bool
holds idle = false
holds (requesting m) = false
holds _ = true

-- The caller has the lock on the file.
abbrev pub owns : Pc → Bool
owns locked = true
owns running = true
owns unlocking = true
owns _ = false

-- What `Active` says while the caller stands there with the token.
abbrev pub shows : Pc → Bool
shows running = true
shows unlocking = true
shows deactivating = true
shows _ = false

-- A caller with the token has taken it from the channel, and the flag is its own.
abbrev pub Fits : Pc → Coordinator → Type 0
Fits p c = (holds p && c.token ≡ false) × ((holds p && c.active) ≡ shows p)

abbrev pub Quiet : Coordinator → Type 0
Quiet c = (c.token && c.active) ≡ false

-- The mover's own part.
move-Fits :
    {i : ℕ} {c d : Coordinator} {o n : Option ℕ} {p q : Pc}
    → Move i c o p d n q
    → Quiet c
    → Fits p c
    → Fits q d × Quiet d
move-Fits (start m) k f = ground arith
move-Fits cancel k f = ground arith
move-Fits take k f = ground arith
move-Fits no_token k f = ground arith
move-Fits (lock t) k f = ground arith
move-Fits lock_failed k f = ground arith
move-Fits (wait t) k f = ground arith
move-Fits (refuse_busy t) k f = ground arith
move-Fits again k f = ground arith
move-Fits cancel_polling k f = ground arith
move-Fits release_local k f = ground arith
move-Fits activate k f = ground arith
move-Fits release k f = ground arith
move-Fits release_again k f = ground arith
move-Fits unlock k f = ground arith
move-Fits deactivate k f = ground arith
move-Fits return_token k f = ground arith

-- Another caller of the same process.
move-others :
    {i : ℕ} {c d : Coordinator} {o n : Option ℕ} {p q : Pc} (r : Pc)
    → Move i c o p d n q
    → Fits r c
    → (holds p && holds r) ≡ false
    → Fits r d × ((holds q && holds r) ≡ false)
move-others r (start m) f h = ground arith
move-others r cancel f h = ground arith
move-others r take f h = ground arith
move-others r no_token f h = ground arith
move-others r (lock t) f h = ground arith
move-others r lock_failed f h = ground arith
move-others r (wait t) f h = ground arith
move-others r (refuse_busy t) f h = ground arith
move-others r again f h = ground arith
move-others r cancel_polling f h = ground arith
move-others r release_local f h = ground arith
move-others r activate f h = ground arith
move-others r release f h = ground arith
move-others r release_again f h = ground arith
move-others r unlock f h = ground arith
move-others r deactivate f h = ground arith
move-others r return_token f h = ground arith

-- The caller that has the lock on the file is its owner.
abbrev pub Owned : ℕ → Pc → Option ℕ → Type 0
Owned i p o = (owns p ≡ false) ⊎ (o ≡ some i)

move-Owned :
    {i : ℕ} {c d : Coordinator} {o n : Option ℕ} {p q : Pc}
    → Move i c o p d n q
    → Owned i p o
    → Owned i q n
move-Owned (start m) w = ground arith
move-Owned cancel w = ground arith
move-Owned take w = ground arith
move-Owned no_token w = ground arith
move-Owned (lock taken) w = inr refl
move-Owned lock_failed w = ground arith
move-Owned (wait t) w = ground arith
move-Owned (refuse_busy t) w = ground arith
move-Owned again w = ground arith
move-Owned cancel_polling w = ground arith
move-Owned release_local w = ground arith
move-Owned activate w = ground arith
move-Owned release w = ground arith
move-Owned release_again w = ground arith
move-Owned unlock w = ground arith
move-Owned deactivate w = ground arith
move-Owned return_token w = ground arith

pub some-injective : {i j : ℕ} → ◌≡◌ {A = Option ℕ} (some i) (some j) → i ≡ j
some-injective h = cc

owner_clash : {i j : ℕ} {o : Option ℕ} → i ≢ j → o ≡ some i → o ≡ some j → ⊥
owner_clash {i} {j} ne h k = let same : some i ≡ some j = sym h ∙ k in ne (some-injective same)

move-Owned_others :
    {i : ℕ} {c d : Coordinator} {o n : Option ℕ} {p q : Pc} (j : ℕ) (r : Pc)
    → i ≢ j
    → Move i c o p d n q
    → Owned i p o
    → Owned j r o
    → Owned j r n
move-Owned_others j r ne (start m) w v = v
move-Owned_others j r ne cancel w v = v
move-Owned_others j r ne take w v = v
move-Owned_others j r ne no_token w v = v
move-Owned_others j r ne (lock taken) w (inl v) = inl v
move-Owned_others j r ne (lock taken) w (inr v) = cc
move-Owned_others j r ne lock_failed w v = v
move-Owned_others j r ne (wait busy) w v = v
move-Owned_others j r ne (refuse_busy busy) w v = v
move-Owned_others j r ne again w v = v
move-Owned_others j r ne cancel_polling w v = v
move-Owned_others j r ne release_local w v = v
move-Owned_others j r ne activate w v = v
move-Owned_others j r ne release w v = v
move-Owned_others j r ne release_again w v = v
move-Owned_others j r ne unlock w (inl v) = inl v
move-Owned_others j r ne unlock (inl w) (inr v) = cc
move-Owned_others j r ne unlock (inr w) (inr v) = absurd (owner_clash ne w v)
move-Owned_others j r ne deactivate w v = v
move-Owned_others j r ne return_token w v = v

-- What holds of the whole system.
pub record Inv (home : ℕ → ℕ) (s : System) : Type 0 where
  pub fits : (i : ℕ) → Fits (s.pc i) (s.coordinator (home i))
  pub quiet : (p : ℕ) → Quiet (s.coordinator p)
  pub owned : (i : ℕ) → Owned i (s.pc i) s.owner
  pub alone : (i j : ℕ) → i ≢ j → home i ≡ home j → (holds (s.pc i) && holds (s.pc j)) ≡ false

pub Inv-initial : (home : ℕ → ℕ) → Inv home initial
Inv-initial home = record {
  fits = λ i. (refl, refl);
  quiet = λ p. refl;
  owned = λ i. inl refl;
  alone = λ i j ne same. refl;
}

module _ {A : Type 0} (f : ℕ → A) (i : ℕ) (a : A) where
  update-same : (j : ℕ) → i ≡ j → update f i a j ≡ a
  update-same j h = let hit : (i == j) ≡ true = ground arith in rw hit refl

  update-ne : (j : ℕ) → i ≢ j → update f i a j ≡ f j
  update-ne j h = let miss : (i == j) ≡ false = ground arith in rw miss refl

number-cases : (i j : ℕ) → (i ≡ j) ⊎ (i ≢ j)
number-cases i j = elim (Bool-cases (i == j)) [
  | inl e ↦ inl (ground arith)
  | inr e ↦ inr (ground arith)
]

pub Inv-move :
    (home : ℕ → ℕ) (s : System) (i : ℕ) {d : Coordinator} {n : Option ℕ} {q : Pc}
    → Inv home s
    → Move i (s.coordinator (home i)) s.owner (s.pc i) d n q
    → Inv home
        (record { coordinator = update s.coordinator (home i) d; owner = n; pc = update s.pc i q })
Inv-move home s i {d} {n} {q} inv move = record {
  fits = λ j. elim (number-cases i j) [
    | inl e ↦
        rw (update-same s.pc i q j e)
          (rw (update-same s.coordinator (home i) d (home j) (ap home e)) own.0)
    | inr e ↦ rw (update-ne s.pc i q j e) (elim (number-cases (home i) (home j)) [
      | inl h ↦ rw (update-same s.coordinator (home i) d (home j) h) (other j e h).0
      | inr h ↦ rw (update-ne s.coordinator (home i) d (home j) h) (inv.fits j)
    ])
  ];
  quiet = λ p. elim (number-cases (home i) p) [
    | inl h ↦ rw (update-same s.coordinator (home i) d p h) own.1
    | inr h ↦ rw (update-ne s.coordinator (home i) d p h) (inv.quiet p)
  ];
  owned = λ j. elim (number-cases i j) [
    | inl e ↦
        rw (update-same s.pc i q j e) (subst (λ k. Owned k q n) e (move-Owned move (inv.owned i)))
    | inr e ↦
        rw (update-ne s.pc i q j e)
          (move-Owned_others j (s.pc j) e move (inv.owned i) (inv.owned j))
  ];
  alone = λ j k ne same. elim (number-cases i j) [
    | inl e ↦
        let apart : i ≢ k = subst (λ x. x ≢ k) (sym e) ne in
        rw (update-same s.pc i q j e)
          (rw (update-ne s.pc i q k apart) (other k apart (ap home e ∙ same)).1)
    | inr e ↦ rw (update-ne s.pc i q j e) (elim (number-cases i k) [
      | inl f ↦
          rw (update-same s.pc i q k f)
            (let both = (other j e (ap home f ∙ sym same)).1 in ground arith)
      | inr f ↦ rw (update-ne s.pc i q k f) (inv.alone j k ne same)
    ])
  ];
}
  where
    own : Fits q d × Quiet d
    own = move-Fits move (inv.quiet (home i)) (inv.fits i)

    other :
        (j : ℕ) → i ≢ j → home i ≡ home j → Fits (s.pc j) d × ((holds q && holds (s.pc j)) ≡ false)
    other j ne same =
        move-others (s.pc j) move
          (subst (λ p. Fits (s.pc j) (s.coordinator p)) (sym same) (inv.fits j))
          (inv.alone i j ne same)
