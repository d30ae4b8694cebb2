-- ===== src/Publisher/Agreement/Activate.antt =====
-- The activation in the transaction and its commit (`ActivateRevision` and `Commit` of
-- internal/store/managed.go, the end of `publishLocked` of internal/publisher/publisher.go).
use m_ui.Prelude.{
  ℕ, true, ◌≡◌, refl, ◌∙◌, sym, ap, subst, none, some, List, [], ◌∷◌, arith, ◌==◌, map,
}
use m_ui.Publisher.World.{Env, Core, Tables, Revision, active, pending}
use m_ui.Publisher.Monad.{
  Result, ok, err, pending_revision_not_found, call_failed, read_tables, write_tables, call_failed,
}
use m_ui.Publisher.Rows.{actives, is_target, retire_row, promote_row, affected}
use m_ui.Publisher.Store.{update_tx, in_tx, activate_revision, into_tx, read_tx}
use m_ui.Publisher.Agreement.{Seen, seen}
use m_ui.Publisher.Agreement.Restore.{ok-injective}
use m_ui.Publisher.Triple.{Triple, bind, executes, observes, guards, Pred}

actives-retire : (rs : List Revision) → actives (map retire_row rs) ≡ []
unfolding retire_row
actives-retire [] = refl
actives-retire (r ∷ rs) = ground (arith, actives-retire rs)

promote-none :
    (id at : ℕ) (rs : List Revision) → affected id rs ≡ 0 → map (promote_row id at) rs ≡ rs
unfolding promote_row
promote-none id at [] h = refl
promote-none id at (r ∷ rs) h = ground (arith, promote-none id at rs)

abbrev pub promoted : ℕ → Revision → Revision
promoted at r = record r { status = active; activated_at = some at; error_message = none }

retire-pending : (r : Revision) → r.status ≡ pending → retire_row r ≡ r
unfolding retire_row
retire-pending r h = rw h refl

target-pending : (r : Revision) → r.status ≡ pending → is_target r.id r ≡ true
target-pending r h = rw h (ground arith)

promote-target :
    (id at : ℕ) (r : Revision) → is_target id r ≡ true → promote_row id at r ≡ promoted at r
unfolding promote_row
promote-target id at r h = rw h refl

affected-tail :
    (id : ℕ) (r : Revision) (rest : List Revision)
    → is_target id r ≡ true
    → affected id (r ∷ rest) ≡ 1
    → affected id rest ≡ 0
affected-tail id r rest t h = ground arith

-- The row that was inserted is the one that is activated, and the only active one.
pub actives-promote :
    (at : ℕ) (r : Revision) (rest : List Revision)
    → r.status ≡ pending
    → affected r.id (map retire_row (r ∷ rest)) ≡ 1
    → actives (map (promote_row r.id at) (map retire_row (r ∷ rest))) ≡ promoted at r ∷ []
actives-promote at r rest h one =
    let none_left : affected r.id (map retire_row rest) ≡ 0 =
      affected-tail r.id r (map retire_row rest) (target-pending r h)
        (subst (λ q. affected r.id (q ∷ map retire_row rest) ≡ 1) (retire-pending r h) one) in
    rw
      (
        retire-pending r h,
        promote-target r.id at r (target-pending r h),
        promote-none r.id at (map retire_row rest) none_left,
        actives-retire rest,
      )
      refl

module _ ⦃env : Env⦄ where
  -- What is seen, and what the open transaction has in its tables.
  abbrev pub InTx : (Seen → Type 0) → (Tables env.State → Type 0) → Pred
  InTx F I c = (t : Tables env.State) × (c.tx ≡ some t) × F (seen c) × I t

  pub seen_in_tx :
      (F : Seen → Type 0) (I : Tables env.State → Type 0) (c : Core env.State)
      → InTx F I c
      → F (seen c)
  seen_in_tx F I c (t, is_t, s, i) = s

  written :
      (f : Tables env.State → Result (Tables env.State)) (F : Seen → Type 0)
      (I N : Tables env.State → Type 0) (c d : Core env.State) (t : Tables env.State)
      (r : Result (Tables env.State))
      → ((t u : Tables env.State) → f t ≡ ok u → I t → N u)
      → f t ≡ r
      → into_tx c r ≡ ok d
      → F (seen c)
      → I t
      → InTx F N d
  written f F I N c d t (ok u) k e h s i =
      let to_d : record c { tx = some u } ≡ d = ok-injective _ _ h in
      subst (InTx F N) to_d (u, refl, s, k t u e i)
  written f F I N c d t (err es) k e h s i = cc

  pub update_tx-finds :
      (f : Tables env.State → Result (Tables env.State)) (F : Seen → Type 0)
      (I N : Tables env.State → Type 0)
      → ((t u : Tables env.State) → f t ≡ ok u → I t → N u)
      → Triple (λ c. InTx F I c) (update_tx f) (λ _ c. InTx F N c) (λ _ c. F (seen c))
  unfolding update_tx
  update_tx-finds f F I N k =
      executes (λ c. into_tx c (read_tx c.tx f)) (call_failed write_tables)
        (λ c d e (t, is_t, s, i).
          written f F I N c d t (f t) k refl (subst (λ o. into_tx c (read_tx o f) ≡ ok d) is_t e) s
            i)
        (λ c d e (t, is_t, s, i). (
          s,
          seen_in_tx F N d (
              written f F I N c d t (f t) k refl
                (subst (λ o. into_tx c (read_tx o f) ≡ ok d) is_t e) s i),
        ))
        (λ es c e (t, is_t, s, i). s)

  pub in_tx-finds :
      {A : Type 0} (f : Tables env.State → Result A) (F : Seen → Type 0)
      (I : Tables env.State → Type 0)
      → Triple
          (λ c. InTx F I c)
          (in_tx f)
          (λ a c. InTx F (λ t. I t × (f t ≡ ok a)) c)
          (λ _ c. F (seen c))
  unfolding in_tx
  in_tx-finds f F I =
      observes (λ c. read_tx c.tx f) (call_failed read_tables)
        (λ a c e (t, is_t, s, i). (t, is_t, s, (i, subst (λ o. read_tx o f ≡ ok a) is_t e)))
        (λ es c (t, is_t, s, i). s)

  -- The new row is in the transaction.
  abbrev pub Pending : Revision → Tables env.State → Type 0
  Pending r t = (rest : List Revision) × (t.revisions ≡ r ∷ rest)

  abbrev pub Activated : Revision → ℕ → Tables env.State → Type 0
  Activated r at t = actives t.revisions ≡ promoted at r ∷ []

  abbrev Retired : Revision → Tables env.State → Type 0
  Retired r t = (rest : List Revision) × (t.revisions ≡ map retire_row (r ∷ rest))

  abbrev Promoted : Revision → ℕ → ℕ → Tables env.State → Type 0
  Promoted r at count t =
      (rest : List Revision) × (t.revisions ≡ map (promote_row r.id at) (map retire_row (r ∷ rest)))
      × (affected r.id (map retire_row (r ∷ rest)) ≡ count)

  retired :
      (r : Revision) (t u : Tables env.State)
      → ok (record t { revisions = map retire_row t.revisions }) ≡ ok u
      → Pending r t
      → Retired r u
  retired r t u e (rest, h) = (
    rest,
    sym (ap (λ (q : Tables env.State). q.revisions) (ok-injective _ _ e)) ∙ ap (map retire_row) h,
  )

  promotes :
      (r : Revision) (at count : ℕ) (t u : Tables env.State)
      → ok (record t { revisions = map (promote_row r.id at) t.revisions }) ≡ ok u
      → Retired r t × (ok (affected r.id t.revisions) ≡ ok count)
      → Promoted r at count u
  promotes r at count t u e ((rest, h), n) = (
    rest,
    sym (ap (λ (q : Tables env.State). q.revisions) (ok-injective _ _ e))
        ∙ ap (map (promote_row r.id at)) h,
    ap (affected r.id) (sym h) ∙ ok-injective _ _ n,
  )

  pub activate_revision-Activated :
      (r : Revision) (at : ℕ) (F : Seen → Type 0)
      → r.status ≡ pending
      → Triple
          (λ c. InTx F (Pending r) c)
          (activate_revision r.id at)
          (λ _ c. InTx F (Activated r at) c)
          (λ _ c. F (seen c))
  unfolding activate_revision
  activate_revision-Activated r at F h =
      bind
        (update_tx-finds (λ t. ok (record t { revisions = map retire_row t.revisions })) F
          (Pending r) (Retired r) (retired r))
        (λ _. bind (in_tx-finds (λ t. ok (affected r.id t.revisions)) F (Retired r)) (λ count.
          bind
            (update_tx-finds
              (λ t. ok (record t { revisions = map (promote_row r.id at) t.revisions })) F
              (λ t. Retired r t × (ok (affected r.id t.revisions) ≡ ok count)) (Promoted r at count)
              (promotes r at count))
            (λ _.
              guards (count == 1) pending_revision_not_found
                (λ c e (t, is_t, s, (rest, rows, one)).
                  (t, is_t, s, ap actives rows ∙ actives-promote at r rest h (one ∙ ground arith)))
                (λ c e (t, is_t, s, i). s))))
