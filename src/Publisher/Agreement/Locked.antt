-- ===== src/Publisher/Agreement/Locked.antt =====
-- A publication under the operation lock (`publishLocked` of internal/publisher/publisher.go).
use m_ui.Prelude.{ℕ, Bool, ◌≡◌, refl, sym, subst, inl, Option, none, some, List}
use m_ui.Publisher.World.{Env, Options, Core, Tables, candidate, Revision}
use m_ui.Publisher.Monad.{
  Result, ok, Fault, durable_state_mismatch, guard, call_failed, begin_transaction,
}
use m_ui.Publisher.Files.{remove_file_at}
use m_ui.Publisher.Rows.{actives, one_active}
use m_ui.Publisher.Store.{
  begin_immediate, rollback, active_revision, next_revision_number, update_tx, desired_state,
  when_unlocked,
}
use m_ui.Publisher.Request.{Request}
use m_ui.Publisher.Commit.{or_else}
use m_ui.Publisher.Publish.{
  matches_old, old_time, run_mutation, new_revision, publish_in_transaction, publish_locked,
}
use m_ui.Publisher.View.{Keeps, guard-Keeps, new_id-Keeps}
use m_ui.Publisher.Keeps.{in_tx-Keeps}
use m_ui.Publisher.Triple.{Triple, bind, weaken, deferred, executes}
use m_ui.Publisher.Agreement.{
  seen, InSync, Failed, Keeps-Calm, rollback-Calm, remove_candidate-Calm,
}
use m_ui.Publisher.Agreement.Restore.{ok-injective}
use m_ui.Publisher.Agreement.Reconcile.{IsPublished, under}
use m_ui.Publisher.Agreement.Activate.{InTx, update_tx-finds, in_tx-finds}
use m_ui.Publisher.Agreement.Drift.{Before, Before-InSync}
use m_ui.Publisher.Agreement.Landing.{clock}
use m_ui.Publisher.Agreement.Archive.{Opened, quiet}
use m_ui.Publisher.Agreement.Verified.{verify_previous-IsVerified}
use m_ui.Publisher.Agreement.Whole.{cleaned, still, compiles, prepare_publication-Returns}
use m_ui.Publisher.Agreement.Preflight.{preflight-Keeps}

module _ ⦃env : Env⦄ where
  -- What the transaction starts from.
  abbrev Copied : List Revision → Tables env.State → Type 0
  Copied rs t = actives t.revisions ≡ rs

  active_revision-one :
      (rs : List Revision)
      → Triple
          (λ c. InTx (Before rs) (Copied rs) c)
          active_revision
          (λ old c. (one_active rs ≡ ok old) × InTx (Before rs) (Copied rs) c)
          (λ es c. Failed es (seen c))
  unfolding active_revision
  active_revision-one rs =
      weaken (in_tx-finds (λ t. one_active (actives t.revisions)) (Before rs) (Copied rs))
        (λ c h. h)
        (λ old c (t, is_t, s, (i, e)). (subst (λ l. one_active l ≡ ok old) i e, (t, is_t, s, i)))
        (λ _ c h. inl (Before-InSync rs (seen c) h))

  desired_state-Keeps : (at : ℕ) → Keeps (desired_state at)
  unfolding desired_state
  desired_state-Keeps at = in_tx-Keeps _

  next_number-Keeps : Keeps next_revision_number
  unfolding next_revision_number
  next_number-Keeps = in_tx-Keeps _

  mutates :
      (f : Tables env.State → Result (Tables env.State)) (rs : List Revision)
      → Triple
          (λ c. InTx (Before rs) (Copied rs) c)
          (update_tx f)
          (λ _ c. InTx (Before rs) Opened c)
          (λ es c. Failed es (seen c))
  mutates f rs =
      weaken (update_tx-finds f (Before rs) (Copied rs) Opened (λ t u e i. tt)) (λ c h. h)
        (λ _ c h. h) (λ _ c h. inl (Before-InSync rs (seen c) h))

  matched :
      (b : Bool) (rs : List Revision)
      → Triple
          (λ c. InTx (Before rs) (Copied rs) c)
          (guard b durable_state_mismatch)
          (λ _ c. InTx (Before rs) (Copied rs) c)
          (λ es c. Failed es (seen c))
  matched b rs = still rs (Copied rs) (guard-Keeps b durable_state_mismatch)

  pub publish_in_transaction-Returns :
      (options : Options) (request : Request) (at effective_at : ℕ) (rs : List Revision)
      → Triple
          (λ c. InTx (Before rs) (Copied rs) c)
          (publish_in_transaction options request at effective_at)
          (λ q c. IsPublished q (seen c))
          (λ es c. Failed es (seen c))
  unfolding publish_in_transaction
  publish_in_transaction-Returns options request at effective_at rs =
      bind (active_revision-one rs) (λ old. under (λ one.
        bind (verify_previous-IsVerified old rs (Copied rs) one) (λ verified. under (λ known.
          bind
            (still rs (Copied rs)
              (desired_state-Keeps (old_time options request verified effective_at)))
            (λ old_state. bind (compiles rs (Copied rs) old_state) (λ old_compiled.
              bind (matched (matches_old options request old (env.sha256 old_compiled)) rs) (λ _.
                bind (mutates (run_mutation options request request.mutate) rs) (λ _.
                  bind (still rs Opened (desired_state-Keeps effective_at)) (λ state.
                    bind (compiles rs Opened state) (λ compiled.
                      bind (still rs Opened next_number-Keeps) (λ number.
                        bind (still rs Opened new_id-Keeps) (λ id.
                          let r = new_revision options request id number compiled at in
                          weaken
                            (cleaned (remove_file_at (candidate id)) r (remove_candidate-Calm id) (
                              prepare_publication-Returns options request old verified
                                (env.sha256 old_compiled)
                                (old_time options request verified effective_at) effective_at r
                                state compiled rs one known
                                (record { yaml = refl; snapshot = refl }) refl refl))
                            (λ c h. h) (λ _ c h. h.1) (λ _ c h. h)))))))))))))

  opened :
      (c d : Core env.State) (t : Option (Tables env.State)) (e : Fault)
      → when_unlocked t e (ok (record c { tx = some c.db })) ≡ ok d
      → record c { tx = some c.db } ≡ d
  opened c d none e h = ok-injective _ _ h
  opened c d (some t) e h = cc

  begin_immediate-Copied :
      (rs : List Revision)
      → Triple
          (λ c. Before rs (seen c))
          begin_immediate
          (λ _ c. InTx (Before rs) (Copied rs) c)
          (λ es c. Failed es (seen c))
  unfolding begin_immediate
  begin_immediate-Copied rs =
      executes
        (λ c. when_unlocked c.tx (call_failed begin_transaction) (ok (record c { tx = some c.db })))
        (call_failed begin_transaction)
        (λ c d e h.
          subst (InTx (Before rs) (Copied rs)) (opened c d c.tx (call_failed begin_transaction) e)
            (c.db, refl, h, h.0))
        (λ c d e h. (
          inl (Before-InSync rs (seen c) h),
          inl (
              subst (λ (q : Core env.State). InSync (seen q))
                (opened c d c.tx (call_failed begin_transaction) e) (Before-InSync rs (seen c) h)),
        ))
        (λ es c e h. inl (Before-InSync rs (seen c) h))

  publish_locked-Before :
      (options : Options) (request : Request) (rs : List Revision)
      → Triple
          (λ c. Before rs (seen c))
          (publish_locked options request)
          (λ q c. IsPublished q (seen c))
          (λ es c. Failed es (seen c))
  unfolding publish_locked
  publish_locked-Before options request rs =
      bind (quiet rs (Keeps-Calm (preflight-Keeps options request))) (λ _.
        bind (clock (λ c. Before rs (seen c))) (λ at. bind (begin_immediate-Copied rs) (λ _.
          deferred rollback
            (publish_in_transaction-Returns options request at (or_else request.effective_at at) rs)
            (λ q w h. subst (IsPublished q) (sym (rollback-Calm.calm w)) h)
            (λ es w h. subst (Failed es) (sym (rollback-Calm.calm w)) h))))

  pub publish_locked-Returns :
      (options : Options) (request : Request)
      → Triple
          (λ c. InSync (seen c))
          (publish_locked options request)
          (λ q c. IsPublished q (seen c))
          (λ es c. Failed es (seen c))
  publish_locked-Returns options request = record {
    holds = λ w h.
        (publish_locked-Before options request (actives w.core.db.revisions)).holds w (refl, h);
  }
