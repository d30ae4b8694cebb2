-- ===== src/Publisher/Guarantees.antt =====
-- What the publisher promises, run from any world (internal/publisher/publisher.go).
use m_ui.Prelude.{ℕ, Bool, ◌≡◌, refl, Option, some, List, [], ◌∷◌}
use m_ui.Publisher.World.{Env, Options, Tables, Bytes, config, Revision, pending, Stage}
use m_ui.Publisher.Monad.{ok, Fault, World}
use m_ui.Publisher.Files.{FileState}
use m_ui.Publisher.Rows.{actives, one_active}
use m_ui.Publisher.Store.{activate_revision}
use m_ui.Publisher.Recovery.{fail_after_replacement, prune, record_failure, restore_previous}
use m_ui.Publisher.Verify.{verify_previous}
use m_ui.Publisher.Request.{Request}
use m_ui.Publisher.Commit.{Baseline, publish_compiled_with_runtime, reconcile_commit}
use m_ui.Publisher.Publish.{publish_locked}
use m_ui.Publisher.View.{view}
use m_ui.Publisher.Keeps.{IsArchived, prune-Keeps}
use m_ui.Publisher.Triple.{Post, weaken}
use m_ui.Publisher.Agreement.{seen, prior, Synced, InSync, Failed}
use m_ui.Publisher.Agreement.Failure.{
  Never, fail_after_replacement-Failed, record_failure-raises, restore_previous-prior,
}
use m_ui.Publisher.Agreement.Baseline.{IsBaseline}
use m_ui.Publisher.Agreement.Reconcile.{IsPublished, Returns}
use m_ui.Publisher.Agreement.Redo.{publish_compiled_with_runtime-config}
use m_ui.Publisher.Agreement.Settle.{reconcile_commit-Returns}
use m_ui.Publisher.Agreement.Activate.{activate_revision-Activated, promoted}
use m_ui.Publisher.Agreement.Drift.{Before-InSync}
use m_ui.Publisher.Agreement.Verified.{IsVerified, verify_previous-IsVerified}
use m_ui.Publisher.Agreement.Locked.{publish_locked-Returns}

module _ ⦃env : Env⦄ where
  -- From a state in agreement, however the calls of the publication end: if it returns a revision,
  -- that is the one active revision and the running file has its digest; if it returns an error,
  -- the state is in agreement, or marked degraded, or the error says that the mark was not stored.
  pub publish_locked-agrees :
      (options : Options) (request : Request) (w : World)
      → InSync (seen w.core)
      → Post
          (λ q c. IsPublished q (seen c))
          (λ es c. Failed es (seen c))
          (publish_locked options request w)
  publish_locked-agrees options request w h = (publish_locked-Returns options request).holds w h

  -- After a commit that returned an error, whichever tables are durable, for an archived revision
  -- and a verified baseline: if a revision is returned, it has the id that was to be published, is
  -- the one active revision and the running file has its digest; if an error is returned, the state
  -- is in agreement, or marked degraded, or the error says that the mark was not stored.
  pub reconcile_commit-agrees :
      (options : Options) (r : Revision) (activated_at effective_at : ℕ) (base : Baseline)
      (restart_required : Bool) (cause : List Fault) (w : World)
      → IsArchived r
      → IsBaseline base.active_revision base.active_yaml
      → Post
          (λ q c. Returns r q c)
          (λ es c. Failed es (seen c))
          (reconcile_commit options r activated_at effective_at base restart_required cause w)
  reconcile_commit-agrees options r activated_at effective_at base restart_required cause w a b =
      (reconcile_commit-Returns options r activated_at effective_at base restart_required cause
          (actives w.core.db.revisions) a b).holds
        w refl

  -- Where the file to go back to agrees with the active revisions, the undoing of a replacement
  -- never returns a value, and its error leaves the state in agreement, or marked degraded, or says
  -- that the mark was not stored.
  pub fail_after_replacement-agrees :
      (options : Options) (r : Revision) (previous : FileState) (restart_required : Bool)
      (stage : Stage) (cause : List Fault) (w : World)
      → IsArchived r
      → Synced (actives w.core.db.revisions) (prior previous)
      → Post {A = Revision} Never
          (λ es c. Failed es (seen c))
          (fail_after_replacement options r previous restart_required stage cause w)
  fail_after_replacement-agrees options r previous restart_required stage cause w a s =
      (fail_after_replacement-Failed options r previous restart_required stage cause
          (actives w.core.db.revisions) a s).holds
        w refl

  -- Where a transaction is open on a state in agreement and one row at most is active: if the
  -- verification returns, an active revision has a verified file with its digest and the state is
  -- in agreement; if it fails, the state is in agreement, or marked degraded, or the error says
  -- that the mark was not stored.
  pub verify_previous-agrees :
      (old : Option Revision) (t : Tables env.State) (w : World)
      → w.core.tx ≡ some t
      → one_active (actives w.core.db.revisions) ≡ ok old
      → InSync (seen w.core)
      → Post
          (λ v c. IsVerified old v × InSync (seen c))
          (λ es c. Failed es (seen c))
          (verify_previous old w)
  verify_previous-agrees old t w is_t one s =
      (weaken (verify_previous-IsVerified old (actives w.core.db.revisions) (λ _. Unit {0}) one)
          (λ c h. h)
          (λ v c (k, (u, is_u, b, i)). (k, Before-InSync (actives w.core.db.revisions) (seen c) b))
          (λ _ c h. h)).holds
        w (t, is_t, (refl, s), tt)

  -- Where the open transaction has the new row, which waits: the activation leaves that row as the
  -- only active one of the transaction, or returns an error; either way nothing that others see of
  -- the tables, the running file and the degraded mark changes.
  pub activate_revision-alone :
      (r : Revision) (at : ℕ) (t : Tables env.State) (rest : List Revision) (w : World)
      → w.core.tx ≡ some t
      → t.revisions ≡ r ∷ rest
      → r.status ≡ pending
      → Post
          (λ _ c.
            (u : Tables env.State) × (c.tx ≡ some u)
            × (seen c ≡ seen w.core)
            × (actives u.revisions ≡ promoted at r ∷ []))
          (λ _ c. seen c ≡ seen w.core)
          (activate_revision r.id at w)
  activate_revision-alone r at t rest w is_t rows waits =
      (activate_revision-Activated r at (λ s. s ≡ seen w.core) waits).holds w
        (t, is_t, refl, (rest, rows))

  -- A restoration that succeeds leaves the file as it was before the publication, absent if there
  -- was none; whether it succeeds or not, the active revisions stay.
  pub restore_previous-restores :
      (options : Options) (id : ℕ) (previous : FileState) (restart_required : Bool) (w : World)
      → Post
          (λ _ c.
            (actives c.db.revisions ≡ actives w.core.db.revisions)
            × (c.files config ≡ prior previous))
          (λ _ c. actives c.db.revisions ≡ actives w.core.db.revisions)
          (restore_previous options id previous restart_required w)
  restore_previous-restores options id previous restart_required w =
      (restore_previous-prior options id previous restart_required
          (actives w.core.db.revisions)).holds
        w refl

  -- A compiled text that is put in place again is the running file, under the active revisions of
  -- before, where the call succeeds.
  pub publish_compiled_with_runtime-replaces :
      (options : Options) (b : Bytes) (allowed : Bool) (w : World)
      → Post
          (λ _ c.
            (actives c.db.revisions ≡ actives w.core.db.revisions) × (c.files config ≡ some b))
          (λ _ _. Unit {0})
          (publish_compiled_with_runtime options b allowed w)
  publish_compiled_with_runtime-replaces options b allowed w =
      (weaken
          (publish_compiled_with_runtime-config options b allowed (actives w.core.db.revisions)
            (w.core.files config) w.core.tx)
          (λ c h. h) (λ _ c h. (h.0, h.1)) (λ _ c h. h)).holds
        w (refl, refl, refl)

  -- A recorded failure of an archived revision never returns a value, and changes neither the
  -- active revisions nor the running file, a candidate, the transaction or the degraded mark.
  pub record_failure-records :
      (options : Options) (r : Revision) (archived : Option (env.State × Bytes)) (stage : Stage)
      (cause : List Fault) (n : ℕ) (w : World)
      → IsArchived r
      → Post {A = Revision} Never
          (λ _ c. view n c ≡ view n w.core)
          (record_failure options r archived stage cause w)
  record_failure-records options r archived stage cause n w h =
      (record_failure-raises options r archived stage cause n (λ v. v ≡ view n w.core) h).holds w
        refl

  -- Pruning, whichever of its calls fail, changes neither the active revisions nor the running
  -- file, a candidate, the transaction or the degraded mark.
  pub prune-keeps :
      (options : Options) (n : ℕ) (w : World) → view n (prune options w).1.core ≡ view n w.core
  prune-keeps options n w = (prune-Keeps options).keeps n w
