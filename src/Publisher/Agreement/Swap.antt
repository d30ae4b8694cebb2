-- ===== src/Publisher/Agreement/Swap.antt =====
-- From the replacement of the file to the end of the commit (`publishLocked` of
-- internal/publisher/publisher.go).
use m_ui.Prelude.{ℕ, Bool, true, false, ◌≡◌, refl, some, List}
use m_ui.Publisher.World.{
  Env, Options, Revision, Stage, activation_failed, audit_failed, reload_failed,
  health_check_failed, replacement_failed,
}
use m_ui.Publisher.Monad.{Result, ok, err, Fault}
use m_ui.Publisher.Rows.{actives}
use m_ui.Publisher.Request.{Request}
use m_ui.Publisher.Publish.{
  Publication, undo, commit_ended, commit_publication, activate_publication, reload_runtime,
  swap_publication,
}
use m_ui.Publisher.Keeps.{reload_with_fallback-Keeps, wait_healthy-Keeps}
use m_ui.Publisher.Triple.{Triple, bind, weaken, return, catch, handle, Either, Pred}
use m_ui.Publisher.Agreement.{seen, Failed}
use m_ui.Publisher.Agreement.Restore.{Anything}
use m_ui.Publisher.Agreement.Failure.{fail_after_replacement-Failed}
use m_ui.Publisher.Agreement.Reconcile.{IsPublished, Returns, finish-Returns}
use m_ui.Publisher.Agreement.Settle.{reconcile_commit-Returns}
use m_ui.Publisher.Agreement.Activate.{InTx, Pending, Activated, activate_revision-Activated}
use m_ui.Publisher.Agreement.Landing.{
  Sound, commit-publishes, kept_in_tx, clock, audit_success-Activated,
}
use m_ui.Publisher.Agreement.Drift.{Staged, After, replaced, check_drift-Staged}

module _ ⦃env : Env⦄ (options : Options) (request : Request) where
  undo-Failed :
      {A : Type 0} {Q : A → Pred} (p : Publication) (stage : Stage) (cause : List Fault)
      (rs : List Revision)
      → Sound rs p
      → Triple
          (λ c. actives c.db.revisions ≡ rs)
          (undo options request {A = A} p stage cause)
          Q
          (λ es c. Failed es (seen c))
  unfolding undo
  undo-Failed p stage cause rs s =
      weaken
        (fail_after_replacement-Failed options p.revision p.baseline.active_yaml
          request.restart_required stage cause rs s.archived s.restorable)
        (λ c h. h) (λ _ c h. absurd h) (λ _ c h. h)

  commit_ended-Returns :
      (p : Publication) (at : ℕ) (rs : List Revision) (committing : Result (Unit {0}))
      → Sound rs p
      → Triple
          (λ c. Either (λ _ d. IsPublished p.revision (seen d)) (λ _ d. Anything d) committing c)
          (commit_ended options request p at committing)
          (λ q c. Returns p.revision q c)
          (λ es c. Failed es (seen c))
  unfolding commit_ended
  commit_ended-Returns p at rs (ok u) s = finish-Returns options p.revision p.revision at refl
  commit_ended-Returns p at rs (err es) s = record {
    holds = λ w h.
        (reconcile_commit-Returns options p.revision at p.effective_at p.baseline
            request.restart_required es (actives w.core.db.revisions) s.archived s.verified).holds
          w refl;
  }

  commit_publication-Returns :
      (p : Publication) (at : ℕ) (rs : List Revision)
      → Sound rs p
      → Triple
          (λ c. InTx (λ s. s.config ≡ some p.compiled) (Activated p.revision at) c)
          (commit_publication options request p at)
          (λ q c. Returns p.revision q c)
          (λ es c. Failed es (seen c))
  unfolding commit_publication
  commit_publication-Returns p at rs s =
      bind (catch (commit-publishes p.revision at p.compiled s.digest))
        (λ committing. commit_ended-Returns p at rs committing s)

  activate_publication-Returns :
      (p : Publication) (rs : List Revision)
      → Sound rs p
      → Triple
          (λ c. InTx (After rs p.compiled) (Pending p.revision) c)
          (activate_publication options request p)
          (λ q c. Returns p.revision q c)
          (λ es c. Failed es (seen c))
  unfolding activate_publication
  activate_publication-Returns p rs s =
      bind (clock (InTx (After rs p.compiled) (Pending p.revision))) (λ at.
        bind
          (handle (activate_revision-Activated p.revision at (After rs p.compiled) s.waits) (λ es.
            weaken (undo-Failed p activation_failed es rs s) (λ c h. h.0) (λ _ c h. h)
              (λ _ c h. h)))
          (λ _.
            bind
              (handle (audit_success-Activated request at (After rs p.compiled) p.revision at)
                (λ es.
                  weaken (undo-Failed p audit_failed es rs s) (λ c h. h.0) (λ _ c h. h)
                    (λ _ c h. h)))
              (λ _.
                weaken (commit_publication-Returns p at rs s)
                  (λ c (t, is_t, f, i). (t, is_t, f.1, i)) (λ _ c h. h) (λ _ c h. h))))

  reload_runtime-After :
      (p : Publication) (rs : List Revision) (restart_required : Bool)
      → Sound rs p
      → Triple
          (λ c. InTx (After rs p.compiled) (Pending p.revision) c)
          (reload_runtime options request p restart_required)
          (λ _ c. InTx (After rs p.compiled) (Pending p.revision) c)
          (λ es c. Failed es (seen c))
  unfolding reload_runtime
  reload_runtime-After p rs true s = return tt (λ c h. h)
  reload_runtime-After p rs false s =
      bind
        (handle (kept_in_tx (After rs p.compiled) (Pending p.revision) reload_with_fallback-Keeps)
          (λ es.
            weaken (undo-Failed p reload_failed es rs s) (λ c h. h.0) (λ _ c h. h) (λ _ c h. h)))
        (λ _.
          handle
            (kept_in_tx (After rs p.compiled) (Pending p.revision)
              (wait_healthy-Keeps options.health_polls))
            (λ es.
              weaken (undo-Failed p health_check_failed es rs s) (λ c h. h.0) (λ _ c h. h)
                (λ _ c h. h)))

  pub swap_publication-Returns :
      (p : Publication) (rs : List Revision)
      → Sound rs p
      → Triple
          (Staged p.revision.id p.compiled rs p.revision)
          (swap_publication options request p)
          (λ q c. Returns p.revision q c)
          (λ es c. Failed es (seen c))
  unfolding swap_publication
  swap_publication-Returns p rs s =
      bind
        (check_drift-Staged p.revision.id p.compiled rs p.baseline.active_revision p.revision s.one)
        (λ _.
          bind
            (handle (replaced p.revision.id p.compiled rs p.revision)
              (λ es. undo-Failed p replacement_failed es rs s))
            (λ _.
              bind (reload_runtime-After p rs request.restart_required s)
                (λ _. activate_publication-Returns p rs s)))
