-- ===== src/Publisher/Commit.antt =====
-- internal/publisher/publisher.go: the end of a publication, and what follows a commit that
-- returned an error, after which the tables may be the old ones or the new ones.
use m_ui.Prelude.{
  ℕ, Bool, true, false, not, Option, none, some, List, [], ◌∷◌, ◌++◌, ◌==◌, ◌&&◌, ◌||◌,
  if◌then◌else◌,
}
use m_ui.Publisher.World.{
  Env, Options, Bytes, reconciliation, Revision, active, DegradedReason, commit_failed,
}
use m_ui.Publisher.Monad.{
  Result, ok, err, Fault, M, ◌>>=◌, ◌>>◌, pure, raise, attempt, ignore, rescue, defer, faults,
  new_id, commit_unclassified, recovery_failed,
}
use m_ui.Publisher.Files.{
  FileState, file_state_matches, read_active_yaml, write_synced, replace_and_sync, remove_file_at,
}
use m_ui.Publisher.Store.{read_db, read_publication_snapshot}
use m_ui.Publisher.Runtime.{is_active_process, reload_with_fallback, wait_healthy, validate}
use m_ui.Publisher.Recovery.{prune, record_failure, restore_previous, degrade}
use m_ui.Publisher.Verify.{compile}

abbrev pub or_else {ℓ} : {A : Type ℓ} → Option A → A → A
or_else none d = d
or_else (some a) d = a

-- `revisionMatches`.
unfoldable pub revision_matches : Option Revision → Option Revision → Bool
revision_matches none none = true
revision_matches (some a) (some b) = a.id == b.id && a.sha256 == b.sha256
revision_matches _ _ = false

-- `publicationBaseline`: what the publication found before its change.
pub record Baseline : Type 0 where
  pub database_sha256 : ℕ
  pub database_as_of : ℕ
  pub active_revision : Option Revision
  pub active_yaml : FileState

-- The revision as it is returned.
abbrev pub activated : Revision → ℕ → Revision
activated revision at = record revision {
  status = active;
  activated_at = some (or_else revision.activated_at at);
}

module _ ⦃env : Env⦄ where
  unfoldable pub finish_successful_publication : Options → Revision → ℕ → M Revision
  unfolding prune
  finish_successful_publication options revision activated_at = do
    ignore (prune options)
    pure (activated revision activated_at)

  unfoldable pub mark_commit_degraded : {A : Type 0} → DegradedReason → ℕ → List Fault → M A
  unfolding degrade
  mark_commit_degraded reason id cause = do
    marking ← attempt (degrade reason id)
    raise (cause ++ faults marking)

  unfoldable pub reload_and_wait : Options → M (Unit {0})
  unfolding reload_with_fallback wait_healthy
  reload_and_wait options = do reload_with_fallback; wait_healthy options.health_polls

  -- The reload is left out while an endpoint change waits for a restart of Mihomo, before the
  -- runtime phase of a start, and where the process does not run.
  unfoldable pub activate_runtime : Options → Bool → M (Unit {0})
  unfolding is_active_process reload_and_wait
  activate_runtime options false = pure tt
  activate_runtime options true = do
    running ← is_active_process
    if running then reload_and_wait options else pure tt

  unfoldable pub restart_is_pending : Options → M Bool
  unfolding read_db
  restart_is_pending options =
      if options.has_endpoints then read_db (λ t. ok t.mihomo_restart_pending) else pure false

  unfoldable pub publish_candidate : Options → ℕ → Bytes → Bool → M (Unit {0})
  unfolding write_synced validate replace_and_sync restart_is_pending activate_runtime
  publish_candidate options id compiled allow_runtime = do
    write_synced (reconciliation id) compiled
    validate (reconciliation id)
    replace_and_sync (reconciliation id)
    is_pending ← restart_is_pending options
    activate_runtime options (not is_pending && allow_runtime)

  unfoldable pub publish_compiled_with_runtime : Options → Bytes → Bool → M (Unit {0})
  unfolding publish_candidate remove_file_at new_id
  publish_compiled_with_runtime options compiled allow_runtime = do
    id ← new_id
    defer (remove_file_at (reconciliation id)) (publish_candidate options id compiled allow_runtime)

  -- What the durable tables turn out to be: those of the new revision, with their compiled text,
  -- those of before, or neither.
  pub data Durable : Type 0 where
    is_new : Revision → Bytes → Durable
    is_old is_other : Durable

  unfoldable pub classify_new : Revision → env.State × Option Revision → M Durable
  unfolding compile
  classify_new revision (state, found) = do
    compiled ← compile state
    pure (
        if env.sha256 compiled == revision.sha256
        then is_new (or_else found revision) compiled
        else is_other)

  unfoldable pub classify_old : Baseline → env.State → M Durable
  unfolding compile
  classify_old baseline state = do
    compiled ← compile state
    pure (if env.sha256 compiled == baseline.database_sha256 then is_old else is_other)

  unfoldable pub classify_reread : Baseline → env.State × Option Revision → M Durable
  unfolding classify_old revision_matches
  classify_reread baseline (state, found) =
      if revision_matches found baseline.active_revision
      then classify_old baseline state
      else pure is_other

  -- The second read is at the time of the old state, where that is another.
  unfoldable pub reread :
      ℕ → Baseline → env.State × Option Revision → M (env.State × Option Revision)
  unfolding read_publication_snapshot
  reread effective_at baseline found =
      if baseline.database_as_of == effective_at
      then pure found
      else read_publication_snapshot baseline.database_as_of

  unfoldable pub classify_again : ℕ → Baseline → env.State × Option Revision → M Durable
  unfolding reread classify_reread
  classify_again effective_at baseline found = do
    again ← reread effective_at baseline found
    classify_reread baseline again

  unfoldable pub classify_durable :
      Revision → ℕ → Baseline → env.State × Option Revision → M Durable
  unfolding classify_new classify_again revision_matches
  classify_durable revision effective_at baseline found =
      if revision_matches found.1 (some revision)
      then classify_new revision found
      else if revision_matches found.1 baseline.active_revision
      then classify_again effective_at baseline found
      else pure is_other

  unfoldable pub report_undo : Revision → List Fault → Result (Unit {0}) → M Revision
  unfolding mark_commit_degraded
  report_undo revision failure (ok u) = raise failure
  report_undo revision failure (err es) = do
    marking ← attempt (
        mark_commit_degraded {A = Unit {0}} DegradedReason.restore_failed revision.id
          (recovery_failed ∷ es))
    raise (faults marking ++ failure)

  -- The old tables and the new file: the old file is put back.
  unfoldable pub undo_publication : Options → Revision → Baseline → Bool → List Fault → M Revision
  unfolding restore_previous record_failure report_undo
  undo_publication options revision baseline restart_required cause = do
    recovering ←
        attempt (restore_previous options revision.id baseline.active_yaml restart_required)
    failure ← attempt (record_failure {A = Unit {0}} options revision none commit_failed cause)
    report_undo revision (faults failure) recovering

  -- The new tables and the old file, or none: the new file is put in place again.
  unfoldable pub redo_publication : Options → Revision → Revision → ℕ → Bytes → M Revision
  unfolding publish_compiled_with_runtime mark_commit_degraded finish_successful_publication
  redo_publication options revision durable activated_at compiled = do
    rescue (publish_compiled_with_runtime options compiled true) (λ es.
        mark_commit_degraded DegradedReason.republish_failed revision.id (commit_unclassified ∷ es))
    finish_successful_publication options durable activated_at

  unfoldable pub settle_commit :
      Options → Revision → ℕ → Baseline → Bool → List Fault → Durable → FileState → M Revision
  unfolding redo_publication undo_publication file_state_matches finish_successful_publication
      record_failure mark_commit_degraded
  settle_commit options revision activated_at baseline restart_required cause
        (is_new found compiled) yaml =
      if yaml.exists && yaml.sha256 == revision.sha256
      then finish_successful_publication options found activated_at
      else if not yaml.exists || file_state_matches yaml baseline.active_yaml
      then redo_publication options revision found activated_at compiled
      else mark_commit_degraded DegradedReason.commit_inconsistent revision.id
          (commit_unclassified ∷ [])
  settle_commit options revision activated_at baseline restart_required cause is_old yaml =
      if file_state_matches yaml baseline.active_yaml
      then record_failure options revision none commit_failed cause
      else if yaml.exists && yaml.sha256 == revision.sha256
      then undo_publication options revision baseline restart_required cause
      else mark_commit_degraded DegradedReason.commit_inconsistent revision.id
          (commit_unclassified ∷ [])
  settle_commit options revision activated_at baseline restart_required cause is_other yaml =
      mark_commit_degraded DegradedReason.commit_inconsistent revision.id (commit_unclassified ∷ [])

  unfoldable pub reconcile_commit :
      Options → Revision → ℕ → ℕ → Baseline → Bool → List Fault → M Revision
  unfolding classify_durable settle_commit mark_commit_degraded read_publication_snapshot
      read_active_yaml
  reconcile_commit options revision activated_at effective_at baseline restart_required cause = do
    durable ← rescue (read_publication_snapshot effective_at) (λ es.
        mark_commit_degraded DegradedReason.commit_not_reconciled revision.id
          (commit_unclassified ∷ es))
    yaml ← rescue read_active_yaml (λ es.
        mark_commit_degraded DegradedReason.commit_yaml_unreadable revision.id
          (commit_unclassified ∷ es))
    kind ← rescue (classify_durable revision effective_at baseline durable) (λ es.
        mark_commit_degraded DegradedReason.commit_not_reconciled revision.id
          (commit_unclassified ∷ es))
    settle_commit options revision activated_at baseline restart_required cause kind yaml
