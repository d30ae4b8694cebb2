-- ===== src/Publisher/Recovery.antt =====
-- internal/publisher/publisher.go: the archive of a revision, the maintenance of old revisions, and
-- what a publication does once it has failed.
use m_ui.Prelude.{
  ℕ, Bool, true, false, not, Option, none, some, List, [], ◌∷◌, ◌++◌, length, ◌==◌, ◌&&◌,
  if◌then◌else◌,
}
use m_ui.Publisher.World.{
  Env, Options, Bytes, ManagedPath, config, recovery, path_within, Revision, Stage, DegradedReason,
  failed,
}
use m_ui.Publisher.Monad.{
  Result, ok, err, Fault, M, ◌>>=◌, ◌>>◌, pure, raise, guard, attempt, ignore, defer, faults, now,
  stage_failed, recovery_failed, revision_is_active, path_outside,
}
use m_ui.Publisher.Files.{
  FileState, read_managed_file, write_synced, replace_and_sync, remove_file_at, remove_and_sync,
  sync,
}
use m_ui.Publisher.Rows.{is_active}
use m_ui.Publisher.Store.{
  rollback, mark_degraded, record_failed_revision, inactive_revisions_beyond, delete_revision,
}
use m_ui.Publisher.Runtime.{reload_with_fallback, wait_healthy, stop}

module _ ⦃env : Env⦄ where
  -- A file that is there is kept.
  unfoldable pub write_missing : ManagedPath → Bytes → Option Bytes → M (Unit {0})
  unfolding write_synced
  write_missing p b none = write_synced p b
  write_missing p b (some old) = pure tt

  unfoldable pub archive_revision : Revision → env.State → Bytes → M (Unit {0})
  unfolding read_managed_file write_missing sync
  archive_revision revision state compiled = do
    yaml ← read_managed_file revision.file_path
    write_missing revision.file_path compiled yaml
    snapshot ← read_managed_file revision.state_file_path
    write_missing revision.state_file_path (env.encode_snapshot state) snapshot
    sync

  unfoldable pub prune_revision : Revision → M (Unit {0})
  unfolding remove_and_sync delete_revision path_within
  prune_revision revision = do
    guard (not (is_active revision.status)) revision_is_active
    guard (path_within revision.file_path && path_within revision.state_file_path) path_outside
    remove_and_sync revision.file_path
    remove_and_sync revision.state_file_path
    delete_revision revision.id

  unfoldable pub prune_all : List Revision → M (Unit {0})
  unfolding prune_revision
  prune_all [] = pure tt
  prune_all (r ∷ rs) = do prune_revision r; prune_all rs

  unfoldable pub prune : Options → M (Unit {0})
  unfolding prune_all inactive_revisions_beyond
  prune options = do
    revisions ← inactive_revisions_beyond options.history_limit
    prune_all revisions

  -- Nothing is archived where the caller passed no compiled configuration.
  unfoldable pub archive_failed : Revision → Option (env.State × Bytes) → M (Unit {0})
  unfolding archive_revision
  archive_failed revision none = pure tt
  archive_failed revision (some (state, compiled)) =
      if length compiled == 0 then pure tt else archive_revision revision state compiled

  -- `if recordErr == nil { prune }`, whose own error is only logged.
  unfoldable pub prune_recorded : Options → Result (Unit {0}) → M (Unit {0})
  unfolding prune
  prune_recorded options (ok u) = ignore (prune options)
  prune_recorded options (err es) = pure tt

  unfoldable pub record_failure :
      {A : Type 0} → Options → Revision → Option (env.State × Bytes) → Stage → List Fault → M A
  unfolding archive_failed record_failed_revision prune_recorded
  record_failure options revision archived stage cause = do
    archiving ← attempt (archive_failed revision archived)
    recording ←
        attempt
          (record_failed_revision (record revision { status = failed; error_message = some stage }))
    prune_recorded options recording
    raise (stage_failed stage ∷ cause ++ faults archiving ++ faults recording)

  unfoldable pub restore_runtime : Options → Bool → M (Unit {0})
  unfolding reload_with_fallback wait_healthy
  restore_runtime options true = pure tt
  restore_runtime options false = do reload_with_fallback; wait_healthy options.health_polls

  unfoldable pub restore_content : Options → ℕ → Bytes → Bool → M (Unit {0})
  unfolding write_synced replace_and_sync remove_file_at restore_runtime
  restore_content options id content restart_required = defer (remove_file_at (recovery id)) (do
    write_synced (recovery id) content
    replace_and_sync (recovery id)
    restore_runtime options restart_required)

  unfoldable pub restore_previous : Options → ℕ → FileState → Bool → M (Unit {0})
  unfolding restore_content remove_and_sync stop
  restore_previous options id previous restart_required =
      if previous.exists
      then restore_content options id previous.content restart_required
      else do remove_and_sync config; stop

  -- `MarkDegraded(…, publisher.now())`.
  unfoldable pub degrade : DegradedReason → ℕ → M (Unit {0})
  unfolding mark_degraded now
  degrade reason revision_id = do at ← now; mark_degraded reason revision_id at

  unfoldable pub report_recovery :
      {A : Type 0} → DegradedReason → ℕ → List Fault → Result (Unit {0}) → M A
  unfolding degrade
  report_recovery reason id failure (ok u) = raise failure
  report_recovery reason id failure (err es) = do
    marking ← attempt (degrade reason id)
    raise (recovery_failed ∷ es ++ faults marking ++ failure)

  unfoldable pub fail_after_replacement :
      {A : Type 0} → Options → Revision → FileState → Bool → Stage → List Fault → M A
  unfolding restore_previous rollback record_failure report_recovery
  fail_after_replacement options revision previous restart_required stage cause = do
    recovering ← attempt (restore_previous options revision.id previous restart_required)
    ignore rollback
    failure ← attempt (record_failure {A = Unit {0}} options revision none stage cause)
    report_recovery DegradedReason.recovery_failed revision.id (faults failure) recovering
