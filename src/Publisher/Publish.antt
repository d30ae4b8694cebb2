-- ===== src/Publisher/Publish.antt =====
-- internal/publisher/publisher.go: `publishLocked`, from the read of the previous publication to
-- the commit. Each function is one stretch of it, up to the next clean-up that it defers.
use text.Mathlib.Text.{◌==◌ as str_eq}
use m_ui.Prelude.{
  ℕ, Bool, true, false, Option, none, some, List, [], ◌∷◌, ◌++◌, ◌==◌, ◌&&◌, if◌then◌else◌,
}
use m_ui.Publisher.World.{
  Env, Options, Bytes, Tables, config, revision_yaml, revision_state, candidate, rollback_backup,
  Revision, pending, DegradedReason, Stage, candidate_validation_failed, insertion_failed,
  replacement_failed, reload_failed, health_check_failed, activation_failed, audit_failed,
}
use m_ui.Publisher.Monad.{
  Result, ok, err, Fault, M, ◌>>=◌, ◌>>◌, pure, raise, guard, attempt, ignore, rescue, defer,
  faults, new_id, now, integrity_violated, durable_state_mismatch, candidate_rejected,
  mutation_required,
}
use m_ui.Publisher.Files.{
  FileState, read_managed_file, read_active_yaml, file_state, write_synced, replace_and_sync,
  remove_file_at, remove_and_sync,
}
use m_ui.Publisher.Store.{
  begin_immediate, rollback, commit, desired_state, active_revision, next_revision_number,
  update_tx, insert_revision, activate_revision, insert_audit,
}
use m_ui.Publisher.Runtime.{validate, reload_with_fallback, wait_healthy}
use m_ui.Publisher.Recovery.{archive_revision, record_failure, degrade, fail_after_replacement}
use m_ui.Publisher.Verify.{compile, VerifiedActive, verify_previous}
use m_ui.Publisher.Request.{Request, Mutation, preflight}
use m_ui.Publisher.Commit.{Baseline, or_else, finish_successful_publication, reconcile_commit}

-- What the stretches after the candidate share.
pub record Publication : Type 0 where
  pub revision : Revision
  pub compiled : Bytes
  pub effective_at : ℕ
  pub baseline : Baseline

module _ ⦃env : Env⦄ where
  -- The digest that the running file must still have.
  unfoldable pub drift_free : Option Revision → FileState → Bool
  drift_free none yaml = true
  drift_free (some revision) yaml = yaml.exists && yaml.sha256 == revision.sha256

  unfoldable pub abort_changed_active_publication : {A : Type 0} → Revision → Revision → M A
  unfolding rollback remove_and_sync degrade
  abort_changed_active_publication previous revision = do
    closing ← attempt rollback
    yaml ← attempt (remove_and_sync revision.file_path)
    snapshot ← attempt (remove_and_sync revision.state_file_path)
    marking ← attempt (degrade DegradedReason.changed_during_publication previous.id)
    raise (integrity_violated ∷ faults closing ++ faults yaml ++ faults snapshot ++ faults marking)

  unfoldable pub read_unchanged : Revision → M (Unit {0})
  unfolding read_active_yaml drift_free
  read_unchanged previous = do
    yaml ← read_active_yaml
    guard (drift_free (some previous) yaml) integrity_violated

  -- The running file is looked at once more right before it is replaced.
  unfoldable pub check_drift : Option Revision → Revision → M (Unit {0})
  unfolding read_unchanged abort_changed_active_publication
  check_drift none revision = pure tt
  check_drift (some previous) revision =
      rescue (read_unchanged previous) (λ _. abort_changed_active_publication previous revision)

  unfoldable pub insert_success_audit : Request → ℕ → M (Unit {0})
  unfolding insert_audit new_id
  insert_success_audit request at = do
    id ← new_id
    insert_audit (record {
      id = id;
      actor_admin_id = request.actor_admin_id;
      action = request.audit_action;
      resource_type = request.audit_resource;
      resource_id = request.audit_resource_id;
      result = "success";
      summary = env.redact (or_else request.audit_summary_func request.audit_summary);
      created_at = at;
    })

  -- A request with no audit action leaves no audit entry.
  unfoldable pub audit_success : Request → ℕ → M (Unit {0})
  unfolding insert_success_audit
  audit_success request at =
      if str_eq request.audit_action "" then pure tt else insert_success_audit request at

module _ ⦃env : Env⦄ (options : Options) (request : Request) where
  -- `failAfterReplacement` with what the publication fixes.
  unfoldable pub undo : {A : Type 0} → Publication → Stage → List Fault → M A
  unfolding fail_after_replacement
  undo p stage cause =
      fail_after_replacement options p.revision p.baseline.active_yaml request.restart_required
        stage cause

  unfoldable pub commit_ended : Publication → ℕ → Result (Unit {0}) → M Revision
  unfolding reconcile_commit finish_successful_publication
  commit_ended p activated_at (ok u) = finish_successful_publication options p.revision activated_at
  commit_ended p activated_at (err es) =
      reconcile_commit options p.revision activated_at p.effective_at p.baseline
        request.restart_required es

  unfoldable pub commit_publication : Publication → ℕ → M Revision
  unfolding commit commit_ended
  commit_publication p activated_at = do
    committing ← attempt commit
    commit_ended p activated_at committing

  unfoldable pub activate_publication : Publication → M Revision
  unfolding undo commit_publication activate_revision audit_success now
  activate_publication p = do
    activated_at ← now
    rescue (activate_revision p.revision.id activated_at) (undo p activation_failed)
    rescue (audit_success request activated_at) (undo p audit_failed)
    commit_publication p activated_at

  unfoldable pub reload_runtime : Publication → Bool → M (Unit {0})
  unfolding reload_with_fallback wait_healthy undo
  reload_runtime p true = pure tt
  reload_runtime p false = do
    rescue reload_with_fallback (undo p reload_failed)
    rescue (wait_healthy options.health_polls) (undo p health_check_failed)

  unfoldable pub swap_publication : Publication → M Revision
  unfolding check_drift replace_and_sync undo reload_runtime activate_publication
  swap_publication p = do
    check_drift p.baseline.active_revision p.revision
    rescue (replace_and_sync (candidate p.revision.id)) (undo p replacement_failed)
    reload_runtime p request.restart_required
    activate_publication p

  -- Both archive files go if the archive is not complete.
  unfoldable pub discard_archive : Revision → List Fault → M (Unit {0})
  unfolding remove_file_at
  discard_archive revision es = do
    ignore (remove_file_at revision.file_path)
    ignore (remove_file_at revision.state_file_path)
    raise es

  unfoldable pub insertion_refused : Revision → List Fault → M (Unit {0})
  unfolding rollback record_failure
  insertion_refused revision es = do
    ignore rollback
    record_failure options revision none insertion_failed es

  unfoldable pub back_up : ℕ → FileState → M (Unit {0})
  unfolding write_synced
  back_up id previous =
      if previous.exists then write_synced (rollback_backup id) previous.content else pure tt

  unfoldable pub archive_publication : Publication → env.State → M Revision
  unfolding back_up archive_revision discard_archive insert_revision insertion_refused
      swap_publication
  archive_publication p state = do
    back_up p.revision.id p.baseline.active_yaml
    rescue (archive_revision p.revision state p.compiled) (discard_archive p.revision)
    rescue (insert_revision p.revision) (insertion_refused p.revision)
    swap_publication p

  unfoldable pub validation_refused : Revision → env.State → Bytes → List Fault → M (Unit {0})
  unfolding rollback record_failure
  validation_refused revision state compiled es = do
    ignore rollback
    record_failure options revision (some (state, compiled)) candidate_validation_failed
        (candidate_rejected ∷ es)

  -- The file to go back to: the verified one, or what stands there before a first publication.
  unfoldable pub previous_config : Option VerifiedActive → M FileState
  unfolding read_managed_file file_state
  previous_config (some verified) = pure verified.active_yaml
  previous_config none = do content ← read_managed_file config; pure (file_state content)

  unfoldable pub prepare_publication :
      Option Revision
      → Option VerifiedActive
      → ℕ
      → ℕ
      → ℕ
      → Revision
      → env.State
      → Bytes
      → M Revision
  unfolding write_synced validate validation_refused previous_config remove_file_at
      archive_publication
  prepare_publication old verified old_sha256 old_as_of effective_at revision state compiled = do
    write_synced (candidate revision.id) compiled
    rescue (validate (candidate revision.id)) (validation_refused revision state compiled)
    previous ← previous_config verified
    let p : Publication = record {
      revision = revision;
      compiled = compiled;
      effective_at = effective_at;
      baseline = record {
        database_sha256 = old_sha256;
        database_as_of = old_as_of;
        active_revision = old;
        active_yaml = previous;
      };
    }
    defer (remove_file_at (rollback_backup revision.id)) (archive_publication p state)

  abbrev pub matches_old : Option Revision → ℕ → Bool
  matches_old none digest = true
  matches_old (some revision) digest = digest == revision.sha256

  abbrev pub old_time : Option VerifiedActive → ℕ → ℕ
  old_time none effective_at = effective_at
  old_time (some verified) effective_at = env.as_of verified.snapshot

  abbrev pub run_mutation : Option Mutation → Tables env.State → Result (Tables env.State)
  run_mutation none t = err (mutation_required ∷ [])
  run_mutation (some mutate) t = mutate t

  abbrev pub new_revision : ℕ → ℕ → Bytes → ℕ → Revision
  new_revision id number compiled at = record {
    id = id;
    revision_number = number;
    sha256 = env.sha256 compiled;
    file_path = revision_yaml id;
    state_file_path = revision_state id;
    status = pending;
    reason = env.redact request.reason;
    actor_admin_id = request.actor_admin_id;
    error_message = none;
    created_at = at;
    activated_at = none;
  }

  unfoldable pub publish_in_transaction : ℕ → ℕ → M Revision
  unfolding active_revision verify_previous desired_state compile update_tx next_revision_number
      new_id remove_file_at prepare_publication
  publish_in_transaction at effective_at = do
    old ← active_revision
    verified ← verify_previous old
    old_state ← desired_state (old_time verified effective_at)
    old_compiled ← compile old_state
    guard (matches_old old (env.sha256 old_compiled)) durable_state_mismatch
    update_tx (run_mutation request.mutate)
    state ← desired_state effective_at
    compiled ← compile state
    number ← next_revision_number
    id ← new_id
    defer (remove_file_at (candidate id)) (
        prepare_publication old verified (env.sha256 old_compiled) (old_time verified effective_at)
          effective_at (new_revision id number compiled at) state compiled)

  -- `if transactionOpen { Rollback }`.
  unfoldable pub publish_locked : M Revision
  unfolding preflight now begin_immediate rollback publish_in_transaction
  publish_locked = do
    preflight options request
    at ← now
    begin_immediate
    defer rollback (publish_in_transaction at (or_else request.effective_at at))
