-- ===== src/Publisher/Verify.antt =====
-- internal/publisher/publisher.go: the check that database, archive and running file still agree
-- before anything is published over them.
use m_ui.Prelude.{ℕ, Bool, false, Option, none, some, List, [], ◌∷◌, ◌==◌, ◌&&◌}
use m_ui.Publisher.World.{Env, Bytes, path_within, Revision, DegradedReason}
use m_ui.Publisher.Monad.{
  Result, ok, err, Fault, M, ◌>>=◌, ◌>>◌, pure, raise, lift, guard, attempt, ignore, rescue, faults,
  integrity_violated, compile_failed,
}
use m_ui.Publisher.Files.{FileState, read_managed_file, read_active_yaml}
use m_ui.Publisher.Rows.{is_active}
use m_ui.Publisher.Store.{desired_state, rollback}
use m_ui.Publisher.Recovery.{degrade}

abbrev pub required : {A : Type 0} → Option A → Fault → Result A
required none e = err (e ∷ [])
required (some a) e = ok a

module _ ⦃env : Env⦄ where
  -- `compiler.Compile`: the same state compiles to the same text.
  unfoldable pub compile : env.State → M Bytes
  compile state = lift (required (env.compile state) compile_failed)

  pub record VerifiedActive : Type 0 where
    pub snapshot : env.State
    pub active_yaml : FileState

  abbrev pub decoded : Option Bytes → Result env.State
  decoded none = err (integrity_violated ∷ [])
  decoded (some content) = required (env.decode_snapshot content) integrity_violated

  unfoldable pub read_revision_state_snapshot : Revision → M env.State
  unfolding read_managed_file
  read_revision_state_snapshot revision = do
    content ← read_managed_file revision.state_file_path
    lift (decoded content)

  abbrev pub matches_digest : Option Bytes → ℕ → Bool
  matches_digest none digest = false
  matches_digest (some content) digest = env.sha256 content == digest

  -- Any error of the steps is reported as the broken integrity; the calls are as in the source.
  unfoldable pub verify_active_publication : Revision → M VerifiedActive
  unfolding read_revision_state_snapshot compile desired_state read_managed_file read_active_yaml
      path_within
  verify_active_publication revision = do
    guard (is_active revision.status) integrity_violated
    guard (path_within revision.file_path && path_within revision.state_file_path)
        integrity_violated
    snapshot ← read_revision_state_snapshot revision
    snapshot_yaml ← compile snapshot
    guard (env.sha256 snapshot_yaml == revision.sha256) integrity_violated
    durable_state ← desired_state (env.as_of snapshot)
    durable_yaml ← compile durable_state
    guard (env.sha256 durable_yaml == revision.sha256) integrity_violated
    revision_yaml ← read_managed_file revision.file_path
    guard (matches_digest revision_yaml revision.sha256) integrity_violated
    active_yaml ← read_active_yaml
    guard (active_yaml.exists && active_yaml.sha256 == revision.sha256) integrity_violated
    pure (record { snapshot = snapshot; active_yaml = active_yaml })

  -- A failed check rolls the transaction back and marks the system degraded.
  unfoldable pub reject_active : Revision → List Fault → M (Option VerifiedActive)
  unfolding rollback degrade
  reject_active revision es = do
    ignore rollback
    marking ← attempt (degrade DegradedReason.integrity_check_failed revision.id)
    raise (integrity_violated ∷ faults marking)

  unfoldable pub verify_some : Revision → M (Option VerifiedActive)
  unfolding verify_active_publication
  verify_some revision = do verified ← verify_active_publication revision; pure (some verified)

  -- There is nothing to verify before the first publication.
  unfoldable pub verify_previous : Option Revision → M (Option VerifiedActive)
  unfolding verify_some reject_active
  verify_previous none = pure none
  verify_previous (some revision) = rescue (verify_some revision) (reject_active revision)
