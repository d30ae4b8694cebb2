-- ===== src/Publisher/Keeps.antt =====
-- The calls that touch neither the active revision, the running file, the open transaction nor the
-- degraded flag: reads, other files, the process, failed revisions and their maintenance.
use m_ui.Prelude.{
  ℕ, zero, suc, Bool, true, false, not, ◌≡◌, refl, Option, none, some, List, [], ◌∷◌, ◌++◌, arith,
  ltb, length, ◌==◌, ◌&&◌, if◌then◌else◌, ◌||◌,
}
use m_ui.Publisher.World.{
  Env, Options, Core, Tables, Bytes, ManagedPath, revision_yaml, revision_state, path_within,
  Revision, failed, Stage,
}
use m_ui.Publisher.Monad.{
  Result, ok, err, Fault, call_failed, file_too_large, inspect_process, stage_failed, faults,
  revision_is_active, path_outside, inactive_revision_not_found, constraint_violated,
}
use m_ui.Publisher.Files.{
  sync, read_managed_file, write_synced, write_new, remove_file_at, remove_and_sync,
  max_managed_file_size,
}
use m_ui.Publisher.Rows.{is_active, insert_row, delete_row, clashes}
use m_ui.Publisher.Store.{
  in_tx, read_db, update_db, when_unlocked, into_db, with_revisions, record_failed_revision,
  inactive_revisions_beyond, delete_revision,
}
use m_ui.Publisher.Runtime.{
  is_active_process, version, validate, reload_with_fallback, is_healthy, wait_healthy, stop,
  load_config, start_config, stop_runtime,
}
use m_ui.Publisher.Recovery.{
  write_missing, archive_revision, prune_revision, prune_all, prune, archive_failed, prune_recorded,
  record_failure,
}
use m_ui.Publisher.View.{
  guarded-Keeps, view, spares, view-set_file, actives-delete_row, Keeps, KeepsView, keeping,
  bind-Keeps, pure-Keeps, raise-Keeps, guard-Keeps, attempt-Keeps, ignore-Keeps, if-Keeps,
  perform-Keeps, execute-Keeps, observe-Keeps,
}

both : (a b : Bool) → (a && b) ≡ true → (a ≡ true) × (b ≡ true)
both a b h = ground arith

module _ ⦃env : Env⦄ where
  pub sync-Keeps : Keeps sync
  unfolding sync
  sync-Keeps = observe-Keeps _ _

  pub read_managed_file-Keeps : (p : ManagedPath) → Keeps (read_managed_file p)
  unfolding read_managed_file
  read_managed_file-Keeps p = observe-Keeps _ _

  pub in_tx-Keeps : {A : Type 0} (f : Tables env.State → Result A) → Keeps (in_tx f)
  unfolding in_tx
  in_tx-Keeps f = observe-Keeps _ _

  pub read_db-Keeps : {A : Type 0} (f : Tables env.State → Result A) → Keeps (read_db f)
  unfolding read_db
  read_db-Keeps f = observe-Keeps _ _

  pub validate-Keeps : (p : ManagedPath) → Keeps (validate p)
  unfolding validate
  validate-Keeps p = observe-Keeps _ _

  pub is_active_process-Keeps : Keeps is_active_process
  unfolding is_active_process
  is_active_process-Keeps = record {
    keeps = λ n w.
        (observe-Keeps (λ c. ok (c.runtime.running && env.process_active w.tick))
            (call_failed inspect_process)).keeps
          n w;
  }

  pub reload_with_fallback-Keeps : Keeps reload_with_fallback
  unfolding reload_with_fallback
  reload_with_fallback-Keeps = search (
    keeping,
    perform-Keeps load_config _ (λ n c. refl),
    perform-Keeps start_config _ (λ n c. refl),
  )

  is_healthy-Keeps : Keeps is_healthy
  unfolding is_healthy version
  is_healthy-Keeps = search (keeping, is_active_process-Keeps)

  pub wait_healthy-Keeps : (polls : ℕ) → Keeps (wait_healthy polls)
  unfolding wait_healthy
  wait_healthy-Keeps zero = search (keeping, is_healthy-Keeps)
  wait_healthy-Keeps (suc polls) =
      bind-Keeps is_healthy-Keeps
        (λ healthy. if-Keeps healthy (pure-Keeps tt) (wait_healthy-Keeps polls))

  pub stop-Keeps : Keeps stop
  unfolding stop
  stop-Keeps = perform-Keeps stop_runtime _ (λ n c. refl)

  pub remove_file_at-Keeps : (p : ManagedPath) → spares p ≡ true → Keeps (remove_file_at p)
  unfolding remove_file_at
  remove_file_at-Keeps p h = perform-Keeps _ _ (λ n c. view-set_file n p none c h)

  pub remove_and_sync-Keeps : (p : ManagedPath) → spares p ≡ true → Keeps (remove_and_sync p)
  unfolding remove_and_sync
  remove_and_sync-Keeps p h = search (keeping, remove_file_at-Keeps p h)

  write_new-view :
      (n : ℕ) (p : ManagedPath) (b : Bytes) (c : Core env.State) (found : Option Bytes)
      → spares p ≡ true
      → KeepsView n c (write_new p b found c)
  write_new-view n p b c none h = view-set_file n p (some b) c h
  write_new-view n p b c (some old) h = tt

  pub write_synced-Keeps :
      (p : ManagedPath) (b : Bytes) → spares p ≡ true → Keeps (write_synced p b)
  unfolding write_synced
  write_synced-Keeps p b h =
      execute-Keeps _ _ (λ n c. checked n c (ltb max_managed_file_size (length b)))
    where
      checked :
          (n : ℕ) (c : Core env.State) (large : Bool)
          → KeepsView n c (if large then err (file_too_large ∷ []) else write_new p b (c.files p) c)
      checked n c true = tt
      checked n c false = write_new-view n p b c (c.files p) h

  write_missing-Keeps :
      (p : ManagedPath) (b : Bytes) (found : Option Bytes)
      → spares p ≡ true
      → Keeps (write_missing p b found)
  unfolding write_missing
  write_missing-Keeps p b none h = write_synced-Keeps p b h
  write_missing-Keeps p b (some old) h = pure-Keeps tt

  -- The files of a revision are not the running file.
  pub record IsArchived (r : Revision) : Type 0 where
    pub yaml : spares r.file_path ≡ true
    pub snapshot : spares r.state_file_path ≡ true

  pub archive_revision-Keeps :
      (r : Revision) (s : env.State) (b : Bytes) → IsArchived r → Keeps (archive_revision r s b)
  unfolding archive_revision
  archive_revision-Keeps r s b h = bind-Keeps (read_managed_file-Keeps r.file_path) λ y.
      bind-Keeps (write_missing-Keeps r.file_path b y h.yaml) λ _.
        bind-Keeps (read_managed_file-Keeps r.state_file_path)
          λ z. bind-Keeps (write_missing-Keeps r.state_file_path _ z h.snapshot) (λ _. sync-Keeps)

  pub update_db-Keeps :
      (f : Tables env.State → Result (Tables env.State)) (e : Fault)
      → ((n : ℕ) (c : Core env.State) → KeepsView n c (into_db c (f c.db)))
      → Keeps (update_db f e)
  unfolding update_db
  update_db-Keeps f e h = execute-Keeps _ e (λ n c. unlocked n c c.tx)
    where
      unlocked :
          (n : ℕ) (c : Core env.State) (t : Option (Tables env.State))
          → KeepsView n c (when_unlocked t e (into_db c (f c.db)))
      unlocked n c none = h n c
      unlocked n c (some t) = tt

  pub record_failed_revision-Keeps : (r : Revision) → Keeps (record_failed_revision r)
  unfolding record_failed_revision insert_row
  record_failed_revision-Keeps r = update_db-Keeps _ _ (λ n c.
      inserted n c (not (env.is_known_actor r.actor_admin_id) || clashes failed_row c.db.revisions))
    where
      failed_row : Revision
      failed_row = record r { status = failed; activated_at = none }

      inserted :
          (n : ℕ) (c : Core env.State) (clash : Bool)
          → KeepsView n c (
              into_db c (
                with_revisions c.db (
                  if clash
                  then err (constraint_violated ∷ [])
                  else ok (failed_row ∷ c.db.revisions))))
      inserted n c true = tt
      inserted n c false = refl

  pub delete_revision-Keeps : (id : ℕ) → Keeps (delete_revision id)
  unfolding delete_revision
  delete_revision-Keeps id = bind-Keeps (read_db-Keeps _) λ n.
      bind-Keeps
        (update_db-Keeps (λ t. ok (record t { revisions = delete_row id t.revisions })) _
          rows_deleted)
        (λ _. guard-Keeps (n == 1) inactive_revision_not_found)
    where
      rows_deleted :
          (n : ℕ) (c : Core env.State)
          → view n (record c { db = record (c.db) { revisions = delete_row id c.db.revisions } })
            ≡ view n c
      rows_deleted n c = rw (actives-delete_row id c.db.revisions)

  within-spares : (p : ManagedPath) → path_within p ≡ true → spares p ≡ true
  unfolding path_within
  within-spares (revision_yaml n) h = refl
  within-spares (revision_state n) h = refl
  within-spares _ h = cc

  prune_revision-Keeps : (r : Revision) → Keeps (prune_revision r)
  unfolding prune_revision
  prune_revision-Keeps r = guarded-Keeps (not (is_active r.status)) revision_is_active λ _.
      guarded-Keeps (path_within r.file_path && path_within r.state_file_path) path_outside
        λ inside.
          let (yaml, snapshot) = both _ _ inside in
          bind-Keeps (remove_and_sync-Keeps r.file_path (within-spares r.file_path yaml)) λ _.
            bind-Keeps
              (remove_and_sync-Keeps r.state_file_path (within-spares r.state_file_path snapshot))
              λ _. delete_revision-Keeps r.id

  prune_all-Keeps : (rs : List Revision) → Keeps (prune_all rs)
  unfolding prune_all
  prune_all-Keeps [] = pure-Keeps tt
  prune_all-Keeps (r ∷ rs) = bind-Keeps (prune_revision-Keeps r) (λ _. prune_all-Keeps rs)

  pub prune-Keeps : (options : Options) → Keeps (prune options)
  unfolding prune inactive_revisions_beyond
  prune-Keeps options = bind-Keeps (read_db-Keeps _) (λ rs. prune_all-Keeps rs)

  pub archive_failed-Keeps :
      (r : Revision) (archived : Option (env.State × Bytes))
      → IsArchived r
      → Keeps (archive_failed r archived)
  unfolding archive_failed
  archive_failed-Keeps r none h = pure-Keeps tt
  archive_failed-Keeps r (some (s, b)) h =
      if-Keeps _ (pure-Keeps tt) (archive_revision-Keeps r s b h)

  pub prune_recorded-Keeps :
      (options : Options) (r : Result (Unit {0})) → Keeps (prune_recorded options r)
  unfolding prune_recorded
  prune_recorded-Keeps options (ok u) = ignore-Keeps (prune-Keeps options)
  prune_recorded-Keeps options (err es) = pure-Keeps tt

  pub record_failure-Keeps :
      {A : Type 0} (options : Options) (r : Revision) (archived : Option (env.State × Bytes))
      (stage : Stage) (cause : List Fault)
      → IsArchived r
      → Keeps (record_failure {A = A} options r archived stage cause)
  unfolding record_failure
  record_failure-Keeps options r archived stage cause h =
      bind-Keeps (attempt-Keeps (archive_failed-Keeps r archived h)) λ a.
        bind-Keeps
          (attempt-Keeps (
            record_failed_revision-Keeps
              (record r { status = failed; error_message = some stage })))
          λ b.
            bind-Keeps (prune_recorded-Keeps options b)
              (λ _. raise-Keeps (stage_failed stage ∷ cause ++ faults a ++ faults b))
