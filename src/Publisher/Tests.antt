-- ===== src/Publisher/Tests.antt =====
-- The promises of the publisher at one small publication.
use m_ui.Prelude.{
  ℕ, ◌≡◌, refl, true, false, none, some, [], ◌∷◌, length, List, keep, All, ◌-◌, ◌<◌, arith,
}
use m_ui.Publisher.World.{Tables, config, Revision, failed, reload_failed, path_eq}
use m_ui.Publisher.Monad.{ok, World, database_busy}
use m_ui.Publisher.Rows.{actives, insert_row, inactive_beyond, next_number}
use m_ui.Publisher.Store.{activate_revision}
use m_ui.Publisher.Recovery.{fail_after_replacement, prune, record_failure, restore_previous}
use m_ui.Publisher.Verify.{verify_previous}
use m_ui.Publisher.Runtime.{is_ok}
use m_ui.Publisher.Request.{Request}
use m_ui.Publisher.Commit.{Baseline, publish_compiled_with_runtime, reconcile_commit}
use m_ui.Publisher.Publish.{publish_locked}
use m_ui.Publisher.View.{view}
use m_ui.Publisher.Keeps.{IsArchived}
use m_ui.Publisher.Triple.{Post}
use m_ui.Publisher.Agreement.{seen, InSync, Failed}
use m_ui.Publisher.Agreement.Failure.{Never}
use m_ui.Publisher.Agreement.Reconcile.{IsPublished, Returns}
use m_ui.Publisher.Agreement.Activate.{promoted}
use m_ui.Publisher.Agreement.Verified.{IsVerified}
use m_ui.Publisher.Guarantees.{
  publish_locked-agrees, reconcile_commit-agrees, fail_after_replacement-agrees,
  verify_previous-agrees, activate_revision-alone, restore_previous-restores,
  publish_compiled_with_runtime-replaces, record_failure-records, prune-keeps,
}
use m_ui.Publisher.Retention.{
  is_pruneable, not_older, insert_row-next_number, inactive_beyond-oldest,
}
use m_ui.Publisher.Refusal.{publish_locked-degraded}
use m_ui.Publisher.Example.{
  demo_options, demo_revision, demo_core, demo_request, set_nine, reliable, forgetful,
  next_revision, demo_tables, demo_file,
}

abbrev start : World ⦃env = forgetful⦄
start = record { core = demo_core; tick = 0 }

abbrev change : Request ⦃env = forgetful⦄
change = demo_request forgetful set_nine

abbrev in_transaction : World ⦃env = forgetful⦄
in_transaction = record { core = record demo_core { tx = some demo_tables }; tick = 0 }

abbrev degraded_start : World ⦃env = forgetful⦄
degraded_start = record {
  core = record demo_core {
    db = record (demo_core.db) { system = record (demo_core.db.system) { degraded = true } };
  };
  tick = 0;
}

abbrev demo_baseline : Baseline
demo_baseline = record {
  database_sha256 = 7;
  database_as_of = 0;
  active_revision = some demo_revision;
  active_yaml = demo_file;
}

abbrev retired : Revision
retired = record next_revision { status = failed }

archived : IsArchived ⦃env = forgetful⦄ next_revision
archived = record { yaml = refl; snapshot = refl }

-- With calls that all end as they should, the publication returns a revision.
publish_locked-returns :
    is_ok
      (publish_locked ⦃env = reliable⦄ demo_options
        (demo_request reliable set_nine)
        (record { core = demo_core; tick = 0 })).0
    ≡ true
unfolding publish_locked path_eq
publish_locked-returns = refl

publish_locked-agrees_example :
    Post ⦃env = forgetful⦄
      (λ q c. IsPublished ⦃env = forgetful⦄ q (seen c))
      (λ es c. Failed ⦃env = forgetful⦄ es (seen c))
      (publish_locked ⦃env = forgetful⦄ demo_options change start)
unfolding path_eq
publish_locked-agrees_example =
    publish_locked-agrees ⦃env = forgetful⦄ demo_options change start refl

reconcile_commit-agrees_example :
    Post ⦃env = forgetful⦄
      (λ q c. Returns ⦃env = forgetful⦄ next_revision q c)
      (λ es c. Failed ⦃env = forgetful⦄ es (seen c))
      (reconcile_commit ⦃env = forgetful⦄ demo_options next_revision 5 5 demo_baseline false
        (database_busy ∷ [])
        start)
reconcile_commit-agrees_example =
    reconcile_commit-agrees ⦃env = forgetful⦄ demo_options next_revision 5 5 demo_baseline false
      (database_busy ∷ []) start archived (refl, refl, refl)

fail_after_replacement-agrees_example :
    Post ⦃env = forgetful⦄ {A = Revision}
      (Never ⦃env = forgetful⦄)
      (λ es c. Failed ⦃env = forgetful⦄ es (seen c))
      (fail_after_replacement ⦃env = forgetful⦄ demo_options next_revision demo_file false
        reload_failed
        (database_busy ∷ [])
        in_transaction)
fail_after_replacement-agrees_example =
    fail_after_replacement-agrees ⦃env = forgetful⦄ demo_options next_revision demo_file false
      reload_failed (database_busy ∷ []) in_transaction archived refl

verify_previous-agrees_example :
    Post ⦃env = forgetful⦄
      (λ v c.
        IsVerified ⦃env = forgetful⦄ (some demo_revision) v × InSync ⦃env = forgetful⦄ (seen c))
      (λ es c. Failed ⦃env = forgetful⦄ es (seen c))
      (verify_previous ⦃env = forgetful⦄ (some demo_revision) in_transaction)
unfolding path_eq
verify_previous-agrees_example =
    verify_previous-agrees ⦃env = forgetful⦄ (some demo_revision) demo_tables in_transaction refl
      refl refl

activate_revision-alone_example :
    Post ⦃env = forgetful⦄
      (λ _ c.
        (u : Tables (ℕ × ℕ)) × (c.tx ≡ some u)
        × (seen c ≡ seen demo_core)
        × (actives u.revisions ≡ promoted 8 next_revision ∷ []))
      (λ _ c. seen c ≡ seen demo_core)
      (activate_revision ⦃env = forgetful⦄ 2 8 in_transaction)
activate_revision-alone_example =
    activate_revision-alone ⦃env = forgetful⦄ next_revision 8 demo_tables (demo_revision ∷ [])
      in_transaction refl refl refl

restore_previous-restores_example :
    Post ⦃env = forgetful⦄
      (λ _ c. (actives c.db.revisions ≡ demo_revision ∷ []) × (c.files config ≡ some (7 ∷ [])))
      (λ _ c. actives c.db.revisions ≡ demo_revision ∷ [])
      (restore_previous ⦃env = forgetful⦄ demo_options 2 demo_file false start)
restore_previous-restores_example =
    restore_previous-restores ⦃env = forgetful⦄ demo_options 2 demo_file false start

publish_compiled_with_runtime-replaces_example :
    Post ⦃env = forgetful⦄
      (λ _ c. (actives c.db.revisions ≡ demo_revision ∷ []) × (c.files config ≡ some (9 ∷ [])))
      (λ _ _. Unit {0})
      (publish_compiled_with_runtime ⦃env = forgetful⦄ demo_options (9 ∷ []) true start)
publish_compiled_with_runtime-replaces_example =
    publish_compiled_with_runtime-replaces ⦃env = forgetful⦄ demo_options (9 ∷ []) true start

record_failure-records_example :
    Post ⦃env = forgetful⦄ {A = Revision}
      (Never ⦃env = forgetful⦄)
      (λ _ c. view 2 c ≡ view 2 demo_core)
      (record_failure ⦃env = forgetful⦄ demo_options next_revision none reload_failed
        (database_busy ∷ [])
        start)
record_failure-records_example =
    record_failure-records ⦃env = forgetful⦄ demo_options next_revision none reload_failed
      (database_busy ∷ []) 2 start archived

prune-keeps_example : view 2 (prune ⦃env = forgetful⦄ demo_options start).1.core ≡ view 2 demo_core
prune-keeps_example = prune-keeps ⦃env = forgetful⦄ demo_options 2 start

publish_locked-degraded_example :
    Post ⦃env = forgetful⦄
      (Never ⦃env = forgetful⦄)
      (λ _ c. c ≡ degraded_start.core)
      (publish_locked ⦃env = forgetful⦄ demo_options change degraded_start)
publish_locked-degraded_example =
    publish_locked-degraded ⦃env = forgetful⦄ demo_options change degraded_start refl

insert_row-next_number_example :
    insert_row
      (forgetful.is_known_actor next_revision.actor_admin_id)
      next_revision
      (demo_revision ∷ [])
    ≡ ok (next_revision ∷ demo_revision ∷ [])
insert_row-next_number_example =
    insert_row-next_number (forgetful.is_known_actor next_revision.actor_admin_id) next_revision
      (demo_revision ∷ []) refl refl (unfold next_number in refl)

abbrev finished_rows : List Revision
finished_rows =
    record retired { id = 11; revision_number = 4 }
    ∷ record retired { id = 12; revision_number = 2 }
    ∷ record retired { id = 13; revision_number = 6 }
    ∷ demo_revision
    ∷ []

-- The one row that a limit of two leaves for pruning.
inactive_beyond_run :
    inactive_beyond 2 finished_rows ≡ ok (record retired { id = 12; revision_number = 2 } ∷ [])
unfolding inactive_beyond
inactive_beyond_run = refl

inactive_beyond-oldest_example :
    (pruned : List Revision) × (inactive_beyond 2 finished_rows ≡ ok pruned)
    × (actives pruned ≡ [])
    × (length pruned ≡ length (keep is_pruneable finished_rows) - 2)
    × All (λ r. 2 < not_older r (keep is_pruneable finished_rows)) pruned
inactive_beyond-oldest_example = inactive_beyond-oldest 2 finished_rows (omega arith)
