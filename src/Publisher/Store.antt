-- ===== src/Publisher/Store.antt =====
-- internal/store/managed.go: the publication transaction and the repository's own statements. A
-- statement outside the transaction finds the database locked while the transaction is open.
use m_ui.Prelude.{ℕ, true, Option, none, some, List, [], ◌∷◌, map, ◌==◌}
use m_ui.Publisher.World.{
  Env, Core, Tables, Revision, DegradedReason, SystemState, AuditEntry, failed,
}
use m_ui.Publisher.Monad.{
  Result, ok, err, M, Fault, ◌>>=◌, ◌>>◌, pure, guard, perform, execute, observe, call_failed,
  read_tables, write_tables, begin_transaction, close_transaction, commit_transaction,
  transaction_closed, database_busy, degraded_not_recorded, pending_revision_not_found,
  inactive_revision_not_found,
}
use m_ui.Publisher.Rows.{
  actives, one_active, next_number, insert_row, retire_row, promote_row, affected, inactive_beyond,
  insert_entry, delete_row, deleted,
}

module _ {S : Type 0} where
  abbrev pub read_tx : {A : Type 0} → Option (Tables S) → (Tables S → Result A) → Result A
  read_tx none f = err (transaction_closed ∷ [])
  read_tx (some t) f = f t

  abbrev pub into_tx : Core S → Result (Tables S) → Result (Core S)
  into_tx c (ok t) = ok (record c { tx = some t })
  into_tx c (err es) = err es

  abbrev pub into_db : Core S → Result (Tables S) → Result (Core S)
  into_db c (ok t) = ok (record c { db = t })
  into_db c (err es) = err es

  abbrev pub with_revisions : Tables S → Result (List Revision) → Result (Tables S)
  with_revisions t (ok rs) = ok (record t { revisions = rs })
  with_revisions t (err es) = err es

  abbrev pub with_audits : Tables S → Result (List AuditEntry) → Result (Tables S)
  with_audits t (ok entries) = ok (record t { audits = entries })
  with_audits t (err es) = err es

  abbrev pub when_unlocked : Option (Tables S) → Fault → Result (Core S) → Result (Core S)
  when_unlocked none e r = r
  when_unlocked (some t) e r = err (e ∷ database_busy ∷ [])

  -- A commit writes the transaction's tables through and closes it.
  abbrev pub committed : Core S → Option (Tables S) → Core S
  committed c none = c
  committed c (some t) = record c { db = t; tx = none }

module _ ⦃env : Env⦄ where
  -- A query of the open transaction.
  unfoldable pub in_tx : {A : Type 0} → (Tables env.State → Result A) → M A
  unfolding observe
  in_tx f = observe (λ c. read_tx c.tx f) (call_failed read_tables)

  -- A statement of the open transaction.
  unfoldable pub update_tx : (Tables env.State → Result (Tables env.State)) → M (Unit {0})
  unfolding execute
  update_tx f = execute (λ c. into_tx c (read_tx c.tx f)) (call_failed write_tables)

  -- A statement of its own connection.
  unfoldable pub update_db : (Tables env.State → Result (Tables env.State)) → Fault → M (Unit {0})
  unfolding execute
  update_db f e = execute (λ c. when_unlocked c.tx e (into_db c (f c.db))) e

  unfoldable pub read_db : {A : Type 0} → (Tables env.State → Result A) → M A
  unfolding observe
  read_db f = observe (λ c. f c.db) (call_failed read_tables)

  unfoldable pub begin_immediate : M (Unit {0})
  unfolding execute
  begin_immediate =
      execute
        (λ c. when_unlocked c.tx (call_failed begin_transaction) (ok (record c { tx = some c.db })))
        (call_failed begin_transaction)

  -- `Rollback` closes the transaction also where it reports an error.
  unfoldable pub rollback : M (Unit {0})
  rollback w =
      perform (λ c. c) (call_failed close_transaction)
        (record w { core = record (w.core) { tx = none } })

  -- `Commit` closes the transaction; an error says nothing of whether the tables were written.
  unfoldable pub commit : M (Unit {0})
  commit w =
      perform (λ c. committed (record c { tx = w.tx }) w.tx) (call_failed commit_transaction)
        (record w { core = record (w.core) { tx = none } })

  unfoldable pub desired_state : ℕ → M env.State
  unfolding in_tx
  desired_state as_of = in_tx (λ t. ok (env.load_at t.desired as_of))

  unfoldable pub active_revision : M (Option Revision)
  unfolding in_tx
  active_revision = in_tx (λ t. one_active (actives t.revisions))

  unfoldable pub next_revision_number : M ℕ
  unfolding in_tx next_number
  next_revision_number = in_tx (λ t. ok (next_number t.revisions))

  unfoldable pub insert_revision : Revision → M (Unit {0})
  unfolding update_tx insert_row
  insert_revision r =
      update_tx
        (λ t. with_revisions t (insert_row (env.is_known_actor r.actor_admin_id) r t.revisions))

  unfoldable pub activate_revision : ℕ → ℕ → M (Unit {0})
  unfolding update_tx in_tx retire_row promote_row
  activate_revision id activated_at = do
    update_tx (λ t. ok (record t { revisions = map retire_row t.revisions }))
    count ← in_tx (λ t. ok (affected id t.revisions))
    update_tx (λ t. ok (record t { revisions = map (promote_row id activated_at) t.revisions }))
    guard (count == 1) pending_revision_not_found

  unfoldable pub insert_audit : AuditEntry → M (Unit {0})
  unfolding update_tx insert_entry
  insert_audit entry =
      update_tx
        (λ t. with_audits t (insert_entry (env.is_known_actor entry.actor_admin_id) entry t.audits))

  unfoldable pub system_state : M SystemState
  unfolding read_db
  system_state = read_db (λ t. ok t.system)

  unfoldable pub mark_degraded : DegradedReason → ℕ → ℕ → M (Unit {0})
  unfolding update_db
  mark_degraded reason revision_id at =
      update_db
        (λ t. ok (record t {
          system = record {
            degraded = true;
            degraded_reason = some reason;
            degraded_revision_id = some revision_id;
            updated_at = at;
          };
        }))
        degraded_not_recorded

  unfoldable pub record_failed_revision : Revision → M (Unit {0})
  unfolding update_db insert_row
  record_failed_revision r =
      update_db
        (λ t. with_revisions t (
          insert_row (env.is_known_actor r.actor_admin_id)
            (record r { status = failed; activated_at = none }) t.revisions))
        (call_failed write_tables)

  unfoldable pub inactive_revisions_beyond : ℕ → M (List Revision)
  unfolding read_db inactive_beyond
  inactive_revisions_beyond limit = read_db (λ t. inactive_beyond limit t.revisions)

  unfoldable pub delete_revision : ℕ → M (Unit {0})
  unfolding update_db read_db delete_row
  delete_revision id = do
    count ← read_db (λ t. ok (deleted id t.revisions))
    update_db (λ t. ok (record t { revisions = delete_row id t.revisions }))
        (call_failed write_tables)
    guard (count == 1) inactive_revision_not_found

  -- `ReadPublicationSnapshot`: the durable desired state and the active revision, in one snapshot.
  unfoldable pub read_publication_snapshot : ℕ → M (env.State × Option Revision)
  unfolding read_db
  read_publication_snapshot as_of = do
    state ← read_db (λ t. ok (env.load_at t.desired as_of))
    revision ← read_db (λ t. one_active (actives t.revisions))
    pure (state, revision)
