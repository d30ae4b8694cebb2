-- ===== src/Publisher/Agreement/Landing.antt =====
-- The rows and the audit entry of a publication that lands, and its commit (`publishLocked` of
-- internal/publisher/publisher.go).
use text.Mathlib.Text.{◌==◌ as str_eq}
use m_ui.Prelude.{
  ℕ, ◌≡◌, refl, subst, Bool, true, false, not, ◌||◌, Option, none, some, List, [], ◌∷◌,
  if◌then◌else◌,
}
use m_ui.Publisher.World.{Env, Core, Tables, Bytes, config, Revision, AuditEntry, pending}
use m_ui.Publisher.Monad.{
  ok, err, constraint_violated, Fault, M, call_failed, commit_transaction, now,
}
use m_ui.Publisher.Rows.{actives, one_active, has_entry, insert_entry}
use m_ui.Publisher.Store.{commit, committed, with_audits, insert_audit}
use m_ui.Publisher.Request.{Request}
use m_ui.Publisher.Publish.{Publication, insert_success_audit, audit_success}
use m_ui.Publisher.View.{Keeps, new_id-Keeps}
use m_ui.Publisher.Keeps.{IsArchived}
use m_ui.Publisher.Triple.{Triple, bind, weaken, return, branch, performs, kept, Pred}
use m_ui.Publisher.Agreement.{Seen, seen, of_view, prior, Synced}
use m_ui.Publisher.Agreement.Restore.{ok-injective, Anything}
use m_ui.Publisher.Agreement.Baseline.{IsBaseline}
use m_ui.Publisher.Agreement.Reconcile.{IsPublished}
use m_ui.Publisher.Agreement.Activate.{InTx, Activated, promoted, update_tx-finds, seen_in_tx}

module _ ⦃env : Env⦄ where
  -- What is fixed about a publication once its candidate is validated.
  pub record Sound (rs : List Revision) (p : Publication) : Type 0 where
    pub archived : IsArchived p.revision
    pub waits : p.revision.status ≡ pending
    pub digest : env.sha256 p.compiled ≡ p.revision.sha256
    pub one : one_active rs ≡ ok p.baseline.active_revision
    pub verified : IsBaseline p.baseline.active_revision p.baseline.active_yaml
    pub restorable : Synced rs (prior p.baseline.active_yaml)

  committed-tables :
      (c : Core env.State) (o : Option (Tables env.State)) (t : Tables env.State)
      (l : List Revision) (b : Bytes)
      → o ≡ some t
      → actives t.revisions ≡ l
      → c.files config ≡ some b
      → (actives (committed (record c { tx = o }) o).db.revisions ≡ l)
        × ((committed (record c { tx = o }) o).files config ≡ some b)
  committed-tables c o t l b e h f = rw e (h, f)

  pub commit-publishes :
      (r : Revision) (at : ℕ) (b : Bytes)
      → env.sha256 b ≡ r.sha256
      → Triple
          (λ c. InTx (λ s. s.config ≡ some b) (Activated r at) c)
          commit
          (λ _ c. IsPublished r (seen c))
          (λ _ c. Anything c)
  unfolding commit
  commit-publishes r at b digest = record {
    holds = λ w (t, is_t, f, h).
        (performs {P = λ c. c.files config ≡ some b}
            (λ c. committed (record c { tx = w.core.tx }) w.core.tx)
            (call_failed commit_transaction)
            (λ c g.
              let done = committed-tables c w.core.tx t (promoted at r ∷ []) b is_t h g in
              (promoted at r, b, done.0, done.1, refl, refl, digest))
            (λ c g. tt) (λ c g. tt)).holds
          (record w { core = record (w.core) { tx = none } }) f;
  }

  pub kept_in_tx :
      {A : Type 0} {m : M A} (F : Seen → Type 0) (I : Tables env.State → Type 0)
      → Keeps m
      → Triple (λ c. InTx F I c) m (λ _ c. InTx F I c) (λ _ c. F (seen c))
  kept_in_tx F I k =
      weaken (kept 0 (λ v. (t : Tables env.State) × (v.tx ≡ some t) × F (of_view v) × I t) k)
        (λ c h. h) (λ _ c h. h) (λ _ c h. seen_in_tx F I c h)

  pub clock : {E : List Fault → Pred} (P : Pred) → Triple P now (λ _. P) E
  unfolding now
  clock P = record { holds = λ w h. h }

  -- An audit entry leaves the revisions as they are.
  audited :
      (is_known : Bool) (entry : AuditEntry) (r : Revision) (since : ℕ) (t u : Tables env.State)
      → with_audits t (insert_entry is_known entry t.audits) ≡ ok u
      → Activated r since t
      → Activated r since u
  unfolding insert_entry
  audited is_known entry r since t u e h = by_clash (not is_known || has_entry entry.id t.audits) e
    where
      by_clash :
          (b : Bool)
          → with_audits t (if b then err (constraint_violated ∷ []) else ok (entry ∷ t.audits))
            ≡ ok u
          → Activated r since u
      by_clash true k = cc
      by_clash false k =
          subst (Activated r since) (ok-injective (record t { audits = entry ∷ t.audits }) u k) h

  insert_audit-Activated :
      (entry : AuditEntry) (F : Seen → Type 0) (r : Revision) (since : ℕ)
      → Triple
          (λ c. InTx F (Activated r since) c)
          (insert_audit entry)
          (λ _ c. InTx F (Activated r since) c)
          (λ _ c. F (seen c))
  unfolding insert_audit
  insert_audit-Activated entry F r since =
      update_tx-finds
        (λ t. with_audits t (insert_entry (env.is_known_actor entry.actor_admin_id) entry t.audits))
        F (Activated r since) (Activated r since)
        (audited (env.is_known_actor entry.actor_admin_id) entry r since)

  insert_success_audit-Activated :
      (request : Request) (at : ℕ) (F : Seen → Type 0) (r : Revision) (since : ℕ)
      → Triple
          (λ c. InTx F (Activated r since) c)
          (insert_success_audit request at)
          (λ _ c. InTx F (Activated r since) c)
          (λ _ c. F (seen c))
  unfolding insert_success_audit
  insert_success_audit-Activated request at F r since =
      bind (kept_in_tx F (Activated r since) new_id-Keeps)
        (λ id. insert_audit-Activated _ F r since)

  pub audit_success-Activated :
      (request : Request) (at : ℕ) (F : Seen → Type 0) (r : Revision) (since : ℕ)
      → Triple
          (λ c. InTx F (Activated r since) c)
          (audit_success request at)
          (λ _ c. InTx F (Activated r since) c)
          (λ _ c. F (seen c))
  unfolding audit_success
  audit_success-Activated request at F r since =
      branch (str_eq request.audit_action "") (λ _. return tt (λ c h. h))
        (λ _. insert_success_audit-Activated request at F r since)
