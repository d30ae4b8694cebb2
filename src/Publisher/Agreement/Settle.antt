-- ===== src/Publisher/Agreement/Settle.antt =====
-- What `reconcileCommit` leaves (internal/publisher/publisher.go).
use m_ui.Prelude.{
  ℕ, Bool, true, ◌≡◌, refl, ◌∙◌, sym, inl, inr, Option, none, List, [], ◌∷◌, ◌++◌, arith, ◌==◌,
  ◌&&◌, ◌||◌, not,
}
use m_ui.Publisher.World.{
  Env, Options, Core, Bytes, config, Revision, SystemState, DegradedReason, commit_failed,
}
use m_ui.Publisher.Monad.{Result, ok, err, Fault, recovery_failed, commit_unclassified, faults, M}
use m_ui.Publisher.Files.{FileState, file_state, file_state_matches}
use m_ui.Publisher.Rows.{actives, one_active}
use m_ui.Publisher.Commit.{
  revision_matches, Baseline, mark_commit_degraded, Durable, is_new, is_old, is_other, report_undo,
  undo_publication, settle_commit, reconcile_commit,
}
use m_ui.Publisher.Keeps.{IsArchived}
use m_ui.Publisher.Triple.{Triple, bind, weaken, fail, catch, handle, branch, Either, Pred}
use m_ui.Publisher.Agreement.{seen, of_view, unrecorded-append_left, prior, Synced, InSync, Failed}
use m_ui.Publisher.Agreement.Restore.{Anything}
use m_ui.Publisher.Agreement.Failure.{
  Never, never, Recovered, recovered, restore_previous-prior, record_failure-raises,
}
use m_ui.Publisher.Agreement.Baseline.{IsBaseline, file_state-some, prior-Synced, old-Synced}
use m_ui.Publisher.Agreement.Reconcile.{
  IsPublished, Returns, finish-Returns, mark_commit-Failed, read_publication_snapshot-finds,
  read_active_yaml-At, At, IsKind, classify_durable-IsKind, under,
}
use m_ui.Publisher.Agreement.Redo.{redo_publication-Returns}

module _ ⦃env : Env⦄ where
  widened :
      (marking : Result (Unit {0})) (failure : List Fault) (c : Core env.State)
      → Either Never (λ es d. Failed es (seen d)) marking c
      → Failed (faults marking ++ failure) (seen c)
  widened (ok u) failure c h = absurd h
  widened (err es) failure c (inl h) = inl h
  widened (err es) failure c (inr (inl h)) = inr (inl h)
  widened (err es) failure c (inr (inr h)) = inr (inr (unrecorded-append_left es failure h))

  report_undo-Failed :
      (r : Revision) (failure : List Fault) (recovering : Result (Unit {0}))
      → Triple
          (λ c. Recovered recovering (seen c))
          (report_undo r failure recovering)
          Never
          (λ es c. Failed es (seen c))
  unfolding report_undo
  report_undo-Failed r failure (ok u) = fail failure (λ c h. inl h)
  report_undo-Failed r failure (err es) =
      bind
        (weaken
          (catch (
            mark_commit-Failed {A = Unit {0}} DegradedReason.restore_failed r.id
              (recovery_failed ∷ es)))
          (λ c h. tt) (λ q c h. h) (λ _ c h. h))
        (λ marking. fail (faults marking ++ failure) (λ c h. widened marking failure c h))

  undo_publication-Failed :
      (options : Options) (r : Revision) (base : Baseline) (restart_required : Bool)
      (cause : List Fault) (rs : List Revision)
      → IsArchived r
      → Synced rs (prior base.active_yaml)
      → Triple
          (λ c. actives c.db.revisions ≡ rs)
          (undo_publication options r base restart_required cause)
          Never
          (λ es c. Failed es (seen c))
  unfolding undo_publication
  undo_publication-Failed options r base restart_required cause rs a s =
      bind {Q = λ recovering c. Recovered recovering (seen c)}
        (weaken (catch (restore_previous-prior options r.id base.active_yaml restart_required rs))
          (λ c h. h) (λ q c h. recovered q rs (prior base.active_yaml) c s h) (λ _ c h. h))
        (λ recovering.
          bind {Q = λ _ c. Recovered recovering (seen c)}
            (weaken
              (catch (
                record_failure-raises {A = Unit {0}} options r none commit_failed cause 0
                  (λ v. Recovered recovering (of_view v)) a))
              (λ c h. h) (λ failure c h. never failure c (λ d. Recovered recovering (seen d)) h)
              (λ es c h. h))
            (λ failure. report_undo-Failed r (faults failure) recovering))

  inconsistent-Failed :
      (r : Revision)
      → Triple Anything
          (mark_commit_degraded {A = Revision} DegradedReason.commit_inconsistent r.id
            (commit_unclassified ∷ []))
          (λ q c. Returns r q c)
          (λ es c. Failed es (seen c))
  inconsistent-Failed r =
      weaken (mark_commit-Failed DegradedReason.commit_inconsistent r.id (commit_unclassified ∷ []))
        (λ c h. h) (λ _ c h. absurd h) (λ _ c h. h)

  already-IsPublished :
      (r found : Revision) (yaml : FileState) (rs : List Revision) (f : Option Bytes)
      (s : SystemState)
      → rs ≡ found ∷ []
      → found.sha256 ≡ r.sha256
      → file_state f ≡ yaml
      → yaml.exists && yaml.sha256 == r.sha256 ≡ true
      → IsPublished found (record { actives = rs; config = f; system = s })
  already-IsPublished r found yaml rs f s one same e h =
      let (b, is_b, digest) = file_state-some f yaml e (ground arith) in
      (found, b, one, is_b, refl, refl, ground arith)

  settle_new :
      (options : Options) (r found : Revision) (at : ℕ) (base : Baseline) (restart_required : Bool)
      (cause : List Fault) (b : Bytes) (yaml : FileState) (rs : List Revision)
      → rs ≡ found ∷ []
      → found.id ≡ r.id
      → found.sha256 ≡ r.sha256
      → env.sha256 b ≡ r.sha256
      → Triple
          (At rs yaml)
          (settle_commit options r at base restart_required cause (is_new found b) yaml)
          (λ q c. Returns r q c)
          (λ es c. Failed es (seen c))
  unfolding settle_commit
  settle_new options r found at base restart_required cause b yaml rs one same same_sha digest =
      branch (yaml.exists && yaml.sha256 == r.sha256)
        (λ m.
          weaken (finish-Returns options r found at same)
            (λ c h.
              already-IsPublished r found yaml (actives c.db.revisions) (c.files config) c.db.system
                (h.0 ∙ one) same_sha h.1 m)
            (λ _ c h. h) (λ _ c h. h))
        (λ _.
          branch (not yaml.exists || file_state_matches yaml base.active_yaml)
            (λ _.
              weaken (redo_publication-Returns options r found at b same (digest ∙ sym same_sha))
                (λ c h. h.0 ∙ one) (λ _ c h. h) (λ _ c h. h))
            (λ _. weaken (inconsistent-Failed r) (λ c h. tt) (λ _ c h. h) (λ _ c h. h)))

  settle_old :
      (options : Options) (r : Revision) (at : ℕ) (base : Baseline) (restart_required : Bool)
      (cause : List Fault) (yaml : FileState) (rs : List Revision) (found : Option Revision)
      → one_active rs ≡ ok found
      → revision_matches found base.active_revision ≡ true
      → IsArchived r
      → IsBaseline base.active_revision base.active_yaml
      → Triple
          (At rs yaml)
          (settle_commit options r at base restart_required cause is_old yaml)
          (λ q c. Returns r q c)
          (λ es c. Failed es (seen c))
  unfolding settle_commit
  settle_old options r at base restart_required cause yaml rs found one same a old =
      branch (file_state_matches yaml base.active_yaml)
        (λ m.
          weaken
            (record_failure-raises options r none commit_failed cause 0 (λ v. InSync (of_view v)) a)
            (λ c h.
              old-Synced (actives c.db.revisions) found base.active_revision base.active_yaml yaml
                (c.files config) (rw h.0 one) same old h.1 m)
            (λ _ c h. absurd h) (λ _ c h. inl h))
        (λ _.
          branch (yaml.exists && yaml.sha256 == r.sha256)
            (λ _.
              weaken
                (undo_publication-Failed options r base restart_required cause rs a
                  (prior-Synced rs found base.active_revision base.active_yaml one same old))
                (λ c h. h.0) (λ _ c h. absurd h) (λ _ c h. h))
            (λ _. weaken (inconsistent-Failed r) (λ c h. tt) (λ _ c h. h) (λ _ c h. h)))

  settle_commit-Returns :
      (options : Options) (r : Revision) (at : ℕ) (base : Baseline) (restart_required : Bool)
      (cause : List Fault) (kind : Durable) (yaml : FileState) (rs : List Revision)
      → IsArchived r
      → IsBaseline base.active_revision base.active_yaml
      → Triple
          (λ c. IsKind rs r base kind × At rs yaml c)
          (settle_commit options r at base restart_required cause kind yaml)
          (λ q c. Returns r q c)
          (λ es c. Failed es (seen c))
  unfolding settle_commit
  settle_commit-Returns options r at base restart_required cause (is_new found b) yaml rs a old =
      under
        (λ k. settle_new options r found at base restart_required cause b yaml rs k.0 k.1 k.2 k.3)
  settle_commit-Returns options r at base restart_required cause is_old yaml rs a old =
      under (λ k. settle_old options r at base restart_required cause yaml rs k.0 k.1 k.2 a old)
  settle_commit-Returns options r at base restart_required cause is_other yaml rs a old =
      weaken (inconsistent-Failed r) (λ c h. tt) (λ _ c h. h) (λ _ c h. h)

  marked :
      {A : Type 0} {P : Pred} {m : M A} {Q : A → Pred}
      → Triple Anything m Never (λ es c. Failed es (seen c))
      → Triple P m Q (λ es c. Failed es (seen c))
  marked t = weaken t (λ c h. tt) (λ _ c h. absurd h) (λ _ c h. h)

  -- Whatever the failed commit has left in the tables, and whoever has written to the running
  -- file, either the new revision is active and runs, or the error leaves agreement or a mark.
  pub reconcile_commit-Returns :
      (options : Options) (r : Revision) (activated_at effective_at : ℕ) (base : Baseline)
      (restart_required : Bool) (cause : List Fault) (rs : List Revision)
      → IsArchived r
      → IsBaseline base.active_revision base.active_yaml
      → Triple
          (λ c. actives c.db.revisions ≡ rs)
          (reconcile_commit options r activated_at effective_at base restart_required cause)
          (λ q c. Returns r q c)
          (λ es c. Failed es (seen c))
  unfolding reconcile_commit
  reconcile_commit-Returns options r activated_at effective_at base restart_required cause rs a
        old =
      bind
        (handle (read_publication_snapshot-finds effective_at rs (λ v. v.actives ≡ rs) (λ v h. h))
          (λ es. marked (
            mark_commit-Failed DegradedReason.commit_not_reconciled r.id
              (commit_unclassified ∷ es))))
        (λ durable.
          bind {Q = λ yaml c. (one_active rs ≡ ok durable.1) × At rs yaml c}
            (handle
              (under (λ one.
                weaken (read_active_yaml-At rs) (λ c h. h) (λ _ c h. (one, h)) (λ _ c h. h)))
              (λ es. marked (
                mark_commit-Failed DegradedReason.commit_yaml_unreadable r.id
                  (commit_unclassified ∷ es))))
            (λ yaml.
              bind
                (handle
                  (under (λ one. classify_durable-IsKind r effective_at base rs yaml durable one))
                  (λ es. marked (
                    mark_commit-Failed DegradedReason.commit_not_reconciled r.id
                      (commit_unclassified ∷ es))))
                (λ kind.
                  settle_commit-Returns options r activated_at base restart_required cause kind yaml
                    rs a old)))
