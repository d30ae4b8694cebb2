-- ===== src/Publisher/Agreement/Failure.antt =====
-- The end of a publication that failed after the file was replaced: the file is put back, or the
-- system is marked degraded (internal/publisher/publisher.go).
use m_ui.Prelude.{
  ℕ, Bool, true, false, ◌≡◌, refl, sym, subst, inl, inr, Option, none, some, List, ◌∷◌, ◌++◌,
}
use m_ui.Publisher.World.{
  Env, Options, Core, Tables, Bytes, config, recovery, path_eq, Revision, DegradedReason, Stage,
  failed,
}
use m_ui.Publisher.Monad.{Result, ok, err, Fault, recovery_failed, stage_failed, faults}
use m_ui.Publisher.Files.{FileState, set_file, remove_file_at, remove_and_sync}
use m_ui.Publisher.Rows.{actives}
use m_ui.Publisher.Recovery.{
  record_failure, restore_runtime, restore_content, restore_previous, report_recovery,
  fail_after_replacement,
}
use m_ui.Publisher.View.{View, view, Keeps, attempt-Keeps, bind-Keeps, pure-Keeps}
use m_ui.Publisher.Keeps.{
  IsArchived, archive_failed-Keeps, record_failed_revision-Keeps, prune_recorded-Keeps,
  reload_with_fallback-Keeps, wait_healthy-Keeps, stop-Keeps, sync-Keeps, remove_file_at-Keeps,
}
use m_ui.Publisher.Triple.{
  Triple, bind, weaken, fail, catch, drop, deferred, branch, performs, Either, kept, Pred,
}
use m_ui.Publisher.Agreement.{
  Seen, seen, of_view, unrecorded, unrecorded-append_left, unrecorded-append_right, IsDegraded,
  prior, Synced, InSync, Failed, Calm, Keeps-Calm, calmed, rollback-Calm,
}
use m_ui.Publisher.Agreement.Restore.{
  Holds, degrade-IsDegraded, write_synced-Holds, replace_and_sync-Holds,
}

module _ ⦃env : Env⦄ where
  abbrev pub Never : {A : Type 0} → A → Pred
  Never a c = ⊥

  pub restore_runtime-Keeps :
      (options : Options) (restart_required : Bool)
      → Keeps (restore_runtime options restart_required)
  unfolding restore_runtime
  restore_runtime-Keeps options true = pure-Keeps tt
  restore_runtime-Keeps options false =
      bind-Keeps reload_with_fallback-Keeps (λ _. wait_healthy-Keeps options.health_polls)

  restore_content-Holds :
      (options : Options) (id : ℕ) (content : Bytes) (restart_required : Bool) (rs : List Revision)
      (f : Option Bytes) (x : Option (Tables env.State))
      → Triple
          (Holds rs f x)
          (restore_content options id content restart_required)
          (λ _ c. Holds rs (some content) x c)
          (λ _ c. actives c.db.revisions ≡ rs)
  unfolding restore_content path_eq
  restore_content-Holds options id content restart_required rs f x =
      let calm : Calm (remove_file_at (recovery id)) =
        Keeps-Calm (remove_file_at-Keeps (recovery id) refl) in
      deferred (remove_file_at (recovery id))
        (bind
          {Q = λ _ c.
            (c.files (recovery id) ≡ some content) × (actives c.db.revisions ≡ rs) × (c.tx ≡ x)}
          (weaken (write_synced-Holds (recovery id) content rs f x refl) (λ c h. h)
            (λ _ c h. (h.0, h.1.0, h.1.2)) (λ _ c h. h.0))
          (λ _. bind (replace_and_sync-Holds (recovery id) content rs x refl) (λ _.
            weaken
              (kept 0 (λ v. (v.actives ≡ rs) × (v.config ≡ some content) × (v.tx ≡ x))
                (restore_runtime-Keeps options restart_required))
              (λ c h. h) (λ _ c h. h) (λ _ c h. h.0))))
        (λ _ w h.
          subst (λ (v : View env.State). (v.actives ≡ rs) × (v.config ≡ some content) × (v.tx ≡ x))
            (sym ((remove_file_at-Keeps (recovery id) refl).keeps 0 w)) h)
        (λ _ w h.
          subst (λ (v : View env.State). v.actives ≡ rs)
            (sym ((remove_file_at-Keeps (recovery id) refl).keeps 0 w)) h)

  remove_config-Holds :
      (rs : List Revision) (x : Option (Tables env.State))
      → Triple
          (λ c. (actives c.db.revisions ≡ rs) × (c.tx ≡ x))
          (remove_and_sync config)
          (λ _ c. Holds rs none x c)
          (λ _ c. actives c.db.revisions ≡ rs)
  unfolding remove_and_sync remove_file_at set_file path_eq
  remove_config-Holds rs x =
      bind {Q = λ _ c. Holds rs none x c}
        (performs _ _ (λ c h. (h.0, refl, h.1)) (λ c h. h.0) (λ c h. h.0))
        (λ _.
          weaken (kept 0 (λ v. (v.actives ≡ rs) × (v.config ≡ none) × (v.tx ≡ x)) sync-Keeps)
            (λ c h. h) (λ _ c h. h) (λ _ c h. h.0))

  restore_previous-Holds :
      (options : Options) (id : ℕ) (previous : FileState) (restart_required : Bool)
      (rs : List Revision) (f : Option Bytes) (x : Option (Tables env.State))
      → Triple
          (Holds rs f x)
          (restore_previous options id previous restart_required)
          (λ _ c. Holds rs (prior previous) x c)
          (λ _ c. actives c.db.revisions ≡ rs)
  unfolding restore_previous
  restore_previous-Holds options id previous restart_required rs f x =
      branch previous.exists
        (λ e. rw e (restore_content-Holds options id previous.content restart_required rs f x))
        (λ e. rw e (
          bind (weaken (remove_config-Holds rs x) (λ c h. (h.0, h.2)) (λ _ c h. h) (λ _ c h. h))
            (λ _.
              weaken (kept 0 (λ v. (v.actives ≡ rs) × (v.config ≡ none) × (v.tx ≡ x)) stop-Keeps)
                (λ c h. h) (λ _ c h. h) (λ _ c h. h.0))))

  -- What is restored is what was there before, whatever the file is by then.
  pub restore_previous-prior :
      (options : Options) (id : ℕ) (previous : FileState) (restart_required : Bool)
      (rs : List Revision)
      → Triple
          (λ c. actives c.db.revisions ≡ rs)
          (restore_previous options id previous restart_required)
          (λ _ c. (actives c.db.revisions ≡ rs) × (c.files config ≡ prior previous))
          (λ _ c. actives c.db.revisions ≡ rs)
  restore_previous-prior options id previous restart_required rs = record {
    holds = λ w h.
        (weaken
            (restore_previous-Holds options id previous restart_required rs (w.core.files config)
              w.core.tx)
            (λ c p. p) (λ _ c p. (p.0, p.1)) (λ _ c p. p)).holds
          w (h, refl, refl);
  }

  -- A failure that is recorded is reported, and changes nothing that agreement is about.
  pub record_failure-raises :
      {A : Type 0} (options : Options) (r : Revision) (archived : Option (env.State × Bytes))
      (stage : Stage) (cause : List Fault) (n : ℕ) (P : View env.State → Type 0)
      → IsArchived r
      → Triple
          (λ c. P (view n c))
          (record_failure {A = A} options r archived stage cause)
          Never
          (λ _ c. P (view n c))
  unfolding record_failure
  record_failure-raises options r archived stage cause n P h =
      bind (kept n P (attempt-Keeps (archive_failed-Keeps r archived h))) (λ a.
        bind
          (kept n P (
            attempt-Keeps (
              record_failed_revision-Keeps
                (record r { status = failed; error_message = some stage }))))
          (λ b.
            bind (kept n P (prune_recorded-Keeps options b))
              (λ _. fail (stage_failed stage ∷ cause ++ faults a ++ faults b) (λ c p. p))))

  -- What a caught restoration leaves.
  abbrev pub Recovered : Result (Unit {0}) → Seen → Type 0
  Recovered (ok u) s = InSync s
  Recovered (err es) s = Unit

  pub recovered :
      (r : Result (Unit {0})) (rs : List Revision) (f : Option Bytes) (c : Core env.State)
      → Synced rs f
      → Either
          (λ _ c. (actives c.db.revisions ≡ rs) × (c.files config ≡ f))
          (λ _ c. actives c.db.revisions ≡ rs)
          r
          c
      → Recovered r (seen c)
  recovered (ok u) rs f c s h = rw (h.0, h.1) s
  recovered (err es) rs f c s h = tt

  abbrev pub Marked : Result (Unit {0}) → Pred
  Marked = Either (λ _ c. IsDegraded (seen c)) (λ es c. unrecorded es ≡ true)

  -- The faults of the degraded mark stand among those reported.
  pub marked-Failed :
      (marking : Result (Unit {0})) (before after : List Fault) (c : Core env.State)
      → Marked marking c
      → Failed (before ++ faults marking ++ after) (seen c)
  marked-Failed (ok u) before after c h = inr (inl h)
  marked-Failed (err es) before after c h =
      inr (inr (unrecorded-append_left (before ++ es) after (unrecorded-append_right before es h)))

  pub marked_last-Failed :
      (marking : Result (Unit {0})) (before : List Fault) (c : Core env.State)
      → Marked marking c
      → Failed (before ++ faults marking) (seen c)
  marked_last-Failed (ok u) before c h = inr (inl h)
  marked_last-Failed (err es) before c h = inr (inr (unrecorded-append_right before es h))

  report_recovery-Failed :
      {A : Type 0} (reason : DegradedReason) (id : ℕ) (failure : List Fault)
      (recovering : Result (Unit {0}))
      → Triple
          (λ c. Recovered recovering (seen c))
          (report_recovery {A = A} reason id failure recovering)
          Never
          (λ es c. Failed es (seen c))
  unfolding report_recovery
  report_recovery-Failed reason id failure (ok u) = fail failure (λ c h. inl h)
  report_recovery-Failed reason id failure (err es) =
      bind (weaken (catch (degrade-IsDegraded reason id)) (λ c h. tt) (λ r c h. h) (λ _ c h. h))
        (λ marking.
          fail (recovery_failed ∷ es ++ faults marking ++ failure)
            (λ c h. marked-Failed marking (recovery_failed ∷ es) failure c h))

  pub never :
      {A : Type 0} (failure : Result A) (c : Core env.State) (P : Pred)
      → Either Never (λ _. P) failure c
      → P c
  never (ok u) c P h = absurd h
  never (err es) c P h = h

  pub fail_after_replacement-Failed :
      {A : Type 0} (options : Options) (r : Revision) (previous : FileState)
      (restart_required : Bool) (stage : Stage) (cause : List Fault) (rs : List Revision)
      → IsArchived r
      → Synced rs (prior previous)
      → Triple
          (λ c. actives c.db.revisions ≡ rs)
          (fail_after_replacement {A = A} options r previous restart_required stage cause)
          Never
          (λ es c. Failed es (seen c))
  unfolding fail_after_replacement
  fail_after_replacement-Failed options r previous restart_required stage cause rs a s =
      bind {Q = λ recovering c. Recovered recovering (seen c)}
        (weaken (catch (restore_previous-prior options r.id previous restart_required rs))
          (λ c h. h) (λ recovering c h. recovered recovering rs (prior previous) c s h)
          (λ es c h. h))
        (λ recovering. bind (drop (calmed (Recovered recovering) rollback-Calm)) (λ _.
          bind {Q = λ _ c. Recovered recovering (seen c)}
            (weaken
              (catch (
                record_failure-raises {A = Unit {0}} options r none stage cause 0
                  (λ v. Recovered recovering (of_view v)) a))
              (λ c h. h) (λ failure c h. never failure c (λ d. Recovered recovering (seen d)) h)
              (λ es c h. h))
            (λ failure.
              report_recovery-Failed DegradedReason.recovery_failed r.id (faults failure)
                recovering)))
