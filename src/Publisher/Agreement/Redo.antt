-- ===== src/Publisher/Agreement/Redo.antt =====
-- The new file put in place again after the commit (`publishCompiledWithRuntime` of
-- internal/publisher/publisher.go).
use m_ui.Prelude.{
  ℕ, Bool, true, false, ◌≡◌, refl, sym, subst, Option, some, List, [], ◌∷◌, ◌&&◌, not,
}
use m_ui.Publisher.World.{
  Env, Options, Tables, Bytes, ManagedPath, config, reconciliation, path_eq, Revision,
  DegradedReason,
}
use m_ui.Publisher.Monad.{ok, commit_unclassified, call_failed, validate_candidate}
use m_ui.Publisher.Files.{remove_file_at}
use m_ui.Publisher.Rows.{actives}
use m_ui.Publisher.Commit.{
  reload_and_wait, activate_runtime, restart_is_pending, publish_candidate,
  publish_compiled_with_runtime, redo_publication,
}
use m_ui.Publisher.View.{View, Keeps, bind-Keeps, pure-Keeps, if-Keeps, new_id-Keeps}
use m_ui.Publisher.Keeps.{
  reload_with_fallback-Keeps, wait_healthy-Keeps, is_active_process-Keeps, remove_file_at-Keeps,
  read_db-Keeps,
}
use m_ui.Publisher.Triple.{Triple, bind, weaken, handle, deferred, observes, kept, Pred}
use m_ui.Publisher.Agreement.{seen, Failed}
use m_ui.Publisher.Agreement.Restore.{Anything, Holds, write_synced-Holds, replace_and_sync-Holds}
use m_ui.Publisher.Agreement.Reconcile.{IsPublished, Returns, finish-Returns, mark_commit-Failed}
use m_ui.Publisher.Runtime.{validate}

module _ ⦃env : Env⦄ where
  validate-kept : (P : Pred) (p : ManagedPath) → Triple P (validate p) (λ _. P) (λ _. P)
  unfolding validate
  validate-kept P p = observes _ (call_failed validate_candidate) (λ a c e h. h) (λ es c h. h)

  restart_is_pending-Keeps : (options : Options) → Keeps (restart_is_pending options)
  unfolding restart_is_pending
  restart_is_pending-Keeps options =
      if-Keeps options.has_endpoints (read_db-Keeps (λ t. ok t.mihomo_restart_pending))
        (pure-Keeps false)

  reload_and_wait-Keeps : (options : Options) → Keeps (reload_and_wait options)
  unfolding reload_and_wait
  reload_and_wait-Keeps options =
      bind-Keeps reload_with_fallback-Keeps (λ _. wait_healthy-Keeps options.health_polls)

  activate_runtime-Keeps : (options : Options) (b : Bool) → Keeps (activate_runtime options b)
  unfolding activate_runtime
  activate_runtime-Keeps options false = pure-Keeps tt
  activate_runtime-Keeps options true =
      bind-Keeps is_active_process-Keeps
        (λ running. if-Keeps running (reload_and_wait-Keeps options) (pure-Keeps tt))

  publish_candidate-config :
      (options : Options) (id : ℕ) (b : Bytes) (allowed : Bool) (rs : List Revision)
      (f : Option Bytes) (x : Option (Tables env.State))
      → Triple
          (Holds rs f x)
          (publish_candidate options id b allowed)
          (λ _ c. Holds rs (some b) x c)
          (λ _ c. Anything c)
  unfolding publish_candidate path_eq
  publish_candidate-config options id b allowed rs f x =
      let P : View env.State → Type 0 = λ v. (v.actives ≡ rs) × (v.config ≡ some b) × (v.tx ≡ x) in
      let staged : Pred =
        λ c. (c.files (reconciliation id) ≡ some b) × (actives c.db.revisions ≡ rs) × (c.tx ≡ x) in
      bind {Q = λ _. staged}
        (weaken (write_synced-Holds (reconciliation id) b rs f x refl) (λ c h. h)
          (λ _ c h. (h.0, h.1.0, h.1.2)) (λ _ c h. tt))
        (λ _.
          bind
            (weaken (validate-kept staged (reconciliation id)) (λ c h. h) (λ _ c h. h)
              (λ _ c h. tt))
            (λ _.
              bind
                (weaken (replace_and_sync-Holds (reconciliation id) b rs x refl) (λ c h. h)
                  (λ _ c h. h) (λ _ c h. tt))
                (λ _.
                  weaken
                    (kept 0 P (
                      bind-Keeps (restart_is_pending-Keeps options)
                        (λ is_pending. activate_runtime-Keeps options (not is_pending && allowed))))
                    (λ c h. h) (λ _ c h. h) (λ _ c h. tt))))

  pub publish_compiled_with_runtime-config :
      (options : Options) (b : Bytes) (allowed : Bool) (rs : List Revision) (f : Option Bytes)
      (x : Option (Tables env.State))
      → Triple
          (Holds rs f x)
          (publish_compiled_with_runtime options b allowed)
          (λ _ c. Holds rs (some b) x c)
          (λ _ c. Anything c)
  unfolding publish_compiled_with_runtime
  publish_compiled_with_runtime-config options b allowed rs f x =
      bind
        (weaken (kept 0 (λ v. (v.actives ≡ rs) × (v.config ≡ f) × (v.tx ≡ x)) new_id-Keeps)
          (λ c h. h) (λ _ c h. h) (λ _ c h. tt))
        (λ id.
          deferred (remove_file_at (reconciliation id))
            (publish_candidate-config options id b allowed rs f x)
            (λ _ w h.
              subst (λ (v : View env.State). (v.actives ≡ rs) × (v.config ≡ some b) × (v.tx ≡ x))
                (sym ((remove_file_at-Keeps (reconciliation id) refl).keeps 0 w)) h)
            (λ _ w h. tt))

  pub redo_publication-Returns :
      (options : Options) (r found : Revision) (at : ℕ) (b : Bytes)
      → found.id ≡ r.id
      → env.sha256 b ≡ found.sha256
      → Triple
          (λ c. actives c.db.revisions ≡ found ∷ [])
          (redo_publication options r found at b)
          (λ q c. Returns r q c)
          (λ es c. Failed es (seen c))
  unfolding redo_publication
  redo_publication-Returns options r found at b same digest =
      bind {Q = λ _ c. IsPublished found (seen c)}
        (handle
          (record {
            holds = λ w h.
                (weaken
                    (publish_compiled_with_runtime-config options b true (found ∷ [])
                      (w.core.files config) w.core.tx)
                    (λ c p. p) (λ _ c p. (found, b, p.0, p.1, refl, refl, digest))
                    (λ _ c p. tt)).holds
                  w (h, refl, refl);
          })
          (λ es.
            weaken
              (mark_commit-Failed DegradedReason.republish_failed r.id (commit_unclassified ∷ es))
              (λ c h. tt) (λ _ c h. absurd h) (λ _ c h. h)))
        (λ _. finish-Returns options r found at same)
