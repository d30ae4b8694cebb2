-- ===== src/Publisher/Refusal.antt =====
-- A publication on a degraded system (internal/publisher/publisher.go).
use m_ui.Prelude.{Bool, true, false, not, ◌≡◌, refl, ap, subst, List}
use m_ui.Publisher.World.{Env, Options, Core, Tables, SystemState}
use m_ui.Publisher.Monad.{
  Result, ok, err, Fault, World, M, guard, call_failed, read_tables, reason_required,
  mutation_required, runtime_convergence, system_degraded,
}
use m_ui.Publisher.Store.{read_db, system_state}
use m_ui.Publisher.Request.{
  Request, preflight, check_convergence, reject_pending_convergence, is_some,
}
use m_ui.Publisher.Publish.{publish_locked}
use m_ui.Publisher.Triple.{Triple, Post, bind, weaken, return, branch, guards, observes, Pred}
use m_ui.Publisher.Agreement.Failure.{Never}
use m_ui.Publisher.Agreement.Reconcile.{under}

module _ ⦃env : Env⦄ where
  reads :
      {A : Type 0} (P : Pred) (f : Tables env.State → Result A)
      → Triple P (read_db f) (λ a c. (f c.db ≡ ok a) × P c) (λ _. P)
  unfolding read_db
  reads P f = observes (λ c. f c.db) (call_failed read_tables) (λ a c e h. (e, h)) (λ es c h. h)

  checks : (P : Pred) (b : Bool) (e : Fault) → Triple P (guard b e) (λ _. P) (λ _. P)
  checks P b e = guards b e (λ c x h. h) (λ c x h. h)

  checks_convergence : (P : Pred) → Triple P check_convergence (λ _. P) (λ _. P)
  unfolding check_convergence
  checks_convergence P =
      bind (weaken (reads P (λ t. ok t.r3_cutover_pending)) (λ c h. h) (λ _ c h. h.1) (λ _ c h. h))
        (λ is_pending. checks P (not is_pending) runtime_convergence)

  rejects_convergence :
      (P : Pred) (options : Options) (b : Bool)
      → Triple P (reject_pending_convergence options b) (λ _. P) (λ _. P)
  unfolding reject_pending_convergence
  rejects_convergence P options true = return tt (λ c h. h)
  rejects_convergence P options false =
      branch options.has_convergence (λ _. checks_convergence P) (λ _. return tt (λ c h. h))

  -- The world is still the one of before, and its system is degraded.
  abbrev Stuck : Core env.State → Pred
  Stuck start c = (c ≡ start) × (c.db.system.degraded ≡ true)

  reads_system :
      (start : Core env.State)
      → Triple
          (Stuck start)
          system_state
          (λ s c. (s.degraded ≡ true) × Stuck start c)
          (λ _. Stuck start)
  unfolding system_state
  reads_system start =
      weaken (reads (Stuck start) (λ t. ok t.system)) (λ c h. h)
        (λ s c (e, h). (subst (λ (r : Result SystemState). was_degraded r) e h.1, h)) (λ _ c h. h)
    where
      was_degraded : Result SystemState → Type 0
      was_degraded (ok s) = s.degraded ≡ true
      was_degraded (err es) = Unit {0}

  impossible : {A : Type 0} {m : M A} {Q : A → Pred} {E : List Fault → Pred} → Triple (λ c. ⊥) m Q E
  impossible = record { holds = λ w h. absurd h }

  only_start :
      {A : Type 0} {m : M A} {Q : A → Pred} (start : Core env.State)
      → Triple (Stuck start) m Q (λ _. Stuck start)
      → Triple (Stuck start) m Q (λ _ c. c ≡ start)
  only_start start t = weaken t (λ c h. h) (λ _ c h. h) (λ _ c h. h.0)

  refuses :
      (b : Bool) (start : Core env.State)
      → b ≡ true
      → Triple (Stuck start) (guard (not b) system_degraded) Never (λ _ c. c ≡ start)
  refuses b start e = guards (not b) system_degraded (λ c x h. cc (ap not e)) (λ c x h. h.0)

  preflight-stuck :
      (options : Options) (request : Request) (start : Core env.State)
      → Triple (Stuck start) (preflight options request) Never (λ _ c. c ≡ start)
  unfolding preflight
  preflight-stuck options request start =
      let P = Stuck start in
      bind (only_start start (checks P (not (env.is_blank request.reason)) reason_required)) (λ _.
        bind (only_start start (checks P (is_some request.mutate) mutation_required)) (λ _.
          bind
            (only_start start (rejects_convergence P options request.runtime_convergence_baseline))
            (λ _.
              bind (only_start start (reads_system start)) (λ s.
                bind {Q = Never} (under (λ e. refuses s.degraded start e)) (λ _. impossible)))))

  publish_locked-stuck :
      (options : Options) (request : Request) (start : Core env.State)
      → Triple (Stuck start) (publish_locked options request) Never (λ _ c. c ≡ start)
  unfolding publish_locked
  publish_locked-stuck options request start =
      bind {Q = Never} (preflight-stuck options request start) (λ _. impossible)

  -- On a degraded system a publication returns an error and changes nothing.
  pub publish_locked-degraded :
      (options : Options) (request : Request) (w : World)
      → w.core.db.system.degraded ≡ true
      → Post Never (λ _ c. c ≡ w.core) (publish_locked options request w)
  publish_locked-degraded options request w h =
      (publish_locked-stuck options request w.core).holds w (refl, h)
