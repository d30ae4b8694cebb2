-- ===== src/Publisher/Runtime.antt =====
-- The calls of the Mihomo process and its controller in internal/publisher/publisher.go. The
-- deadline of `waitHealthy` is the number of polls that fit before it.
use m_ui.Prelude.{ℕ, zero, suc, Bool, true, false, none, [], ◌∷◌, ◌&&◌, if◌then◌else◌}
use m_ui.Publisher.World.{Env, Core, ManagedPath, config}
use m_ui.Publisher.Monad.{
  Result, ok, err, M, ◌>>=◌, pure, guard, rescue, attempt, perform, observe, call_failed,
  reload_controller, restart_process, stop_process, inspect_process, read_version,
  validate_candidate, candidate_rejected, unhealthy,
}

module _ {S : Type 0} where
  abbrev pub load_config : Core S → Core S
  load_config c = record c {
    runtime = record { running = c.runtime.running; loaded = c.files config };
  }

  abbrev pub start_config : Core S → Core S
  start_config c = record c { runtime = record { running = true; loaded = c.files config } }

  abbrev pub stop_runtime : Core S → Core S
  stop_runtime c = record c { runtime = record { running = false; loaded = none } }

abbrev pub is_ok : {A : Type 0} → Result A → Bool
is_ok (ok a) = true
is_ok (err es) = false

abbrev pub said_yes : Result Bool → Bool
said_yes (ok b) = b
said_yes (err es) = false

module _ ⦃env : Env⦄ where
  -- `process.IsActive`: a process that was started may still have died.
  unfoldable pub is_active_process : M Bool
  unfolding observe
  is_active_process w =
      observe (λ c. ok (c.runtime.running && env.process_active w.tick))
        (call_failed inspect_process) w

  unfoldable pub version : M (Unit {0})
  unfolding observe
  version = observe (λ c. ok tt) (call_failed read_version)

  -- `cli.Validate(path)`.
  unfoldable pub validate : ManagedPath → M (Unit {0})
  unfolding observe
  validate p =
      observe (λ c. if env.accepts (c.files p) then ok tt else err (candidate_rejected ∷ []))
        (call_failed validate_candidate)

  unfoldable pub reload_with_fallback : M (Unit {0})
  unfolding perform
  reload_with_fallback =
      rescue (perform load_config (call_failed reload_controller))
        (λ _. perform start_config (call_failed restart_process))

  -- One round of the loop: both calls are made.
  unfoldable pub is_healthy : M Bool
  unfolding is_active_process version
  is_healthy = do
    running ← attempt is_active_process
    answered ← attempt version
    pure (said_yes running && is_ok answered)

  unfoldable pub wait_healthy : ℕ → M (Unit {0})
  unfolding is_healthy
  wait_healthy zero = do healthy ← is_healthy; guard healthy unhealthy
  wait_healthy (suc polls) = do
    healthy ← is_healthy
    let rest = wait_healthy polls
    if healthy then pure tt else rest

  unfoldable pub stop : M (Unit {0})
  unfolding perform
  stop = perform stop_runtime (call_failed stop_process)
