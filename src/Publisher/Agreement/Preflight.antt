-- ===== src/Publisher/Agreement/Preflight.antt =====
-- The checks before a publication change nothing (internal/publisher/publisher.go).
use m_ui.Prelude.{Bool, true, false, not}
use m_ui.Publisher.World.{Env, Options}
use m_ui.Publisher.Monad.{
  ok, call_failed, reason_required, mutation_required, system_degraded, runtime_convergence,
  safety_gate_closed, mihomo_restart_required, read_safety_gate,
}
use m_ui.Publisher.Store.{system_state}
use m_ui.Publisher.Request.{
  Request, preflight, check_convergence, reject_pending_convergence, read_safety_blocked,
  require_open_gate, check_safety_gate, check_mihomo_restart, reject_pending_mihomo_restart,
  is_some,
}
use m_ui.Publisher.View.{Keeps, pure-Keeps, bind-Keeps, guard-Keeps, if-Keeps, observe-Keeps}
use m_ui.Publisher.Keeps.{read_db-Keeps}

module _ ⦃env : Env⦄ where
  check_convergence-Keeps : Keeps check_convergence
  unfolding check_convergence
  check_convergence-Keeps =
      bind-Keeps (read_db-Keeps _) (λ is_pending. guard-Keeps (not is_pending) runtime_convergence)

  reject_pending_convergence-Keeps :
      (options : Options) (b : Bool) → Keeps (reject_pending_convergence options b)
  unfolding reject_pending_convergence
  reject_pending_convergence-Keeps options true = pure-Keeps tt
  reject_pending_convergence-Keeps options false =
      if-Keeps options.has_convergence check_convergence-Keeps (pure-Keeps tt)

  read_safety_blocked-Keeps : Keeps read_safety_blocked
  unfolding read_safety_blocked
  read_safety_blocked-Keeps = record {
    keeps = λ n w.
        (observe-Keeps (λ c. ok (env.safety_blocked w.tick)) (call_failed read_safety_gate)).keeps n
          w;
  }

  require_open_gate-Keeps : Keeps require_open_gate
  unfolding require_open_gate
  require_open_gate-Keeps =
      bind-Keeps read_safety_blocked-Keeps (λ blocked. guard-Keeps (not blocked) safety_gate_closed)

  check_safety_gate-Keeps : (options : Options) → Keeps (check_safety_gate options)
  unfolding check_safety_gate
  check_safety_gate-Keeps options =
      if-Keeps options.has_safety_gate require_open_gate-Keeps (pure-Keeps tt)

  check_mihomo_restart-Keeps : Keeps check_mihomo_restart
  unfolding check_mihomo_restart
  check_mihomo_restart-Keeps =
      bind-Keeps (read_db-Keeps _)
        (λ is_pending. guard-Keeps (not is_pending) mihomo_restart_required)

  reject_pending_mihomo_restart-Keeps :
      (options : Options) (b : Bool) → Keeps (reject_pending_mihomo_restart options b)
  unfolding reject_pending_mihomo_restart
  reject_pending_mihomo_restart-Keeps options true = pure-Keeps tt
  reject_pending_mihomo_restart-Keeps options false =
      if-Keeps options.has_endpoints check_mihomo_restart-Keeps (pure-Keeps tt)

  system_state-Keeps : Keeps system_state
  unfolding system_state
  system_state-Keeps = read_db-Keeps _

  pub preflight-Keeps : (options : Options) (request : Request) → Keeps (preflight options request)
  unfolding preflight
  preflight-Keeps options request =
      bind-Keeps (guard-Keeps (not (env.is_blank request.reason)) reason_required) (λ _.
        bind-Keeps (guard-Keeps (is_some request.mutate) mutation_required) (λ _.
          bind-Keeps (reject_pending_convergence-Keeps options request.runtime_convergence_baseline)
            (λ _. bind-Keeps system_state-Keeps (λ state.
              bind-Keeps (guard-Keeps (not state.degraded) system_degraded) (λ _.
                bind-Keeps (check_safety_gate-Keeps options)
                  (λ _. reject_pending_mihomo_restart-Keeps options request.restart_required))))))
