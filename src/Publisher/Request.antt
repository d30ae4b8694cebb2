-- ===== src/Publisher/Request.antt =====
-- internal/publisher/publisher.go: a request, and the conditions under which it is turned down
-- before anything is touched.
use Prim.Native.String.{String}
use m_ui.Prelude.{ℕ, Bool, true, false, not, Option, none, some, if◌then◌else◌}
use m_ui.Publisher.World.{Env, Options, Tables}
use m_ui.Publisher.Monad.{
  Result, ok, M, ◌>>=◌, ◌>>◌, pure, guard, observe, call_failed, read_safety_gate, reason_required,
  mutation_required, runtime_convergence, system_degraded, safety_gate_closed,
  mihomo_restart_required,
}
use m_ui.Publisher.Store.{read_db, system_state}

abbrev pub is_some : {A : Type 0} → Option A → Bool
is_some none = false
is_some (some a) = true

module _ ⦃env : Env⦄ where
  -- `Mutate` works on the open transaction's tables.
  abbrev pub Mutation : Type 0
  Mutation = Tables env.State → Result (Tables env.State)

  pub record Request : Type 0 where
    pub reason : String
    pub actor_admin_id : String
    pub audit_action : String
    pub audit_resource : String
    pub audit_resource_id : String
    pub audit_summary : String
    pub audit_summary_func : Option String  -- what it returns when it is called
    pub effective_at : Option ℕ
    pub restart_required : Bool
    pub mutate : Option Mutation
    pub runtime_convergence_baseline : Bool

  unfoldable pub check_convergence : M (Unit {0})
  unfolding read_db
  check_convergence = do
    is_pending ← read_db (λ t. ok t.r3_cutover_pending)
    guard (not is_pending) runtime_convergence

  -- A repository without the convergence table has nothing pending.
  unfoldable pub reject_pending_convergence : Options → Bool → M (Unit {0})
  unfolding check_convergence
  reject_pending_convergence options true = pure tt
  reject_pending_convergence options false =
      if options.has_convergence then check_convergence else pure tt

  unfoldable pub read_safety_blocked : M Bool
  unfolding observe
  read_safety_blocked w =
      observe (λ c. ok (env.safety_blocked w.tick)) (call_failed read_safety_gate) w

  unfoldable pub require_open_gate : M (Unit {0})
  unfolding read_safety_blocked
  require_open_gate = do blocked ← read_safety_blocked; guard (not blocked) safety_gate_closed

  unfoldable pub check_safety_gate : Options → M (Unit {0})
  unfolding require_open_gate
  check_safety_gate options = if options.has_safety_gate then require_open_gate else pure tt

  unfoldable pub check_mihomo_restart : M (Unit {0})
  unfolding read_db
  check_mihomo_restart = do
    is_pending ← read_db (λ t. ok t.mihomo_restart_pending)
    guard (not is_pending) mihomo_restart_required

  unfoldable pub reject_pending_mihomo_restart : Options → Bool → M (Unit {0})
  unfolding check_mihomo_restart
  reject_pending_mihomo_restart options true = pure tt
  reject_pending_mihomo_restart options false =
      if options.has_endpoints then check_mihomo_restart else pure tt

  -- The checks of `publishLocked` before its transaction begins.
  unfoldable pub preflight : Options → Request → M (Unit {0})
  unfolding reject_pending_convergence system_state check_safety_gate reject_pending_mihomo_restart
  preflight options request = do
    guard (not (env.is_blank request.reason)) reason_required
    guard (is_some request.mutate) mutation_required
    reject_pending_convergence options request.runtime_convergence_baseline
    state ← system_state
    guard (not state.degraded) system_degraded
    check_safety_gate options
    reject_pending_mihomo_restart options request.restart_required
