-- ===== src/Publisher/Monad.antt =====
-- The publisher's calls as actions: each takes the world to a result and the next world. An error
-- is the list of the faults that `errors.Join` joined.
use m_ui.Prelude.{ℕ, suc, Bool, true, false, List, [], ◌∷◌}
use m_ui.Publisher.World.{Env, Core, Answer, done, refused, lost, Stage}

pub data Call : Type 0 where
  read_tables write_tables begin_transaction close_transaction commit_transaction : Call
  read_file write_file replace_file remove_file sync_directory : Call
  reload_controller restart_process stop_process inspect_process read_version validate_candidate :
      Call
  read_safety_gate generate_id : Call

pub data Fault : Type 0 where
  call_failed : Call → Fault
  reason_required mutation_required runtime_convergence system_degraded safety_gate_closed : Fault
  mihomo_restart_required multiple_active_revisions transaction_closed database_busy : Fault
  constraint_violated retention_not_positive pending_revision_not_found
        inactive_revision_not_found :
      Fault
  degraded_not_recorded compile_failed mutation_failed : Fault
  integrity_violated durable_state_mismatch candidate_rejected file_too_large : Fault
  unhealthy recovery_failed revision_is_active path_outside commit_unclassified : Fault
  stage_failed : Stage → Fault

pub data Result {ℓ} (A : Type ℓ) : Type ℓ where
  ok : A → Result A
  err : List Fault → Result A

module _ ⦃env : Env⦄ where
  pub record World : Type 0 where
    pub core : Core env.State
    pub open core use *
    pub tick : ℕ

  abbrev pub M : Type 0 → Type 0
  M A = World → Result A × World

  abbrev pub continue : {A B : Type 0} → Result A × World → (A → M B) → Result B × World
  continue (ok a, w) f = f a w
  continue (err es, w) f = (err es, w)

  infixl 5 ◌>>=◌ ◌>>◌
  abbrev pub ◌>>=◌ : {A B : Type 0} → M A → (A → M B) → M B
  ◌>>=◌ m f w = continue (m w) f

  abbrev pub ◌>>◌ : {B : Type 0} → M (Unit {0}) → M B → M B
  m >> k = m >>= λ _. k

  abbrev pub pure : {A : Type 0} → A → M A
  pure a w = (ok a, w)

  abbrev pub raise : {A : Type 0} → List Fault → M A
  raise es w = (err es, w)

  abbrev pub lift : {A : Type 0} → Result A → M A
  lift r w = (r, w)

  abbrev pub guard : Bool → Fault → M (Unit {0})
  guard true e = pure tt
  guard false e = raise (e ∷ [])

  -- `if err := m; err != nil`: the error becomes a value.
  abbrev pub caught : {A : Type 0} → Result A × World → Result (Result A) × World
  caught (r, w) = (ok r, w)

  abbrev pub attempt : {A : Type 0} → M A → M (Result A)
  attempt m w = caught (m w)

  abbrev pub dropped : {A : Type 0} → Result A × World → Result (Unit {0}) × World
  dropped (r, w) = (ok tt, w)

  -- `_ = m`.
  abbrev pub ignore : {A : Type 0} → M A → M (Unit {0})
  ignore m w = dropped (m w)

  abbrev pub rescued : {A : Type 0} → Result A × World → (List Fault → M A) → Result A × World
  rescued (ok a, w) handler = (ok a, w)
  rescued (err es, w) handler = handler es w

  -- `if err := m; err != nil { return handler(err) }`.
  abbrev pub rescue : {A : Type 0} → M A → (List Fault → M A) → M A
  rescue m handler w = rescued (m w) handler

  -- `defer`: the clean-up runs on every path and its error is dropped.
  abbrev pub finish_with : {A : Type 0} → Result A × World → M (Unit {0}) → Result A × World
  finish_with (r, w) cleanup = (r, (cleanup w).1)

  abbrev pub defer : {A : Type 0} → M (Unit {0}) → M A → M A
  defer cleanup m w = finish_with (m w) cleanup

  abbrev pub gets : {A : Type 0} → (World → A) → M A
  gets f w = (ok (f w), w)

  abbrev pub advance : World → World
  advance w = record w { tick = suc w.tick }

  abbrev pub with_core : World → Core env.State → World
  with_core w c = record { core = c; tick = suc w.tick }

  abbrev pub answered :
      {A : Type 0}
      → Answer
      → Result A
      → World
      → Core env.State
      → Core env.State
      → Fault
      → Result A × World
  answered done r w before after e = (r, with_core w after)
  answered refused r w before after e = (err (e ∷ []), with_core w before)
  answered lost r w before after e = (err (e ∷ []), with_core w after)

  -- A call with an effect: the environment says how it ends.
  unfoldable pub perform : (Core env.State → Core env.State) → Fault → M (Unit {0})
  perform effect e w = answered (env.answer w.tick) (ok tt) w w.core (effect w.core) e

  abbrev pub executed : Answer → Result (Core env.State) → World → Fault → Result (Unit {0}) × World
  executed a (ok after) w e = answered a (ok tt) w w.core after e
  executed a (err es) w e = (err es, advance w)

  -- A call with an effect that may also be turned down for what it finds.
  unfoldable pub execute : (Core env.State → Result (Core env.State)) → Fault → M (Unit {0})
  execute effect e w = executed (env.answer w.tick) (effect w.core) w e

  -- A call that only reads.
  unfoldable pub observe : {A : Type 0} → (Core env.State → Result A) → Fault → M A
  observe f e w = answered (env.answer w.tick) (f w.core) w w.core w.core e

  -- `uuid.NewRandom()` and `publisher.now()`.
  unfoldable pub new_id : M ℕ
  unfolding observe
  new_id w = observe (λ _. ok (env.new_id w.tick)) (call_failed generate_id) w

  unfoldable pub now : M ℕ
  now w = (ok (env.now w.tick), advance w)

-- `errors.Join(err, …)`: no error if there is none to join.
abbrev pub faults : {A : Type 0} → Result A → List Fault
faults (ok a) = []
faults (err es) = es
