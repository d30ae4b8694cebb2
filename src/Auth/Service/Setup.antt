-- ===== src/Auth/Service/Setup.antt =====
-- `CompleteSetup` of internal/auth/service.go, the creation of the first administrator.
use m_ui.Prelude.{ℕ, ◌-◌, ◌+◌, Bool, true, false, not, leb, ◌==◌, if◌then◌else◌, Text, codes, Key}
use m_ui.Auth.Limiter.{retry_after, failure, success}
use m_ui.Auth.Accounts.{
  Admin, Session, AuditLog, BootstrapState, Env, LimitKey, World, AuthError, password_policy,
  invalid_username, bootstrap_completed, rate_limited, Result, ok, err, M, ◌>>=◌, ◌>>◌, pure, raise,
  refuse_if,
}
use m_ui.Auth.Store.{draw, bootstrap_state, complete_bootstrap}
use m_ui.Auth.Service.{
  is_valid_username, is_valid_password, Credentials, new_session, hash_new, or_missing, completing,
}

abbrev pub one_second : ℕ
one_second = 1_000_000_000

abbrev pub setup_key : Text → LimitKey
setup_key source = (codes "bootstrap", source)

module _ (env : Env) ⦃key : Key LimitKey⦄ where
  abbrev pub check_setup_limit : LimitKey → M (Unit {0})
  check_setup_limit k w =
      let retry = retry_after w.setup_limiter k env.now in
      refuse_if (not (retry == 0)) (rate_limited retry) w

  abbrev pub count_setup_failure : LimitKey → M (Unit {0})
  count_setup_failure k w =
      (ok tt, record w { setup_limiter = (failure w.setup_limiter k env.now).0 })

  abbrev pub clear_setup_failures : LimitKey → M (Unit {0})
  clear_setup_failures k w = (ok tt, record w { setup_limiter = success w.setup_limiter k })

  -- A value that is refused counts as a failure.
  abbrev pub check_value : Bool → LimitKey → AuthError → M (Unit {0})
  check_value true k e = pure tt
  check_value false k e = count_setup_failure k >> raise e

  -- The two slots: at most two requests at a time, and the slot is given back whatever comes after.
  abbrev pub slot_returned : {A : Type 0} → Result A × World → Result A × World
  slot_returned (r, w) = (r, record w { setup_slots = w.setup_slots - 1 })

  abbrev pub in_slot : {A : Type 0} → M A → M A
  in_slot m w =
      let rest = slot_returned (m (record w { setup_slots = w.setup_slots + 1 })) in
      if leb 2 w.setup_slots then (err (rate_limited one_second), w) else rest

  abbrev pub setup_audit : Text → Text → AuditLog
  setup_audit id admin_id = record {
    id = id;
    actor_admin_id = admin_id;
    action = "auth.bootstrap_complete";
    resource_type = "administrator";
    resource_id = admin_id;
    result = "success";
    summary_redacted = "Initial administrator was created through the local bootstrap flow.";
    created_at = env.now;
  }

  abbrev pub first_admin : Text → Text → Text → Admin
  first_admin id username hash = record {
    id = id;
    username = username;
    password_hash = hash;
    password_changed_at = env.now;
    created_at = env.now;
    updated_at = env.now;
  }

  -- `CompleteBootstrap`, a capability that is gone being a completed bootstrap.
  abbrev pub complete : Text → Admin → Session → AuditLog → M (Unit {0})
  complete token_hash admin session audit w =
      completing (complete_bootstrap env token_hash admin session audit env.now w)

  -- What follows the slot.
  unfoldable pub setup_in_slot : BootstrapState → LimitKey → Text → Text → Text → M Credentials
  unfolding is_valid_username is_valid_password hash_new draw complete_bootstrap
  setup_in_slot state k username password agent = do
    check_value (is_valid_username username) k invalid_username
    check_value (is_valid_password password) k password_policy
    hash ← hash_new env password
    session_token ← draw env
    csrf_token ← draw env
    admin_id ← draw env
    session_id ← draw env
    audit_id ← draw env
    let admin = first_admin admin_id username hash
    let session = new_session env session_id admin_id session_token csrf_token agent
    complete state.token_hash admin session (setup_audit audit_id admin_id)
    clear_setup_failures k
    pure (record {
      admin = admin;
      session = session;
      session_token = session_token;
      csrf_token = csrf_token;
    })

  unfoldable pub complete_setup : Text → Text → Text → Text → M Credentials
  unfolding bootstrap_state setup_in_slot
  complete_setup username password source agent = do
    let k = setup_key source
    check_setup_limit k
    (required, state) ← or_missing (bootstrap_state env) bootstrap_completed
    refuse_if (not required) bootstrap_completed
    in_slot (setup_in_slot state k username password agent)
