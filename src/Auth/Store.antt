-- ===== src/Auth/Store.antt =====
-- The calls of internal/store/auth.go and bootstrap.go. A transaction is one call, whose error rolls it
-- back unless it is lost.
pub mod Seeds
use m_ui.Prelude.{
  ℕ, ◌+◌, Bool, true, false, not, ◌&&◌, ◌||◌, Option, none, some, List, [], ◌∷◌, map, length, keep,
  ltb, ◌==◌, if◌then◌else◌, Text, text_eq, is_empty,
}
use m_ui.Auth.Accounts.{
  Admin, Session, AuthSession, AuditLog, BootstrapState, Answer, done, refused, lost, Env, World,
  not_found, multiple_administrators, bootstrap_unavailable, bootstrap_completed,
  invalid_bootstrap_token, store_failed, random_failed, constraint_violated, Result, ok, err, M,
  ◌>>=◌, ◌>>◌, pure, raise, refuse_if, require,
}

-- The first member that passes a test.
abbrev pub find : {A : Type 0} → (A → Bool) → List A → Option A
find p [] = none
find p (x ∷ xs) = if p x then some x else find p xs

abbrev pub any : {A : Type 0} → (A → Bool) → List A → Bool
any p [] = false
any p (x ∷ xs) = p x || any p xs

abbrev pub has_id : Text → Admin → Bool
has_id id a = text_eq a.id id

abbrev pub has_username : Text → Admin → Bool
has_username username a = text_eq a.username username

abbrev pub is_of : Text → Session → Bool
is_of admin_id s = text_eq s.admin_user_id admin_id

-- `session_token_hash = ? AND expires_at > ?`.
abbrev pub is_live : Text → ℕ → Session → Bool
is_live token_hash now s = text_eq s.session_token_hash token_hash && ltb now s.expires_at

abbrev pub collides : Session → Session → Bool
collides s t = text_eq t.id s.id || text_eq t.session_token_hash s.session_token_hash

abbrev pub joined : Session → Option Admin → Option AuthSession
joined s none = none
joined s (some a) = some (record { session = s; admin = a })

abbrev pub join_admin : List Admin → Option Session → Option AuthSession
join_admin admins none = none
join_admin admins (some s) = joined s (find (has_id s.admin_user_id) admins)

abbrev pub with_password : Text → Text → ℕ → Admin → Admin
with_password id hash now a =
    if text_eq a.id id
    then record a { password_hash = hash; password_changed_at = now; updated_at = now }
    else a

abbrev pub touched : Text → ℕ → Session → Session
touched id now s = if text_eq s.id id then record s { last_seen_at = now } else s

abbrev pub completed : ℕ → BootstrapState
completed now = record { token_hash = []; token_ciphertext = []; consumed_at = some now }

abbrev pub is_set : {A : Type 0} → Option A → Bool
is_set none = false
is_set (some a) = true

abbrev pub is_consumed : BootstrapState → Bool
is_consumed state = is_set state.consumed_at

abbrev pub has_token : BootstrapState → Bool
has_token state = not (is_empty state.token_hash) && not (is_empty state.token_ciphertext)

abbrev pub has_trace : BootstrapState → Bool
has_trace state = not (is_empty state.token_hash) || not (is_empty state.token_ciphertext)

-- The state with `Required`, by the number of administrators.
abbrev pub checked_bootstrap : ℕ → BootstrapState → M (Bool × BootstrapState)
checked_bootstrap count state = do
  refuse_if (count == 0 && is_consumed state) bootstrap_unavailable
  refuse_if (not (is_consumed state) && not (has_token state)) bootstrap_unavailable
  refuse_if (is_consumed state && has_trace state) bootstrap_unavailable
  pure (count == 0 && not (is_consumed state), state)

module _ (env : Env) where
  abbrev pub answered : {A : Type 0} → Answer → World → Result A × World → Result A × World
  answered done before after = after
  answered refused before after = (err store_failed, before)
  answered lost before after = (err store_failed, after.1)

  -- One call of the database.
  unfoldable pub call : {A : Type 0} → M A → M A
  call body w =
      let counted = record w { calls = w.calls + 1 } in
      answered (env.answer w.calls) counted (body counted)

  -- `newToken` and `newOpaqueID`.
  unfoldable pub draw : M Text
  draw w = require (env.random w.draws) random_failed (record w { draws = w.draws + 1 })

  unfoldable pub admin_by_username : Text → M Admin
  unfolding call
  admin_by_username username = call λ w. require (find (has_username username) w.admins) not_found w

  unfoldable pub admin_by_id : Text → M Admin
  unfolding call
  admin_by_id id = call λ w. require (find (has_id id) w.admins) not_found w

  unfoldable pub auth_session_by_token_hash : Text → ℕ → M AuthSession
  unfolding call
  auth_session_by_token_hash token_hash now =
      call λ w. require (join_admin w.admins (find (is_live token_hash now) w.sessions)) not_found w

  -- The insertion, which the keys of the table can refuse.
  abbrev pub insert_session : Session → M (Unit {0})
  insert_session s w =
      if any (collides s) w.sessions || not (any (has_id s.admin_user_id) w.admins)
      then (err constraint_violated, w)
      else (ok tt, record w { sessions = s ∷ w.sessions })

  unfoldable pub create_session : Session → M (Unit {0})
  unfolding call
  create_session s = call (insert_session s)

  unfoldable pub touch_session : Text → ℕ → M (Unit {0})
  unfolding call
  touch_session id now = call λ w. (ok tt, record w { sessions = map (touched id now) w.sessions })

  abbrev pub is_other_session : Text → Session → Bool
  is_other_session id s = not (text_eq s.id id)

  unfoldable pub delete_session : Text → M (Unit {0})
  unfolding call
  delete_session id =
      call λ w. (ok tt, record w { sessions = keep (is_other_session id) w.sessions })

  abbrev pub is_unexpired : ℕ → Session → Bool
  is_unexpired now s = ltb now s.expires_at

  unfoldable pub delete_expired_sessions : ℕ → M (Unit {0})
  unfolding call
  delete_expired_sessions now =
      call λ w. (ok tt, record w { sessions = keep (is_unexpired now) w.sessions })

  abbrev pub is_not_of : Text → Session → Bool
  is_not_of admin_id s = not (is_of admin_id s)

  -- The new hash, and no session of the administrator any more.
  abbrev pub set_password : Text → Text → ℕ → World → World
  set_password id hash now w = record w {
    admins = map (with_password id hash now) w.admins;
    sessions = keep (is_not_of id) w.sessions;
  }

  unfoldable pub update_admin_password : Text → Text → ℕ → M (Unit {0})
  unfolding call
  update_admin_password id hash now = call λ w.
      if length (keep (has_id id) w.admins) == 1
      then (ok tt, set_password id hash now w)
      else (err not_found, w)

  abbrev pub insert_audit_row : AuditLog → M (Unit {0})
  insert_audit_row a w =
      if any (λ (b : AuditLog). text_eq b.id a.id) w.audits
        || (not (is_empty a.actor_admin_id) && not (any (has_id a.actor_admin_id) w.admins))
      then (err constraint_violated, w)
      else (ok tt, record w { audits = a ∷ w.audits })

  unfoldable pub insert_audit : AuditLog → M (Unit {0})
  unfolding call
  insert_audit a = call (insert_audit_row a)

  -- A transaction's statements, which an error undoes.
  abbrev pub undone : {A : Type 0} → World → Result A × World → Result A × World
  undone before (ok a, w) = (ok a, w)
  undone before (err e, w) = (err e, before)

  abbrev pub transaction : {A : Type 0} → M A → M A
  transaction body = call λ w. undone w (body w)

  abbrev pub reset_found : Text → ℕ → AuditLog → Option Admin → M Text
  reset_found hash now audit none = raise not_found
  reset_found hash now audit (some a) =
      (λ w. (ok tt, set_password a.id hash now w))
      >> (insert_audit_row (record audit {
        actor_admin_id = a.id;
        resource_id = if is_empty audit.resource_id then a.id else audit.resource_id;
      })
          >> pure a.id)

  unfoldable pub reset_admin_password_with_audit : Text → Text → ℕ → AuditLog → M Admin
  unfolding call admin_by_id
  reset_admin_password_with_audit username hash now audit =
      transaction (λ w. reset_found hash now audit (find (has_username username) w.admins) w)
      >>= admin_by_id

  unfoldable pub admin_count : M ℕ
  unfolding call
  admin_count = call λ w. (ok (length w.admins), w)

  unfoldable pub bootstrap_row : M BootstrapState
  unfolding call
  bootstrap_row = call λ w. require w.bootstrap not_found w

  unfoldable pub bootstrap_state : M (Bool × BootstrapState)
  unfolding admin_count bootstrap_row
  bootstrap_state = do
    count ← admin_count
    refuse_if (ltb 1 count) multiple_administrators
    state ← bootstrap_row
    checked_bootstrap count state

  abbrev pub insert_admin : Admin → M (Unit {0})
  insert_admin a w =
      if any (has_id a.id) w.admins || any (has_username a.username) w.admins
      then (err constraint_violated, w)
      else (ok tt, record w { admins = a ∷ w.admins })

  abbrev pub read_world : {A : Type 0} → (World → A) → M A
  read_world f w = (ok (f w), w)

  -- The statements of `CompleteBootstrap` between `BEGIN IMMEDIATE` and `COMMIT`. The row that was
  -- read is not consumed and has the token, so the last update affects it.
  abbrev pub bootstrap_statements : Text → Admin → Session → AuditLog → ℕ → M (Unit {0})
  bootstrap_statements expected admin session audit now = do
    count ← read_world λ w. length w.admins
    refuse_if (ltb 1 count) multiple_administrators
    refuse_if (not (count == 0)) bootstrap_completed
    row ← read_world λ w. w.bootstrap
    state ← require row bootstrap_unavailable
    refuse_if (is_consumed state) bootstrap_completed
    refuse_if (not (text_eq state.token_hash expected)) invalid_bootstrap_token
    insert_admin admin
    insert_session session
    insert_audit_row audit
    λ w. (ok tt, record w { bootstrap = some (completed now) })

  unfoldable pub complete_bootstrap : Text → Admin → Session → AuditLog → ℕ → M (Unit {0})
  unfolding call
  complete_bootstrap expected admin session audit now =
      refuse_if (is_empty expected) invalid_bootstrap_token
      >> transaction (bootstrap_statements expected admin session audit now)
