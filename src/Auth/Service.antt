-- ===== src/Auth/Service.antt =====
-- internal/auth/service.go with the policies of password.go. A clock's readings in one call are equal.
-- The texts are valid UTF-8.
pub mod Setup
pub mod Runs
pub mod Effects
pub mod Logins
pub mod Passwords
pub mod Bootstrap
pub mod Once
pub mod Sessions
mod Tests
use Prim.Native.String.{String}
use m_ui.Prelude.{
  ℕ, ◌+◌, ◌-◌, ◌*◌, Bool, true, false, not, ◌&&◌, ◌||◌, Option, none, some, List, [], ◌∷◌, ltb, leb,
  ◌==◌, if◌then◌else◌, length, Text, text_eq, is_empty, trim_space, is_digit, byte_length, codes,
  Key,
}
use m_ui.Auth.Limiter.{LoginLimiter, retry_after, failure, success}
use m_ui.Auth.Accounts.{
  Admin, Session, AuthSession, AuditLog, BootstrapState, Env, LimitKey, World, AuthError,
  invalid_credentials, invalid_csrf, password_policy, invalid_username, bootstrap_completed,
  invalid_bootstrap_token, no_administrator, not_found, bad_hash, rate_limited, Result, ok, err, M,
  ◌>>=◌, ◌>>◌, pure, raise, refuse_if, ignore, require,
}
use m_ui.Auth.Store.{
  draw, admin_by_username, auth_session_by_token_hash, create_session, touch_session,
  delete_session, update_admin_password, insert_audit, reset_admin_password_with_audit,
  bootstrap_state, complete_bootstrap,
}

abbrev is_letter : ℕ → Bool
is_letter c = (leb b'a' c && leb c b'z') || (leb b'A' c && leb c b'Z')

abbrev pub is_name_character : ℕ → Bool
is_name_character c = is_letter c || is_digit c || c == b'_' || c == b'-' || c == b'.'

abbrev pub all_name_characters : Text → Bool
all_name_characters [] = true
all_name_characters (c ∷ s) = is_name_character c && all_name_characters s

abbrev pub starts_well : Text → Bool
starts_well [] = true
starts_well (c ∷ s) = is_letter c || is_digit c

-- `ValidateUsername(username) == nil`.
unfoldable pub is_valid_username : Text → Bool
is_valid_username name =
    leb 3 (byte_length name)
    && leb (byte_length name) 64
    && all_name_characters name
    && starts_well name

abbrev pub has_nul : Text → Bool
has_nul [] = false
has_nul (c ∷ s) = c == 0 || has_nul s

-- `ValidatePassword(password) == nil`.
unfoldable pub is_valid_password : Text → Bool
is_valid_password password =
    leb 12 (length password) && leb (byte_length password) 1024 && not (has_nul password)

abbrev pub five_minutes : ℕ
five_minutes = 300_000_000_000

abbrev pub is_missing : AuthError → Bool
is_missing not_found = true
is_missing _ = false

-- The error where a lookup finds nothing, and any other error as it is.
abbrev pub when_missing : {A : Type 0} → AuthError → Result A × World → Result A × World
when_missing e (ok a, w) = (ok a, w)
when_missing e (err f, w) = (err (if is_missing f then e else f), w)

abbrev pub or_missing : {A : Type 0} → M A → AuthError → M A
or_missing m e w = when_missing e (m w)

-- What the lookup of a name gives a login: nobody is a value, another error ends it.
abbrev pub optional : {A : Type 0} → Result A × World → Result (Option A) × World
optional (ok a, w) = (ok (some a), w)
optional (err e, w) = (if is_missing e then ok none else err e, w)

abbrev pub found : {A : Type 0} → M A → M (Option A)
found m w = optional (m w)

-- The taken bootstrap, whichever error says so.
abbrev pub as_completed : AuthError → AuthError
as_completed invalid_bootstrap_token = bootstrap_completed
as_completed e = e

abbrev pub completing : {A : Type 0} → Result A × World → Result A × World
completing (ok a, w) = (ok a, w)
completing (err e, w) = (err (as_completed e), w)

pub record Credentials : Type 0 where
  pub admin : Admin
  pub session : Session
  pub session_token : Text
  pub csrf_token : Text

module _ (env : Env) ⦃key : Key LimitKey⦄ where
  unfoldable pub write_audit : Text → String → String → Text → String → String → M (Unit {0})
  unfolding draw insert_audit
  write_audit actor action resource_type resource_id result summary = do
    id ← draw env
    insert_audit env (record {
      id = id;
      actor_admin_id = actor;
      action = action;
      resource_type = resource_type;
      resource_id = resource_id;
      result = result;
      summary_redacted = summary;
      created_at = env.now;
    })

  abbrev pub check_limit : LimitKey → M (Unit {0})
  check_limit k w =
      let retry = retry_after w.limiter k env.now in
      refuse_if (not (retry == 0)) (rate_limited retry) w

  abbrev pub count_failure : LimitKey → M (Unit {0})
  count_failure k w = (ok tt, record w { limiter = (failure w.limiter k env.now).0 })

  abbrev pub clear_failures : LimitKey → M (Unit {0})
  clear_failures k w = (ok tt, record w { limiter = success w.limiter k })

  unfoldable pub login_refused : {A : Type 0} → LimitKey → M A
  unfolding write_audit
  login_refused k = do
    count_failure k
    ignore (write_audit [] "auth.login" "session" [] "failure" "Authentication failed.")
    raise invalid_credentials

  abbrev pub new_session : Text → Text → Text → Text → Text → Session
  new_session id admin_id session_token csrf_token agent = record {
    id = id;
    admin_user_id = admin_id;
    session_token_hash = env.hash_token session_token;
    csrf_token_hash = env.hash_token csrf_token;
    expires_at = env.now + env.session_ttl;
    last_seen_at = env.now;
    created_at = env.now;
    user_agent = env.sanitize agent;
  }

  -- `if err := m; err != nil { _ = cleanup; return err }`.
  abbrev pub cleaned : M (Unit {0}) → Result (Unit {0}) × World → Result (Unit {0}) × World
  cleaned cleanup (ok u, w) = (ok u, w)
  cleaned cleanup (err e, w) = (err e, (cleanup w).1)

  abbrev pub or_clean_up : M (Unit {0}) → M (Unit {0}) → M (Unit {0})
  or_clean_up m cleanup w = cleaned cleanup (m w)

  unfoldable pub open_session : LimitKey → Text → Admin → M Credentials
  unfolding draw create_session delete_session write_audit
  open_session k agent admin = do
    session_token ← draw env
    csrf_token ← draw env
    id ← draw env
    let session = new_session id admin.id session_token csrf_token agent
    create_session env session
    or_clean_up
        (write_audit admin.id "auth.login" "session" id "success" "Administrator signed in.")
        (delete_session env id)
    clear_failures k
    pure (record {
      admin = admin;
      session = session;
      session_token = session_token;
      csrf_token = csrf_token;
    })

  -- By what the verification of the password said.
  abbrev pub verified_login : LimitKey → Text → Admin → Option Bool → M Credentials
  verified_login k agent admin none = raise bad_hash
  verified_login k agent admin (some true) = open_session k agent admin
  verified_login k agent admin (some false) = login_refused k

  -- For an unknown name the password is verified against a dummy hash, whose result is not used.
  abbrev pub known_login : LimitKey → Text → Text → Option Admin → M Credentials
  known_login k password agent none = login_refused k
  known_login k password agent (some admin) =
      verified_login k agent admin (env.verify_password password admin.password_hash)

  abbrev pub login_limit_key : Text → Text → LimitKey
  login_limit_key source username = (source, env.to_lower (trim_space username))

  unfoldable pub login : Text → Text → Text → Text → M Credentials
  unfolding admin_by_username open_session login_refused
  login username password source agent = do
    let name = trim_space username
    let k = login_limit_key source name
    check_limit k
    admin ← found (admin_by_username env name)
    known_login k password agent admin

  abbrev pub seen_now : AuthSession → AuthSession
  seen_now a = record { session = record a.session { last_seen_at = env.now }; admin = a.admin }

  -- A session is marked as seen at most every five minutes.
  unfoldable pub refresh : AuthSession → M AuthSession
  unfolding touch_session
  refresh a =
      let touch = touch_session env a.session.id env.now in
      if leb five_minutes (env.now - a.session.last_seen_at)
      then touch >> pure (seen_now a)
      else pure a

  unfoldable pub authenticate : Text → M AuthSession
  unfolding auth_session_by_token_hash refresh
  authenticate token = do
    refuse_if (is_empty token) invalid_credentials
    found_session ←
        or_missing (auth_session_by_token_hash env (env.hash_token token) env.now)
          invalid_credentials
    refresh found_session

  unfoldable pub verify_csrf : Session → Text → M (Unit {0})
  verify_csrf session raw_token =
      refuse_if (not (text_eq (env.hash_token raw_token) session.csrf_token_hash)) invalid_csrf

  unfoldable pub logout : AuthSession → M (Unit {0})
  unfolding delete_session write_audit
  logout a =
      delete_session env a.session.id
      >> ignore (
          write_audit a.admin.id "auth.logout" "session" a.session.id "success"
            "Administrator signed out.")

  -- `hashPassword`, with its salt from the random source.
  unfoldable pub hash_new : Text → M Text
  unfolding draw
  hash_new password = do salt ← draw env; pure (env.hash_password password salt)

  -- By what the verification of the current password said.
  abbrev pub verified_change : AuthSession → Text → Option Bool → M (Unit {0})
  verified_change a new_password none = raise bad_hash
  verified_change a new_password (some false) = do
    ignore (
        write_audit a.admin.id "auth.change_password" "administrator" a.admin.id "failure"
          "Password change authentication failed.")
    raise invalid_credentials
  verified_change a new_password (some true) = do
    refuse_if (not (is_valid_password new_password)) password_policy
    hash ← hash_new new_password
    update_admin_password env a.admin.id hash env.now
    write_audit a.admin.id "auth.change_password" "administrator" a.admin.id "success"
        "Administrator changed the password."

  unfoldable pub change_password : AuthSession → Text → Text → M (Unit {0})
  unfolding write_audit hash_new update_admin_password is_valid_password
  change_password a current_password new_password =
      verified_change a new_password (env.verify_password current_password a.admin.password_hash)

  unfoldable pub reset_password : Text → Text → M Admin
  unfolding admin_by_username hash_new draw reset_admin_password_with_audit is_valid_username
      is_valid_password
  reset_password username password = do
    refuse_if (not (is_valid_username username)) invalid_username
    _ ← or_missing (admin_by_username env username) no_administrator
    refuse_if (not (is_valid_password password)) password_policy
    hash ← hash_new password
    audit_id ← draw env
    reset_admin_password_with_audit env username hash env.now (record {
      id = audit_id;
      actor_admin_id = [];
      action = "auth.password_reset";
      resource_type = "administrator";
      resource_id = [];
      result = "success";
      summary_redacted = "Administrator password was reset locally.";
      created_at = env.now;
    })
