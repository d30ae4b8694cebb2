-- ===== src/Auth/Accounts.antt =====
-- The tables of internal/store/auth.go and bootstrap.go with their calls, and the actions of the
-- authentication service: each takes the world to a result and the next world. `Env.answer` says at
-- the call's number how a call of the database ends: done, refused without effect, or lost, which is
-- an error after the effect. A transaction is one call, whose error rolls it back unless it is lost.
use Prim.Native.String.{String}
use m_ui.Prelude.{ℕ, Bool, true, false, Option, none, some, List, Text}
use m_ui.Auth.Limiter.{LoginLimiter}

pub record Admin : Type 0 where
  pub id : Text
  pub username : Text
  pub password_hash : Text
  pub password_changed_at : ℕ
  pub created_at : ℕ
  pub updated_at : ℕ

-- The hash of the client's address, which no caller sets, is left out.
pub record Session : Type 0 where
  pub id : Text
  pub admin_user_id : Text
  pub session_token_hash : Text
  pub csrf_token_hash : Text
  pub expires_at : ℕ
  pub last_seen_at : ℕ
  pub created_at : ℕ
  pub user_agent : Text

pub record AuthSession : Type 0 where
  pub session : Session
  pub admin : Admin

pub record AuditLog : Type 0 where
  pub id : Text
  pub actor_admin_id : Text
  pub action : String
  pub resource_type : String
  pub resource_id : Text
  pub result : String
  pub summary_redacted : String
  pub created_at : ℕ

-- The times of creation and rotation are left out.
pub record BootstrapState : Type 0 where
  pub token_hash : Text
  pub token_ciphertext : Text
  pub consumed_at : Option ℕ

pub data Answer : Type 0 where
  done refused lost : Answer

pub record Env : Type 0 where
  pub answer : ℕ → Answer
  pub random : ℕ → Option Text  -- what the random source gives at its call's number
  pub hash_token : Text → Text
  pub hash_password : Text → Text → Text  -- of a password and a salt
  pub verify_password : Text → Text → Option Bool  -- none for a hash that does not parse
  pub to_lower : Text → Text
  pub sanitize : Text → Text  -- of the user agent
  pub dummy_hash : Text
  pub session_ttl : ℕ
  pub now : ℕ

-- A key of the limiters: the address and the user name.
abbrev pub LimitKey : Type 0
LimitKey = Text × Text

pub record World : Type 0 where
  pub admins : List Admin
  pub sessions : List Session
  pub audits : List AuditLog
  pub bootstrap : Option BootstrapState
  pub limiter : LoginLimiter LimitKey
  pub setup_limiter : LoginLimiter LimitKey
  pub setup_slots : ℕ  -- in use
  pub calls : ℕ
  pub draws : ℕ

pub data AuthError : Type 0 where
  invalid_credentials invalid_csrf password_policy invalid_username : AuthError
  bootstrap_completed invalid_bootstrap_token no_administrator : AuthError
  not_found multiple_administrators bootstrap_unavailable : AuthError
  store_failed random_failed bad_hash seal_failed constraint_violated : AuthError
  rate_limited : ℕ → AuthError

pub data Result {ℓ} (A : Type ℓ) : Type ℓ where
  ok : A → Result A
  err : AuthError → Result A

abbrev pub M : Type 0 → Type 0
M A = World → Result A × World

abbrev pub continue : {A B : Type 0} → Result A × World → (A → M B) → Result B × World
continue (ok a, w) f = f a w
continue (err e, w) f = (err e, w)

infixl 5 ◌>>=◌ ◌>>◌
abbrev pub ◌>>=◌ : {A B : Type 0} → M A → (A → M B) → M B
◌>>=◌ m f w = continue (m w) f

abbrev pub ◌>>◌ : {B : Type 0} → M (Unit {0}) → M B → M B
m >> k = m >>= λ _. k

abbrev pub pure : {A : Type 0} → A → M A
pure a w = (ok a, w)

abbrev pub raise : {A : Type 0} → AuthError → M A
raise e w = (err e, w)

abbrev pub refuse_if : Bool → AuthError → M (Unit {0})
refuse_if true e = raise e
refuse_if false e = pure tt

-- `_ = m`: the result of the call is dropped.
abbrev pub drop : {A : Type 0} → Result A × World → Result (Unit {0}) × World
drop (r, w) = (ok tt, w)

abbrev pub ignore : {A : Type 0} → M A → M (Unit {0})
ignore m w = drop (m w)

abbrev pub require : {A : Type 0} → Option A → AuthError → M A
require none e = raise e
require (some a) e = pure a
