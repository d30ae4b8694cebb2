-- ===== src/Auth/Service/Tests.antt =====
-- A setup, a login, a password change and a session at concrete values.
use m_ui.Prelude.{
  ℕ, ◌≡◌, refl, true, false, ◌&&◌, ◌⊎◌, none, some, [], ◌∷◌, arith, Text, codes, text_eq, text_eq-≡,
  text_eq_refl, subst, is_empty, trim_space, Key, lookup,
}
use m_ui.Auth.Limiter.{new_login_limiter, retry_after}
use m_ui.Auth.Accounts.{Admin, Session, AuthSession, done, Env, LimitKey, World}
use m_ui.Auth.Store.{find, has_username}
use m_ui.Auth.Service.{
  Credentials, is_valid_username, is_valid_password, seen_now, authenticate, login_limit_key, login,
  change_password,
}
use m_ui.Auth.Service.Setup.{complete_setup}
use m_ui.Auth.Service.Runs.{Returns}
use m_ui.Auth.Service.Sessions.{Stored, authenticate-Stored}
use m_ui.Auth.Service.Logins.{login-known}
use m_ui.Auth.Service.Passwords.{Changed, change_password-Changed}
use m_ui.Auth.Service.Bootstrap.{Created}
use m_ui.Auth.Service.Once.{HasPassword, complete_setup-Created}

instance limit_key : Key LimitKey
limit_key = record {
  beq = λ a b. text_eq a.0 b.0 && text_eq a.1 b.1;
  beq_iff = λ a b. (
    λ h. ground (arith, text_eq-≡ a.0 b.0, text_eq-≡ a.1 b.1),
    λ h.
        subst (λ (c : LimitKey). (text_eq a.0 c.0 && text_eq a.1 c.1) ≡ true) h
          (ground (arith, text_eq_refl a.0, text_eq_refl a.1)),
  );
}

abbrev env : Env
env = record {
  answer = λ n. done;
  random = λ n. some (n ∷ []);
  hash_token = λ t. 7 ∷ t;
  hash_password = λ p s. 8 ∷ p;
  verify_password = λ p h. some (text_eq h (8 ∷ p));
  to_lower = λ s. s;
  sanitize = λ s. s;
  dummy_hash = [];
  session_ttl = 10;
  now = 100;
}

abbrev password : Text
password = codes "correct horse"

abbrev new_world : World
new_world = record {
  admins = [];
  sessions = [];
  audits = [];
  bootstrap =
      some (record { token_hash = codes "h"; token_ciphertext = codes "c"; consumed_at = none });
  limiter = new_login_limiter;
  setup_limiter = new_login_limiter;
  setup_slots = 0;
  calls = 0;
  draws = 0;
}

abbrev ann : Admin
ann = record {
  id = 3 ∷ [];
  username = codes "ann";
  password_hash = 8 ∷ password;
  password_changed_at = 100;
  created_at = 100;
  updated_at = 100;
}

abbrev session_of : ℕ → ℕ → ℕ → Session
session_of id token csrf = record {
  id = id ∷ [];
  admin_user_id = 3 ∷ [];
  session_token_hash = 7 ∷ token ∷ [];
  csrf_token_hash = 7 ∷ csrf ∷ [];
  expires_at = 110;
  last_seen_at = 100;
  created_at = 100;
  user_agent = codes "ua";
}

abbrev credentials_of : ℕ → ℕ → ℕ → Credentials
credentials_of id token csrf = record {
  admin = ann;
  session = session_of id token csrf;
  session_token = token ∷ [];
  csrf_token = csrf ∷ [];
}

abbrev set_up : World
set_up = (complete_setup env (codes "ann") password (codes "ip") (codes "ua") new_world).1

set_up-Returns :
    Returns
      (complete_setup env (codes "ann") password (codes "ip") (codes "ua"))
      new_world
      (credentials_of 4 1 2)
      set_up
unfolding complete_setup retry_after lookup limit_key new_login_limiter
set_up-Returns = refl

complete_setup-Created_example :
    (is_valid_username (codes "ann") ≡ true)
    × ((is_valid_password password ≡ true)
        × HasPassword env (codes "ann") password ann
        × Created env ann (session_of 4 1 2) new_world set_up)
complete_setup-Created_example =
    complete_setup-Created env (codes "ann") password (codes "ip") (codes "ua") new_world set_up
      (credentials_of 4 1 2) set_up-Returns

abbrev with_ann : World
with_ann = record new_world { admins = ann ∷ [] }

abbrev logged_in : World
logged_in = (login env (codes "ann") password (codes "ip") (codes "ua") with_ann).1

logged_in-Returns :
    Returns
      (login env (codes "ann") password (codes "ip") (codes "ua"))
      with_ann
      (credentials_of 2 0 1)
      logged_in
unfolding login trim_space retry_after lookup limit_key new_login_limiter
logged_in-Returns = refl

login-known_example :
    (retry_after with_ann.limiter (login_limit_key env (codes "ip") (trim_space (codes "ann"))) 100
      ≡ 0)
    × ((find (has_username (trim_space (codes "ann"))) with_ann.admins ≡ some ann)
        × ((env.verify_password password ann.password_hash ≡ some true)
            × (logged_in.sessions ≡ session_of 2 0 1 ∷ [])))
login-known_example =
    login-known env (codes "ann") password (codes "ip") (codes "ua") with_ann logged_in
      (credentials_of 2 0 1) logged_in-Returns

abbrev with_session : World
with_session = record with_ann { sessions = session_of 2 0 1 ∷ [] }

abbrev ann_session : AuthSession
ann_session = record { session = session_of 2 0 1; admin = ann }

abbrev looked_up : World
looked_up = (authenticate env (0 ∷ []) with_session).1

looked_up-Returns : Returns (authenticate env (0 ∷ [])) with_session ann_session looked_up
unfolding authenticate
looked_up-Returns = refl

authenticate-Stored_example :
    (is_empty (0 ∷ []) ≡ false)
    × ((a : AuthSession) × (Stored env with_session (0 ∷ []) a
          × ((ann_session ≡ a) ⊎ (ann_session ≡ seen_now env a))))
authenticate-Stored_example =
    authenticate-Stored env (0 ∷ []) ann_session with_session looked_up looked_up-Returns

abbrev new_password : Text
new_password = codes "battery staple"

abbrev changed : World
changed = (change_password env ann_session password new_password with_session).1

changed-Returns :
    Returns (change_password env ann_session password new_password) with_session tt changed
unfolding change_password
changed-Returns = refl

change_password-Changed_example :
    (env.verify_password password ann.password_hash ≡ some true)
    × ((is_valid_password new_password ≡ true)
        × Changed env ann.id new_password with_session changed)
change_password-Changed_example =
    change_password-Changed env ann_session password new_password with_session changed
      changed-Returns
