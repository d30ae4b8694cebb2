-- ===== src/Auth/SetupToken/Tests.antt =====
-- The rotation of a setup token at concrete values: the sealing puts one number in front, and a token
-- of forty letters stands for 32 bytes.
use m_ui.Prelude.{ℕ, zero, suc, Option, none, some, List, [], ◌∷◌, Text, codes}
use m_ui.Auth.Limiter.{new_login_limiter}
use m_ui.Auth.Accounts.{done, Env, World}
use m_ui.Auth.SetupToken.{Sealer, rotate_bootstrap_token}

abbrev repeated : ℕ → List ℕ
repeated zero = []
repeated (suc n) = b'a' ∷ repeated n

abbrev env : Env
env = record {
  answer = λ n. done;
  random = λ n. some (repeated 40);
  hash_token = λ t. 7 ∷ t;
  hash_password = λ p s. p;
  verify_password = λ p h. none;
  to_lower = λ s. s;
  sanitize = λ s. s;
  dummy_hash = [];
  session_ttl = 10;
  now = 100;
}

abbrev opened : Text → Option Text
opened [] = none
opened (c ∷ s) = some s

abbrev sealer : Sealer
sealer = record {
  encrypt = λ raw. some (9 ∷ raw);
  decrypt = opened;
  decode = λ raw. some (repeated 32);
}

abbrev waiting : World
waiting = record {
  admins = [];
  sessions = [];
  audits = [];
  bootstrap =
      some (record { token_hash = codes "h"; token_ciphertext = codes "c"; consumed_at = none });
  limiter = new_login_limiter;
  setup_limiter = new_login_limiter;
  setup_slots = 0;
  calls = 0;
  draws = 0;
}

abbrev rotated : World
rotated = (rotate_bootstrap_token env sealer waiting).1
