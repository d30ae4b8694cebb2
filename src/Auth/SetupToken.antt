-- ===== src/Auth/SetupToken.antt =====
-- internal/auth/bootstrap.go: the token that a new database's first setup needs.
pub mod Rotation
mod Tests
use m_ui.Prelude.{
  ℕ, Bool, false, not, ◌&&◌, ◌||◌, Option, none, some, List, [], ltb, ◌==◌, if◌then◌else◌, length,
  Text, text_eq, is_empty, byte_length,
}
use m_ui.Auth.Accounts.{
  BootstrapState, Env, bootstrap_completed, invalid_bootstrap_token, seal_failed, Result, ok, err,
  M, ◌>>=◌, ◌>>◌, pure, require,
}
use m_ui.Auth.Store.{draw, bootstrap_state}
use m_ui.Auth.Store.Seeds.{BootstrapSeed, ensure_bootstrap, rotate_bootstrap}
use m_ui.Auth.Service.{found}

-- The sealer of internal/crypto for the token's purpose, and the decoding of unpadded URL-safe base64.
pub record Sealer : Type 0 where
  pub encrypt : Text → Option Text
  pub decrypt : Text → Option Text
  pub decode : Text → Option (List ℕ)

abbrev pub bootstrap_token_bytes : ℕ
bootstrap_token_bytes = 32

abbrev pub empty_seed : BootstrapSeed
empty_seed = record { token_hash = []; token_ciphertext = [] }

abbrev pub has_token_bytes : Option (List ℕ) → Bool
has_token_bytes none = false
has_token_bytes (some bytes) = length bytes == bootstrap_token_bytes

module _ (env : Env) (sealer : Sealer) where
  -- `validateBootstrapToken(raw) == nil`.
  unfoldable pub is_bootstrap_token : Text → Bool
  is_bootstrap_token raw =
      not (ltb (byte_length raw) 40 || ltb 64 (byte_length raw))
      && has_token_bytes (sealer.decode raw)

  abbrev pub seed_of : Text → Text → BootstrapSeed
  seed_of raw ciphertext = record { token_hash = env.hash_token raw; token_ciphertext = ciphertext }

  -- A new token with its seed.
  unfoldable pub new_bootstrap_token : M (Text × BootstrapSeed)
  unfolding draw
  new_bootstrap_token = do
    raw ← draw env
    ciphertext ← require (sealer.encrypt raw) seal_failed
    pure (raw, seed_of raw ciphertext)

  -- By the bootstrap state, where there is one.
  abbrev pub ensure_by_state : Option (Bool × BootstrapState) → M (Unit {0})
  ensure_by_state (some (required, state)) =
      if required then pure tt else ensure_bootstrap env empty_seed env.now
  ensure_by_state none = new_bootstrap_token >>= λ token. ensure_bootstrap env token.1 env.now

  unfoldable pub ensure_token : M (Unit {0})
  unfolding bootstrap_state new_bootstrap_token ensure_bootstrap
  ensure_token = do state ← found (bootstrap_state env); ensure_by_state state

  abbrev pub checked_token : BootstrapState → Option Text → Result Text
  checked_token state none = err seal_failed
  checked_token state (some raw) =
      if is_bootstrap_token raw && text_eq (env.hash_token raw) state.token_hash
      then ok raw
      else err invalid_bootstrap_token

  unfoldable pub read_bootstrap_token : Bool × BootstrapState → Result Text
  unfolding is_bootstrap_token
  read_bootstrap_token (required, state) =
      if is_empty state.token_ciphertext || not required
      then err bootstrap_completed
      else checked_token state (sealer.decrypt state.token_ciphertext)

  unfoldable pub rotate_bootstrap_token : M Text
  unfolding new_bootstrap_token rotate_bootstrap
  rotate_bootstrap_token = do
    token ← new_bootstrap_token
    rotate_bootstrap env token.1
    pure token.0
