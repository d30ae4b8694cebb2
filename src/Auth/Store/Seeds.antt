-- ===== src/Auth/Store/Seeds.antt =====
-- `EnsureBootstrap` and `RotateBootstrap` of internal/store/bootstrap.go. The times of creation and
-- rotation are left out of the row.
use m_ui.Prelude.{
  ℕ, Bool, not, ◌||◌, Option, none, some, length, ltb, ◌==◌, if◌then◌else◌, [], Text, is_empty,
}
use m_ui.Auth.Accounts.{
  BootstrapState, Env, multiple_administrators, bootstrap_unavailable, bootstrap_completed, ok, M,
  ◌>>=◌, ◌>>◌, refuse_if, require,
}
use m_ui.Auth.Store.{call, transaction, read_world, is_consumed, has_token, completed}

pub record BootstrapSeed : Type 0 where
  pub token_hash : Text
  pub token_ciphertext : Text

abbrev pub is_incomplete : BootstrapSeed → Bool
is_incomplete seed = is_empty seed.token_hash || is_empty seed.token_ciphertext

abbrev pub first_time : Option ℕ → ℕ → Option ℕ
first_time none now = some now
first_time (some t) now = some t

-- The row of a database with an administrator: without a token, and consumed.
abbrev pub sealed : ℕ → Option BootstrapState → BootstrapState
sealed now none = completed now
sealed now (some state) = record {
  token_hash = [];
  token_ciphertext = [];
  consumed_at = first_time state.consumed_at now;
}

abbrev pub seeded : BootstrapSeed → BootstrapState
seeded seed = record {
  token_hash = seed.token_hash;
  token_ciphertext = seed.token_ciphertext;
  consumed_at = none;
}

abbrev pub put_row : BootstrapState → M (Unit {0})
put_row state w = (ok tt, record w { bootstrap = some state })

-- Without an administrator the first row is inserted, and a row that stands must hold a token.
abbrev pub seed_row : BootstrapSeed → Option BootstrapState → M (Unit {0})
seed_row seed none = refuse_if (is_incomplete seed) bootstrap_unavailable >> put_row (seeded seed)
seed_row seed (some state) = do
  refuse_if (is_consumed state) bootstrap_unavailable
  refuse_if (not (has_token state)) bootstrap_unavailable

module _ (env : Env) where
  abbrev pub ensure_statements : BootstrapSeed → ℕ → M (Unit {0})
  ensure_statements seed now = do
    count ← read_world env λ w. length w.admins
    refuse_if (ltb 1 count) multiple_administrators
    row ← read_world env λ w. w.bootstrap
    if count == 1 then put_row (sealed now row) else seed_row seed row

  unfoldable pub ensure_bootstrap : BootstrapSeed → ℕ → M (Unit {0})
  unfolding call
  ensure_bootstrap seed now = transaction env (ensure_statements seed now)

  abbrev pub rotate_statements : BootstrapSeed → M (Unit {0})
  rotate_statements seed = do
    count ← read_world env λ w. length w.admins
    refuse_if (ltb 1 count) multiple_administrators
    refuse_if (not (count == 0)) bootstrap_completed
    row ← read_world env λ w. w.bootstrap
    state ← require row bootstrap_unavailable
    refuse_if (is_consumed state) bootstrap_completed
    put_row (seeded seed)

  unfoldable pub rotate_bootstrap : BootstrapSeed → M (Unit {0})
  unfolding call
  rotate_bootstrap seed =
      refuse_if (is_incomplete seed) bootstrap_unavailable
      >> transaction env (rotate_statements seed)
