-- ===== src/Auth/SetupToken/Rotation.antt =====
-- A rotated setup token is read back (internal/auth/bootstrap.go).
use m_ui.Prelude.{◌≡◌, false, not, some, [], Text}
use m_ui.Auth.Accounts.{BootstrapState, Env, World, ok}
use m_ui.Auth.Store.{is_consumed}
use m_ui.Auth.Store.Seeds.{BootstrapSeed, seeded}
use m_ui.Auth.SetupToken.{Sealer, read_bootstrap_token}

module _ (env : Env) where
  -- Without administrators, the row is that of the seed.
  abbrev pub Rotated : BootstrapSeed → World → Type 0
  Rotated seed w = (w.admins ≡ []) × (w.bootstrap ≡ some (seeded seed))

  module _ (sealer : Sealer) where
    -- The stored row, which is not consumed and gives the token back, without an administrator.
    abbrev pub Readable : Text → World → Type 0
    Readable raw v =
        (state : BootstrapState) × ((v.bootstrap ≡ some state)
          × ((v.admins ≡ [])
              × ((is_consumed state ≡ false)
                  × (read_bootstrap_token env sealer (not (is_consumed state), state) ≡ ok raw))))
