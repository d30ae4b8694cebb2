-- ===== src/Publisher/Files.antt =====
-- internal/publisher/files.go, and the reads of the active file in publisher.go. A write that
-- fails may leave its file behind (`lost`), as one whose clean-up fails too.
use m_ui.Prelude.{
  ℕ, ◌*◌, Bool, true, false, not, Option, none, some, [], ◌∷◌, length, ltb, ◌==◌, ◌&&◌,
  if◌then◌else◌,
}
use m_ui.Publisher.World.{Env, Core, Bytes, ManagedPath, config, path_eq}
use m_ui.Publisher.Monad.{
  Result, ok, err, M, ◌>>=◌, ◌>>◌, pure, perform, execute, observe, with_core, call_failed,
  file_too_large, read_file, write_file, replace_file, remove_file, sync_directory,
}

abbrev pub max_managed_file_size : ℕ
max_managed_file_size = 16 * 1024 * 1024

-- `publicationFileState`. A file that is not there has no content and the empty digest.
pub record FileState : Type 0 where
  pub content : Bytes
  pub exists : Bool
  pub sha256 : ℕ

-- `fileStateMatches`.
unfoldable pub file_state_matches : FileState → FileState → Bool
file_state_matches actual expected =
    if actual.exists
    then expected.exists && actual.sha256 == expected.sha256
    else not expected.exists

abbrev pub within_limit : Option Bytes → Result (Option Bytes)
within_limit none = ok none
within_limit (some b) =
    if ltb max_managed_file_size (length b) then err (file_too_large ∷ []) else ok (some b)

module _ {S : Type 0} where
  unfoldable pub set_file : ManagedPath → Option Bytes → Core S → Core S
  set_file p content c = record c { files = λ q. if path_eq p q then content else c.files q }

  -- `O_EXCL`: a file that is there is not written over.
  abbrev pub write_new : ManagedPath → Bytes → Option Bytes → Core S → Result (Core S)
  write_new p b none c = ok (set_file p (some b) c)
  write_new p b (some old) c = err (call_failed write_file ∷ [])

  -- A rename of a file that is there.
  abbrev pub rename_to_config : ManagedPath → Option Bytes → Core S → Result (Core S)
  rename_to_config p none c = err (call_failed replace_file ∷ [])
  rename_to_config p (some b) c = ok (set_file p none (set_file config (some b) c))

module _ ⦃env : Env⦄ where
  unfoldable pub sync : M (Unit {0})
  unfolding observe
  sync = observe (λ _. ok tt) (call_failed sync_directory)

  unfoldable pub read_managed_file : ManagedPath → M (Option Bytes)
  unfolding observe
  read_managed_file p = observe (λ c. within_limit (c.files p)) (call_failed read_file)

  unfoldable pub write_synced : ManagedPath → Bytes → M (Unit {0})
  unfolding execute set_file
  write_synced p b =
      execute
        (λ c.
          if ltb max_managed_file_size (length b)
          then err (file_too_large ∷ [])
          else write_new p b (c.files p) c)
        (call_failed write_file)

  unfoldable pub replace_and_sync : ManagedPath → M (Unit {0})
  unfolding execute set_file sync
  replace_and_sync p = do
    execute (λ c. rename_to_config p (c.files p) c) (call_failed replace_file)
    sync

  -- `os.Remove`; that the file was not there is no error.
  unfoldable pub remove_file_at : ManagedPath → M (Unit {0})
  unfolding perform set_file
  remove_file_at p = perform (set_file p none) (call_failed remove_file)

  unfoldable pub remove_and_sync : ManagedPath → M (Unit {0})
  unfolding remove_file_at sync
  remove_and_sync p = do remove_file_at p; sync

  unfoldable pub file_state : Option Bytes → FileState
  file_state none = record { content = []; exists = false; sha256 = 0 }
  file_state (some b) = record { content = b; exists = true; sha256 = env.sha256 b }

  abbrev pub tampered_core : Option (Option Bytes) → Core env.State → Core env.State
  tampered_core none c = c
  tampered_core (some content) c = set_file config content c

  -- Something else may have written the active file since the last look at it.
  unfoldable pub tamper : M (Unit {0})
  unfolding set_file
  tamper w = (ok tt, with_core w (tampered_core (env.tampered w.tick) w.core))

  unfoldable pub read_active_yaml : M FileState
  unfolding tamper read_managed_file file_state
  read_active_yaml = do tamper; content ← read_managed_file config; pure (file_state content)
