-- ===== src/Publisher/Agreement/Baseline.antt =====
-- What a publication knows of the state before it, and what the tests of `reconcileCommit` and of
-- the drift check then say of the running file (internal/publisher/publisher.go).
use m_ui.Prelude.{true, ◌≡◌, refl, ap, Option, none, some, List, [], ◌∷◌, arith}
use m_ui.Publisher.World.{Env, Bytes, Revision}
use m_ui.Publisher.Monad.{ok}
use m_ui.Publisher.Files.{FileState, file_state, file_state_matches}
use m_ui.Publisher.Rows.{one_active}
use m_ui.Publisher.Commit.{revision_matches}
use m_ui.Publisher.Agreement.{Synced, prior}

module _ ⦃env : Env⦄ where
  -- A verified file has the digest of the revision that was active.
  abbrev pub IsBaseline : Option Revision → FileState → Type 0
  IsBaseline none yaml = Unit
  IsBaseline (some r) yaml =
      (yaml.exists ≡ true) × (env.sha256 yaml.content ≡ yaml.sha256) × (yaml.sha256 ≡ r.sha256)

  pub file_state-some :
      (f : Option Bytes) (yaml : FileState)
      → file_state f ≡ yaml
      → yaml.exists ≡ true
      → (b : Bytes) × (f ≡ some b) × (env.sha256 b ≡ yaml.sha256)
  unfolding file_state
  file_state-some none yaml e h = cc (ap (λ (y : FileState). y.exists) e)
  file_state-some (some b) yaml e h = (b, refl, ap (λ (y : FileState). y.sha256) e)

  -- The one active revision is the one that was read.
  pub one_active-some :
      (rs : List Revision) (r : Revision) → one_active rs ≡ ok (some r) → rs ≡ r ∷ []
  one_active-some [] r h = cc
  one_active-some (a ∷ []) r h = ground arith
  one_active-some (a ∷ b ∷ rs) r h = cc

  pub one_active-none : (rs : List Revision) → one_active rs ≡ ok none → rs ≡ []
  one_active-none [] h = refl
  one_active-none (a ∷ []) h = ground arith
  one_active-none (a ∷ b ∷ rs) h = cc

  pub Synced-some :
      (rs : List Revision) (r : Revision) (b : Bytes)
      → rs ≡ r ∷ []
      → env.sha256 b ≡ r.sha256
      → Synced rs (some b)
  Synced-some rs r b e h = rw e h

  Synced-none : (rs : List Revision) (f : Option Bytes) → rs ≡ [] → Synced rs f
  Synced-none rs f e = rw e tt

  -- Where the durable tables are the old ones, the old file is in agreement with them.
  pub prior-Synced :
      (rs : List Revision) (found old : Option Revision) (yaml : FileState)
      → one_active rs ≡ ok found
      → revision_matches found old ≡ true
      → IsBaseline old yaml
      → Synced rs (prior yaml)
  unfolding revision_matches
  prior-Synced rs none old yaml a m b = Synced-none rs (prior yaml) (one_active-none rs a)
  prior-Synced rs (some r) none yaml a m b = cc
  prior-Synced rs (some r) (some s) yaml a m b =
      rw b.0 (Synced-some rs r yaml.content (one_active-some rs r a) (ground arith))

  pub old-Synced :
      (rs : List Revision) (found old : Option Revision) (base yaml : FileState) (f : Option Bytes)
      → one_active rs ≡ ok found
      → revision_matches found old ≡ true
      → IsBaseline old base
      → file_state f ≡ yaml
      → file_state_matches yaml base ≡ true
      → Synced rs f
  unfolding revision_matches file_state_matches
  old-Synced rs none old base yaml f a m b e h = Synced-none rs f (one_active-none rs a)
  old-Synced rs (some r) none base yaml f a m b e h = cc
  old-Synced rs (some r) (some s) base yaml f a m b e h =
      let (c, is_c, digest) = file_state-some f yaml e (ground arith) in
      rw is_c (Synced-some rs r c (one_active-some rs r a) (ground arith))
