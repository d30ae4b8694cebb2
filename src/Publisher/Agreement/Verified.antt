-- ===== src/Publisher/Agreement/Verified.antt =====
-- What the verification of the previous publication finds (`verifyActivePublication` of
-- internal/publisher/publisher.go).
use m_ui.Prelude.{
  ℕ, Bool, true, ◌≡◌, refl, ap, subst, Option, none, some, List, [], ◌∷◌, arith, ◌==◌, ◌&&◌,
}
use m_ui.Publisher.World.{
  Env, Tables, Bytes, config, path_eq, path_within, Revision, DegradedReason,
}
use m_ui.Publisher.Monad.{ok, Fault, M, ◌>>=◌, ◌>>◌, pure, guard, faults, integrity_violated}
use m_ui.Publisher.Files.{FileState, file_state, set_file, read_active_yaml}
use m_ui.Publisher.Rows.{one_active, is_active}
use m_ui.Publisher.Store.{rollback, desired_state}
use m_ui.Publisher.Verify.{
  VerifiedActive, matches_digest, read_revision_state_snapshot, verify_active_publication,
  reject_active, verify_some, verify_previous, decoded,
}
use m_ui.Publisher.View.{Keeps, bind-Keeps, lift-Keeps}
use m_ui.Publisher.Keeps.{in_tx-Keeps, read_managed_file-Keeps}
use m_ui.Publisher.Triple.{
  Triple, bind, weaken, return, fail, catch, drop, handle, guards, Pred, Post-both,
}
use m_ui.Publisher.Agreement.{Seen, seen, Synced, Failed}
use m_ui.Publisher.Agreement.Restore.{Anything, degrade-IsDegraded}
use m_ui.Publisher.Agreement.Failure.{marked_last-Failed}
use m_ui.Publisher.Agreement.Baseline.{IsBaseline, file_state-some, one_active-some, Synced-some}
use m_ui.Publisher.Agreement.Reconcile.{read_active_yaml-finds, compile-kept}
use m_ui.Publisher.Agreement.Activate.{InTx}
use m_ui.Publisher.Agreement.Drift.{Before}
use m_ui.Publisher.Agreement.Landing.{kept_in_tx}

module _ ⦃env : Env⦄ where
  -- What is known of the old file, where there is an active revision.
  abbrev pub IsVerified : Option Revision → Option VerifiedActive → Type 0
  IsVerified none verified = Unit
  IsVerified (some r) none = ⊥
  IsVerified (some r) (some verified) = IsBaseline (some r) verified.active_yaml

  file_state-digest :
      (f : Option Bytes) (yaml : FileState)
      → file_state f ≡ yaml
      → yaml.exists ≡ true
      → env.sha256 yaml.content ≡ yaml.sha256
  unfolding file_state
  file_state-digest none yaml e h = cc (ap (λ (y : FileState). y.exists) e)
  file_state-digest (some b) yaml e h =
      subst (λ (y : FileState). env.sha256 y.content ≡ y.sha256) e refl

  checked-IsBaseline :
      (r : Revision) (yaml : FileState) (f : Option Bytes)
      → file_state f ≡ yaml
      → yaml.exists && yaml.sha256 == r.sha256 ≡ true
      → IsBaseline (some r) yaml
  checked-IsBaseline r yaml f e h =
      (ground arith, file_state-digest f yaml e (ground arith), ground arith)

  checked-Synced :
      (r : Revision) (yaml : FileState) (rs : List Revision) (f : Option Bytes)
      → one_active rs ≡ ok (some r)
      → file_state f ≡ yaml
      → yaml.exists && yaml.sha256 == r.sha256 ≡ true
      → Synced rs f
  checked-Synced r yaml rs f one e h =
      let (b, is_b, digest) = file_state-some f yaml e (ground arith) in
      rw is_b (Synced-some rs r b (one_active-some rs r one) (ground arith))

  check : (P : Pred) (b : Bool) → Triple P (guard b integrity_violated) (λ _. P) (λ _. Anything)
  check P b = guards b integrity_violated (λ c e h. h) (λ c e h. tt)

  step :
      {A : Type 0} {m : M A} (F : Seen → Type 0) (I : Tables env.State → Type 0)
      → Keeps m
      → Triple (λ c. InTx F I c) m (λ _ c. InTx F I c) (λ _. Anything)
  step F I k = weaken (kept_in_tx F I k) (λ c h. h) (λ _ c h. h) (λ _ c h. tt)

  desired_state-Keeps : (at : ℕ) → Keeps (desired_state at)
  unfolding desired_state
  desired_state-Keeps at = in_tx-Keeps _

  read_snapshot-Keeps : (r : Revision) → Keeps (read_revision_state_snapshot r)
  unfolding read_revision_state_snapshot
  read_snapshot-Keeps r =
      bind-Keeps (read_managed_file-Keeps r.state_file_path)
        (λ content. lift-Keeps (decoded content))

  look :
      (r : Revision) (rs : List Revision) (I : Tables env.State → Type 0)
      → one_active rs ≡ ok (some r)
      → (snapshot : env.State)
      → Triple {A = VerifiedActive}
          (λ c. InTx (Before rs) I c)
          (do
            active_yaml ← read_active_yaml
            guard (active_yaml.exists && active_yaml.sha256 == r.sha256) integrity_violated
            pure (record { snapshot = snapshot; active_yaml = active_yaml }))
          (λ v c. IsBaseline (some r) v.active_yaml × InTx (Before rs) I c)
          (λ _. Anything)
  look r rs I one snapshot =
      bind
        (weaken
          (read_active_yaml-finds (λ c. InTx (λ s. s.actives ≡ rs) I c)
            (λ f d h. unfold set_file in unfold path_eq in h))
          (λ c (t, is_t, s, i). (t, is_t, s.0, i)) (λ _ c h. h) (λ _ c h. tt))
        (λ yaml.
          bind {Q = λ _ c. IsBaseline (some r) yaml × InTx (Before rs) I c}
            (guards (yaml.exists && yaml.sha256 == r.sha256) integrity_violated
              (λ c e (h, same).
                let (t, is_t, s, i) = h in
                (
                  checked-IsBaseline r yaml (c.files config) same e,
                  (t, is_t, (s, checked-Synced r yaml rs (c.files config) one same e), i),
                ))
              (λ c e h. tt))
            (λ _. return (record { snapshot = snapshot; active_yaml = yaml }) (λ c h. h)))

  verify_active-IsBaseline :
      (r : Revision) (rs : List Revision) (I : Tables env.State → Type 0)
      → one_active rs ≡ ok (some r)
      → Triple
          (λ c. InTx (Before rs) I c)
          (verify_active_publication r)
          (λ v c. IsBaseline (some r) v.active_yaml × InTx (Before rs) I c)
          (λ _. Anything)
  unfolding verify_active_publication
  verify_active-IsBaseline r rs I one =
      let F = Before rs in
      let K : Pred = λ c. InTx F I c in
      bind (check K (is_active r.status)) (λ _.
        bind (check K (path_within r.file_path && path_within r.state_file_path)) (λ _.
          bind (step F I (read_snapshot-Keeps r)) (λ snapshot.
            bind (anyway (compile-kept K snapshot)) (λ yaml.
              bind (check K (env.sha256 yaml == r.sha256)) (λ _.
                bind (step F I (desired_state-Keeps (env.as_of snapshot))) (λ durable.
                  bind (anyway (compile-kept K durable)) (λ durable_yaml.
                    bind (check K (env.sha256 durable_yaml == r.sha256)) (λ _.
                      bind (step F I (read_managed_file-Keeps r.file_path)) (λ content.
                        bind (check K (matches_digest content r.sha256))
                          (λ _. look r rs I one snapshot))))))))))
    where
      anyway :
          {A : Type 0} {m : M A} {P : Pred}
          → Triple P m (λ _. P) (λ _. P)
          → Triple P m (λ _. P) (λ _. Anything)
      anyway t = weaken t (λ c h. h) (λ _ c h. h) (λ _ c h. tt)

  reject_active-Failed :
      {Q : Option VerifiedActive → Pred} (r : Revision) (es : List Fault)
      → Triple Anything (reject_active r es) Q (λ es c. Failed es (seen c))
  unfolding reject_active
  reject_active-Failed r es =
      bind {Q = λ _. Anything} (drop (record { holds = λ w h. Post-both Anything (rollback w) tt }))
        (λ _.
          bind
            (weaken (catch (degrade-IsDegraded DegradedReason.integrity_check_failed r.id))
              (λ c h. h) (λ q c h. h) (λ _ c h. h))
            (λ marking.
              fail (integrity_violated ∷ faults marking)
                (λ c h. marked_last-Failed marking (integrity_violated ∷ []) c h)))

  pub verify_previous-IsVerified :
      (old : Option Revision) (rs : List Revision) (I : Tables env.State → Type 0)
      → one_active rs ≡ ok old
      → Triple
          (λ c. InTx (Before rs) I c)
          (verify_previous old)
          (λ v c. IsVerified old v × InTx (Before rs) I c)
          (λ es c. Failed es (seen c))
  unfolding verify_previous verify_some
  verify_previous-IsVerified none rs I one = return none (λ c h. (tt, h))
  verify_previous-IsVerified (some r) rs I one =
      handle
        (bind (verify_active-IsBaseline r rs I one) (λ verified. return (some verified) (λ c h. h)))
        (λ es. reject_active-Failed r es)
