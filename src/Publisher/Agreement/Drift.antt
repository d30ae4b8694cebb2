-- ===== src/Publisher/Agreement/Drift.antt =====
-- The last look at the running file and its replacement (`publishLocked` of
-- internal/publisher/publisher.go).
use m_ui.Prelude.{ℕ, true, ◌≡◌, refl, Option, none, some, List, ◌∷◌, ◌++◌, arith}
use m_ui.Publisher.World.{Env, Bytes, config, candidate, path_eq, Revision, DegradedReason}
use m_ui.Publisher.Monad.{ok, Fault, M, attempt, faults, integrity_violated}
use m_ui.Publisher.Files.{FileState, file_state, set_file, remove_and_sync, replace_and_sync}
use m_ui.Publisher.Rows.{actives, one_active}
use m_ui.Publisher.Store.{rollback}
use m_ui.Publisher.Publish.{
  drift_free, abort_changed_active_publication, read_unchanged, check_drift,
}
use m_ui.Publisher.Triple.{
  Triple, bind, weaken, return, fail, catch, handle, guards, Pred, Post-both,
}
use m_ui.Publisher.Agreement.{Seen, seen, Synced, InSync, Failed}
use m_ui.Publisher.Agreement.Restore.{Anything, degrade-IsDegraded, replace_and_sync-Holds}
use m_ui.Publisher.Agreement.Failure.{marked_last-Failed}
use m_ui.Publisher.Agreement.Baseline.{file_state-some, one_active-some, Synced-some}
use m_ui.Publisher.Agreement.Reconcile.{read_active_yaml-finds}
use m_ui.Publisher.Agreement.Activate.{InTx, Pending}

module _ ⦃env : Env⦄ where
  anything : {A : Type 0} (m : M A) → Triple Anything m (λ _. Anything) (λ _. Anything)
  anything m = record { holds = λ w h. Post-both Anything (m w) tt }

  always :
      {A : Type 0} {F : List Fault → Pred} (m : M A) → Triple Anything (attempt m) (λ _. Anything) F
  always m = weaken (catch (anything m)) (λ c h. h) (λ _ c h. tt) (λ _ c h. h)

  -- The aborted publication leaves the mark, or says that it could not be stored.
  abort-Failed :
      {A : Type 0} {Q : A → Pred} (previous r : Revision)
      → Triple Anything
          (abort_changed_active_publication {A = A} previous r)
          Q
          (λ es c. Failed es (seen c))
  unfolding abort_changed_active_publication
  abort-Failed previous r = bind {Q = λ _. Anything} (always rollback) (λ closing.
      bind {Q = λ _. Anything} (always (remove_and_sync r.file_path)) (λ yaml.
        bind {Q = λ _. Anything} (always (remove_and_sync r.state_file_path)) (λ snapshot.
          bind
            (weaken
              (catch (degrade-IsDegraded DegradedReason.changed_during_publication previous.id))
              (λ c h. h) (λ q c h. h) (λ _ c h. h))
            (λ marking.
              fail
                (integrity_violated ∷ faults closing
                  ++ faults yaml
                  ++ faults snapshot
                  ++ faults marking)
                (λ c h.
                  marked_last-Failed marking
                    (integrity_violated ∷ faults closing ++ faults yaml ++ faults snapshot) c h)))))

  drift_free-Synced :
      (previous : Revision) (yaml : FileState) (rs : List Revision) (f : Option Bytes)
      → one_active rs ≡ ok (some previous)
      → file_state f ≡ yaml
      → drift_free (some previous) yaml ≡ true
      → Synced rs f
  unfolding drift_free
  drift_free-Synced previous yaml rs f one e h =
      let (b, is_b, digest) = file_state-some f yaml e (ground arith) in
      rw is_b (Synced-some rs previous b (one_active-some rs previous one) (ground arith))

  -- Before the replacement: the revisions of before, and a file that agrees with them.
  abbrev pub Before : List Revision → Seen → Type 0
  Before rs s = (s.actives ≡ rs) × Synced rs s.config

  pub Before-InSync : (rs : List Revision) (s : Seen) → Before rs s → InSync s
  Before-InSync rs s h = rw h.0 h.1

  read_unchanged-Before :
      (n : ℕ) (b : Bytes) (rs : List Revision) (previous r : Revision)
      → one_active rs ≡ ok (some previous)
      → Triple
          (λ c. (c.files (candidate n) ≡ some b) × InTx (λ s. s.actives ≡ rs) (Pending r) c)
          (read_unchanged previous)
          (λ _ c. (c.files (candidate n) ≡ some b) × InTx (Before rs) (Pending r) c)
          (λ _ c. Anything c)
  unfolding read_unchanged
  read_unchanged-Before n b rs previous r one =
      bind
        (weaken
          (read_active_yaml-finds
            (λ c. (c.files (candidate n) ≡ some b) × InTx (λ s. s.actives ≡ rs) (Pending r) c)
            (λ f d h. unfold set_file in unfold path_eq in h))
          (λ c h. h) (λ _ c h. h) (λ _ c h. tt))
        (λ yaml.
          guards (drift_free (some previous) yaml) integrity_violated
            (λ c e (h, same).
              let (staged, (t, is_t, s, i)) = h in
              (
                staged,
                (t, is_t, (s, drift_free-Synced previous yaml rs (c.files config) one same e), i),
              ))
            (λ c e h. tt))

  -- The candidate is in place, and the new row in the transaction.
  abbrev pub Staged : ℕ → Bytes → List Revision → Revision → Pred
  Staged n b rs r c = (c.files (candidate n) ≡ some b) × InTx (Before rs) (Pending r) c

  pub check_drift-Staged :
      (n : ℕ) (b : Bytes) (rs : List Revision) (old : Option Revision) (r : Revision)
      → one_active rs ≡ ok old
      → Triple
          (Staged n b rs r)
          (check_drift old r)
          (λ _ c. Staged n b rs r c)
          (λ es c. Failed es (seen c))
  unfolding check_drift
  check_drift-Staged n b rs none r one = return tt (λ c h. h)
  check_drift-Staged n b rs (some previous) r one =
      handle
        (weaken (read_unchanged-Before n b rs previous r one)
          (λ c (staged, (t, is_t, s, i)). (staged, (t, is_t, s.0, i))) (λ _ c h. h) (λ _ c h. h))
        (λ es. abort-Failed previous r)

  abbrev pub After : List Revision → Bytes → Seen → Type 0
  After rs b s = (s.actives ≡ rs) × (s.config ≡ some b)

  pub replaced :
      (n : ℕ) (b : Bytes) (rs : List Revision) (r : Revision)
      → Triple
          (Staged n b rs r)
          (replace_and_sync (candidate n))
          (λ _ c. InTx (After rs b) (Pending r) c)
          (λ _ c. actives c.db.revisions ≡ rs)
  replaced n b rs r = record {
    holds = λ w (staged, (t, is_t, s, i)).
        (weaken (replace_and_sync-Holds (candidate n) b rs (some t) (unfold path_eq in refl))
            (λ c h. h) (λ _ c (a, f, x). (t, x, (a, f), i)) (λ _ c h. h)).holds
          w (staged, s.0, is_t);
  }
