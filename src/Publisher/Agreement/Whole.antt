-- ===== src/Publisher/Agreement/Whole.antt =====
-- A whole publication (`publishLocked` of internal/publisher/publisher.go).
use m_ui.Prelude.{ℕ, true, ◌≡◌, refl, sym, subst, inl, Option, none, some, List, arith}
use m_ui.Publisher.World.{
  Env, Options, Tables, Bytes, config, candidate, rollback_backup, path_eq, Revision, pending,
}
use m_ui.Publisher.Monad.{ok, M, defer}
use m_ui.Publisher.Files.{file_state, remove_file_at, write_synced}
use m_ui.Publisher.Rows.{one_active}
use m_ui.Publisher.Verify.{VerifiedActive, compile}
use m_ui.Publisher.Request.{Request}
use m_ui.Publisher.Commit.{revision_matches}
use m_ui.Publisher.Publish.{previous_config, prepare_publication}
use m_ui.Publisher.View.{Keeps}
use m_ui.Publisher.Keeps.{IsArchived, remove_file_at-Keeps, read_managed_file-Keeps, validate-Keeps}
use m_ui.Publisher.Triple.{Triple, bind, weaken, return, handle, deferred, Pred}
use m_ui.Publisher.Agreement.{seen, Synced, Failed, Calm, Keeps-Calm}
use m_ui.Publisher.Agreement.Restore.{write_synced-Holds}
use m_ui.Publisher.Agreement.Baseline.{IsBaseline, prior-Synced}
use m_ui.Publisher.Agreement.Reconcile.{IsPublished, Returns, under, compile-kept}
use m_ui.Publisher.Agreement.Activate.{InTx}
use m_ui.Publisher.Agreement.Drift.{Before, Before-InSync}
use m_ui.Publisher.Agreement.Landing.{kept_in_tx}
use m_ui.Publisher.Agreement.Archive.{
  Written, Opened, still_written, validation_refused-Failed, archive_publication-Returns,
}
use m_ui.Publisher.Agreement.Verified.{IsVerified}

module _ ⦃env : Env⦄ where
  -- A clean-up that nothing sees.
  pub cleaned :
      {m : M Revision} {P : Pred} (cleanup : M (Unit {0})) (r : Revision)
      → Calm cleanup
      → Triple P m (λ q c. Returns r q c) (λ es c. Failed es (seen c))
      → Triple P (defer cleanup m) (λ q c. Returns r q c) (λ es c. Failed es (seen c))
  cleaned cleanup r k t =
      deferred cleanup t (λ q w h. (h.0, subst (IsPublished q) (sym (k.calm w)) h.1))
        (λ es w h. subst (Failed es) (sym (k.calm w)) h)

  revision_matches_refl : (r : Option Revision) → revision_matches r r ≡ true
  unfolding revision_matches
  revision_matches_refl none = refl
  revision_matches_refl (some r) = ground arith

  pub still :
      {A : Type 0} {m : M A} (rs : List Revision) (I : Tables env.State → Type 0)
      → Keeps m
      → Triple
          (λ c. InTx (Before rs) I c)
          m
          (λ _ c. InTx (Before rs) I c)
          (λ es c. Failed es (seen c))
  still rs I k =
      weaken (kept_in_tx (Before rs) I k) (λ c h. h) (λ _ c h. h)
        (λ _ c h. inl (Before-InSync rs (seen c) h))

  pub compiles :
      (rs : List Revision) (I : Tables env.State → Type 0) (s : env.State)
      → Triple
          (λ c. InTx (Before rs) I c)
          (compile s)
          (λ _ c. InTx (Before rs) I c)
          (λ es c. Failed es (seen c))
  compiles rs I s =
      weaken (compile-kept (λ c. InTx (Before rs) I c) s) (λ c h. h) (λ _ c h. h)
        (λ _ c (t, is_t, s, i). inl (Before-InSync rs (seen c) s))

  candidate-Written :
      (n : ℕ) (b : Bytes) (rs : List Revision)
      → Triple
          (λ c. InTx (Before rs) Opened c)
          (write_synced (candidate n) b)
          (λ _ c. Written n b rs Opened c)
          (λ es c. Failed es (seen c))
  candidate-Written n b rs = record {
    holds = λ w (t, is_t, s, i).
        (weaken
            (write_synced-Holds (candidate n) b rs (w.core.files config) (some t)
              (unfold path_eq in refl))
            (λ c h. h)
            (λ _ c (staged, (a, f, x)). (staged, (t, x, (a, subst (Synced rs) (sym f) s.1), tt)))
            (λ _ c (a, f, x).
              inl (Before-InSync rs (seen c) (a, subst (Synced rs) (sym f) s.1)))).holds
          w (s.0, refl, is_t);
  }

  previous_config-IsBaseline :
      (options : Options) (request : Request) (old : Option Revision)
      (verified : Option VerifiedActive) (n : ℕ) (b : Bytes) (rs : List Revision)
      → IsVerified old verified
      → Triple
          (Written n b rs Opened)
          (previous_config options request verified)
          (λ previous c. IsBaseline old previous × Written n b rs Opened c)
          (λ es c. Failed es (seen c))
  unfolding previous_config
  previous_config-IsBaseline options request none (some v) n b rs k =
      return v.active_yaml (λ c h. (tt, h))
  previous_config-IsBaseline options request (some r) (some v) n b rs k =
      return v.active_yaml (λ c h. (k, h))
  previous_config-IsBaseline options request (some r) none n b rs k = absurd k
  previous_config-IsBaseline options request none none n b rs k =
      bind
        (weaken (still_written n b rs Opened (read_managed_file-Keeps config)) (λ c h. h)
          (λ _ c h. h) (λ _ c h. inl (Before-InSync rs (seen c) h)))
        (λ content. return (file_state content) (λ c h. (tt, h)))

  pub prepare_publication-Returns :
      (options : Options) (request : Request) (old : Option Revision)
      (verified : Option VerifiedActive) (old_sha256 old_as_of effective_at : ℕ) (r : Revision)
      (s : env.State) (b : Bytes) (rs : List Revision)
      → one_active rs ≡ ok old
      → IsVerified old verified
      → IsArchived r
      → r.status ≡ pending
      → env.sha256 b ≡ r.sha256
      → Triple
          (λ c. InTx (Before rs) Opened c)
          (prepare_publication options request old verified old_sha256 old_as_of effective_at r s b)
          (λ q c. Returns r q c)
          (λ es c. Failed es (seen c))
  unfolding prepare_publication
  prepare_publication-Returns options request old verified old_sha256 old_as_of effective_at r s b
        rs one known archived waits digest =
      bind (candidate-Written r.id b rs) (λ _.
        bind
          (handle (still_written r.id b rs Opened (validate-Keeps (candidate r.id)))
            (λ es. validation_refused-Failed options request r s b es rs archived))
          (λ _.
            bind (previous_config-IsBaseline options request old verified r.id b rs known)
              (λ previous. under (λ base.
                cleaned (remove_file_at (rollback_backup r.id)) r
                  (Keeps-Calm (remove_file_at-Keeps (rollback_backup r.id) refl))
                  (archive_publication-Returns options request
                    (record {
                      revision = r;
                      compiled = b;
                      effective_at = effective_at;
                      baseline = record {
                        database_sha256 = old_sha256;
                        database_as_of = old_as_of;
                        active_revision = old;
                        active_yaml = previous;
                      };
                    })
                    s rs
                    (record {
                      archived = archived;
                      waits = waits;
                      digest = digest;
                      one = one;
                      verified = base;
                      restorable =
                          prior-Synced rs old old previous one (revision_matches_refl old) base;
                    }))))))
