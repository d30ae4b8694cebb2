-- ===== src/Publisher/Agreement/Reconcile.antt =====
-- After a commit that returned an error (`reconcileCommit` of internal/publisher/publisher.go).
use m_ui.Prelude.{
  ℕ, Bool, true, false, ◌≡◌, refl, ap, subst, Option, none, some, List, [], ◌∷◌, ◌++◌, arith, ◌==◌,
  if◌then◌else◌,
}
use m_ui.Publisher.World.{Env, Options, Core, Bytes, config, Revision, DegradedReason}
use m_ui.Publisher.Monad.{ok, Fault, faults, M, call_failed, read_tables, read_file, compile_failed}
use m_ui.Publisher.Files.{
  FileState, file_state, tamper, read_managed_file, read_active_yaml, within_limit, tampered_core,
  set_file,
}
use m_ui.Publisher.Rows.{actives, one_active}
use m_ui.Publisher.Store.{read_db, read_publication_snapshot}
use m_ui.Publisher.Verify.{compile, required}
use m_ui.Publisher.Commit.{
  activated, revision_matches, Baseline, finish_successful_publication, mark_commit_degraded,
  Durable, is_new, is_old, is_other, classify_new, classify_old, classify_reread, reread,
  classify_again, classify_durable,
}
use m_ui.Publisher.View.{View, view}
use m_ui.Publisher.Keeps.{prune-Keeps, read_db-Keeps}
use m_ui.Publisher.Triple.{
  Triple, bind, weaken, return, fail, catch, drop, branch, observes, lifts, kept, Pred,
}
use m_ui.Publisher.Agreement.{Seen, seen, Failed, Keeps-Calm, calmed}
use m_ui.Publisher.Agreement.Restore.{Anything, degrade-IsDegraded}
use m_ui.Publisher.Agreement.Failure.{Never, marked_last-Failed}
use m_ui.Publisher.Agreement.Baseline.{one_active-some}

module _ ⦃env : Env⦄ where
  -- The revision is the one active one, and the running file has its digest.
  abbrev pub IsPublished : Revision → Seen → Type 0
  IsPublished r s =
      (a : Revision) × (b : Bytes) × (s.actives ≡ a ∷ [])
      × (s.config ≡ some b)
      × (a.id ≡ r.id)
      × (a.sha256 ≡ r.sha256)
      × (env.sha256 b ≡ r.sha256)

  -- What a publication returns: the revision of this id, active, in the running file.
  abbrev pub Returns : Revision → Revision → Pred
  Returns r q c = (q.id ≡ r.id) × IsPublished q (seen c)

  pub finish-Returns :
      (options : Options) (r found : Revision) (at : ℕ)
      → found.id ≡ r.id
      → Triple
          (λ c. IsPublished found (seen c))
          (finish_successful_publication options found at)
          (λ q c. Returns r q c)
          (λ es c. Failed es (seen c))
  unfolding finish_successful_publication
  finish-Returns options r found at same =
      bind (drop (calmed (IsPublished found) (Keeps-Calm (prune-Keeps options))))
        (λ _. return (activated found at) (λ c h. (same, h)))

  pub mark_commit-Failed :
      {A : Type 0} (reason : DegradedReason) (id : ℕ) (cause : List Fault)
      → Triple Anything
          (mark_commit_degraded {A = A} reason id cause)
          Never
          (λ es c. Failed es (seen c))
  unfolding mark_commit_degraded
  mark_commit-Failed reason id cause =
      bind (weaken (catch (degrade-IsDegraded reason id)) (λ c h. tt) (λ r c h. h) (λ _ c h. h))
        (λ marking. fail (cause ++ faults marking) (λ c h. marked_last-Failed marking cause c h))

  pub read_publication_snapshot-finds :
      (at : ℕ) (rs : List Revision) (P : View env.State → Type 0)
      → ((v : View env.State) → P v → v.actives ≡ rs)
      → Triple
          (λ c. P (view 0 c))
          (read_publication_snapshot at)
          (λ d c. (one_active rs ≡ ok d.1) × P (view 0 c))
          (λ _ c. P (view 0 c))
  unfolding read_publication_snapshot
  read_publication_snapshot-finds at rs P k = bind (kept 0 P (read_db-Keeps _)) (λ s.
      bind {Q = λ r c. (one_active rs ≡ ok r) × P (view 0 c)}
        (unfold read_db in
          observes _ (call_failed read_tables)
            (λ r c e h. (subst (λ l. one_active l ≡ ok r) (k (view 0 c) h) e, h)) (λ es c h. h))
        (λ r. return (s, r) (λ c h. h)))

  abbrev pub At : List Revision → FileState → Pred
  At rs yaml c = (actives c.db.revisions ≡ rs) × (file_state (c.files config) ≡ yaml)

  tampered :
      (P : Pred) (t : Option (Option Bytes)) (c : Core env.State)
      → ((f : Option Bytes) (d : Core env.State) → P d → P (set_file config f d))
      → P c
      → P (tampered_core t c)
  tampered P none c k h = h
  tampered P (some f) c k h = k f c h

  within : (f g : Option Bytes) → within_limit f ≡ ok g → f ≡ g
  within none g h = ground arith
  within (some b) g h = ground arith

  -- The look at the running file reports it as it is, whoever wrote it, and touches nothing else.
  pub read_active_yaml-finds :
      (P : Pred)
      → ((f : Option Bytes) (d : Core env.State) → P d → P (set_file config f d))
      → Triple P read_active_yaml
          (λ yaml c. P c × (file_state (c.files config) ≡ yaml))
          (λ _ c. P c)
  unfolding read_active_yaml
  read_active_yaml-finds P k =
      bind {m = tamper} {Q = λ _. P}
        (record { holds = λ w h. unfold tamper in tampered P (env.tampered w.tick) w.core k h })
        (λ _.
          bind {Q = λ content c. P c × (c.files config ≡ content)}
            (unfold read_managed_file in
              observes _ (call_failed read_file) (λ f c e h. (h, within _ f e)) (λ es c h. h))
            (λ content. return (file_state content) (λ c h. (h.0, ap file_state h.1))))

  pub read_active_yaml-At :
      (rs : List Revision)
      → Triple
          (λ c. actives c.db.revisions ≡ rs)
          read_active_yaml
          (λ yaml c. At rs yaml c)
          (λ _ c. actives c.db.revisions ≡ rs)
  read_active_yaml-At rs =
      read_active_yaml-finds (λ c. actives c.db.revisions ≡ rs) (λ f d h. unfold set_file in h)

  -- What each classification says of the active revisions.
  abbrev pub IsKind : List Revision → Revision → Baseline → Durable → Type 0
  IsKind rs r base (is_new found compiled) =
      (rs ≡ found ∷ [])
      × (found.id ≡ r.id)
      × (found.sha256 ≡ r.sha256)
      × (env.sha256 compiled ≡ r.sha256)
  IsKind rs r base is_old =
      (found : Option Revision) × (one_active rs ≡ ok found)
      × (revision_matches found base.active_revision ≡ true)
  IsKind rs r base is_other = Unit

  pub compile-kept : (P : Pred) (s : env.State) → Triple P (compile s) (λ _. P) (λ _. P)
  unfolding compile
  compile-kept P s = lifts (required (env.compile s) compile_failed) (λ b c e h. h) (λ es c e h. h)

  new-IsKind :
      (rs : List Revision) (r a : Revision) (base : Baseline) (b : Bytes) (eq : Bool)
      → (eq ≡ true → env.sha256 b ≡ r.sha256)
      → rs ≡ a ∷ []
      → a.id ≡ r.id
      → a.sha256 ≡ r.sha256
      → IsKind rs r base (if eq then is_new a b else is_other)
  new-IsKind rs r a base b true e x y z = (x, y, z, e refl)
  new-IsKind rs r a base b false e x y z = tt

  classify_new-IsKind :
      (r : Revision) (base : Baseline) (rs : List Revision) (yaml : FileState)
      (found : env.State × Option Revision)
      → one_active rs ≡ ok found.1
      → revision_matches found.1 (some r) ≡ true
      → Triple
          (At rs yaml)
          (classify_new r found)
          (λ kind c. IsKind rs r base kind × At rs yaml c)
          (λ _ c. At rs yaml c)
  unfolding classify_new revision_matches
  classify_new-IsKind r base rs yaml (state, none) one m = cc
  classify_new-IsKind r base rs yaml (state, some a) one m =
      bind (compile-kept (At rs yaml) state) (λ compiled.
        return (if env.sha256 compiled == r.sha256 then is_new a compiled else is_other) (λ c h. (
          new-IsKind rs r a base compiled (env.sha256 compiled == r.sha256) (λ e. ground arith)
              (one_active-some rs a one) (ground arith) (ground arith),
          h,
        )))

  old-IsKind :
      (rs : List Revision) (r : Revision) (base : Baseline) (eq : Bool) (found : Option Revision)
      → one_active rs ≡ ok found
      → revision_matches found base.active_revision ≡ true
      → IsKind rs r base (if eq then is_old else is_other)
  old-IsKind rs r base true found one m = (found, one, m)
  old-IsKind rs r base false found one m = tt

  classify_reread-IsKind :
      (r : Revision) (base : Baseline) (rs : List Revision) (yaml : FileState)
      (found : env.State × Option Revision)
      → one_active rs ≡ ok found.1
      → Triple
          (At rs yaml)
          (classify_reread base found)
          (λ kind c. IsKind rs r base kind × At rs yaml c)
          (λ _ c. At rs yaml c)
  unfolding classify_reread classify_old
  classify_reread-IsKind r base rs yaml (state, found) one =
      branch (revision_matches found base.active_revision)
        (λ m. bind (compile-kept (At rs yaml) state) (λ compiled.
          return (if env.sha256 compiled == base.database_sha256 then is_old else is_other) (λ c h.
            (old-IsKind rs r base (env.sha256 compiled == base.database_sha256) found one m, h))))
        (λ m. return is_other (λ c h. (tt, h)))

  reread-one :
      (at : ℕ) (base : Baseline) (rs : List Revision) (yaml : FileState)
      (found : env.State × Option Revision)
      → one_active rs ≡ ok found.1
      → Triple
          (At rs yaml)
          (reread at base found)
          (λ again c. (one_active rs ≡ ok again.1) × At rs yaml c)
          (λ _ c. At rs yaml c)
  unfolding reread
  reread-one at base rs yaml found one =
      branch (base.database_as_of == at) (λ _. return found (λ c h. (one, h)))
        (λ _.
          read_publication_snapshot-finds base.database_as_of rs
            (λ v. (v.actives ≡ rs) × (file_state v.config ≡ yaml)) (λ v h. h.0))

  pub under :
      {A : Type 0} {P : Type 0} {R : Pred} {m : M A} {Q : A → Pred} {E : List Fault → Pred}
      → (P → Triple R m Q E)
      → Triple (λ c. P × R c) m Q E
  under f = record { holds = λ w h. (f h.0).holds w h.1 }

  pub classify_durable-IsKind :
      (r : Revision) (at : ℕ) (base : Baseline) (rs : List Revision) (yaml : FileState)
      (found : env.State × Option Revision)
      → one_active rs ≡ ok found.1
      → Triple
          (At rs yaml)
          (classify_durable r at base found)
          (λ kind c. IsKind rs r base kind × At rs yaml c)
          (λ _ c. At rs yaml c)
  unfolding classify_durable classify_again
  classify_durable-IsKind r at base rs yaml found one =
      branch (revision_matches found.1 (some r))
        (λ m. classify_new-IsKind r base rs yaml found one m)
        (λ _.
          branch (revision_matches found.1 base.active_revision)
            (λ m.
              bind (reread-one at base rs yaml found one)
                (λ again. under (classify_reread-IsKind r base rs yaml again)))
            (λ _. return is_other (λ c h. (tt, h))))
