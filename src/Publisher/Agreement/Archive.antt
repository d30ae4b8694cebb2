-- ===== src/Publisher/Agreement/Archive.antt =====
-- From the candidate to the new row (`publishLocked` of internal/publisher/publisher.go).
use m_ui.Prelude.{
  ℕ, Bool, true, false, ◌≡◌, refl, ◌∙◌, sym, ap, inl, Option, none, some, List, [], ◌∷◌,
  if◌then◌else◌, not, ◌||◌,
}
use m_ui.Publisher.World.{
  Env, Options, Core, Tables, Bytes, ManagedPath, candidate, rollback_backup, Revision, Stage,
  candidate_validation_failed, insertion_failed,
}
use m_ui.Publisher.Monad.{
  Result, ok, err, Fault, World, M, candidate_rejected, ignore, constraint_violated, call_failed,
  write_tables, ◌>>◌,
}
use m_ui.Publisher.Files.{FileState}
use m_ui.Publisher.Rows.{insert_row, clashes}
use m_ui.Publisher.Store.{rollback, insert_revision, with_revisions, update_tx, into_tx, read_tx}
use m_ui.Publisher.Recovery.{record_failure}
use m_ui.Publisher.Request.{Request}
use m_ui.Publisher.Publish.{
  Publication, discard_archive, insertion_refused, back_up, archive_publication, validation_refused,
}
use m_ui.Publisher.View.{Keeps, pure-Keeps, if-Keeps}
use m_ui.Publisher.Keeps.{
  IsArchived, archive_revision-Keeps, write_synced-Keeps, remove_file_at-Keeps,
}
use m_ui.Publisher.Triple.{Triple, Post, bind, weaken, fail, drop, handle, executes, kept, Pred}
use m_ui.Publisher.Agreement.{seen, of_view, Failed, Calm, Keeps-Calm, calmed, rollback-Calm}
use m_ui.Publisher.Agreement.Restore.{ok-injective}
use m_ui.Publisher.Agreement.Failure.{record_failure-raises}
use m_ui.Publisher.Agreement.Reconcile.{Returns}
use m_ui.Publisher.Agreement.Activate.{InTx, Pending, update_tx-finds}
use m_ui.Publisher.Agreement.Swap.{swap_publication-Returns}
use m_ui.Publisher.Agreement.Landing.{Sound}
use m_ui.Publisher.Agreement.Drift.{Before, Before-InSync, Staged}

module _ ⦃env : Env⦄ where
  -- A step that touches nothing that is seen, before the replacement.
  pub quiet :
      {A : Type 0} {m : M A} (rs : List Revision)
      → Calm m
      → Triple (λ c. Before rs (seen c)) m (λ _ c. Before rs (seen c)) (λ es c. Failed es (seen c))
  quiet rs k =
      weaken (calmed (Before rs) k) (λ c h. h) (λ _ c h. h)
        (λ _ c h. inl (Before-InSync rs (seen c) h))

  -- The candidate is written, before there is a row.
  abbrev pub Written : ℕ → Bytes → List Revision → (Tables env.State → Type 0) → Pred
  Written n b rs I c = (c.files (candidate n) ≡ some b) × InTx (Before rs) I c

  pub still_written :
      {A : Type 0} {m : M A} (n : ℕ) (b : Bytes) (rs : List Revision)
      (I : Tables env.State → Type 0)
      → Keeps m
      → Triple (Written n b rs I) m (λ _ c. Written n b rs I c) (λ _ c. Before rs (seen c))
  still_written n b rs I k =
      weaken
        (kept n
          (λ v.
            (v.watched ≡ some b)
            × ((t : Tables env.State) × (v.tx ≡ some t) × Before rs (of_view v) × I t))
          k)
        (λ c h. h) (λ _ c h. h) (λ _ c (f, (t, is_t, s, i)). s)

  abbrev pub Opened : Tables env.State → Type 0
  Opened t = Unit

  inserted :
      (is_known : Bool) (r : Revision) (t u : Tables env.State)
      → with_revisions t (insert_row is_known r t.revisions) ≡ ok u
      → Opened t
      → Pending r u
  unfolding insert_row
  inserted is_known r t u e o = by_clash (not is_known || clashes r t.revisions) e
    where
      by_clash :
          (b : Bool)
          → with_revisions t (if b then err (constraint_violated ∷ []) else ok (r ∷ t.revisions))
            ≡ ok u
          → Pending r u
      by_clash true h = cc
      by_clash false h =
          (t.revisions, sym (ap (λ (q : Tables env.State). q.revisions) (ok-injective _ _ h)))

  -- Two things that one step does.
  paired :
      {A : Type 0} {m : M A} {P R : Pred} {Q S : A → Pred} {E F : List Fault → Pred}
      → Triple P m Q E
      → Triple R m S F
      → Triple (λ c. P c × R c) m (λ a c. Q a c × S a c) E
  paired {A = A} {m = m} {Q = Q} {S = S} {E = E} {F = F} t u = record {
    holds = λ w (p, r). both (m w) (t.holds w p) (u.holds w r);
  }
    where
      both : (x : Result A × World) → Post Q E x → Post S F x → Post (λ a c. Q a c × S a c) E x
      both (ok a, w) p q = (p, q)
      both (err es, w) p q = p

  into_tx-files :
      (c d : Core env.State) (r : Result (Tables env.State)) (p : ManagedPath)
      → into_tx c r ≡ ok d
      → d.files p ≡ c.files p
  into_tx-files c d (ok t) p h = ap (λ (q : Core env.State). q.files p) (sym (ok-injective _ _ h))
  into_tx-files c d (err es) p h = cc

  update_tx-files :
      (f : Tables env.State → Result (Tables env.State)) (p : ManagedPath) (b : Bytes)
      → Triple (λ c. c.files p ≡ some b) (update_tx f) (λ _ c. c.files p ≡ some b) (λ _ c. Unit {0})
  unfolding update_tx
  update_tx-files f p b =
      executes (λ c. into_tx c (read_tx c.tx f)) (call_failed write_tables)
        (λ c d e h. into_tx-files c d (read_tx c.tx f) p e ∙ h) (λ c d e h. (tt, tt))
        (λ es c e h. tt)

  insert_revision-Staged :
      (n : ℕ) (b : Bytes) (rs : List Revision) (r : Revision)
      → Triple
          (Written n b rs Opened)
          (insert_revision r)
          (λ _ c. Staged n b rs r c)
          (λ _ c. Before rs (seen c))
  unfolding insert_revision
  insert_revision-Staged n b rs r =
      weaken
        (paired
          (update_tx-finds
            (λ t. with_revisions t (insert_row (env.is_known_actor r.actor_admin_id) r t.revisions))
            (Before rs) Opened (Pending r) (inserted (env.is_known_actor r.actor_admin_id) r))
          (update_tx-files
            (λ t. with_revisions t (insert_row (env.is_known_actor r.actor_admin_id) r t.revisions))
            (candidate n) b))
        (λ c h. (h.1, h.0)) (λ _ c h. (h.1, h.0)) (λ _ c h. h)

  discard_archive-Failed :
      {Q : Unit {0} → Pred} (options : Options) (request : Request) (r : Revision) (es : List Fault)
      (rs : List Revision)
      → IsArchived r
      → Triple
          (λ c. Before rs (seen c))
          (discard_archive options request r es)
          Q
          (λ es c. Failed es (seen c))
  unfolding discard_archive
  discard_archive-Failed options request r es rs a =
      bind (drop (calmed (Before rs) (Keeps-Calm (remove_file_at-Keeps r.file_path a.yaml)))) (λ _.
        bind
          (drop
            (calmed (Before rs) (Keeps-Calm (remove_file_at-Keeps r.state_file_path a.snapshot))))
          (λ _. fail es (λ c h. inl (Before-InSync rs (seen c) h))))

  -- The transaction is rolled back, and the failure recorded.
  recorded-Failed :
      {Q : Unit {0} → Pred} (options : Options) (r : Revision)
      (archived : Option (env.State × Bytes)) (stage : Stage) (cause : List Fault)
      (rs : List Revision)
      → IsArchived r
      → Triple
          (λ c. Before rs (seen c))
          (ignore rollback >> record_failure options r archived stage cause)
          Q
          (λ es c. Failed es (seen c))
  recorded-Failed options r archived stage cause rs a =
      bind (drop (calmed (Before rs) rollback-Calm)) (λ _.
        weaken
          (record_failure-raises options r archived stage cause 0 (λ v. Before rs (of_view v)) a)
          (λ c h. h) (λ _ c h. absurd h) (λ _ c h. inl (Before-InSync rs (seen c) h)))

  insertion_refused-Failed :
      {Q : Unit {0} → Pred} (options : Options) (request : Request) (r : Revision) (es : List Fault)
      (rs : List Revision)
      → IsArchived r
      → Triple
          (λ c. Before rs (seen c))
          (insertion_refused options request r es)
          Q
          (λ es c. Failed es (seen c))
  unfolding insertion_refused
  insertion_refused-Failed options request r es rs a =
      recorded-Failed options r none insertion_failed es rs a

  pub validation_refused-Failed :
      {Q : Unit {0} → Pred} (options : Options) (request : Request) (r : Revision) (s : env.State)
      (b : Bytes) (es : List Fault) (rs : List Revision)
      → IsArchived r
      → Triple
          (λ c. Before rs (seen c))
          (validation_refused options request r s b es)
          Q
          (λ es c. Failed es (seen c))
  unfolding validation_refused
  validation_refused-Failed options request r s b es rs a =
      recorded-Failed options r (some (s, b)) candidate_validation_failed (candidate_rejected ∷ es)
        rs a

  back_up-Keeps :
      (options : Options) (request : Request) (n : ℕ) (previous : FileState)
      → Keeps (back_up options request n previous)
  unfolding back_up
  back_up-Keeps options request n previous =
      if-Keeps previous.exists (write_synced-Keeps (rollback_backup n) previous.content refl)
        (pure-Keeps tt)

  pub archive_publication-Returns :
      (options : Options) (request : Request) (p : Publication) (s : env.State) (rs : List Revision)
      → Sound rs p
      → Triple
          (Written p.revision.id p.compiled rs Opened)
          (archive_publication options request p s)
          (λ q c. Returns p.revision q c)
          (λ es c. Failed es (seen c))
  unfolding archive_publication
  archive_publication-Returns options request p s rs ok_p =
      let n = p.revision.id in
      let b = p.compiled in
      bind
        (weaken
          (still_written n b rs Opened (back_up-Keeps options request n p.baseline.active_yaml))
          (λ c h. h) (λ _ c h. h) (λ _ c h. inl (Before-InSync rs (seen c) h)))
        (λ _.
          bind
            (handle
              (still_written n b rs Opened (archive_revision-Keeps p.revision s b ok_p.archived))
              (λ es. discard_archive-Failed options request p.revision es rs ok_p.archived))
            (λ _.
              bind
                (handle (insert_revision-Staged n b rs p.revision)
                  (λ es. insertion_refused-Failed options request p.revision es rs ok_p.archived))
                (λ _. swap_publication-Returns options request p rs ok_p)))
