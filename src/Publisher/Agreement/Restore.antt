-- ===== src/Publisher/Agreement/Restore.antt =====
-- Going back: the degraded mark, the restored file, and the end of a publication that failed after
-- the file was replaced (internal/publisher/publisher.go).
use m_ui.Prelude.{
  ℕ, Bool, true, false, ◌≡◌, refl, sym, ap, Option, none, some, List, arith, if◌then◌else◌,
}
use m_ui.Publisher.World.{
  Env, Core, Tables, Bytes, ManagedPath, config, path_eq, Revision, SystemState, DegradedReason,
}
use m_ui.Publisher.Monad.{Result, ok, err, Fault, degraded_not_recorded, now}
use m_ui.Publisher.Files.{set_file, write_synced, write_new, rename_to_config, replace_and_sync}
use m_ui.Publisher.Rows.{actives}
use m_ui.Publisher.Store.{update_db, when_unlocked, mark_degraded}
use m_ui.Publisher.Recovery.{degrade}
use m_ui.Publisher.Keeps.{sync-Keeps}
use m_ui.Publisher.Triple.{Triple, bind, weaken, executes, kept, Pred}
use m_ui.Publisher.Agreement.{seen, unrecorded, IsDegraded}

pub ok-injective : {A : Type 0} (a b : A) → ok a ≡ ok b → a ≡ b
ok-injective a b h = cc

err-injective : {A : Type 0} (a b : List Fault) → ◌≡◌ {A = Result A} (err a) (err b) → a ≡ b
err-injective a b h = cc

if_ok :
    {A : Type 0} (b : Bool) (es : List Fault) (r : Result A) (a : A)
    → (if b then err es else r) ≡ ok a
    → r ≡ ok a
if_ok true es r a h = cc
if_ok false es r a h = h

path_eq_refl : (p : ManagedPath) → path_eq p p ≡ true
unfolding path_eq
path_eq_refl config = refl
path_eq_refl p = ground arith

module _ {S : Type 0} where
  -- The active revisions, the running file and the open transaction.
  abbrev pub Holds : List Revision → Option Bytes → Option (Tables S) → Core S → Type 0
  Holds rs f x c = (actives c.db.revisions ≡ rs) × (c.files config ≡ f) × (c.tx ≡ x)

  written :
      (p : ManagedPath) (b : Bytes) (found : Option Bytes) (c d : Core S) (rs : List Revision)
      (f : Option Bytes) (x : Option (Tables S))
      → write_new p b found c ≡ ok d
      → path_eq p config ≡ false
      → Holds rs f x c
      → (d.files p ≡ some b) × Holds rs f x d
  unfolding set_file
  written p b none c d rs f x h ne v =
      rw (sym (ok-injective _ _ h)) (rw (path_eq_refl p) refl, (v.0, rw ne v.1, v.2))
  written p b (some old) c d rs f x h ne v = cc

  renamed :
      (p : ManagedPath) (b : Bytes) (found : Option Bytes) (c d : Core S) (rs : List Revision)
      (x : Option (Tables S))
      → rename_to_config p found c ≡ ok d
      → path_eq p config ≡ false
      → found ≡ some b
      → actives c.db.revisions ≡ rs
      → c.tx ≡ x
      → Holds rs (some b) x d
  unfolding set_file path_eq
  renamed p b none c d rs x h ne e v u = cc
  renamed p b (some old) c d rs x h ne e v u = rw (sym (ok-injective _ _ h)) (v, rw ne e, u)

module _ ⦃env : Env⦄ where
  abbrev pub Anything : Pred
  Anything c = Unit {0}

  system_written :
      (t : Option (Tables env.State)) (e : Fault) (c d : Core env.State) (s : SystemState)
      → when_unlocked t e (ok (record c { db = record (c.db) { system = s } })) ≡ ok d
      → d.db.system ≡ s
  system_written none e c d s h =
      ap (λ (r : Core env.State). r.db.system) (ok-injective _ _ (sym h))
  system_written (some t) e c d s h = cc

  system_locked :
      (t : Option (Tables env.State)) (c d : Core env.State) (es : List Fault)
      → when_unlocked t degraded_not_recorded (ok d) ≡ err es
      → unrecorded es ≡ true
  system_locked none c d es h = cc
  system_locked (some t) c d es h = ap unrecorded (err-injective _ _ (sym h))

  mark_degraded-IsDegraded :
      (reason : DegradedReason) (id at : ℕ)
      → Triple Anything
          (mark_degraded reason id at)
          (λ _ c. IsDegraded (seen c))
          (λ es c. unrecorded es ≡ true)
  unfolding mark_degraded update_db
  mark_degraded-IsDegraded reason id at =
      let marked : SystemState = record {
        degraded = true;
        degraded_reason = some reason;
        degraded_revision_id = some id;
        updated_at = at;
      } in
      executes
        (λ c.
          when_unlocked c.tx degraded_not_recorded
            (ok (record c { db = record (c.db) { system = marked } })))
        degraded_not_recorded
        (λ c d e p.
          ap (λ (s : SystemState). s.degraded)
            (system_written c.tx degraded_not_recorded c d marked e))
        (λ c d e p. (refl, refl))
        (λ es c e p.
          system_locked c.tx c (record c { db = record (c.db) { system = marked } }) es e)

  -- The mark is stored, or the error says that it is not.
  pub degrade-IsDegraded :
      (reason : DegradedReason) (id : ℕ)
      → Triple Anything
          (degrade reason id)
          (λ _ c. IsDegraded (seen c))
          (λ es c. unrecorded es ≡ true)
  unfolding degrade
  degrade-IsDegraded reason id =
      bind {m = now} {Q = λ _. Anything} (record { holds = λ w p. unfold now in tt })
        (mark_degraded-IsDegraded reason id)

  pub write_synced-Holds :
      (p : ManagedPath) (b : Bytes) (rs : List Revision) (f : Option Bytes)
      (x : Option (Tables env.State))
      → path_eq p config ≡ false
      → Triple
          (λ c. Holds rs f x c)
          (write_synced p b)
          (λ _ c. (c.files p ≡ some b) × Holds rs f x c)
          (λ _ c. Holds rs f x c)
  unfolding write_synced
  write_synced-Holds p b rs f x ne =
      executes _ _ (λ c d e v. written p b (c.files p) c d rs f x (if_ok _ _ _ d e) ne v)
        (λ c d e v. (v, (written p b (c.files p) c d rs f x (if_ok _ _ _ d e) ne v).1))
        (λ es c e v. v)

  pub replace_and_sync-Holds :
      (p : ManagedPath) (b : Bytes) (rs : List Revision) (x : Option (Tables env.State))
      → path_eq p config ≡ false
      → Triple
          (λ c. (c.files p ≡ some b) × (actives c.db.revisions ≡ rs) × (c.tx ≡ x))
          (replace_and_sync p)
          (λ _ c. Holds rs (some b) x c)
          (λ _ c. actives c.db.revisions ≡ rs)
  unfolding replace_and_sync
  replace_and_sync-Holds p b rs x ne =
      bind {Q = λ _ c. Holds rs (some b) x c}
        (executes _ _ (λ c d e v. renamed p b (c.files p) c d rs x e ne v.0 v.1 v.2)
          (λ c d e v. (v.1, (renamed p b (c.files p) c d rs x e ne v.0 v.1 v.2).0))
          (λ es c e v. v.1))
        (λ _.
          weaken (kept 0 (λ v. (v.actives ≡ rs) × (v.config ≡ some b) × (v.tx ≡ x)) sync-Keeps)
            (λ c h. h) (λ _ c h. h) (λ _ c h. h.0))
