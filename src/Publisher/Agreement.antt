-- ===== src/Publisher/Agreement.antt =====
-- When the running file and the database agree, and what a publication leaves where they may not.
pub mod Restore
pub mod Failure
pub mod Baseline
pub mod Reconcile
pub mod Redo
pub mod Settle
pub mod Activate
pub mod Landing
pub mod Drift
pub mod Swap
pub mod Archive
pub mod Verified
pub mod Whole
pub mod Preflight
pub mod Locked
use m_ui.Prelude.{
  ℕ, Bool, true, false, ◌≡◌, refl, ◌∙◌, sym, ap, subst, ◌⊎◌, inl, inr, Option, none, some, List, [],
  ◌∷◌, ◌++◌, arith, ◌||◌, if◌then◌else◌,
}
use m_ui.Publisher.World.{
  Env, Core, Tables, Bytes, ManagedPath, config, candidate, path_eq, Revision, SystemState, Answer,
  done, refused, lost,
}
use m_ui.Publisher.Monad.{
  Result, ok, err, Fault, degraded_not_recorded, World, M, perform, execute, executed, answered,
}
use m_ui.Publisher.Files.{FileState, file_state, set_file, remove_file_at}
use m_ui.Publisher.Rows.{actives}
use m_ui.Publisher.Store.{rollback, update_tx, into_tx, read_tx}
use m_ui.Publisher.View.{View, view, Keeps, KeepsView}
use m_ui.Publisher.Triple.{Triple, Post, Post-both}

-- The part of the world that agreement is about.
pub record Seen : Type 0 where
  pub actives : List Revision
  pub config : Option Bytes
  pub system : SystemState

abbrev pub seen : {S : Type 0} → Core S → Seen
seen c = record { actives = actives c.db.revisions; config = c.files config; system = c.db.system }

abbrev pub of_view : {S : Type 0} → View S → Seen
of_view v = record { actives = v.actives; config = v.config; system = v.system }

abbrev pub is_unrecorded : Fault → Bool
is_unrecorded degraded_not_recorded = true
is_unrecorded _ = false

-- The error says that the degraded mark could not be stored.
abbrev pub unrecorded : List Fault → Bool
unrecorded [] = false
unrecorded (e ∷ es) = is_unrecorded e || unrecorded es

pub unrecorded-append_left :
    (es fs : List Fault) → unrecorded es ≡ true → unrecorded (es ++ fs) ≡ true
unrecorded-append_left [] fs h = cc
unrecorded-append_left (e ∷ es) fs h = ground (arith, unrecorded-append_left es fs)

pub unrecorded-append_right :
    (es fs : List Fault) → unrecorded fs ≡ true → unrecorded (es ++ fs) ≡ true
unrecorded-append_right [] fs h = h
unrecorded-append_right (e ∷ es) fs h = ground (arith, unrecorded-append_right es fs h)

abbrev pub IsDegraded : Seen → Type 0
IsDegraded s = s.system.degraded ≡ true

-- The file to go back to.
abbrev pub prior : FileState → Option Bytes
prior previous = if previous.exists then some previous.content else none

module _ ⦃env : Env⦄ where
  -- One active revision at most, and the running file is there and has its digest.
  abbrev pub Synced : List Revision → Option Bytes → Type 0
  Synced [] content = Unit
  Synced (r ∷ []) none = ⊥
  Synced (r ∷ []) (some b) = env.sha256 b ≡ r.sha256
  Synced (r ∷ s ∷ rs) content = ⊥

  abbrev pub InSync : Seen → Type 0
  InSync s = Synced s.actives s.config

  -- After an error: they agree, or the system is marked degraded, or the error says that the mark
  -- could not be stored.
  abbrev pub Failed : List Fault → Seen → Type 0
  Failed es s = InSync s ⊎ (IsDegraded s ⊎ (unrecorded es ≡ true))

  pub record Calm {A : Type 0} (m : M A) : Type 0 where
    pub calm : (w : World) → seen (m w).1.core ≡ seen w.core

  pub Keeps-Calm : {A : Type 0} {m : M A} → Keeps m → Calm m
  Keeps-Calm k = record { calm = λ w. ap of_view (k.keeps 0 w) }

  pub calmed :
      {A : Type 0} {m : M A} (P : Seen → Type 0)
      → Calm m
      → Triple (λ c. P (seen c)) m (λ _ c. P (seen c)) (λ _ c. P (seen c))
  calmed {m = m} P k = record {
    holds = λ w p. Post-both (λ c. P (seen c)) (m w) (subst P (sym (k.calm w)) p);
  }

  answered-seen :
      {A : Type 0} (a : Answer) (r : Result A) (w : World) (before after : Core env.State)
      (e : Fault) (s : Seen)
      → seen before ≡ s
      → seen after ≡ s
      → seen (answered a r w before after e).1.core ≡ s
  answered-seen done r w before after e s b a = a
  answered-seen refused r w before after e s b a = b
  answered-seen lost r w before after e s b a = a

  pub rollback-Calm : Calm rollback
  unfolding rollback perform
  rollback-Calm = record {
    calm = λ w. answered-seen (env.answer w.tick) (ok tt) _ _ _ _ (seen w.core) refl refl;
  }

  pub remove_candidate-Calm : (n : ℕ) → Calm (remove_file_at (candidate n))
  unfolding remove_file_at perform set_file path_eq
  remove_candidate-Calm n = record {
    calm = λ w. answered-seen (env.answer w.tick) (ok tt) _ _ _ _ (seen w.core) refl refl;
  }

  executed-seen :
      (a : Answer) (r : Result (Tables env.State)) (w : World) (e : Fault)
      → seen (executed a (into_tx w.core r) w e).1.core ≡ seen w.core
  executed-seen a (ok t) w e = answered-seen a (ok tt) w w.core _ e (seen w.core) refl refl
  executed-seen a (err es) w e = refl

  pub update_tx-Calm : (f : Tables env.State → Result (Tables env.State)) → Calm (update_tx f)
  unfolding update_tx execute
  update_tx-Calm f = record {
    calm = λ w. executed-seen (env.answer w.tick) (read_tx w.core.tx f) w _;
  }
