-- ===== src/Publisher/View.antt =====
-- The part of the world that decides whether database and running file agree, and the actions that
-- leave all of it alone.
use m_ui.Prelude.{ℕ, Bool, true, false, ◌≡◌, refl, ◌∙◌, Option, List, [], ◌∷◌, arith, if◌then◌else◌}
use m_ui.Publisher.World.{
  Env, Core, Tables, Bytes, ManagedPath, config, candidate, path_eq, Revision, SystemState, Answer,
  done, refused, lost,
}
use m_ui.Publisher.Monad.{
  Result, ok, err, Fault, World, M, continue, ◌>>=◌, ◌>>◌, pure, raise, lift, guard, attempt,
  caught, ignore, dropped, rescue, rescued, defer, finish_with, perform, execute, executed, observe,
  answered, new_id, now,
}
use m_ui.Publisher.Files.{set_file}
use m_ui.Publisher.Rows.{actives, delete_row}

pub record View (S : Type 0) : Type 0 where
  pub actives : List Revision
  pub config : Option Bytes
  pub watched : Option Bytes
  pub tx : Option (Tables S)
  pub system : SystemState

-- The files that are neither the running one nor a candidate for it.
abbrev pub spares : ManagedPath → Bool
spares config = false
spares (candidate n) = false
spares _ = true

module _ {S : Type 0} where
  -- The watched file is the candidate `n`.
  abbrev pub view : ℕ → Core S → View S
  view n c = record {
    actives = actives c.db.revisions;
    config = c.files config;
    watched = c.files (candidate n);
    tx = c.tx;
    system = c.db.system;
  }

  pub view-set_file :
      (n : ℕ) (p : ManagedPath) (content : Option Bytes) (c : Core S)
      → spares p ≡ true
      → view n (set_file p content c) ≡ view n c
  unfolding set_file path_eq
  view-set_file n p content c h = ground arith

pub actives-delete_row : (id : ℕ) (rs : List Revision) → actives (delete_row id rs) ≡ actives rs
unfolding delete_row
actives-delete_row id [] = refl
actives-delete_row id (r ∷ rs) = ground (arith, actives-delete_row id rs)

module _ ⦃env : Env⦄ where
  pub record Keeps {A : Type 0} (m : M A) : Type 0 where
    pub keeps : (n : ℕ) (w : World) → view n (m w).1.core ≡ view n w.core

  pub pure-Keeps : {A : Type 0} (a : A) → Keeps (pure a)
  pure-Keeps a = record { keeps = λ n w. refl }

  pub raise-Keeps : {A : Type 0} (es : List Fault) → Keeps (raise {A = A} es)
  raise-Keeps es = record { keeps = λ n w. refl }

  pub lift-Keeps : {A : Type 0} (r : Result A) → Keeps (lift r)
  lift-Keeps r = record { keeps = λ n w. refl }

  pub guard-Keeps : (b : Bool) (e : Fault) → Keeps (guard b e)
  guard-Keeps true e = record { keeps = λ n w. refl }
  guard-Keeps false e = record { keeps = λ n w. refl }

  -- What follows a check may use that it passed.
  pub guarded-Keeps :
      {A : Type 0} (b : Bool) (e : Fault) {m : M A} → (b ≡ true → Keeps m) → Keeps (guard b e >> m)
  guarded-Keeps true e k = record { keeps = λ n w. (k refl).keeps n w }
  guarded-Keeps false e k = record { keeps = λ n w. refl }

  continue-view :
      {A B : Type 0} (n : ℕ) (f : A → M B) (r : Result A × World)
      → ((a : A) → Keeps (f a))
      → view n (continue r f).1.core ≡ view n r.1.core
  continue-view n f (ok a, w) k = (k a).keeps n w
  continue-view n f (err es, w) k = refl

  pub bind-Keeps :
      {A B : Type 0} {m : M A} {f : A → M B} → Keeps m → ((a : A) → Keeps (f a)) → Keeps (m >>= f)
  bind-Keeps {m = m} {f = f} k l = record { keeps = λ n w. continue-view n f (m w) l ∙ k.keeps n w }

  caught-view :
      {A : Type 0} (n : ℕ) (r : Result A × World) → view n (caught r).1.core ≡ view n r.1.core
  caught-view n (ok a, w) = refl
  caught-view n (err es, w) = refl

  pub attempt-Keeps : {A : Type 0} {m : M A} → Keeps m → Keeps (attempt m)
  attempt-Keeps {m = m} k = record { keeps = λ n w. caught-view n (m w) ∙ k.keeps n w }

  dropped-view :
      {A : Type 0} (n : ℕ) (r : Result A × World) → view n (dropped r).1.core ≡ view n r.1.core
  dropped-view n (ok a, w) = refl
  dropped-view n (err es, w) = refl

  pub ignore-Keeps : {A : Type 0} {m : M A} → Keeps m → Keeps (ignore m)
  ignore-Keeps {m = m} k = record { keeps = λ n w. dropped-view n (m w) ∙ k.keeps n w }

  rescued-view :
      {A : Type 0} (n : ℕ) (h : List Fault → M A) (r : Result A × World)
      → ((es : List Fault) → Keeps (h es))
      → view n (rescued r h).1.core ≡ view n r.1.core
  rescued-view n h (ok a, w) k = refl
  rescued-view n h (err es, w) k = (k es).keeps n w

  pub rescue-Keeps :
      {A : Type 0} {m : M A} {h : List Fault → M A}
      → Keeps m
      → ((es : List Fault) → Keeps (h es))
      → Keeps (rescue m h)
  rescue-Keeps {m = m} {h = h} k l = record {
    keeps = λ n w. rescued-view n h (m w) l ∙ k.keeps n w;
  }

  finish_with-view :
      {A : Type 0} (n : ℕ) (cleanup : M (Unit {0})) (r : Result A × World)
      → Keeps cleanup
      → view n (finish_with r cleanup).1.core ≡ view n r.1.core
  finish_with-view n cleanup (r, w) k = k.keeps n w

  pub defer-Keeps :
      {A : Type 0} {cleanup : M (Unit {0})} {m : M A}
      → Keeps cleanup
      → Keeps m
      → Keeps (defer cleanup m)
  defer-Keeps {cleanup = cleanup} {m = m} k l = record {
    keeps = λ n w. finish_with-view n cleanup (m w) k ∙ l.keeps n w;
  }

  pub if-Keeps :
      {A : Type 0} (b : Bool) {m n : M A} → Keeps m → Keeps n → Keeps (if b then m else n)
  if-Keeps true k l = k
  if-Keeps false k l = l

  answered-view :
      {A : Type 0} (n : ℕ) (a : Answer) (r : Result A) (w : World) (after : Core env.State)
      (e : Fault)
      → view n after ≡ view n w.core
      → view n (answered a r w w.core after e).1.core ≡ view n w.core
  answered-view n done r w after e h = h
  answered-view n refused r w after e h = refl
  answered-view n lost r w after e h = h

  pub perform-Keeps :
      (effect : Core env.State → Core env.State) (e : Fault)
      → ((n : ℕ) (c : Core env.State) → view n (effect c) ≡ view n c)
      → Keeps (perform effect e)
  unfolding perform
  perform-Keeps effect e h = record {
    keeps = λ n w. answered-view n (env.answer w.tick) (ok tt) w (effect w.core) e (h n w.core);
  }

  abbrev pub KeepsView : ℕ → Core env.State → Result (Core env.State) → Type 0
  KeepsView n c (ok d) = view n d ≡ view n c
  KeepsView n c (err es) = Unit

  executed-view :
      (n : ℕ) (a : Answer) (r : Result (Core env.State)) (w : World) (e : Fault)
      → KeepsView n w.core r
      → view n (executed a r w e).1.core ≡ view n w.core
  executed-view n a (ok d) w e h = answered-view n a (ok tt) w d e h
  executed-view n a (err es) w e h = refl

  pub execute-Keeps :
      (effect : Core env.State → Result (Core env.State)) (e : Fault)
      → ((n : ℕ) (c : Core env.State) → KeepsView n c (effect c))
      → Keeps (execute effect e)
  unfolding execute
  execute-Keeps effect e h = record {
    keeps = λ n w. executed-view n (env.answer w.tick) (effect w.core) w e (h n w.core);
  }

  pub observe-Keeps : {A : Type 0} (f : Core env.State → Result A) (e : Fault) → Keeps (observe f e)
  unfolding observe
  observe-Keeps f e = record {
    keeps = λ n w. answered-view n (env.answer w.tick) (f w.core) w w.core e refl;
  }

  pub new_id-Keeps : Keeps new_id
  unfolding new_id
  new_id-Keeps = record { keeps = λ n w. (observe-Keeps (λ _. ok (env.new_id w.tick)) _).keeps n w }

  pub now-Keeps : Keeps now
  unfolding now
  now-Keeps = record { keeps = λ n w. refl }

  pub ruleset keeping = (
    bind-Keeps, pure-Keeps, raise-Keeps, lift-Keeps, guard-Keeps, attempt-Keeps, ignore-Keeps,
    rescue-Keeps, defer-Keeps, if-Keeps, observe-Keeps, new_id-Keeps, now-Keeps,
  )
