-- ===== src/Publisher/Triple.antt =====
-- Hoare triples over the core of the world, with one postcondition for a result and one for an
-- error. The count of the calls is not part of what they speak of.
use m_ui.Prelude.{ℕ, Bool, true, false, ◌≡◌, refl, sym, subst, if◌then◌else◌, List, [], ◌∷◌}
use m_ui.Publisher.View.{View, view, Keeps}
use m_ui.Publisher.World.{Env, Core, Answer, done, refused, lost}
use m_ui.Publisher.Monad.{
  Result, ok, err, Fault, World, M, continue, ◌>>=◌, pure, raise, executed, execute, ignore,
  dropped, rescue, rescued, guard, attempt, caught, defer, finish_with, answered, perform, observe,
  lift,
}

module _ ⦃env : Env⦄ where
  abbrev pub Pred : Type 1
  Pred = Core env.State → Type 0

  abbrev pub Post : {A : Type 0} → (A → Pred) → (List Fault → Pred) → Result A × World → Type 0
  Post Q E (ok a, w) = Q a w.core
  Post Q E (err es, w) = E es w.core

  pub record Triple {A : Type 0} (P : Pred) (m : M A) (Q : A → Pred) (E : List Fault → Pred)
      : Type 0 where
    pub holds : (w : World) → P w.core → Post Q E (m w)

  continue-Post :
      {A B : Type 0} (Q : A → Pred) (R : B → Pred) (E : List Fault → Pred) (f : A → M B)
      (r : Result A × World)
      → ((a : A) → Triple (Q a) (f a) R E)
      → Post Q E r
      → Post R E (continue r f)
  continue-Post Q R E f (ok a, w) then_ h = (then_ a).holds w h
  continue-Post Q R E f (err es, w) then_ h = h

  pub bind :
      {A B : Type 0} {P : Pred} {m : M A} {Q : A → Pred} {R : B → Pred} {E : List Fault → Pred}
      {f : A → M B}
      → Triple P m Q E
      → ((a : A) → Triple (Q a) (f a) R E)
      → Triple P (m >>= f) R E
  bind {m = m} {Q = Q} {R = R} {E = E} {f = f} t k = record {
    holds = λ w h. continue-Post Q R E f (m w) k (t.holds w h);
  }

  Post-weaken :
      {A : Type 0} (Q Q' : A → Pred) (E E' : List Fault → Pred) (r : Result A × World)
      → ((a : A) (c : Core env.State) → Q a c → Q' a c)
      → ((es : List Fault) (c : Core env.State) → E es c → E' es c)
      → Post Q E r
      → Post Q' E' r
  Post-weaken Q Q' E E' (ok a, w) q e h = q a w.core h
  Post-weaken Q Q' E E' (err es, w) q e h = e es w.core h

  pub weaken :
      {A : Type 0} {P P' : Pred} {m : M A} {Q Q' : A → Pred} {E E' : List Fault → Pred}
      → Triple P m Q E
      → ((c : Core env.State) → P' c → P c)
      → ((a : A) (c : Core env.State) → Q a c → Q' a c)
      → ((es : List Fault) (c : Core env.State) → E es c → E' es c)
      → Triple P' m Q' E'
  weaken {m = m} {Q = Q} {Q' = Q'} {E = E} {E' = E'} t p q e = record {
    holds = λ w h. Post-weaken Q Q' E E' (m w) q e (t.holds w (p w.core h));
  }

  pub return :
      {A : Type 0} {P : Pred} {Q : A → Pred} {E : List Fault → Pred} (a : A)
      → ((c : Core env.State) → P c → Q a c)
      → Triple P (pure a) Q E
  return a h = record { holds = λ w p. h w.core p }

  pub fail :
      {A : Type 0} {P : Pred} {Q : A → Pred} {E : List Fault → Pred} (es : List Fault)
      → ((c : Core env.State) → P c → E es c)
      → Triple P (raise {A = A} es) Q E
  fail es h = record { holds = λ w p. h w.core p }

  answered-Post :
      {A : Type 0} (Q : A → Pred) (E : List Fault → Pred) (a : Answer) (r : A) (w : World)
      (before after : Core env.State) (e : Fault)
      → Q r after
      → E (e ∷ []) before
      → E (e ∷ []) after
      → Post Q E (answered a (ok r) w before after e)
  answered-Post Q E done r w before after e q b a = q
  answered-Post Q E refused r w before after e q b a = b
  answered-Post Q E lost r w before after e q b a = a

  pub performs :
      {P : Pred} {Q : Unit {0} → Pred} {E : List Fault → Pred}
      (effect : Core env.State → Core env.State) (e : Fault)
      → ((c : Core env.State) → P c → Q tt (effect c))
      → ((c : Core env.State) → P c → E (e ∷ []) c)
      → ((c : Core env.State) → P c → E (e ∷ []) (effect c))
      → Triple P (perform effect e) Q E
  unfolding perform
  performs {Q = Q} {E = E} effect e q before after = record {
    holds = λ w p.
        answered-Post Q E (env.answer w.tick) tt w w.core (effect w.core) e (q w.core p)
          (before w.core p) (after w.core p);
  }

  -- The outcome of a caught call, as a value.
  abbrev pub Either : {A : Type 0} → (A → Pred) → (List Fault → Pred) → Result A → Pred
  Either Q E (ok a) = Q a
  Either Q E (err es) = E es

  caught-Post :
      {A : Type 0} (Q : A → Pred) (E : List Fault → Pred) (F : List Fault → Pred)
      (r : Result A × World)
      → Post Q E r
      → Post (Either Q E) F (caught r)
  caught-Post Q E F (ok a, w) h = h
  caught-Post Q E F (err es, w) h = h

  pub catch :
      {A : Type 0} {P : Pred} {m : M A} {Q : A → Pred} {E : List Fault → Pred}
      {F : List Fault → Pred}
      → Triple P m Q E
      → Triple P (attempt m) (Either Q E) F
  catch {m = m} {Q = Q} {E = E} {F = F} t = record {
    holds = λ w p. caught-Post Q E F (m w) (t.holds w p);
  }

  dropped-Post :
      {A : Type 0} (R : Pred) (F : List Fault → Pred) (r : Result A × World)
      → Post (λ _. R) (λ _. R) r
      → Post (λ _. R) F (dropped r)
  dropped-Post R F (ok a, w) h = h
  dropped-Post R F (err es, w) h = h

  pub drop :
      {A : Type 0} {P : Pred} {m : M A} {R : Pred} {F : List Fault → Pred}
      → Triple P m (λ _. R) (λ _. R)
      → Triple P (ignore m) (λ _. R) F
  drop {m = m} {R = R} {F = F} t = record { holds = λ w p. dropped-Post R F (m w) (t.holds w p) }

  rescued-Post :
      {A : Type 0} (Q : A → Pred) (E F : List Fault → Pred) (h : List Fault → M A)
      (r : Result A × World)
      → ((es : List Fault) → Triple (E es) (h es) Q F)
      → Post Q E r
      → Post Q F (rescued r h)
  rescued-Post Q E F h (ok a, w) k p = p
  rescued-Post Q E F h (err es, w) k p = (k es).holds w p

  pub handle :
      {A : Type 0} {P : Pred} {m : M A} {Q : A → Pred} {E F : List Fault → Pred}
      {h : List Fault → M A}
      → Triple P m Q E
      → ((es : List Fault) → Triple (E es) (h es) Q F)
      → Triple P (rescue m h) Q F
  handle {m = m} {Q = Q} {E = E} {F = F} {h = h} t k = record {
    holds = λ w p. rescued-Post Q E F h (m w) k (t.holds w p);
  }

  finished-Post :
      {A : Type 0} (Q Q' : A → Pred) (E E' : List Fault → Pred) (cleanup : M (Unit {0}))
      (r : Result A × World)
      → ((a : A) (w : World) → Q a w.core → Q' a (cleanup w).1.core)
      → ((es : List Fault) (w : World) → E es w.core → E' es (cleanup w).1.core)
      → Post Q E r
      → Post Q' E' (finish_with r cleanup)
  finished-Post Q Q' E E' cleanup (ok a, w) q e h = q a w h
  finished-Post Q Q' E E' cleanup (err es, w) q e h = e es w h

  pub deferred :
      {A : Type 0} {P : Pred} {m : M A} {Q Q' : A → Pred} {E E' : List Fault → Pred}
      (cleanup : M (Unit {0}))
      → Triple P m Q E
      → ((a : A) (w : World) → Q a w.core → Q' a (cleanup w).1.core)
      → ((es : List Fault) (w : World) → E es w.core → E' es (cleanup w).1.core)
      → Triple P (defer cleanup m) Q' E'
  deferred {m = m} {Q = Q} {Q' = Q'} {E = E} {E' = E'} cleanup t q e = record {
    holds = λ w p. finished-Post Q Q' E E' cleanup (m w) q e (t.holds w p);
  }

  pub guards :
      {P : Pred} {Q : Unit {0} → Pred} {E : List Fault → Pred} (b : Bool) (e : Fault)
      → ((c : Core env.State) → b ≡ true → P c → Q tt c)
      → ((c : Core env.State) → b ≡ false → P c → E (e ∷ []) c)
      → Triple P (guard b e) Q E
  guards true e q f = record { holds = λ w p. q w.core refl p }
  guards false e q f = record { holds = λ w p. f w.core refl p }

  pub branch :
      {A : Type 0} {P : Pred} {m k : M A} {Q : A → Pred} {E : List Fault → Pred} (b : Bool)
      → (b ≡ true → Triple P m Q E)
      → (b ≡ false → Triple P k Q E)
      → Triple P (if b then m else k) Q E
  branch true t f = t refl
  branch false t f = f refl

  lifted-Post :
      {A : Type 0} (Q : A → Pred) (E : List Fault → Pred) (r : Result A) (w : World)
      → ((a : A) → r ≡ ok a → Q a w.core)
      → ((es : List Fault) → r ≡ err es → E es w.core)
      → Post Q E (r, w)
  lifted-Post Q E (ok a) w q e = q a refl
  lifted-Post Q E (err es) w q e = e es refl

  pub lifts :
      {A : Type 0} {P : Pred} {Q : A → Pred} {E : List Fault → Pred} (r : Result A)
      → ((a : A) (c : Core env.State) → r ≡ ok a → P c → Q a c)
      → ((es : List Fault) (c : Core env.State) → r ≡ err es → P c → E es c)
      → Triple P (lift r) Q E
  lifts {Q = Q} {E = E} r q e = record {
    holds = λ w p. lifted-Post Q E r w (λ a x. q a w.core x p) (λ es x. e es w.core x p);
  }

  observed-Post :
      {A : Type 0} (Q : A → Pred) (E : List Fault → Pred) (a : Answer) (r : Result A) (w : World)
      (e : Fault)
      → ((x : A) → r ≡ ok x → Q x w.core)
      → ((es : List Fault) → E es w.core)
      → Post Q E (answered a r w w.core w.core e)
  observed-Post Q E done (ok x) w e q f = q x refl
  observed-Post Q E done (err es) w e q f = f es
  observed-Post Q E refused r w e q f = f (e ∷ [])
  observed-Post Q E lost r w e q f = f (e ∷ [])

  -- A read hands on what it found, and an error leaves what held.
  pub observes :
      {A : Type 0} {P : Pred} {Q : A → Pred} {E : List Fault → Pred} (f : Core env.State → Result A)
      (e : Fault)
      → ((a : A) (c : Core env.State) → f c ≡ ok a → P c → Q a c)
      → ((es : List Fault) (c : Core env.State) → P c → E es c)
      → Triple P (observe f e) Q E
  unfolding observe
  observes {Q = Q} {E = E} f e q fails = record {
    holds = λ w p.
        observed-Post Q E (env.answer w.tick) (f w.core) w e (λ a x. q a w.core x p)
          (λ es. fails es w.core p);
  }

  executed-Post :
      (Q : Unit {0} → Pred) (E : List Fault → Pred) (a : Answer) (r : Result (Core env.State))
      (w : World) (e : Fault)
      → ((d : Core env.State) → r ≡ ok d → Q tt d)
      → ((d : Core env.State) → r ≡ ok d → E (e ∷ []) w.core × E (e ∷ []) d)
      → ((es : List Fault) → r ≡ err es → E es w.core)
      → Post Q E (executed a r w e)
  executed-Post Q E done (ok d) w e q f g = q d refl
  executed-Post Q E refused (ok d) w e q f g = (f d refl).0
  executed-Post Q E lost (ok d) w e q f g = (f d refl).1
  executed-Post Q E a (err es) w e q f g = g es refl

  pub executes :
      {P : Pred} {Q : Unit {0} → Pred} {E : List Fault → Pred}
      (effect : Core env.State → Result (Core env.State)) (e : Fault)
      → ((c d : Core env.State) → effect c ≡ ok d → P c → Q tt d)
      → ((c d : Core env.State) → effect c ≡ ok d → P c → E (e ∷ []) c × E (e ∷ []) d)
      → ((es : List Fault) (c : Core env.State) → effect c ≡ err es → P c → E es c)
      → Triple P (execute effect e) Q E
  unfolding execute
  executes {Q = Q} {E = E} effect e q f g = record {
    holds = λ w p.
        executed-Post Q E (env.answer w.tick) (effect w.core) w e (λ d x. q w.core d x p)
          (λ d x. f w.core d x p) (λ es x. g es w.core x p);
  }

  pub Post-both :
      {A : Type 0} (R : Pred) (r : Result A × World) → R r.1.core → Post (λ _. R) (λ _. R) r
  Post-both R (ok a, w) h = h
  Post-both R (err es, w) h = h

  -- What an action keeps it keeps as a precondition and as both postconditions.
  pub kept :
      {A : Type 0} {m : M A} (n : ℕ) (P : View env.State → Type 0)
      → Keeps m
      → Triple (λ c. P (view n c)) m (λ _ c. P (view n c)) (λ _ c. P (view n c))
  kept {m = m} n P k = record {
    holds = λ w p. Post-both (λ c. P (view n c)) (m w) (subst P (sym (k.keeps n w)) p);
  }
