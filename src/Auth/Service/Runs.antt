-- ===== src/Auth/Service/Runs.antt =====
-- Taking apart an action that returned a value.
use m_ui.Prelude.{◌+◌, ◌≡◌, refl, ap, Bool, true, false, Option, none, some, if◌then◌else◌}
use m_ui.Auth.Accounts.{
  Answer, done, refused, lost, Env, World, AuthError, Result, ok, err, M, continue, ◌>>=◌, pure,
  refuse_if, require,
}
use m_ui.Auth.Store.{answered, call}
use m_ui.Auth.Service.{is_missing, when_missing, or_missing, optional, found}

-- The action ends with the value, in the world.
abbrev pub Returns : {A : Type 0} → M A → World → A → World → Type 0
Returns m w a v = m w ≡ (ok a, v)

pub bind-ok :
    {A B : Type 0} (m : M A) (f : A → M B) (w v : World) (b : B)
    → Returns (m >>= f) w b v
    → (a : A) × ((u : World) × (Returns m w a u × Returns (f a) u b v))
bind-ok m f w v b h = step (m w) refl h
  where
    step :
        (r : Result _ × World)
        → m w ≡ r
        → continue r f ≡ (ok b, v)
        → (a : _) × ((u : World) × (Returns m w a u × Returns (f a) u b v))
    step (ok a, u) e h = (a, (u, (e, h)))
    step (err e', u) e h = cc

pub refuse_if-ok :
    {A : Type 0} (b : Bool) (e : AuthError) (m : M A) (w v : World) (a : A)
    → Returns (refuse_if b e >>= λ _. m) w a v
    → (b ≡ false) × Returns m w a v
refuse_if-ok true e m w v a h = cc
refuse_if-ok false e m w v a h = (refl, h)

pub ok-injective : {A : Type 0} {a b : A} → ok a ≡ ok b → a ≡ b
ok-injective h = cc

pub pure-ok :
    {A : Type 0} (b : A) (w v : World) (a : A) → Returns (pure b) w a v → (b ≡ a) × (w ≡ v)
pure-ok b w v a h = (ok-injective (ap (λ r. r.0) h), ap (λ r. r.1) h)

pub require-ok :
    {A : Type 0} (o : Option A) (e : AuthError) (w v : World) (a : A)
    → Returns (require o e) w a v
    → (o ≡ some a) × (w ≡ v)
require-ok none e w v a h = cc
require-ok (some b) e w v a h = let p = pure-ok b w v a h in (ap some p.0, p.1)

abbrev pub counted : World → World
counted w = record w { calls = w.calls + 1 }

-- A call that returns a value has run its body.
pub call-ok :
    {A : Type 0} (env : Env) (body : M A) (w v : World) (a : A)
    → Returns (call env body) w a v
    → Returns body (counted w) a v
unfolding call
call-ok env body w v a h = go (env.answer w.calls) (body (counted w)) h
  where
    go :
        (answer : Answer) (r : Result _ × World)
        → answered env answer (counted w) r ≡ (ok a, v)
        → r ≡ (ok a, v)
    go done r h = h
    go refused r h = cc
    go lost r h = cc

pub or_missing-ok :
    {A : Type 0} (m : M A) (e : AuthError) (w v : World) (a : A)
    → Returns (or_missing m e) w a v
    → Returns m w a v
or_missing-ok m e w v a h = go (m w) h
  where
    go : (r : Result _ × World) → when_missing e r ≡ (ok a, v) → r ≡ (ok a, v)
    go (ok b, u) k = k
    go (err f, u) k = cc

pub some-injective : {A : Type 0} {a b : A} → some a ≡ some b → a ≡ b
some-injective h = cc

returned :
    {A : Type 0} {a b : A} {u v : World}
    → b ≡ a
    → u ≡ v
    → ◌≡◌ {A = Result A × World} (ok b, u) (ok a, v)
returned h k = rw h (rw k refl)

missing-some :
    {A : Type 0} (b : Bool) (f : AuthError) (a : A)
    → (if b then ok none else err f) ≡ ok (some a)
    → ⊥
missing-some true f a h = cc
missing-some false f a h = cc

pub found-ok :
    {A : Type 0} (m : M A) (w v : World) (a : A) → Returns (found m) w (some a) v → Returns m w a v
found-ok m w v a h = go (m w) h
  where
    go : (r : Result _ × World) → optional r ≡ (ok (some a), v) → r ≡ (ok a, v)
    go (ok b, u) k = returned (some-injective (ok-injective (ap (λ r. r.0) k))) (ap (λ r. r.1) k)
    go (err f, u) k = absurd (missing-some (is_missing f) f a (ap (λ r. r.0) k))
