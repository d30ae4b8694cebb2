-- ===== src/Auth/Service/Effects.antt =====
-- What the calls of a successful run leave (internal/store/auth.go).
use Prim.Native.String.{String}
use m_ui.Prelude.{
  ◌+◌, ◌≡◌, refl, ◌∙◌, ap, subst, Bool, true, false, not, ◌||◌, ◌&&◌, ◌∷◌, Text, text_eq, is_empty,
  Key, if◌then◌else◌,
}
use m_ui.Auth.Accounts.{
  Session, AuditLog, Env, LimitKey, World, AuthError, constraint_violated, random_failed, Result,
  ok, err, M,
}
use m_ui.Auth.Store.{
  any, has_id, collides, draw, insert_session, create_session, insert_audit_row, insert_audit,
}
use m_ui.Auth.Service.{write_audit, cleaned, or_clean_up}
use m_ui.Auth.Service.Runs.{Returns, bind-ok, require-ok, call-ok, counted}

-- A row is inserted where no constraint refuses it.
pub guarded-ok :
    {A : Type 0} (b : Bool) (e : AuthError) (x a : A) (w u v : World)
    → ◌≡◌ {A = Result A × World} (if b then (err e, w) else (ok x, u)) (ok a, v)
    → (b ≡ false) × (u ≡ v)
guarded-ok true e x a w u v h = cc
guarded-ok false e x a w u v h = (refl, ap (λ r. r.1) h)

-- The same accounts: the administrators, the sessions and the bootstrap state.
abbrev pub SameAccounts : World → World → Type 0
SameAccounts w u = (u.admins ≡ w.admins) × ((u.sessions ≡ w.sessions) × (u.bootstrap ≡ w.bootstrap))

module _ (env : Env) where
  pub draw-ok : (w u : World) (t : Text) → Returns (draw env) w t u → SameAccounts w u
  unfolding draw
  draw-ok w u t h =
      let row =
        require-ok (env.random w.draws) random_failed (record w { draws = w.draws + 1 }) u t h in
      subst (SameAccounts w) row.1 (refl, (refl, refl))

  pub insert_session-ok :
      (s : Session) (w u : World) (t : Unit {0})
      → Returns (insert_session env s) w t u
      → (u.admins ≡ w.admins) × ((u.sessions ≡ s ∷ w.sessions) × (u.bootstrap ≡ w.bootstrap))
  insert_session-ok s w u t h =
      let row =
        guarded-ok (any (collides s) w.sessions || not (any (has_id s.admin_user_id) w.admins))
          constraint_violated tt t w (record w { sessions = s ∷ w.sessions }) u h in
      subst
        (λ x. (x.admins ≡ w.admins) × ((x.sessions ≡ s ∷ w.sessions) × (x.bootstrap ≡ w.bootstrap)))
        row.1 (refl, (refl, refl))

  pub insert_audit_row-ok :
      (a : AuditLog) (w u : World) (t : Unit {0})
      → Returns (insert_audit_row env a) w t u
      → SameAccounts w u
  insert_audit_row-ok a w u t h =
      let row =
        guarded-ok
          (any (λ (b : AuditLog). text_eq b.id a.id) w.audits
            || (not (is_empty a.actor_admin_id) && not (any (has_id a.actor_admin_id) w.admins)))
          constraint_violated tt t w (record w { audits = a ∷ w.audits }) u h in
      subst (SameAccounts w) row.1 (refl, (refl, refl))

  pub create_session-ok :
      (s : Session) (w u : World) (t : Unit {0})
      → Returns (create_session env s) w t u
      → (u.admins ≡ w.admins) × ((u.sessions ≡ s ∷ w.sessions) × (u.bootstrap ≡ w.bootstrap))
  unfolding create_session
  create_session-ok s w u t h =
      insert_session-ok s (counted w) u t (call-ok env (insert_session env s) w u t h)

  pub insert_audit-ok :
      (a : AuditLog) (w u : World) (t : Unit {0})
      → Returns (insert_audit env a) w t u
      → SameAccounts w u
  unfolding insert_audit
  insert_audit-ok a w u t h =
      insert_audit_row-ok a (counted w) u t (call-ok env (insert_audit_row env a) w u t h)

pub SameAccounts-trans : (u v w : World) → SameAccounts u v → SameAccounts v w → SameAccounts u w
SameAccounts-trans u v w h k = (k.0 ∙ h.0, (k.1.0 ∙ h.1.0, k.1.1 ∙ h.1.1))

module _ (env : Env) ⦃key : Key LimitKey⦄ where
  pub write_audit-ok :
      (actor : Text) (action kind : String) (id : Text) (result summary : String) (w u : World)
      (t : Unit {0})
      → Returns (write_audit env actor action kind id result summary) w t u
      → SameAccounts w u
  unfolding write_audit
  write_audit-ok actor action kind id result summary w u t h =
      let entry : Text → AuditLog = λ audit_id. record {
        id = audit_id;
        actor_admin_id = actor;
        action = action;
        resource_type = kind;
        resource_id = id;
        result = result;
        summary_redacted = summary;
        created_at = env.now;
      } in
      let run = bind-ok (draw env) (λ audit_id. insert_audit env (entry audit_id)) w u t h in
      SameAccounts-trans w run.1.0 u (draw-ok env w run.1.0 run.0 run.1.1.0)
        (insert_audit-ok env (entry run.0) run.1.0 u t run.1.1.1)

  pub or_clean_up-ok :
      (m cleanup : M (Unit {0})) (w u : World) (t : Unit {0})
      → Returns (or_clean_up env m cleanup) w t u
      → Returns m w t u
  or_clean_up-ok m cleanup w u t h = go (m w) h
    where
      go : (r : Result (Unit {0}) × World) → cleaned env cleanup r ≡ (ok t, u) → r ≡ (ok t, u)
      go (ok x, v) k = k
      go (err e, v) k = cc
