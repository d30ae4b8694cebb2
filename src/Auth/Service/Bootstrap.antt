-- ===== src/Auth/Service/Bootstrap.antt =====
-- The transaction that creates the first administrator (internal/store/bootstrap.go).
use m_ui.Prelude.{
  ℕ, ◌≡◌, refl, ◌∙◌, sym, ap, subst, Bool, true, false, not, ◌||◌, ◌&&◌, some, List, [], ◌∷◌, arith,
  Text, length, ltb, text_eq, is_empty, ◌==◌,
}
use m_ui.Auth.Accounts.{
  Admin, Session, AuditLog, BootstrapState, Env, World, constraint_violated, not_found,
  multiple_administrators, bootstrap_unavailable, bootstrap_completed, invalid_bootstrap_token,
  Result, ok, err, M, ◌>>=◌, ◌>>◌, pure, refuse_if, require,
}
use m_ui.Auth.Store.{
  any, has_id, has_username, is_consumed, has_token, has_trace, checked_bootstrap, undone,
  transaction, insert_admin, insert_session, insert_audit_row, read_world, bootstrap_statements,
  complete_bootstrap, completed, admin_count, bootstrap_row, bootstrap_state,
}
use m_ui.Auth.Service.Runs.{Returns, bind-ok, refuse_if-ok, pure-ok, require-ok, call-ok, counted}
use m_ui.Auth.Service.Effects.{
  guarded-ok, SameAccounts, SameAccounts-trans, insert_session-ok, insert_audit_row-ok,
}

pub no_rows : {A : Type 0} (xs : List A) → not (length xs == 0) ≡ false → xs ≡ []
no_rows [] h = refl
no_rows (x ∷ xs) h =
    let some_row : (length (x ∷ xs) == 0) ≡ false = ground arith in
    let clash : true ≡ false = ap not (sym some_row) ∙ h in cc

-- The accounts after the creation.
abbrev pub Created : Env → Admin → Session → World → World → Type 0
Created env admin session w v =
    (w.admins ≡ [])
    × ((v.admins ≡ admin ∷ [])
        × ((v.sessions ≡ session ∷ w.sessions) × (v.bootstrap ≡ some (completed env.now))))

module _ (env : Env) where
  admin_count-ok : (w u : World) (n : ℕ) → Returns (admin_count env) w n u → SameAccounts w u
  unfolding admin_count
  admin_count-ok w u n h =
      let body = call-ok env (λ (x : World). (ok (length x.admins), x)) w u n h in
      subst (SameAccounts w) (ap (λ r. r.1) body) (refl, (refl, refl))

  bootstrap_row-ok :
      (w u : World) (s : BootstrapState) → Returns (bootstrap_row env) w s u → SameAccounts w u
  unfolding bootstrap_row
  bootstrap_row-ok w u s h =
      let body = call-ok env (λ (x : World). require x.bootstrap not_found x) w u s h in
      subst (SameAccounts w) (require-ok w.bootstrap not_found (counted w) u s body).1
        (refl, (refl, refl))

  checked_bootstrap-ok :
      (n : ℕ) (s : BootstrapState) (w u : World) (r : Bool × BootstrapState)
      → Returns (checked_bootstrap n s) w r u
      → SameAccounts w u
  checked_bootstrap-ok n s w u r h =
      let last : M (Bool × BootstrapState) = pure (n == 0 && not (is_consumed s), s) in
      let third : M (Bool × BootstrapState) =
        refuse_if (is_consumed s && has_trace s) bootstrap_unavailable >> last in
      let second : M (Bool × BootstrapState) =
        refuse_if (not (is_consumed s) && not (has_token s)) bootstrap_unavailable >> third in
      let one = refuse_if-ok (n == 0 && is_consumed s) bootstrap_unavailable second w u r h in
      let two =
        refuse_if-ok (not (is_consumed s) && not (has_token s)) bootstrap_unavailable third w u r
          one.1 in
      let three =
        refuse_if-ok (is_consumed s && has_trace s) bootstrap_unavailable last w u r two.1 in
      subst (SameAccounts w) (pure-ok (n == 0 && not (is_consumed s), s) w u r three.1).1
        (refl, (refl, refl))

  pub bootstrap_state-ok :
      (w u : World) (r : Bool × BootstrapState)
      → Returns (bootstrap_state env) w r u
      → SameAccounts w u
  unfolding bootstrap_state
  bootstrap_state-ok w u r h =
      let after : ℕ → M (Bool × BootstrapState) = λ n. bootstrap_row env >>= checked_bootstrap n in
      let counting =
        bind-ok (admin_count env) (λ n. refuse_if (ltb 1 n) multiple_administrators >> after n) w u
          r h in
      let n = counting.0 in
      let single =
        refuse_if-ok (ltb 1 n) multiple_administrators (after n) counting.1.0 u r counting.1.1.1 in
      let row = bind-ok (bootstrap_row env) (checked_bootstrap n) counting.1.0 u r single.1 in
      SameAccounts-trans w counting.1.0 u (admin_count-ok w counting.1.0 n counting.1.1.0) (
        SameAccounts-trans counting.1.0 row.1.0 u
          (bootstrap_row-ok counting.1.0 row.1.0 row.0 row.1.1.0)
          (checked_bootstrap-ok n row.0 row.1.0 u r row.1.1.1))

  insert_admin-ok :
      (a : Admin) (w u : World) (t : Unit {0})
      → Returns (insert_admin env a) w t u
      → (u.admins ≡ a ∷ w.admins) × (u.sessions ≡ w.sessions)
  insert_admin-ok a w u t h =
      let row =
        guarded-ok (any (has_id a.id) w.admins || any (has_username a.username) w.admins)
          constraint_violated tt t w (record w { admins = a ∷ w.admins }) u h in
      subst (λ (x : World). (x.admins ≡ a ∷ w.admins) × (x.sessions ≡ w.sessions)) row.1
        (refl, refl)

  abbrev finish : M (Unit {0})
  finish x = (ok tt, record x { bootstrap = some (completed env.now) })

  abbrev insertions : Admin → Session → AuditLog → M (Unit {0})
  insertions admin session audit =
      insert_admin env admin
      >> (insert_session env session >> (insert_audit_row env audit >> finish))

  -- What the insertions leave of the accounts they find.
  insertions-ok :
      (admin : Admin) (session : Session) (audit : AuditLog) (w v : World)
      → Returns (insertions admin session audit) w tt v
      → (v.admins ≡ admin ∷ w.admins)
        × ((v.sessions ≡ session ∷ w.sessions) × (v.bootstrap ≡ some (completed env.now)))
  insertions-ok admin session audit w v h =
      let after_session : M (Unit {0}) = insert_audit_row env audit >> finish in
      let after_admin : M (Unit {0}) = insert_session env session >> after_session in
      let first = bind-ok (insert_admin env admin) (λ _. after_admin) w v tt h in
      let second =
        bind-ok (insert_session env session) (λ _. after_session) first.1.0 v tt first.1.1.1 in
      let third = bind-ok (insert_audit_row env audit) (λ _. finish) second.1.0 v tt second.1.1.1 in
      let admin_row = insert_admin-ok admin w first.1.0 first.0 first.1.1.0 in
      let session_row = insert_session-ok env session first.1.0 second.1.0 second.0 second.1.1.0 in
      let audit_row = insert_audit_row-ok env audit second.1.0 third.1.0 third.0 third.1.1.0 in
      let last = third.1.1.1 in
      (
        sym (ap (λ r. r.1.admins) last) ∙ (audit_row.0 ∙ (session_row.0 ∙ admin_row.0)),
        (
          sym (ap (λ r. r.1.sessions) last)
              ∙ (audit_row.1.0 ∙ (session_row.1.0 ∙ ap (λ ss. session ∷ ss) admin_row.1)),
          sym (ap (λ r. r.1.bootstrap) last),
        ),
      )

  Created-from :
      (admin : Admin) (session : Session) (w u v : World)
      → w.admins ≡ []
      → w ≡ u
      → (v.admins ≡ admin ∷ u.admins)
        × ((v.sessions ≡ session ∷ u.sessions) × (v.bootstrap ≡ some (completed env.now)))
      → Created env admin session w v
  Created-from admin session w u v none_yet same made = (
    none_yet,
    (
      made.0 ∙ (sym (ap (λ (x : World). admin ∷ x.admins) same) ∙ ap (λ xs. admin ∷ xs) none_yet),
      (made.1.0 ∙ sym (ap (λ (x : World). session ∷ x.sessions) same), made.1.1),
    ),
  )

  statements-Created :
      (expected : Text) (admin : Admin) (session : Session) (audit : AuditLog) (w v : World)
      → Returns (bootstrap_statements env expected admin session audit env.now) w tt v
      → Created env admin session w v
  statements-Created expected admin session audit w v h =
      let inserting = insertions admin session audit in
      let with_state : BootstrapState → M (Unit {0}) = λ state.
        refuse_if (is_consumed state) bootstrap_completed
        >> (refuse_if (not (text_eq state.token_hash expected)) invalid_bootstrap_token
            >> inserting) in
      let from_row : M (Unit {0}) = read_world env (λ (x : World). x.bootstrap) >>= λ row.
      require row bootstrap_unavailable >>= with_state in
      let single =
        refuse_if-ok (ltb 1 (length w.admins)) multiple_administrators
          (refuse_if (not (length w.admins == 0)) bootstrap_completed >> from_row) w v tt h in
      let empty =
        refuse_if-ok (not (length w.admins == 0)) bootstrap_completed from_row w v tt single.1 in
      let row = bind-ok (require w.bootstrap bootstrap_unavailable) with_state w v tt empty.1 in
      let unused =
        refuse_if-ok (is_consumed row.0) bootstrap_completed
          (refuse_if (not (text_eq row.0.token_hash expected)) invalid_bootstrap_token >> inserting)
          row.1.0 v tt row.1.1.1 in
      let matching =
        refuse_if-ok (not (text_eq row.0.token_hash expected)) invalid_bootstrap_token inserting
          row.1.0 v tt unused.1 in
      Created-from admin session w row.1.0 v (no_rows w.admins empty.0)
        (require-ok w.bootstrap bootstrap_unavailable w row.1.0 row.0 row.1.1.0).1
        (insertions-ok admin session audit row.1.0 v matching.1)

  pub undone-ok :
      (body : M (Unit {0})) (w v : World)
      → Returns (λ x. undone env x (body x)) w tt v
      → Returns body w tt v
  undone-ok body w v h = go (body w) h
    where
      go : (r : Result (Unit {0}) × World) → undone env w r ≡ (ok tt, v) → r ≡ (ok tt, v)
      go (ok x, u) k = k
      go (err e, u) k = cc

  -- The transaction that creates the administrator.
  pub complete_bootstrap-Created :
      (expected : Text) (admin : Admin) (session : Session) (audit : AuditLog) (w v : World)
      → Returns (complete_bootstrap env expected admin session audit env.now) w tt v
      → Created env admin session w v
  unfolding complete_bootstrap
  complete_bootstrap-Created expected admin session audit w v h =
      let body = bootstrap_statements env expected admin session audit env.now in
      let given =
        refuse_if-ok (is_empty expected) invalid_bootstrap_token (transaction env body) w v tt h in
      let ran = call-ok env (λ x. undone env x (body x)) w v tt given.1 in
      statements-Created expected admin session audit (counted w) v
        (undone-ok body (counted w) v ran)
