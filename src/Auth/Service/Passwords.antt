-- ===== src/Auth/Service/Passwords.antt =====
-- Password changes that succeed (internal/auth/service.go).
use m_ui.Prelude.{
  ◌≡◌, refl, ◌∙◌, sym, ap, subst, Bool, true, false, not, Option, none, some, List, [], ◌∷◌, arith,
  Text, map, keep, length, Key, if◌then◌else◌, ◌==◌, Bool-cases, inl, inr,
}
use m_ui.Auth.Accounts.{
  AuthSession, Env, LimitKey, World, not_found, password_policy, Result, ok, err, M, ◌>>=◌, ◌>>◌,
  pure,
}
use m_ui.Auth.Store.{any, has_id, is_of, with_password, set_password, draw, update_admin_password}
use m_ui.Auth.Service.{is_valid_password, write_audit, hash_new, verified_change, change_password}
use m_ui.Auth.Service.Runs.{Returns, bind-ok, refuse_if-ok, pure-ok, call-ok, counted}
use m_ui.Auth.Service.Effects.{SameAccounts, draw-ok, write_audit-ok}

any-keep : {A : Type 0} (p : A → Bool) (xs : List A) → any p (keep (λ x. not (p x)) xs) ≡ false
any-keep p [] = refl
any-keep p (x ∷ xs) = elim (Bool-cases (p x)) [
  | inl e ↦ rw e (any-keep p xs)
  | inr e ↦ rw e (rw e (any-keep p xs))
]

-- A password that was changed: one stored administrator has the id, the accounts have the new hash
-- there with some salt, and no session of the administrator is left.
abbrev pub Changed : Env → Text → Text → World → World → Type 0
Changed env id password w v =
    (length (keep (has_id id) w.admins) ≡ 1)
    × (any (is_of id) v.sessions ≡ false)
    × ((salt : Text) × (v.admins
          ≡ map (with_password id (env.hash_password password salt) env.now) w.admins))

module _ (env : Env) ⦃key : Key LimitKey⦄ where
  update-ok :
      (id hash : Text) (w u : World) (t : Unit {0})
      → Returns (update_admin_password env id hash env.now) w t u
      → (length (keep (has_id id) w.admins) ≡ 1)
        × ((any (is_of id) u.sessions ≡ false)
            × (u.admins ≡ map (with_password id hash env.now) w.admins))
  unfolding update_admin_password
  update-ok id hash w u t h =
      let body =
        call-ok env
          (λ (x : World).
            if length (keep (has_id id) x.admins) == 1
            then (ok tt, set_password env id hash env.now x)
            else (err not_found, x))
          w u t h in
      go (length (keep (has_id id) w.admins) == 1) (λ e. ground arith) body
    where
      go :
          (b : Bool)
          → (b ≡ true → length (keep (has_id id) w.admins) ≡ 1)
          → ◌≡◌ {A = Result (Unit {0}) × World}
              (if b
                then (ok tt, set_password env id hash env.now (counted w))
                else (err not_found, counted w))
              (ok t, u)
          → (length (keep (has_id id) w.admins) ≡ 1)
            × ((any (is_of id) u.sessions ≡ false)
                × (u.admins ≡ map (with_password id hash env.now) w.admins))
      go true one h = (
        one refl,
        subst
            (λ (x : World).
              (any (is_of id) x.sessions ≡ false)
              × (x.admins ≡ map (with_password id hash env.now) w.admins))
            (ap (λ r. r.1) h) (any-keep (is_of id) w.sessions, refl),
      )
      go false one h = cc

  pub hash_new-ok :
      (password hash : Text) (w u : World)
      → Returns (hash_new env password) w hash u
      → SameAccounts w u × ((salt : Text) × (hash ≡ env.hash_password password salt))
  unfolding hash_new
  hash_new-ok password hash w u h =
      let run = bind-ok (draw env) (λ salt. pure (env.hash_password password salt)) w u hash h in
      let last = pure-ok (env.hash_password password run.0) run.1.0 u hash run.1.1.1 in
      (subst (SameAccounts w) last.1 (draw-ok env w run.1.0 run.0 run.1.1.0), (run.0, sym last.0))

  -- Whatever the calls answer: if `ChangePassword` succeeds, the current password was verified and the
  -- new one satisfies the policy, exactly one stored administrator has the id and gets the new hash, the
  -- others stay, and none of the administrator's sessions is left.
  pub change_password-Changed :
      (a : AuthSession) (current_password new_password : Text) (w v : World)
      → Returns (change_password env a current_password new_password) w tt v
      → (env.verify_password current_password a.admin.password_hash ≡ some true)
        × ((is_valid_password new_password ≡ true) × Changed env a.admin.id new_password w v)
  unfolding change_password
  change_password-Changed a current_password new_password w v h =
      go (env.verify_password current_password a.admin.password_hash) refl h
    where
      id : Text
      id = a.admin.id

      audit : M (Unit {0})
      audit =
          write_audit env id "auth.change_password" "administrator" id "success"
            "Administrator changed the password."

      go :
          (verdict : Option Bool)
          → env.verify_password current_password a.admin.password_hash ≡ verdict
          → Returns (verified_change env a new_password verdict) w tt v
          → (env.verify_password current_password a.admin.password_hash ≡ some true)
            × ((is_valid_password new_password ≡ true) × Changed env id new_password w v)
      go none e r = cc
      go (some false) e r = cc
      go (some true) e r =
          let after : Text → M (Unit {0}) =
            λ hash. update_admin_password env id hash env.now >> audit in
          let policy =
            refuse_if-ok (not (is_valid_password new_password)) password_policy
              (hash_new env new_password >>= after) w v tt r in
          let hashed = bind-ok (hash_new env new_password) after w v tt policy.1 in
          let updated =
            bind-ok (update_admin_password env id hashed.0 env.now) (λ _. audit) hashed.1.0 v tt
              hashed.1.1.1 in
          let new_hash = hash_new-ok new_password hashed.0 w hashed.1.0 hashed.1.1.0 in
          let update = update-ok id hashed.0 hashed.1.0 updated.1.0 updated.0 updated.1.1.0 in
          let audited =
            write_audit-ok env id "auth.change_password" "administrator" id "success"
              "Administrator changed the password." updated.1.0 v tt updated.1.1.1 in
          let valid = policy.0 in
          (
            e,
            (
              ground arith,
              (
                ap (λ xs. length (keep (has_id id) xs)) (sym new_hash.0.0) ∙ update.0,
                ap (any (is_of id)) audited.1.0 ∙ update.1.0,
                (
                  new_hash.1.0,
                  audited.0
                      ∙ (update.1.1
                          ∙ (ap (λ h. map (with_password id h env.now) hashed.1.0.admins)
                                new_hash.1.1
                              ∙ ap
                                  (map (
                                    with_password id (env.hash_password new_password new_hash.1.0)
                                      env.now))
                                  new_hash.0.0)),
                ),
              ),
            ),
          )
