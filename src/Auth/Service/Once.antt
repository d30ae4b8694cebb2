-- ===== src/Auth/Service/Once.antt =====
-- The first administrator is created once (internal/auth/service.go).
use m_ui.Prelude.{
  ◌+◌, ◌≡◌, refl, ◌∙◌, sym, ap, subst, Bool, true, false, not, ◌∷◌, Text, Key, leb, ◌==◌,
  if◌then◌else◌,
}
use m_ui.Auth.Limiter.{retry_after}
use m_ui.Auth.Accounts.{
  Admin, Session, AuditLog, BootstrapState, Env, LimitKey, World, AuthError, bootstrap_completed,
  invalid_username, password_policy, rate_limited, Result, ok, err, M, ◌>>=◌, ◌>>◌, pure, refuse_if,
}
use m_ui.Auth.Store.{draw, bootstrap_state, complete_bootstrap}
use m_ui.Auth.Service.{
  is_valid_username, is_valid_password, Credentials, new_session, hash_new, or_missing, completing,
}
use m_ui.Auth.Service.Setup.{
  one_second, setup_key, check_value, clear_setup_failures, slot_returned, in_slot, setup_audit,
  first_admin, complete, setup_in_slot, complete_setup,
}
use m_ui.Auth.Service.Runs.{Returns, bind-ok, refuse_if-ok, or_missing-ok, ok-injective}
use m_ui.Auth.Service.Effects.{SameAccounts, draw-ok}
use m_ui.Auth.Service.Passwords.{hash_new-ok}
use m_ui.Auth.Service.Bootstrap.{Created, bootstrap_state-ok, complete_bootstrap-Created}

Created-after :
    (env : Env) (admin : Admin) (session : Session) (w u v : World)
    → SameAccounts w u
    → Created env admin session u v
    → Created env admin session w v
Created-after env admin session w u v same c =
    (sym same.0 ∙ c.0, (c.1.0, (c.1.1.0 ∙ ap (λ ss. session ∷ ss) same.1.0, c.1.1.1)))

Created-before :
    (env : Env) (admin : Admin) (session : Session) (w u v : World)
    → Created env admin session w u
    → SameAccounts u v
    → Created env admin session w v
Created-before env admin session w u v c same =
    (c.0, (same.0 ∙ c.1.0, (same.1.0 ∙ c.1.1.0, same.1.1 ∙ c.1.1.1)))

-- The administrator has the name, and the hash of the password with some salt.
abbrev pub HasPassword : Env → Text → Text → Admin → Type 0
HasPassword env username password a =
    (a.username ≡ username) × ((salt : Text) × (a.password_hash ≡ env.hash_password password salt))

-- With one more slot in use.
abbrev in_use : World → World
in_use w = record w { setup_slots = w.setup_slots + 1 }

module _ (env : Env) ⦃key : Key LimitKey⦄ where
  check_value-ok :
      (b : Bool) (k : LimitKey) (e : AuthError) (m : M Credentials) (w v : World) (c : Credentials)
      → Returns (check_value env b k e >>= λ _. m) w c v
      → (b ≡ true) × Returns m w c v
  check_value-ok true k e m w v c h = (refl, h)
  check_value-ok false k e m w v c h = cc

  complete-ok :
      (token_hash : Text) (admin : Admin) (session : Session) (audit : AuditLog) (w v : World)
      → Returns (complete env token_hash admin session audit) w tt v
      → Created env admin session w v
  complete-ok token_hash admin session audit w v h =
      complete_bootstrap-Created env token_hash admin session audit w v
        (go (complete_bootstrap env token_hash admin session audit env.now w) h)
    where
      go : (r : Result (Unit {0}) × World) → completing r ≡ (ok tt, v) → r ≡ (ok tt, v)
      go (ok x, u) k = k
      go (err e, u) k = cc

  -- The administrator has the name and the hash.
  abbrev Named : Text → Text → Credentials → Type 0
  Named hash username c = (c.admin.username ≡ username) × (c.admin.password_hash ≡ hash)

  abbrev finished :
      Text → LimitKey → Text → Text → Text → Text → Text → Text → Text → Text → M Credentials
  finished token_hash k username agent hash session_token csrf_token admin_id session_id audit_id =
      let admin = first_admin env admin_id username hash in
      let session = new_session env session_id admin_id session_token csrf_token agent in
      complete env token_hash admin session (setup_audit env audit_id admin_id)
      >> (clear_setup_failures env k
          >> pure (record {
            admin = admin;
            session = session;
            session_token = session_token;
            csrf_token = csrf_token;
          }))

  finished-Created :
      (token_hash : Text) (k : LimitKey)
      (username agent hash session_token csrf_token admin_id session_id audit_id : Text)
      (w v : World) (c : Credentials)
      → Returns
          (finished token_hash k username agent hash session_token csrf_token admin_id session_id
            audit_id)
          w
          c
          v
      → Named hash username c × Created env c.admin c.session w v
  finished-Created token_hash k username agent hash session_token csrf_token admin_id session_id
        audit_id w v c h =
      let admin = first_admin env admin_id username hash in
      let session = new_session env session_id admin_id session_token csrf_token agent in
      let out : Credentials = record {
        admin = admin;
        session = session;
        session_token = session_token;
        csrf_token = csrf_token;
      } in
      let last : M Credentials = clear_setup_failures env k >> pure out in
      let run =
        bind-ok (complete env token_hash admin session (setup_audit env audit_id admin_id))
          (λ _. last) w v c h in
      let created =
        complete-ok token_hash admin session (setup_audit env audit_id admin_id) w run.1.0
          run.1.1.0 in
      let same : out ≡ c = ok-injective (ap (λ r. r.0) run.1.1.1) in
      let kept : Created env admin session w v = (
        created.0,
        (
          sym (ap (λ r. r.1.admins) run.1.1.1) ∙ created.1.0,
          (
            sym (ap (λ r. r.1.sessions) run.1.1.1) ∙ created.1.1.0,
            sym (ap (λ r. r.1.bootstrap) run.1.1.1) ∙ created.1.1.1,
          ),
        ),
      ) in
      subst (λ (x : Credentials). Named hash username x × Created env x.admin x.session w v) same
        ((refl, refl), kept)

  -- Values drawn one after the other leave the accounts as they are.
  drawing :
      (P : Type 0) (f : Text → M Credentials) (w v : World) (c : Credentials)
      → Returns (draw env >>= f) w c v
      → ((t : Text) (u : World) → Returns (f t) u c v → P × Created env c.admin c.session u v)
      → P × Created env c.admin c.session w v
  drawing P f w v c h next =
      let run = bind-ok (draw env) f w v c h in
      let after = next run.0 run.1.0 run.1.1.1 in
      (
        after.0,
        Created-after env c.admin c.session w run.1.0 v (draw-ok env w run.1.0 run.0 run.1.1.0)
            after.1,
      )

  setup_in_slot-Created :
      (state : BootstrapState) (k : LimitKey) (username password agent : Text) (w v : World)
      (c : Credentials)
      → Returns (setup_in_slot env state k username password agent) w c v
      → (is_valid_username username ≡ true)
        × ((is_valid_password password ≡ true)
            × HasPassword env username password c.admin
            × Created env c.admin c.session w v)
  unfolding setup_in_slot
  setup_in_slot-Created state k username password agent w v c h =
      let f5 : Text → Text → Text → Text → Text → Text → M Credentials =
        finished state.token_hash k username agent in
      let f4 : Text → Text → Text → Text → Text → M Credentials =
        λ a b d e g. draw env >>= f5 a b d e g in
      let f3 : Text → Text → Text → Text → M Credentials = λ a b d e. draw env >>= f4 a b d e in
      let f2 : Text → Text → Text → M Credentials = λ a b d. draw env >>= f3 a b d in
      let f1 : Text → Text → M Credentials = λ a b. draw env >>= f2 a b in
      let f0 : Text → M Credentials = λ a. draw env >>= f1 a in
      let hashing : M Credentials = hash_new env password >>= f0 in
      let one =
        check_value-ok (is_valid_username username) k invalid_username
          (check_value env (is_valid_password password) k password_policy >> hashing) w v c h in
      let two = check_value-ok (is_valid_password password) k password_policy hashing w v c one.1 in
      let run = bind-ok (hash_new env password) f0 w v c two.1 in
      let hash = run.0 in
      let named : Type 0 = Named hash username c in
      let new_hash = hash_new-ok env password hash w run.1.0 run.1.1.0 in
      let created = drawing named (f1 hash) run.1.0 v c run.1.1.1 (λ a u1 r1.
        drawing named (f2 hash a) u1 v c r1 (λ b u2 r2.
          drawing named (f3 hash a b) u2 v c r2 (λ d u3 r3.
            drawing named (f4 hash a b d) u3 v c r3 (λ e u4 r4.
              drawing named (f5 hash a b d e) u4 v c r4 (λ g u5 r5.
                finished-Created state.token_hash k username agent hash a b d e g u5 v c r5))))) in
      (
        one.0,
        (
          two.0,
          (created.0.0, (new_hash.1.0, created.0.1 ∙ new_hash.1.1)),
          Created-after env c.admin c.session w run.1.0 v new_hash.0 created.1,
        ),
      )

  -- A slot changes no account.
  in_slot-ok :
      (m : M Credentials) (w v : World) (c : Credentials)
      → Returns (in_slot env m) w c v
      → (u : World) × (Returns m (in_use w) c u × SameAccounts u v)
  in_slot-ok m w v c h = go (leb 2 w.setup_slots) (m (in_use w)) h
    where
      go :
          (b : Bool) (r : Result Credentials × World)
          → ◌≡◌ {A = Result Credentials × World}
              (if b then (err (rate_limited one_second), w) else slot_returned env r)
              (ok c, v)
          → (u : World) × ((r ≡ (ok c, u)) × SameAccounts u v)
      go true r k = cc
      go false (ok x, u) k =
          let same = ok-injective (ap (λ r. r.0) k) in
          (
            u,
            (
              ap (λ y. (ok y, u)) same,
              subst (SameAccounts u) (ap (λ r. r.1) k) (refl, (refl, refl)),
            ),
          )
      go false (err e, u) k = cc

  -- Whatever the calls answer: if `CompleteSetup` returns credentials, there was no administrator, there
  -- is exactly the returned one now, with the given name, which is valid, and the hash with some salt of
  -- the given password, which satisfies the policy; the returned session is stored besides those of before, and the bootstrap is consumed.
  pub complete_setup-Created :
      (username password source agent : Text) (w v : World) (c : Credentials)
      → Returns (complete_setup env username password source agent) w c v
      → (is_valid_username username ≡ true)
        × ((is_valid_password password ≡ true)
            × HasPassword env username password c.admin
            × Created env c.admin c.session w v)
  unfolding complete_setup
  complete_setup-Created username password source agent w v c h =
      let k = setup_key source in
      let retry = retry_after w.setup_limiter k env.now in
      let after_state : Bool × BootstrapState → M Credentials = λ r.
        refuse_if (not r.0) bootstrap_completed
        >> in_slot env (setup_in_slot env r.1 k username password agent) in
      let state = or_missing (bootstrap_state env) bootstrap_completed in
      let limited =
        refuse_if-ok (not (retry == 0)) (rate_limited retry) (state >>= after_state) w v c h in
      let run = bind-ok state after_state w v c limited.1 in
      let setup = setup_in_slot env run.0.1 k username password agent in
      let needed =
        refuse_if-ok (not run.0.0) bootstrap_completed (in_slot env setup) run.1.0 v c run.1.1.1 in
      let slot = in_slot-ok setup run.1.0 v c needed.1 in
      let created =
        setup_in_slot-Created run.0.1 k username password agent (in_use run.1.0) slot.0 c
          slot.1.0 in
      let same =
        bootstrap_state-ok env w run.1.0 run.0
          (or_missing-ok (bootstrap_state env) bootstrap_completed w run.1.0 run.0 run.1.1.0) in
      (
        created.0,
        (
          created.1.0,
          created.1.1,
          Created-after env c.admin c.session w run.1.0 v same
              (Created-before env c.admin c.session run.1.0 slot.0 v created.1.2 slot.1.1),
        ),
      )
