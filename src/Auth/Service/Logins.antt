-- ===== src/Auth/Service/Logins.antt =====
-- Logins that succeed (internal/auth/service.go).
use m_ui.Prelude.{
  ℕ, ◌≡◌, refl, ◌∙◌, sym, ap, subst, Bool, true, false, not, Option, none, some, ◌∷◌, arith, Text,
  trim_space, Key, ◌==◌,
}
use m_ui.Auth.Limiter.{retry_after}
use m_ui.Auth.Accounts.{
  Admin, Env, LimitKey, World, not_found, rate_limited, M, ◌>>=◌, ◌>>◌, pure, require,
}
use m_ui.Auth.Store.{find, has_username, draw, create_session, delete_session, admin_by_username}
use m_ui.Auth.Service.{
  found, Credentials, write_audit, clear_failures, login_refused, new_session, or_clean_up,
  open_session, verified_login, known_login, login_limit_key, login,
}
use m_ui.Auth.Service.Runs.{
  Returns, bind-ok, refuse_if-ok, require-ok, call-ok, found-ok, ok-injective, counted,
}
use m_ui.Auth.Service.Effects.{
  SameAccounts-trans, draw-ok, create_session-ok, write_audit-ok, or_clean_up-ok,
}

no_wait : (n : ℕ) → not (n == 0) ≡ false → n ≡ 0
no_wait n h = ground arith

module _ (env : Env) ⦃key : Key LimitKey⦄ where
  abbrev signed_in : LimitKey → Text → Admin → Text → Text → Text → M Credentials
  signed_in k agent admin session_token csrf_token id =
      let session = new_session env id admin.id session_token csrf_token agent in
      create_session env session
      >> (or_clean_up env
            (write_audit env admin.id "auth.login" "session" id "success"
              "Administrator signed in.")
            (delete_session env id)
          >> (clear_failures env k
              >> pure (record {
                admin = admin;
                session = session;
                session_token = session_token;
                csrf_token = csrf_token;
              })))

  signed_in-ok :
      (k : LimitKey) (agent : Text) (admin : Admin) (session_token csrf_token id : Text)
      (w v : World) (c : Credentials)
      → Returns (signed_in k agent admin session_token csrf_token id) w c v
      → (c.admin ≡ admin) × (v.sessions ≡ c.session ∷ w.sessions)
  signed_in-ok k agent admin session_token csrf_token id w v c h =
      let session = new_session env id admin.id session_token csrf_token agent in
      let out : Credentials = record {
        admin = admin;
        session = session;
        session_token = session_token;
        csrf_token = csrf_token;
      } in
      let audit =
        write_audit env admin.id "auth.login" "session" id "success" "Administrator signed in." in
      let last = clear_failures env k >> pure out in
      let created =
        bind-ok (create_session env session)
          (λ _. or_clean_up env audit (delete_session env id) >> last) w v c h in
      let audited =
        bind-ok (or_clean_up env audit (delete_session env id)) (λ _. last) created.1.0 v c
          created.1.1.1 in
      let done_audit =
        write_audit-ok env admin.id "auth.login" "session" id "success" "Administrator signed in."
          created.1.0 audited.1.0 audited.0
          (or_clean_up-ok env audit (delete_session env id) created.1.0 audited.1.0 audited.0
            audited.1.1.0) in
      let inserted = create_session-ok env session w created.1.0 created.0 created.1.1.0 in
      let same : out ≡ c = (ok-injective (ap (λ r. r.0) audited.1.1.1)) in
      let kept : audited.1.0.sessions ≡ v.sessions = ap (λ r. r.1.sessions) audited.1.1.1 in
      (
        sym (ap (λ (x : Credentials). x.admin) same),
        sym kept
            ∙ (done_audit.1.0
                ∙ (inserted.1.0 ∙ ap (λ (x : Credentials). x.session ∷ w.sessions) same)),
      )

  open_session-ok :
      (k : LimitKey) (agent : Text) (admin : Admin) (w v : World) (c : Credentials)
      → Returns (open_session env k agent admin) w c v
      → (c.admin ≡ admin) × (v.sessions ≡ c.session ∷ w.sessions)
  unfolding open_session
  open_session-ok k agent admin w v c h =
      let rest : Text → Text → Text → M Credentials = signed_in k agent admin in
      let first =
        bind-ok (draw env) (λ s. draw env >>= λ t. draw env >>= λ id. rest s t id) w v c h in
      let second =
        bind-ok (draw env) (λ t. draw env >>= λ id. rest first.0 t id) first.1.0 v c first.1.1.1 in
      let third = bind-ok (draw env) (λ id. rest first.0 second.0 id) second.1.0 v c second.1.1.1 in
      let signed = signed_in-ok k agent admin first.0 second.0 third.0 third.1.0 v c third.1.1.1 in
      let drawn =
        SameAccounts-trans w second.1.0 third.1.0
          (SameAccounts-trans w first.1.0 second.1.0 (draw-ok env w first.1.0 first.0 first.1.1.0)
            (draw-ok env first.1.0 second.1.0 second.0 second.1.1.0))
          (draw-ok env second.1.0 third.1.0 third.0 third.1.1.0) in
      (signed.0, signed.1 ∙ ap (λ ss. c.session ∷ ss) drawn.1.0)

  login_refused-ok :
      (k : LimitKey) (w v : World) (c : Credentials) → Returns (login_refused env k) w c v → ⊥
  unfolding login_refused
  login_refused-ok k w v c h = cc

  -- A known administrator whose password verified.
  known_login-ok :
      (k : LimitKey) (password agent : Text) (o : Option Admin) (w v : World) (c : Credentials)
      → Returns (known_login env k password agent o) w c v
      → (o ≡ some c.admin)
        × ((env.verify_password password c.admin.password_hash ≡ some true)
            × (v.sessions ≡ c.session ∷ w.sessions))
  known_login-ok k password agent none w v c h = absurd (login_refused-ok k w v c h)
  known_login-ok k password agent (some admin) w v c h =
      by_verdict (env.verify_password password admin.password_hash) refl h
    where
      by_verdict :
          (verdict : Option Bool)
          → env.verify_password password admin.password_hash ≡ verdict
          → Returns (verified_login env k agent admin verdict) w c v
          → (some admin ≡ some c.admin)
            × ((env.verify_password password c.admin.password_hash ≡ some true)
                × (v.sessions ≡ c.session ∷ w.sessions))
      by_verdict none e r = cc
      by_verdict (some false) e r = absurd (login_refused-ok k w v c r)
      by_verdict (some true) e r =
          let opened = open_session-ok k agent admin w v c r in
          (
            ap some (sym opened.0),
            (
              subst (λ (a : Admin). env.verify_password password a.password_hash ≡ some true)
                  (sym opened.0) e,
              opened.1,
            ),
          )

  lookup-ok :
      (name : Text) (w u : World) (a : Admin)
      → Returns (found (admin_by_username env name)) w (some a) u
      → (find (has_username name) w.admins ≡ some a) × (u.sessions ≡ w.sessions)
  unfolding admin_by_username
  lookup-ok name w u a h =
      let body =
        call-ok env (λ (x : World). require (find (has_username name) x.admins) not_found x) w u a
          (found-ok (admin_by_username env name) w u a h) in
      let row = require-ok (find (has_username name) w.admins) not_found (counted w) u a body in
      (row.0, sym (ap (λ (x : World). x.sessions) row.1))

  -- Whatever the calls answer: if `Login` returns credentials, the limiter had no wait for the address and
  -- the name, the administrator is the stored one of that name, the password verifies against its hash,
  -- and the tables have the new session besides those of before.
  pub login-known :
      (username password source agent : Text) (w v : World) (c : Credentials)
      → Returns (login env username password source agent) w c v
      → (retry_after w.limiter (login_limit_key env source (trim_space username)) env.now ≡ 0)
        × ((find (has_username (trim_space username)) w.admins ≡ some c.admin)
            × ((env.verify_password password c.admin.password_hash ≡ some true)
                × (v.sessions ≡ c.session ∷ w.sessions)))
  unfolding login
  login-known username password source agent w v c h =
      let name = trim_space username in
      let k = login_limit_key env source name in
      let retry = retry_after w.limiter k env.now in
      let rest = known_login env k password agent in
      let limited =
        refuse_if-ok (not (retry == 0)) (rate_limited retry)
          (found (admin_by_username env name) >>= rest) w v c h in
      let run = bind-ok (found (admin_by_username env name)) rest w v c limited.1 in
      let known = known_login-ok k password agent run.0 run.1.0 v c run.1.1.1 in
      let row =
        lookup-ok name w run.1.0 c.admin (
          subst (λ o. Returns (found (admin_by_username env name)) w o run.1.0) known.0
            run.1.1.0) in
      (no_wait retry limited.0, (row.0, (known.1.0, known.1.1 ∙ ap (λ ss. c.session ∷ ss) row.1)))
