-- ===== src/Auth/Service/Sessions.antt =====
-- Whom the authentication service lets in (internal/auth/service.go).
use m_ui.Prelude.{
  ◌-◌, ◌<◌, ◌≡◌, refl, ◌∙◌, sym, ap, subst, Bool, true, false, ◌⊎◌, inl, inr, Option, none, some,
  List, [], ◌∷◌, arith, Text, text_eq, leb, is_empty, Bool-cases, Key,
}
use m_ui.Auth.Accounts.{
  Admin, Session, AuthSession, Env, LimitKey, World, invalid_credentials, not_found, ◌>>=◌, ◌>>◌,
  pure, require,
}
use m_ui.Auth.Store.{
  find, has_id, is_live, joined, join_admin, auth_session_by_token_hash, touch_session,
}
use m_ui.Auth.Service.{or_missing, refresh, authenticate, seen_now, five_minutes}
use m_ui.Auth.Service.Runs.{
  Returns, bind-ok, refuse_if-ok, pure-ok, require-ok, call-ok, or_missing-ok, some-injective,
  counted,
}

find-some : {A : Type 0} (p : A → Bool) (xs : List A) (a : A) → find p xs ≡ some a → p a ≡ true
find-some p [] a h = cc
find-some p (x ∷ xs) a h = elim (Bool-cases (p x)) [
  | inl e ↦
      let hit : find p (x ∷ xs) ≡ some x = rw e refl in
      subst (λ y. p y ≡ true) (some-injective (sym hit ∙ h)) e
  | inr e ↦ let miss : find p (x ∷ xs) ≡ find p xs = rw e refl in find-some p xs a (sym miss ∙ h)
]

joined-some :
    (s : Session) (o : Option Admin) (a : AuthSession)
    → joined s o ≡ some a
    → (s ≡ a.session) × (o ≡ some a.admin)
joined-some s none a h = cc
joined-some s (some x) a h =
    let same = some-injective h in
    (ap (λ (y : AuthSession). y.session) same, ap (λ (y : AuthSession). some y.admin) same)

join_admin-some :
    (admins : List Admin) (o : Option Session) (a : AuthSession)
    → join_admin admins o ≡ some a
    → (o ≡ some a.session) × (find (has_id a.session.admin_user_id) admins ≡ some a.admin)
join_admin-some admins none a h = cc
join_admin-some admins (some s) a h =
    let parts = joined-some s (find (has_id s.admin_user_id) admins) a h in
    (
      ap some parts.0,
      subst (λ (t : Session). find (has_id t.admin_user_id) admins ≡ some a.admin) parts.0 parts.1,
    )

-- The session of a token as the tables have it: it has not expired, its stored hash is the token's, and
-- its administrator exists.
abbrev pub Stored : Env → World → Text → AuthSession → Type 0
Stored env w token a =
    (find (is_live (env.hash_token token) env.now) w.sessions ≡ some a.session)
    × ((text_eq a.session.session_token_hash (env.hash_token token) ≡ true)
        × ((env.now < a.session.expires_at)
            × (find (has_id a.session.admin_user_id) w.admins ≡ some a.admin)))

module _ (env : Env) ⦃key : Key LimitKey⦄ where
  refresh-ok :
      (a b : AuthSession) (w v : World)
      → Returns (refresh env a) w b v
      → (b ≡ a) ⊎ (b ≡ seen_now env a)
  unfolding refresh
  refresh-ok a b w v h = elim (Bool-cases (leb five_minutes (env.now - a.session.last_seen_at))) [
    | inl e ↦
        let touching : refresh env a w
            ≡ (touch_session env a.session.id env.now >> pure (seen_now env a)) w =
          rw e refl in
        let run =
          bind-ok (touch_session env a.session.id env.now) (λ _. pure (seen_now env a)) w v b
            (sym touching ∙ h) in
        inr (sym (pure-ok (seen_now env a) run.1.0 v b run.1.1.1).0)
    | inr e ↦
        let keeping : refresh env a w ≡ pure a w = rw e refl in
        inl (sym (pure-ok a w v b (sym keeping ∙ h)).0)
  ]

  session-Stored :
      (token : Text) (a : AuthSession) (w v : World)
      → Returns (auth_session_by_token_hash env (env.hash_token token) env.now) w a v
      → Stored env w token a
  unfolding auth_session_by_token_hash
  session-Stored token a w v h =
      let live = find (is_live (env.hash_token token) env.now) w.sessions in
      let body =
        call-ok env
          (λ (u : World).
            require (join_admin u.admins (find (is_live (env.hash_token token) env.now) u.sessions))
              not_found u)
          w v a h in
      let row = require-ok (join_admin w.admins live) not_found (counted w) v a body in
      let parts = join_admin-some w.admins live a row.0 in
      let test = find-some (is_live (env.hash_token token) env.now) w.sessions a.session parts.0 in
      (parts.0, (ground arith, (ground arith, parts.1)))

  -- Whatever the calls answer: if `Authenticate` returns a session, the token is not empty, a stored
  -- session that has not expired has the token's hash, its administrator exists, and the session that
  -- is returned is the stored one, as it was or as seen now.
  pub authenticate-Stored :
      (token : Text) (b : AuthSession) (w v : World)
      → Returns (authenticate env token) w b v
      → (is_empty token ≡ false)
        × ((a : AuthSession) × (Stored env w token a × ((b ≡ a) ⊎ (b ≡ seen_now env a))))
  unfolding authenticate
  authenticate-Stored token b w v h =
      let lookup_session =
        or_missing (auth_session_by_token_hash env (env.hash_token token) env.now)
          invalid_credentials in
      let checked =
        refuse_if-ok (is_empty token) invalid_credentials (lookup_session >>= refresh env) w v b
          h in
      let run = bind-ok lookup_session (refresh env) w v b checked.1 in
      let a = run.0 in
      let stored = session-Stored token a w run.1.0 (
        or_missing-ok (auth_session_by_token_hash env (env.hash_token token) env.now)
          invalid_credentials w run.1.0 a run.1.1.0) in
      (checked.0, (a, (stored, refresh-ok a b run.1.0 v run.1.1.1)))
