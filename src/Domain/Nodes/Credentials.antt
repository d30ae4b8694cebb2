-- ===== src/Domain/Nodes/Credentials.antt =====
-- The users of a node that passes its check (internal/domain/validate.go).
use Prim.Native.String.{String}
use m_ui.Prelude.{
  ℕ, ◌≡◌, refl, subst, Bool, true, false, List, [], ◌∷◌, All, Text, one_of, if◌then◌else◌,
}
use m_ui.Domain.Model.{NodeUser, Node}
use m_ui.Domain.Checks.{Problems, refuse, join, Library}
use m_ui.Domain.Users.{validate_node_user, credential_of}
use m_ui.Domain.Nodes.{
  is_clear, user_checks, seen_credentials, user_problems, node_parts, validate_node,
}
use m_ui.Domain.Distinct.{
  Passed, join-Passed, refuse-nil, left_nil, right_nil, Pairs, Fresh, Fresh-Pairs, Unlike,
}
use m_ui.Domain.Nodes.Valid.{parts}

clear_check :
    (problems : Problems) (known : Bool) (message : String)
    → (if is_clear problems then refuse known message else problems) ≡ []
    → (is_clear problems ≡ true) × (known ≡ false)
clear_check [] known message h = (refl, refuse-nil known message h)
clear_check (p ∷ ps) known message h = cc

abbrev pub user_id : NodeUser → Text
user_id user = user.id

abbrev pub user_name : NodeUser → Text
user_name user = user.name

-- What `validateNodeUser` returns for the identity of a user's credential.
abbrev pub credential_id : Library → Node → NodeUser → Text
credential_id lib n user = (credential_of lib n.protocol user).0

module _ (lib : Library) (n : Node) where
  first_user :
      (ids names credentials : List Text) (user : NodeUser) (users : List NodeUser)
      → user_problems lib n ids names credentials (user ∷ users) ≡ []
      → All Passed (user_checks lib n ids names credentials user)
        × (user_problems lib n
              (user.id ∷ ids)
              (user.name ∷ names)
              (seen_credentials lib n credentials user)
              users
            ≡ [])
  unfolding user_problems
  first_user ids names credentials user users h =
      let checks = user_checks lib n ids names credentials user in
      let others =
        user_problems lib n (user.id ∷ ids) (user.name ∷ names)
          (seen_credentials lib n credentials user) users in
      (join-Passed checks (left_nil (join checks) others h), right_nil (join checks) others h)

  user_credential :
      (ids names credentials : List Text) (user : NodeUser)
      → All Passed (user_checks lib n ids names credentials user)
      → (one_of (credential_id lib n user) credentials ≡ false)
        × (seen_credentials lib n credentials user ≡ credential_id lib n user ∷ credentials)
  unfolding user_checks seen_credentials validate_node_user
  user_credential ids names credentials user h =
      let checked = validate_node_user lib user n in
      let clear =
        clear_check checked.1 (one_of checked.0 credentials) "%s credential is duplicated"
          h.1.1.0 in
      (clear.1, rw clear.0 (rw clear.1 refl))

  user_problems-Fresh :
      (ids names credentials : List Text) (users : List NodeUser)
      → user_problems lib n ids names credentials users ≡ []
      → Fresh user_id ids users
        × (Fresh user_name names users × Fresh (credential_id lib n) credentials users)
  unfolding user_checks
  user_problems-Fresh ids names credentials [] h = (tt, (tt, tt))
  user_problems-Fresh ids names credentials (user ∷ users) h =
      let first = first_user ids names credentials user users h in
      let credential = user_credential ids names credentials user first.0 in
      let rest =
        user_problems-Fresh (user.id ∷ ids) (user.name ∷ names)
          (seen_credentials lib n credentials user) users first.1 in
      (
        (refuse-nil (one_of user.id ids) "%s ID is duplicated" first.0.0, rest.0),
        (
          (refuse-nil (one_of user.name names) "%s name is duplicated" first.0.1.0, rest.1.0),
          (
            credential.0,
            subst (λ seen. Fresh (credential_id lib n) seen users) credential.1 rest.1.1,
          ),
        ),
      )

-- In a node without a problem every two users differ in their ids, their names and the identities of
-- their credentials.
pub validate_node-Unlike :
    (lib : Library) (n : Node) (as_of : ℕ)
    → validate_node lib n as_of ≡ []
    → Pairs (Unlike user_id) n.users
      × (Pairs (Unlike user_name) n.users × Pairs (Unlike (credential_id lib n)) n.users)
unfolding node_parts
validate_node-Unlike lib n as_of h =
    let fresh = user_problems-Fresh lib n [] [] [] n.users (parts lib n as_of h).1.1.1.1.1.1.0 in
    (
      Fresh-Pairs user_id [] n.users fresh.0,
      (
        Fresh-Pairs user_name [] n.users fresh.1.0,
        Fresh-Pairs (credential_id lib n) [] n.users fresh.1.1,
      ),
    )
