-- ===== src/Scheduler/Expiry/Batch.antt =====
-- What an expiry batch leaves (internal/scheduler/expiry.go).
use m_ui.Prelude.{
  ℕ, ◌+◌, ◌%◌, ◌^◌, ◌&&◌, length, Bool, true, false, ◌≡◌, refl, ◌∙◌, sym, ap, List, [], ◌∷◌, map,
  ◌==◌, arith, if◌then◌else◌, keep,
}
use m_ui.Scheduler.Expiry.{
  NodeUser, Node, member, is_due, is_effective, effective_users, expire_user, expire_users,
  due_users, affected_nodes, disable_empty, expire_all, invalid_state, expired, skipped,
  no_expired_users, expiry_batch, nodes_disabled,
}

module _ {C : Type 0} where
  due-expire_user :
      (now : ℕ) (us : List (NodeUser C)) → keep (is_due now) (map (expire_user now) us) ≡ []
  unfolding expire_user
  due-expire_user now [] = refl
  due-expire_user now (u ∷ us) = ground (arith, due-expire_user now us)

  effective-expire_user :
      (now : ℕ) (us : List (NodeUser C))
      → keep (is_effective now) (map (expire_user now) us) ≡ keep (is_effective now) us
  unfolding expire_user
  effective-expire_user now [] = refl
  effective-expire_user now (u ∷ us) = ground (arith, effective-expire_user now us)

  no_users : (us : List (NodeUser C)) → (length us == 0) ≡ true → us ≡ []
  no_users [] h = refl
  no_users (u ∷ us) h = ground arith

module _ {C D : Type 0} where
  users-disable_empty :
      (now : ℕ) (ids : List ℕ) (n : Node C D) → (disable_empty now ids n).users ≡ n.users
  unfolding disable_empty
  users-disable_empty now ids n = ground arith

  due_users-expired :
      (now : ℕ) (ids : List ℕ) (ns : List (Node C D))
      → due_users now (map (disable_empty now ids) (map (expire_users now) ns)) ≡ 0
  unfolding expire_users
  due_users-expired now ids [] = refl
  due_users-expired now ids (n ∷ ns) =
      rw
        (
          users-disable_empty now ids (record n { users = map (expire_user now) n.users }),
          due-expire_user now n.users,
        )
        (ap (λ k. 0 + k) (due_users-expired now ids ns))

  effective-expired :
      (now : ℕ) (ids : List ℕ) (ns : List (Node C D))
      → map (effective_users now) (map (disable_empty now ids) (map (expire_users now) ns))
        ≡ map (effective_users now) ns
  unfolding expire_users effective_users
  effective-expired now ids [] = refl
  effective-expired now ids (n ∷ ns) =
      rw
        (
          users-disable_empty now ids (record n { users = map (expire_user now) n.users }),
          effective-expire_user now n.users,
        )
        (ap (λ l. keep (is_effective now) n.users ∷ l) (effective-expired now ids ns))

  -- The users that a node lets in: none where it is switched off.
  abbrev pub served : ℕ → Node C D → List (NodeUser C)
  served now n = if n.enabled then effective_users now n else []

  served-disable_empty :
      (now : ℕ) (ids : List ℕ) (n : Node C D) → served now (disable_empty now ids n) ≡ served now n
  unfolding disable_empty effective_users
  served-disable_empty now ids n =
      by_guard (member n.id ids) n.enabled (length (keep (is_effective now) n.users) == 0) refl
        (no_users (keep (is_effective now) n.users))
    where
      by_guard :
          (m e z : Bool)
          → n.enabled ≡ e
          → (z ≡ true → keep (is_effective now) n.users ≡ [])
          → served now (
              if m && e && z
              then record n {
                enabled = false;
                generation = (n.generation + 1) % 2 ^ 64;
                updated_at = now;
              }
              else n)
            ≡ served now n
      by_guard true true true is_on empty = rw is_on (sym (empty refl))
      by_guard true true false is_on empty = refl
      by_guard true false z is_on empty = refl
      by_guard false e z is_on empty = refl

  served-expired :
      (now : ℕ) (ids : List ℕ) (ns : List (Node C D))
      → map (served now) (map (disable_empty now ids) (map (expire_users now) ns))
        ≡ map (served now) ns
  unfolding expire_users effective_users
  served-expired now ids [] = refl
  served-expired now ids (n ∷ ns) =
      rw
        (
          served-disable_empty now ids (record n { users = map (expire_user now) n.users }),
          effective-expire_user now n.users,
        )
        (ap (λ l. served now n ∷ l) (served-expired now ids ns))

  -- A batch takes no access away: every node lets in the same users at that time as before, none where
  -- it is switched off, and keeps those whom an expiry date or their own switch has not stopped.
  pub served-expire_all :
      (now : ℕ) (ns : List (Node C D))
      → (map (served now) (expire_all now ns) ≡ map (served now) ns)
        × (map (effective_users now) (expire_all now ns) ≡ map (effective_users now) ns)
  unfolding expire_all
  served-expire_all now ns = (
    served-expired now (affected_nodes now ns) ns,
    effective-expired now (affected_nodes now ns) ns,
  )

  kept_nodes :
      (empty valid : Bool) (ns after : List (Node C D)) (k l users nodes : ℕ)
      → (if empty
          then skipped no_expired_users
          else if valid
          then expired ns k l
          else skipped invalid_state)
        ≡ expired after users nodes
      → ns ≡ after
  kept_nodes true valid ns after k l users nodes h = cc
  kept_nodes false true ns after k l users nodes h = cc
  kept_nodes false false ns after k l users nodes h = cc

  -- A batch at the same time on the nodes that a batch has left finds nothing to do, whatever the
  -- validations.
  pub expiry_batch-idempotent :
      (validate again : List (Node C D) → Bool) (now users nodes : ℕ)
      (before after : List (Node C D))
      → expiry_batch validate now before ≡ expired after users nodes
      → expiry_batch again now after ≡ skipped no_expired_users
  unfolding expiry_batch expire_all
  expiry_batch-idempotent validate again now users nodes before after h =
      let same : expire_all now before ≡ after =
        kept_nodes (due_users now before == 0) (validate (expire_all now before))
          (expire_all now before) after (due_users now before) (nodes_disabled now before) users
          nodes h in
      let nothing : due_users now after ≡ 0 =
        ap (due_users now) (sym same) ∙ due_users-expired now (affected_nodes now before) before in
      rw nothing refl
