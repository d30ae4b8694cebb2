-- ===== src/Scheduler/Expiry.antt =====
-- internal/scheduler/expiry.go: the mutation of an expiry batch, with `EffectiveUsers` of
-- internal/domain/model.go. The fields of a node and of a user that a batch only hands on are
-- `rest`, and the validation of the new state is an argument.
pub mod Batch
mod Tests
use m_ui.Prelude.{
  ℕ, ◌+◌, ◌%◌, ◌^◌, Bool, true, false, not, ◌&&◌, ◌||◌, Option, none, some, List, [], ◌∷◌, map, ltb,
  ◌==◌, if◌then◌else◌, keep, length,
}

pub record NodeUser (C : Type 0) : Type 0 where
  pub enabled : Bool
  pub expires_at : Option ℕ
  pub updated_at : ℕ
  pub rest : C

pub record Node (C D : Type 0) : Type 0 where
  pub id : ℕ
  pub enabled : Bool
  pub users : List (NodeUser C)
  pub generation : ℕ  -- int64, in two's complement
  pub updated_at : ℕ
  pub rest : D

-- `ExpiresAt != nil && !ExpiresAt.After(now)`.
abbrev pub has_expired : ℕ → Option ℕ → Bool
has_expired now none = false
has_expired now (some t) = not (ltb now t)

abbrev pub member : ℕ → List ℕ → Bool
member id [] = false
member id (a ∷ ids) = id == a || member id ids

-- How a batch ends without a new state: there is nothing to do, or the new state is not valid.
pub data BatchError : Type 0 where
  no_expired_users invalid_state : BatchError

-- The new nodes with the counts of the users and of the nodes that were disabled, or no new state.
-- The time of the new state is that of the batch.
pub data Outcome (C D : Type 0) : Type 0 where
  expired : List (Node C D) → ℕ → ℕ → Outcome C D
  skipped : BatchError → Outcome C D

module _ {C : Type 0} where
  abbrev pub is_due : ℕ → NodeUser C → Bool
  is_due now u = u.enabled && has_expired now u.expires_at

  abbrev pub is_effective : ℕ → NodeUser C → Bool
  is_effective now u = u.enabled && not (has_expired now u.expires_at)

  unfoldable pub expire_user : ℕ → NodeUser C → NodeUser C
  expire_user now u = if is_due now u then record u { enabled = false; updated_at = now } else u

module _ {C D : Type 0} where
  unfoldable pub effective_users : ℕ → Node C D → List (NodeUser C)
  effective_users now n = keep (is_effective now) n.users

  unfoldable pub expire_users : ℕ → Node C D → Node C D
  unfolding expire_user
  expire_users now n = record n { users = map (expire_user now) n.users }

  abbrev pub due_users : ℕ → List (Node C D) → ℕ
  due_users now [] = 0
  due_users now (n ∷ ns) = length (keep (is_due now) n.users) + due_users now ns

  -- The nodes with a due user, by their ids.
  abbrev pub affected_nodes : ℕ → List (Node C D) → List ℕ
  affected_nodes now [] = []
  affected_nodes now (n ∷ ns) =
      let rest = affected_nodes now ns in
      if length (keep (is_due now) n.users) == 0 then rest else n.id ∷ rest

  abbrev pub is_left_empty : ℕ → List ℕ → Node C D → Bool
  is_left_empty now ids n =
      member n.id ids && n.enabled && length (keep (is_effective now) n.users) == 0

  unfoldable pub disable_empty : ℕ → List ℕ → Node C D → Node C D
  disable_empty now ids n =
      if is_left_empty now ids n
      then record n { enabled = false; generation = (n.generation + 1) % 2 ^ 64; updated_at = now }
      else n

  unfoldable pub expire_all : ℕ → List (Node C D) → List (Node C D)
  unfolding expire_users disable_empty
  expire_all now ns = map (disable_empty now (affected_nodes now ns)) (map (expire_users now) ns)

  -- `NodesDisabled`.
  unfoldable pub nodes_disabled : ℕ → List (Node C D) → ℕ
  unfolding expire_users
  nodes_disabled now ns =
      length (keep (is_left_empty now (affected_nodes now ns)) (map (expire_users now) ns))

  unfoldable pub expiry_batch : (List (Node C D) → Bool) → ℕ → List (Node C D) → Outcome C D
  unfolding expire_all nodes_disabled
  expiry_batch validate now ns =
      if due_users now ns == 0
      then skipped no_expired_users
      else if validate (expire_all now ns)
      then expired (expire_all now ns) (due_users now ns) (nodes_disabled now ns)
      else skipped invalid_state
