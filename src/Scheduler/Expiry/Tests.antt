-- ===== src/Scheduler/Expiry/Tests.antt =====
-- Three nodes at time 10: the one user of the first and one of two of the third have expired.
use m_ui.Prelude.{ℕ, ◌≡◌, refl, true, none, some, List, [], ◌∷◌, map}
use m_ui.Scheduler.Expiry.{
  NodeUser, Node, effective_users, expire_all, skipped, no_expired_users, expiry_batch,
}
use m_ui.Scheduler.Expiry.Batch.{served, served-expire_all, expiry_batch-idempotent}

abbrev late_user : NodeUser ℕ
late_user = record { enabled = true; expires_at = some 9; updated_at = 0; rest = 0 }

abbrev lasting_user : NodeUser ℕ
lasting_user = record { enabled = true; expires_at = none; updated_at = 0; rest = 1 }

abbrev three_nodes : List (Node ℕ ℕ)
three_nodes =
    record {
      id = 1;
      enabled = true;
      users = late_user ∷ [];
      generation = 3;
      updated_at = 0;
      rest = 0;
    }
    ∷ record {
      id = 2;
      enabled = true;
      users = lasting_user ∷ [];
      generation = 5;
      updated_at = 0;
      rest = 0;
    }
    ∷ record {
      id = 3;
      enabled = true;
      users = late_user ∷ lasting_user ∷ [];
      generation = 0;
      updated_at = 0;
      rest = 0;
    }
    ∷ []

served-expire_all_example :
    (map (served 10) (expire_all 10 three_nodes) ≡ map (served 10) three_nodes)
    × (map (effective_users 10) (expire_all 10 three_nodes) ≡ map (effective_users 10) three_nodes)
served-expire_all_example = served-expire_all 10 three_nodes

expiry_batch-idempotent_example :
    expiry_batch (λ ns. true) 10 (expire_all 10 three_nodes) ≡ skipped no_expired_users
unfolding expiry_batch
expiry_batch-idempotent_example =
    expiry_batch-idempotent (λ ns. true) (λ ns. true) 10 2 1 three_nodes (expire_all 10 three_nodes)
      refl
