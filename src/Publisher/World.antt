-- ===== src/Publisher/World.antt =====
-- What a publication reads and writes: the tables (internal/store/managed.go,
-- internal/domain/revision.go), the managed files (internal/publisher/files.go) and the Mihomo
-- process. Identifiers and SHA-256 digests are the numbers that their hexadecimal text writes.
use Prim.Native.String.{String}
use m_ui.Prelude.{ℕ, Bool, true, false, Option, List, ◌==◌}

-- A file's content.
abbrev pub Bytes : Type 0
Bytes = List ℕ

-- A path, by the directory and the identifier that `filepath.Join` makes it of. `foreign` is any
-- other path that a stored revision may name.
pub data ManagedPath : Type 0 where
  config : ManagedPath
  revision_yaml revision_state : ℕ → ManagedPath
  candidate rollback_backup recovery reconciliation : ℕ → ManagedPath
  foreign : ℕ → ManagedPath

unfoldable pub path_eq : ManagedPath → ManagedPath → Bool
path_eq config config = true
path_eq (revision_yaml a) (revision_yaml b) = a == b
path_eq (revision_state a) (revision_state b) = a == b
path_eq (candidate a) (candidate b) = a == b
path_eq (rollback_backup a) (rollback_backup b) = a == b
path_eq (recovery a) (recovery b) = a == b
path_eq (reconciliation a) (reconciliation b) = a == b
path_eq (foreign a) (foreign b) = a == b
path_eq _ _ = false

-- `pathWithin(RevisionDirectory, path)`: the revision files are the paths below that directory.
unfoldable pub path_within : ManagedPath → Bool
path_within (revision_yaml _) = true
path_within (revision_state _) = true
path_within _ = false

pub data RevisionStatus : Type 0 where
  pending active failed rolled_back : RevisionStatus

-- The stage that a failed revision records as its message.
pub data Stage : Type 0 where
  candidate_validation_failed insertion_failed replacement_failed reload_failed : Stage
  health_check_failed activation_failed audit_failed commit_failed : Stage

pub record Revision : Type 0 where
  pub id : ℕ
  pub revision_number : ℕ
  pub sha256 : ℕ
  pub file_path : ManagedPath
  pub state_file_path : ManagedPath
  pub status : RevisionStatus
  pub reason : String
  pub actor_admin_id : String
  pub error_message : Option Stage
  pub created_at : ℕ
  pub activated_at : Option ℕ

pub data DegradedReason : Type 0 where
  integrity_check_failed changed_during_publication recovery_failed : DegradedReason
  commit_not_reconciled commit_yaml_unreadable restore_failed republish_failed : DegradedReason
  commit_inconsistent : DegradedReason

pub record SystemState : Type 0 where
  pub degraded : Bool
  pub degraded_reason : Option DegradedReason
  pub degraded_revision_id : Option ℕ
  pub updated_at : ℕ

pub record AuditEntry : Type 0 where
  pub id : ℕ
  pub actor_admin_id : String
  pub action : String
  pub resource_type : String
  pub resource_id : String
  pub result : String
  pub summary : String
  pub created_at : ℕ

-- The durable rows. `State` is the desired state, which the publisher hands on whole.
pub record Tables (State : Type 0) : Type 0 where
  pub desired : State
  pub revisions : List Revision
  pub audits : List AuditEntry
  pub system : SystemState
  pub r3_cutover_pending : Bool
  pub mihomo_restart_pending : Bool

-- The managed process: whether it runs, and the configuration that it last loaded.
pub record Runtime : Type 0 where
  pub running : Bool
  pub loaded : Option Bytes

-- `tx` is the open publication transaction's view of the tables.
pub record Core (State : Type 0) : Type 0 where
  pub db : Tables State
  pub tx : Option (Tables State)
  pub files : ManagedPath → Option Bytes
  pub runtime : Runtime

-- How a call of the outside ends: with its effect, with an error and no effect, or with an error
-- after its effect.
pub data Answer : Type 0 where
  done refused lost : Answer

-- What the publisher does not implement. The functions of the calls' count let every call answer
-- on its own; `tampered` is a change of the active file that the publisher did not make.
pub record Env : Type 1 where
  pub State : Type 0
  pub as_of : State → ℕ
  pub load_at : State → ℕ → State
  pub compile : State → Option Bytes
  pub sha256 : Bytes → ℕ
  pub encode_snapshot : State → Bytes
  pub decode_snapshot : Bytes → Option State
  pub redact : String → String
  pub is_blank : String → Bool
  pub is_known_actor : String → Bool  -- empty, or the id of an administrator
  pub accepts : Option Bytes → Bool
  pub answer : ℕ → Answer
  pub process_active : ℕ → Bool
  pub safety_blocked : ℕ → Bool
  pub tampered : ℕ → Option (Option Bytes)
  pub new_id : ℕ → ℕ
  pub now : ℕ → ℕ

pub record Options : Type 0 where
  pub history_limit : ℕ
  pub health_polls : ℕ
  pub has_safety_gate : Bool
  pub has_convergence : Bool
  pub has_endpoints : Bool
