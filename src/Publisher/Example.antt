-- ===== src/Publisher/Example.antt =====
-- A small publication to run: the state is a number with the time it was read at, and its digest is
-- the sum of its bytes. The environment is given by how its calls end.
use text.Mathlib.Text.{◌==◌ as str_eq}
use m_ui.Prelude.{ℕ, ◌+◌, true, false, Option, none, some, [], ◌∷◌, ◌==◌, ◌||◌, if◌then◌else◌}
use m_ui.Publisher.World.{
  Env, Options, Bytes, Tables, Core, config, revision_yaml, revision_state, path_eq, Revision,
  active, pending, Answer, done, lost,
}
use m_ui.Publisher.Monad.{Result, ok}
use m_ui.Publisher.Request.{Request, Mutation}
use m_ui.Publisher.Files.{FileState}

abbrev pub total : Bytes → ℕ
total [] = 0
total (b ∷ bs) = b + total bs

abbrev pub first : Bytes → Option (ℕ × ℕ)
first (a ∷ b ∷ []) = some (a, b)
first _ = none

abbrev pub demo : (ℕ → Answer) → (ℕ → Option (Option Bytes)) → Env
demo answer tampered = record {
  State = ℕ × ℕ;
  as_of = λ s. s.1;
  load_at = λ s at. (s.0, at);
  compile = λ s. some (s.0 ∷ []);
  sha256 = total;
  encode_snapshot = λ s. s.0 ∷ s.1 ∷ [];
  decode_snapshot = first;
  redact = λ t. t;
  is_blank = λ t. str_eq t "";
  is_known_actor = λ t. str_eq t "" || str_eq t "admin";
  accepts = λ b. true;
  answer = answer;
  process_active = λ n. true;
  safety_blocked = λ n. false;
  tampered = tampered;
  new_id = λ n. 100 + n;
  now = λ n. n;
}

abbrev pub demo_options : Options
demo_options = record {
  history_limit = 3;
  health_polls = 2;
  has_safety_gate = true;
  has_convergence = true;
  has_endpoints = true;
}

abbrev pub demo_revision : Revision
demo_revision = record {
  id = 1;
  revision_number = 1;
  sha256 = 7;
  file_path = revision_yaml 1;
  state_file_path = revision_state 1;
  status = active;
  reason = "first";
  actor_admin_id = "";
  error_message = none;
  created_at = 0;
  activated_at = some 0;
}

abbrev pub demo_core : Core (ℕ × ℕ)
demo_core = record {
  db = record {
    desired = (7, 0);
    revisions = demo_revision ∷ [];
    audits = [];
    system = record {
      degraded = false;
      degraded_reason = none;
      degraded_revision_id = none;
      updated_at = 0;
    };
    r3_cutover_pending = false;
    mihomo_restart_pending = false;
  };
  tx = none;
  files = λ p.
      if path_eq p config
      then some (7 ∷ [])
      else if path_eq p (revision_yaml 1)
      then some (7 ∷ [])
      else if path_eq p (revision_state 1)
      then some (7 ∷ 0 ∷ [])
      else none;
  runtime = record { running = true; loaded = some (7 ∷ []) };
}

abbrev pub demo_request : (e : Env) → Mutation ⦃env = e⦄ → Request ⦃env = e⦄
demo_request e mutate = record {
  reason = "change";
  actor_admin_id = "admin";
  audit_action = "node.update";
  audit_resource = "node";
  audit_resource_id = "9";
  audit_summary = "changed";
  audit_summary_func = none;
  effective_at = none;
  restart_required = false;
  mutate = some mutate;
  runtime_convergence_baseline = false;
}

abbrev pub set_nine : Tables (ℕ × ℕ) → Result (Tables (ℕ × ℕ))
set_nine t = ok (record t { desired = (9, 0) })

-- Every call ends as it should, and nobody else writes to the running file.
abbrev pub reliable : Env
reliable = demo (λ n. done) (λ n. none)

-- The call at tick 35 takes effect and reports an error.
abbrev pub forgetful : Env
forgetful = demo (λ n. if n == 35 then lost else done) (λ n. none)

-- The revision that a publication is at, before it is active.
abbrev pub next_revision : Revision
next_revision = record demo_revision {
  id = 2;
  revision_number = 2;
  sha256 = 9;
  file_path = revision_yaml 2;
  state_file_path = revision_state 2;
  status = pending;
  activated_at = none;
}

-- The transaction that has it.
abbrev pub demo_tables : Tables (ℕ × ℕ)
demo_tables = record (demo_core.db) { revisions = next_revision ∷ demo_revision ∷ [] }

abbrev pub demo_file : FileState
demo_file = record { content = 7 ∷ []; exists = true; sha256 = 7 }
