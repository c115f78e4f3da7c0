-- ===== src/Ledger/Data.antt =====
-- The rows of the agentic ledger (web_listening/blocks/agentic_orchestration.py, `_create_tables`),
-- the memory of one repository object, the errors that its methods raise, and the texts that the
-- ledger gets from elsewhere.
-- A text that the code only stores and compares (identifier, hash, URL) is a number. A time is a
-- number of microseconds: `_format_time` writes it in UTC with six digits and a `Z`, so the texts
-- that SQLite compares are ordered as the times are.
use web_listening.Prelude.{ℕ, Bool, true, false, Option, none, some, List, ◌==◌, ◌&&◌, [], ◌∷◌}

abbrev pub Ident : Type 0
Ident = ℕ

-- A reason code: those that the ledger itself reads, and any other.
pub data Reason : Type 0 where
  run_cancelled run_interrupted gateway_origin gateway_redirect : Reason
  code : Ident → Reason

-- The `status` of a run, a task or an observation.
pub data Status : Type 0 where
  queued running completed partial rejected failed cancelled : Status

pub data Kind : Type 0 where
  read search : Kind

pub data Discovery : Type 0 where
  seed link crawler found : Discovery

-- The columns of a run that no statement of the repository writes after the insert, but for its
-- identifier and its creation time.
pub record Identity : Type 0 where
  pub rule_id : Ident
  pub rules_version : Ident
  pub rules_sha256 : Ident
  pub site_skill_id : Ident
  pub site_skill_version : Ident
  pub site_skill_package_sha256 : Ident
  pub execution_plan_id : Ident
  pub execution_plan_version : Ident
  pub execution_plan_sha256 : Ident
  pub read_adapter_id : Ident
  pub read_adapter_version : Ident

-- A row of `agentic_runs`.
pub record Run : Type 0 where
  pub run_id : Ident
  pub parent_task_id : Ident
  pub identity : Identity
  pub replay_of_run_id : Option Ident
  pub status : Status
  pub requests_used : ℕ
  pub bytes_used : ℕ
  pub pages_used : ℕ
  pub files_used : ℕ
  pub warnings : List Reason
  pub required_sealed : Bool
  pub active_reads : ℕ
  pub lease_owner : Option Ident
  pub lease_expires_at : Option ℕ
  pub lease_epoch : ℕ
  pub created_at : ℕ
  pub finished_at : Option ℕ

-- A row of `agentic_tasks`.
pub record Task : Type 0 where
  pub task_id : Ident
  pub run_id : Ident
  pub task_key : Ident
  pub task_ordinal : ℕ
  pub kind : Kind
  pub required : Bool
  pub status : Status
  pub requested_url : Option Ident
  pub query : Option Ident
  pub depth : ℕ
  pub discovery_kind : Discovery
  pub discovered_from_url : Option Ident
  pub parent_artifact_id : Option Ident
  pub adapter_id : Ident
  pub adapter_version : Ident
  pub discovery_adapter_id : Option Ident
  pub discovery_adapter_version : Option Ident
  pub attempt_count : ℕ
  pub artifact_id : Option Ident
  pub access_decision_id : Option Ident
  pub failure_code : Option Reason
  pub replay_of_task_id : Option Ident
  pub created_at : ℕ
  pub finished_at : Option ℕ

-- A hop of `redirect_chain_json`; `allowed` is `decision == "allow"`.
pub record Hop : Type 0 where
  pub ordinal : ℕ
  pub from_url : Ident
  pub to_url : Ident
  pub http_status : ℕ
  pub access_decision_id : Ident
  pub allowed : Bool

-- `discovery_json`
pub record DiscoveryEvidence : Type 0 where
  pub kind : Discovery
  pub source_url : Option Ident
  pub parent_artifact_id : Option Ident
  pub adapter_id : Option Ident
  pub adapter_version : Option Ident

-- A row of `agentic_observations`.
pub record Observation : Type 0 where
  pub observation_id : Ident
  pub run_id : Ident
  pub parent_task_id : Ident
  pub task_id : Ident
  pub attempt : ℕ
  pub status : Status
  pub requested_url : Ident
  pub current_url : Option Ident
  pub final_url : Option Ident
  pub status_code : Option ℕ
  pub access_decision_id : Option Ident
  pub artifact_id : Option Ident
  pub reason_code : Reason
  pub redirect_chain : List Hop
  pub discovery : DiscoveryEvidence
  pub adapter_id : Ident
  pub adapter_version : Ident
  pub observed_at : ℕ

-- The columns of `artifact_observations`, the artifact store's table, that the ledger reads.
pub record Artifact : Type 0 where
  pub source_run_id : Ident
  pub normalized_source_identity : Ident
  pub requested_url : Ident
  pub final_url : Ident
  pub access_decision_id : Option Ident
  pub adapter_id : Ident
  pub adapter_version : Ident

-- The tables: runs and artifacts by their primary key, tasks and observations in order of insertion.
pub record Ledger : Type 0 where
  pub runs : Ident → Option Run
  pub tasks : List Task
  pub observations : List Observation
  pub artifacts : Ident → Option Artifact

-- What `_lease_fences` holds for a run: an owner and an epoch.
abbrev pub Fence : Type 0
Fence = Ident × ℕ

-- One `AgenticTaskRepository`: the shared tables and the fences of this process.
pub record Repository : Type 0 where
  pub ledger : Ledger
  pub fences : Ident → Option Fence

pub data Error : Type 0 where
  run_not_found run_lease_lost run_lease_invalid run_lease_conflict run_transition_invalid : Error
  run_identity_invalid run_replay_conflict run_outcome_conflict run_finalize_conflict : Error
  run_status_invalid run_warning_invalid : Error
  replay_run_not_found replay_source_not_terminal replay_authority_mismatch : Error
  replay_run_mismatch : Error
  budget_limit_invalid budget_usage_invalid budget_reservation_conflict : Error
  budget_reservation_missing budget_reservation_active : Error
  budget_requests_exhausted budget_bytes_exhausted budget_pages_exhausted : Error
  budget_files_exhausted budget_concurrency_exhausted : Error
  task_invalid task_not_found task_status_invalid task_failure_code_invalid : Error
  task_access_decision_invalid task_artifact_invalid task_transition_invalid : Error
  task_required_set_sealed task_required_set_unsealed task_replay_conflict : Error
  task_children_pending task_required_children_pending : Error
  task_required_children_unsuccessful task_required_children_missing : Error
  observation_invalid observation_task_conflict observation_provenance_invalid : Error
  observation_replay_conflict : Error
  ledger_invalid : Error
  -- sqlite3.IntegrityError, when a trigger or a constraint aborts the statement
  integrity_error : Error

pub data Result (A : Type 0) : Type 0 where
  ok : A → Result A
  err : Error → Result A

-- `budget.*` limits of one read.
pub record Limits : Type 0 where
  pub max_requests : ℕ
  pub max_bytes : ℕ
  pub max_pages : ℕ
  pub max_files : ℕ
  pub max_concurrency : ℕ

-- `_TargetSendClaim`.
pub record Claim : Type 0 where
  pub run_id : Ident
  pub owner : Ident
  pub claim_owner : Ident
  pub epoch : ℕ
  pub lease_expires_at : ℕ

-- Tests and functions on texts that the repository calls: the module's regular expressions, the
-- hashes that make identifiers, and `sorted(set(…))` on reason codes.
pub record Texts : Type 0 where
  pub is_identity : Ident → Bool
  pub is_semver : Ident → Bool
  pub is_source_run : Ident → Bool
  pub is_reason_code : Reason → Bool
  pub is_access_decision : Ident → Bool
  pub is_artifact_id : Ident → Bool
  -- `_validate_non_sensitive_text`, and the length bound of a task key
  pub is_task_key : Ident → Bool
  pub has_key_length : Ident → Bool
  -- `canonicalize_access_url`; `none` where it raises
  pub canonical_url : Ident → Option Ident
  -- `AgenticQuery(text=…)` does not raise
  pub is_query : Ident → Bool
  -- `_stable_id` of a run's parent task, and of a run's task key
  pub parent_task_id : Ident → Ident
  pub child_task_id : Ident → Ident → Ident
  -- `_stable_id` of a run, a task and an attempt
  pub observation_id : Ident → Ident → ℕ → Ident
  -- membership in `_DECISIONLESS_REASON_CODES`
  pub is_decisionless : Reason → Bool
  -- f"send-claim-{epoch}-{sha256(owner)[:16]}"
  pub send_claim : ℕ → Ident → Ident
  pub sorted_set : List Reason → List Reason

-- `_TERMINAL_TASK_STATUSES`
abbrev pub is_terminal : Status → Bool
is_terminal queued = false
is_terminal running = false
is_terminal completed = true
is_terminal partial = true
is_terminal rejected = true
is_terminal failed = true
is_terminal cancelled = true

abbrev pub same_status : Status → Status → Bool
same_status queued queued = true
same_status running running = true
same_status completed completed = true
same_status partial partial = true
same_status rejected rejected = true
same_status failed failed = true
same_status cancelled cancelled = true
same_status _ _ = false

-- SQL's `IS`, and `==` on optional texts.
abbrev pub same : Option ℕ → Option ℕ → Bool
same none none = true
same (some a) (some b) = a == b
same _ _ = false

abbrev pub is_none {ℓ} : {A : Type ℓ} → Option A → Bool
is_none none = true
is_none (some _) = false

abbrev pub same_bool : Bool → Bool → Bool
same_bool true true = true
same_bool false false = true
same_bool _ _ = false

abbrev pub same_kind : Kind → Kind → Bool
same_kind read read = true
same_kind search search = true
same_kind _ _ = false

abbrev pub same_discovery : Discovery → Discovery → Bool
same_discovery seed seed = true
same_discovery link link = true
same_discovery crawler crawler = true
same_discovery found found = true
same_discovery _ _ = false

abbrev pub same_reason : Reason → Reason → Bool
same_reason run_cancelled run_cancelled = true
same_reason run_interrupted run_interrupted = true
same_reason gateway_origin gateway_origin = true
same_reason gateway_redirect gateway_redirect = true
same_reason (code a) (code b) = a == b
same_reason _ _ = false

abbrev pub same_failure : Option Reason → Option Reason → Bool
same_failure none none = true
same_failure (some a) (some b) = same_reason a b
same_failure _ _ = false

abbrev pub same_warnings : List Reason → List Reason → Bool
same_warnings [] [] = true
same_warnings (a ∷ as') (b ∷ bs) = same_reason a b && same_warnings as' bs
same_warnings _ _ = false

unfoldable pub same_identity : Identity → Identity → Bool
same_identity a b =
    a.rule_id == b.rule_id
    && a.rules_version == b.rules_version
    && a.rules_sha256 == b.rules_sha256
    && a.site_skill_id == b.site_skill_id
    && a.site_skill_version == b.site_skill_version
    && a.site_skill_package_sha256 == b.site_skill_package_sha256
    && a.execution_plan_id == b.execution_plan_id
    && a.execution_plan_version == b.execution_plan_version
    && a.execution_plan_sha256 == b.execution_plan_sha256
    && a.read_adapter_id == b.read_adapter_id
    && a.read_adapter_version == b.read_adapter_version
