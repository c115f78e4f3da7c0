-- ===== src/Ledger/Guards.antt =====
-- The triggers on `agentic_runs` and `agentic_tasks` (web_listening/blocks/agentic_orchestration.py,
-- `_drop_ledger_guards`): each function tells whether the row is let through. A column that the
-- type of its field restricts (schema version, status names, signs) needs no test.
use web_listening.Prelude.{
  Bool, true, false, not, ◌&&◌, ◌||◌, Option, none, some, List, [], ◌∷◌, ◌==◌, leb, ltb, any, all,
  select, length,
}
use web_listening.Ledger.Data.{
  Ident, Reason, run_cancelled, run_interrupted, Status, running, completed, partial, rejected,
  failed, cancelled, Kind, read, Run, Task, Observation, Artifact, Ledger, is_terminal, same_status,
  same, is_none, same_bool, same_kind, same_failure, same_warnings, same_identity, same_discovery,
}

-- The columns that a terminal run keeps.
unfoldable pub run_frozen : Run → Run → Bool
run_frozen old new =
    same_status new.status old.status
    && same_warnings new.warnings old.warnings
    && same new.finished_at old.finished_at
    && new.requests_used == old.requests_used
    && new.bytes_used == old.bytes_used
    && new.pages_used == old.pages_used
    && new.files_used == old.files_used
    && same_bool new.required_sealed old.required_sealed
    && new.active_reads == old.active_reads
    && same new.lease_owner old.lease_owner
    && same new.lease_expires_at old.lease_expires_at
    && new.lease_epoch == old.lease_epoch

-- `guard_agentic_runs_update`; `status` is never 'queued' in a run.
unfoldable pub runs_update_allowed : Run → Run → Bool
runs_update_allowed old new =
    new.run_id == old.run_id
    && not (same_status new.status Status.queued)
    && leb old.lease_epoch new.lease_epoch
    && same_bool (is_none new.lease_owner) (is_none new.lease_expires_at)
    && new.parent_task_id == old.parent_task_id
    && same_identity new.identity old.identity
    && same new.replay_of_run_id old.replay_of_run_id
    && new.created_at == old.created_at
    && (not (is_terminal old.status) || run_frozen old new)

-- The rows of one run, and of one task.
abbrev pub tasks_of : Ident → Ledger → List Task
tasks_of run_id l = select (λ t. t.run_id == run_id) l.tasks

abbrev pub observations_of : Ident → Ledger → List Observation
observations_of task_id l = select (λ o. o.task_id == task_id) l.observations

-- The last observation of a completed read, as the trigger looks it up.
abbrev completed_observation : Task → Observation → Bool
completed_observation t o =
    o.attempt == t.attempt_count
    && same_status o.status completed
    && not (is_none o.artifact_id)
    && same o.artifact_id t.artifact_id
    && not (is_none o.access_decision_id)
    && same o.access_decision_id t.access_decision_id

abbrev artifact_matches : Ident → Task → Option Artifact → Bool
artifact_matches run_id t none = false
artifact_matches run_id t (some a) =
    a.source_run_id == run_id
    && same (some a.normalized_source_identity) t.requested_url
    && not (is_none a.access_decision_id)
    && same a.access_decision_id t.access_decision_id
    && a.adapter_id == t.adapter_id
    && a.adapter_version == t.adapter_version

abbrev pub find_artifact : Ledger → Option Ident → Option Artifact
find_artifact l none = none
find_artifact l (some artifact_id) = l.artifacts artifact_id

-- A task of kind 'read' that ended.
unfoldable pub read_evidence : Ledger → Task → Bool
read_evidence l t =
    let observations = observations_of t.task_id l in
    length observations == t.attempt_count
    && (not (same_status t.status completed)
        || leb 1 t.attempt_count
          && not (is_none t.artifact_id)
          && not (is_none t.access_decision_id)
          && is_none t.failure_code
          && any (completed_observation t) observations
          && artifact_matches t.run_id t (find_artifact l t.artifact_id))
    && (not
          ((same_status t.status failed || same_status t.status rejected) && ltb 0 t.attempt_count)
        || any
            (λ o.
              o.attempt == t.attempt_count
              && same_status o.status t.status
              && is_none o.artifact_id)
            observations)

abbrev task_evidence : Ledger → Task → Bool
task_evidence l t = elim t.kind [
  | read ↦ read_evidence l t
  | Kind.search ↦ not (any (λ o. true) (observations_of t.task_id l))
]

-- What the status that a run takes requires of its tasks.
abbrev outcome_evidence : Status → List Reason → List Task → Bool
outcome_evidence completed warnings tasks = all (λ t. same_status t.status completed) tasks
outcome_evidence failed warnings tasks =
    same_warnings warnings (run_interrupted ∷ [])
    || any (λ t. t.required && same_status t.status failed) tasks
outcome_evidence rejected warnings tasks =
    any (λ t. t.required && same_status t.status rejected) tasks
outcome_evidence cancelled warnings tasks =
    same_warnings warnings (run_cancelled ∷ []) || any (λ t. same_status t.status cancelled) tasks
outcome_evidence partial warnings tasks = any (λ t. same_status t.status completed) tasks
outcome_evidence _ warnings tasks = true

-- `guard_agentic_runs_terminal_evidence`
unfoldable pub terminal_evidence_allowed : Ledger → Run → Run → Bool
terminal_evidence_allowed l old new =
    not (same_status old.status running && is_terminal new.status)
    || new.required_sealed
      && new.active_reads == 0
      && all (λ t. is_terminal t.status) (tasks_of new.run_id l)
      && outcome_evidence new.status new.warnings (tasks_of new.run_id l)
      && all (task_evidence l) (tasks_of new.run_id l)

-- The columns that an ended task keeps.
unfoldable pub task_frozen : Task → Task → Bool
task_frozen old new =
    same_status new.status old.status
    && new.attempt_count == old.attempt_count
    && same new.artifact_id old.artifact_id
    && same new.access_decision_id old.access_decision_id
    && same_failure new.failure_code old.failure_code
    && same new.finished_at old.finished_at

-- The columns of a task that no update changes: what it asks for, where it was found, and by which
-- adapters.
unfoldable pub same_target : Task → Task → Bool
same_target a b =
    same_kind a.kind b.kind
    && same_bool a.required b.required
    && same a.requested_url b.requested_url
    && same a.query b.query
    && a.depth == b.depth

unfoldable pub same_origin : Task → Task → Bool
same_origin a b =
    same_discovery a.discovery_kind b.discovery_kind
    && same a.discovered_from_url b.discovered_from_url
    && same a.parent_artifact_id b.parent_artifact_id

unfoldable pub same_adapters : Task → Task → Bool
same_adapters a b =
    a.adapter_id == b.adapter_id
    && a.adapter_version == b.adapter_version
    && same a.discovery_adapter_id b.discovery_adapter_id
    && same a.discovery_adapter_version b.discovery_adapter_version
    && same a.replay_of_task_id b.replay_of_task_id

unfoldable pub same_request : Task → Task → Bool
same_request a b = same_target a b && same_origin a b && same_adapters a b

-- `guard_agentic_tasks_update`
unfoldable pub tasks_update_allowed : Task → Task → Bool
tasks_update_allowed old new =
    new.task_id == old.task_id
    && new.run_id == old.run_id
    && new.task_key == old.task_key
    && new.task_ordinal == old.task_ordinal
    && same_request new old
    && new.created_at == old.created_at
    && (not (is_terminal old.status) || task_frozen old new)

-- `guard_agentic_tasks_insert`, on the row of the new task's run
unfoldable pub tasks_insert_allowed : Option Run → Task → Bool
tasks_insert_allowed none new = false
tasks_insert_allowed (some run) new =
    same_status new.status Status.queued
    && new.attempt_count == 0
    && same_status run.status running
    && not (new.required && run.required_sealed)
