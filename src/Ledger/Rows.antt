-- ===== src/Ledger/Rows.antt =====
-- Reading rows back: `_task_from_row`, `_observation_from_row`, `_parent_from_row`, `list_tasks`,
-- `list_observations`, `_validate_terminal_run_evidence`, `get_run` and `require_run`
-- (web_listening/blocks/agentic_orchestration.py). A row that passes its checks becomes a dataclass
-- of the same columns, so the row itself stands for it. Tests of texts that all values of a column's
-- type meet (schema version, status and kind names, hashes, JSON shapes, timestamps) are not written.
use web_listening.Prelude.{
  ℕ, ◌+◌, Bool, true, false, not, ◌&&◌, ◌||◌, Option, none, some, List, [], ◌∷◌, ◌++◌, ◌==◌, leb,
  ltb, any, all, select, order_by, length, if◌then◌else◌,
}
use web_listening.Ledger.Data.{
  Ident, Status, queued, running, completed, partial, rejected, failed, cancelled, Kind, read, Run,
  Task, Observation, Artifact, Ledger, Result, ok, err, Texts, run_not_found, ledger_invalid,
  is_terminal, same, same_status, same_kind, same_bool, is_none, same_warnings, same_identity,
}
use web_listening.Ledger.Guards.{tasks_of, find_artifact}
use web_listening.Ledger.Discovery.{task_discovery_valid, provenance_valid, is_canonical}
use web_listening.Ledger.Outcome.{derive_parent_outcome, is_empty, required_tasks}

-- `value is None or test(value)`
abbrev pub optional {ℓ} : {A : Type ℓ} → (A → Bool) → Option A → Bool
optional test none = true
optional test (some a) = test a

-- `SELECT * FROM agentic_tasks WHERE task_id = ?`
abbrev pub find_task : Ident → List Task → Option Task
find_task task_id [] = none
find_task task_id (x ∷ xs) = if x.task_id == task_id then some x else find_task task_id xs

abbrev run_exists : Option Run → Bool
run_exists none = false
run_exists (some _) = true

-- The join that looks for the source of a replayed task.
abbrev replay_source : Ledger → Task → Option Ident → Bool
replay_source l x none = true
replay_source l x (some source_id) = elim (l.runs x.run_id) [
  | none ↦ false
  | some current ↦
      any
        (λ source.
          source.task_id == source_id
          && same current.replay_of_run_id (some source.run_id)
          && source.task_key == x.task_key
          && same_kind source.kind x.kind)
        l.tasks
]

module _ (t : Texts) where
  unfoldable pub task_row_valid : Ledger → Task → Bool
  task_row_valid l x =
      t.is_source_run x.run_id
      && x.task_id == t.child_task_id x.run_id x.task_key
      && t.has_key_length x.task_key
      && same_bool (is_terminal x.status) (not (is_none x.finished_at))
      && same_bool (same_kind x.kind read) (not (is_none x.requested_url))
      && same_bool (same_kind x.kind Kind.search) (not (is_none x.query))
      && not (not (is_none x.requested_url) && not (is_none x.query))
      && t.is_identity x.adapter_id
      && t.is_semver x.adapter_version
      && optional (is_canonical t) x.requested_url
      && optional t.is_query x.query
      && optional (is_canonical t) x.discovered_from_url
      && optional t.is_artifact_id x.parent_artifact_id
      && optional t.is_artifact_id x.artifact_id
      && optional t.is_access_decision x.access_decision_id
      && optional t.is_reason_code x.failure_code
      && same_bool (is_none x.discovery_adapter_id) (is_none x.discovery_adapter_version)
      && optional t.is_identity x.discovery_adapter_id
      && optional t.is_semver x.discovery_adapter_version
      && task_discovery_valid x.kind x.discovery_kind x.discovered_from_url x.parent_artifact_id
          x.discovery_adapter_id x.discovery_adapter_version
      && run_exists (l.runs x.run_id)
      && replay_source l x x.replay_of_task_id

  -- The row's task and run, if the ledger has both.
  abbrev observation_refs : Ledger → Observation → Option Task → Option Run → Bool
  observation_refs l o (some x) (some r) =
      x.run_id == o.run_id
      && same x.requested_url (some o.requested_url)
      && x.adapter_id == o.adapter_id
      && x.adapter_version == o.adapter_version
      && r.parent_task_id == o.parent_task_id
      && task_row_valid l x
      && provenance_valid t x o.status o.reason_code o.current_url o.final_url o.status_code
          o.access_decision_id o.redirect_chain o.discovery
  observation_refs l o _ _ = false

  unfoldable pub observation_row_valid : Ledger → Observation → Bool
  observation_row_valid l o =
      leb 1 o.attempt
      && o.observation_id == t.observation_id o.run_id o.task_id o.attempt
      && is_terminal o.status
      && leb (length o.redirect_chain) 100
      && is_canonical t o.requested_url
      && t.is_reason_code o.reason_code
      && t.is_identity o.adapter_id
      && t.is_semver o.adapter_version
      && optional (is_canonical t) o.final_url
      && optional t.is_access_decision o.access_decision_id
      && optional t.is_artifact_id o.artifact_id
      && observation_refs l o (find_task o.task_id l.tasks) (l.runs o.run_id)

-- `tuple(range(len(tasks)))`, from the given ordinal.
abbrev consecutive : ℕ → List Task → Bool
consecutive n [] = true
consecutive n (x ∷ xs) = x.task_ordinal == n && consecutive (n + 1) xs

-- The attempts of one task, in order, are 1, 2, and so on.
abbrev attempts_from : ℕ → List Observation → Bool
attempts_from n [] = true
attempts_from n (o ∷ os) = o.attempt == n && attempts_from (n + 1) os

abbrev pub attempts_of : Ident → List Observation → List Observation
attempts_of task_id os = select (λ o. o.task_id == task_id) os

-- The rows of the join, ordered by task and attempt.
abbrev joined : List Task → List Observation → List Observation
joined [] os = []
joined (x ∷ xs) os = order_by (λ o. o.attempt) (attempts_of x.task_id os) ++ joined xs os

module _ (t : Texts) where
  unfoldable pub list_tasks : Ledger → Ident → Result (List Task)
  list_tasks l run_id =
      let rows = order_by (λ x. x.task_ordinal) (tasks_of run_id l) in
      if all (task_row_valid t l) rows && consecutive 0 rows then ok rows else err ledger_invalid

  unfoldable pub list_observations : Ledger → Ident → Result (List Observation)
  list_observations l run_id =
      let rows =
        joined (order_by (λ x. x.task_ordinal) l.tasks)
          (select (λ o. o.run_id == run_id) l.observations) in
      if all (observation_row_valid t l) rows
        && all (λ (x : Task). attempts_from 1 (attempts_of x.task_id rows)) l.tasks
      then ok rows
      else err ledger_invalid

-- The last of the observations of a task, in order of attempt.
abbrev pub last_of : Observation → List Observation → Observation
last_of o [] = o
last_of o (o' ∷ os) = last_of o' os

abbrev pub ends_with : (Observation → Bool) → List Observation → Bool
ends_with test [] = false
ends_with test (o ∷ os) = test (last_of o os)

-- The artifact of a completed read, and its last observation.
abbrev artifact_evidence : Ident → Task → Option Artifact → Observation → Bool
artifact_evidence run_id x none o = false
artifact_evidence run_id x (some a) o =
    a.source_run_id == run_id
    && same (some a.normalized_source_identity) x.requested_url
    && same (some a.requested_url) x.requested_url
    && same (some a.final_url) o.final_url
    && same a.access_decision_id x.access_decision_id
    && a.adapter_id == x.adapter_id
    && a.adapter_version == x.adapter_version

abbrev completed_evidence : Ledger → Ident → Task → Observation → Bool
completed_evidence l run_id x o =
    not (is_none x.artifact_id)
    && not (is_none x.access_decision_id)
    && same_status o.status completed
    && same o.artifact_id x.artifact_id
    && same o.access_decision_id x.access_decision_id
    && artifact_evidence run_id x (find_artifact l x.artifact_id) o

-- One round of the loop in `_validate_terminal_run_evidence`.
unfoldable pub search_evidence : Task → List Observation → Bool
search_evidence x os =
    is_empty os
    && x.attempt_count == 0
    && is_none x.artifact_id
    && is_none x.access_decision_id
    && not (same_status x.status completed && not (is_none x.failure_code))
    && not (
        (same_status x.status partial
          || same_status x.status failed
          || same_status x.status rejected
          || same_status x.status cancelled)
        && is_none x.failure_code)

unfoldable pub read_task_evidence : Ledger → Ident → Task → List Observation → Bool
read_task_evidence l run_id x os =
    length os == x.attempt_count
    && not (same_status x.status partial)
    && not (same_status x.status completed && not (is_none x.failure_code))
    && not (
        (same_status x.status failed
          || same_status x.status rejected
          || same_status x.status cancelled)
        && is_none x.failure_code)
    && all
        (λ o.
          (same_status o.status completed
            || same_status o.status failed
            || same_status o.status rejected)
          && same_bool (same_status o.status completed) (not (is_none o.artifact_id)))
        os
    && (if same_status x.status completed
        then ends_with (completed_evidence l run_id x) os
        else is_none x.artifact_id
          && not (any (λ o. same_status o.status completed) os)
          && (not (
                ltb 0 x.attempt_count
                && (same_status x.status failed || same_status x.status rejected))
              || ends_with (λ o. same_status o.status x.status) os))

abbrev terminal_task_evidence : Ledger → Ident → List Observation → Task → Bool
terminal_task_evidence l run_id os x = elim x.kind [
  | Kind.search ↦ search_evidence x (attempts_of x.task_id os)
  | read ↦ read_task_evidence l run_id x (attempts_of x.task_id os)
]

module _ (t : Texts) where
  unfoldable pub validate_terminal_run_evidence : Ledger → Ident → Result (Unit {0})
  validate_terminal_run_evidence l run_id = elim (list_tasks t l run_id) [
    | err e ↦ err e
    | ok tasks ↦ elim (list_observations t l run_id) [
      | err e ↦ err e
      | ok os ↦ if all (terminal_task_evidence l run_id os) tasks then ok tt else err ledger_invalid
    ]
  ]

  -- What `_parent_from_row` asks of the row alone, and of the run that it replays.
  abbrev replay_row_valid : Ledger → Run → Option Ident → Bool
  replay_row_valid l r none = true
  replay_row_valid l r (some source_id) =
      t.is_source_run source_id && not (source_id == r.run_id) && elim (l.runs source_id) [
        | none ↦ false
        | some source ↦ is_terminal source.status && same_identity source.identity r.identity
      ]

  unfoldable pub run_row_valid : Ledger → Run → Bool
  run_row_valid l r =
      t.is_source_run r.run_id
      && r.parent_task_id == t.parent_task_id r.run_id
      && not (same_status r.status queued)
      && same_warnings r.warnings (t.sorted_set r.warnings)
      && all t.is_reason_code r.warnings
      && same_bool (is_none r.lease_owner) (is_none r.lease_expires_at)
      && optional t.is_identity r.lease_owner
      && same_bool (same_status r.status running) (is_none r.finished_at)
      && (not (is_terminal r.status)
          || r.active_reads == 0 && is_none r.lease_owner && r.required_sealed)
      && t.is_identity r.identity.rule_id
      && t.is_semver r.identity.rules_version
      && t.is_identity r.identity.site_skill_id
      && t.is_semver r.identity.site_skill_version
      && t.is_identity r.identity.execution_plan_id
      && t.is_identity r.identity.read_adapter_id
      && t.is_semver r.identity.read_adapter_version
      && replay_row_valid l r r.replay_of_run_id

  -- The barrier over a terminal run's tasks, and the outcome that they give.
  abbrev barrier : Status → List Task → Bool
  barrier status tasks =
      not (is_empty tasks)
      && not (is_empty (required_tasks tasks))
      && all (λ x. is_terminal x.status) tasks
      && (not (same_status status completed)
          || all (λ x. same_status x.status completed) (required_tasks tasks))

  abbrev outcome_is : Status → Result Status → Result (Unit {0})
  outcome_is status (ok derived) = if same_status derived status then ok tt else err ledger_invalid
  outcome_is status (err e) = err e

  unfoldable pub terminal_run_valid : Ledger → Run → Result (Unit {0})
  terminal_run_valid l r =
      if not (barrier r.status (tasks_of r.run_id l))
      then err ledger_invalid
      else elim (validate_terminal_run_evidence l r.run_id) [
        | err e ↦ err e
        | ok _ ↦ elim (list_tasks t l r.run_id) [
          | err e ↦ err e
          | ok tasks ↦ outcome_is r.status (derive_parent_outcome tasks r.warnings false)
        ]
      ]

  unfoldable pub parent_from_row : Ledger → Run → Result Run
  parent_from_row l r =
      if not (run_row_valid l r)
      then err ledger_invalid
      else if is_terminal r.status
      then elim (terminal_run_valid l r) [ ok _ ↦ ok r | err e ↦ err e ]
      else ok r

  unfoldable pub require_run : Ledger → Ident → Result Run
  require_run l run_id = elim (l.runs run_id) [
    | none ↦ err run_not_found
    | some r ↦ parent_from_row l r
  ]
