-- ===== src/Ledger/Tasks.antt =====
-- The tasks of a run: `create_task` and `transition_task`
-- (web_listening/blocks/agentic_orchestration.py).
use web_listening.Prelude.{
  ℕ, Bool, true, false, not, ◌&&◌, ◌||◌, Option, none, some, List, [], ◌∷◌, ◌++◌, ◌==◌, any, length,
  if◌then◌else◌,
}
use web_listening.Ledger.Data.{
  Ident, Reason, Fence, Status, queued, running, Kind, read, Discovery, Run, Task, Error, ok, err,
  Texts, run_not_found, run_lease_lost, run_transition_invalid, replay_run_mismatch, task_invalid,
  task_not_found, task_status_invalid, task_failure_code_invalid, task_access_decision_invalid,
  task_artifact_invalid, task_transition_invalid, task_required_set_sealed, task_replay_conflict,
  is_terminal, same, same_status, same_kind, same_bool, same_failure, is_none,
}
use web_listening.Ledger.Guards.{tasks_of, tasks_insert_allowed, same_request}
use web_listening.Ledger.Discovery.{task_discovery_valid}
use web_listening.Ledger.Store.{
  Action, pure, gets, raise_if, require, ◌>>=◌, ◌>>◌, fenced, assert_run_fence,
}
use web_listening.Ledger.Rows.{optional, find_task, task_row_valid, require_run}
use web_listening.Ledger.Runs.{from_result, update_tasks}

-- The arguments of `create_task`.
pub record Request : Type 0 where
  pub run_id : Ident
  pub task_key : Ident
  pub kind : Kind
  pub required : Bool
  pub requested_url : Option Ident
  pub query : Option Ident
  pub depth : ℕ
  pub discovery_kind : Discovery
  pub discovered_from_url : Option Ident
  pub parent_artifact_id : Option Ident
  pub adapter_id : Ident
  pub adapter_version : Ident
  pub discovery_adapter_id : Option Ident
  pub discovery_adapter_version : Option Ident
  pub replay_of_run_id : Option Ident

-- `COALESCE(?, column)`
abbrev pub coalesce {ℓ} : {A : Type ℓ} → Option A → Option A → Option A
coalesce none old = old
coalesce (some new) old = some new

abbrev pub coalesce_count : Option ℕ → ℕ → ℕ
coalesce_count none old = old
coalesce_count (some new) old = new

-- The task of the replayed run with the same key and kind.
abbrev prior_task : Ident → Ident → Kind → List Task → Option Ident
prior_task run_id task_key kind [] = none
prior_task run_id task_key kind (x ∷ xs) =
    if x.run_id == run_id && x.task_key == task_key && same_kind x.kind kind
    then some x.task_id
    else prior_task run_id task_key kind xs

-- The row that `create_task` inserts.
abbrev pub new_task : Ident → Request → ℕ → Option Ident → ℕ → Task
new_task task_id q ordinal replay_of now = record {
  task_id = task_id;
  run_id = q.run_id;
  task_key = q.task_key;
  task_ordinal = ordinal;
  kind = q.kind;
  required = q.required;
  status = queued;
  requested_url = q.requested_url;
  query = q.query;
  depth = q.depth;
  discovery_kind = q.discovery_kind;
  discovered_from_url = q.discovered_from_url;
  parent_artifact_id = q.parent_artifact_id;
  adapter_id = q.adapter_id;
  adapter_version = q.adapter_version;
  discovery_adapter_id = q.discovery_adapter_id;
  discovery_adapter_version = q.discovery_adapter_version;
  attempt_count = 0;
  artifact_id = none;
  access_decision_id = none;
  failure_code = none;
  replay_of_task_id = replay_of;
  created_at = now;
  finished_at = none;
}

-- `UNIQUE(run_id, task_key)`
abbrev pub key_taken : Task → List Task → Bool
key_taken x xs = any (λ y. y.run_id == x.run_id && y.task_key == x.task_key) xs

-- The insert, on the row of the task's run: whether `rowcount` is 1; `none` where a trigger or a
-- constraint aborts it.
abbrev pub insert_allowed : Option Fence → Option Run → Task → List Task → Option Bool
insert_allowed fence none x xs = some false
insert_allowed fence (some r) x xs =
    if same_status r.status running && fenced fence r
    then (if tasks_insert_allowed (some r) x && not (key_taken x xs) then some true else none)
    else some false

unfoldable pub insert_task : Option Fence → Task → Action (Unit {0})
insert_task fence x s = elim (insert_allowed fence (s.ledger.runs x.run_id) x s.ledger.tasks) [
  | none ↦ (err task_required_set_sealed, s)
  | some false ↦ (err run_lease_lost, s)
  | some true ↦ (ok tt, record s { ledger = record s.ledger { tasks = s.ledger.tasks ++ x ∷ [] } })
]

module _ (t : Texts) where
  -- The checks of the arguments.
  unfoldable pub request_valid : Request → Bool
  request_valid q =
      t.is_task_key q.task_key
      && not (same_kind q.kind read && (is_none q.requested_url || not (is_none q.query)))
      && not (same_kind q.kind Kind.search && (is_none q.query || not (is_none q.requested_url)))
      && optional (λ u. not (is_none (t.canonical_url u))) q.requested_url
      && optional (λ u. not (is_none (t.canonical_url u))) q.discovered_from_url
      && optional t.is_query q.query
      && t.is_identity q.adapter_id
      && t.is_semver q.adapter_version
      && same_bool (is_none q.discovery_adapter_id) (is_none q.discovery_adapter_version)
      && optional t.is_identity q.discovery_adapter_id
      && optional t.is_semver q.discovery_adapter_version
      && optional t.is_artifact_id q.parent_artifact_id

  unfoldable pub find_replay : Request → Run → Option Ident → Action (Option Ident)
  find_replay q parent none = pure none
  find_replay q parent (some source_id) = do
    raise_if (not (same parent.replay_of_run_id (some source_id))) replay_run_mismatch
    gets (λ s. prior_task source_id q.task_key q.kind s.ledger.tasks)

  unfoldable pub insert_if_new :
      Request → Option Ident → ℕ → Option Fence → Option Task → Action (Unit {0})
  insert_if_new q replay_of now fence (some x) = pure tt
  insert_if_new q replay_of now fence none = do
    raise_if
        (not (
          task_discovery_valid q.kind q.discovery_kind q.discovered_from_url q.parent_artifact_id
            q.discovery_adapter_id q.discovery_adapter_version))
        task_invalid
    ordinal ← gets (λ s. length (tasks_of q.run_id s.ledger))
    insert_task fence (new_task (t.child_task_id q.run_id q.task_key) q ordinal replay_of now)

  -- `_task_from_row` of the row that is there now.
  unfoldable pub read_task : Ident → Action Task
  read_task task_id = do
    row ← gets (λ s. find_task task_id s.ledger.tasks)
    x ← require row task_not_found
    valid ← gets (λ s. task_row_valid t s.ledger x)
    raise_if (not valid) Error.ledger_invalid
    pure x

  -- `now` is when the fence is checked, and `now₁` when the row is made.
  unfoldable pub create_task : Request → (now now₁ : ℕ) → Action Task
  create_task q now now₁ = do
    found ← gets (λ s. require_run t s.ledger q.run_id)
    parent ← from_result found
    raise_if (not (same_status parent.status running)) run_transition_invalid
    raise_if (not (request_valid q)) task_invalid
    replay_of ← find_replay q parent q.replay_of_run_id
    fence ← assert_run_fence q.run_id now
    run_row ← gets (λ s. s.ledger.runs q.run_id)
    r ← require run_row run_not_found
    raise_if (not (same_status r.status running)) run_transition_invalid
    row ← gets (λ s. find_task (t.child_task_id q.run_id q.task_key) s.ledger.tasks)
    raise_if (q.required && r.required_sealed && is_none row) task_required_set_sealed
    insert_if_new q replay_of now₁ fence row
    x ← read_task (t.child_task_id q.run_id q.task_key)
    raise_if (not (same_request x (new_task x.task_id q x.task_ordinal replay_of x.created_at)))
        task_replay_conflict
    pure x

-- The arguments of `transition_task`.
pub record Change : Type 0 where
  pub status : Status
  pub attempt_count : Option ℕ
  pub artifact_id : Option Ident
  pub access_decision_id : Option Ident
  pub failure_code : Option Reason

-- A repeated transition of an ended task must repeat what is there.
abbrev pub repeats : Change → Task → Bool
repeats c x =
    same_status x.status c.status
    && (is_none c.attempt_count || same c.attempt_count (some x.attempt_count))
    && (is_none c.artifact_id || same x.artifact_id c.artifact_id)
    && (is_none c.access_decision_id || same x.access_decision_id c.access_decision_id)
    && (is_none c.failure_code || same_failure x.failure_code c.failure_code)

abbrev pub changed_task : Change → ℕ → Task → Task
changed_task c now x = record x {
  status = c.status;
  attempt_count = coalesce_count c.attempt_count x.attempt_count;
  artifact_id = coalesce c.artifact_id x.artifact_id;
  access_decision_id = coalesce c.access_decision_id x.access_decision_id;
  failure_code = c.failure_code;
  finished_at = if is_terminal c.status then some now else none;
}

abbrev pub fenced_row : Option Fence → Option Run → Bool
fenced_row fence none = false
fenced_row fence (some r) = fenced fence r

-- The transition of a task that is open.
unfoldable pub transition_open : Ident → Change → ℕ → Option Fence → Task → Action (Unit {0})
transition_open task_id c now fence x = do
  raise_if
      (same_status x.status queued
        && (same_status c.status Status.completed || same_status c.status Status.partial))
      task_transition_invalid
  row ← gets (λ s. s.ledger.runs x.run_id)
  raise_if (not (fenced_row fence row)) run_lease_lost
  update_tasks (λ y. y.task_id == task_id) (changed_task c now)

module _ (t : Texts) where
  unfoldable pub transition_task : Ident → Change → (now now₁ : ℕ) → Action Task
  transition_task task_id c now now₁ = do
    raise_if (same_status c.status queued) task_status_invalid
    raise_if (not (optional t.is_reason_code c.failure_code)) task_failure_code_invalid
    raise_if (not (optional t.is_access_decision c.access_decision_id)) task_access_decision_invalid
    raise_if (not (optional t.is_artifact_id c.artifact_id)) task_artifact_invalid
    row ← gets (λ s. find_task task_id s.ledger.tasks)
    x ← require row task_not_found
    fence ← assert_run_fence x.run_id now
    (if is_terminal x.status
        then raise_if (not (repeats c x)) task_transition_invalid
        else transition_open task_id c now₁ fence x)
    read_task t task_id
