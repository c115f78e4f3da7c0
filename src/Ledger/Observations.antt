-- ===== src/Ledger/Observations.antt =====
-- Recording a read: `add_observation` (web_listening/blocks/agentic_orchestration.py).
use web_listening.Prelude.{
  ℕ, Bool, true, false, not, ◌&&◌, ◌||◌, Option, none, some, List, [], ◌∷◌, ◌++◌, ◌==◌, any, leb,
  length, if◌then◌else◌,
}
use web_listening.Ledger.Data.{
  Ident, Reason, Fence, Status, running, Run, Task, Hop, DiscoveryEvidence, Observation, Error, ok,
  err, Texts, observation_invalid, observation_task_conflict, observation_provenance_invalid,
  observation_replay_conflict, integrity_error, is_terminal, same, same_status, same_bool,
  same_reason, same_discovery, is_none, same_failure,
}
use web_listening.Ledger.Guards.{same_request}
use web_listening.Ledger.Discovery.{provenance_valid}
use web_listening.Ledger.Store.{
  Action, pure, gets, raise_if, require, ◌>>=◌, ◌>>◌, fenced, assert_run_fence,
}
use web_listening.Ledger.Rows.{
  optional, find_task, task_row_valid, observation_row_valid, require_run,
}
use web_listening.Ledger.Runs.{from_result}

-- The arguments of `add_observation` beside the task.
pub record Reading : Type 0 where
  pub attempt : ℕ
  pub status : Status
  pub final_url : Option Ident
  pub access_decision_id : Option Ident
  pub artifact_id : Option Ident
  pub reason_code : Reason
  pub redirect_chain : List Hop
  pub current_url : Option Ident
  pub status_code : Option ℕ

-- `==` of two `AgenticChildTask`.
abbrev pub same_task : Task → Task → Bool
same_task a b =
    a.task_id == b.task_id
    && a.run_id == b.run_id
    && a.task_key == b.task_key
    && a.task_ordinal == b.task_ordinal
    && same_request a b
    && same_status a.status b.status
    && a.attempt_count == b.attempt_count
    && same a.artifact_id b.artifact_id
    && same a.access_decision_id b.access_decision_id
    && same_failure a.failure_code b.failure_code
    && a.created_at == b.created_at
    && same a.finished_at b.finished_at

-- `a or b`, on texts that are not empty
abbrev pub or_else : Option Ident → Option Ident → Option Ident
or_else none b = b
or_else (some a) b = some a

abbrev pub discovery_of : Task → DiscoveryEvidence
discovery_of x = record {
  kind = x.discovery_kind;
  source_url = x.discovered_from_url;
  parent_artifact_id = x.parent_artifact_id;
  adapter_id = x.discovery_adapter_id;
  adapter_version = x.discovery_adapter_version;
}

abbrev same_hop : Hop → Hop → Bool
same_hop a b =
    a.ordinal == b.ordinal
    && a.from_url == b.from_url
    && a.to_url == b.to_url
    && a.http_status == b.http_status
    && a.access_decision_id == b.access_decision_id
    && same_bool a.allowed b.allowed

abbrev same_chain : List Hop → List Hop → Bool
same_chain [] [] = true
same_chain (a ∷ as') (b ∷ bs) = same_hop a b && same_chain as' bs
same_chain _ _ = false

abbrev same_evidence : DiscoveryEvidence → DiscoveryEvidence → Bool
same_evidence a b =
    same_discovery a.kind b.kind
    && same a.source_url b.source_url
    && same a.parent_artifact_id b.parent_artifact_id
    && same a.adapter_id b.adapter_id
    && same a.adapter_version b.adapter_version

-- The columns that a second recording of the same attempt must repeat.
abbrev pub same_observation : Observation → Observation → Bool
same_observation a b =
    a.run_id == b.run_id
    && a.parent_task_id == b.parent_task_id
    && a.task_id == b.task_id
    && a.attempt == b.attempt
    && same_status a.status b.status
    && a.requested_url == b.requested_url
    && same a.current_url b.current_url
    && same a.final_url b.final_url
    && same a.status_code b.status_code
    && same a.access_decision_id b.access_decision_id
    && same a.artifact_id b.artifact_id
    && same_reason a.reason_code b.reason_code
    && same_chain a.redirect_chain b.redirect_chain
    && same_evidence a.discovery b.discovery
    && a.adapter_id == b.adapter_id
    && a.adapter_version == b.adapter_version

abbrev pub find_observation : Ident → List Observation → Option Observation
find_observation id [] = none
find_observation id (o ∷ os) = if o.observation_id == id then some o else find_observation id os

abbrev pub has_observation : Observation → List Observation → Bool
has_observation o os =
    any
      (λ p.
        p.observation_id == o.observation_id
        || p.run_id == o.run_id && p.task_id == o.task_id && p.attempt == o.attempt)
      os

-- `guard_agentic_observations_insert` and `guard_agentic_observations_running_insert`, on the
-- observation's run and task.
abbrev pub observation_allowed : Option Run → Option Task → Observation → Bool
observation_allowed (some r) (some x) o =
    is_terminal o.status
    && leb 1 o.attempt
    && r.parent_task_id == o.parent_task_id
    && x.run_id == o.run_id
    && same_status r.status running
    && same_status x.status running
observation_allowed _ _ o = false

abbrev pub fenced_run? : Option Fence → Option Run → Bool
fenced_run? fence none = false
fenced_run? fence (some r) = fenced fence r

-- `INSERT OR IGNORE INTO agentic_observations … WHERE EXISTS …`: whether `rowcount` is 1. The
-- triggers come before the test for a row of the same key.
unfoldable pub insert_observation : Option Fence → Observation → Action Bool
insert_observation fence o s =
    if not (fenced_run? fence (s.ledger.runs o.run_id))
    then (ok false, s)
    else if not
        (observation_allowed (s.ledger.runs o.run_id) (find_task o.task_id s.ledger.tasks) o)
    then (err integrity_error, s)
    else if has_observation o s.ledger.observations
    then (ok false, s)
    else (
      ok true,
      record s { ledger = record s.ledger { observations = s.ledger.observations ++ o ∷ [] } },
    )

module _ (t : Texts) where
  unfoldable pub reading_valid : Task → Reading → Bool
  reading_valid x a =
      not (is_none x.requested_url)
      && leb 1 a.attempt
      && leb a.attempt 1000000
      && is_terminal a.status
      && t.is_reason_code a.reason_code
      && leb (length a.redirect_chain) 100
      && optional (λ u. not (is_none (t.canonical_url u))) a.final_url
      && optional t.is_access_decision a.access_decision_id
      && optional t.is_artifact_id a.artifact_id

  abbrev pub new_observation : Run → Task → Ident → Reading → Option Ident → ℕ → Observation
  new_observation parent x requested a current now = record {
    observation_id = t.observation_id x.run_id x.task_id a.attempt;
    run_id = x.run_id;
    parent_task_id = parent.parent_task_id;
    task_id = x.task_id;
    attempt = a.attempt;
    status = a.status;
    requested_url = requested;
    current_url = current;
    final_url = a.final_url;
    status_code = a.status_code;
    access_decision_id = a.access_decision_id;
    artifact_id = a.artifact_id;
    reason_code = a.reason_code;
    redirect_chain = a.redirect_chain;
    discovery = discovery_of x;
    adapter_id = x.adapter_id;
    adapter_version = x.adapter_version;
    observed_at = now;
  }

  -- From the first fence check on.
  unfoldable pub record_observation : Observation → (now now₁ : ℕ) → Action Observation
  record_observation o now now₁ = do
    fence ← assert_run_fence o.run_id now
    changed ← insert_observation fence o
    (if changed then pure tt else (assert_run_fence o.run_id now₁ >> pure tt))
    row ← gets (λ s. find_observation o.observation_id s.ledger.observations)
    o' ← require row observation_invalid
    valid ← gets (λ s. observation_row_valid t s.ledger o')
    raise_if (not valid) Error.ledger_invalid
    raise_if (not (same_observation o' o)) observation_replay_conflict
    pure o'

  -- `now` is when the row is made, and `now₁` when the fence is checked;
  -- `now₂` when it is checked again because no row was added.
  unfoldable pub add_observation : Task → Reading → (now now₁ now₂ : ℕ) → Action Observation
  add_observation task a now now₁ now₂ = do
    raise_if (not (reading_valid task a)) observation_invalid
    row ← gets (λ s. find_task task.task_id s.ledger.tasks)
    x ← require row observation_task_conflict
    valid ← gets (λ s. task_row_valid t s.ledger x)
    raise_if (not valid) Error.ledger_invalid
    raise_if (not (same_task task x)) observation_task_conflict
    found ← gets (λ s. require_run t s.ledger x.run_id)
    parent ← from_result found
    raise_if (not (same_status parent.status running)) integrity_error
    let current = or_else a.current_url (or_else a.final_url x.requested_url)
    raise_if
        (not (
          provenance_valid t x a.status a.reason_code current a.final_url a.status_code
            a.access_decision_id a.redirect_chain (discovery_of x)))
        observation_provenance_invalid
    requested ← require x.requested_url observation_invalid
    record_observation (new_observation parent x requested a current now) now₁ now₂
