-- ===== src/Ledger/Runs.antt =====
-- Making and ending runs: `create_run`, `finalize_run` and `interrupt_run`
-- (web_listening/blocks/agentic_orchestration.py).
use web_listening.Prelude.{
  ℕ, Bool, true, false, not, ◌&&◌, ◌||◌, Option, none, some, List, [], ◌∷◌, ◌==◌, any, all,
  update_rows, length, if◌then◌else◌,
}
use web_listening.Ledger.Data.{
  Ident, Reason, run_cancelled, run_interrupted, Fence, Status, queued, running, completed, failed,
  cancelled, Identity, Run, Task, Ledger, Result, ok, err, Texts, run_lease_lost,
  run_transition_invalid, run_identity_invalid, run_replay_conflict, run_outcome_conflict,
  run_finalize_conflict, run_status_invalid, run_warning_invalid, replay_run_not_found,
  replay_source_not_terminal, replay_authority_mismatch, budget_reservation_active,
  task_required_set_unsealed, task_required_children_pending, task_required_children_unsuccessful,
  task_children_pending, integrity_error, is_terminal, same, same_status, same_warnings,
  same_identity,
}
use web_listening.Ledger.Guards.{observations_of, tasks_update_allowed}
use web_listening.Ledger.Store.{
  Action, pure, gets, raise, raise_if, ◌>>=◌, ◌>>◌, update_run, put_run, fenced, assert_run_fence,
  transaction,
}
use web_listening.Ledger.Outcome.{derive_parent_outcome, required_tasks}
use web_listening.Ledger.Rows.{
  parent_from_row, require_run, list_tasks, validate_terminal_run_evidence,
}

-- A result as an action that leaves the state alone.
abbrev pub from_result : {A : Type 0} → Result A → Action A
from_result r s = (r, s)

-- The row that `create_run` inserts.
abbrev pub new_run : Texts → Ident → Identity → Option Ident → ℕ → Run
new_run t run_id identity replay_of now = record {
  run_id = run_id;
  parent_task_id = t.parent_task_id run_id;
  identity = identity;
  replay_of_run_id = replay_of;
  status = running;
  requests_used = 0;
  bytes_used = 0;
  pages_used = 0;
  files_used = 0;
  warnings = [];
  required_sealed = false;
  active_reads = 0;
  lease_owner = none;
  lease_expires_at = none;
  lease_epoch = 0;
  created_at = now;
  finished_at = none;
}

-- `INSERT OR IGNORE INTO agentic_runs`: a row of that key stays. Two keys have two parent tasks, as
-- long as the hash that names them does not collide.
unfoldable pub insert_run : Ident → Run → Action (Unit {0})
insert_run run_id r s = elim (s.ledger.runs run_id) [
  | none ↦ (ok tt, record s { ledger = put_run run_id r s.ledger })
  | some _ ↦ (ok tt, s)
]

module _ (t : Texts) where
  unfoldable pub check_source : Identity → Option Run → Action (Unit {0})
  check_source identity none = raise replay_run_not_found
  check_source identity (some source) = do
    source' ← gets (λ s. parent_from_row t s.ledger source)
    from_result source'
    raise_if (not (is_terminal source.status)) replay_source_not_terminal
    raise_if (not (same_identity source.identity identity)) replay_authority_mismatch

  unfoldable pub check_replay : Identity → Option Ident → Action (Unit {0})
  check_replay identity none = pure tt
  check_replay identity (some source_id) = do
    source ← gets (λ s. s.ledger.runs source_id)
    check_source identity source

  unfoldable pub create_run : Ident → Identity → Option Ident → ℕ → Action Run
  create_run run_id identity replay_of now = do
    raise_if (not (t.is_source_run run_id)) run_identity_invalid
    check_replay identity replay_of
    insert_run run_id (new_run t run_id identity replay_of now)
    row ← gets (λ s. require_run t s.ledger run_id)
    parent ← from_result row
    raise_if
        (not (
          parent.parent_task_id == t.parent_task_id run_id
          && same_identity parent.identity identity
          && same parent.replay_of_run_id replay_of))
        run_replay_conflict
    pure parent

  -- `finalize_run` for a run that is not over.
  unfoldable pub finish_running :
      Ident → Status → List Reason → ℕ → Option Fence → Run → Action (Unit {0})
  finish_running run_id requested warnings now fence parent = do
    raise_if (not parent.required_sealed) task_required_set_unsealed
    raise_if (not (parent.active_reads == 0)) budget_reservation_active
    listed ← gets (λ s. list_tasks t s.ledger run_id)
    children ← from_result listed
    raise_if
        (same_status requested completed
          && any (λ x. not (is_terminal x.status)) (required_tasks children))
        task_required_children_pending
    raise_if
        (same_status requested completed
          && any (λ x. not (same_status x.status completed)) (required_tasks children))
        task_required_children_unsuccessful
    raise_if (any (λ x. not (is_terminal x.status)) children) task_children_pending
    expected ← from_result (derive_parent_outcome children warnings false)
    raise_if (not (same_status requested expected)) run_outcome_conflict
    evidence ← gets (λ s. validate_terminal_run_evidence t s.ledger run_id)
    from_result evidence
    changed ←
        update_run run_id
          (λ r.
            same_status r.status running
            && r.required_sealed
            && r.active_reads == 0
            && fenced fence r)
          (λ r. record r {
            status = requested;
            warnings = warnings;
            finished_at = some now;
            lease_owner = none;
            lease_expires_at = none;
          })
    raise_if (not changed) run_finalize_conflict

  unfoldable pub finish : Ident → Status → List Reason → ℕ → Option Fence → Run → Action (Unit {0})
  finish run_id requested warnings now fence parent =
      if is_terminal parent.status
      then raise_if
          (not (same_status parent.status requested)
            || not (same_warnings parent.warnings warnings))
          run_transition_invalid
      else finish_running run_id requested warnings now fence parent

  -- What `finalize_run` does under `with self.transaction()`.
  unfoldable pub finish_checked : Ident → Status → List Reason → (now now₁ : ℕ) → Action (Unit {0})
  finish_checked run_id requested warnings now now₁ = do
    fence ← assert_run_fence run_id now
    row ← gets (λ s. require_run t s.ledger run_id)
    parent ← from_result row
    finish run_id requested warnings now₁ fence parent

  -- `now` is when the fence is checked, and `now₁` when the run ends.
  unfoldable pub finalize_run : Ident → Status → List Reason → (now now₁ : ℕ) → Action Run
  finalize_run run_id requested given now now₁ = do
    raise_if (not (is_terminal requested)) run_status_invalid
    let warnings = t.sorted_set given
    raise_if (not (all t.is_reason_code warnings)) run_warning_invalid
    transaction (finish_checked run_id requested warnings now now₁)
    row ← gets (λ s. require_run t s.ledger run_id)
    from_result row

-- The tasks that an interruption ends: those of the run that are open.
abbrev pub is_open : Ident → Task → Bool
is_open run_id x =
    x.run_id == run_id && (same_status x.status queued || same_status x.status running)

abbrev pub end_task : Ledger → Status → Reason → ℕ → Task → Task
end_task l status reason now x = record x {
  status = status;
  failure_code = some reason;
  finished_at = some now;
  attempt_count = length (observations_of x.task_id l);
}

-- `UPDATE agentic_tasks SET … WHERE …`, where the trigger lets every changed row through.
unfoldable pub update_tasks : (Task → Bool) → (Task → Task) → Action (Unit {0})
update_tasks test change s =
    if all (λ x. not (test x) || tasks_update_allowed x (change x)) s.ledger.tasks
    then (
      ok tt,
      record s { ledger = record s.ledger { tasks = update_rows test change s.ledger.tasks } },
    )
    else (err integrity_error, s)

abbrev pub fenced_run : Option Fence → Option Run → Bool
fenced_run fence none = false
fenced_run fence (some r) = same_status r.status running && fenced fence r

-- The run itself, closed and sealed.
unfoldable pub end_run : Ident → Status → Reason → ℕ → Option Fence → Action (Unit {0})
end_run run_id status reason now fence = do
  changed ←
      update_run run_id (λ r. same_status r.status running && fenced fence r)
        (λ r. record r {
          status = status;
          warnings = reason ∷ [];
          finished_at = some now;
          active_reads = 0;
          lease_owner = none;
          lease_expires_at = none;
          required_sealed = true;
        })
  raise_if (not changed) run_lease_lost

unfoldable pub interrupt_running : Ident → Status → Reason → ℕ → Option Fence → Action (Unit {0})
interrupt_running run_id status reason now fence = do
  row ← gets (λ s. s.ledger.runs run_id)
  l ← gets (λ s. s.ledger)
  update_tasks (λ x. is_open run_id x && fenced_run fence row) (end_task l status reason now)
  end_run run_id status reason now fence

unfoldable pub interrupt_row :
    Ident → Status → Reason → ℕ → Option Fence → Option Run → Action (Unit {0})
interrupt_row run_id status reason now fence none = pure tt
interrupt_row run_id status reason now fence (some r) =
    if is_terminal r.status then pure tt else interrupt_running run_id status reason now fence

-- `now` is when it starts, and `now₁` when the fence is checked.
unfoldable pub interrupt_run : Ident → Bool → (now now₁ : ℕ) → Action (Unit {0})
interrupt_run run_id is_cancelled now now₁ = transaction (do
  fence ← assert_run_fence run_id now₁
  row ← gets (λ s. s.ledger.runs run_id)
  interrupt_row run_id (if is_cancelled then cancelled else failed)
      (if is_cancelled then run_cancelled else run_interrupted) now fence row)
