-- ===== src/Ledger/Outcome.antt =====
-- `_derive_parent_outcome` (web_listening/blocks/agentic_orchestration.py): the status that a run
-- takes from its tasks and warnings.
use web_listening.Prelude.{
  Bool, true, false, not, ◌&&◌, ◌||◌, List, [], ◌∷◌, any, select, if◌then◌else◌,
}
use web_listening.Ledger.Data.{
  Reason, run_cancelled, run_interrupted, Status, completed, partial, rejected, failed, cancelled,
  Task, Result, ok, err, task_children_pending, task_required_children_missing, is_terminal,
  same_status, same_reason,
}

abbrev pub is_empty {ℓ} : {A : Type ℓ} → List A → Bool
is_empty [] = true
is_empty (_ ∷ _) = false

abbrev pub some_task : Status → List Task → Bool
some_task status tasks = any (λ t. same_status t.status status) tasks

abbrev pub required_tasks : List Task → List Task
required_tasks tasks = select (λ t. t.required) tasks

unfoldable pub derive_parent_outcome : List Task → List Reason → Bool → Result Status
derive_parent_outcome tasks warnings is_cancelled =
    let required = required_tasks tasks in
    if is_empty tasks || any (λ t. not (is_terminal t.status)) tasks
    then err task_children_pending
    else if any (same_reason run_cancelled) warnings
    then ok cancelled
    else if any (same_reason run_interrupted) warnings
    then ok failed
    else if is_empty required
    then err task_required_children_missing
    else if is_cancelled || some_task cancelled tasks
    then ok cancelled
    else if not (is_empty warnings) && some_task completed tasks
    then ok partial
    else if some_task failed required
    then ok failed
    else if some_task rejected required
    then ok rejected
    else if some_task partial required
    then ok partial
    else if not (is_empty warnings) || any (λ t. not (same_status t.status completed)) tasks
    then ok partial
    else ok completed
