-- ===== src/Tests/Runs.antt =====
-- Runs, tasks and observations on small tables
-- (web_listening/blocks/agentic_orchestration.py).
use web_listening.Prelude.{◌↔◌, ◌≡◌, ◌⊎◌, refl, Bool, true, false, none, some, List, [], ◌∷◌, any}
use web_listening.Ledger.Data.{Reason, code, ok, completed, failed, same_identity}
use web_listening.Ledger.Guards.{
  tasks_insert_allowed, runs_update_allowed, terminal_evidence_allowed, tasks_update_allowed,
  task_frozen, same_request, same_target, same_origin, same_adapters, read_evidence,
}
use web_listening.Ledger.Store.{assert_run_fence, update_run, transaction}
use web_listening.Ledger.Lease.{acquire_run_lease}
use web_listening.Ledger.Budget.{reserve_read_budget, finish_read_budget}
use web_listening.Ledger.Outcome.{derive_parent_outcome, is_empty, required_tasks}
use web_listening.Ledger.Discovery.{
  task_discovery_valid, provenance_valid, follow_redirects, discovered,
}
use web_listening.Ledger.Runs.{create_run, check_replay, insert_run, finalize_run, interrupt_run}
use web_listening.Ledger.Tasks.{create_task}
use web_listening.Ledger.Calls.{perform, perform_all}
use web_listening.Ledger.Tasks.{
  transition_task, transition_open, find_replay, insert_if_new, insert_task, read_task,
  request_valid,
}
use web_listening.Ledger.Lease.{seal_required_tasks}
use web_listening.Ledger.Rows.{
  task_row_valid, observation_row_valid, list_tasks, list_observations, search_evidence,
  read_task_evidence, validate_terminal_run_evidence, run_row_valid, terminal_run_valid,
  parent_from_row, require_run,
}
use web_listening.Ledger.Runs.{
  insert_run, check_replay, create_run, finish_running, finish, finish_checked, update_tasks,
  end_run, interrupt_running, interrupt_row,
}
use web_listening.Ledger.History.{Evolves}
use web_listening.Ledger.Audit.{perform_all-Evolves}
use web_listening.Ledger.Bounds.{AreWithin, perform_all-AreWithin}
use web_listening.Ledger.Ending.{
  IsEnding, IsRepeat, is_unfinished, finalize_run-IsEnding, derive_parent_outcome-completed,
}
use web_listening.Ledger.Interrupting.{IsInterrupted, interrupt_run-IsInterrupted}
use web_listening.Ledger.Repeating.{create_run-create_run}
use web_listening.Ledger.Evidence.{IsTraced, provenance_valid-IsTraced, create_task-sealed}
use web_listening.Tests.Tables.{
  texts, limits, identity, no_rows, one_run, alone, fresh_run, request, task, lifecycle, progress,
  leased_run, holder, sealed_run, ready, failed_run, half_done, hops, at_start, completed_task,
}

lifecycle-progress :
    progress ((perform_all texts limits lifecycle (alone no_rows)).ledger.runs 1)
    ≡ some (failed, 1, 300)
unfolding perform perform_all acquire_run_lease seal_required_tasks reserve_read_budget
    finish_read_budget finalize_run finish_checked finish finish_running transaction create_run
    check_replay insert_run create_task find_replay insert_if_new insert_task read_task
    request_valid transition_task transition_open update_tasks assert_run_fence update_run
    runs_update_allowed terminal_evidence_allowed tasks_update_allowed task_frozen same_request
    same_target same_origin same_adapters read_evidence same_identity derive_parent_outcome
    task_row_valid observation_row_valid list_tasks list_observations search_evidence
    read_task_evidence validate_terminal_run_evidence run_row_valid terminal_run_valid
    parent_from_row require_run task_discovery_valid tasks_insert_allowed
lifecycle-progress = refl

perform_all-Evolves_example :
    Evolves (alone no_rows) (perform_all texts limits lifecycle (alone no_rows))
perform_all-Evolves_example = perform_all-Evolves texts limits lifecycle (alone no_rows)

perform_all-AreWithin_example :
    AreWithin limits ((perform_all texts limits lifecycle (alone no_rows)).ledger.runs 1)
perform_all-AreWithin_example =
    perform_all-AreWithin texts limits lifecycle (alone no_rows) (λ k. tt) 1

finalize_run-IsEnding_example :
    IsEnding texts 1 failed [] 8 ready (finalize_run texts 1 failed [] 7 8 ready).1
    ⊎ IsRepeat 1 failed ready (finalize_run texts 1 failed [] 7 8 ready).1
unfolding finalize_run finish_checked finish finish_running transaction assert_run_fence update_run
    runs_update_allowed terminal_evidence_allowed same_identity read_evidence derive_parent_outcome
    task_row_valid observation_row_valid list_tasks list_observations search_evidence
    read_task_evidence validate_terminal_run_evidence run_row_valid terminal_run_valid
    parent_from_row require_run task_discovery_valid
finalize_run-IsEnding_example = finalize_run-IsEnding texts 1 failed [] 7 8 failed_run ready refl

interrupt_run-IsInterrupted_example :
    IsInterrupted 1 true 9 leased_run half_done (interrupt_run 1 true 9 9 half_done).1
unfolding interrupt_run interrupt_row interrupt_running end_run update_tasks transaction
    assert_run_fence update_run runs_update_allowed terminal_evidence_allowed tasks_update_allowed
    task_frozen same_request same_target same_origin same_adapters same_identity read_evidence
interrupt_run-IsInterrupted_example =
    interrupt_run-IsInterrupted 1 true 9 9 leased_run half_done refl refl refl

provenance_valid-IsTraced_example :
    IsTraced texts task completed (some 52) (some 52) (some 200) (some 4) hops
unfolding provenance_valid follow_redirects discovered
provenance_valid-IsTraced_example =
    provenance_valid-IsTraced texts task completed (code 1) (some 52) (some 52) (some 200) (some 4)
      hops at_start refl

create_task-sealed_example :
    (create_task texts request 5 5 (record (holder []) { ledger = one_run sealed_run [] })).1
    ≡ record (holder []) { ledger = one_run sealed_run [] }
create_task-sealed_example =
    create_task-sealed texts request 5 5 sealed_run
      (record (holder []) { ledger = one_run sealed_run [] }) refl refl refl

derive_parent_outcome-completed_example :
    (derive_parent_outcome (completed_task ∷ []) [] false ≡ ok completed) ↔ (
      (◌≡◌ {A = List Reason} [] [])
      × (◌≡◌ {A = Bool} false false)
      × (is_empty (required_tasks (completed_task ∷ [])) ≡ false)
      × (any is_unfinished (completed_task ∷ []) ≡ false))
derive_parent_outcome-completed_example =
    derive_parent_outcome-completed (completed_task ∷ []) [] false

create_run-create_run_example :
    create_run texts 1 identity none 9 (create_run texts 1 identity none 0 (alone no_rows)).1
    ≡ (ok fresh_run, (create_run texts 1 identity none 0 (alone no_rows)).1)
unfolding create_run check_replay insert_run same_identity run_row_valid parent_from_row require_run
create_run-create_run_example =
    create_run-create_run texts 1 identity 0 9 fresh_run (alone no_rows) refl
