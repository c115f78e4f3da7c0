-- ===== src/Jobs/Execution.antt =====
-- The execution of a job that is written at every report
-- (web_listening/blocks/job_orchestration.py, `execute_job`).
use web_listening.Prelude.{ℕ, true, false, Option, none, some, [], pos, if◌then◌else◌, ltb, max}
use web_listening.Jobs.Data.{
  queued, running, completed, failed, accepted, loading_scope, completed_stage, failed_stage,
  waiting_to_start, preparing_execution, failed_before_completion, completed_successfully,
  RunnerError, rollback_required, ordinary, no_error, job_execution_error, Job, Table, Updated,
  add_job, update_job,
}
use web_listening.Jobs.Reports.{
  Update, RunResult, Runner, apply_update, nothing, Ended, gave, threw, reply_or, is_encodable,
  summary_or, run_reporting,
}

-- Readings of the clock, in the order in which the code takes them.
pub record Clock : Type 0 where
  pub accepted_at : ℕ
  pub started_at : ℕ
  pub finished_at : ℕ

abbrev pub queued_job : ℕ → Option ℕ → Clock → Job
queued_job job_type scope_id clock = record {
  job_type = job_type;
  status = queued;
  stage = accepted;
  stage_message = waiting_to_start;
  progress = 0;
  scope_id = scope_id;
  run_id = none;
  produced_artifacts = record { keys = []; is_json = true };
  artifact_summary = none;
  error = none;
  error_code = no_error;
  error_detail = none;
  is_retryable = false;
  accepted_at = some clock.accepted_at;
  started_at = none;
  finished_at = none;
}

abbrev pub started : Clock → Update
started clock = record nothing {
  status = some running;
  stage = some loading_scope;
  stage_message = some preparing_execution;
  progress = some (pos 5);
  started_at = some clock.started_at;
}

-- `max(5, min(progress, 95))`, of the job as it was when it was started.
abbrev failed_progress : Job → ℕ
failed_progress job = max 5 (if ltb job.progress 95 then job.progress else 95)

abbrev pub failure : ℕ → Job → Clock → Update
failure x job clock = record nothing {
  status = some failed;
  stage = some failed_stage;
  stage_message = some failed_before_completion;
  progress = some (pos (failed_progress job));
  error = some (some x);
  error_code = some job_execution_error;
  error_detail = some (some x);
  is_retryable = some true;
  finished_at = some clock.finished_at;
}

abbrev pub scope_or : Option (Option ℕ) → Option ℕ → Option ℕ
scope_or none scope_id = scope_id
scope_or (some id) scope_id = id

abbrev pub success : RunResult → Option ℕ → Clock → Update
success result scope_id clock = record nothing {
  status = some completed;
  stage = some completed_stage;
  stage_message = some completed_successfully;
  progress = some (pos 100);
  scope_id = scope_or result.scope_id scope_id;
  run_id = result.run_id;
  produced_artifacts = some result.produced_artifacts;
  artifact_summary = some (some (summary_or result.artifact_summary result.produced_artifacts));
  error = some none;
  error_code = some no_error;
  error_detail = some none;
  is_retryable = some false;
  finished_at = some clock.finished_at;
}

-- What `execute_job` does: it returns the job, or it raises.
pub data Executed : Type 0 where
  returned : Job → Executed
  raised : RunnerError → Executed

abbrev pub exception_number : RunnerError → ℕ
exception_number (rollback_required x) = x
exception_number (ordinary x) = x

-- `reporter.update` of the orchestration.
abbrev pub report_job : ℕ → Update → Table → Updated × Table
report_job id u t = update_job id (is_encodable u) (apply_update u) t

-- After the runner; `job` is the job as it was started. The update for a result stands outside the
-- `try`.
abbrev pub settle_job : Option ℕ → Clock → ℕ → Job → Ended → Table → Executed × Table
settle_job scope_id clock id job (gave result) t =
    let (reply, t') = report_job id (success result scope_id clock) t in
    (reply_or reply raised returned, t')
settle_job scope_id clock id job (threw x) t =
    let (reply, t') = report_job id (failure (exception_number x) job clock) t in
    (reply_or reply raised (λ _. raised x), t')

unfoldable pub execute_job : ℕ → Option ℕ → Runner → Clock → Table → Executed × Table
execute_job job_type scope_id runner clock t =
    let (id, added) = add_job (queued_job job_type scope_id clock) t in
    let (reply, begun) = report_job id (started clock) added in
    reply_or reply (λ x. (raised x, begun))
      (λ job.
        let (ended, t') = run_reporting runner id begun in
        settle_job scope_id clock id job ended t')
