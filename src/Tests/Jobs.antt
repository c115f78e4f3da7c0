-- ===== src/Tests/Jobs.antt =====
-- Two jobs run on an empty table (web_listening/blocks/job_orchestration.py).
use web_listening.Prelude.{true, false, ℕ, ◌≡◌, refl, Option, none, some, [], ◌∷◌, pos}
use web_listening.Jobs.Data.{
  Job, JobStatus, running, summarize_artifacts, ordinary, Table, add_job, update_job,
}
use web_listening.Jobs.Reports.{
  Runner, RunResult, return_result, throw, report_progress, nothing, apply_update, is_encodable,
  run_reporting,
}
use web_listening.Jobs.Execution.{Clock, queued_job, started, execute_job}
use web_listening.Jobs.Outcomes.{HasEnded, run_alone, execute_job-HasEnded}

abbrev empty_table : Table
empty_table = record { rows = λ i. none; next = 1 }

abbrev clock : Clock
clock = record { accepted_at = 10; started_at = 11; finished_at = 20 }

-- The artifact `a_path`.
abbrev one_artifact : RunResult
one_artifact = record {
  scope_id = none;
  run_id = some 4;
  produced_artifacts = record { keys = (97 ∷ 95 ∷ 112 ∷ 97 ∷ 116 ∷ 104 ∷ []) ∷ []; is_json = true };
  artifact_summary = none;
}

-- A runner that reports 60, and then ends as its argument says.
abbrev at_sixty : Runner → Runner
at_sixty end = report_progress (record nothing { progress = some (pos 60) }) (λ job. end)

abbrev progress_of : Option Job → Option ℕ
progress_of none = none
progress_of (some job) = some job.progress

raises_at_five :
    progress_of
      ((execute_job 1 (some 3) (at_sixty (throw (ordinary 7))) clock empty_table).1.rows 1)
    ≡ some 5
unfolding execute_job run_reporting update_job add_job apply_update is_encodable
raises_at_five = refl

execute_job-HasEnded_example :
    HasEnded 1 empty_table
      (run_alone
        (at_sixty (throw (ordinary 7)))
        (apply_update (started clock) (queued_job 1 (some 3) clock)))
      (execute_job 1 (some 3) (at_sixty (throw (ordinary 7))) clock empty_table)
execute_job-HasEnded_example =
    execute_job-HasEnded 1 (some 3) (at_sixty (throw (ordinary 7))) clock empty_table

abbrev status_of : Option Job → Option JobStatus
status_of none = none
status_of (some job) = some job.status

-- A result that is not JSON leaves the job running.
not_json_left_running :
    status_of (
      (execute_job 1
          (some 3)
          (at_sixty (
            return_result
              (record one_artifact { produced_artifacts = record { keys = []; is_json = false } })))
          clock
          empty_table).1.rows
        1)
    ≡ some running
unfolding execute_job run_reporting update_job add_job apply_update is_encodable
not_json_left_running = refl

completed_at_hundred :
    progress_of
      ((execute_job 1 (some 3) (at_sixty (return_result one_artifact)) clock empty_table).1.rows 1)
    ≡ some 100
unfolding execute_job run_reporting update_job add_job apply_update is_encodable summarize_artifacts
completed_at_hundred = refl
