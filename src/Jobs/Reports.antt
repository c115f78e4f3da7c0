-- ===== src/Jobs/Reports.antt =====
-- What a runner reports of its job, and the reporter that writes it
-- (web_listening/blocks/job_orchestration.py, `JobProgressReporter`).
use web_listening.Prelude.{ℕ, Bool, true, ◌&&◌, Option, none, some, ℤ}
use web_listening.Jobs.Data.{
  JobStatus, Stage, StageMessage, RunnerError, ordinary, JobErrorCode, Artifacts, Summary, Job,
  summarize_artifacts, bounded, Table, Updated, written, no_row, not_encoded, update_job,
}

-- The keyword arguments of the reporter's `update`; `none` is `None`, as where one is not given. Of
-- `artifact_summary`, `error` and `error_detail` the inner `none` is the empty dictionary or text. An
-- `error_detail` is a dictionary of texts.
pub record Update : Type 0 where
  pub status : Option JobStatus
  pub stage : Option Stage
  pub stage_message : Option StageMessage
  pub progress : Option ℤ
  pub scope_id : Option ℕ
  pub run_id : Option ℕ
  pub produced_artifacts : Option Artifacts
  pub artifact_summary : Option (Option Summary)
  pub error : Option (Option ℕ)
  pub error_code : Option JobErrorCode
  pub error_detail : Option (Option ℕ)
  pub is_retryable : Option Bool
  pub started_at : Option ℕ
  pub finished_at : Option ℕ

-- What a runner returns. `scope_id` is `none` where the key is absent, and `artifact_summary` where it is
-- absent or the empty dictionary.
pub record RunResult : Type 0 where
  pub scope_id : Option (Option ℕ)
  pub run_id : Option ℕ
  pub produced_artifacts : Artifacts
  pub artifact_summary : Option Summary

-- A runner: it reports to its reporter any number of times, reads the job that comes back, and returns
-- or raises.
pub data Runner : Type 0 where
  return_result : RunResult → Runner
  throw : RunnerError → Runner
  report_progress : Update → (Job → Runner) → Runner

abbrev or_keep : {A : Type 0} → Option A → A → A
or_keep none old = old
or_keep (some new) old = new

abbrev or_keep_id : Option ℕ → Option ℕ → Option ℕ
or_keep_id none old = old
or_keep_id (some new) old = some new

abbrev bounded_or : Option ℤ → ℕ → ℕ
bounded_or none old = old
bounded_or (some p) old = bounded p

-- `artifact_summary or _summarize_artifacts(produced_artifacts)`
abbrev pub summary_or : Option Summary → Artifacts → Summary
summary_or none artifacts = summarize_artifacts artifacts
summary_or (some s) artifacts = s

-- A keyword whose value may be empty, as the value: `None` and the empty dictionary are both false.
abbrev value_of : Option (Option Summary) → Option Summary
value_of none = none
value_of (some s) = s

abbrev new_summary : Update → Option Summary → Option Summary
new_summary u old = elim u.produced_artifacts [
  | some artifacts ↦ some (summary_or (value_of u.artifact_summary) artifacts)
  | none ↦ or_keep u.artifact_summary old
]

abbrev artifacts_is_json : Option Artifacts → Bool
artifacts_is_json none = true
artifacts_is_json (some a) = a.is_json

abbrev summary_is_json : Option (Option Summary) → Bool
summary_is_json (some (some s)) = s.is_json
summary_is_json _ = true

-- Whether `json.dumps` takes what the update writes. A summary that the reporter makes is JSON.
unfoldable pub is_encodable : Update → Bool
is_encodable u = artifacts_is_json u.produced_artifacts && summary_is_json u.artifact_summary

-- The fields that an update sets.
unfoldable pub apply_update : Update → Job → Job
apply_update u job = record job {
  status = or_keep u.status job.status;
  stage = or_keep u.stage job.stage;
  stage_message = or_keep u.stage_message job.stage_message;
  progress = bounded_or u.progress job.progress;
  scope_id = or_keep_id u.scope_id job.scope_id;
  run_id = or_keep_id u.run_id job.run_id;
  produced_artifacts = or_keep u.produced_artifacts job.produced_artifacts;
  artifact_summary = new_summary u job.artifact_summary;
  error = or_keep u.error job.error;
  error_code = or_keep u.error_code job.error_code;
  error_detail = or_keep u.error_detail job.error_detail;
  is_retryable = or_keep u.is_retryable job.is_retryable;
  started_at = or_keep_id u.started_at job.started_at;
  finished_at = or_keep_id u.finished_at job.finished_at;
}

-- An update that sets nothing.
abbrev pub nothing : Update
nothing = record {
  status = none;
  stage = none;
  stage_message = none;
  progress = none;
  scope_id = none;
  run_id = none;
  produced_artifacts = none;
  artifact_summary = none;
  error = none;
  error_code = none;
  error_detail = none;
  is_retryable = none;
  started_at = none;
  finished_at = none;
}

pub data Ended : Type 0 where
  gave : RunResult → Ended
  threw : RunnerError → Ended

-- `RuntimeError`: the row of the job is gone.
abbrev pub disappeared : RunnerError
disappeared = ordinary 0

-- `TypeError`, of `json.dumps`.
abbrev pub not_json : RunnerError
not_json = ordinary 1

-- `update` of a reporter: the job, or what it raises.
abbrev pub reply_or : {A : Type 0} → Updated → (RunnerError → A) → (Job → A) → A
reply_or (written job) raise next = next job
reply_or no_row raise next = raise disappeared
reply_or not_encoded raise next = raise not_json

-- A runner with its reporter: each report is written to the table at once. A runner does not catch
-- what its reporter raises.
unfoldable pub run_reporting : Runner → ℕ → Table → Ended × Table
run_reporting (return_result r) id t = (gave r, t)
run_reporting (throw x) id t = (threw x, t)
run_reporting (report_progress u next) id t =
    let (reply, t') = update_job id (is_encodable u) (apply_update u) t in
    reply_or reply (λ x. (threw x, t')) (λ job. run_reporting (next job) id t')
