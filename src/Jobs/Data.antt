-- ===== src/Jobs/Data.antt =====
-- Jobs, and the table of them (web_listening/models.py, `Job`; web_listening/blocks/storage.py).
use web_listening.Prelude.{
  sort_texts, ℕ, suc, Bool, true, false, Option, none, some, List, [], ◌∷◌, Text, ends_with, select,
  length, ◌==◌, if◌then◌else◌, ℤ, pos, negsuc, ltb,
}

pub data JobStatus : Type 0 where
  queued running completed failed : JobStatus

-- `stage`: those that the orchestration writes, and any other that a runner reports.
pub data Stage : Type 0 where
  accepted loading_scope completed_stage failed_stage : Stage
  reported_stage : ℕ → Stage

-- `stage_message`, likewise.
pub data StageMessage : Type 0 where
  waiting_to_start preparing_execution using_sealed_scope failed_before_completion : StageMessage
  completed_successfully : StageMessage
  reported_message : ℕ → StageMessage

-- An exception: one of `ROLLBACK_REQUIRED_READ_ERRORS`, or any other. The number stands for its class
-- and its text.
pub data RunnerError : Type 0 where
  rollback_required ordinary : ℕ → RunnerError

pub data JobErrorCode : Type 0 where
  no_error job_execution_error : JobErrorCode
  reported_error : ℕ → JobErrorCode

-- A dictionary of artifacts: its keys, each once, and whether `json.dumps` takes it.
pub record Artifacts : Type 0 where
  pub keys : List Text
  pub is_json : Bool

-- A summary of artifacts that is not the empty dictionary; a runner may give one of its own.
pub record Summary : Type 0 where
  pub artifact_count : ℕ
  pub artifact_keys : List Text
  pub path_keys : List Text
  pub has_artifacts : Bool
  pub is_json : Bool

-- `error` and `error_detail` stand for what the exception says; `none` is the empty text and the empty
-- dictionary. Of `artifact_summary`, `none` is the empty dictionary.
pub record Job : Type 0 where
  pub job_type : ℕ
  pub status : JobStatus
  pub stage : Stage
  pub stage_message : StageMessage
  pub progress : ℕ
  pub scope_id : Option ℕ
  pub run_id : Option ℕ
  pub produced_artifacts : Artifacts
  pub artifact_summary : Option Summary
  pub error : Option ℕ
  pub error_code : JobErrorCode
  pub error_detail : Option ℕ
  pub is_retryable : Bool
  pub accepted_at : Option ℕ
  pub started_at : Option ℕ
  pub finished_at : Option ℕ

-- `_path`
abbrev path_suffix : Text
path_suffix = 95 ∷ 112 ∷ 97 ∷ 116 ∷ 104 ∷ []

abbrev has_any : List Text → Bool
has_any [] = false
has_any (x ∷ xs) = true

unfoldable pub summarize_artifacts : Artifacts → Summary
summarize_artifacts artifacts =
    let keys = sort_texts artifacts.keys in
    record {
      artifact_count = length keys;
      artifact_keys = keys;
      path_keys = select (λ k. ends_with k path_suffix) keys;
      has_artifacts = has_any keys;
      is_json = true;
    }

-- `max(0, min(100, progress))`
abbrev pub bounded : ℤ → ℕ
bounded (pos n) = if ltb n 100 then n else 100
bounded (negsuc n) = 0

-- The table of jobs: the row of each identifier, and the next identifier.
pub record Table : Type 0 where
  pub rows : ℕ → Option Job
  pub next : ℕ

-- `add_job`: the new row's identifier.
unfoldable pub add_job : Job → Table → ℕ × Table
add_job job t =
    (t.next, record t { rows = λ i. if i == t.next then some job else t.rows i; next = suc t.next })

-- How `update_job` ends: with the row after the update, without a row, or with the `TypeError` of
-- `json.dumps`, which comes before the statement.
pub data Updated : Type 0 where
  written : Job → Updated
  no_row not_encoded : Updated

-- `update_job`; `is_json` says whether `json.dumps` takes the values.
unfoldable pub update_job : ℕ → (is_json : Bool) → (Job → Job) → Table → Updated × Table
update_job id is_json change t =
    if is_json
    then elim (t.rows id) [
      | none ↦ (no_row, t)
      | some job ↦ (
        written (change job),
        record t { rows = λ i. if i == id then some (change job) else t.rows i },
      )
    ]
    else (not_encoded, t)
