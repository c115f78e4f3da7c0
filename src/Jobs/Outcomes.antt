-- ===== src/Jobs/Outcomes.antt =====
-- What the table holds when a job has been executed (web_listening/blocks/job_orchestration.py).
use web_listening.Prelude.{
  ℕ, ◌≡◌, ◌⊎◌, refl, sym, ap, ◌∙◌, arith, Bool, true, false, ◌&&◌, Option, none, some, ◌==◌,
  if◌then◌else◌, Bool-cases, Option-cases, inl, inr,
}
use mathlib.Core.Path.{subst}
use web_listening.Jobs.Data.{
  completed, failed, Summary, Job, Table, Updated, written, not_encoded, summarize_artifacts,
  add_job, update_job,
}
use web_listening.Jobs.Reports.{
  Update, RunResult, Runner, return_result, throw, report_progress, apply_update, is_encodable,
  Ended, gave, threw, not_json, reply_or, run_reporting,
}
use web_listening.Jobs.Execution.{
  Clock, queued_job, started, failure, success, exception_number, Executed, returned, raised,
  settle_job, execute_job,
}

-- A runner without a table: its reports change one job in memory. With the job as the runner left it.
unfoldable pub run_alone : Runner → Job → Ended × Job
run_alone (return_result r) job = (gave r, job)
run_alone (throw x) job = (threw x, job)
run_alone (report_progress u next) job =
    let job' = apply_update u job in
    let rest = run_alone (next job') job' in if is_encodable u then rest else (threw not_json, job)

-- The row of one job is there, and those of the others are as they were.
pub record IsRow (id : ℕ) (before after : Table) (job : Job) : Type 0 where
  pub row : after.rows id ≡ some job
  pub others : (i : ℕ) → (i == id) ≡ false → after.rows i ≡ before.rows i

update_job-IsRow :
    (id : ℕ) (is_json : Bool) (change : Job → Job) (before t : Table) (job : Job)
    → is_json ≡ true
    → IsRow id before t job
    → ((update_job id is_json change t).0 ≡ written (change job))
      × IsRow id before (update_job id is_json change t).1 (change job)
unfolding update_job
update_job-IsRow id is_json change before t job e h = (
  ground (arith, h.row),
  record { row = ground (arith, h.row); others = λ i k. ground (arith, h.row, h.others i k) },
)

update_job-not_encoded :
    (id : ℕ) (is_json : Bool) (change : Job → Job) (t : Table)
    → is_json ≡ false
    → update_job id is_json change t ≡ (not_encoded, t)
unfolding update_job
update_job-not_encoded id is_json change t e = rw e refl

run_reporting-report_progress :
    (u : Update) (next : Job → Runner) (id : ℕ) (t : Table) (reply : Updated)
    → (update_job id (is_encodable u) (apply_update u) t).0 ≡ reply
    → run_reporting (report_progress u next) id t
      ≡ reply_or reply
          (λ x. (threw x, (update_job id (is_encodable u) (apply_update u) t).1))
          (λ job. run_reporting (next job) id (update_job id (is_encodable u) (apply_update u) t).1)
unfolding run_reporting
run_reporting-report_progress u next id t reply e =
    ap
      (λ reply'.
        reply_or reply' (λ x. (threw x, (update_job id (is_encodable u) (apply_update u) t).1))
          (λ job.
            run_reporting (next job) id (update_job id (is_encodable u) (apply_update u) t).1))
      e

run_alone_on :
    (u : Update) (next : Job → Runner) (job : Job)
    → is_encodable u ≡ true
    → run_alone (report_progress u next) job
      ≡ run_alone (next (apply_update u job)) (apply_update u job)
unfolding run_alone
run_alone_on u next job e = rw e refl

run_alone_off :
    (u : Update) (next : Job → Runner) (job : Job)
    → is_encodable u ≡ false
    → run_alone (report_progress u next) job ≡ (threw not_json, job)
unfolding run_alone
run_alone_off u next job e = rw e refl

-- Two ends of a runner are the same, and the row is the job that it leaves.
abbrev IsSameEnd : ℕ → Table → Ended × Table → Ended × Job → Type 0
IsSameEnd id before (ended, t) (ended', job) = (ended ≡ ended') × IsRow id before t job

run_reporting-IsSameEnd :
    (u : Update) (next : Job → Runner) (id : ℕ) (before t : Table) (job : Job)
    → IsRow id before t job
    → ((t' : Table)
        → IsRow id before t' (apply_update u job)
        → IsSameEnd id before
            (run_reporting (next (apply_update u job)) id t')
            (run_alone (next (apply_update u job)) (apply_update u job)))
    → IsSameEnd id before
        (run_reporting (report_progress u next) id t)
        (run_alone (report_progress u next) job)
run_reporting-IsSameEnd u next id before t job h rest = elim (Bool-cases (is_encodable u)) [
  | inl good ↦
      let (reply, kept) =
        update_job-IsRow id (is_encodable u) (apply_update u) before t job good h in
      rw
        (
          run_reporting-report_progress u next id t (written (apply_update u job)) reply,
          run_alone_on u next job good,
        )
        (rest (update_job id (is_encodable u) (apply_update u) t).1 kept)
  | inr bad ↦
      let skipped = update_job-not_encoded id (is_encodable u) (apply_update u) t bad in
      rw
        (
          run_reporting-report_progress u next id t not_encoded (ap (λ r. r.0) skipped),
          run_alone_off u next job bad,
          skipped,
        )
        (refl, h)
]

-- A runner that reports to the table ends as it does alone, and the row is the job it leaves.
run_reporting-IsRow :
    (runner : Runner) (id : ℕ) (before t : Table) (job : Job)
    → IsRow id before t job
    → IsSameEnd id before (run_reporting runner id t) (run_alone runner job)
unfolding run_reporting run_alone
run_reporting-IsRow (return_result r) id before t job h = (refl, h)
run_reporting-IsRow (throw x) id before t job h = (refl, h)
run_reporting-IsRow (report_progress u next) id before t job h =
    run_reporting-IsSameEnd u next id before t job h (λ t' h'.
      run_reporting-IsRow (next (apply_update u job)) id before t' (apply_update u job) h')

abbrev given_is_json : Option Summary → Bool
given_is_json none = true
given_is_json (some s) = s.is_json

-- Whether `json.dumps` takes what a result has.
abbrev pub result_is_json : RunResult → Bool
result_is_json r = r.produced_artifacts.is_json && given_is_json r.artifact_summary

-- What an execution leaves, whose runner has ended so and left that job.
abbrev pub HasEnded : ℕ → Table → Ended × Job → Executed × Table → Type 0
HasEnded id before (gave r, last) (e, after) =
    ((result_is_json r ≡ true)
      × ((job : Job) × (e ≡ returned job)
          × IsRow id before after job
          × (job.status ≡ completed)
          × (job.progress ≡ 100)
          × (job.error ≡ none)
          × (job.is_retryable ≡ false)
          × (job.produced_artifacts ≡ r.produced_artifacts)))
    ⊎ ((result_is_json r ≡ false) × (e ≡ raised not_json) × IsRow id before after last)
HasEnded id before (threw x, last) (e, after) =
    (e ≡ raised x)
    × ((job : Job) × IsRow id before after job
        × (job.status ≡ failed)
        × (job.progress ≡ 5)
        × (job.error ≡ some (exception_number x))
        × (job.is_retryable ≡ true)
        × (job.produced_artifacts ≡ last.produced_artifacts))

is_encodable-success :
    (result : RunResult) (scope_id : Option ℕ) (clock : Clock)
    → is_encodable (success result scope_id clock) ≡ result_is_json result
unfolding is_encodable summarize_artifacts
is_encodable-success result scope_id clock = elim (Option-cases result.artifact_summary) [
  | inl e ↦ rw e refl
  | inr (s, e) ↦ rw e refl
]

settle_job-HasEnded :
    (scope_id : Option ℕ) (clock : Clock) (id : ℕ) (first : Job) (ended : Ended) (before t : Table)
    (job : Job)
    → first.progress ≡ 5
    → IsRow id before t job
    → HasEnded id before (ended, job) (settle_job scope_id clock id first ended t)
unfolding apply_update is_encodable
settle_job-HasEnded scope_id clock id first (gave result) before t job e h =
    let u = success result scope_id clock in
    let json = is_encodable-success result scope_id clock in
    elim (Bool-cases (result_is_json result)) [
      | inl good ↦
          let (reply, kept) =
            update_job-IsRow id (is_encodable u) (apply_update u) before t job (json ∙ good) h in
          inl (
            good,
            (
              apply_update u job,
              ap (λ r. reply_or r raised returned) reply,
              kept,
              refl,
              refl,
              refl,
              refl,
              refl,
            ),
          )
      | inr bad ↦
          let skipped =
            update_job-not_encoded id (is_encodable u) (apply_update u) t (json ∙ bad) in
          inr (
            bad,
            ap (λ r. reply_or r.0 raised returned) skipped,
            subst (λ t'. IsRow id before t' job) (sym (ap (λ r. r.1) skipped)) h,
          )
    ]
settle_job-HasEnded scope_id clock id first (threw x) before t job e h =
    let u = failure (exception_number x) first clock in
    let (reply, kept) = update_job-IsRow id true (apply_update u) before t job refl h in
    (
      ap (λ r. reply_or r raised (λ _. raised x)) reply,
      (apply_update u job, kept, refl, rw e refl, refl, refl, refl),
    )

run_started-HasEnded :
    (scope_id : Option ℕ) (clock : Clock) (id : ℕ) (runner : Runner) (reply : Updated)
    (before t : Table) (first : Job)
    → reply ≡ written first
    → first.progress ≡ 5
    → IsRow id before t first
    → HasEnded id before (run_alone runner first) (
        reply_or reply
          (λ x. (raised x, t))
          (λ job.
            let (ended, t') = run_reporting runner id t in
            settle_job scope_id clock id job ended t'))
run_started-HasEnded scope_id clock id runner reply before t first e p h =
    let (ended, t') = run_reporting runner id t in
    let last = (run_alone runner first).1 in
    let (same, ran) = run_reporting-IsRow runner id before t first h in
    rw e (
      subst
        (λ ended'. HasEnded id before (ended', last) (settle_job scope_id clock id first ended t'))
        same (settle_job-HasEnded scope_id clock id first ended before t' last p ran))

add_job-IsRow : (job : Job) (t : Table) → IsRow t.next t (add_job job t).1 job
unfolding add_job
add_job-IsRow job t = record { row = ground arith; others = λ i e. ground (arith, e) }

-- An execution adds one row and changes no other, whatever its runner reports, and the runner ends as
-- it does alone, on one job in memory. Where that gives a result that is JSON, the execution returns
-- the row, completed at 100, without an error, and with the result's artifacts. Where the result is
-- not JSON, the execution raises, and the row stays as the runner's last report left it. Where the
-- runner raises, the execution raises the same, and the row is failed at 5 with that error, whatever
-- progress was reported, and may be tried again.
pub execute_job-HasEnded :
    (job_type : ℕ) (scope_id : Option ℕ) (runner : Runner) (clock : Clock) (t : Table)
    → HasEnded t.next t
        (run_alone runner (apply_update (started clock) (queued_job job_type scope_id clock)))
        (execute_job job_type scope_id runner clock t)
unfolding execute_job add_job apply_update is_encodable
execute_job-HasEnded job_type scope_id runner clock t =
    let job = queued_job job_type scope_id clock in
    let added = (add_job job t).1 in
    let u = started clock in
    let (reply, begun) =
      update_job-IsRow t.next (is_encodable u) (apply_update u) t added job refl
        (add_job-IsRow job t) in
    let first = apply_update u job in
    run_started-HasEnded scope_id clock t.next runner
      (update_job t.next (is_encodable u) (apply_update u) added).0 t
      (update_job t.next (is_encodable u) (apply_update u) added).1 first reply refl begun
