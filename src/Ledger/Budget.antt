-- ===== src/Ledger/Budget.antt =====
-- The read budget of a run: `reserve_read_budget`, `begin_read_budget`, `consume_target_request` and
-- `finish_read_budget` (web_listening/blocks/agentic_orchestration.py). Each method takes those
-- limits that it names. Python's test that a number is an exact int is met by the type.
use web_listening.Prelude.{
  ℕ, ◌+◌, ◌-◌, Bool, not, ◌&&◌, ◌||◌, Option, none, some, leb, ltb, if◌then◌else◌,
}
use web_listening.Ledger.Data.{
  Ident, Fence, running, Run, Limits, run_not_found, run_transition_invalid, budget_limit_invalid,
  budget_usage_invalid, budget_reservation_conflict, budget_reservation_missing,
  budget_requests_exhausted, budget_bytes_exhausted, budget_pages_exhausted, budget_files_exhausted,
  budget_concurrency_exhausted, same_status,
}
use web_listening.Ledger.Store.{
  Action, pure, gets, raise, raise_if, require, ◌>>=◌, ◌>>◌, update_run, fenced, assert_run_fence,
}

unfoldable pub reserve_read_budget : Ident → Limits → ℕ → Action ℕ
reserve_read_budget run_id limits now = do
  raise_if
      (ltb limits.max_requests 1
        || ltb limits.max_bytes 1
        || ltb limits.max_files 1
        || ltb limits.max_concurrency 1)
      budget_limit_invalid
  fence ← assert_run_fence run_id now
  row ← gets (λ s. s.ledger.runs run_id)
  r ← require row run_not_found
  raise_if (not (same_status r.status running)) run_transition_invalid
  raise_if (leb limits.max_requests r.requests_used) budget_requests_exhausted
  raise_if (leb limits.max_bytes r.bytes_used) budget_bytes_exhausted
  raise_if (leb limits.max_files r.files_used) budget_files_exhausted
  raise_if (leb limits.max_concurrency r.active_reads) budget_concurrency_exhausted
  changed ←
      update_run run_id
        (λ r'.
          same_status r'.status running
          && ltb r'.requests_used limits.max_requests
          && ltb r'.bytes_used limits.max_bytes
          && ltb r'.files_used limits.max_files
          && ltb r'.active_reads limits.max_concurrency
          && fenced fence r')
        (λ r'. record r' {
          requests_used = r'.requests_used + 1;
          active_reads = r'.active_reads + 1;
        })
  raise_if (not changed) budget_reservation_conflict
  pure (limits.max_bytes - r.bytes_used)

-- `max_files` is checked and then not used.
unfoldable pub begin_read_budget : Ident → Limits → ℕ → Action ℕ
begin_read_budget run_id limits now = do
  raise_if
      (ltb limits.max_requests 1
        || ltb limits.max_bytes 1
        || ltb limits.max_files 1
        || ltb limits.max_concurrency 1)
      budget_limit_invalid
  fence ← assert_run_fence run_id now
  row ← gets (λ s. s.ledger.runs run_id)
  r ← require row run_not_found
  raise_if (not (same_status r.status running)) run_transition_invalid
  raise_if (leb limits.max_requests r.requests_used) budget_requests_exhausted
  raise_if (leb limits.max_bytes r.bytes_used) budget_bytes_exhausted
  raise_if (leb limits.max_concurrency r.active_reads) budget_concurrency_exhausted
  changed ←
      update_run run_id
        (λ r'.
          same_status r'.status running
          && ltb r'.requests_used limits.max_requests
          && ltb r'.bytes_used limits.max_bytes
          && ltb r'.active_reads limits.max_concurrency
          && fenced fence r')
        (λ r'. record r' { active_reads = r'.active_reads + 1 })
  raise_if (not changed) budget_reservation_conflict
  pure (limits.max_bytes - r.bytes_used)

-- Why no row was changed.
abbrev pub consume_failure : ℕ → Option Run → Action (Unit {0})
consume_failure max_requests none = raise budget_reservation_missing
consume_failure max_requests (some r) = do
  raise_if (leb max_requests r.requests_used) budget_requests_exhausted
  raise budget_reservation_missing

unfoldable pub consume_target_request : Ident → ℕ → ℕ → Action (Unit {0})
consume_target_request run_id max_requests now = do
  raise_if (ltb max_requests 1) budget_limit_invalid
  fence ← assert_run_fence run_id now
  changed ←
      update_run run_id
        (λ r.
          same_status r.status running
          && ltb 0 r.active_reads
          && ltb r.requests_used max_requests
          && fenced fence r)
        (λ r. record r { requests_used = r.requests_used + 1 })
  row ← gets (λ s. s.ledger.runs run_id)
  if changed then pure tt else consume_failure max_requests row

-- What one read has used; a page or a file is 0 or 1.
pub record Usage : Type 0 where
  pub bytes_read : ℕ
  pub pages : ℕ
  pub files : ℕ

abbrev pub finish_failure : Usage → Limits → Option Run → Action (Unit {0})
finish_failure u limits none = raise budget_reservation_missing
finish_failure u limits (some r) = do
  raise_if (ltb limits.max_bytes (r.bytes_used + u.bytes_read)) budget_bytes_exhausted
  raise_if (ltb limits.max_pages (r.pages_used + u.pages)) budget_pages_exhausted
  raise_if (ltb limits.max_files (r.files_used + u.files)) budget_files_exhausted
  raise budget_reservation_missing

abbrev pub can_settle : Usage → Limits → Option Fence → Run → Bool
can_settle u limits fence r =
    same_status r.status running
    && ltb 0 r.active_reads
    && leb (r.bytes_used + u.bytes_read) limits.max_bytes
    && leb (r.pages_used + u.pages) limits.max_pages
    && leb (r.files_used + u.files) limits.max_files
    && fenced fence r

abbrev pub settled_row : Usage → Run → Run
settled_row u r = record r {
  bytes_used = r.bytes_used + u.bytes_read;
  pages_used = r.pages_used + u.pages;
  files_used = r.files_used + u.files;
  active_reads = r.active_reads - 1;
}

unfoldable pub finish_read_budget : Ident → Usage → Limits → ℕ → Action (Unit {0})
finish_read_budget run_id u limits now = do
  raise_if (ltb 1 u.pages || ltb 1 u.files || ltb 1 (u.pages + u.files)) budget_usage_invalid
  fence ← assert_run_fence run_id now
  changed ← update_run run_id (can_settle u limits fence) (settled_row u)
  row ← gets (λ s. s.ledger.runs run_id)
  if changed then pure tt else finish_failure u limits row
