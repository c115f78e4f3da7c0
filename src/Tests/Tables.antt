-- ===== src/Tests/Tables.antt =====
-- Small tables, and calls on them
-- (web_listening/blocks/agentic_orchestration.py).
use web_listening.Prelude.{
  ℕ, ◌+◌, ◌*◌, true, false, Option, none, some, List, [], ◌∷◌, ◌==◌, if◌then◌else◌,
}
use web_listening.Ledger.Data.{
  Reason, code, Status, Identity, Run, Task, Hop, DiscoveryEvidence, Ledger, Repository, Limits,
  Claim, Texts, running, completed, failed, read, seed,
}
use web_listening.Ledger.Lease.{with_lease}
use web_listening.Ledger.Budget.{Usage}
use web_listening.Ledger.Runs.{new_run}
use web_listening.Ledger.Tasks.{Request, new_task}
use web_listening.Ledger.Calls.{Call}
use web_listening.Ledger.Tasks.{Change}
use web_listening.Ledger.Workers.{System, after_call}

abbrev pub texts : Texts
texts = record {
  is_identity = λ _. true;
  is_semver = λ _. true;
  is_source_run = λ _. true;
  is_reason_code = λ _. true;
  is_access_decision = λ _. true;
  is_artifact_id = λ _. true;
  is_task_key = λ _. true;
  has_key_length = λ _. true;
  canonical_url = λ u. some u;
  is_query = λ _. true;
  parent_task_id = λ r. r + 100;
  child_task_id = λ r k. r * 1000 + k;
  observation_id = λ r x n. r * 1000000 + x * 1000 + n;
  is_decisionless = λ _. false;
  send_claim = λ e o. e * 1000 + o;
  sorted_set = λ ws. ws;
}

abbrev pub limits : Limits
limits = record {
  max_requests = 10;
  max_bytes = 1000;
  max_pages = 5;
  max_files = 5;
  max_concurrency = 2;
}

abbrev pub identity : Identity
identity = record {
  rule_id = 1;
  rules_version = 1;
  rules_sha256 = 1;
  site_skill_id = 1;
  site_skill_version = 1;
  site_skill_package_sha256 = 1;
  execution_plan_id = 1;
  execution_plan_version = 1;
  execution_plan_sha256 = 1;
  read_adapter_id = 1;
  read_adapter_version = 1;
}

abbrev pub no_rows : Ledger
no_rows = record { runs = λ _. none; tasks = []; observations = []; artifacts = λ _. none }

abbrev pub one_run : Run → List Task → Ledger
one_run r xs = record no_rows { runs = λ k. if k == 1 then some r else none; tasks = xs }

abbrev pub alone : Ledger → Repository
alone l = record { ledger = l; fences = λ _. none }

abbrev pub fresh_run : Run
fresh_run = new_run texts 1 identity none 0

-- A request for a required read of the URL 50 that the plan starts from.
abbrev pub request : Request
request = record {
  run_id = 1;
  task_key = 5;
  kind = read;
  required = true;
  requested_url = some 50;
  query = none;
  depth = 0;
  discovery_kind = seed;
  discovered_from_url = none;
  parent_artifact_id = none;
  adapter_id = 1;
  adapter_version = 1;
  discovery_adapter_id = none;
  discovery_adapter_version = none;
  replay_of_run_id = none;
}

abbrev pub task : Task
task = new_task 1005 request 0 none 0

abbrev pub change_to : Status → Option Reason → Change
change_to status reason = record {
  status = status;
  attempt_count = none;
  artifact_id = none;
  access_decision_id = none;
  failure_code = reason;
}

abbrev pub usage : Usage
usage = record { bytes_read = 300; pages = 1; files = 0 }

-- A worker makes a run, leases it, plans one task, reads for it, fails it and ends the run.
abbrev pub lifecycle : List Call
lifecycle =
    Call.create 1 identity none 0
    ∷ Call.acquire 1 7 60 0
    ∷ Call.add_task request 1 1
    ∷ Call.seal 1 2
    ∷ Call.transition 1005 (change_to running none) 3 3
    ∷ Call.reserve 1 4
    ∷ Call.finish 1 usage 5
    ∷ Call.transition 1005 (change_to failed (some (code 9))) 6 6
    ∷ Call.finalize 1 failed [] 7 7
    ∷ []

-- What a run shows of its progress: its status, its requests and its bytes.
abbrev pub progress : Option Run → Option (Status × ℕ × ℕ)
progress none = none
progress (some r) = some (r.status, r.requests_used, r.bytes_used)

-- Worker 0 takes the lease, and worker 1 takes it over when it has run out.
abbrev pub start : System
start = record { ledger = one_run fresh_run []; fences = λ w k. none; winner = λ k e. 0 }

abbrev pub taken : System
taken = after_call texts limits 0 (Call.acquire 1 7 60 0) start

abbrev pub taken_over : System
taken_over = after_call texts limits 1 (Call.acquire 1 8 60 60000000) taken

abbrev pub leased_run : Run
leased_run = with_lease 7 60000000 fresh_run

-- Worker with the lease of run 1, and one without.
abbrev pub holder : List Task → Repository
holder xs = record {
  ledger = one_run leased_run xs;
  fences = λ k. if k == 1 then some (7, 1) else none;
}

abbrev pub failed_task : Task
failed_task = record task { status = failed; failure_code = some (code 9); finished_at = some 6 }

abbrev pub sealed_run : Run
sealed_run = record leased_run { required_sealed = true }

abbrev pub ready : Repository
ready = record (holder []) { ledger = one_run sealed_run (failed_task ∷ []) }

abbrev pub failed_run : Run
failed_run = record sealed_run {
  status = failed;
  finished_at = some 8;
  lease_owner = none;
  lease_expires_at = none;
}

abbrev pub half_done : Repository
half_done =
    holder (failed_task ∷ record task { task_id = 1006; task_key = 6; task_ordinal = 1 } ∷ [])

-- While a read of the worker's run is open.
abbrev pub reading_run : Run
reading_run = record leased_run { requests_used = 1; active_reads = 1 }

abbrev pub reading : Repository
reading = record (holder []) { ledger = one_run reading_run [] }

abbrev pub claimed : Claim
claimed = record {
  run_id = 1;
  owner = 7;
  claim_owner = 1007;
  epoch = 1;
  lease_expires_at = 60000000;
}

-- From the URL 50 by way of 51 to 52.
abbrev pub hops : List Hop
hops =
    record {
      ordinal = 0;
      from_url = 50;
      to_url = 51;
      http_status = 301;
      access_decision_id = 3;
      allowed = true;
    }
    ∷ record {
      ordinal = 1;
      from_url = 51;
      to_url = 52;
      http_status = 302;
      access_decision_id = 4;
      allowed = true;
    }
    ∷ []

abbrev pub at_start : DiscoveryEvidence
at_start = record {
  kind = seed;
  source_url = none;
  parent_artifact_id = none;
  adapter_id = none;
  adapter_version = none;
}

abbrev pub completed_task : Task
completed_task = record task {
  status = completed;
  attempt_count = 1;
  artifact_id = some 2;
  access_decision_id = some 4;
  finished_at = some 6;
}
