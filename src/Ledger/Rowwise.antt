-- ===== src/Ledger/Rowwise.antt =====
-- What the triggers let a statement change of one row of a run or of a task
-- (web_listening/blocks/agentic_orchestration.py).
use web_listening.Prelude.{
  and_true, ==_iff, ap, ℕ, ◌≤◌, ◌≡◌, refl, Option, none, some, arith, true, List, [], ◌∷◌,
}
use web_listening.Ledger.Data.{
  Status, same_status, same_failure, Run, Identity, same_identity, Task, Reason, is_terminal, same,
  same_warnings, same_reason,
}
use web_listening.Ledger.Guards.{
  run_frozen, task_frozen, same_request, same_target, same_origin, same_adapters,
  runs_update_allowed, tasks_update_allowed,
}

-- Only the progress columns of a run change, its epoch does not fall, and a run that is over stays as
-- it is.
pub record RunEvolves (r r' : Run) : Type 0 where
  pub kept : r' ≡ record r {
    status = r'.status;
    requests_used = r'.requests_used;
    bytes_used = r'.bytes_used;
    pages_used = r'.pages_used;
    files_used = r'.files_used;
    warnings = r'.warnings;
    required_sealed = r'.required_sealed;
    active_reads = r'.active_reads;
    lease_owner = r'.lease_owner;
    lease_expires_at = r'.lease_expires_at;
    lease_epoch = r'.lease_epoch;
    finished_at = r'.finished_at;
  }
  pub epoch : r.lease_epoch ≤ r'.lease_epoch
  pub over : is_terminal r.status ≡ true → r' ≡ r

-- Only the progress columns of a task change, and a task that ended stays as it is.
pub record TaskEvolves (x y : Task) : Type 0 where
  pub kept : y ≡ record x {
    status = y.status;
    attempt_count = y.attempt_count;
    artifact_id = y.artifact_id;
    access_decision_id = y.access_decision_id;
    failure_code = y.failure_code;
    finished_at = y.finished_at;
  }
  pub over : is_terminal x.status ≡ true → y ≡ x

pub RunEvolves-trans : (a b c : Run) → RunEvolves a b → RunEvolves b c → RunEvolves a c
RunEvolves-trans a b c h k = record {
  kept = cc (h.kept, k.kept);
  epoch = omega arith;
  over = λ e. ground (arith, h.over, k.over);
}

pub TaskEvolves-trans : (a b c : Task) → TaskEvolves a b → TaskEvolves b c → TaskEvolves a c
TaskEvolves-trans a b c h k = record {
  kept = ground (arith);
  over = λ e. ground (arith, h.over, k.over);
}

same_status→eq : (a b : Status) → same_status a b ≡ true → a ≡ b
same_status→eq a b h = ground arith

same_reason→eq : (a b : Reason) → same_reason a b ≡ true → a ≡ b
same_reason→eq a b h = ground arith

same_warnings→eq : (as' bs : List Reason) → same_warnings as' bs ≡ true → as' ≡ bs
same_warnings→eq [] [] h = refl
same_warnings→eq [] (b ∷ bs) h = cc
same_warnings→eq (a ∷ as') [] h = cc
same_warnings→eq (a ∷ as') (b ∷ bs) h = ground (arith, same_reason→eq a b, same_warnings→eq as' bs)

same_identity→eq : (a b : Identity) → same_identity a b ≡ true → a ≡ b
unfolding same_identity
same_identity→eq a b h = ground arith

-- The columns that tell two rows of a run apart, but for the identity and the warnings.
run_frozen→eq :
    (r r' : Run)
    → run_frozen r r' ≡ true
    → r' ≡ record r' {
      status = r.status;
      requests_used = r.requests_used;
      bytes_used = r.bytes_used;
      pages_used = r.pages_used;
      files_used = r.files_used;
      warnings = r.warnings;
      required_sealed = r.required_sealed;
      active_reads = r.active_reads;
      lease_owner = r.lease_owner;
      lease_expires_at = r.lease_expires_at;
      lease_epoch = r.lease_epoch;
      finished_at = r.finished_at;
    }
unfolding run_frozen
run_frozen→eq r r' h = ground (arith, same_warnings→eq r'.warnings r.warnings) steps 20000000

pub allowed-RunEvolves : (r r' : Run) → runs_update_allowed r r' ≡ true → RunEvolves r r'
unfolding runs_update_allowed
allowed-RunEvolves r r' h =
    let kept_identity = same_identity→eq r'.identity r.identity in
    record {
      kept = ground (arith, kept_identity);
      epoch = ground arith;
      over = λ e. ground (arith, kept_identity, run_frozen→eq r r');
    }

same_target→eq :
    (a b : Task)
    → same_target a b ≡ true
    → a ≡ record a {
      kind = b.kind;
      required = b.required;
      requested_url = b.requested_url;
      query = b.query;
      depth = b.depth;
    }
unfolding same_target
same_target→eq a b h = ground arith

same_origin→eq :
    (a b : Task)
    → same_origin a b ≡ true
    → a ≡ record a {
      discovery_kind = b.discovery_kind;
      discovered_from_url = b.discovered_from_url;
      parent_artifact_id = b.parent_artifact_id;
    }
unfolding same_origin
same_origin→eq a b h = ground arith

same_adapters→eq :
    (a b : Task)
    → same_adapters a b ≡ true
    → a ≡ record a {
      adapter_id = b.adapter_id;
      adapter_version = b.adapter_version;
      discovery_adapter_id = b.discovery_adapter_id;
      discovery_adapter_version = b.discovery_adapter_version;
      replay_of_task_id = b.replay_of_task_id;
    }
unfolding same_adapters
same_adapters→eq a b h = ground arith

-- The columns of `b` that an update may change, in `a`.
abbrev with_progress : Task → Task → Task
with_progress a b = record a {
  status = b.status;
  attempt_count = b.attempt_count;
  artifact_id = b.artifact_id;
  access_decision_id = b.access_decision_id;
  failure_code = b.failure_code;
  finished_at = b.finished_at;
}

same→eq : (a b : Option ℕ) → same a b ≡ true → a ≡ b
same→eq a b h = ground arith

same_failure→eq : (a b : Option Reason) → same_failure a b ≡ true → a ≡ b
same_failure→eq none none h = refl
same_failure→eq none (some b) h = cc
same_failure→eq (some a) none h = cc
same_failure→eq (some a) (some b) h = ap some (same_reason→eq a b h)

task_frozen→eq : (x y : Task) → task_frozen x y ≡ true → y ≡ with_progress y x
unfolding task_frozen
task_frozen→eq x y h =
    let (h₁, finished) = and_true _ _ h in
    let (h₂, failure) = and_true _ _ h₁ in
    let (h₃, decision) = and_true _ _ h₂ in
    let (h₄, artifact) = and_true _ _ h₃ in
    let (status, attempts) = and_true _ _ h₄ in
    λ i. record y {
      status = same_status→eq y.status x.status status i;
      attempt_count = (==_iff y.attempt_count x.attempt_count).0 attempts i;
      artifact_id = same→eq y.artifact_id x.artifact_id artifact i;
      access_decision_id = same→eq y.access_decision_id x.access_decision_id decision i;
      failure_code = same_failure→eq y.failure_code x.failure_code failure i;
      finished_at = same→eq y.finished_at x.finished_at finished i;
    }

-- With the columns that the trigger compares, and with the request.
allowed_kept :
    (x y : Task)
    → tasks_update_allowed x y ≡ true
    → (same_request y x ≡ true)
      × (y.task_id ≡ x.task_id)
      × (y.run_id ≡ x.run_id)
      × (y.task_key ≡ x.task_key)
      × (y.task_ordinal ≡ x.task_ordinal)
      × (y.created_at ≡ x.created_at)
      × (is_terminal x.status ≡ true → task_frozen x y ≡ true)
unfolding tasks_update_allowed
allowed_kept x y h = (
  ground arith,
  ground arith,
  ground arith,
  ground arith,
  ground arith,
  ground arith,
  λ e. ground arith,
)

same_request→all :
    (a b : Task)
    → same_request a b ≡ true
    → (same_target a b ≡ true) × (same_origin a b ≡ true) × (same_adapters a b ≡ true)
unfolding same_request
same_request→all a b h = (ground arith, ground arith, ground arith)

pub allowed-TaskEvolves : (x y : Task) → tasks_update_allowed x y ≡ true → TaskEvolves x y
allowed-TaskEvolves x y h =
    let (request, id, run, key, ordinal, created, frozen) = allowed_kept x y h in
    let (target, origin, adapters) = same_request→all y x request in
    let kept : y ≡ with_progress x y =
      cc (same_target→eq y x target, same_origin→eq y x origin, same_adapters→eq y x adapters) in
    record { kept = kept; over = λ e. cc (kept, task_frozen→eq x y (frozen e)) }
