-- ===== src/Ledger/Calls.antt =====
-- The calls that a process can make of a repository (web_listening/blocks/agentic_orchestration.py):
-- one constructor for each method that changes state, with the readings of the clock as arguments,
-- and the state that the call leaves, whether it returns or raises. All calls go by one set of limits,
-- the budgets of the site rules.
use web_listening.Prelude.{ℕ, Bool, Option, List, [], ◌∷◌}
use web_listening.Ledger.Data.{
  Ident, Reason, Status, Identity, Task, Repository, Limits, Claim, Texts,
}
use web_listening.Ledger.Lease.{acquire_run_lease, release_run_lease, seal_required_tasks}
use web_listening.Ledger.Budget.{
  Usage, reserve_read_budget, begin_read_budget, consume_target_request, finish_read_budget,
}
use web_listening.Ledger.TargetSend.{claim_target_send, release_target_send, renew_target_send}
use web_listening.Ledger.Runs.{create_run, finalize_run, interrupt_run}
use web_listening.Ledger.Tasks.{Request, Change, create_task, transition_task}
use web_listening.Ledger.Observations.{Reading, add_observation}

pub data Call : Type 0 where
  acquire : (run_id owner : Ident) (ttl_seconds now : ℕ) → Call
  release : (run_id owner : Ident) → Call
  seal : (run_id : Ident) (now : ℕ) → Call
  reserve begin : (run_id : Ident) (now : ℕ) → Call
  consume : (run_id : Ident) (now : ℕ) → Call
  finish : (run_id : Ident) (u : Usage) (now : ℕ) → Call
  claim : (run_id : Ident) (timeout now now₁ now₂ : ℕ) → Call
  release_claim : (c : Claim) → Call
  renew_claim : (c : Claim) (timeout now now₁ : ℕ) → Call
  create : (run_id : Ident) (identity : Identity) (replay_of : Option Ident) (now : ℕ) → Call
  finalize : (run_id : Ident) (status : Status) (warnings : List Reason) (now now₁ : ℕ) → Call
  interrupt : (run_id : Ident) (is_cancelled : Bool) (now now₁ : ℕ) → Call
  add_task : (q : Request) (now now₁ : ℕ) → Call
  transition : (task_id : Ident) (c : Change) (now now₁ : ℕ) → Call
  observe : (task : Task) (a : Reading) (now now₁ now₂ : ℕ) → Call

module _ (t : Texts) (l : Limits) where
  -- The state after the call.
  unfoldable pub perform : Call → Repository → Repository
  perform (acquire run_id owner ttl_seconds now) s =
      (acquire_run_lease t run_id owner ttl_seconds now s).1
  perform (release run_id owner) s = (release_run_lease run_id owner s).1
  perform (seal run_id now) s = (seal_required_tasks run_id now s).1
  perform (reserve run_id now) s = (reserve_read_budget run_id l now s).1
  perform (begin run_id now) s = (begin_read_budget run_id l now s).1
  perform (consume run_id now) s = (consume_target_request run_id l.max_requests now s).1
  perform (finish run_id u now) s = (finish_read_budget run_id u l now s).1
  perform (claim run_id timeout now now₁ now₂) s =
      (claim_target_send t run_id l.max_requests timeout now now₁ now₂ s).1
  perform (release_claim c) s = (release_target_send c s).1
  perform (renew_claim c timeout now now₁) s = (renew_target_send c timeout now now₁ s).1
  perform (create run_id identity replay_of now) s =
      (create_run t run_id identity replay_of now s).1
  perform (finalize run_id status warnings now now₁) s =
      (finalize_run t run_id status warnings now now₁ s).1
  perform (interrupt run_id is_cancelled now now₁) s =
      (interrupt_run run_id is_cancelled now now₁ s).1
  perform (add_task q now now₁) s = (create_task t q now now₁ s).1
  perform (transition task_id c now now₁) s = (transition_task t task_id c now now₁ s).1
  perform (observe task a now now₁ now₂) s = (add_observation t task a now now₁ now₂ s).1

-- The state after a sequence of calls of one process.
unfoldable pub perform_all : Texts → Limits → List Call → Repository → Repository
perform_all t l [] s = s
perform_all t l (c ∷ cs) s = perform_all t l cs (perform t l c s)
