-- ===== src/Ledger/Fencing.antt =====
-- Who may write to a leased run (web_listening/blocks/agentic_orchestration.py): the calls that check
-- the fence of a run, and what they do where the caller does not hold its lease.
use web_listening.Prelude.{ℕ, ◌≡◌, Option, none, some, arith, Bool, true, not, ◌||◌, refl, List}
use web_listening.Ledger.Data.{
  Ident, Run, Task, Observation, Repository, Limits, Texts, err, run_lease_lost, Status, Reason,
}
use web_listening.Ledger.Store.{assert_run_fence, same_fence, unexpired, transaction}
use web_listening.Ledger.Lease.{seal_required_tasks}
use web_listening.Ledger.Budget.{
  Usage, reserve_read_budget, begin_read_budget, consume_target_request, finish_read_budget,
}
use web_listening.Ledger.TargetSend.{claim_target_send}
use web_listening.Ledger.Runs.{finalize_run, finish_checked, interrupt_run}
use web_listening.Ledger.Tasks.{Request, Change, create_task, transition_task, find_replay}
use web_listening.Ledger.Observations.{Reading, add_observation, record_observation}
use web_listening.Ledger.Rows.{find_task}
use web_listening.Ledger.Calls.{Call, perform}

-- The run is leased, and this process does not hold the lease: it remembers another fence or none,
-- or the lease has run out.
pub record LacksLease (run_id : Ident) (now : ℕ) (s : Repository) : Type 0 where
  pub run : Run
  pub owner : Ident
  pub row : s.ledger.runs run_id ≡ some run
  pub leased : run.lease_owner ≡ some owner
  pub lacks :
      (not (same_fence (s.fences run_id) (some (owner, run.lease_epoch)))
        || not (unexpired run.lease_expires_at now))
      ≡ true

LacksLease-assert_run_fence :
    (run_id : Ident) (now : ℕ) (s : Repository)
    → LacksLease run_id now s
    → assert_run_fence run_id now s ≡ (err run_lease_lost, s)
unfolding assert_run_fence
LacksLease-assert_run_fence run_id now s h = ground (arith, h.row, h.leased, h.lacks)

-- The run that a call's fence check is of, and the clock reading of the check; none for the calls
-- that check in another way or make runs.
abbrev pub run_of : Option Task → Option Ident
run_of none = none
run_of (some x) = some x.run_id

abbrev pub checked_run : Repository → Call → Option Ident
checked_run s (Call.seal run_id now) = some run_id
checked_run s (Call.reserve run_id now) = some run_id
checked_run s (Call.begin run_id now) = some run_id
checked_run s (Call.consume run_id now) = some run_id
checked_run s (Call.finish run_id u now) = some run_id
checked_run s (Call.claim run_id timeout now now₁ now₂) = some run_id
checked_run s (Call.finalize run_id status ws now now₁) = some run_id
checked_run s (Call.interrupt run_id b now now₁) = some run_id
checked_run s (Call.add_task q now now₁) = some q.run_id
checked_run s (Call.transition id c now now₁) = run_of (find_task id s.ledger.tasks)
checked_run s (Call.observe x a now now₁ now₂) = run_of (find_task x.task_id s.ledger.tasks)
checked_run s _ = none

module _ (s : Repository) (run_id : Ident) (now : ℕ)
    (lost : assert_run_fence run_id now s ≡ (err run_lease_lost, s)) where
  seal_lost : (seal_required_tasks run_id now s).1 ≡ s
  unfolding seal_required_tasks
  seal_lost = ground arith

  reserve_lost : (l : Limits) → (reserve_read_budget run_id l now s).1 ≡ s
  unfolding reserve_read_budget
  reserve_lost l = ground arith

  begin_lost : (l : Limits) → (begin_read_budget run_id l now s).1 ≡ s
  unfolding begin_read_budget
  begin_lost l = ground arith

  consume_lost : (max : ℕ) → (consume_target_request run_id max now s).1 ≡ s
  unfolding consume_target_request
  consume_lost max = ground arith

  finish_lost : (u : Usage) (l : Limits) → (finish_read_budget run_id u l now s).1 ≡ s
  unfolding finish_read_budget
  finish_lost u l = ground arith

  interrupt_lost : (b : Bool) (now₁ : ℕ) → (interrupt_run run_id b now₁ now s).1 ≡ s
  unfolding interrupt_run transaction
  interrupt_lost b now₁ = ground arith

  claim_lost :
      (t : Texts) (max timeout now₁ now₂ : ℕ)
      → (claim_target_send t run_id max timeout now now₁ now₂ s).1 ≡ s
  unfolding claim_target_send
  claim_lost t max timeout now₁ now₂ = ground arith

  finalize_lost :
      (t : Texts) (status : Status) (ws : List Reason) (now₁ : ℕ)
      → (finalize_run t run_id status ws now now₁ s).1 ≡ s
  unfolding finalize_run finish_checked transaction
  finalize_lost t status ws now₁ = ground arith

  transition_lost :
      (t : Texts) (id : Ident) (c : Change) (now₁ : ℕ)
      → run_of (find_task id s.ledger.tasks) ≡ some run_id
      → (transition_task t id c now now₁ s).1 ≡ s
  unfolding transition_task
  transition_lost t id c now₁ h = ground arith

  record_lost :
      (t : Texts) (o : Observation) (now₂ : ℕ)
      → o.run_id ≡ run_id
      → (record_observation t o now now₂ s).1 ≡ s
  unfolding record_observation
  record_lost t o now₂ h = ground arith

  observe_lost :
      (t : Texts) (x : Task) (a : Reading) (now₁ now₂ : ℕ)
      → run_of (find_task x.task_id s.ledger.tasks) ≡ some run_id
      → (add_observation t x a now₁ now now₂ s).1 ≡ s
  unfolding add_observation
  observe_lost t x a now₁ now₂ h = grind (arith, record_lost)

pub find_replay_state :
    (t : Texts) (q : Request) (parent : Run) (o : Option Ident) (s : Repository)
    → (find_replay t q parent o s).1 ≡ s
unfolding find_replay
find_replay_state t q parent none s = refl
find_replay_state t q parent (some source_id) s = ground arith

create_lost :
    (t : Texts) (q : Request) (s : Repository) (now now₁ : ℕ)
    → assert_run_fence q.run_id now s ≡ (err run_lease_lost, s)
    → (create_task t q now now₁ s).1 ≡ s
unfolding create_task
create_lost t q s now now₁ lost = grind (arith, find_replay_state)

abbrev pub fence_clock : Call → ℕ
fence_clock (Call.seal run_id now) = now
fence_clock (Call.reserve run_id now) = now
fence_clock (Call.begin run_id now) = now
fence_clock (Call.consume run_id now) = now
fence_clock (Call.finish run_id u now) = now
fence_clock (Call.claim run_id timeout now now₁ now₂) = now
fence_clock (Call.finalize run_id status ws now now₁) = now
fence_clock (Call.interrupt run_id b now now₁) = now₁
fence_clock (Call.add_task q now now₁) = now
fence_clock (Call.transition id c now now₁) = now
fence_clock (Call.observe x a now now₁ now₂) = now₁
fence_clock _ = 0

same_run :
    (s : Repository) (now a b : Ident)
    → Option.some a ≡ some b
    → LacksLease b now s
    → assert_run_fence a now s ≡ (err run_lease_lost, s)
same_run s now a b e h = grind (arith, LacksLease-assert_run_fence b now s h)

-- Take a call that checks the fence of a run: one that seals, reserves, begins, consumes, settles,
-- claims, ends or interrupts the run, or that adds a task, moves one or records an observation. If
-- the run is leased and, when the fence is checked, this process does not remember the row's owner
-- and epoch or the lease has run out, then the call leaves the tables and its memory as they were.
pub perform-fenced :
    (t : Texts) (l : Limits) (c : Call) (s : Repository) (run_id : Ident)
    → checked_run s c ≡ some run_id
    → LacksLease run_id (fence_clock c) s
    → perform t l c s ≡ s
unfolding perform
perform-fenced t l (Call.seal id now) s k e h = seal_lost s id now (same_run s now id k e h)
perform-fenced t l (Call.reserve id now) s k e h = reserve_lost s id now (same_run s now id k e h) l
perform-fenced t l (Call.begin id now) s k e h = begin_lost s id now (same_run s now id k e h) l
perform-fenced t l (Call.consume id now) s k e h =
    consume_lost s id now (same_run s now id k e h) l.max_requests
perform-fenced t l (Call.finish id u now) s k e h =
    finish_lost s id now (same_run s now id k e h) u l
perform-fenced t l (Call.claim id timeout now now₁ now₂) s k e h =
    claim_lost s id now (same_run s now id k e h) t l.max_requests timeout now₁ now₂
perform-fenced t l (Call.finalize id status ws now now₁) s k e h =
    finalize_lost s id now (same_run s now id k e h) t status ws now₁
perform-fenced t l (Call.interrupt id b now now₁) s k e h =
    interrupt_lost s id now₁ (same_run s now₁ id k e h) b now
perform-fenced t l (Call.add_task q now now₁) s k e h =
    create_lost t q s now now₁ (same_run s now q.run_id k e h)
perform-fenced t l (Call.transition id c now now₁) s k e h =
    transition_lost s k now (LacksLease-assert_run_fence k now s h) t id c now₁ e
perform-fenced t l (Call.observe x a now now₁ now₂) s k e h =
    observe_lost s k now₁ (LacksLease-assert_run_fence k now₁ s h) t x a now now₂ e
perform-fenced t l (Call.acquire run_id owner ttl now) s k e h = cc
perform-fenced t l (Call.release run_id owner) s k e h = cc
perform-fenced t l (Call.release_claim c) s k e h = cc
perform-fenced t l (Call.renew_claim c timeout now now₁) s k e h = cc
perform-fenced t l (Call.create run_id i o now) s k e h = cc
