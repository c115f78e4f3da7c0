-- ===== src/Ledger/Bounds.antt =====
-- The budgets of a run are never overdrawn.
use web_listening.Prelude.{sym, [], ◌∷◌, ℕ, ◌≤◌, Option, none, some, arith, Bool, List}
use web_listening.Ledger.Data.{
  Ident, Run, Limits, Repository, Texts, Claim, Identity, Status, Reason, Task, Fence,
}
use mathlib.Core.Path.{subst}
use web_listening.Ledger.Rules.{Leaves, Preorder, rules}
use web_listening.Ledger.Calls.{Call, perform, perform_all}
use web_listening.Ledger.Frames.{
  SameRuns, create_task-SameRuns, transition_task-SameRuns, add_observation-SameRuns,
}
use web_listening.Ledger.Store.{Action, transaction, update_run, assert_run_fence}
use web_listening.Ledger.Lease.{acquire_run_lease, release_run_lease, seal_required_tasks}
use web_listening.Ledger.Budget.{
  Usage, reserve_read_budget, begin_read_budget, consume_target_request, finish_read_budget,
}
use web_listening.Ledger.TargetSend.{claim_target_send, release_target_send, renew_target_send}
use web_listening.Ledger.Runs.{
  create_run, check_source, check_replay, insert_run, new_run, finish_running, finish_checked,
  finish, finalize_run, interrupt_run, interrupt_row, interrupt_running, end_run, update_tasks,
}

pub record IsWithin (l : Limits) (r : Run) : Type 0 where
  pub requests : r.requests_used ≤ l.max_requests
  pub bytes : r.bytes_used ≤ l.max_bytes
  pub pages : r.pages_used ≤ l.max_pages
  pub files : r.files_used ≤ l.max_files
  pub reads : r.active_reads ≤ l.max_concurrency

abbrev pub AreWithin : Limits → Option Run → Type 0
AreWithin l none = Unit
AreWithin l (some r) = IsWithin l r

module _ (t : Texts) (l : Limits) (k : Ident) (s : Repository)
    (h : AreWithin l (s.ledger.runs k)) where
  reserve_within :
      (run_id : Ident) (now : ℕ)
      → AreWithin l ((reserve_read_budget run_id l now s).1.ledger.runs k)
  unfolding reserve_read_budget update_run assert_run_fence
  reserve_within run_id now = ground arith

  finish_within :
      (run_id : Ident) (u : Usage) (now : ℕ)
      → AreWithin l ((finish_read_budget run_id u l now s).1.ledger.runs k)
  unfolding finish_read_budget update_run assert_run_fence
  finish_within run_id u now = ground arith

  acquire_within :
      (run_id owner : Ident) (ttl now : ℕ)
      → AreWithin l ((acquire_run_lease t run_id owner ttl now s).1.ledger.runs k)
  unfolding acquire_run_lease update_run
  acquire_within run_id owner ttl now = ground arith

  release_within :
      (run_id owner : Ident) → AreWithin l ((release_run_lease run_id owner s).1.ledger.runs k)
  unfolding release_run_lease update_run
  release_within run_id owner = ground arith

  seal_within :
      (run_id : Ident) (now : ℕ) → AreWithin l ((seal_required_tasks run_id now s).1.ledger.runs k)
  unfolding seal_required_tasks update_run assert_run_fence
  seal_within run_id now = ground arith

  begin_within :
      (run_id : Ident) (now : ℕ) → AreWithin l ((begin_read_budget run_id l now s).1.ledger.runs k)
  unfolding begin_read_budget update_run assert_run_fence
  begin_within run_id now = ground arith

  consume_within :
      (run_id : Ident) (now : ℕ)
      → AreWithin l ((consume_target_request run_id l.max_requests now s).1.ledger.runs k)
  unfolding consume_target_request update_run assert_run_fence
  consume_within run_id now = ground arith

  claim_within :
      (run_id : Ident) (timeout now now₁ now₂ : ℕ)
      → AreWithin l
          ((claim_target_send t run_id l.max_requests timeout now now₁ now₂ s).1.ledger.runs k)
  unfolding claim_target_send update_run assert_run_fence
  claim_within run_id timeout now now₁ now₂ = ground arith

  release_claim_within : (c : Claim) → AreWithin l ((release_target_send c s).1.ledger.runs k)
  unfolding release_target_send update_run
  release_claim_within c = ground arith

  renew_claim_within :
      (c : Claim) (timeout now now₁ : ℕ)
      → AreWithin l ((renew_target_send c timeout now now₁ s).1.ledger.runs k)
  unfolding renew_target_send update_run
  renew_claim_within c timeout now now₁ = ground arith

  SameRuns_within :
      {A : Type 0} (m : Action A) → Leaves SameRuns m → AreWithin l ((m s).1.ledger.runs k)
  SameRuns_within m f =
      subst (λ (rs : Ident → Option Run). AreWithin l (rs k)) (sym (f.run s).runs) h

-- Every run that was within its budgets still is.
record KeepsWithin (l : Limits) (s s' : Repository) : Type 0 where
  within : (k : Ident) → AreWithin l (s.ledger.runs k) → AreWithin l (s'.ledger.runs k)

module _ (l : Limits) where
  abbrev keeps_within : Preorder (KeepsWithin l)
  keeps_within = record {
    same_state = λ s. record { within = λ k h. h };
    compose = λ s s' s'' f g. record { within = λ k h. g.within k (f.within k h) };
  }

  update_tasks-KeepsWithin :
      (test : Task → Bool) (change : Task → Task)
      → Leaves (KeepsWithin l) (update_tasks test change)
  unfolding update_tasks
  update_tasks-KeepsWithin test change = record {
    run = λ s. record { within = λ k h. ground arith };
  }

  end_run-KeepsWithin :
      (run_id : Ident) (status : Status) (reason : Reason) (now : ℕ) (fence : Option Fence)
      → Leaves (KeepsWithin l) (end_run run_id status reason now fence)
  unfolding end_run update_run
  end_run-KeepsWithin run_id status reason now fence = record {
    run = λ s. record { within = λ k h. ground arith };
  }

  interrupt_row-KeepsWithin :
      (run_id : Ident) (status : Status) (reason : Reason) (now : ℕ) (fence : Option Fence)
      (row : Option Run)
      → Leaves (KeepsWithin l) (interrupt_row run_id status reason now fence row)
  unfolding interrupt_row interrupt_running
  interrupt_row-KeepsWithin run_id status reason now fence none = search (rules, keeps_within)
  interrupt_row-KeepsWithin run_id status reason now fence (some r) =
      search (rules, keeps_within, update_tasks-KeepsWithin, end_run-KeepsWithin) depth 20 fits
        20000

  -- A transaction that raises leaves the tables as they were.
  transaction-KeepsWithin :
      (m : Action (Unit {0})) → Leaves (KeepsWithin l) m → Leaves (KeepsWithin l) (transaction m)
  unfolding transaction
  transaction-KeepsWithin m h = record {
    run = λ s. record { within = λ k w. ground (arith, (h.run s).within k w) };
  }

  interrupt_run-KeepsWithin :
      (run_id : Ident) (b : Bool) (now now₁ : ℕ)
      → Leaves (KeepsWithin l) (interrupt_run run_id b now now₁)
  unfolding interrupt_run
  interrupt_run-KeepsWithin run_id b now now₁ =
      transaction-KeepsWithin _
        (search (rules, keeps_within, interrupt_row-KeepsWithin) depth 20 fits 20000)

module _ (t : Texts) (l : Limits) where
  check_source-KeepsWithin :
      (i : Identity) (o : Option Run) → Leaves (KeepsWithin l) (check_source t i o)
  unfolding check_source
  check_source-KeepsWithin i none = search (rules, keeps_within)
  check_source-KeepsWithin i (some r) = search (rules, keeps_within) depth 12

  check_replay-KeepsWithin :
      (i : Identity) (o : Option Ident) → Leaves (KeepsWithin l) (check_replay t i o)
  unfolding check_replay
  check_replay-KeepsWithin i none = search (rules, keeps_within)
  check_replay-KeepsWithin i (some id) =
      search (rules, keeps_within, check_source-KeepsWithin) depth 12

  insert_run-KeepsWithin :
      (run_id : Ident) (i : Identity) (o : Option Ident) (now : ℕ)
      → Leaves (KeepsWithin l) (insert_run run_id (new_run t run_id i o now))
  unfolding insert_run
  insert_run-KeepsWithin run_id i o now = record {
    run = λ s. record { within = λ k h. ground arith };
  }

  create_run-KeepsWithin :
      (run_id : Ident) (i : Identity) (o : Option Ident) (now : ℕ)
      → Leaves (KeepsWithin l) (create_run t run_id i o now)
  unfolding create_run
  create_run-KeepsWithin run_id i o now =
      search (rules, keeps_within, check_replay-KeepsWithin, insert_run-KeepsWithin) depth 30 fits
        50000

  finish_running-KeepsWithin :
      (run_id : Ident) (status : Status) (ws : List Reason) (now : ℕ) (f : Option Fence) (r : Run)
      → Leaves (KeepsWithin l) (finish_running t run_id status ws now f r)
  unfolding finish_running update_run
  finish_running-KeepsWithin run_id status ws now f r = record {
    run = λ s. record { within = λ k h. ground arith };
  }

  finish_checked-KeepsWithin :
      (run_id : Ident) (status : Status) (ws : List Reason) (now now₁ : ℕ)
      → Leaves (KeepsWithin l) (transaction (finish_checked t run_id status ws now now₁))
  unfolding finish_checked finish
  finish_checked-KeepsWithin run_id status ws now now₁ =
      transaction-KeepsWithin l _
        (search (rules, keeps_within, finish_running-KeepsWithin) depth 20 fits 20000)

  finalize_run-KeepsWithin :
      (run_id : Ident) (status : Status) (ws : List Reason) (now now₁ : ℕ)
      → Leaves (KeepsWithin l) (finalize_run t run_id status ws now now₁)
  unfolding finalize_run
  finalize_run-KeepsWithin run_id status ws now now₁ =
      search (rules, keeps_within, finish_checked-KeepsWithin) depth 20 fits 20000

-- The budgets that hold of a run before a call, whichever method it is and whether it returns or raises,
-- hold of the run after it.
pub perform-AreWithin :
    (t : Texts) (l : Limits) (c : Call) (k : Ident) (s : Repository)
    → AreWithin l (s.ledger.runs k)
    → AreWithin l ((perform t l c s).ledger.runs k)
unfolding perform
perform-AreWithin t l (Call.acquire run_id owner ttl now) k s h =
    acquire_within t l k s h run_id owner ttl now
perform-AreWithin t l (Call.release run_id owner) k s h = release_within t l k s h run_id owner
perform-AreWithin t l (Call.seal run_id now) k s h = seal_within t l k s h run_id now
perform-AreWithin t l (Call.reserve run_id now) k s h = reserve_within t l k s h run_id now
perform-AreWithin t l (Call.begin run_id now) k s h = begin_within t l k s h run_id now
perform-AreWithin t l (Call.consume run_id now) k s h = consume_within t l k s h run_id now
perform-AreWithin t l (Call.finish run_id u now) k s h = finish_within t l k s h run_id u now
perform-AreWithin t l (Call.claim run_id timeout now now₁ now₂) k s h =
    claim_within t l k s h run_id timeout now now₁ now₂
perform-AreWithin t l (Call.release_claim c) k s h = release_claim_within t l k s h c
perform-AreWithin t l (Call.renew_claim c timeout now now₁) k s h =
    renew_claim_within t l k s h c timeout now now₁
perform-AreWithin t l (Call.create run_id identity replay_of now) k s h =
    ((create_run-KeepsWithin t l run_id identity replay_of now).run s).within k h
perform-AreWithin t l (Call.finalize run_id status warnings now now₁) k s h =
    ((finalize_run-KeepsWithin t l run_id status warnings now now₁).run s).within k h
perform-AreWithin t l (Call.interrupt run_id b now now₁) k s h =
    ((interrupt_run-KeepsWithin l run_id b now now₁).run s).within k h
perform-AreWithin t l (Call.add_task q now now₁) k s h =
    SameRuns_within t l k s h _ (create_task-SameRuns t q now now₁)
perform-AreWithin t l (Call.transition id c now now₁) k s h =
    SameRuns_within t l k s h _ (transition_task-SameRuns t id c now now₁)
perform-AreWithin t l (Call.observe x a now now₁ now₂) k s h =
    SameRuns_within t l k s h _ (add_observation-SameRuns t x a now now₁ now₂)

-- Start from tables where every run is within the budgets: after any calls of the methods by one
-- process, in any order and with any clock readings, every run has used at most what each budget
-- allows, and has at most as many reads open as may run at once.
pub perform_all-AreWithin :
    (t : Texts) (l : Limits) (cs : List Call) (s : Repository)
    → ((k : Ident) → AreWithin l (s.ledger.runs k))
    → (k : Ident) → AreWithin l ((perform_all t l cs s).ledger.runs k)
unfolding perform_all
perform_all-AreWithin t l [] s h k = h k
perform_all-AreWithin t l (c ∷ cs) s h k =
    perform_all-AreWithin t l cs (perform t l c s) (λ j. perform-AreWithin t l c j s (h j)) k
