-- ===== src/Ledger/Methods.antt =====
-- A relation that every statement keeps is kept by the methods that are made of statements
-- (web_listening/blocks/agentic_orchestration.py). The methods that set a fence are not here, but for
-- those where a rule for fences is given.
use web_listening.Prelude.{ℕ, ◌≡◌, ◌∙◌, refl, Option, none, some, arith, Bool, List}
use web_listening.Ledger.Data.{
  Ident, Fence, Run, Task, Observation, Status, Reason, Identity, Limits, Repository, Texts,
}
use web_listening.Ledger.Store.{Action, transaction, update_run}
use web_listening.Ledger.Lease.{seal_required_tasks}
use web_listening.Ledger.Budget.{
  Usage, reserve_read_budget, begin_read_budget, consume_target_request, consume_failure,
  finish_read_budget, finish_failure,
}
use web_listening.Ledger.Runs.{
  create_run, insert_run, check_source, check_replay, finish, finish_running, finish_checked,
  finalize_run, interrupt_run, interrupt_row, interrupt_running, end_run, update_tasks,
}
use web_listening.Ledger.Tasks.{
  Request, Change, create_task, transition_task, transition_open, read_task, insert_task,
  insert_if_new, find_replay,
}
use web_listening.Ledger.Observations.{
  Reading, add_observation, record_observation, insert_observation,
}
use web_listening.Ledger.Rules.{Leaves, Preorder, rules}

-- This process remembers the same fences.
pub record SameFences (s s' : Repository) : Type 0 where
  pub fences : s'.fences ≡ s.fences

abbrev pub same_fences : Preorder SameFences
same_fences = record {
  same_state = λ s. record { fences = refl };
  compose = λ s s' s'' f g. record { fences = g.fences ∙ f.fences };
}

-- The statements keep the relation, and so does a transaction that sets no fence.
pub record Parts (R : Repository → Repository → Type 0) : Type 0 where
  pub of_update :
      (run_id : Ident) (test : Run → Bool) (change : Run → Run)
      → Leaves R (update_run run_id test change)
  pub of_tasks : (test : Task → Bool) (change : Task → Task) → Leaves R (update_tasks test change)
  pub of_insert_run : (run_id : Ident) (r : Run) → Leaves R (insert_run run_id r)
  pub of_insert_task : (fence : Option Fence) (x : Task) → Leaves R (insert_task fence x)
  pub of_insert_observation :
      (fence : Option Fence) (o : Observation) → Leaves R (insert_observation fence o)
  pub of_transaction :
      (m : Action (Unit {0})) → Leaves SameFences m → Leaves R m → Leaves R (transaction m)

module _ {R : Repository → Repository → Type 0} (p : Preorder R) (q : Parts R) where
  open q use {of_update, of_tasks, of_insert_run, of_insert_task, of_insert_observation}

  pub of_seal : (run_id : Ident) (now : ℕ) → Leaves R (seal_required_tasks run_id now)
  unfolding seal_required_tasks
  of_seal run_id now = search (rules, p, of_update) depth 12 fits 20000

  pub of_reserve :
      (run_id : Ident) (l : Limits) (now : ℕ) → Leaves R (reserve_read_budget run_id l now)
  unfolding reserve_read_budget
  of_reserve run_id l now = search (rules, p, of_update) depth 30 fits 50000

  pub of_begin : (run_id : Ident) (l : Limits) (now : ℕ) → Leaves R (begin_read_budget run_id l now)
  unfolding begin_read_budget
  of_begin run_id l now = search (rules, p, of_update) depth 30 fits 50000

  of_consume_failure : (max : ℕ) (r : Option Run) → Leaves R (consume_failure max r)
  of_consume_failure max none = search (rules, p)
  of_consume_failure max (some r) = search (rules, p)

  pub of_consume : (run_id : Ident) (max now : ℕ) → Leaves R (consume_target_request run_id max now)
  unfolding consume_target_request
  of_consume run_id max now = search (rules, p, of_update, of_consume_failure) depth 30 fits 50000

  of_finish_failure : (u : Usage) (l : Limits) (r : Option Run) → Leaves R (finish_failure u l r)
  of_finish_failure u l none = search (rules, p)
  of_finish_failure u l (some r) = search (rules, p) depth 10

  pub of_finish_read :
      (run_id : Ident) (u : Usage) (l : Limits) (now : ℕ)
      → Leaves R (finish_read_budget run_id u l now)
  unfolding finish_read_budget
  of_finish_read run_id u l now =
      search (rules, p, of_update, of_finish_failure) depth 30 fits 50000

  of_end_run :
      (run_id : Ident) (status : Status) (reason : Reason) (now : ℕ) (fence : Option Fence)
      → Leaves R (end_run run_id status reason now fence)
  unfolding end_run
  of_end_run run_id status reason now fence = search (rules, p, of_update) depth 12 fits 20000

  pub of_interrupt_row :
      (run_id : Ident) (status : Status) (reason : Reason) (now : ℕ) (fence : Option Fence)
      (row : Option Run)
      → Leaves R (interrupt_row run_id status reason now fence row)
  unfolding interrupt_row interrupt_running
  of_interrupt_row run_id status reason now fence none = search (rules, p)
  of_interrupt_row run_id status reason now fence (some r) =
      search (rules, p, of_tasks, of_end_run) depth 20 fits 20000

-- The methods on runs whose checks read texts.
module _ {R : Repository → Repository → Type 0} (p : Preorder R) (q : Parts R) (t : Texts) where
  open q use {of_update, of_insert_run, of_insert_task, of_insert_observation, of_tasks}

  of_check_source : (i : Identity) (o : Option Run) → Leaves R (check_source t i o)
  unfolding check_source
  of_check_source i none = search (rules, p)
  of_check_source i (some r) = search (rules, p) depth 12

  of_check_replay : (i : Identity) (o : Option Ident) → Leaves R (check_replay t i o)
  unfolding check_replay
  of_check_replay i none = search (rules, p)
  of_check_replay i (some id) = search (rules, p, of_check_source) depth 12

  pub of_create :
      (run_id : Ident) (i : Identity) (o : Option Ident) (now : ℕ)
      → Leaves R (create_run t run_id i o now)
  unfolding create_run
  of_create run_id i o now = search (rules, p, of_check_replay, of_insert_run) depth 30 fits 50000

  of_finish_running :
      (run_id : Ident) (status : Status) (ws : List Reason) (now : ℕ) (f : Option Fence) (r : Run)
      → Leaves R (finish_running t run_id status ws now f r)
  unfolding finish_running
  of_finish_running run_id status ws now f r = search (rules, p, of_update) depth 40 fits 50000

  pub of_finish :
      (run_id : Ident) (status : Status) (ws : List Reason) (now : ℕ) (f : Option Fence) (r : Run)
      → Leaves R (finish t run_id status ws now f r)
  unfolding finish
  of_finish run_id status ws now f r = search (rules, p, of_finish_running) depth 12

  of_transition_open :
      (id : Ident) (c : Change) (now : ℕ) (fence : Option Fence) (x : Task)
      → Leaves R (transition_open id c now fence x)
  unfolding transition_open
  of_transition_open id c now fence x = search (rules, p, of_tasks) depth 12

  of_read_task : (id : Ident) → Leaves R (read_task t id)
  unfolding read_task
  of_read_task id = search (rules, p) depth 12

  pub of_transition :
      (id : Ident) (c : Change) (now now₁ : ℕ) → Leaves R (transition_task t id c now now₁)
  unfolding transition_task
  of_transition id c now now₁ =
      search (rules, p, of_read_task, of_transition_open) depth 20 fits 20000

  of_record : (o : Observation) (now now₁ : ℕ) → Leaves R (record_observation t o now now₁)
  unfolding record_observation
  of_record o now now₁ = search (rules, p, of_insert_observation) depth 20 fits 20000

  pub of_observe :
      (x : Task) (a : Reading) (now now₁ now₂ : ℕ) → Leaves R (add_observation t x a now now₁ now₂)
  unfolding add_observation
  of_observe x a now now₁ now₂ = search (rules, p, of_record) depth 20 fits 20000

  of_find_replay :
      (q : Request) (parent : Run) (o : Option Ident) → Leaves R (find_replay t q parent o)
  unfolding find_replay
  of_find_replay q parent none = search (rules, p)
  of_find_replay q parent (some source_id) = search (rules, p)

  of_insert_if_new :
      (q : Request) (o : Option Ident) (now : ℕ) (fence : Option Fence) (x : Option Task)
      → Leaves R (insert_if_new t q o now fence x)
  unfolding insert_if_new
  of_insert_if_new q o now fence none = search (rules, p, of_insert_task) depth 10
  of_insert_if_new q o now fence (some x) = search (rules, p)

  pub of_add_task : (q : Request) (now now₁ : ℕ) → Leaves R (create_task t q now now₁)
  unfolding create_task
  of_add_task q now now₁ =
      search (rules, p, of_find_replay, of_insert_if_new, of_read_task) depth 30 fits 50000

-- The statements set no fence.
same_fences_parts : Parts SameFences
unfolding update_run update_tasks insert_run insert_task insert_observation transaction
same_fences_parts = record {
  of_update = λ run_id test change. record { run = λ s. record { fences = ground arith } };
  of_tasks = λ test change. record { run = λ s. record { fences = ground arith } };
  of_insert_run = λ run_id r. record { run = λ s. record { fences = ground arith } };
  of_insert_task = λ fence x. record { run = λ s. record { fences = ground arith } };
  of_insert_observation = λ fence o. record { run = λ s. record { fences = ground arith } };
  of_transaction =
      λ m _ h. record { run = λ s. record { fences = ground (arith, (h.run s).fences) } };
}

module _ {R : Repository → Repository → Type 0} (p : Preorder R) (q : Parts R) where
  pub of_interrupt :
      (run_id : Ident) (b : Bool) (now now₁ : ℕ) → Leaves R (interrupt_run run_id b now now₁)
  unfolding interrupt_run
  of_interrupt run_id b now now₁ =
      q.of_transaction _
        (search (rules, same_fences, of_interrupt_row same_fences same_fences_parts) depth 20 fits
          20000)
        (search (rules, p, of_interrupt_row p q) depth 20 fits 20000)

  of_finish_checked :
      (t : Texts) (run_id : Ident) (status : Status) (ws : List Reason) (now now₁ : ℕ)
      → Leaves R (finish_checked t run_id status ws now now₁)
  unfolding finish_checked
  of_finish_checked t run_id status ws now now₁ =
      search (rules, p, of_finish p q t) depth 20 fits 20000

-- The two methods that run in a transaction.
module _ {R : Repository → Repository → Type 0} (p : Preorder R) (q : Parts R) where
  pub of_finalize :
      (t : Texts) (run_id : Ident) (status : Status) (ws : List Reason) (now now₁ : ℕ)
      → Leaves R (finalize_run t run_id status ws now now₁)
  unfolding finalize_run
  of_finalize t run_id status ws now now₁ =
      let body = λ (given : List Reason).
        q.of_transaction (finish_checked t run_id status given now now₁)
          (of_finish_checked same_fences same_fences_parts t run_id status given now now₁)
          (of_finish_checked p q t run_id status given now now₁) in
      search (rules, p, body) depth 20 fits 20000
