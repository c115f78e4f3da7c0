-- ===== src/Ledger/Audit.antt =====
-- The tables as an audit trail: no call changes what they record of the past
-- (web_listening/blocks/agentic_orchestration.py).
use web_listening.Prelude.{ℕ, Option, none, some, arith, Bool, true, false, List, [], ◌∷◌}
use web_listening.Ledger.Data.{
  Ident, Fence, Run, Task, Observation, Claim, Limits, Repository, Texts, Result, ok, err,
}
use web_listening.Ledger.Store.{set_fence, transaction}
use web_listening.Ledger.Lease.{acquire_run_lease, release_run_lease, take_fence, release_running}
use web_listening.Ledger.TargetSend.{
  claim_target_send, claim_fenced, release_target_send, release_claimed, forget_claim,
  renew_target_send,
}
use web_listening.Ledger.Tasks.{insert_task}
use web_listening.Ledger.Observations.{insert_observation}
use web_listening.Ledger.Rules.{Leaves, rules}
use web_listening.Ledger.Methods.{
  Parts, of_seal, of_reserve, of_begin, of_consume, of_finish_read, of_create, of_finalize,
  of_interrupt, of_add_task, of_transition, of_observe,
}
use web_listening.Ledger.Calls.{Call, perform, perform_all}
use web_listening.Ledger.History.{
  Evolves, evolves, RunsEvolve-refl, TasksEvolve-refl, IsExtended-refl, TasksEvolve-append,
  IsExtended-append, update_run-Evolves, update_tasks-Evolves, insert_run-Evolves,
}

insert_task-Evolves : (fence : Option Fence) (x : Task) → Leaves Evolves (insert_task fence x)
unfolding insert_task
insert_task-Evolves fence x = record {
  run = λ s. record {
    runs = λ k. ground (arith, RunsEvolve-refl (s.ledger.runs k));
    tasks =
        ground (arith, TasksEvolve-refl s.ledger.tasks, TasksEvolve-append s.ledger.tasks (x ∷ []));
    observations = ground (arith, IsExtended-refl s.ledger.observations);
  };
}

insert_observation-Evolves :
    (fence : Option Fence) (o : Observation) → Leaves Evolves (insert_observation fence o)
unfolding insert_observation
insert_observation-Evolves fence o = record {
  run = λ s. record {
    runs = λ k. ground (arith, RunsEvolve-refl (s.ledger.runs k));
    tasks = ground (arith, TasksEvolve-refl s.ledger.tasks);
    observations = ground (
      arith,
      IsExtended-refl s.ledger.observations,
      IsExtended-append s.ledger.observations (o ∷ []),
    );
  };
}

set_fence-Evolves :
    (run_id : Ident) (fence : Option Fence) → Leaves Evolves (set_fence run_id fence)
set_fence-Evolves run_id fence = record {
  run = λ s. record {
    runs = λ k. RunsEvolve-refl (s.ledger.runs k);
    tasks = TasksEvolve-refl s.ledger.tasks;
    observations = IsExtended-refl s.ledger.observations;
  };
}

-- Where the body raises, the tables are those of the start.
restored :
    {A : Type 0} (s : Repository) (r : Result A × Repository)
    → Evolves s r.1
    → Evolves s (transaction (λ _. r) s).1
unfolding transaction
restored s (ok a, s') h = h
restored s (err e, s') h = record {
  runs = λ k. RunsEvolve-refl (s.ledger.runs k);
  tasks = TasksEvolve-refl s.ledger.tasks;
  observations = IsExtended-refl s.ledger.observations;
}

parts : Parts Evolves
unfolding transaction
parts = record {
  of_update = update_run-Evolves;
  of_tasks = update_tasks-Evolves;
  of_insert_run = insert_run-Evolves;
  of_insert_task = insert_task-Evolves;
  of_insert_observation = insert_observation-Evolves;
  of_transaction = λ m k h. record { run = λ s. restored s (m s) (h.run s) };
}

take_fence-Evolves : (run_id owner : Ident) (b : Bool) → Leaves Evolves (take_fence run_id owner b)
take_fence-Evolves run_id owner false = search (rules, evolves)
take_fence-Evolves run_id owner true =
    search (rules, evolves, set_fence-Evolves) depth 12 fits 20000

acquire-Evolves :
    (t : Texts) (run_id owner : Ident) (ttl now : ℕ)
    → Leaves Evolves (acquire_run_lease t run_id owner ttl now)
unfolding acquire_run_lease
acquire-Evolves t run_id owner ttl now =
    search (rules, evolves, update_run-Evolves, take_fence-Evolves) depth 20 fits 20000

release_running-Evolves :
    (run_id owner : Ident) (r : Run) (f : Option Fence)
    → Leaves Evolves (release_running run_id owner r f)
release_running-Evolves run_id owner r f =
    search (rules, evolves, update_run-Evolves) depth 20 fits 20000

release-Evolves : (run_id owner : Ident) → Leaves Evolves (release_run_lease run_id owner)
unfolding release_run_lease
release-Evolves run_id owner =
    search (rules, evolves, release_running-Evolves, set_fence-Evolves) depth 20 fits 20000

claim_fenced-Evolves :
    (t : Texts) (run_id : Ident) (max timeout now₁ now₂ : ℕ) (f : Option Fence)
    → Leaves Evolves (claim_fenced t run_id max timeout now₁ now₂ f)
claim_fenced-Evolves t run_id max timeout now₁ now₂ none = search (rules, evolves)
claim_fenced-Evolves t run_id max timeout now₁ now₂ (some (owner, epoch)) =
    search (rules, evolves, update_run-Evolves, set_fence-Evolves) depth 30 fits 50000

claim-Evolves :
    (t : Texts) (run_id : Ident) (max timeout now now₁ now₂ : ℕ)
    → Leaves Evolves (claim_target_send t run_id max timeout now now₁ now₂)
unfolding claim_target_send
claim-Evolves t run_id max timeout now now₁ now₂ =
    search (rules, evolves, claim_fenced-Evolves) depth 20 fits 20000

release_claimed-Evolves : (c : Claim) → Leaves Evolves (release_claimed c)
release_claimed-Evolves c =
    search (rules, evolves, update_run-Evolves, set_fence-Evolves) depth 20 fits 20000

forget_claim-Evolves : (c : Claim) → Leaves Evolves (forget_claim c)
forget_claim-Evolves c = search (rules, evolves, set_fence-Evolves) depth 20 fits 20000

release_claim-Evolves : (c : Claim) → Leaves Evolves (release_target_send c)
unfolding release_target_send
release_claim-Evolves c =
    search (rules, evolves, release_claimed-Evolves, forget_claim-Evolves, set_fence-Evolves) depth
      20 fits 20000

renew-Evolves :
    (c : Claim) (timeout now now₁ : ℕ) → Leaves Evolves (renew_target_send c timeout now now₁)
unfolding renew_target_send
renew-Evolves c timeout now now₁ =
    search (rules, evolves, update_run-Evolves, set_fence-Evolves) depth 30 fits 50000

pub perform-Evolves :
    (t : Texts) (l : Limits) (c : Call) (s : Repository) → Evolves s (perform t l c s)
unfolding perform
perform-Evolves t l (Call.acquire run_id owner ttl now) s =
    (acquire-Evolves t run_id owner ttl now).run s
perform-Evolves t l (Call.release run_id owner) s = (release-Evolves run_id owner).run s
perform-Evolves t l (Call.seal run_id now) s = (of_seal evolves parts run_id now).run s
perform-Evolves t l (Call.reserve run_id now) s = (of_reserve evolves parts run_id l now).run s
perform-Evolves t l (Call.begin run_id now) s = (of_begin evolves parts run_id l now).run s
perform-Evolves t l (Call.consume run_id now) s =
    (of_consume evolves parts run_id l.max_requests now).run s
perform-Evolves t l (Call.finish run_id u now) s =
    (of_finish_read evolves parts run_id u l now).run s
perform-Evolves t l (Call.claim run_id timeout now now₁ now₂) s =
    (claim-Evolves t run_id l.max_requests timeout now now₁ now₂).run s
perform-Evolves t l (Call.release_claim c) s = (release_claim-Evolves c).run s
perform-Evolves t l (Call.renew_claim c timeout now now₁) s =
    (renew-Evolves c timeout now now₁).run s
perform-Evolves t l (Call.create run_id i o now) s =
    (of_create evolves parts t run_id i o now).run s
perform-Evolves t l (Call.finalize run_id status ws now now₁) s =
    (of_finalize evolves parts t run_id status ws now now₁).run s
perform-Evolves t l (Call.interrupt run_id b now now₁) s =
    (of_interrupt evolves parts run_id b now now₁).run s
perform-Evolves t l (Call.add_task q now now₁) s = (of_add_task evolves parts t q now now₁).run s
perform-Evolves t l (Call.transition id c now now₁) s =
    (of_transition evolves parts t id c now now₁).run s
perform-Evolves t l (Call.observe x a now now₁ now₂) s =
    (of_observe evolves parts t x a now now₁ now₂).run s

-- Over any calls of the methods, whether they return or raise, in any order and with any clock
-- readings: every run that was there is there, with the same identity, creation time and replayed
-- run, and with an epoch that did not fall; every task that was there is there, with what it asks for
-- and where it was found; every observation that was there is there unchanged; the rows keep their
-- order; and a run that was over and a task that had ended have not changed at all.
pub perform_all-Evolves :
    (t : Texts) (l : Limits) (cs : List Call) (s : Repository) → Evolves s (perform_all t l cs s)
unfolding perform_all
perform_all-Evolves t l [] s = evolves.same_state s
perform_all-Evolves t l (c ∷ cs) s =
    evolves.compose s (perform t l c s) (perform_all t l cs (perform t l c s))
      (perform-Evolves t l c s) (perform_all-Evolves t l cs (perform t l c s))
