-- ===== src/Ledger/Frames.antt =====
-- What the methods on tasks and observations leave alone
-- (web_listening/blocks/agentic_orchestration.py): the runs and this process's fences.
use web_listening.Prelude.{ℕ, ◌≡◌, ◌∙◌, Option, none, some, arith, Bool, refl}
use web_listening.Ledger.Data.{Ident, Run, Task, Observation, Fence, Repository, Texts}
use web_listening.Ledger.Rules.{Preorder, Leaves, rules}
use web_listening.Ledger.Runs.{update_tasks}
use web_listening.Ledger.Tasks.{
  Request, Change, create_task, transition_task, transition_open, read_task, insert_task,
  insert_if_new, find_replay,
}
use web_listening.Ledger.Observations.{
  Reading, add_observation, record_observation, insert_observation,
}

-- The runs and the fences are those of the other state.
pub record SameRuns (s s' : Repository) : Type 0 where
  pub runs : s'.ledger.runs ≡ s.ledger.runs
  pub fences : s'.fences ≡ s.fences

abbrev pub same_runs : Preorder SameRuns
same_runs = record {
  same_state = λ s. record { runs = refl; fences = refl };
  compose = λ s s' s'' h k. record { runs = k.runs ∙ h.runs; fences = k.fences ∙ h.fences };
}

update_tasks-SameRuns :
    (test : Task → Bool) (change : Task → Task) → Leaves SameRuns (update_tasks test change)
unfolding update_tasks
update_tasks-SameRuns test change = record {
  run = λ s. record { runs = ground arith; fences = ground arith };
}

transition_open-SameRuns :
    (id : Ident) (c : Change) (now : ℕ) (fence : Option Fence) (x : Task)
    → Leaves SameRuns (transition_open id c now fence x)
unfolding transition_open
transition_open-SameRuns id c now fence x = search (rules, same_runs, update_tasks-SameRuns)

module _ (t : Texts) where
  read_task-SameRuns : (id : Ident) → Leaves SameRuns (read_task t id)
  unfolding read_task
  read_task-SameRuns id = search (rules, same_runs) depth 12

  pub transition_task-SameRuns :
      (id : Ident) (c : Change) (now now₁ : ℕ) → Leaves SameRuns (transition_task t id c now now₁)
  unfolding transition_task
  transition_task-SameRuns id c now now₁ =
      search (rules, same_runs, read_task-SameRuns, transition_open-SameRuns) depth 20 fits 20000

  insert_observation-SameRuns :
      (fence : Option Fence) (o : Observation) → Leaves SameRuns (insert_observation fence o)
  unfolding insert_observation
  insert_observation-SameRuns fence o = record {
    run = λ s. record { runs = ground arith; fences = ground arith };
  }

  record_observation-SameRuns :
      (o : Observation) (now now₁ : ℕ) → Leaves SameRuns (record_observation t o now now₁)
  unfolding record_observation
  record_observation-SameRuns o now now₁ =
      search (rules, same_runs, insert_observation-SameRuns) depth 20 fits 20000

  pub add_observation-SameRuns :
      (x : Task) (a : Reading) (now now₁ now₂ : ℕ)
      → Leaves SameRuns (add_observation t x a now now₁ now₂)
  unfolding add_observation
  add_observation-SameRuns x a now now₁ now₂ =
      search (rules, same_runs, record_observation-SameRuns) depth 20 fits 20000

  insert_task-SameRuns : (fence : Option Fence) (x : Task) → Leaves SameRuns (insert_task fence x)
  unfolding insert_task
  insert_task-SameRuns fence x = record {
    run = λ s. record { runs = ground arith; fences = ground arith };
  }

  find_replay-SameRuns :
      (q : Request) (parent : Run) (o : Option Ident) → Leaves SameRuns (find_replay t q parent o)
  unfolding find_replay
  find_replay-SameRuns q parent none = search (rules, same_runs)
  find_replay-SameRuns q parent (some source_id) = search (rules, same_runs)

  insert_if_new-SameRuns :
      (q : Request) (o : Option Ident) (now : ℕ) (fence : Option Fence) (x : Option Task)
      → Leaves SameRuns (insert_if_new t q o now fence x)
  unfolding insert_if_new
  insert_if_new-SameRuns q o now fence none =
      search (rules, same_runs, insert_task-SameRuns) depth 10
  insert_if_new-SameRuns q o now fence (some x) = search (rules, same_runs)

  pub create_task-SameRuns :
      (q : Request) (now now₁ : ℕ) → Leaves SameRuns (create_task t q now now₁)
  unfolding create_task
  create_task-SameRuns q now now₁ =
      search (rules, same_runs, find_replay-SameRuns, insert_if_new-SameRuns, read_task-SameRuns)
        depth 30 fits 50000
