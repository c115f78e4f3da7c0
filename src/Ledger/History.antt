-- ===== src/Ledger/History.antt =====
-- The ledger is a durable record (web_listening/blocks/agentic_orchestration.py): what a call may
-- change of the rows that were there before it.
use web_listening.Prelude.{
  ==_iff, ◌&&◌, ◌≡◌, refl, Option, none, some, arith, Bool, true, List, [], ◌∷◌, ◌++◌, update_rows,
  all, ◌||◌, not, if◌then◌else◌, Bool-cases, inl, inr, ◌∙◌, Option-cases, ◌⊎◌, ◌==◌,
}
use web_listening.Ledger.Data.{Ident, Run, Task, Observation, Repository, same}
use web_listening.Ledger.Rowwise.{
  RunEvolves, TaskEvolves, RunEvolves-trans, TaskEvolves-trans, allowed-RunEvolves,
  allowed-TaskEvolves,
}
use web_listening.Ledger.Store.{update_run, put_run}
use web_listening.Ledger.Runs.{update_tasks, insert_run}
use web_listening.Ledger.Rules.{Preorder, Leaves}
use web_listening.Ledger.Guards.{
  runs_update_allowed, tasks_update_allowed, terminal_evidence_allowed,
}

-- Row by row: the rows that were there have evolved, and new ones stand behind them.
abbrev pub TasksEvolve : List Task → List Task → Type 0
TasksEvolve [] ys = Unit
TasksEvolve (x ∷ xs) [] = ⊥
TasksEvolve (x ∷ xs) (y ∷ ys) = TaskEvolves x y × TasksEvolve xs ys

abbrev pub IsExtended : List Observation → List Observation → Type 0
IsExtended [] ys = Unit
IsExtended (x ∷ xs) [] = ⊥
IsExtended (x ∷ xs) (y ∷ ys) = (y ≡ x) × IsExtended xs ys

-- A run never goes, and evolves.
abbrev pub RunsEvolve : Option Run → Option Run → Type 0
RunsEvolve none b = Unit
RunsEvolve (some r) none = ⊥
RunsEvolve (some r) (some r') = RunEvolves r r'

pub record Evolves (s s' : Repository) : Type 0 where
  pub runs : (k : Ident) → RunsEvolve (s.ledger.runs k) (s'.ledger.runs k)
  pub tasks : TasksEvolve s.ledger.tasks s'.ledger.tasks
  pub observations : IsExtended s.ledger.observations s'.ledger.observations

pub TasksEvolve-refl : (xs : List Task) → TasksEvolve xs xs
TasksEvolve-refl [] = tt
TasksEvolve-refl (x ∷ xs) = (record { kept = refl; over = λ e. refl }, TasksEvolve-refl xs)

pub TasksEvolve-trans :
    (xs ys zs : List Task) → TasksEvolve xs ys → TasksEvolve ys zs → TasksEvolve xs zs
TasksEvolve-trans [] ys zs h k = tt
TasksEvolve-trans (x ∷ xs) (y ∷ ys) (z ∷ zs) (h, hs) (k, ks) =
    (TaskEvolves-trans x y z h k, TasksEvolve-trans xs ys zs hs ks)
TasksEvolve-trans (x ∷ xs) [] zs h k = absurd h
TasksEvolve-trans (x ∷ xs) (y ∷ ys) [] h k = absurd k

pub IsExtended-refl : (os : List Observation) → IsExtended os os
IsExtended-refl [] = tt
IsExtended-refl (o ∷ os) = (refl, IsExtended-refl os)

pub IsExtended-trans :
    (xs ys zs : List Observation) → IsExtended xs ys → IsExtended ys zs → IsExtended xs zs
IsExtended-trans [] ys zs h k = tt
IsExtended-trans (x ∷ xs) (y ∷ ys) (z ∷ zs) (h, hs) (k, ks) =
    (k ∙ h, IsExtended-trans xs ys zs hs ks)
IsExtended-trans (x ∷ xs) [] zs h k = absurd h
IsExtended-trans (x ∷ xs) (y ∷ ys) [] h k = absurd k

pub RunsEvolve-refl : (b : Option Run) → RunsEvolve b b
RunsEvolve-refl none = tt
RunsEvolve-refl (some r) = record { kept = refl; epoch = omega arith; over = λ e. refl }

pub RunsEvolve-trans : (a b c : Option Run) → RunsEvolve a b → RunsEvolve b c → RunsEvolve a c
RunsEvolve-trans none b c h k = tt
RunsEvolve-trans (some r) (some r') (some r'') h k = RunEvolves-trans r r' r'' h k
RunsEvolve-trans (some r) none c h k = absurd h
RunsEvolve-trans (some r) (some r') none h k = absurd k

abbrev pub evolves : Preorder Evolves
evolves = record {
  same_state = λ s. record {
    runs = λ k. RunsEvolve-refl (s.ledger.runs k);
    tasks = TasksEvolve-refl s.ledger.tasks;
    observations = IsExtended-refl s.ledger.observations;
  };
  compose = λ s s' s'' f g. record {
    runs = λ k. RunsEvolve-trans _ _ _ (f.runs k) (g.runs k);
    tasks = TasksEvolve-trans _ _ _ f.tasks g.tasks;
    observations = IsExtended-trans _ _ _ f.observations g.observations;
  };
}

pub TasksEvolve-append : (xs ys : List Task) → TasksEvolve xs (xs ++ ys)
TasksEvolve-append [] ys = tt
TasksEvolve-append (x ∷ xs) ys =
    (record { kept = refl; over = λ e. refl }, TasksEvolve-append xs ys)

pub IsExtended-append : (xs ys : List Observation) → IsExtended xs (xs ++ ys)
IsExtended-append [] ys = tt
IsExtended-append (x ∷ xs) ys = (refl, IsExtended-append xs ys)

-- An update of rows that the trigger lets through.
update_rows-TasksEvolve :
    (test : Task → Bool) (change : Task → Task) (xs : List Task)
    → all (λ x. not (test x) || tasks_update_allowed x (change x)) xs ≡ true
    → TasksEvolve xs (update_rows test change xs)
update_rows-TasksEvolve test change [] h = tt
update_rows-TasksEvolve test change (x ∷ xs) h = elim (Bool-cases (test x)) [
  | inl hit ↦ rw hit (
    ground (arith, allowed-TaskEvolves x (change x)),
    update_rows-TasksEvolve test change xs (ground arith),
  )
  | inr miss ↦ rw miss (
    record { kept = refl; over = λ e. refl },
    update_rows-TasksEvolve test change xs (ground arith),
  )
]

-- Where an entry is replaced by a row that it evolves into.
put_run-RunsEvolve :
    (run_id k : Ident) (r r' : Run) (runs : Ident → Option Run)
    → runs run_id ≡ some r
    → RunEvolves r r'
    → RunsEvolve (runs k) (if k == run_id then some r' else runs k)
put_run-RunsEvolve run_id k r r' runs e h = elim (Bool-cases (k == run_id)) [
  | inl same ↦ rw ((==_iff k run_id).0 same, e, (==_iff run_id run_id).1 refl) h
  | inr other ↦ rw other (RunsEvolve-refl (runs k))
]

put_run-Evolves :
    (run_id : Ident) (r r' : Run) (s : Repository)
    → s.ledger.runs run_id ≡ some r
    → RunEvolves r r'
    → Evolves s (record s { ledger = put_run run_id r' s.ledger })
put_run-Evolves run_id r r' s e h = record {
  runs = λ k. put_run-RunsEvolve run_id k r r' s.ledger.runs e h;
  tasks = TasksEvolve-refl s.ledger.tasks;
  observations = IsExtended-refl s.ledger.observations;
}

-- What an update of a run does to the state: nothing, or what the trigger lets through.
update_run_cases :
    (run_id : Ident) (test : Run → Bool) (change : Run → Run) (s : Repository)
    → ((update_run run_id test change s).1 ≡ s)
      ⊎ ((r : Run) × (s.ledger.runs run_id ≡ some r)
          × (runs_update_allowed r (change r) ≡ true)
          × ((update_run run_id test change s).1
              ≡ record s { ledger = put_run run_id (change r) s.ledger }))
unfolding update_run
update_run_cases run_id test change s = elim (Option-cases (s.ledger.runs run_id)) [
  | inl missing ↦ ground arith
  | inr (r, e) ↦
      elim (Bool-cases (
        test r
        && runs_update_allowed r (change r)
        && terminal_evidence_allowed s.ledger r (change r))) [
          | inl yes' ↦ inr (r, e, ground arith, ground arith)
          | inr no' ↦ inl (ground arith)
        ]
]

pub update_run-Evolves :
    (run_id : Ident) (test : Run → Bool) (change : Run → Run)
    → Leaves Evolves (update_run run_id test change)
update_run-Evolves run_id test change = record {
  run = λ s. elim (update_run_cases run_id test change s) [
    | inl same ↦ rw same (evolves.same_state s)
    | inr (r, e, allowed, new) ↦
        rw new (put_run-Evolves run_id r (change r) s e (allowed-RunEvolves r (change r) allowed))
  ];
}

pub update_tasks-Evolves :
    (test : Task → Bool) (change : Task → Task) → Leaves Evolves (update_tasks test change)
unfolding update_tasks
update_tasks-Evolves test change = record {
  run = λ s.
      elim (Bool-cases
        (all (λ x. not (test x) || tasks_update_allowed x (change x)) s.ledger.tasks)) [
          | inl allowed ↦ rw allowed (record {
            runs = λ k. RunsEvolve-refl (s.ledger.runs k);
            tasks = update_rows-TasksEvolve test change s.ledger.tasks allowed;
            observations = IsExtended-refl s.ledger.observations;
          })
          | inr aborted ↦ rw aborted (evolves.same_state s)
        ];
}

-- Where there was no run of that key.
put_new_run-RunsEvolve :
    (run_id k : Ident) (r : Run) (runs : Ident → Option Run)
    → runs run_id ≡ none
    → RunsEvolve (runs k) (if k == run_id then some r else runs k)
put_new_run-RunsEvolve run_id k r runs e = elim (Bool-cases (k == run_id)) [
  | inl hit ↦ rw ((==_iff k run_id).0 hit, e) tt
  | inr other ↦ rw other (RunsEvolve-refl (runs k))
]

put_new_run-Evolves :
    (run_id : Ident) (r : Run) (s : Repository)
    → s.ledger.runs run_id ≡ none
    → Evolves s (record s { ledger = put_run run_id r s.ledger })
put_new_run-Evolves run_id r s e = record {
  runs = λ k. put_new_run-RunsEvolve run_id k r s.ledger.runs e;
  tasks = TasksEvolve-refl s.ledger.tasks;
  observations = IsExtended-refl s.ledger.observations;
}

insert_run_cases :
    (run_id : Ident) (r : Run) (s : Repository)
    → ((insert_run run_id r s).1 ≡ s)
      ⊎ ((s.ledger.runs run_id ≡ none)
          × ((insert_run run_id r s).1 ≡ record s { ledger = put_run run_id r s.ledger }))
unfolding insert_run
insert_run_cases run_id r s = elim (Option-cases (s.ledger.runs run_id)) [
  | inl missing ↦ inr (missing, ground arith)
  | inr (r', e) ↦ inl (ground arith)
]

pub insert_run-Evolves : (run_id : Ident) (r : Run) → Leaves Evolves (insert_run run_id r)
insert_run-Evolves run_id r = record {
  run = λ s. elim (insert_run_cases run_id r s) [
    | inl same ↦ rw same (evolves.same_state s)
    | inr (e, new) ↦ rw new (put_new_run-Evolves run_id r s e)
  ];
}
