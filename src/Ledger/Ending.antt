-- ===== src/Ledger/Ending.antt =====
-- When a run may end, and as what: `_derive_parent_outcome` and `finalize_run`
-- (web_listening/blocks/agentic_orchestration.py).
use web_listening.Prelude.{
  ℕ, ◌≡◌, ◌↔◌, ◌⊎◌, inl, inr, refl, sym, ap, ◌∙◌, Option, none, some, arith, Bool, true, false, not,
  List, [], ◌∷◌, any, select, Bool-cases,
}
use web_listening.Ledger.Data.{
  Ident, Fence, Run, Task, Status, Reason, completed, running, cancelled, failed, rejected, partial,
  Repository, Ledger, Texts, ok, is_terminal, same_status,
}
use web_listening.Ledger.Outcome.{derive_parent_outcome, required_tasks, is_empty, some_task}
use web_listening.Ledger.Rows.{require_run, parent_from_row, list_tasks}
use web_listening.Ledger.Store.{
  assert_run_fence, assert_run_fence_state, gets, ◌>>=◌, update_run, transaction, Action,
}
use web_listening.Ledger.Steps.{bind_inv}
use web_listening.Ledger.Runs.{from_result, finalize_run, finish_checked, finish, finish_running}

-- A test that no row passes, in a narrower form.
any-narrow :
    (p q : Task → Bool) (xs : List Task)
    → ((x : Task) → q x ≡ true → p x ≡ true)
    → any p xs ≡ false
    → any q xs ≡ false
any-narrow p q [] h k = refl
any-narrow p q (x ∷ xs) h k = ground (arith, h x, any-narrow p q xs h)

any-select : (p q : Task → Bool) (xs : List Task) → any p xs ≡ false → any p (select q xs) ≡ false
any-select p q [] k = refl
any-select p q (x ∷ xs) k = ground (arith, any-select p q xs)

abbrev pub is_unfinished : Task → Bool
is_unfinished x = not (same_status x.status completed)

no-nonterminal :
    (xs : List Task)
    → any is_unfinished xs ≡ false
    → any (λ x. not (is_terminal x.status)) xs ≡ false
no-nonterminal xs h =
    any-narrow is_unfinished (λ x. not (is_terminal x.status)) xs (λ x e. ground arith) h

no-other :
    (a : Status) (xs : List Task)
    → same_status a completed ≡ false
    → any is_unfinished xs ≡ false
    → some_task a xs ≡ false
no-other a xs e h =
    any-narrow is_unfinished (λ x. same_status x.status a) xs (λ x k. ground arith) h

-- The outcome of a run is `completed` exactly where it has no warning, was not cancelled, has a
-- required task, and every one of its tasks is completed.
pub derive_parent_outcome-completed :
    (tasks : List Task) (warnings : List Reason) (is_cancelled : Bool)
    → (derive_parent_outcome tasks warnings is_cancelled ≡ ok completed) ↔ (
        (warnings ≡ [])
        × (is_cancelled ≡ false)
        × (is_empty (required_tasks tasks) ≡ false)
        × (any is_unfinished tasks ≡ false))
unfolding derive_parent_outcome
derive_parent_outcome-completed [] warnings b = ground arith
derive_parent_outcome-completed (x ∷ xs) (w ∷ ws) b = ground arith
derive_parent_outcome-completed (x ∷ xs) [] b = (
  λ h. ground arith,
  λ h.
      let done = h.3 in
      ground (
        arith,
        no-nonterminal (x ∷ xs) done,
        no-other cancelled (x ∷ xs) refl done,
        no-other failed (required_tasks (x ∷ xs)) refl
            (any-select is_unfinished (λ y. y.required) (x ∷ xs) done),
        no-other rejected (required_tasks (x ∷ xs)) refl
            (any-select is_unfinished (λ y. y.required) (x ∷ xs) done),
        no-other partial (required_tasks (x ∷ xs)) refl
            (any-select is_unfinished (λ y. y.required) (x ∷ xs) done),
      ),
)

require_run-some :
    (t : Texts) (l : Ledger) (run_id : Ident) (r : Run)
    → require_run t l run_id ≡ ok r
    → l.runs run_id ≡ some r
unfolding require_run parent_from_row
require_run-some t l run_id r h = ground arith

-- What a run is ended on.
pub record IsEnding (t : Texts) (run_id : Ident) (requested : Status) (warnings : List Reason)
    (now : ℕ) (s s' : Repository) : Type 0 where
  pub run : Run
  pub tasks : List Task
  pub row : s.ledger.runs run_id ≡ some run
  pub open_run : run.status ≡ running
  pub sealed : run.required_sealed ≡ true
  pub settled : run.active_reads ≡ 0
  pub listed : list_tasks t s.ledger run_id ≡ ok tasks
  pub outcome : derive_parent_outcome tasks warnings false ≡ ok requested
  pub ended :
      s'.ledger.runs run_id
      ≡ some (record run {
        status = requested;
        warnings = warnings;
        finished_at = some now;
        lease_owner = none;
        lease_expires_at = none;
      })
  pub kept : s'.ledger.tasks ≡ s.ledger.tasks

pub same_status→eq : (a b : Status) → same_status a b ≡ true → a ≡ b
same_status→eq a b h = ground arith

finish_running-IsEnding :
    (t : Texts) (run_id : Ident) (requested : Status) (ws : List Reason) (now : ℕ)
    (f : Option Fence) (r : Run) (s : Repository)
    → s.ledger.runs run_id ≡ some r
    → (finish_running t run_id requested ws now f r s).0 ≡ ok tt
    → IsEnding t run_id requested ws now s (finish_running t run_id requested ws now f r s).1
unfolding finish_running update_run
finish_running-IsEnding t run_id requested ws now f r s row h = grind (arith, same_status→eq)

-- The run was over, and the call asks for what it ended as.
pub record IsRepeat (run_id : Ident) (requested : Status) (s s' : Repository) : Type 0 where
  pub run : Run
  pub row : s.ledger.runs run_id ≡ some run
  pub over : is_terminal run.status ≡ true
  pub repeated : run.status ≡ requested
  pub kept : s' ≡ s

finish_cases :
    (t : Texts) (run_id : Ident) (requested : Status) (ws : List Reason) (now : ℕ)
    (f : Option Fence) (r : Run) (s : Repository)
    → s.ledger.runs run_id ≡ some r
    → (finish t run_id requested ws now f r s).0 ≡ ok tt
    → IsEnding t run_id requested ws now s (finish t run_id requested ws now f r s).1
      ⊎ IsRepeat run_id requested s (finish t run_id requested ws now f r s).1
unfolding finish
finish_cases t run_id requested ws now f r s row h = elim (Bool-cases (is_terminal r.status)) [
  | inl over ↦ inr (record {
    run = r;
    row = row;
    over = over;
    repeated = grind (arith, same_status→eq);
    kept = rw over refl;
  })
  | inr open_run ↦ inl (
      rw open_run
        (finish_running-IsEnding t run_id requested ws now f r s row (ground (arith, h, open_run))))
]

checked_through :
    (t : Texts) (run_id : Ident) (requested : Status) (ws : List Reason) (now now₁ : ℕ)
    (s : Repository)
    → (finish_checked t run_id requested ws now now₁ s).0 ≡ ok tt
    → (f : Option Fence) × (r : Run) × (require_run t s.ledger run_id ≡ ok r)
      × ((finish t run_id requested ws now₁ f r s).0 ≡ ok tt)
      × ((finish_checked t run_id requested ws now now₁ s).1
          ≡ (finish t run_id requested ws now₁ f r s).1)
unfolding finish_checked
checked_through t run_id requested ws now now₁ s h =
    let ending : Option Fence → Run → Action (Unit {0}) =
      λ f. finish t run_id requested ws now₁ f in
    let read_run : Option Fence → Action (Unit {0}) =
      λ f. gets (λ s'. require_run t s'.ledger run_id) >>= λ row. from_result row >>= ending f in
    let (f, passed, through) = bind_inv (assert_run_fence run_id now) read_run s tt h in
    let unchanged = assert_run_fence_state run_id now s in
    let through' : finish_checked t run_id requested ws now now₁ s ≡ read_run f s =
      through ∙ ap (read_run f) unchanged in
    let (r, found, last) =
      bind_inv (from_result (require_run t s.ledger run_id)) (ending f) s tt
        (sym (ap (λ p. p.0) through') ∙ h) in
    (f, r, found, sym (ap (λ p. p.0) (through' ∙ last)) ∙ h, ap (λ p. p.1) (through' ∙ last))

finalized_through :
    (t : Texts) (run_id : Ident) (requested : Status) (given : List Reason) (now now₁ : ℕ) (r : Run)
    (s : Repository)
    → (finalize_run t run_id requested given now now₁ s).0 ≡ ok r
    → ((finish_checked t run_id requested (t.sorted_set given) now now₁ s).0 ≡ ok tt)
      × ((finalize_run t run_id requested given now now₁ s).1
          ≡ (finish_checked t run_id requested (t.sorted_set given) now now₁ s).1)
unfolding finalize_run transaction
finalized_through t run_id requested given now now₁ r s h = ground arith

-- A call of `finalize_run` that returns either found the run over with the requested status, and left
-- everything as it was; or it found a running run whose tasks are sealed and of which no read is open, whose tasks give the
-- requested status by `_derive_parent_outcome`, and ended it: the run's row then has that status,
-- the sorted warnings and the time, no lease, and its other columns as before, and the tasks are as before.
pub finalize_run-IsEnding :
    (t : Texts) (run_id : Ident) (requested : Status) (given : List Reason) (now now₁ : ℕ) (r : Run)
    (s : Repository)
    → (finalize_run t run_id requested given now now₁ s).0 ≡ ok r
    → IsEnding t run_id requested
        (t.sorted_set given)
        now₁
        s
        (finalize_run t run_id requested given now now₁ s).1
      ⊎ IsRepeat run_id requested s (finalize_run t run_id requested given now now₁ s).1
finalize_run-IsEnding t run_id requested given now now₁ r s h =
    let (checked, left) = finalized_through t run_id requested given now now₁ r s h in
    let (f, r', found, finished, left') =
      checked_through t run_id requested (t.sorted_set given) now now₁ s checked in
    rw (left, left')
      (finish_cases t run_id requested (t.sorted_set given) now₁ f r' s
        (require_run-some t s.ledger run_id r' found) finished)
