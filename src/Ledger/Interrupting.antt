-- ===== src/Ledger/Interrupting.antt =====
-- What an interruption leaves of a run: `interrupt_run` (web_listening/blocks/agentic_orchestration.py).
use web_listening.Prelude.{
  ℕ, ◌≡◌, refl, sym, ap, ◌∙◌, Option, none, some, arith, Bool, true, false, not, ◌&&◌, List, [],
  ◌∷◌, any, update_rows, if◌then◌else◌, ◌==◌,
}
use web_listening.Ledger.Data.{
  Ident, Fence, Run, Task, Status, Reason, running, cancelled, failed, run_cancelled,
  run_interrupted, Repository, Ledger, ok, is_terminal,
}
use web_listening.Ledger.Store.{
  Action, assert_run_fence, assert_run_fence_state, update_run, transaction, put_run, gets, ◌>>=◌,
}
use web_listening.Ledger.Steps.{bind_inv, put_run-same}
use web_listening.Ledger.Runs.{
  interrupt_run, interrupt_row, interrupt_running, end_run, update_tasks, is_open, end_task,
  fenced_run,
}

abbrev pub end_status : Bool → Status
end_status is_cancelled = if is_cancelled then cancelled else failed

abbrev pub end_reason : Bool → Reason
end_reason is_cancelled = if is_cancelled then run_cancelled else run_interrupted

abbrev pub is_unended : Ident → Task → Bool
is_unended run_id x = x.run_id == run_id && not (is_terminal x.status)

-- What is left after an interruption of a running run.
pub record IsInterrupted (run_id : Ident) (b : Bool) (now : ℕ) (r : Run) (s s' : Repository)
    : Type 0 where
  pub ended :
      s'.ledger.runs run_id
      ≡ some (record r {
        status = end_status b;
        warnings = end_reason b ∷ [];
        finished_at = some now;
        active_reads = 0;
        lease_owner = none;
        lease_expires_at = none;
        required_sealed = true;
      })
  pub others : (j : Ident) → (j == run_id) ≡ false → s'.ledger.runs j ≡ s.ledger.runs j
  pub tasks :
      s'.ledger.tasks
      ≡ update_rows
          (is_open run_id)
          (end_task s.ledger (end_status b) (end_reason b) now)
          s.ledger.tasks
  pub none_unended : any (is_unended run_id) s'.ledger.tasks ≡ false
  pub observations : s'.ledger.observations ≡ s.ledger.observations

update_rows-ended :
    (run_id : Ident) (l : Ledger) (b : Bool) (reason : Reason) (now : ℕ) (xs : List Task)
    → any
        (is_unended run_id)
        (update_rows (is_open run_id) (end_task l (end_status b) reason now) xs)
      ≡ false
update_rows-ended run_id l b reason now [] = refl
update_rows-ended run_id l b reason now (x ∷ xs) =
    ground (arith, update_rows-ended run_id l b reason now xs)

and_true_right : (a : Bool) → (a && true) ≡ a
and_true_right a = ground arith

update_rows-same :
    (p q : Task → Bool) (f : Task → Task) (xs : List Task)
    → ((x : Task) → p x ≡ q x)
    → update_rows p f xs ≡ update_rows q f xs
update_rows-same p q f [] h = refl
update_rows-same p q f (x ∷ xs) h = rw (h x, update_rows-same p q f xs h) refl

update_tasks_ok :
    (test : Task → Bool) (change : Task → Task) (s : Repository) (u : Unit {0})
    → (update_tasks test change s).0 ≡ ok u
    → (update_tasks test change s).1
      ≡ record s { ledger = record s.ledger { tasks = update_rows test change s.ledger.tasks } }
unfolding update_tasks
update_tasks_ok test change s u h = ground arith

abbrev ended_run : Bool → ℕ → Run → Run
ended_run b now r = record r {
  status = end_status b;
  warnings = end_reason b ∷ [];
  finished_at = some now;
  active_reads = 0;
  lease_owner = none;
  lease_expires_at = none;
  required_sealed = true;
}

end_run_ok :
    (run_id : Ident) (b : Bool) (now : ℕ) (f : Option Fence) (r : Run) (s : Repository)
    → s.ledger.runs run_id ≡ some r
    → (end_run run_id (end_status b) (end_reason b) now f s).0 ≡ ok tt
    → (fenced_run f (some r) ≡ true)
      × ((end_run run_id (end_status b) (end_reason b) now f s).1
          ≡ record s { ledger = put_run run_id (ended_run b now r) s.ledger })
unfolding end_run update_run
end_run_ok run_id b now f r s row h = ground arith

interrupt_running-IsInterrupted :
    (run_id : Ident) (b : Bool) (now : ℕ) (f : Option Fence) (r : Run) (s : Repository)
    → s.ledger.runs run_id ≡ some r
    → (interrupt_running run_id (end_status b) (end_reason b) now f s).0 ≡ ok tt
    → IsInterrupted run_id b now r s
        (interrupt_running run_id (end_status b) (end_reason b) now f s).1
unfolding interrupt_running
interrupt_running-IsInterrupted run_id b now f r s row h =
    let test : Task → Bool = λ x. is_open run_id x && fenced_run f (s.ledger.runs run_id) in
    let change = end_task s.ledger (end_status b) (end_reason b) now in
    let mid : Repository = record s {
      ledger = record s.ledger { tasks = update_rows test change s.ledger.tasks };
    } in
    let (u, updated, through) =
      bind_inv (update_tasks test change) (λ _. end_run run_id (end_status b) (end_reason b) now f)
        s tt h in
    let through' : interrupt_running run_id (end_status b) (end_reason b) now f s
        ≡ end_run run_id (end_status b) (end_reason b) now f mid =
      through
      ∙ ap (end_run run_id (end_status b) (end_reason b) now f)
          (update_tasks_ok test change s u updated) in
    let (held, last) = end_run_ok run_id b now f r mid row (sym (ap (λ p. p.0) through') ∙ h) in
    let rows =
      update_rows-same test (is_open run_id) change s.ledger.tasks
        (λ x. rw row (rw held (and_true_right _))) in
    rw (ap (λ p. p.1) through', last)
      (record {
        ended = put_run-same run_id (ended_run b now r) mid.ledger;
        others = λ j d. rw d refl;
        tasks = rows;
        none_unended =
            rw rows (update_rows-ended run_id s.ledger b (end_reason b) now s.ledger.tasks);
        observations = refl;
      })

committed :
    (m : Action (Unit {0})) (s : Repository)
    → (transaction m s).0 ≡ ok tt
    → ((m s).0 ≡ ok tt) × ((transaction m s).1 ≡ (m s).1)
unfolding transaction
committed m s h = ground arith

interrupt_row_running :
    (run_id : Ident) (status : Status) (reason : Reason) (now : ℕ) (f : Option Fence) (r : Run)
    (row : Option Run)
    → row ≡ some r
    → r.status ≡ running
    → interrupt_row run_id status reason now f row ≡ interrupt_running run_id status reason now f
unfolding interrupt_row
interrupt_row_running run_id status reason now f r row e h = rw (e, h) refl

-- A call of `interrupt_run` that returns on a running run has ended it: the run is cancelled or failed
-- as asked, with the reason as its one warning, the time, no lease, no open read, and sealed; each of
-- its queued and running tasks is ended alike, so that none of its tasks is left unended; the other
-- runs, their tasks and all observations are as they were.
pub interrupt_run-IsInterrupted :
    (run_id : Ident) (b : Bool) (now now₁ : ℕ) (r : Run) (s : Repository)
    → s.ledger.runs run_id ≡ some r
    → r.status ≡ running
    → (interrupt_run run_id b now now₁ s).0 ≡ ok tt
    → IsInterrupted run_id b now r s (interrupt_run run_id b now now₁ s).1
unfolding interrupt_run
interrupt_run-IsInterrupted run_id b now now₁ r s row open_run h =
    let (done, left) = committed _ s h in
    let act : Option Fence → Option Run → Action (Unit {0}) =
      interrupt_row run_id (end_status b) (end_reason b) now in
    let (f, passed, through) =
      bind_inv (assert_run_fence run_id now₁) (λ f. gets (λ s'. s'.ledger.runs run_id) >>= act f) s
        tt done in
    let last =
      ap (λ s'. act f (s'.ledger.runs run_id) s') (assert_run_fence_state run_id now₁ s)
      ∙ ap (λ m. m s)
          (interrupt_row_running run_id (end_status b) (end_reason b) now f r (s.ledger.runs run_id)
            row open_run) in
    rw (left, ap (λ p. p.1) (through ∙ last))
      (interrupt_running-IsInterrupted run_id b now f r s row
        (sym (ap (λ p. p.0) (through ∙ last)) ∙ done))
