-- ===== src/Ledger/Rules.antt =====
-- Rules for what a method leaves alone: one for each way that the repository's methods are put
-- together (web_listening/blocks/agentic_orchestration.py).
use web_listening.Prelude.{ℕ, Option, none, some, Bool, true, false, if◌then◌else◌}
use web_listening.Ledger.Data.{Ident, Repository, Error, Result, ok, err}
use web_listening.Ledger.Store.{
  Action, pure, gets, raise, raise_if, require, ◌>>=◌, ◌>>◌, assert_run_fence,
  assert_run_fence_state,
}
use web_listening.Ledger.Runs.{from_result}

-- A relation between the states before and after that every method may repeat.
pub record Preorder (R : Repository → Repository → Type 0) : Type 0 where
  pub same_state : (s : Repository) → R s s
  pub compose : (s s' s'' : Repository) → R s s' → R s' s'' → R s s''

-- Whatever the state, the method's state before and after are related.
pub record Leaves {A : Type 0} (R : Repository → Repository → Type 0) (m : Action A) : Type 0 where
  pub run : (s : Repository) → R s (m s).1

module _ {R : Repository → Repository → Type 0} (p : Preorder R) where
  bind_run :
      {A B : Type 0} (f : A → Action B) (s : Repository) (r : Result A × Repository)
      → R s r.1
      → ((a : A) → Leaves R (f a))
      → R s (((λ _. r) >>= f) s).1
  bind_run f s (ok a, s') h k = p.compose s s' _ h ((k a).run s')
  bind_run f s (err e, s') h k = h

  pub bind :
      {A B : Type 0} {m : Action A} {f : A → Action B}
      → Leaves R m
      → ((a : A) → Leaves R (f a))
      → Leaves R (m >>= f)
  bind {m} {f} h k = record { run = λ s. bind_run f s (m s) (h.run s) k }

  pub and_then :
      {A B : Type 0} {m : Action A} {k : Action B} → Leaves R m → Leaves R k → Leaves R (m >> k)
  and_then h k = bind h (λ _. k)

  pub of_pure : {A : Type 0} {a : A} → Leaves R (pure a)
  of_pure = record { run = λ s. p.same_state s }

  pub of_raise : {A : Type 0} {e : Error} → Leaves R (raise {A = A} e)
  of_raise = record { run = λ s. p.same_state s }

  pub of_gets : {A : Type 0} {f : Repository → A} → Leaves R (gets f)
  of_gets = record { run = λ s. p.same_state s }

  pub of_raise_if : (c : Bool) (e : Error) → Leaves R (raise_if c e)
  of_raise_if c e = record { run = λ s. p.same_state s }

  pub of_require : {A : Type 0} (o : Option A) (e : Error) → Leaves R (require o e)
  of_require none e = of_raise
  of_require (some a) e = of_pure

  pub of_result : {A : Type 0} {r : Result A} → Leaves R (from_result r)
  of_result = record { run = λ s. p.same_state s }

  pub of_if :
      {A : Type 0} (c : Bool) {m k : Action A}
      → Leaves R m
      → Leaves R k
      → Leaves R (if c then m else k)
  of_if true h k = h
  of_if false h k = k

  pub of_fence : (run_id : Ident) (now : ℕ) → Leaves R (assert_run_fence run_id now)
  of_fence run_id now = record {
    run = λ s. rw (assert_run_fence_state run_id now s) (p.same_state s);
  }

-- The rules, for `search`; a method's own lemmas go beside them.
pub ruleset rules = (
  bind, and_then, of_pure, of_raise, of_gets, of_raise_if, of_require, of_result, of_if, of_fence,
)
