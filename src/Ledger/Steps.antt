-- ===== src/Ledger/Steps.antt =====
-- One step of a method that returns, for proofs that a whole method returns
-- (web_listening/blocks/agentic_orchestration.py).
use web_listening.Prelude.{ap, ℕ, ◌≡◌, refl, Option, some, arith, Bool, true}
use web_listening.Ledger.Data.{
  Ident, Fence, Run, Ledger, Repository, Result, ok, err, running, same_identity, Identity,
}
use web_listening.Ledger.Guards.{runs_update_allowed, terminal_evidence_allowed}
use web_listening.Ledger.Store.{Action, ◌>>=◌, assert_run_fence, update_run, put_run}

-- A step that returns, and what follows it.
pub bind_ok :
    {A B : Type 0} (m : Action A) (f : A → Action B) (s : Repository) (a : A) (s' : Repository)
    → m s ≡ (ok a, s')
    → (m >>= f) s ≡ f a s'
bind_ok m f s a s' h = ap (λ p. ((λ _. p) >>= f) s) h

pub same_identity_refl : (i : Identity) → same_identity i i ≡ true
unfolding same_identity
same_identity_refl i = ground arith

pub put_run-same :
    (run_id : Ident) (r : Run) (l : Ledger) → (put_run run_id r l).runs run_id ≡ some r
put_run-same run_id r l = ground arith

pub assert_run_fence_passed :
    (run_id : Ident) (now : ℕ) (fence : Option Fence) (s : Repository)
    → (assert_run_fence run_id now s).0 ≡ ok fence
    → assert_run_fence run_id now s ≡ (ok fence, s)
unfolding assert_run_fence
assert_run_fence_passed run_id now fence s h = ground arith

pub update_run_done :
    (run_id : Ident) (test : Run → Bool) (change : Run → Run) (r : Run) (s : Repository)
    → s.ledger.runs run_id ≡ some r
    → test r ≡ true
    → runs_update_allowed r (change r) ≡ true
    → terminal_evidence_allowed s.ledger r (change r) ≡ true
    → update_run run_id test change s
      ≡ (ok true, record s { ledger = put_run run_id (change r) s.ledger })
unfolding update_run
update_run_done run_id test change r s row tested allowed evidence = ground arith

pub running-evidence :
    (l : Ledger) (r r' : Run) → r'.status ≡ running → terminal_evidence_allowed l r r' ≡ true
unfolding terminal_evidence_allowed
running-evidence l r r' h = ground arith

bind_inv_run :
    {A B : Type 0} (f : A → Action B) (r : Result A × Repository) (s : Repository) (b : B)
    → (((λ _. r) >>= f) s).0 ≡ ok b
    → (a : A) × (r.0 ≡ ok a) × (((λ _. r) >>= f) s ≡ f a r.1)
bind_inv_run f (ok a, s') s b h = (a, refl, refl)
bind_inv_run f (err e, s') s b h = cc

-- Where the whole returns, the first step did.
pub bind_inv :
    {A B : Type 0} (m : Action A) (f : A → Action B) (s : Repository) (b : B)
    → ((m >>= f) s).0 ≡ ok b
    → (a : A) × ((m s).0 ≡ ok a) × ((m >>= f) s ≡ f a (m s).1)
bind_inv m f s b h = bind_inv_run f (m s) s b h
