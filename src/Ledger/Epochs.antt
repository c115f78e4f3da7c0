-- ===== src/Ledger/Epochs.antt =====
-- How a call moves the epoch of a run and the fence that this process remembers of it
-- (web_listening/blocks/agentic_orchestration.py).
use web_listening.Prelude.{ℕ, ◌≤◌, ◌<◌, ◌≡◌, ◌⊎◌, Option, none, some, arith, Bool, true}
use web_listening.Ledger.Data.{Ident, Fence, Run, Limits, Claim, Repository, Texts}
use web_listening.Ledger.Guards.{runs_update_allowed}
use web_listening.Ledger.Store.{transaction, update_run, assert_run_fence}
use web_listening.Ledger.Lease.{acquire_run_lease, release_run_lease}
use web_listening.Ledger.TargetSend.{claim_target_send, release_target_send, renew_target_send}
use web_listening.Ledger.Runs.{insert_run, update_tasks}
use web_listening.Ledger.Tasks.{insert_task}
use web_listening.Ledger.Observations.{insert_observation}
use web_listening.Ledger.Rules.{Leaves, Preorder}
use web_listening.Ledger.Methods.{
  Parts, of_seal, of_reserve, of_begin, of_consume, of_finish_read, of_create, of_finalize,
  of_interrupt, of_add_task, of_transition, of_observe,
}
use web_listening.Ledger.Calls.{Call, perform}

-- The lease epoch of a run, 0 where there is none.
abbrev pub epoch_of : Option Run → ℕ
epoch_of none = 0
epoch_of (some r) = r.lease_epoch

-- A remembered fence is not ahead of the run, and its epoch is one that the worker won, or one above
-- the given mark.
abbrev pub IsRemembered : (winner : ℕ → ℕ) (worker mark epoch : ℕ) → Option Fence → Type 0
IsRemembered winner worker mark epoch none = Unit
IsRemembered winner worker mark epoch (some (o, e)) =
    (e ≤ epoch) × ((winner e ≡ worker) ⊎ (mark < e))

-- Epochs grow, and what the worker remembers stays its own.
pub record Advances (winner : Ident → ℕ → ℕ) (worker : ℕ) (s s' : Repository) : Type 0 where
  pub epochs : (k : Ident) → epoch_of (s.ledger.runs k) ≤ epoch_of (s'.ledger.runs k)
  pub fences :
      (k : Ident) (mark : ℕ)
      → mark ≤ epoch_of (s.ledger.runs k)
      → IsRemembered (winner k) worker mark (epoch_of (s.ledger.runs k)) (s.fences k)
      → IsRemembered (winner k) worker mark (epoch_of (s'.ledger.runs k)) (s'.fences k)

module _ (winner : Ident → ℕ → ℕ) (worker : ℕ) where
  abbrev advances : Preorder (Advances winner worker)
  advances = record {
    same_state = λ s. record { epochs = λ k. omega arith; fences = λ k mark b h. h };
    compose = λ s s' s'' f g. record {
      epochs = λ k. omega (arith, f.epochs k, g.epochs k);
      fences = λ k mark b h. g.fences k mark (omega (arith, b, f.epochs k)) (f.fences k mark b h);
    };
  }

  of_acquire :
      (t : Texts) (run_id owner : Ident) (ttl now : ℕ)
      → Leaves (Advances winner worker) (acquire_run_lease t run_id owner ttl now)
  unfolding acquire_run_lease update_run
  of_acquire t run_id owner ttl now = record {
    run = λ s. record { epochs = λ k. ground arith; fences = λ k mark b h. ground arith };
  }

  -- The trigger lets no epoch fall.
  allowed_epoch : (r r' : Run) → runs_update_allowed r r' ≡ true → r.lease_epoch ≤ r'.lease_epoch
  unfolding runs_update_allowed
  allowed_epoch r r' h = ground arith

  of_update :
      (run_id : Ident) (test : Run → Bool) (change : Run → Run)
      → Leaves (Advances winner worker) (update_run run_id test change)
  unfolding update_run
  of_update run_id test change = record {
    run = λ s. record {
      epochs = λ k. grind (arith, allowed_epoch);
      fences = λ k mark b h. grind (arith, allowed_epoch);
    };
  }

  of_release :
      (run_id owner : Ident) → Leaves (Advances winner worker) (release_run_lease run_id owner)
  unfolding release_run_lease update_run
  of_release run_id owner = record {
    run = λ s. record { epochs = λ k. ground arith; fences = λ k mark b h. ground arith };
  }

  of_claim :
      (t : Texts) (run_id : Ident) (max timeout now now₁ now₂ : ℕ)
      → Leaves (Advances winner worker) (claim_target_send t run_id max timeout now now₁ now₂)
  unfolding claim_target_send update_run assert_run_fence
  of_claim t run_id max timeout now now₁ now₂ = record {
    run = λ s. record { epochs = λ k. ground arith; fences = λ k mark b h. ground arith };
  }

  -- A claim may be released or renewed by the worker that won its epoch.
  module _ (c : Claim) (won : winner c.run_id c.epoch ≡ worker) where
    release_claim-Advances :
        (s : Repository)
        → c.epoch ≤ epoch_of (s.ledger.runs c.run_id)
        → Advances winner worker s (release_target_send c s).1
    unfolding release_target_send update_run
    release_claim-Advances s past = record {
      epochs = λ k. ground arith;
      fences = λ k mark b h. ground arith;
    }

    renew_claim-Advances :
        (timeout now now₁ : ℕ) (s : Repository)
        → Advances winner worker s (renew_target_send c timeout now now₁ s).1
    unfolding renew_target_send update_run
    renew_claim-Advances timeout now now₁ s = record {
      epochs = λ k. ground arith;
      fences = λ k mark b h. ground arith;
    }

  parts : Parts (Advances winner worker)
  unfolding update_tasks insert_run insert_task insert_observation transaction
  parts = record {
    of_update = of_update;
    of_tasks = λ test change. record {
      run = λ s. record { epochs = λ k. ground arith; fences = λ k mark b h. ground arith };
    };
    of_insert_run = λ run_id r. record {
      run = λ s. record { epochs = λ k. ground arith; fences = λ k mark b h. ground arith };
    };
    of_insert_task = λ fence x. record {
      run = λ s. record { epochs = λ k. ground arith; fences = λ k mark b h. ground arith };
    };
    of_insert_observation = λ fence o. record {
      run = λ s. record { epochs = λ k. ground arith; fences = λ k mark b h. ground arith };
    };
    of_transaction = λ m k h. record {
      run = λ s. record {
        epochs = λ j. ground (arith, (h.run s).epochs j);
        fences = λ j mark b w. ground (arith, (h.run s).fences j mark b w, (k.run s).fences);
      };
    };
  }

-- A claim that a call hands back was made under an epoch that the worker won.
abbrev pub Owns : (Ident → ℕ → ℕ) → ℕ → Repository → Call → Type 0
Owns winner worker s (Call.release_claim c) =
    (winner c.run_id c.epoch ≡ worker) × (c.epoch ≤ epoch_of (s.ledger.runs c.run_id))
Owns winner worker s (Call.renew_claim c timeout now now₁) = winner c.run_id c.epoch ≡ worker
Owns winner worker s _ = Unit

pub perform-Advances :
    (winner : Ident → ℕ → ℕ) (worker : ℕ) (t : Texts) (l : Limits) (c : Call) (s : Repository)
    → Owns winner worker s c
    → Advances winner worker s (perform t l c s)
unfolding perform
perform-Advances f w t l (Call.acquire run_id owner ttl now) s h =
    (of_acquire f w t run_id owner ttl now).run s
perform-Advances f w t l (Call.release run_id owner) s h = (of_release f w run_id owner).run s
perform-Advances f w t l (Call.seal run_id now) s h =
    (of_seal (advances f w) (parts f w) run_id now).run s
perform-Advances f w t l (Call.reserve run_id now) s h =
    (of_reserve (advances f w) (parts f w) run_id l now).run s
perform-Advances f w t l (Call.begin run_id now) s h =
    (of_begin (advances f w) (parts f w) run_id l now).run s
perform-Advances f w t l (Call.consume run_id now) s h =
    (of_consume (advances f w) (parts f w) run_id l.max_requests now).run s
perform-Advances f w t l (Call.finish run_id u now) s h =
    (of_finish_read (advances f w) (parts f w) run_id u l now).run s
perform-Advances f w t l (Call.claim run_id timeout now now₁ now₂) s h =
    (of_claim f w t run_id l.max_requests timeout now now₁ now₂).run s
perform-Advances f w t l (Call.release_claim c) s h = release_claim-Advances f w c h.0 s h.1
perform-Advances f w t l (Call.renew_claim c timeout now now₁) s h =
    renew_claim-Advances f w c h timeout now now₁ s
perform-Advances f w t l (Call.create run_id i o now) s h =
    (of_create (advances f w) (parts f w) t run_id i o now).run s
perform-Advances f w t l (Call.finalize run_id status ws now now₁) s h =
    (of_finalize (advances f w) (parts f w) t run_id status ws now now₁).run s
perform-Advances f w t l (Call.interrupt run_id b now now₁) s h =
    (of_interrupt (advances f w) (parts f w) run_id b now now₁).run s
perform-Advances f w t l (Call.add_task q now now₁) s h =
    (of_add_task (advances f w) (parts f w) t q now now₁).run s
perform-Advances f w t l (Call.transition id c now now₁) s h =
    (of_transition (advances f w) (parts f w) t id c now now₁).run s
perform-Advances f w t l (Call.observe x a now now₁ now₂) s h =
    (of_observe (advances f w) (parts f w) t x a now now₁ now₂).run s
