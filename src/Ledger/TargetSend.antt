-- ===== src/Ledger/TargetSend.antt =====
-- One request to the target at a time: `claim_target_send`, `release_target_send` and
-- `renew_target_send` (web_listening/blocks/agentic_orchestration.py). A timeout is in microseconds.
-- Where a method reads the clock more than once it has an argument for each reading.
use web_listening.Prelude.{
  ℕ, ◌+◌, Bool, not, ◌&&◌, ◌||◌, Option, none, some, ◌==◌, leb, ltb, max, if◌then◌else◌,
}
use web_listening.Ledger.Data.{
  Ident, Fence, running, Run, Claim, Texts, run_not_found, run_lease_lost, budget_limit_invalid,
  budget_requests_exhausted, same, same_status,
}
use web_listening.Ledger.Store.{
  Action, pure, gets, raise, raise_if, require, ◌>>=◌, ◌>>◌, update_run, set_fence, same_fence,
  assert_run_fence, unexpired,
}

-- `0 < timeout_seconds <= 3600`
abbrev pub is_timeout : ℕ → Bool
is_timeout timeout = ltb 0 timeout && leb timeout 3600000000

abbrev pub with_owner : Ident → ℕ → Run → Run
with_owner owner expires r = record r { lease_owner = some owner; lease_expires_at = some expires }

module _ (t : Texts) where
  abbrev pub claim_fenced : Ident → ℕ → ℕ → (now₁ now₂ : ℕ) → Option Fence → Action Claim
  claim_fenced run_id max_requests timeout now₁ now₂ none = raise run_lease_lost
  claim_fenced run_id max_requests timeout now₁ now₂ (some (owner, epoch)) = do
    row ← gets (λ s. s.ledger.runs run_id)
    r ← require row run_lease_lost
    raise_if (leb max_requests r.requests_used) budget_requests_exhausted
    prior_expiry ← require r.lease_expires_at run_lease_lost
    let claim_expiry = max prior_expiry (now₁ + timeout)
    let claim_owner = t.send_claim epoch owner
    changed ←
        update_run run_id
          (λ r'.
            same_status r'.status running
            && ltb 0 r'.active_reads
            && ltb r'.requests_used max_requests
            && same r'.lease_owner (some owner)
            && r'.lease_epoch == epoch
            && unexpired r'.lease_expires_at now₂)
          (λ r'. record r' {
            requests_used = r'.requests_used + 1;
            lease_owner = some claim_owner;
            lease_expires_at = some claim_expiry;
          })
    raise_if (not changed) run_lease_lost
    set_fence run_id (some (claim_owner, epoch))
    pure (record {
      run_id = run_id;
      owner = owner;
      claim_owner = claim_owner;
      epoch = epoch;
      lease_expires_at = claim_expiry;
    })

  unfoldable pub claim_target_send : Ident → ℕ → ℕ → (now now₁ now₂ : ℕ) → Action Claim
  claim_target_send run_id max_requests timeout now now₁ now₂ = do
    raise_if (ltb max_requests 1 || not (is_timeout timeout)) budget_limit_invalid
    fence ← assert_run_fence run_id now
    claim_fenced run_id max_requests timeout now₁ now₂ fence

-- `release_target_send` when the epoch is not a later one and the row is not yet the owner's.
abbrev pub release_claimed : Claim → Action (Unit {0})
release_claimed c = do
  changed ←
      update_run c.run_id
        (λ r.
          same_status r.status running
          && same r.lease_owner (some c.claim_owner)
          && r.lease_epoch == c.epoch)
        (with_owner c.owner c.lease_expires_at)
  raise_if (not changed) run_lease_lost
  set_fence c.run_id (some (c.owner, c.epoch))

abbrev already_released : Claim → Run → Bool
already_released c r =
    r.lease_epoch == c.epoch
    && same r.lease_owner (some c.owner)
    && same r.lease_expires_at (some c.lease_expires_at)

-- Another process holds a later lease: only the memory of the claim goes.
abbrev pub forget_claim : Claim → Action (Unit {0})
forget_claim c = do
  expected ← gets (λ s. s.fences c.run_id)
  if same_fence expected (some (c.claim_owner, c.epoch)) then set_fence c.run_id none else pure tt

unfoldable pub release_target_send : Claim → Action (Unit {0})
release_target_send c = do
  row ← gets (λ s. s.ledger.runs c.run_id)
  r ← require row run_not_found
  if already_released c r
      then set_fence c.run_id (some (c.owner, c.epoch))
      else if ltb c.epoch r.lease_epoch
      then forget_claim c
      else release_claimed c

unfoldable pub renew_target_send : Claim → ℕ → (now now₁ : ℕ) → Action Claim
renew_target_send c timeout now now₁ = do
  raise_if (not (is_timeout timeout)) run_lease_lost
  row ← gets (λ s. s.ledger.runs c.run_id)
  r ← require row run_lease_lost
  raise_if
      (not (same_status r.status running)
        || not (same r.lease_owner (some c.claim_owner))
        || not (r.lease_epoch == c.epoch)
        || not (unexpired r.lease_expires_at now))
      run_lease_lost
  expires ← require r.lease_expires_at run_lease_lost
  let renewed_expiry = max expires (now₁ + timeout)
  changed ←
      update_run c.run_id
        (λ r'.
          same_status r'.status running
          && ltb 0 r'.active_reads
          && same r'.lease_owner (some c.claim_owner)
          && r'.lease_epoch == c.epoch
          && unexpired r'.lease_expires_at now)
        (λ r'. record r' { lease_expires_at = some renewed_expiry })
  raise_if (not changed) run_lease_lost
  set_fence c.run_id (some (c.claim_owner, c.epoch))
  pure (record c { lease_expires_at = renewed_expiry })
