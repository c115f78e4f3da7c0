-- ===== src/Ledger/Lease.antt =====
-- The lease of a run: `acquire_run_lease`, `release_run_lease`, `seal_required_tasks`
-- (web_listening/blocks/agentic_orchestration.py).
use web_listening.Prelude.{
  ℕ, ◌+◌, ◌*◌, Bool, true, false, not, ◌&&◌, ◌||◌, Option, none, some, ◌==◌, leb, if◌then◌else◌,
}
use web_listening.Ledger.Data.{
  Ident, Fence, running, Run, Texts, run_not_found, run_lease_invalid, run_lease_conflict,
  run_transition_invalid, same, same_status, is_none,
}
use web_listening.Ledger.Store.{
  Action, pure, gets, raise_if, require, ◌>>=◌, ◌>>◌, update_run, set_fence, fenced, same_fence,
  assert_run_fence,
}

-- `lease_owner IS NULL OR lease_owner = ? OR lease_expires_at <= ?`
abbrev pub claimable : Ident → ℕ → Run → Bool
claimable owner now r =
    is_none r.lease_owner
    || same r.lease_owner (some owner)
    || elim r.lease_expires_at [ none ↦ false | some expires ↦ leb expires now ]

abbrev pub with_lease : Ident → ℕ → Run → Run
with_lease owner expires r = record r {
  lease_owner = some owner;
  lease_expires_at = some expires;
  lease_epoch = r.lease_epoch + 1;
}

abbrev pub without_lease : Run → Run
without_lease r = record r { lease_owner = none; lease_expires_at = none }

-- The fence that the row holds after the update.
abbrev pub take_fence : Ident → Ident → Bool → Action (Option ℕ)
take_fence run_id owner false = pure none
take_fence run_id owner true = do
  row ← gets (λ s. s.ledger.runs run_id)
  r ← require row run_not_found
  set_fence run_id (some (owner, r.lease_epoch))
  pure (some r.lease_epoch)

-- `expected[1] if expected is not None else -1`, as a test of `lease_epoch`
abbrev epoch_is : Option Fence → ℕ → Bool
epoch_is none epoch = false
epoch_is (some (_, e)) epoch = epoch == e

module _ (t : Texts) where
  -- `acquire_run_lease(run_id, owner=, ttl_seconds=)` when the clock is at `now`.
  unfoldable pub acquire_run_lease : Ident → Ident → ℕ → ℕ → Action (Option ℕ)
  acquire_run_lease run_id owner ttl_seconds now = do
    raise_if (not (t.is_identity owner) || not (leb 1 ttl_seconds && leb ttl_seconds 3600))
        run_lease_invalid
    let expires_at = now + ttl_seconds * 1000000
    changed ←
        update_run run_id (λ r. same_status r.status running && claimable owner now r)
          (with_lease owner expires_at)
    take_fence run_id owner changed

-- The part of `release_run_lease` for a run that is not over.
abbrev pub release_running : Ident → Ident → Run → Option Fence → Action (Unit {0})
release_running run_id owner r expected = do
  raise_if
      (not (is_none r.lease_owner || same r.lease_owner (some owner))
        || not (is_none r.lease_owner) && not (same_fence expected (some (owner, r.lease_epoch))))
      run_lease_conflict
  changed ←
      update_run run_id (λ r'. same r'.lease_owner (some owner) && epoch_is expected r'.lease_epoch)
        without_lease
  raise_if (not (is_none r.lease_owner) && not changed) run_lease_conflict

unfoldable pub release_run_lease : Ident → Ident → Action (Unit {0})
release_run_lease run_id owner = do
  row ← gets (λ s. s.ledger.runs run_id)
  r ← require row run_not_found
  expected ← gets (λ s. s.fences run_id)
  (if same_status r.status running then release_running run_id owner r expected else pure tt)
  set_fence run_id none

-- `seal_required_tasks`, up to the row that it reads back.
unfoldable pub seal_required_tasks : Ident → ℕ → Action (Unit {0})
seal_required_tasks run_id now = do
  fence ← assert_run_fence run_id now
  changed ←
      update_run run_id (λ r. same_status r.status running && fenced fence r)
        (λ r. record r { required_sealed = true })
  raise_if (not changed) run_transition_invalid
