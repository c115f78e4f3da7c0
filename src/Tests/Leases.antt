-- ===== src/Tests/Leases.antt =====
-- Leases, fences and budgets on small tables
-- (web_listening/blocks/agentic_orchestration.py).
use web_listening.Prelude.{◌≢◌, ℕ, ◌+◌, ◌<◌, ◌≤◌, ◌≡◌, ◌⊎◌, refl, arith, true, none, some, []}
use web_listening.Ledger.Data.{Run, ok, running, same_identity}
use web_listening.Ledger.Guards.{runs_update_allowed, terminal_evidence_allowed}
use web_listening.Ledger.Store.{assert_run_fence, update_run}
use web_listening.Ledger.Lease.{release_run_lease, acquire_run_lease, with_lease, claimable}
use web_listening.Ledger.Budget.{reserve_read_budget, finish_read_budget}
use web_listening.Ledger.TargetSend.{claim_target_send, release_target_send}
use web_listening.Ledger.Calls.{Call, perform}
use web_listening.Ledger.Workers.{repository, Reach, here, call, assert_run_fence-exclusive}
use web_listening.Ledger.Epochs.{epoch_of}
use web_listening.Ledger.History.{Evolves}
use web_listening.Ledger.Bounds.{AreWithin}
use web_listening.Ledger.Interleaving.{Reach-Evolves, Reach-AreWithin}
use web_listening.Ledger.Fencing.{perform-fenced}
use web_listening.Ledger.Settling.{finish_read_budget-reserve_read_budget}
use web_listening.Ledger.Leasing.{
  acquire_run_lease-fence, acquire_run_lease-claimable, IsFree, IsHeld,
  release_target_send-claim_target_send,
}
use web_listening.Ledger.Repeating.{release_run_lease-free}
use web_listening.Tests.Tables.{
  texts, limits, one_run, alone, fresh_run, usage, start, taken_over, leased_run, holder,
  reading_run, reading, claimed,
}

taken_over-Reach : Reach texts limits start taken_over
taken_over-Reach = call 1 (Call.acquire 1 8 60 60000000) (call 0 (Call.acquire 1 7 60 0) here tt) tt

assert_run_fence-exclusive_example :
    ◌≡◌ {A = ℕ} 1 1 × ◌≡◌ {A = ℕ} 2 2 × (epoch_of (taken_over.ledger.runs 1) ≡ 2)
unfolding perform acquire_run_lease update_run runs_update_allowed terminal_evidence_allowed
    same_identity assert_run_fence
assert_run_fence-exclusive_example =
    assert_run_fence-exclusive texts limits start taken_over 1 1 1 60000001 60000001 8 2 8 2
      (λ w k. refl) taken_over-Reach refl refl

Reach-Evolves_example : Evolves (repository start 0) (repository taken_over 0)
Reach-Evolves_example = Reach-Evolves texts limits start taken_over 0 taken_over-Reach

Reach-AreWithin_example : AreWithin limits (taken_over.ledger.runs 1)
Reach-AreWithin_example = Reach-AreWithin texts limits start taken_over 1 taken_over-Reach (record {
  requests = omega arith;
  bytes = omega arith;
  pages = omega arith;
  files = omega arith;
  reads = omega arith;
})

perform-fenced_example :
    perform texts limits (Call.reserve 1 5) (alone (one_run leased_run []))
    ≡ alone (one_run leased_run [])
perform-fenced_example =
    perform-fenced texts limits (Call.reserve 1 5) (alone (one_run leased_run [])) 1 refl
      (record { run = leased_run; owner = 7; row = refl; leased = refl; lacks = refl })

finish_read_budget-reserve_read_budget_example :
    ((finish_read_budget 1 usage limits 6 (reserve_read_budget 1 limits 5 (holder [])).1).0 ≡ ok tt)
    × ((finish_read_budget 1 usage limits 6
            (reserve_read_budget 1 limits 5 (holder [])).1).1.ledger.runs
          1
        ≡ some (record leased_run {
          requests_used = 1;
          bytes_used = 300;
          pages_used = 1;
          files_used = 0;
        }))
unfolding reserve_read_budget assert_run_fence update_run runs_update_allowed
    terminal_evidence_allowed same_identity
finish_read_budget-reserve_read_budget_example =
    finish_read_budget-reserve_read_budget 1 limits usage 5 6 1000 leased_run (holder []) refl refl
      refl (omega arith) (omega arith) (omega arith) (omega arith)

release_target_send-claim_target_send_example :
    (reading_run.requests_used < 10)
    × (5 + 30 ≤ claimed.lease_expires_at)
    × ((release_target_send claimed (claim_target_send texts 1 10 30 5 5 5 reading).1).0 ≡ ok tt)
    × ((release_target_send claimed (claim_target_send texts 1 10 30 5 5 5 reading).1).1.ledger.runs
          1
        ≡ some (record reading_run { requests_used = 2; lease_expires_at = some 60000000 }))
    × ((release_target_send claimed (claim_target_send texts 1 10 30 5 5 5 reading).1).1.fences 1
        ≡ reading.fences 1)
unfolding claim_target_send assert_run_fence update_run runs_update_allowed
    terminal_evidence_allowed same_identity
release_target_send-claim_target_send_example =
    release_target_send-claim_target_send texts 1 10 30 5 5 5 claimed reading_run reading refl refl

acquire_run_lease-fence_example :
    (r : Run) × ((one_run fresh_run []).runs 1 ≡ some r)
    × (r.status ≡ running)
    × (claimable 7 0 r ≡ true)
    × (1 ≡ r.lease_epoch + 1)
    × ((acquire_run_lease texts 1 7 60 0 (alone (one_run fresh_run []))).1.ledger.runs 1
        ≡ some (with_lease 7 60000000 r))
    × (assert_run_fence 1 59999999
          (acquire_run_lease texts 1 7 60 0 (alone (one_run fresh_run []))).1
        ≡ (ok (some (7, 1)), (acquire_run_lease texts 1 7 60 0 (alone (one_run fresh_run []))).1))
unfolding acquire_run_lease update_run runs_update_allowed terminal_evidence_allowed same_identity
acquire_run_lease-fence_example =
    acquire_run_lease-fence texts 1 7 60 0 59999999 1 (alone (one_run fresh_run [])) refl
      (omega arith)

-- Another owner before the lease has run out.
acquire_run_lease-claimable_example :
    ((leased_run.status ≡ running)
      × IsFree 8 5 leased_run
      × ((acquire_run_lease texts 1 8 60 5 (holder [])).0 ≡ ok (some 2)))
    ⊎ (((leased_run.status ≢ running) ⊎ IsHeld 8 5 leased_run)
        × (acquire_run_lease texts 1 8 60 5 (holder []) ≡ (ok none, holder [])))
acquire_run_lease-claimable_example =
    acquire_run_lease-claimable texts 1 8 60 5 leased_run (holder []) refl (omega arith)
      (omega arith) refl

release_run_lease-free_example :
    (◌≡◌ {A = ℕ} 7 7)
    × ((holder []).fences 1 ≡ some (7, leased_run.lease_epoch))
    × ((release_run_lease 1 7 (holder [])).1.ledger.runs 1
        ≡ some (record leased_run { lease_owner = none; lease_expires_at = none }))
    × ((release_run_lease 1 7 (holder [])).1.fences 1 ≡ none)
unfolding release_run_lease update_run runs_update_allowed terminal_evidence_allowed same_identity
release_run_lease-free_example =
    release_run_lease-free 1 7 7 leased_run (holder []) refl refl refl refl
