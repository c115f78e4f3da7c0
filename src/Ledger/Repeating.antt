-- ===== src/Ledger/Repeating.antt =====
-- Making a run again and giving a lease back: `create_run` and `release_run_lease`
-- (web_listening/blocks/agentic_orchestration.py).
use web_listening.Prelude.{ℕ, ◌≡◌, none, some, arith}
use web_listening.Ledger.Data.{Ident, Identity, Run, running, Repository, Texts, ok}
use web_listening.Ledger.Store.{update_run}
use web_listening.Ledger.Lease.{release_run_lease}
use web_listening.Ledger.Runs.{create_run, check_replay, insert_run}

-- A call of `create_run` for no replay that returns can be made again, at any time: it returns the same
-- run and leaves everything as the first call did.
pub create_run-create_run :
    (t : Texts) (run_id : Ident) (i : Identity) (now now' : ℕ) (r : Run) (s : Repository)
    → (create_run t run_id i none now s).0 ≡ ok r
    → create_run t run_id i none now' (create_run t run_id i none now s).1
      ≡ (ok r, (create_run t run_id i none now s).1)
unfolding create_run check_replay insert_run
create_run-create_run t run_id i now now' r s h = ground arith

-- A call of `release_run_lease` that returns on a leased running run was made by the owner of the lease,
-- who remembered it at the run's epoch. The run is then free, its other columns as before, and the
-- lease is forgotten.
pub release_run_lease-free :
    (run_id owner owner' : Ident) (r : Run) (s : Repository)
    → s.ledger.runs run_id ≡ some r
    → r.status ≡ running
    → r.lease_owner ≡ some owner'
    → (release_run_lease run_id owner s).0 ≡ ok tt
    → (owner' ≡ owner)
      × (s.fences run_id ≡ some (owner, r.lease_epoch))
      × ((release_run_lease run_id owner s).1.ledger.runs run_id
          ≡ some (record r { lease_owner = none; lease_expires_at = none }))
      × ((release_run_lease run_id owner s).1.fences run_id ≡ none)
unfolding release_run_lease update_run
release_run_lease-free run_id owner owner' r s row open_run held h = ground arith
