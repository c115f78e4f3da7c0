-- ===== src/Ledger/Leasing.antt =====
-- What taking, lending and giving back a lease does to a run: `acquire_run_lease`,
-- `claim_target_send` and `release_target_send` (web_listening/blocks/agentic_orchestration.py).
use web_listening.Prelude.{
  ◌≢◌, inl, inr, Bool-cases, Option-cases, ap, sym, ℕ, ◌+◌, ◌*◌, ◌≤◌, ◌<◌, ◌≡◌, refl, ◌∙◌, ◌⊎◌,
  none, some, arith, true, false, ◌&&◌, if◌then◌else◌, ◌==◌,
}
use web_listening.Ledger.Data.{Ident, Run, Repository, Claim, Texts, ok, running, same_status}
use web_listening.Ledger.Guards.{runs_update_allowed, terminal_evidence_allowed}
use web_listening.Ledger.Store.{assert_run_fence, update_run, put_run}
use web_listening.Ledger.Lease.{acquire_run_lease, with_lease, claimable}
use web_listening.Ledger.TargetSend.{with_owner, claim_target_send, release_target_send}
use web_listening.Ledger.Steps.{same_identity_refl, put_run-same}

-- A call of `acquire_run_lease` that returns the epoch e found the run running and free to take: not
-- leased, leased to the same owner, or leased up to now at the latest. It is the epoch after the
-- run's, the row then differs by the owner, the expiry and the epoch alone, and until the expiry the
-- fence check lets this process through.
pub acquire_run_lease-fence :
    (t : Texts) (run_id owner : Ident) (ttl now now' e : ℕ) (s : Repository)
    → (acquire_run_lease t run_id owner ttl now s).0 ≡ ok (some e)
    → now' < now + ttl * 1000000
    → (r : Run) × (s.ledger.runs run_id ≡ some r)
      × (r.status ≡ running)
      × (claimable owner now r ≡ true)
      × (e ≡ r.lease_epoch + 1)
      × ((acquire_run_lease t run_id owner ttl now s).1.ledger.runs run_id
          ≡ some (with_lease owner (now + ttl * 1000000) r))
      × (assert_run_fence run_id now' (acquire_run_lease t run_id owner ttl now s).1
          ≡ (ok (some (owner, e)), (acquire_run_lease t run_id owner ttl now s).1))
unfolding acquire_run_lease update_run assert_run_fence
acquire_run_lease-fence t run_id owner ttl now now' e s h later = ground arith

acquire_run_lease_branches :
    (t : Texts) (run_id owner : Ident) (ttl now : ℕ) (r : Run) (s : Repository)
    → t.is_identity owner ≡ true
    → 1 ≤ ttl
    → ttl ≤ 3600
    → s.ledger.runs run_id ≡ some r
    → ((r.status ≡ running)
        × (claimable owner now r ≡ true)
        × ((acquire_run_lease t run_id owner ttl now s).0 ≡ ok (some (r.lease_epoch + 1))))
      ⊎ (((same_status r.status running && claimable owner now r) ≡ false)
          × (acquire_run_lease t run_id owner ttl now s ≡ (ok none, s)))
unfolding acquire_run_lease update_run runs_update_allowed terminal_evidence_allowed
acquire_run_lease_branches t run_id owner ttl now r s valid low high row =
    ground (arith, same_identity_refl r.identity)

-- Nobody else holds the lease at `now`: there is none, or it is this owner's, or it has run out.
abbrev pub IsFree : Ident → ℕ → Run → Type 0
IsFree owner now r =
    (r.lease_owner ≡ none)
    ⊎ ((r.lease_owner ≡ some owner)
        ⊎ ((expires : ℕ) × (r.lease_expires_at ≡ some expires) × (expires ≤ now)))

-- Another owner holds the lease, and it does not expire by `now`.
abbrev pub IsHeld : Ident → ℕ → Run → Type 0
IsHeld owner now r =
    (other : Ident) × (r.lease_owner ≡ some other)
    × (other ≢ owner)
    × ((expires : ℕ) → r.lease_expires_at ≡ some expires → now < expires)

claimable-IsFree :
    (owner : Ident) (now : ℕ) (r : Run) → claimable owner now r ≡ true → IsFree owner now r
claimable-IsFree owner now r h = elim (Option-cases r.lease_owner) [
  | inl nobody ↦ inl nobody
  | inr (other, held) ↦ elim (Bool-cases (other == owner)) [
    | inl own ↦ inr (inl (ground (arith, held, own)))
    | inr foreign ↦ elim (Option-cases r.lease_expires_at) [
      | inl never' ↦ absurd (ground (arith, held, foreign, never'))
      | inr (expires, at) ↦ inr (inr (expires, at, ground (arith, held, foreign, at)))
    ]
  ]
]

claimable-IsHeld :
    (owner : Ident) (now : ℕ) (r : Run) → claimable owner now r ≡ false → IsHeld owner now r
claimable-IsHeld owner now r h = elim (Option-cases r.lease_owner) [
  | inl nobody ↦ absurd (ground (arith, nobody))
  | inr (other, held) ↦ (
    other,
    held,
    (λ same. absurd (ground (arith, held, same))),
    λ expires at. ground (arith, held, at),
  )
]

-- With an owner that is an identity, and 1 to 3600 seconds, on a run that there is: the call returns
-- the next epoch where the run is running and has no lease, or one of the same owner, or one that has
-- run out by now; and else none, with the state as it was, where the run is not running, or another
-- owner holds a lease that does not expire by now.
pub acquire_run_lease-claimable :
    (t : Texts) (run_id owner : Ident) (ttl now : ℕ) (r : Run) (s : Repository)
    → t.is_identity owner ≡ true
    → 1 ≤ ttl
    → ttl ≤ 3600
    → s.ledger.runs run_id ≡ some r
    → ((r.status ≡ running)
        × IsFree owner now r
        × ((acquire_run_lease t run_id owner ttl now s).0 ≡ ok (some (r.lease_epoch + 1))))
      ⊎ (((r.status ≢ running) ⊎ IsHeld owner now r)
          × (acquire_run_lease t run_id owner ttl now s ≡ (ok none, s)))
acquire_run_lease-claimable t run_id owner ttl now r s valid low high row =
    elim (acquire_run_lease_branches t run_id owner ttl now r s valid low high row) [
      | inl (open_run, free, taken) ↦ inl (open_run, claimable-IsFree owner now r free, taken)
      | inr (closed, same) ↦ inr (
        elim (Bool-cases (same_status r.status running)) [
          | inl open_run ↦ inr (claimable-IsHeld owner now r (ground arith))
          | inr over ↦ inl (λ open_run. absurd (ground arith))
        ],
        same,
      )
    ]

-- What a claim that is granted has found and done.
record IsClaimed (t : Texts) (run_id : Ident) (max_requests timeout now now₁ now₂ : ℕ) (c : Claim)
    (r : Run) (s : Repository) : Type 0 where
  of_run : c.run_id ≡ run_id
  epoch : c.epoch ≡ r.lease_epoch
  open_run : r.status ≡ running
  held : r.lease_owner ≡ some c.owner
  remembered : s.fences run_id ≡ some (c.owner, c.epoch)
  room : r.requests_used < max_requests
  expiry : now₁ + timeout ≤ c.lease_expires_at
  after : (claim_target_send t run_id max_requests timeout now now₁ now₂ s).1 ≡ record {
    ledger =
        put_run run_id
          (with_owner c.claim_owner c.lease_expires_at
            (record r { requests_used = r.requests_used + 1 }))
          s.ledger;
    fences = λ k. if k == run_id then some (c.claim_owner, c.epoch) else s.fences k;
  }

claim_target_send-IsClaimed :
    (t : Texts) (run_id : Ident) (max_requests timeout now now₁ now₂ : ℕ) (c : Claim) (r : Run)
    (s : Repository)
    → s.ledger.runs run_id ≡ some r
    → (claim_target_send t run_id max_requests timeout now now₁ now₂ s).0 ≡ ok c
    → IsClaimed t run_id max_requests timeout now now₁ now₂ c r s
unfolding claim_target_send assert_run_fence update_run
claim_target_send-IsClaimed t run_id max_requests timeout now now₁ now₂ c r s row granted =
    ground arith

-- The send claim's row is given back.
release_target_send-some :
    (c : Claim) (r : Run) (s : Repository)
    → s.ledger.runs c.run_id ≡ some r
    → r.status ≡ running
    → r.lease_owner ≡ some c.claim_owner
    → r.lease_expires_at ≡ some c.lease_expires_at
    → r.lease_epoch ≡ c.epoch
    → ((release_target_send c s).0 ≡ ok tt)
      × ((release_target_send c s).1.ledger.runs c.run_id
          ≡ some (with_owner c.owner c.lease_expires_at r))
      × ((release_target_send c s).1.fences c.run_id ≡ some (c.owner, c.epoch))
unfolding release_target_send update_run runs_update_allowed terminal_evidence_allowed
release_target_send-some c r s row open_run held expiry epoch =
    ground (arith, same_identity_refl r.identity)

-- Giving back a claim that was granted returns. The run then differs from the one before the claim by
-- one request, which the limit had room for, and by the expiry, which is the claim's and leaves time
-- for the request; and this process again remembers of the run what it did before the claim.
pub release_target_send-claim_target_send :
    (t : Texts) (run_id : Ident) (max_requests timeout now now₁ now₂ : ℕ) (c : Claim) (r : Run)
    (s : Repository)
    → s.ledger.runs run_id ≡ some r
    → (claim_target_send t run_id max_requests timeout now now₁ now₂ s).0 ≡ ok c
    → (r.requests_used < max_requests)
      × (now₁ + timeout ≤ c.lease_expires_at)
      × ((release_target_send c
            (claim_target_send t run_id max_requests timeout now now₁ now₂ s).1).0
          ≡ ok tt)
      × ((release_target_send c
              (claim_target_send t run_id max_requests timeout now now₁ now₂ s).1).1.ledger.runs
            run_id
          ≡ some (record r {
            requests_used = r.requests_used + 1;
            lease_expires_at = some c.lease_expires_at;
          }))
      × ((release_target_send c
              (claim_target_send t run_id max_requests timeout now now₁ now₂ s).1).1.fences
            run_id
          ≡ s.fences run_id)
release_target_send-claim_target_send t run_id max_requests timeout now now₁ now₂ c r s row
      granted =
    let h =
      claim_target_send-IsClaimed t run_id max_requests timeout now now₁ now₂ c r s row granted in
    let claimed =
      with_owner c.claim_owner c.lease_expires_at
        (record r { requests_used = r.requests_used + 1 }) in
    let back =
      release_target_send-some c claimed
        (claim_target_send t run_id max_requests timeout now now₁ now₂ s).1
        (rw (h.after, h.of_run) (put_run-same run_id claimed s.ledger)) h.open_run refl refl
        (sym h.epoch) in
    (
      h.room,
      h.expiry,
      back.0,
      ap
            (λ k.
              (release_target_send c
                  (claim_target_send t run_id max_requests timeout now now₁ now₂ s).1).1.ledger.runs
                k)
            (sym h.of_run)
          ∙ back.1
          ∙ ap
              (λ o. some (record r {
                requests_used = r.requests_used + 1;
                lease_owner = o;
                lease_expires_at = some c.lease_expires_at;
              }))
              (sym h.held),
      ap
            (λ k.
              (release_target_send c
                  (claim_target_send t run_id max_requests timeout now now₁ now₂ s).1).1.fences
                k)
            (sym h.of_run)
          ∙ back.2
          ∙ sym h.remembered,
    )
