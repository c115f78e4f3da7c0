-- ===== src/Ledger/Evidence.antt =====
-- What is known of a recorded observation and of a sealed run: `_validate_observation_provenance`,
-- `add_observation` and `create_task` (web_listening/blocks/agentic_orchestration.py).
use web_listening.Prelude.{
  ℕ, ◌+◌, ◌≡◌, refl, Option, none, some, arith, true, not, ◌&&◌, ◌||◌, List, [], ◌∷◌, and_true,
}
use web_listening.Ledger.Data.{
  Ident, Run, Task, Status, Reason, Hop, DiscoveryEvidence, completed, Repository, Texts, same,
  same_status, is_none,
}
use web_listening.Ledger.Discovery.{
  follow_redirects, provenance_valid, is_canonical, last_decision, decision_matches,
  rejected_target, decisionless, discovered, arrives, is_redirect, is_success,
}
use web_listening.Ledger.Store.{assert_run_fence_state}
use web_listening.Ledger.Fencing.{find_replay_state}
use web_listening.Ledger.Tasks.{Request, create_task, insert_if_new, read_task}

-- The hops lead from one URL to another: they are numbered on, each starts where the one before it
-- ended, and each is a redirect that was allowed by a decision.
abbrev pub IsTrail : Texts → ℕ → Ident → List Hop → Ident → Type 0
IsTrail t ordinal from [] to = from ≡ to
IsTrail t ordinal from (h ∷ hs) to =
    (h.ordinal ≡ ordinal)
    × (h.from_url ≡ from)
    × (h.allowed ≡ true)
    × (is_redirect h.http_status ≡ true)
    × (t.is_access_decision h.access_decision_id ≡ true)
    × (is_canonical t h.to_url ≡ true)
    × IsTrail t (ordinal + 1) h.to_url hs to

follow_redirects-IsTrail :
    (t : Texts) (ordinal : ℕ) (from : Ident) (hops : List Hop) (to : Ident)
    → follow_redirects t ordinal from hops ≡ some to
    → IsTrail t ordinal from hops to
unfolding follow_redirects
follow_redirects-IsTrail t ordinal from [] to h = ground arith
follow_redirects-IsTrail t ordinal from (x ∷ xs) to h =
    let through : follow_redirects t (ordinal + 1) x.to_url xs ≡ some to = ground arith in
    (
      ground arith,
      ground arith,
      ground arith,
      ground arith,
      ground arith,
      ground arith,
      follow_redirects-IsTrail t (ordinal + 1) x.to_url xs to through,
    )

-- The evidence of a reading: where it started, how it got to where it is, and, where it is complete,
-- that this is where it ended, by the last decision, with a success.
pub record IsTraced (t : Texts) (x : Task) (status : Status) (current final : Option Ident)
    (code : Option ℕ) (decision : Option Ident) (hops : List Hop) : Type 0 where
  pub requested : Ident
  pub at : Ident
  pub asked : x.requested_url ≡ some requested
  pub arrived : current ≡ some at
  pub trail : IsTrail t 0 requested hops at
  pub done :
      same_status status completed ≡ true
      → (final ≡ some at)
        × (is_success code ≡ true)
        × ((d : Ident) × (decision ≡ some d) × (last_decision d hops ≡ d))

completed_parts :
    (t : Texts) (status : Status) (reason : Reason) (at : Ident) (final : Option Ident)
    (code : Option ℕ) (decision : Option Ident) (hops : List Hop)
    → same_status status completed ≡ true
    → (not (same_status status completed)
        || not (is_none decision) && not (is_none final) && is_success code)
      ≡ true
    → decision_matches decision hops ≡ true
    → (is_none final || same final (some at) || rejected_target t status reason at final code)
      ≡ true
    → (final ≡ some at)
      × (is_success code ≡ true)
      × ((d : Ident) × (decision ≡ some d) × (last_decision d hops ≡ d))
completed_parts t status reason at final code none hops c complete last end = ground arith
completed_parts t status reason at none code (some d) hops c complete last end = ground arith
completed_parts t completed reason at (some f) code (some d) hops c complete last end =
    (ground arith, complete, (d, refl, ground arith))
completed_parts t status reason at (some f) code (some d) hops c complete last end =
    (ground arith, ground arith, (d, refl, ground arith))

-- What a valid provenance says of its parts.
valid_parts :
    (t : Texts) (x : Task) (status : Status) (reason : Reason) (at : Ident) (final : Option Ident)
    (code : Option ℕ) (decision : Option Ident) (hops : List Hop) (d : DiscoveryEvidence)
    → provenance_valid t x status reason (some at) final code decision hops d ≡ true
    → (arrives t at hops x.requested_url ≡ true)
      × (same_status status completed ≡ true
          → (final ≡ some at)
            × (is_success code ≡ true)
            × ((d : Ident) × (decision ≡ some d) × (last_decision d hops ≡ d)))
unfolding provenance_valid
valid_parts t x status reason at final code decision hops d h =
    let (sixth, _) = and_true _ (discovered x d) h in
    let (fifth, complete) =
      and_true _
        (not (same_status status completed)
          || not (is_none decision) && not (is_none final) && is_success code)
        sixth in
    let (fourth, _) =
      and_true _ (not (is_none decision) || decisionless t status reason at final code hops)
        fifth in
    let (third, last) = and_true _ (decision_matches decision hops) fourth in
    let (second, end) =
      and_true _
        (is_none final || same final (some at) || rejected_target t status reason at final code)
        third in
    let (_, chain) = and_true _ (arrives t at hops x.requested_url) second in
    (chain, λ c. completed_parts t status reason at final code decision hops c complete last end)

arrives-some :
    (t : Texts) (at : Ident) (hops : List Hop) (requested : Option Ident)
    → arrives t at hops requested ≡ true
    → (u : Ident) × (requested ≡ some u) × IsTrail t 0 u hops at
arrives-some t at hops none h = cc
arrives-some t at hops (some u) h = (u, refl, follow_redirects-IsTrail t 0 u hops at (ground arith))

-- A reading whose provenance is valid starts at the task's URL, and its chain leads from there to its
-- current URL by allowed redirects, each from where the one before it ended. Where it is completed,
-- the current URL is the final one, the answer is a success, and the reading has a decision, that of the
-- last hop where there is one.
pub provenance_valid-IsTraced :
    (t : Texts) (x : Task) (status : Status) (reason : Reason) (current final : Option Ident)
    (code : Option ℕ) (decision : Option Ident) (hops : List Hop) (d : DiscoveryEvidence)
    → provenance_valid t x status reason current final code decision hops d ≡ true
    → IsTraced t x status current final code decision hops
unfolding provenance_valid
provenance_valid-IsTraced t x status reason none final code decision hops d h = cc
provenance_valid-IsTraced t x status reason (some at) final code decision hops d h =
    let (arrived, done) = valid_parts t x status reason at final code decision hops d h in
    let (requested, asked, trail) = arrives-some t at hops x.requested_url arrived in
    record {
      requested = requested;
      at = at;
      asked = asked;
      arrived = refl;
      trail = trail;
      done = done;
    }

-- Once the required tasks of a run are sealed, a call that asks for a required task of it adds none: it
-- leaves everything as it was, whether it returns the task that is there or raises.
pub create_task-sealed :
    (t : Texts) (q : Request) (now now₁ : ℕ) (r : Run) (s : Repository)
    → s.ledger.runs q.run_id ≡ some r
    → r.required_sealed ≡ true
    → q.required ≡ true
    → (create_task t q now now₁ s).1 ≡ s
unfolding create_task insert_if_new read_task
create_task-sealed t q now now₁ r s row sealed required =
    grind (arith, find_replay_state, assert_run_fence_state)
