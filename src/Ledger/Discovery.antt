-- ===== src/Ledger/Discovery.antt =====
-- Where a task was discovered, and the evidence of one read: `_validate_task_discovery` and
-- `_validate_observation_provenance` (web_listening/blocks/agentic_orchestration.py). Each tells
-- whether it returns; else it raises `ValueError`.
use web_listening.Prelude.{
  ℕ, ◌+◌, Bool, true, false, not, ◌&&◌, ◌||◌, Option, none, some, List, [], ◌∷◌, ◌==◌, leb, ltb,
}
use web_listening.Ledger.Data.{
  Ident, Reason, gateway_origin, gateway_redirect, Status, completed, rejected, failed, Kind, read,
  Discovery, seed, found, Task, Hop, DiscoveryEvidence, Texts, same, same_status, same_kind,
  same_discovery, same_reason, is_none,
}

unfoldable pub task_discovery_valid :
    Kind → Discovery → (source artifact adapter version : Option Ident) → Bool
task_discovery_valid Kind.search found source artifact adapter version =
    is_none source && is_none artifact && is_none adapter && is_none version
task_discovery_valid Kind.search _ source artifact adapter version = false
task_discovery_valid read seed source artifact adapter version =
    is_none source && is_none artifact && is_none adapter && is_none version
task_discovery_valid read found source artifact adapter version =
    not (is_none source) && is_none artifact && not (is_none adapter) && not (is_none version)
task_discovery_valid read _ source artifact adapter version =
    not (is_none source) && not (is_none artifact) && not (is_none adapter) && not (is_none version)

abbrev pub is_redirect : ℕ → Bool
is_redirect c = c == 301 || c == 302 || c == 303 || c == 307 || c == 308

abbrev is_redirect? : Option ℕ → Bool
is_redirect? none = false
is_redirect? (some c) = is_redirect c

abbrev is_http_status : Option ℕ → Bool
is_http_status none = true
is_http_status (some c) = leb 100 c && leb c 599

abbrev pub is_success : Option ℕ → Bool
is_success none = false
is_success (some c) = leb 200 c && ltb c 300

abbrev pub last_decision : Ident → List Hop → Ident
last_decision d [] = d
last_decision d (h ∷ hs) = last_decision h.access_decision_id hs

-- The decision of the last hop is the given one, where there are both.
abbrev pub decision_matches : Option Ident → List Hop → Bool
decision_matches none hops = true
decision_matches (some d) hops = last_decision d hops == d

-- The reading's record of where the task was found is the task's own, and fits its kind.
unfoldable pub discovered : Task → DiscoveryEvidence → Bool
discovered task d =
    same_discovery d.kind task.discovery_kind
    && same task.discovered_from_url d.source_url
    && same task.parent_artifact_id d.parent_artifact_id
    && same task.discovery_adapter_id d.adapter_id
    && same task.discovery_adapter_version d.adapter_version
    && elim task.discovery_kind [
      | seed ↦
          is_none d.source_url
          && is_none d.parent_artifact_id
          && is_none d.adapter_id
          && is_none d.adapter_version
      | found ↦
          same_kind task.kind read
          && is_none task.parent_artifact_id
          && not (is_none task.discovered_from_url)
      | _ ↦
          same_kind task.kind read
          && not (is_none task.parent_artifact_id)
          && not (is_none task.discovered_from_url)
    ]

module _ (t : Texts) where
  abbrev pub is_canonical : Ident → Bool
  is_canonical url = same (t.canonical_url url) (some url)

  -- The loop over the chain: where it ends, or `none` where it raises.
  unfoldable pub follow_redirects : ℕ → Ident → List Hop → Option Ident
  follow_redirects ordinal endpoint [] = some endpoint
  follow_redirects ordinal endpoint (h ∷ hs) =
      let rest = follow_redirects (ordinal + 1) h.to_url hs in
      elim (h.ordinal == ordinal
        && h.from_url == endpoint
        && is_canonical h.from_url
        && is_canonical h.to_url
        && is_redirect h.http_status
        && t.is_access_decision h.access_decision_id
        && h.allowed) [ true ↦ rest | false ↦ none ]

  abbrev pub rejected_target : Status → Reason → Ident → Option Ident → Option ℕ → Bool
  rejected_target status reason current final status_code =
      not (is_none final)
      && not (same final (some current))
      && (same_status status failed || same_status status rejected)
      && is_redirect? status_code
      && (same_reason reason gateway_origin || same_reason reason gateway_redirect)

  abbrev pub decisionless : Status → Reason → Ident → Option Ident → Option ℕ → List Hop → Bool
  decisionless status reason current final status_code [] =
      (same_status status failed || same_status status rejected)
      && t.is_decisionless reason
      && same final (some current)
      && is_none status_code
  decisionless status reason current final status_code (_ ∷ _) = false

  -- The chain leads from the task's URL to the current one.
  abbrev pub arrives : Ident → List Hop → Option Ident → Bool
  arrives current chain none = false
  arrives current chain (some requested) = same (follow_redirects 0 requested chain) (some current)

  unfoldable pub provenance_valid :
      Task
      → Status
      → Reason
      → (current final : Option Ident) → Option ℕ
      → Option Ident
      → List Hop
      → DiscoveryEvidence
      → Bool
  provenance_valid task status reason none final status_code decision chain d = false
  provenance_valid task status reason (some current) final status_code decision chain d =
      is_canonical current
      && is_http_status status_code
      && arrives current chain task.requested_url
      && (is_none final
          || same final (some current)
          || rejected_target status reason current final status_code)
      && decision_matches decision chain
      && (not (is_none decision) || decisionless status reason current final status_code chain)
      && (not (same_status status completed)
          || not (is_none decision) && not (is_none final) && is_success status_code)
      && discovered task d
