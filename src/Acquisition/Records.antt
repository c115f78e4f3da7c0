-- ===== src/Acquisition/Records.antt =====
-- The results that no capture stands behind, the records of attempts, and whether the engine goes on
-- (web_listening/blocks/acquisition_fallback.py).
use web_listening.Prelude.{
  zero, Bool, true, false, not, ◌&&◌, Option, none, some, List, [], ◌∷◌, Text, ℤ, pos,
  if◌then◌else◌, map,
}
use web_listening.Acquisition.Data.{
  AdapterId, QualityGates, StopReason, adapter_not_applicable, Message, DataStatus,
  failed_quality_gate, blocked, error, not_applicable, ToolResultError, DataQuality, GatesInput,
  SkipReason, Payload, no_data, skipped, AttemptRecord, Attempt, recorded, ToolResult, empty,
}

abbrev pub default_quality : DataQuality
default_quality = record {
  passed = false;
  status_code = none;
  words = pos 0;
  links = pos 0;
  document_links = pos 0;
  is_blocked = false;
  failure_reasons = [];
}

-- `_skipped_result`.
unfoldable pub skipped_result :
    Text → AdapterId → SkipReason → Option GatesInput → QualityGates → ToolResult
skipped_result url adapter reason requested effective = record {
  ok = true;
  has_data = false;
  data_status = not_applicable;
  data_count = 0;
  tool = some adapter;
  data_quality = default_quality;
  requested = requested;
  effective = effective;
  payload = skipped url reason;
  attempts = [];
  next_tool = none;
  next_action = none;
  warnings = [];
  error = none;
  stop_reason = adapter_not_applicable;
  goal_preset = none;
}

abbrev pub is_nothing {ℓ} : {A : Type ℓ} → Option A → Bool
is_nothing none = true
is_nothing (some a) = false

-- The engine's records, as entries of `attempts`.
abbrev pub entries : List AttemptRecord → List Attempt
entries = map recorded

-- `_terminal_result`.
unfoldable pub terminal_result :
    Option AdapterId
    → DataStatus
    → StopReason
    → List AttemptRecord
    → Option GatesInput
    → QualityGates
    → List Message
    → Option ToolResultError
    → ToolResult
terminal_result tool status reason records requested effective warnings e = record {
  ok = is_nothing e;
  has_data = false;
  data_status = status;
  data_count = 0;
  tool = tool;
  data_quality = default_quality;
  requested = requested;
  effective = effective;
  payload = no_data;
  attempts = entries records;
  next_tool = none;
  next_action = none;
  warnings = warnings;
  error = e;
  stop_reason = reason;
  goal_preset = none;
}

abbrev has_no_reasons : List (List Message) → Bool
has_no_reasons [] = true
has_no_reasons (x ∷ xs) = false

abbrev is_zero : ℤ → Bool
is_zero (pos zero) = true
is_zero _ = false

-- `data_quality == ToolResultDataQuality()`
abbrev is_default_quality : DataQuality → Bool
is_default_quality q =
    not q.passed
    && is_nothing q.status_code
    && is_zero q.words
    && is_zero q.links
    && is_zero q.document_links
    && not q.is_blocked
    && has_no_reasons q.failure_reasons

abbrev skip_reason_of : Payload → Option SkipReason
skip_reason_of (skipped url reason) = some reason
skip_reason_of _ = none

-- `_attempt_record`. A skipped adapter's record carries the reason.
unfoldable pub attempt_record : ToolResult → (is_skipped : Bool) → AttemptRecord
attempt_record r is_skipped = record {
  tool = r.tool;
  ok = r.ok;
  has_data = r.has_data;
  data_status = r.data_status;
  stop_reason = r.stop_reason;
  skip_reason = if is_skipped then skip_reason_of r.payload else none;
  data_quality = if is_default_quality r.data_quality then none else some r.data_quality;
  error = r.error;
  warnings = r.warnings;
}

abbrev is_skip : Payload → Bool
is_skip (skipped url reason) = true
is_skip _ = false

abbrev pub may_escalate : Option ToolResultError → Bool
may_escalate none = false
may_escalate (some e) = e.retryable && e.safe_to_escalate

unfoldable pub should_continue : ToolResult → Bool
should_continue r = elim r.data_status [
  | empty ↦ true
  | failed_quality_gate ↦ true
  | blocked ↦ true
  | not_applicable ↦ is_skip r.payload
  | error ↦ may_escalate r.error
  | _ ↦ false
]
