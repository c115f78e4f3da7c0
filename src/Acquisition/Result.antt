-- ===== src/Acquisition/Result.antt =====
-- From a capture to the result of a tool (web_listening/contracts/tool_result.py,
-- `tool_result_from_capture_attempt`; web_listening/blocks/acquisition_fallback.py).
use web_listening.Prelude.{
  ℕ, suc, Bool, true, false, not, ◌&&◌, ◌||◌, Option, none, some, List, [], ◌∷◌, Text, ℤ, pos, ◌==◌,
  if◌then◌else◌, take, or_else,
}
use web_listening.Acquisition.Data.{
  QualityGates, Metadata, CaptureStatus, capture_passed, capture_failed_quality_gate,
  capture_blocked, capture_error, StopReason, usable_data_found, insufficient_data, stop_blocked,
  stop_error, stop_not_found, stop_auth_required, stop_permission_denied, Message, stopped,
  capture_attempt_failed, reported, CaptureAttempt, DataStatus, present, failed_quality_gate,
  blocked, not_found, auth_required, permission_denied, error, ErrorCode, capture_failed,
  reported_code, ToolResultError, GatesInput, Payload, no_data, content, dumped, ToolResult,
}

-- A row of `_CAPTURE_STATUS_MAPPING`.
pub record StatusRow : Type 0 where
  pub ok : Bool
  pub has_data : Bool
  pub data_status : DataStatus
  pub stop_reason : StopReason

abbrev status_row : Bool → Bool → DataStatus → StopReason → StatusRow
status_row o h d r = record { ok = o; has_data = h; data_status = d; stop_reason = r }

unfoldable pub capture_status_mapping : CaptureStatus → StatusRow
capture_status_mapping capture_passed = status_row true true present usable_data_found
capture_status_mapping capture_failed_quality_gate =
    status_row true false failed_quality_gate insufficient_data
capture_status_mapping capture_blocked = status_row true false blocked stop_blocked
capture_status_mapping capture_error = status_row false false error stop_error

abbrev pub is_error : DataStatus → Bool
is_error error = true
is_error _ = false

abbrev pub is_blocked_status : DataStatus → Bool
is_blocked_status blocked = true
is_blocked_status _ = false

-- `[reason] if reason else []`
abbrev some_reason : List Message → List (List Message)
some_reason [] = []
some_reason (r ∷ rs) = (r ∷ rs) ∷ []

-- `reason or message`
abbrev pub reason_or : List Message → Message → List Message
reason_or [] m = m ∷ []
reason_or (r ∷ rs) m = r ∷ rs

abbrev pub capture_error_of : List Message → ToolResultError
capture_error_of reason = record {
  code = capture_failed;
  message = reason_or reason capture_attempt_failed;
  retryable = false;
  safe_to_escalate = false;
  exception_type = [];
}

unfoldable pub tool_result_from_capture_attempt :
    CaptureAttempt → Option GatesInput → QualityGates → Payload → ToolResult
tool_result_from_capture_attempt attempt requested effective payload =
    let row = capture_status_mapping attempt.status in
    record {
      ok = row.ok;
      has_data = row.has_data;
      data_status = row.data_status;
      data_count = if row.has_data then 1 else 0;
      tool = some attempt.adapter;
      data_quality = record {
        passed = row.has_data;
        status_code = attempt.status_code;
        words = attempt.words;
        links = attempt.links;
        document_links = attempt.document_links;
        is_blocked = is_blocked_status row.data_status;
        failure_reasons = some_reason attempt.failure_reason;
      };
      requested = requested;
      effective = effective;
      payload = payload;
      attempts = dumped attempt ∷ [];
      next_tool = attempt.recommended_next_adapter;
      next_action = attempt.recommended_next_adapter;
      warnings = [];
      error =
          if is_error row.data_status then some (capture_error_of attempt.failure_reason) else none;
      stop_reason = row.stop_reason;
      goal_preset = none;
    }

-- `preview[:limit]`, where the limit is positive
abbrev pub cut_preview : ℤ → Option Text → Option Text
cut_preview (pos (suc n)) (some preview) = some (take (suc n) preview)
cut_preview _ _ = none

abbrev pub preview : Metadata → Option Text
preview m = elim m.content_text_preview [ some p ↦ some p | none ↦ m.markdown_preview ]

unfoldable pub safe_attempt_data : CaptureAttempt → (inline_content_limit : ℤ) → Payload
safe_attempt_data attempt limit = elim attempt.status [
  | capture_passed ↦
      content (or_else attempt.final_url attempt.url) (cut_preview limit (preview attempt.metadata))
  | _ ↦ no_data
]

abbrev pub code_or : Option Text → ErrorCode
code_or none = capture_failed
code_or (some c) = reported_code c

abbrev pub message_or : Option Text → List Message → List Message
message_or none reason = reason_or reason capture_attempt_failed
message_or (some m) reason = reported m ∷ []

abbrev text_or_empty : Option Text → Text
text_or_empty none = []
text_or_empty (some t) = t

unfoldable pub structured_error_from_attempt : CaptureAttempt → Option ToolResultError
structured_error_from_attempt attempt = elim attempt.metadata.error [
  | none ↦ none
  | some payload ↦ some (record {
    code = code_or payload.code;
    message = message_or payload.message attempt.failure_reason;
    retryable = payload.retryable;
    safe_to_escalate = payload.safe_to_escalate;
    exception_type = text_or_empty payload.exception_type;
  })
]

abbrev with_error : Option ToolResultError → ToolResult → ToolResult
with_error none r = r
with_error (some e) r = record r { error = some e }

unfoldable pub result_from_attempt :
    CaptureAttempt → Option GatesInput → QualityGates → (inline_content_limit : ℤ) → ToolResult
result_from_attempt attempt requested effective limit =
    with_error (structured_error_from_attempt attempt) (
      tool_result_from_capture_attempt attempt requested effective
        (safe_attempt_data attempt limit))

abbrev reasons_or : List (List Message) → StopReason → List (List Message)
reasons_or [] r = (stopped r ∷ []) ∷ []
reasons_or (x ∷ xs) r = x ∷ xs

abbrev pub status_code_terminal_result : ToolResult → DataStatus → StopReason → ToolResult
status_code_terminal_result result status reason = record result {
  has_data = false;
  data_status = status;
  data_count = 0;
  payload = no_data;
  data_quality = record result.data_quality {
    passed = false;
    failure_reasons = reasons_or result.data_quality.failure_reasons reason;
  };
  stop_reason = reason;
  next_tool = none;
  next_action = none;
}

abbrev pub is_code : ℕ → Option ℕ → Bool
is_code c none = false
is_code c (some d) = d == c

unfoldable pub apply_status_code_terminal_mapping : ToolResult → CaptureAttempt → ToolResult
apply_status_code_terminal_mapping result attempt =
    let code = attempt.status_code in
    if is_code 404 code || is_code 410 code
    then status_code_terminal_result result not_found stop_not_found
    else if is_code 401 code
    then status_code_terminal_result result auth_required stop_auth_required
    else if is_code 403 code && not (is_blocked_status result.data_status)
    then status_code_terminal_result result permission_denied stop_permission_denied
    else result
