-- ===== src/Acquisition/Judging.antt =====
-- What a judged capture can be (web_listening/blocks/acquisition_fallback.py).
use web_listening.Prelude.{
  ◌≡◌, refl, arith, Bool, true, false, ◌||◌, some, or_else, Bool-cases, inl, inr,
}
use web_listening.Acquisition.Data.{CaptureAttempt, content, capture_passed, present, FetchResult}
use web_listening.Acquisition.Capture.{
  Captured, Adapter, judge_capture, evaluate_fetch_result, add_previews, fetched, failed,
}
use web_listening.Acquisition.Result.{
  capture_status_mapping, tool_result_from_capture_attempt, result_from_attempt,
  structured_error_from_attempt, apply_status_code_terminal_mapping, is_code, safe_attempt_data,
  cut_preview, preview,
}
use web_listening.Acquisition.Records.{should_continue}
use web_listening.Acquisition.Safety.{
  UrlCheck, unparsable, url_accepted, url_rejected, is_unparsable, final_url_safety_warning,
}
use web_listening.Acquisition.Resolve.{invalid_url}
use web_listening.Acquisition.Engine.{
  Engine, Progress, judge, deny_final_url, settle, settled, proceed, leave, refuse, final_check,
  with_attempt_history,
}
use web_listening.Acquisition.Turns.{answer, attempt_of}

-- A status code that ends an acquisition without data.
abbrev pub is_refusal : CaptureAttempt → Bool
is_refusal c =
    is_code 404 c.status_code
    || is_code 410 c.status_code
    || is_code 401 c.status_code
    || is_code 403 c.status_code

module _ {W : Type 0} (x : Engine W) where
  pub record IsUsable (c : CaptureAttempt) : Type 0 where
    pub passed : c.status ≡ capture_passed
    pub reachable : is_refusal c ≡ false
    pub stayed :
        final_url_safety_warning x.externals c.final_url x.profile.safety.allowed_domains
        ≡ url_accepted
    pub decided : should_continue (judge x c) ≡ false
    pub shown : (judge x c).data_status ≡ present
    pub named : (judge x c).tool ≡ some c.adapter
    pub contents :
        (judge x c).payload
        ≡ content
            (or_else c.final_url c.url)
            (cut_preview x.inline_content_limit (preview c.metadata))

  pub judge-IsUsable :
      (c : CaptureAttempt)
      → is_unparsable (final_check x c) ≡ false
      → (judge x c).has_data ≡ true
      → IsUsable c
  unfolding judge result_from_attempt tool_result_from_capture_attempt capture_status_mapping
      apply_status_code_terminal_mapping deny_final_url should_continue
      structured_error_from_attempt safe_attempt_data
  judge-IsUsable c readable h = record {
    passed = ground arith;
    reachable = ground arith;
    stayed = ground arith;
    decided = ground arith;
    shown = ground arith;
    named = ground arith;
    contents = ground arith;
  }

  response_of :
      (ad : Adapter W) (captured : Captured)
      → (judge_capture x.externals ad.adapter_id x.url x.profile captured).status ≡ capture_passed
      → (r : FetchResult) × (captured ≡ fetched r)
  response_of ad (fetched r) h = (r, refl)
  response_of ad (failed t) h = cc

  -- Only a fetched response passes.
  pub attempt_of-fetched :
      (ad : Adapter W) (st : Progress) (w : W)
      → (attempt_of x ad st w).status ≡ capture_passed
      → (r : FetchResult) × ((answer x ad w).0 ≡ fetched r)
  attempt_of-fetched ad st w h = response_of ad (answer x ad w).0 h

  -- What is kept of a response.
  pub attempt_of-metadata :
      (ad : Adapter W) (st : Progress) (w : W) (r : FetchResult)
      → (answer x ad w).0 ≡ fetched r
      → ((attempt_of x ad st w).metadata ≡ add_previews x.externals r)
        × ((attempt_of x ad st w).final_url ≡ r.final_url)
        × ((attempt_of x ad st w).url ≡ x.url)
  unfolding evaluate_fetch_result
  attempt_of-metadata ad st w r h = rw h (refl, refl, refl)

  pub attempt_of-adapter :
      (ad : Adapter W) (st : Progress) (w : W) → (attempt_of x ad st w).adapter ≡ ad.adapter_id
  unfolding evaluate_fetch_result
  attempt_of-adapter ad st w = ground arith

  -- How the loop settles a capture.
  pub data IsSettled (c : CaptureAttempt) (st : Progress) : Type 0 where
    misread : final_check x c ≡ unparsable → settle x c st ≡ refuse invalid_url → IsSettled c st
    goes_on :
        is_unparsable (final_check x c) ≡ false
        → should_continue (judge x c) ≡ true
        → settle x c st ≡ proceed (settled x c st)
        → IsSettled c st
    halts :
        is_unparsable (final_check x c) ≡ false
        → should_continue (judge x c) ≡ false
        → settle x c st ≡ leave (with_attempt_history (judge x c) (settled x c st).records)
        → IsSettled c st

  unparsable_of : (k : UrlCheck) → is_unparsable k ≡ true → k ≡ unparsable
  unparsable_of unparsable h = refl
  unparsable_of url_accepted h = cc
  unparsable_of (url_rejected m) h = cc

  pub settle-IsSettled : (c : CaptureAttempt) (st : Progress) → IsSettled c st
  unfolding settle
  settle-IsSettled c st = elim (Bool-cases (is_unparsable (final_check x c))) [
    | inl u ↦ misread (unparsable_of (final_check x c) u) (ground arith)
    | inr u ↦ elim (Bool-cases (should_continue (judge x c))) [
      | inl on ↦ goes_on u on (ground arith)
      | inr off ↦ halts u off (ground arith)
    ]
  ]
