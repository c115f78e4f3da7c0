-- ===== src/Acquisition/Engine.antt =====
-- The fallback engine (web_listening/blocks/acquisition_fallback.py,
-- `acquire_with_fallback_result`). What its captures read and change is a world that is passed from
-- one to the next.
use web_listening.Prelude.{
  ℕ, Bool, true, false, not, ◌&&◌, Option, none, some, List, [], ◌∷◌, ◌++◌, Text, ℤ, pos, ltbℤ,
  length, if◌then◌else◌,
}
use web_listening.Acquisition.Data.{
  AdapterId, cloakbrowser, Profile, unsafe_url, unsafe_escalation, unsafe_final_url,
  no_available_adapter, max_attempts_reached, Message, unauthorized_stealth, CaptureAttempt,
  permission_denied, not_applicable, ErrorCode, unsafe_url_code, unsafe_escalation_code,
  unsafe_final_url_code, ToolResultError, GatesInput, SkipReason, adapter_is_disabled,
  adapter_is_reserved, no_data, AttemptRecord, GoalPreset, ToolResult,
}
use web_listening.Acquisition.Profile.{permits_cloakbrowser, is_disabled, same_adapter}
use web_listening.Acquisition.Capture.{Externals, Adapter, run_capture_attempt}
use web_listening.Acquisition.Result.{result_from_attempt, apply_status_code_terminal_mapping}
use web_listening.Acquisition.Records.{
  entries, terminal_result, skipped_result, attempt_record, should_continue,
}
use web_listening.Acquisition.Safety.{
  UrlCheck, unparsable, url_accepted, url_rejected, is_unparsable, input_url_safety_error,
  final_url_safety_warning,
}
use web_listening.Acquisition.Resolve.{
  Request, Failure, invalid_url, capture_not_permitted, refused, resolved, resolve_profile,
  adapter_chain, cut_chain,
}

-- What does not change while the chain runs.
pub record Engine (W : Type 0) : Type 0 where
  pub externals : Externals
  pub url : Text
  pub profile : Profile
  pub adapters : AdapterId → Option (Adapter W)
  pub requested : Option GatesInput
  pub inline_content_limit : ℤ

-- `capture_attempts`, `attempt_records` and `last_result`.
pub record Progress : Type 0 where
  pub captures : List CaptureAttempt
  pub records : List AttemptRecord
  pub last : Option ToolResult

-- How one turn of the loop ends: the next adapter is tried, or a result is returned, or
-- `run_capture_attempt` or the check of the final URL raises.
pub data Turn : Type 0 where
  proceed : Progress → Turn
  leave : ToolResult → Turn
  refuse : Failure → Turn

abbrev pub plain_error : ErrorCode → Message → ToolResultError
plain_error code message = record {
  code = code;
  message = message ∷ [];
  retryable = false;
  safe_to_escalate = false;
  exception_type = [];
}

unfoldable pub deny_final_url : ToolResult → Message → ToolResult
deny_final_url result warning = record result {
  ok = false;
  has_data = false;
  data_status = permission_denied;
  data_count = 0;
  payload = no_data;
  data_quality = record result.data_quality {
    passed = false;
    failure_reasons = result.data_quality.failure_reasons ++ ((warning ∷ []) ∷ []);
  };
  warnings = result.warnings ++ (warning ∷ []);
  error = some (plain_error unsafe_final_url_code warning);
  stop_reason = unsafe_final_url;
  next_tool = none;
  next_action = none;
}

-- The check of an unparsable URL raises, before the result is used.
abbrev deny_if : UrlCheck → ToolResult → ToolResult
deny_if unparsable result = result
deny_if url_accepted result = result
deny_if (url_rejected warning) result = deny_final_url result warning

-- `_with_attempt_history`; the engine's own warnings are always none.
abbrev pub with_attempt_history : ToolResult → List AttemptRecord → ToolResult
with_attempt_history result records = record result { attempts = entries records }

module _ {W : Type 0} (x : Engine W) where
  -- The result that a capture stands for.
  abbrev pub final_check : CaptureAttempt → UrlCheck
  final_check attempt =
      final_url_safety_warning x.externals attempt.final_url x.profile.safety.allowed_domains

  unfoldable pub judge : CaptureAttempt → ToolResult
  judge attempt = deny_if (final_check attempt) (
      apply_status_code_terminal_mapping
        (result_from_attempt attempt x.requested x.profile.quality_gates x.inline_content_limit)
        attempt)

  unfoldable pub skip : AdapterId → SkipReason → Progress → Progress
  skip a reason st =
      let result = skipped_result x.url a reason x.requested x.profile.quality_gates in
      record st { records = st.records ++ (attempt_record result true ∷ []); last = some result }

  abbrev pub settled : CaptureAttempt → Progress → Progress
  settled attempt st = record {
    captures = st.captures ++ (attempt ∷ []);
    records = st.records ++ (attempt_record (judge attempt) false ∷ []);
    last = some (judge attempt);
  }

  unfoldable pub settle : CaptureAttempt → Progress → Turn
  settle attempt st =
      if is_unparsable (final_check attempt)
      then refuse invalid_url
      else if should_continue (judge attempt)
      then proceed (settled attempt st)
      else leave (with_attempt_history (judge attempt) (settled attempt st).records)

  abbrev pub deny_escalation : List AttemptRecord → ToolResult
  deny_escalation records =
      terminal_result (some cloakbrowser) permission_denied unsafe_escalation records x.requested
        x.profile.quality_gates (unauthorized_stealth ∷ [])
        (some (plain_error unsafe_escalation_code unauthorized_stealth))

  abbrev pub settle_capture : Option CaptureAttempt → Progress → Turn
  settle_capture none st = refuse capture_not_permitted
  settle_capture (some attempt) st = settle attempt st

  -- The body of the loop.
  unfoldable pub try_adapter : AdapterId → Progress → W → Turn × W
  try_adapter a st w =
      if is_disabled x.profile a
      then (proceed (skip a adapter_is_disabled st), w)
      else if same_adapter a cloakbrowser && not (permits_cloakbrowser x.profile.safety)
      then (leave (deny_escalation st.records), w)
      else elim (x.adapters a) [
        | none ↦ (proceed (skip a adapter_is_reserved st), w)
        | some adapter ↦
            let (captured, w') =
              run_capture_attempt x.externals x.url adapter x.profile st.captures w in
            (settle_capture captured st, w')
      ]

  -- `continue`, `return result` or a raise.
  abbrev pub follow : Turn → W → (Progress → W → Turn × W) → Turn × W
  follow (proceed st) w next = next st w
  follow (leave result) w next = (leave result, w)
  follow (refuse f) w next = (refuse f, w)

  -- `for adapter_id in chain`; where it ends in `proceed`, every adapter was tried.
  unfoldable pub run_chain : List AdapterId → Progress → W → Turn × W
  run_chain [] st w = (proceed st, w)
  run_chain (a ∷ chain) st w =
      let (turn, w') = try_adapter a st w in follow turn w' (run_chain chain)

  abbrev pub reached_maximum : Option ℤ → ℕ → Bool
  reached_maximum none tried = false
  reached_maximum (some n) tried = not (ltbℤ (pos tried) n)

  -- After the loop.
  unfoldable pub exhausted : Option ℤ → ℕ → Progress → ToolResult
  exhausted max_attempts tried st = elim st.last [
    | none ↦
        terminal_result none not_applicable no_available_adapter st.records x.requested
          x.profile.quality_gates [] none
    | some result ↦
        with_attempt_history
          (record result {
            next_tool = none;
            next_action = none;
            stop_reason =
                if reached_maximum max_attempts tried
                then max_attempts_reached
                else no_available_adapter;
          })
          st.records
  ]

abbrev pub nothing_tried : Progress
nothing_tried = record { captures = []; records = []; last = none }

pub data Outcome : Type 0 where
  returns : ToolResult → Outcome
  raises : Failure → Outcome

-- `finalize`.
abbrev pub finalize : Option GoalPreset → ToolResult → ToolResult
finalize none r = r
finalize (some g) r = record r { goal_preset = some g }

abbrev pub end_of : {W : Type 0} → Engine W → Option GoalPreset → Option ℤ → ℕ → Turn → Outcome
end_of x preset max_attempts tried (proceed st) =
    returns (finalize preset (exhausted x max_attempts tried st))
end_of x preset max_attempts tried (leave result) = returns (finalize preset result)
end_of x preset max_attempts tried (refuse f) = raises f

abbrev pub engine :
    {W : Type 0} → Externals → (AdapterId → Option (Adapter W)) → Request → Profile → Engine W
engine e adapters q p = record {
  externals = e;
  url = q.url;
  profile = p;
  adapters = adapters;
  requested = q.quality_gates;
  inline_content_limit = q.inline_content_limit;
}

-- The acquisition with a resolved profile.
unfoldable pub acquire_resolved :
    {W : Type 0}
    → Externals
    → (AdapterId → Option (Adapter W))
    → Request
    → Option GoalPreset
    → Profile
    → W
    → Outcome × W
acquire_resolved e adapters q preset p w =
    elim (input_url_safety_error e q.url p.safety.allowed_domains) [
      | unparsable ↦ (raises invalid_url, w)
      | url_rejected message ↦ (
        returns (
            finalize preset (
              terminal_result none permission_denied unsafe_url [] q.quality_gates p.quality_gates
                (message ∷ []) (some (plain_error unsafe_url_code message)))),
        w,
      )
      | url_accepted ↦
          let chain = cut_chain q.max_attempts (adapter_chain p q.strategy) in
          let x = engine e adapters q p in
          let (turn, w') = run_chain x chain nothing_tried w in
          (end_of x preset q.max_attempts (length chain) turn, w')
    ]

-- `adapters` are the caller's, or those of `build_builtin_adapters`.
unfoldable pub acquire_with_fallback_result :
    {W : Type 0} → Externals → (AdapterId → Option (Adapter W)) → Request → W → Outcome × W
acquire_with_fallback_result e adapters q w = elim (resolve_profile e q) [
  | refused failure ↦ (raises failure, w)
  | resolved preset p ↦ acquire_resolved e adapters q preset p w
]
