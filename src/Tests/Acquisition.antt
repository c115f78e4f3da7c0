-- ===== src/Tests/Acquisition.antt =====
-- Acquisitions of one page by two adapters
-- (web_listening/blocks/acquisition_fallback.py, acquisition_capture.py, acquisition_profile.py).
use web_listening.Prelude.{
  arith, Some, ap, ◌≡◌, refl, true, false, none, some, [], ◌∷◌, inl, inr, pos, ◌↔◌, ◌⊎◌, ltbℤ,
}
use web_listening.Acquisition.Data.{
  sitemap, rss, browseract, batch_python, web_http, browser_rendered, cloakbrowser, capture_passed,
}
use web_listening.Acquisition.Profile.{
  parse_allowed_domains, build_default_acquisition_profile, recommend_next_adapter,
  validate_stealth_browser_safety,
}
use web_listening.Acquisition.Capture.{
  quality_failure_reasons, find_blocked_marker, evaluate_fetch_result, run_capture_attempt,
  error_attempt, searched_text, status_is_ok,
}
use web_listening.Acquisition.Result.{
  capture_status_mapping, tool_result_from_capture_attempt, safe_attempt_data,
  structured_error_from_attempt, result_from_attempt, apply_status_code_terminal_mapping,
}
use web_listening.Acquisition.Records.{
  terminal_result, skipped_result, attempt_record, should_continue,
}
use web_listening.Acquisition.Safety.{
  host_allowed, url_accepted, input_url_safety_error, final_url_safety_warning, normalized_host,
  normalized_domain,
}
use web_listening.Acquisition.Resolve.{
  cut_chain, default_chains, goal_preset_quality_gates, resolve_goal_preset, coerce_quality_gates,
  resolve_profile, adapter_chain, resolved, empty_config, default_blocked_markers, no_safety,
}
use web_listening.Acquisition.Engine.{
  deny_final_url, judge, skip, settle, try_adapter, run_chain, exhausted, acquire_resolved,
  acquire_with_fallback_result, engine, returns,
}
use web_listening.Acquisition.Origins.{IsEvidence}
use web_listening.Acquisition.Evidence.{acquire_with_fallback_result-IsEvidence}
use web_listening.Acquisition.Report.{AreKeyed, IsReport}
use web_listening.Acquisition.Attempts.{acquire_with_fallback_result-IsReport}
use web_listening.Acquisition.Irrelevant.{AreAlike, acquire_with_fallback_result-IsIrrelevant}
use web_listening.Acquisition.Permits.{build_default_acquisition_profile-valid}
use web_listening.Acquisition.Choosing.{IsRecommended, recommend_next_adapter-IsRecommended}
use web_listening.Acquisition.Passing.{evaluate_fetch_result-passed}
use web_listening.Acquisition.Hosts.{IsWithin, host_allowed_iff}
use web_listening.Tests.Pages.{
  simple, page, page_url, two_adapters, with_stealth, two_words, request, request_profile,
  final_result,
}

request_resolves : resolve_profile simple request ≡ resolved none request_profile
unfolding resolve_profile resolve_goal_preset goal_preset_quality_gates coerce_quality_gates
    parse_allowed_domains default_chains build_default_acquisition_profile
request_resolves = refl

request_safe : input_url_safety_error simple page_url ((97 ∷ []) ∷ []) ≡ url_accepted
unfolding input_url_safety_error host_allowed
request_safe = refl

request_returns :
    (acquire_with_fallback_result simple two_adapters request 0) ≡ (returns final_result, 2)
unfolding final_result acquire_with_fallback_result acquire_resolved resolve_profile
    resolve_goal_preset goal_preset_quality_gates coerce_quality_gates parse_allowed_domains
    default_chains build_default_acquisition_profile input_url_safety_error host_allowed
    adapter_chain run_chain try_adapter skip settle judge exhausted deny_final_url
    final_url_safety_warning run_capture_attempt evaluate_fetch_result find_blocked_marker
    quality_failure_reasons recommend_next_adapter result_from_attempt
    tool_result_from_capture_attempt capture_status_mapping safe_attempt_data
    structured_error_from_attempt apply_status_code_terminal_mapping should_continue attempt_record
    terminal_result skipped_result
request_returns = refl

two_adapters_keyed : AreKeyed two_adapters
two_adapters_keyed a ad h = ground arith

answered : (acquire_with_fallback_result simple two_adapters request 0).0 ≡ returns final_result
answered = ap (λ t. t.0) request_returns

has_data : final_result.has_data ≡ true
unfolding final_result acquire_with_fallback_result acquire_resolved resolve_profile
    resolve_goal_preset goal_preset_quality_gates coerce_quality_gates parse_allowed_domains
    default_chains build_default_acquisition_profile input_url_safety_error host_allowed
    adapter_chain run_chain try_adapter skip settle judge exhausted deny_final_url
    final_url_safety_warning run_capture_attempt evaluate_fetch_result find_blocked_marker
    quality_failure_reasons recommend_next_adapter result_from_attempt
    tool_result_from_capture_attempt capture_status_mapping safe_attempt_data
    structured_error_from_attempt apply_status_code_terminal_mapping should_continue attempt_record
    terminal_result skipped_result
has_data = refl

acquire_with_fallback_result-IsEvidence_example :
    (input_url_safety_error simple page_url ((97 ∷ []) ∷ []) ≡ url_accepted)
    × IsEvidence
        (engine simple two_adapters request request_profile)
        (cut_chain (some (pos 3)) (adapter_chain request_profile none))
        0
        final_result
acquire_with_fallback_result-IsEvidence_example =
    acquire_with_fallback_result-IsEvidence simple two_adapters request 0 none request_profile
      final_result request_resolves answered has_data

acquire_with_fallback_result-IsReport_example :
    IsReport (cut_chain (some (pos 3)) (adapter_chain request_profile none)) final_result.attempts
acquire_with_fallback_result-IsReport_example =
    acquire_with_fallback_result-IsReport simple two_adapters request 0 none request_profile
      final_result two_adapters_keyed request_resolves request_safe answered

stealth_alike : AreAlike request_profile two_adapters with_stealth
unfolding build_default_acquisition_profile
stealth_alike web_http = inr refl
stealth_alike browser_rendered = inr refl
stealth_alike cloakbrowser = inl (inr (refl, refl))
stealth_alike sitemap = inr refl
stealth_alike rss = inr refl
stealth_alike browseract = inr refl
stealth_alike batch_python = inr refl

acquire_with_fallback_result-IsIrrelevant_example :
    acquire_with_fallback_result simple two_adapters request 0
    ≡ acquire_with_fallback_result simple with_stealth request 0
acquire_with_fallback_result-IsIrrelevant_example =
    acquire_with_fallback_result-IsIrrelevant simple two_adapters with_stealth request
      request_profile none 0 request_resolves stealth_alike

build_default_acquisition_profile-valid_example :
    validate_stealth_browser_safety
      (build_default_acquisition_profile empty_config default_blocked_markers (97 ∷ []) no_safety)
    ≡ true
build_default_acquisition_profile-valid_example =
    build_default_acquisition_profile-valid empty_config default_blocked_markers (97 ∷ []) no_safety

-- After a failed HTTP capture, the browser.
recommend_next_adapter-IsRecommended_example :
    IsRecommended request_profile
      (error_attempt web_http page_url [] ∷ [])
      (recommend_next_adapter request_profile (error_attempt web_http page_url [] ∷ []))
recommend_next_adapter-IsRecommended_example =
    recommend_next_adapter-IsRecommended request_profile (error_attempt web_http page_url [] ∷ [])

evaluate_fetch_result-passed_example :
    ((evaluate_fetch_result simple web_http page_url (page (1 ∷ 2 ∷ [])) two_words).status
      ≡ capture_passed)
    ↔ ((find_blocked_marker simple (searched_text simple (page (1 ∷ 2 ∷ []))) [] ≡ none)
        × ((true ≡ false) ⊎ (status_is_ok (some 200) ≡ true))
        × (ltbℤ (pos 2) (pos 2) ≡ false)
        × (ltbℤ (pos 0) (pos 0) ≡ false)
        × (ltbℤ (pos 0) (pos 0) ≡ false))
evaluate_fetch_result-passed_example =
    evaluate_fetch_result-passed simple web_http page_url (page (1 ∷ 2 ∷ [])) two_words

-- `b.a` under the domain `a`
host_allowed_iff_example :
    (host_allowed simple (98 ∷ 46 ∷ 97 ∷ []) ((97 ∷ []) ∷ []) ≡ true)
    ↔ Some
        (λ d. IsWithin (normalized_host simple (98 ∷ 46 ∷ 97 ∷ [])) (normalized_domain simple d))
        ((97 ∷ []) ∷ [])
host_allowed_iff_example = host_allowed_iff simple (98 ∷ 46 ∷ 97 ∷ []) ((97 ∷ []) ∷ [])
