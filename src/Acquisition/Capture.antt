-- ===== src/Acquisition/Capture.antt =====
-- One capture and its evaluation (web_listening/blocks/acquisition_capture.py).
use web_listening.Prelude.{
  ℕ, Bool, false, not, ◌&&◌, ◌||◌, Option, none, some, List, [], ◌∷◌, ◌++◌, Text, ℤ, pos, ltbℤ, leb,
  ltb, if◌then◌else◌, is_blank, or_else, strip, contains, take,
}
use web_listening.Acquisition.Data.{
  AdapterId, cloakbrowser, QualityGates, AdapterConfig, Profile, Metadata, FetchResult,
  CaptureStatus, capture_passed, capture_failed_quality_gate, capture_blocked, capture_error,
  Message, blocked_marker_found, status_is_not_ok, too_few_words, too_few_links,
  too_few_document_links, raised, CaptureAttempt,
}
use web_listening.Acquisition.Profile.{same_adapter, permits_cloakbrowser, recommend_next_adapter}

-- What is read of a URL that `urlparse` has taken apart.
pub record ParsedUrl : Type 0 where
  pub scheme : Text
  pub hostname : Option Text

-- What is not under this repository: Python's `str.casefold` and `str.isspace`, the words of a text
-- by the regular expression `\b\w+\b`, `json.dumps` of the metadata, `urllib.parse.urlparse`
-- (`none` is its `ValueError`), and pydantic's reading of a mapping of quality gates.
pub record Externals : Type 0 where
  pub casefold : Text → Text
  pub is_space : ℕ → Bool
  pub count_words : Text → ℕ
  pub dumps : Metadata → Text
  pub urlparse : Text → Option ParsedUrl
  pub read_gates : ℕ → Option QualityGates

-- What an adapter's `capture` does: it returns, or it raises.
pub data Captured : Type 0 where
  fetched : FetchResult → Captured
  failed : Text → Captured

-- An adapter. `W` is the world that its captures read and change.
pub record Adapter (W : Type 0) : Type 0 where
  pub adapter_id : AdapterId
  pub capture : Text → Option ℕ → W → Captured × W

abbrev pub status_is_ok : Option ℕ → Bool
status_is_ok none = false
status_is_ok (some c) = leb 200 c && ltb c 300

-- `[r] if test else []`
abbrev pub reason_if : Bool → Message → List Message
reason_if c r = if c then r ∷ [] else []

abbrev marker_reason : Option Text → List Message
marker_reason none = []
marker_reason (some m) = blocked_marker_found m ∷ []

unfoldable pub quality_failure_reasons :
    Option ℕ → (words links document_links : ℤ) → Option Text → QualityGates → List Message
quality_failure_reasons status words links document_links marker g =
    marker_reason marker
    ++ reason_if (g.require_status_ok && not (status_is_ok status)) (status_is_not_ok status)
    ++ reason_if (ltbℤ words g.min_words) (too_few_words words g.min_words)
    ++ reason_if (ltbℤ links g.min_links) (too_few_links links g.min_links)
    ++ reason_if (ltbℤ document_links g.min_document_links)
        (too_few_document_links document_links g.min_document_links)

-- `none` is the empty text.
unfoldable pub find_blocked_marker : Externals → Text → List Text → Option Text
find_blocked_marker e text [] = none
find_blocked_marker e text (m ∷ markers) =
    let marker = strip e.is_space m in
    let rest = find_blocked_marker e text markers in
    if not (is_blank marker) && contains (e.casefold text) (e.casefold marker)
    then some (e.casefold marker)
    else rest

abbrev pub best_content_text : FetchResult → Text
best_content_text r = or_else r.fit_markdown (or_else r.markdown r.content_text)

abbrev newline : ℕ
newline = 10

-- What is searched for markers.
abbrev pub searched_text : Externals → FetchResult → Text
searched_text e r =
    r.fit_markdown
    ++ (newline ∷ r.markdown)
    ++ (newline ∷ r.content_text)
    ++ (newline ∷ e.dumps r.metadata)

-- `if preview: metadata[key] = preview`
abbrev preview_or : Externals → Text → Option Text → Option Text
preview_or e text old =
    let preview = strip e.is_space (take 2000 text) in
    if is_blank preview then old else some preview

abbrev pub add_previews : Externals → FetchResult → Metadata
add_previews e r = record r.metadata {
  content_text_preview = preview_or e r.content_text r.metadata.content_text_preview;
  markdown_preview = preview_or e (or_else r.fit_markdown r.markdown) r.metadata.markdown_preview;
}

abbrev pub evaluated_status : List Message → Option Text → CaptureStatus
evaluated_status reasons (some m) = capture_blocked
evaluated_status [] none = capture_passed
evaluated_status (r ∷ rs) none = capture_failed_quality_gate

unfoldable pub evaluate_fetch_result :
    Externals → AdapterId → Text → FetchResult → QualityGates → CaptureAttempt
evaluate_fetch_result e adapter url r g =
    let words = pos (e.count_words (best_content_text r)) in
    let marker = find_blocked_marker e (searched_text e r) g.blocked_markers in
    let reasons =
      quality_failure_reasons r.status_code words r.metadata.link_count
        r.metadata.document_link_count marker g in
    record {
      adapter = adapter;
      status = evaluated_status reasons marker;
      url = url;
      final_url = r.final_url;
      status_code = r.status_code;
      words = words;
      links = r.metadata.link_count;
      document_links = r.metadata.document_link_count;
      failure_reason = reasons;
      recommended_next_adapter = none;
      metadata = add_previews e r;
    }

abbrev pub no_metadata : Metadata
no_metadata = record {
  error = none;
  link_count = pos 0;
  document_link_count = pos 0;
  content_text_preview = none;
  markdown_preview = none;
  other_keys = 0;
}

-- The attempt of a capture that raised.
abbrev pub error_attempt : AdapterId → Text → Text → CaptureAttempt
error_attempt adapter url exception = record {
  adapter = adapter;
  status = capture_error;
  url = url;
  final_url = [];
  status_code = none;
  words = pos 0;
  links = pos 0;
  document_links = pos 0;
  failure_reason = raised exception ∷ [];
  recommended_next_adapter = none;
  metadata = no_metadata;
}

abbrev find_config : AdapterId → List AdapterConfig → Option ℕ
find_config a [] = none
find_config a (c ∷ cs) = if same_adapter c.adapter a then some c.config else find_config a cs

abbrev pub adapter_config : Profile → AdapterId → Option ℕ
adapter_config p a = find_config a p.adapters

-- `_validate_capture_safety`: whether it lets the capture through.
abbrev pub capture_is_safe : AdapterId → Profile → Bool
capture_is_safe a p = not (same_adapter a cloakbrowser) || permits_cloakbrowser p.safety

abbrev pub judge_capture : Externals → AdapterId → Text → Profile → Captured → CaptureAttempt
judge_capture e a url p (fetched r) = evaluate_fetch_result e a url r p.quality_gates
judge_capture e a url p (failed exception) = error_attempt a url exception

-- `none` is the `PermissionError`, raised before anything is captured.
unfoldable pub run_capture_attempt :
    {W : Type 0}
    → Externals
    → Text
    → Adapter W
    → Profile
    → List CaptureAttempt
    → W
    → Option CaptureAttempt × W
run_capture_attempt e url adapter p prior w =
    let a = adapter.adapter_id in
    let (captured, w') = adapter.capture url (adapter_config p a) w in
    let attempt = judge_capture e a url p captured in
    if capture_is_safe a p
    then (
      some (record attempt {
        recommended_next_adapter = recommend_next_adapter p (prior ++ (attempt ∷ []));
      }),
      w',
    )
    else (none, w)
