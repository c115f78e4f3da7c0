-- ===== src/Acquisition/Data.antt =====
-- The data of an acquisition: profiles (web_listening/blocks/acquisition_profile.py), captures
-- (web_listening/blocks/crawler.py, `FetchResult`), and the result of a tool
-- (web_listening/contracts/tool_result.py).
-- A text that the code builds for a reader (a warning, a reason) is the data it is built from.
use web_listening.Prelude.{ℕ, Bool, Option, List, Text, ℤ}

pub data AdapterId : Type 0 where
  web_http browser_rendered sitemap rss cloakbrowser browseract batch_python : AdapterId

pub record QualityGates : Type 0 where
  pub min_words : ℤ
  pub min_links : ℤ
  pub min_document_links : ℤ
  pub require_status_ok : Bool
  pub blocked_markers : List Text

pub record SafetyPolicy : Type 0 where
  pub allowed_domains : List Text
  pub allow_stealth_browser : Bool
  pub require_authorized_access : Bool

-- `config` stands for the dictionary that is handed to the adapter.
pub record AdapterConfig : Type 0 where
  pub adapter : AdapterId
  pub enabled : Bool
  pub config : ℕ

-- What the acquisition reads of a profile.
pub record Profile : Type 0 where
  pub site_key : Text
  pub default_adapter : AdapterId
  pub fallback_order : List AdapterId
  pub quality_gates : QualityGates
  pub safety : SafetyPolicy
  pub adapters : List AdapterConfig
  pub mapped_recipes : List AdapterId

-- `metadata["error"]`, where it is a mapping. An absent key and an empty text are both `none`.
pub record ErrorPayload : Type 0 where
  pub code : Option Text
  pub message : Option Text
  pub retryable : Bool
  pub safe_to_escalate : Bool
  pub exception_type : Option Text

-- The keys of a capture's metadata that the acquisition reads, and the other ones together. A text
-- that is absent or empty is `none`; a count that is absent or that `int` refuses is 0.
pub record Metadata : Type 0 where
  pub error : Option ErrorPayload
  pub link_count : ℤ
  pub document_link_count : ℤ
  pub content_text_preview : Option Text
  pub markdown_preview : Option Text
  pub other_keys : ℕ

pub record FetchResult : Type 0 where
  pub content_text : Text
  pub markdown : Text
  pub fit_markdown : Text
  pub metadata : Metadata
  pub final_url : Text
  pub status_code : Option ℕ

pub data CaptureStatus : Type 0 where
  capture_passed capture_failed_quality_gate capture_blocked capture_error : CaptureStatus

pub data StopReason : Type 0 where
  usable_data_found insufficient_data stop_blocked stop_error stop_not_found stop_auth_required :
      StopReason
  stop_permission_denied unsafe_url unsafe_escalation unsafe_final_url : StopReason
  adapter_not_applicable no_available_adapter max_attempts_reached : StopReason

-- One sentence of a failure reason or of a warning.
pub data Message : Type 0 where
  blocked_marker_found : Text → Message
  status_is_not_ok : Option ℕ → Message
  too_few_words too_few_links too_few_document_links : ℤ → ℤ → Message
  raised : Text → Message
  stopped : StopReason → Message
  not_an_absolute_url unauthorized_stealth capture_attempt_failed : Message
  host_outside : Text → Message
  final_host_outside : Option Text → Message
  reported : Text → Message

-- `failure_reason` is the sentences joined by "; ": it is empty exactly where they are none.
pub record CaptureAttempt : Type 0 where
  pub adapter : AdapterId
  pub status : CaptureStatus
  pub url : Text
  pub final_url : Text
  pub status_code : Option ℕ
  pub words : ℤ
  pub links : ℤ
  pub document_links : ℤ
  pub failure_reason : List Message
  pub recommended_next_adapter : Option AdapterId
  pub metadata : Metadata

pub data DataStatus : Type 0 where
  present empty partial failed_quality_gate blocked not_found auth_required : DataStatus
  permission_denied error artifact_only not_applicable running no_content : DataStatus
  interaction_required : DataStatus

pub data ErrorCode : Type 0 where
  capture_failed unsafe_url_code unsafe_escalation_code unsafe_final_url_code : ErrorCode
  reported_code : Text → ErrorCode

pub record ToolResultError : Type 0 where
  pub code : ErrorCode
  pub message : List Message
  pub retryable : Bool
  pub safe_to_escalate : Bool
  pub exception_type : Text

-- `score` is always `None` here.
pub record DataQuality : Type 0 where
  pub passed : Bool
  pub status_code : Option ℕ
  pub words : ℤ
  pub links : ℤ
  pub document_links : ℤ
  pub is_blocked : Bool
  pub failure_reasons : List (List Message)

-- A caller's gates, as an object or as a mapping that pydantic has yet to read.
pub data GatesInput : Type 0 where
  gates : QualityGates → GatesInput
  mapping : ℕ → GatesInput

pub data SkipReason : Type 0 where
  adapter_is_disabled adapter_is_reserved : SkipReason

-- `data`: what a caller may read of a capture, or why there was none.
pub data Payload : Type 0 where
  no_data : Payload
  content : Text → Option Text → Payload
  skipped : Text → SkipReason → Payload

-- `_attempt_record`.
pub record AttemptRecord : Type 0 where
  pub tool : Option AdapterId
  pub ok : Bool
  pub has_data : Bool
  pub data_status : DataStatus
  pub stop_reason : StopReason
  pub skip_reason : Option SkipReason
  pub data_quality : Option DataQuality
  pub error : Option ToolResultError
  pub warnings : List Message

-- An entry of `attempts`: the dump of a capture, or a record of the fallback engine.
pub data Attempt : Type 0 where
  dumped : CaptureAttempt → Attempt
  recorded : AttemptRecord → Attempt

pub data GoalPreset : Type 0 where
  page_text section_discovery document_discovery change_monitoring : GoalPreset

-- `quality_gates` is what the caller requested and what was in force.
pub record ToolResult : Type 0 where
  pub ok : Bool
  pub has_data : Bool
  pub data_status : DataStatus
  pub data_count : ℕ
  pub tool : Option AdapterId
  pub data_quality : DataQuality
  pub requested : Option GatesInput
  pub effective : QualityGates
  pub payload : Payload
  pub attempts : List Attempt
  pub next_tool : Option AdapterId
  pub next_action : Option AdapterId
  pub warnings : List Message
  pub error : Option ToolResultError
  pub stop_reason : StopReason
  pub goal_preset : Option GoalPreset
