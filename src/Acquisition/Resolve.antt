-- ===== src/Acquisition/Resolve.antt =====
-- The profile, the gates and the chain of one acquisition
-- (web_listening/blocks/acquisition_fallback.py).
use web_listening.Prelude.{
  ℕ, true, false, Option, none, some, List, [], ◌∷◌, map, Text, ℤ, pos, clamp, take, replace,
  if◌then◌else◌,
}
use web_listening.Acquisition.Data.{
  AdapterId, web_http, browser_rendered, sitemap, rss, cloakbrowser, batch_python, QualityGates,
  SafetyPolicy, AdapterConfig, Profile, GatesInput, gates, mapping, GoalPreset, page_text,
  section_discovery, document_discovery, change_monitoring,
}
use web_listening.Acquisition.Profile.{
  same_adapter, parse_allowed_domains, build_default_acquisition_profile, adapter_sequence,
  enabled_config,
}
use web_listening.Acquisition.Capture.{Externals}
use web_listening.Acquisition.Safety.{dot, host_of}

-- A `strategy` argument: a key of `DEFAULT_CHAINS`, or any other text.
pub data Strategy : Type 0 where
  public_web_default document_discovery_default dynamic_page_default authorized_fallback : Strategy
  other_strategy : Text → Strategy

-- A `goal_preset` argument.
pub data PresetName : Type 0 where
  known_preset : GoalPreset → PresetName
  unknown_preset : Text → PresetName

-- What `acquire_with_fallback_result` raises: four `ValueError`s, and the `PermissionError` of a
-- capture that the profile does not permit.
pub data Failure : Type 0 where
  invalid_goal_preset invalid_quality_gates invalid_url invalid_allowed_domains : Failure
  capture_not_permitted : Failure

-- The arguments of `acquire_with_fallback_result`, but for the adapters. A single domain is a list
-- of one.
pub record Request : Type 0 where
  pub url : Text
  pub profile : Option Profile
  pub quality_gates : Option GatesInput
  pub allowed_domains : Option (List Text)
  pub strategy : Option Strategy
  pub goal_preset : Option PresetName
  pub max_attempts : Option ℤ
  pub inline_content_limit : ℤ

-- `DEFAULT_CHAINS`, with the head apart.
unfoldable pub default_chains : Option Strategy → Option (AdapterId × List AdapterId)
default_chains none = none
default_chains (some public_web_default) = some (web_http, browser_rendered ∷ sitemap ∷ rss ∷ [])
default_chains (some document_discovery_default) =
    some (web_http, sitemap ∷ browser_rendered ∷ rss ∷ [])
default_chains (some dynamic_page_default) = some (web_http, browser_rendered ∷ sitemap ∷ rss ∷ [])
default_chains (some authorized_fallback) =
    some (web_http, browser_rendered ∷ cloakbrowser ∷ batch_python ∷ [])
default_chains (some (other_strategy s)) = none

abbrev access_denied : Text
access_denied = 97 ∷ 99 ∷ 99 ∷ 101 ∷ 115 ∷ 115 ∷ 32 ∷ 100 ∷ 101 ∷ 110 ∷ 105 ∷ 101 ∷ 100 ∷ []

abbrev captcha : Text
captcha = 99 ∷ 97 ∷ 112 ∷ 116 ∷ 99 ∷ 104 ∷ 97 ∷ []

abbrev cloudflare : Text
cloudflare = 99 ∷ 108 ∷ 111 ∷ 117 ∷ 100 ∷ 102 ∷ 108 ∷ 97 ∷ 114 ∷ 101 ∷ []

abbrev enable_javascript : Text
enable_javascript =
    101 ∷ 110 ∷ 97 ∷ 98 ∷ 108 ∷ 101 ∷ 32 ∷ 106 ∷ 97 ∷ 118 ∷ 97 ∷ 115 ∷ 99 ∷ 114 ∷ 105 ∷ 112 ∷ 116
    ∷ []

abbrev forbidden : Text
forbidden = 102 ∷ 111 ∷ 114 ∷ 98 ∷ 105 ∷ 100 ∷ 100 ∷ 101 ∷ 110 ∷ []

abbrev pub default_blocked_markers : List Text
default_blocked_markers = access_denied ∷ captcha ∷ cloudflare ∷ enable_javascript ∷ forbidden ∷ []

abbrev preset_gates : ℕ → ℕ → ℕ → QualityGates
preset_gates words links documents = record {
  min_words = pos words;
  min_links = pos links;
  min_document_links = pos documents;
  require_status_ok = true;
  blocked_markers = default_blocked_markers;
}

-- `GOAL_PRESET_QUALITY_GATES`.
unfoldable pub goal_preset_quality_gates : Option GoalPreset → Option QualityGates
goal_preset_quality_gates none = none
goal_preset_quality_gates (some page_text) = some (preset_gates 120 0 0)
goal_preset_quality_gates (some section_discovery) = some (preset_gates 80 3 0)
goal_preset_quality_gates (some document_discovery) = some (preset_gates 80 0 1)
goal_preset_quality_gates (some change_monitoring) = some (preset_gates 20 0 0)

-- `none` is the `ValueError`.
unfoldable pub resolve_goal_preset : Option PresetName → Option (Option GoalPreset)
resolve_goal_preset none = some none
resolve_goal_preset (some (known_preset p)) = some (some p)
resolve_goal_preset (some (unknown_preset t)) = none

-- `quality_gates if quality_gates is not None else preset_quality_gates`
abbrev pub gates_input : Option GatesInput → Option QualityGates → Option GatesInput
gates_input (some g) preset = some g
gates_input none none = none
gates_input none (some g) = some (gates g)

-- `none` where pydantic refuses the mapping.
unfoldable pub coerce_quality_gates : Externals → GatesInput → Option QualityGates
coerce_quality_gates e (gates g) = some g
coerce_quality_gates e (mapping m) = e.read_gates m

-- 0 stands for the empty dictionary.
abbrev pub empty_config : ℕ
empty_config = 0

-- `existing.get(adapter_id, AcquisitionAdapterConfig(adapter=adapter_id))`: of two configurations of
-- one adapter, the dictionary keeps the later.
abbrev existing_config : AdapterId → AdapterConfig → List AdapterConfig → AdapterConfig
existing_config a found [] = found
existing_config a found (c ∷ cs) =
    existing_config a (if same_adapter c.adapter a then c else found) cs

abbrev pub profile_adapters_for_chain : Profile → List AdapterId → List AdapterConfig
profile_adapters_for_chain p chain =
    map (λ a. existing_config a (enabled_config empty_config a) p.adapters) chain

-- `site`
abbrev site : Text
site = 115 ∷ 105 ∷ 116 ∷ 101 ∷ []

abbrev dash : ℕ
dash = 45

abbrev site_key_of : Option Text → Text
site_key_of none = replace dot dash site
site_key_of (some host) = replace dot dash host

abbrev pub no_safety : SafetyPolicy
no_safety = record {
  allowed_domains = [];
  allow_stealth_browser = false;
  require_authorized_access = false;
}

abbrev pub given_profile : Externals → Text → Option Profile → Profile
given_profile e url none =
    build_default_acquisition_profile empty_config default_blocked_markers
      (site_key_of (host_of e url)) no_safety
given_profile e url (some p) = p

abbrev pub with_strategy : Option Strategy → Profile → Profile
with_strategy strategy p = elim (default_chains strategy) [
  | none ↦ p
  | some (a, rest) ↦ record p {
    default_adapter = a;
    fallback_order = rest;
    adapters = profile_adapters_for_chain p (a ∷ rest);
  }
]

abbrev pub resolve_gates : Externals → Option GatesInput → Profile → Option Profile
resolve_gates e none p = some p
resolve_gates e (some input) p = elim (coerce_quality_gates e input) [
  | none ↦ none
  | some g ↦ some (record p { quality_gates = g })
]

abbrev pub resolve_domains : Externals → Option (List Text) → Profile → Option Profile
resolve_domains e none p = some p
resolve_domains e (some values) p = elim (parse_allowed_domains e.is_space values) [
  | none ↦ none
  | some domains ↦ some (record p { safety = record p.safety { allowed_domains = domains } })
]

-- What an acquisition raises before it looks at its URL, or the profile it works with.
pub data Resolved : Type 0 where
  refused : Failure → Resolved
  resolved : Option GoalPreset → Profile → Resolved

-- The head of `acquire_with_fallback_result`, and `_resolve_profile`. `model_copy` does not validate
-- the profile again.
unfoldable pub resolve_profile : Externals → Request → Resolved
resolve_profile e q = elim (resolve_goal_preset q.goal_preset) [
  | none ↦ refused invalid_goal_preset
  | some preset ↦
      elim (resolve_gates e (gates_input q.quality_gates (goal_preset_quality_gates preset))
        (given_profile e q.url q.profile)) [
          | none ↦ refused invalid_quality_gates
          | some p ↦ elim (e.urlparse q.url) [
            | none ↦ refused invalid_url
            | some parsed ↦ elim (resolve_domains e q.allowed_domains p) [
              | none ↦ refused invalid_allowed_domains
              | some p' ↦ resolved preset (with_strategy q.strategy p')
            ]
          ]
        ]
]

-- `_adapter_chain`.
unfoldable pub adapter_chain : Profile → Option Strategy → List AdapterId
adapter_chain p strategy = elim (default_chains strategy) [
  | none ↦ adapter_sequence p
  | some (a, rest) ↦ a ∷ rest
]

-- `chain[: max(0, max_attempts)]`
abbrev pub cut_chain : Option ℤ → List AdapterId → List AdapterId
cut_chain none chain = chain
cut_chain (some n) chain = take (clamp n) chain
