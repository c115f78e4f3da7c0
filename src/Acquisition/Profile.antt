-- ===== src/Acquisition/Profile.antt =====
-- Acquisition profiles (web_listening/blocks/acquisition_profile.py).
use web_listening.Prelude.{
  ℕ, Bool, true, false, not, ◌&&◌, ◌||◌, Option, none, some, List, [], ◌∷◌, ◌++◌, map, any, Text,
  strip, is_blank, pos, if◌then◌else◌,
}
use web_listening.Acquisition.Data.{
  AdapterId, web_http, browser_rendered, sitemap, rss, cloakbrowser, browseract, batch_python,
  QualityGates, SafetyPolicy, AdapterConfig, Profile, CaptureAttempt, CaptureStatus, capture_passed,
}

abbrev pub same_adapter : AdapterId → AdapterId → Bool
same_adapter web_http web_http = true
same_adapter browser_rendered browser_rendered = true
same_adapter sitemap sitemap = true
same_adapter rss rss = true
same_adapter cloakbrowser cloakbrowser = true
same_adapter browseract browseract = true
same_adapter batch_python batch_python = true
same_adapter _ _ = false

-- `a in xs`
abbrev pub is_in : AdapterId → List AdapterId → Bool
is_in a xs = any (same_adapter a) xs

-- `len(xs) == len(set(xs))`
abbrev pub has_unique : List AdapterId → Bool
has_unique [] = true
has_unique (a ∷ xs) = not (is_in a xs) && has_unique xs

abbrev pub permits_cloakbrowser : SafetyPolicy → Bool
permits_cloakbrowser s = s.allow_stealth_browser && s.require_authorized_access

abbrev pub permits_browseract : SafetyPolicy → Bool
permits_browseract s = s.allow_stealth_browser && s.require_authorized_access

-- `parse_allowed_domains` and `validate_allowed_domains`: `none` is the `ValueError`.
unfoldable pub parse_allowed_domains : (ℕ → Bool) → List Text → Option (List Text)
parse_allowed_domains is_space values =
    let domains = map (strip is_space) values in if any is_blank domains then none else some domains

-- Whether the default, the fallbacks or an enabled configuration name the adapter.
abbrev pub uses : AdapterId → Profile → Bool
uses a p =
    same_adapter p.default_adapter a
    || is_in a p.fallback_order
    || any (λ c. same_adapter c.adapter a && c.enabled) p.adapters

-- `validate_stealth_browser_safety`: whether it lets the profile through.
unfoldable pub validate_stealth_browser_safety : Profile → Bool
validate_stealth_browser_safety p =
    not (uses cloakbrowser p && not (permits_cloakbrowser p.safety))
    && not (uses browseract p && not (permits_browseract p.safety))
    && has_unique (map (λ c. c.adapter) p.adapters)
    && has_unique p.mapped_recipes

-- The default of `AcquisitionQualityGates`, with the given markers.
abbrev pub default_quality_gates : List Text → QualityGates
default_quality_gates markers = record {
  min_words = pos 120;
  min_links = pos 3;
  min_document_links = pos 0;
  require_status_ok = true;
  blocked_markers = markers;
}

abbrev pub enabled_config : ℕ → AdapterId → AdapterConfig
enabled_config empty_config a = record { adapter = a; enabled = true; config = empty_config }

abbrev pub disabled_config : ℕ → AdapterId → AdapterConfig
disabled_config empty_config a = record { adapter = a; enabled = false; config = empty_config }

-- The five open adapters, and BrowserAct, which is there but disabled.
abbrev open_configs : ℕ → List AdapterConfig
open_configs e =
    enabled_config e web_http
    ∷ enabled_config e browser_rendered
    ∷ enabled_config e sitemap
    ∷ enabled_config e rss
    ∷ enabled_config e batch_python
    ∷ disabled_config e browseract
    ∷ []

-- `empty_config` stands for the empty dictionary, and `markers` for the default markers.
unfoldable pub build_default_acquisition_profile :
    (empty_config : ℕ) (markers : List Text) (site_key : Text) → SafetyPolicy → Profile
build_default_acquisition_profile e markers site_key safety =
    let stealth = permits_cloakbrowser safety in
    record {
      site_key = site_key;
      default_adapter = web_http;
      fallback_order =
          (browser_rendered ∷ sitemap ∷ rss ∷ batch_python ∷ [])
          ++ (if stealth then cloakbrowser ∷ [] else []);
      quality_gates = default_quality_gates markers;
      safety = safety;
      adapters = open_configs e ++ (if stealth then enabled_config e cloakbrowser ∷ [] else []);
      mapped_recipes = [];
    }

abbrev pub is_passed : CaptureStatus → Bool
is_passed capture_passed = true
is_passed _ = false

-- `for adapter in order: if adapter not in chain: chain.append(adapter)`
abbrev pub append_new : List AdapterId → List AdapterId → List AdapterId
append_new chain [] = chain
append_new chain (a ∷ order) = append_new (if is_in a chain then chain else chain ++ (a ∷ [])) order

abbrev pub adapter_sequence : Profile → List AdapterId
adapter_sequence p = append_new (p.default_adapter ∷ []) p.fallback_order

-- `adapter in disabled_adapters`
abbrev pub is_disabled : Profile → AdapterId → Bool
is_disabled p a = any (λ c. same_adapter c.adapter a && not c.enabled) p.adapters

-- The first adapter of the sequence that is neither attempted nor disabled.
abbrev pub first_untried : Profile → List CaptureAttempt → List AdapterId → Option AdapterId
first_untried p attempts [] = none
first_untried p attempts (a ∷ xs) =
    if not (any (λ t. same_adapter a t.adapter) attempts) && not (is_disabled p a)
    then some a
    else first_untried p attempts xs

unfoldable pub recommend_next_adapter : Profile → List CaptureAttempt → Option AdapterId
recommend_next_adapter p attempts =
    if any (λ t. is_passed t.status) attempts
    then none
    else first_untried p attempts (adapter_sequence p)
