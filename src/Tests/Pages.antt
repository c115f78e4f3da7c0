-- ===== src/Tests/Pages.antt =====
-- A small site and two adapters for it, for the acquisitions of the other files.
use web_listening.Prelude.{
  ℕ, zero, suc, true, Option, none, some, [], ◌∷◌, length, Text, ◌==◌, if◌then◌else◌, pos,
}
use web_listening.Acquisition.Data.{
  AdapterId, web_http, browser_rendered, rss, cloakbrowser, FetchResult, QualityGates, gates,
  ToolResult, Profile, adapter_is_reserved,
}
use web_listening.Acquisition.Capture.{Externals, Adapter, fetched, no_metadata}
use web_listening.Acquisition.Resolve.{Request, given_profile}
use web_listening.Acquisition.Records.{skipped_result}
use web_listening.Acquisition.Engine.{Outcome, returns, raises, acquire_with_fallback_result}

abbrev until : ℕ → Text → Text
until stop [] = []
until stop (c ∷ cs) = if c == stop then [] else c ∷ until stop cs

abbrev dropped : ℕ → Text → Text
dropped zero cs = cs
dropped (suc n) [] = []
dropped (suc n) (c ∷ cs) = dropped n cs

-- The scheme ends at a colon, the host at a slash.
abbrev pub simple : Externals
simple = record {
  casefold = λ t. t;
  is_space = λ c. c == 32;
  count_words = λ t. length t;
  dumps = λ m. [];
  urlparse =
      λ url. some (record { scheme = until 58 url; hostname = some (until 47 (dropped 7 url)) });
  read_gates = λ m. none;
}

-- `http://a`
abbrev pub page_url : Text
page_url = 104 ∷ 116 ∷ 116 ∷ 112 ∷ 58 ∷ 47 ∷ 47 ∷ 97 ∷ []

abbrev pub page : Text → FetchResult
page text = record {
  content_text = text;
  markdown = [];
  fit_markdown = [];
  metadata = no_metadata;
  final_url = page_url;
  status_code = some 200;
}

-- The world counts the captures.
abbrev pub answers : AdapterId → Text → Adapter ℕ
answers a text = record { adapter_id = a; capture = λ url config n. (fetched (page text), suc n) }

-- Plain HTTP gets an empty page, the browser gets three words.
abbrev pub two_adapters : AdapterId → Option (Adapter ℕ)
two_adapters web_http = some (answers web_http [])
two_adapters browser_rendered = some (answers browser_rendered (1 ∷ 2 ∷ 3 ∷ []))
two_adapters _ = none

abbrev pub with_stealth : AdapterId → Option (Adapter ℕ)
with_stealth cloakbrowser = some (answers cloakbrowser (1 ∷ 2 ∷ 3 ∷ []))
with_stealth web_http = some (answers web_http [])
with_stealth browser_rendered = some (answers browser_rendered (1 ∷ 2 ∷ 3 ∷ []))
with_stealth _ = none

abbrev pub two_words : QualityGates
two_words = record {
  min_words = pos 2;
  min_links = pos 0;
  min_document_links = pos 0;
  require_status_ok = true;
  blocked_markers = [];
}

abbrev pub request : Request
request = record {
  url = page_url;
  profile = none;
  quality_gates = some (gates two_words);
  allowed_domains = some ((97 ∷ []) ∷ []);
  strategy = none;
  goal_preset = none;
  max_attempts = some (pos 3);
  inline_content_limit = pos 100;
}

-- The profile that the request resolves to.
abbrev pub request_profile : Profile
request_profile =
    let p = given_profile simple page_url none in
    record p {
      quality_gates = two_words;
      safety = record p.safety { allowed_domains = (97 ∷ []) ∷ [] };
    }

abbrev result_of : Outcome → ToolResult
result_of (returns r) = r
result_of (raises f) = skipped_result [] rss adapter_is_reserved none two_words

-- What the request gets.
unfoldable pub final_result : ToolResult
final_result = result_of (acquire_with_fallback_result simple two_adapters request 0).0
