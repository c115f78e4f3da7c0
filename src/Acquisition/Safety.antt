-- ===== src/Acquisition/Safety.antt =====
-- Which URLs an acquisition may take (web_listening/blocks/acquisition_fallback.py).
use web_listening.Prelude.{
  ℕ, Bool, true, false, not, ◌&&◌, ◌||◌, Option, none, some, List, [], ◌∷◌, any, Text, ◌==◌,
  same_text, is_blank, strip, rstrip, ends_with, if◌then◌else◌, ◌≡◌, refl, arith, ◌⊎◌, inl, inr,
  Option-cases,
}
use web_listening.Acquisition.Data.{Message, not_an_absolute_url, host_outside, final_host_outside}
use web_listening.Acquisition.Capture.{Externals}

abbrev pub dot : ℕ
dot = 46

abbrev http : Text
http = 104 ∷ 116 ∷ 116 ∷ 112 ∷ []

abbrev https : Text
https = 104 ∷ 116 ∷ 116 ∷ 112 ∷ 115 ∷ []

abbrev pub is_web_scheme : Text → Bool
is_web_scheme s = same_text s http || same_text s https

abbrev pub normalized_host : Externals → Text → Text
normalized_host e host = e.casefold (rstrip (λ c. c == dot) host)

abbrev pub normalized_domain : Externals → Text → Text
normalized_domain e domain = e.casefold (rstrip (λ c. c == dot) (strip e.is_space domain))

-- `host == domain or host.endswith(f".{domain}")`
abbrev pub host_matches : Text → Text → Bool
host_matches host domain = same_text host domain || ends_with host (dot ∷ domain)

unfoldable pub host_allowed : Externals → Text → List Text → Bool
host_allowed e host domains =
    any (λ d. host_matches (normalized_host e host) (normalized_domain e d)) domains

-- A host that is absent or empty is `none`.
abbrev given : Option Text → Option Text
given none = none
given (some []) = none
given (some (x ∷ xs)) = some (x ∷ xs)

-- The host of a URL, if it can be parsed and has one.
abbrev pub host_of : Externals → Text → Option Text
host_of e url = elim (e.urlparse url) [ none ↦ none | some parsed ↦ given parsed.hostname ]

abbrev pub has_domains : List Text → Bool
has_domains [] = false
has_domains (d ∷ ds) = true

-- What the check of a URL gives: it raises `ValueError`, or takes the URL, or has something against
-- it.
pub data UrlCheck : Type 0 where
  unparsable url_accepted : UrlCheck
  url_rejected : Message → UrlCheck

abbrev pub is_unparsable : UrlCheck → Bool
is_unparsable unparsable = true
is_unparsable url_accepted = false
is_unparsable (url_rejected m) = false

pub UrlCheck-cases :
    (c : UrlCheck)
    → (c ≡ unparsable) ⊎ ((c ≡ url_accepted) ⊎ ((m : Message) × (c ≡ url_rejected m)))
UrlCheck-cases unparsable = inl refl
UrlCheck-cases url_accepted = inr (inl refl)
UrlCheck-cases (url_rejected m) = inr (inr (m, refl))

abbrev check_host : Externals → List Text → Option Text → UrlCheck
check_host e domains none = url_rejected not_an_absolute_url
check_host e domains (some host) =
    if has_domains domains && not (host_allowed e host domains)
    then url_rejected (host_outside host)
    else url_accepted

abbrev check_final_host : Externals → List Text → Option Text → UrlCheck
check_final_host e domains none = url_rejected (final_host_outside none)
check_final_host e domains (some host) =
    if host_allowed e host domains
    then url_accepted
    else url_rejected (final_host_outside (some host))

unfoldable pub input_url_safety_error : Externals → Text → List Text → UrlCheck
input_url_safety_error e url domains = elim (e.urlparse url) [
  | none ↦ unparsable
  | some parsed ↦
      if is_web_scheme parsed.scheme
      then check_host e domains (given parsed.hostname)
      else url_rejected not_an_absolute_url
]

unfoldable pub final_url_safety_warning : Externals → Text → List Text → UrlCheck
final_url_safety_warning e final_url domains =
    if is_blank final_url || not (has_domains domains)
    then url_accepted
    else elim (e.urlparse final_url) [
      | none ↦ unparsable
      | some parsed ↦ check_final_host e domains (given parsed.hostname)
    ]

pub input_url_safety_error-unparsable :
    (e : Externals) (url : Text) (domains : List Text)
    → input_url_safety_error e url domains ≡ unparsable
    → e.urlparse url ≡ none
unfolding input_url_safety_error
input_url_safety_error-unparsable e url domains h = elim (Option-cases (e.urlparse url)) [
  | inl none' ↦ none'
  | inr (parsed, found) ↦ ground arith
]

-- Only a URL that `urlparse` does not take is unparsable.
pub final_url_safety_warning-unparsable :
    (e : Externals) (final_url : Text) (domains : List Text)
    → final_url_safety_warning e final_url domains ≡ unparsable
    → e.urlparse final_url ≡ none
unfolding final_url_safety_warning
final_url_safety_warning-unparsable e final_url domains h =
    elim (Option-cases (e.urlparse final_url)) [
      | inl none' ↦ none'
      | inr (parsed, found) ↦ ground arith
    ]
