-- ===== src/Crawl/Urls.antt =====
-- Which URLs a tree crawl takes, and in which spelling it keeps them
-- (web_listening/blocks/tree_crawler.py, web_listening/blocks/diff.py).
use web_listening.Prelude.{
  text_le, ℕ, Bool, not, ◌&&◌, ◌||◌, List, [], ◌∷◌, ◌++◌, any, select, Text, ◌==◌, same_text,
  is_blank, or_else, strip, rstrip, starts_with, ends_with, if◌then◌else◌, ℤ,
}

abbrev Pair : Type 0
Pair = Text × Text

-- What `urllib.parse.urlsplit` finds.
pub record Parts : Type 0 where
  pub scheme : Text
  pub netloc : Text
  pub path : Text
  pub query : Text

-- Python's `str.isspace` and `str.lower`, and of `urllib.parse` the functions `urlsplit`, `urlunsplit`
-- without a fragment, `urlparse` as far as the path (from which it takes the parameters), `parse_qsl`
-- and `urlencode`; the links of a page, by BeautifulSoup and `urljoin`. `raises_at` says
-- whether `urlsplit` and `urlparse` raise `ValueError` at a text, with or without the spaces around it,
-- and `raises_in` whether `urljoin` or `urlparse` does at a link of a page; what the other functions
-- give there is never used. What `urlunsplit` has written can be split again.
pub record UrlLibrary : Type 0 where
  pub is_space : ℕ → Bool
  pub lower : Text → Text
  pub raises_at : Text → Bool
  pub raises_in : (body : ℕ) → (base : Text) → Bool
  pub split : Text → Parts
  pub parsed_path : Text → Text
  pub unsplit : Parts → Text
  pub parse_query : Text → List Pair
  pub encode_query : List Pair → Text
  pub extract_links : ℕ → Text → List Text

abbrev pair_le : Pair → Pair → Bool
pair_le (a, b) (c, d) = if same_text a c then text_le b d else text_le a c

abbrev insert_pair : Pair → List Pair → List Pair
insert_pair p [] = p ∷ []
insert_pair p (q ∷ qs) = if pair_le p q then p ∷ q ∷ qs else q ∷ insert_pair p qs

abbrev sort_pairs : List Pair → List Pair
sort_pairs [] = []
sort_pairs (p ∷ ps) = insert_pair p (sort_pairs ps)

-- `utm_`
abbrev utm : Text
utm = 117 ∷ 116 ∷ 109 ∷ 95 ∷ []

-- `fbclid`, `gclid`, `mc_cid` and `mc_eid`
abbrev tracking_query_keys : List Text
tracking_query_keys =
    (102 ∷ 98 ∷ 99 ∷ 108 ∷ 105 ∷ 100 ∷ [])
    ∷ (103 ∷ 99 ∷ 108 ∷ 105 ∷ 100 ∷ [])
    ∷ (109 ∷ 99 ∷ 95 ∷ 99 ∷ 105 ∷ 100 ∷ [])
    ∷ (109 ∷ 99 ∷ 95 ∷ 101 ∷ 105 ∷ 100 ∷ [])
    ∷ []

abbrev pub is_tracking : Text → Bool
is_tracking key = any (same_text key) tracking_query_keys || starts_with key utm

abbrev pub slash : ℕ
slash = 47

abbrev pub root : Text
root = slash ∷ []

-- `path or "/"`
abbrev pub root_or : Text → Text
root_or path = or_else path root

abbrev is_slash : ℕ → Bool
is_slash c = c == slash

-- The empty text where the URL has no scheme or no host.
unfoldable pub sanitize_request_url : UrlLibrary → Text → Text
sanitize_request_url u url =
    let parts = u.split (strip u.is_space url) in
    let pairs = select (λ p. not (is_tracking (u.lower p.0))) (u.parse_query parts.query) in
    if is_blank parts.scheme || is_blank parts.netloc
    then []
    else u.unsplit (record {
      scheme = u.lower parts.scheme;
      netloc = u.lower parts.netloc;
      path = or_else parts.path root;
      query = u.encode_query (sort_pairs pairs);
    })

-- A path other than `/` loses its last slashes.
abbrev trimmed_path : Text → Text
trimmed_path path =
    if not (same_text path root) && ends_with path root then rstrip is_slash path else path

unfoldable pub canonicalize_tracked_url : UrlLibrary → Text → Text
canonicalize_tracked_url u url =
    let parts = u.split (sanitize_request_url u url) in
    if is_blank parts.scheme || is_blank parts.netloc
    then []
    else u.unsplit (record {
      scheme = u.lower parts.scheme;
      netloc = u.lower parts.netloc;
      path = trimmed_path (or_else parts.path root);
      query = parts.query;
    })

unfoldable pub get_origin : UrlLibrary → Text → Text
get_origin u url =
    let parts = u.split url in
    u.unsplit (record {
      scheme = u.lower parts.scheme;
      netloc = u.lower parts.netloc;
      path = [];
      query = [];
    })

-- `(path or "/").rstrip("/") or "/"`
abbrev pub normalized_path : Text → Text
normalized_path path = or_else (rstrip is_slash (or_else path root)) root

abbrev pub matches_prefix : Text → Text → Bool
matches_prefix path prefix =
    same_text prefix root || same_text path prefix || starts_with path (prefix ++ root)

unfoldable pub path_matches_prefixes : Text → List Text → Bool
path_matches_prefixes path prefixes =
    any (λ p. matches_prefix (normalized_path path) (normalized_path p)) prefixes

-- What the crawl reads of a scope.
pub record Scope : Type 0 where
  pub seed_url : Text
  pub allowed_origin : Text
  pub allowed_page_prefixes : List Text
  pub allowed_file_prefixes : List Text
  pub max_depth : ℤ
  pub max_pages : ℤ
  pub max_files : ℤ
  pub follow_files : Bool

unfoldable pub is_page_url_in_scope : UrlLibrary → Scope → Text → Bool
is_page_url_in_scope u scope url =
    same_text (get_origin u url) scope.allowed_origin
    && path_matches_prefixes (or_else (u.split url).path root) scope.allowed_page_prefixes

unfoldable pub is_file_url_in_scope : UrlLibrary → Scope → Text → Bool
is_file_url_in_scope u scope url =
    same_text (get_origin u url) scope.allowed_origin
    && path_matches_prefixes (or_else (u.split url).path root) scope.allowed_file_prefixes

-- `.pdf`, `.docx`, `.doc`, `.xlsx`, `.xls`, `.pptx`, `.ppt`
abbrev document_extensions : List Text
document_extensions =
    (46 ∷ 112 ∷ 100 ∷ 102 ∷ [])
    ∷ (46 ∷ 100 ∷ 111 ∷ 99 ∷ 120 ∷ [])
    ∷ (46 ∷ 100 ∷ 111 ∷ 99 ∷ [])
    ∷ (46 ∷ 120 ∷ 108 ∷ 115 ∷ 120 ∷ [])
    ∷ (46 ∷ 120 ∷ 108 ∷ 115 ∷ [])
    ∷ (46 ∷ 112 ∷ 112 ∷ 116 ∷ 120 ∷ [])
    ∷ (46 ∷ 112 ∷ 112 ∷ 116 ∷ [])
    ∷ []

-- `link in set(find_document_links(links))`, for one of the links.
unfoldable pub is_document_link : UrlLibrary → Text → Bool
is_document_link u link =
    let path = u.lower (u.parsed_path link) in any (λ e. ends_with path e) document_extensions
