-- ===== src/Tests/Crawl.antt =====
-- A crawl of two pages (web_listening/blocks/tree_crawler.py).
use web_listening.Prelude.{
  ◌⊎◌, ℕ, suc, ◌≡◌, ◌≢◌, ◌↔◌, refl, true, false, [], ◌∷◌, Some, ◌==◌, pos, length,
}
use web_listening.Crawl.Urls.{
  UrlLibrary, sanitize_request_url, canonicalize_tracked_url, get_origin, path_matches_prefixes,
  is_page_url_in_scope, is_file_url_in_scope, is_document_link, normalized_path,
}
use web_listening.Crawl.Data.{accepted, declined, gave, Backend, Crawl}
use web_listening.Crawl.Links.{
  Site, take_document, queue_page, take_link, take_links, take_page_links,
}
use web_listening.Crawl.Pages.{
  track_page, enter, land, visit, Loop, ended, broke, ran_out, crawl_pages, start, enough,
  bootstrap_scope_in_transaction, unfinished,
}
use web_listening.Crawl.Revisit.{
  Known, take_document_again, queue_page_again, take_link_again, take_links_again,
  take_page_links_again,
}
use web_listening.Crawl.Runs.{
  Memory, Report, report, RunOutcome, reported, run_unfinished, start_again, crawl_again,
  visit_again, land_again, track_page_again, missing_pages, missing_files, run_scope_in_transaction,
}
use web_listening.Crawl.Limits.{crawl_again-IsCounted, run_scope_in_transaction_ends}
use web_listening.Crawl.Missing.{IsComplete, IsCut, run_scope_in_transaction-IsComplete}
use web_listening.Crawl.Ending.{bootstrap_scope_in_transaction_ends}
use web_listening.Crawl.Sound.{
  IsCounted, IsInScope, StopsWith, crawl_pages-IsCounted, crawl_pages-IsInScope,
}
use web_listening.Crawl.Prefixes.{IsBelow, path_matches_prefixes_iff}

-- A URL is a path here; every page is on one host.
abbrev paths : UrlLibrary
paths = record {
  is_space = λ c. c == 32;
  lower = λ t. t;
  split = λ t. record { scheme = 104 ∷ []; netloc = 97 ∷ []; path = t; query = [] };
  parsed_path = λ t. t;
  raises_at = λ t. false;
  raises_in = λ body base. false;
  unsplit = λ p. p.path;
  parse_query = λ t. [];
  encode_query = λ ps. [];
  extract_links = λ body base. (47 ∷ 98 ∷ []) ∷ (47 ∷ []) ∷ (47 ∷ 99 ∷ 47 ∷ []) ∷ [];
}

-- The world counts the calls, and gives identifiers.
abbrev counting : Backend ℕ
counting = record {
  acquire_page = λ url n. (gave (accepted (record { final_url = url; body = 0 })), suc n);
  acquire_file =
      λ url n. (gave (declined (record { is_not_found = true; final_url = url })), suc n);
  save_page = λ url depth page n. (gave (record { id = n; hash = [] }), suc n);
  add_page_edge = λ a b n. (gave tt, suc n);
  track_file = λ page file url n. (gave (record { id = n; hash = [] }), suc n);
  complete_run = λ pages files n. (gave tt, suc n);
  fail_run = λ pages files n. (gave tt, suc n);
}

-- Two pages at most: `/` and `/b`; the link to `/c/` stays in the queue.
abbrev small : Site ℕ
small = record {
  library = paths;
  scope = record {
    seed_url = 47 ∷ [];
    allowed_origin = [];
    allowed_page_prefixes = (47 ∷ []) ∷ [];
    allowed_file_prefixes = (47 ∷ []) ∷ [];
    max_depth = pos 3;
    max_pages = pos 2;
    max_files = pos 1;
    follow_files = true;
  };
  backend = counting;
}

abbrev tracked_pages : Loop Crawl → ℕ
tracked_pages (ended st) = length st.pages
tracked_pages (broke x st) = length st.pages
tracked_pages ran_out = 0

small_crawl : tracked_pages (crawl_pages small (enough small) (start small) 0).0 ≡ 2
unfolding crawl_pages visit land track_page enter take_page_links take_links take_link take_document
    queue_page is_document_link is_file_url_in_scope is_page_url_in_scope path_matches_prefixes
    get_origin canonicalize_tracked_url sanitize_request_url
small_crawl = refl

bootstrap_scope_in_transaction_ends_example :
    (bootstrap_scope_in_transaction small 0).0 ≢ unfinished
bootstrap_scope_in_transaction_ends_example = bootstrap_scope_in_transaction_ends small 0

crawl_pages-IsCounted_example :
    StopsWith (IsCounted small 0 0) (crawl_pages small (enough small) (start small) 0).0
crawl_pages-IsCounted_example = crawl_pages-IsCounted small 0

crawl_pages-IsInScope_example :
    StopsWith (IsInScope small) (crawl_pages small (enough small) (start small) 0).0
crawl_pages-IsInScope_example = crawl_pages-IsInScope small 0

-- `/b/c` under `/b/`
path_matches_prefixes_iff_example :
    (path_matches_prefixes (47 ∷ 98 ∷ 47 ∷ 99 ∷ []) ((47 ∷ 98 ∷ 47 ∷ []) ∷ []) ≡ true)
    ↔ Some
        (λ p. IsBelow (normalized_path (47 ∷ 98 ∷ 47 ∷ 99 ∷ [])) (normalized_path p))
        ((47 ∷ 98 ∷ 47 ∷ []) ∷ [])
path_matches_prefixes_iff_example =
    path_matches_prefixes_iff (47 ∷ 98 ∷ 47 ∷ 99 ∷ []) ((47 ∷ 98 ∷ 47 ∷ []) ∷ [])

-- A page that the storage had and that no link leads to any more.
abbrev gone : Known
gone = record { url = 47 ∷ 120 ∷ []; is_active = true; latest_hash = [] }

-- The seed has no links.
abbrev remembered : Memory ℕ
remembered = record {
  site = record small { library = record paths { extract_links = λ body base. [] } };
  existing_pages = gone ∷ [];
  existing_files = [];
}

abbrev report_of : RunOutcome → Report
report_of (reported r) = r
report_of _ = report remembered (start_again remembered)

unfoldable last_report : Report
last_report = report_of (run_scope_in_transaction remembered 0).0

last_run : (run_scope_in_transaction remembered 0).0 ≡ reported last_report
unfolding last_report run_scope_in_transaction crawl_again visit_again land_again track_page_again
    take_page_links_again take_links_again take_link_again take_document_again queue_page_again
    missing_pages missing_files queue_page is_document_link is_file_url_in_scope
    is_page_url_in_scope path_matches_prefixes get_origin canonicalize_tracked_url
    sanitize_request_url
last_run = refl

last_missing : last_report.missing_pages ≡ (47 ∷ 120 ∷ []) ∷ []
unfolding last_report run_scope_in_transaction crawl_again visit_again land_again track_page_again
    take_page_links_again take_links_again take_link_again take_document_again queue_page_again
    missing_pages missing_files queue_page is_document_link is_file_url_in_scope
    is_page_url_in_scope path_matches_prefixes get_origin canonicalize_tracked_url
    sanitize_request_url
last_missing = refl

run_scope_in_transaction-IsComplete_example :
    IsComplete remembered last_report ⊎ IsCut remembered last_report
run_scope_in_transaction-IsComplete_example =
    run_scope_in_transaction-IsComplete remembered 0 last_report last_run

run_scope_in_transaction_ends_example : (run_scope_in_transaction remembered 0).0 ≢ run_unfinished
run_scope_in_transaction_ends_example = run_scope_in_transaction_ends remembered 0

crawl_again-IsCounted_example :
    StopsWith
      (λ st. IsCounted remembered.site 0 0 st.crawl × IsInScope remembered.site st.crawl)
      (crawl_again remembered (enough remembered.site) (start_again remembered) 0).0
crawl_again-IsCounted_example = crawl_again-IsCounted remembered 0
