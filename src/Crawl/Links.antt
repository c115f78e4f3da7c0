-- ===== src/Crawl/Links.antt =====
-- The links of one page: documents are acquired at once, pages are queued
-- (web_listening/blocks/tree_crawler.py, the inner loop of `_bootstrap_scope_in_transaction`).
use web_listening.Prelude.{
  ℕ, suc, not, ◌||◌, Option, none, some, List, [], ◌∷◌, ◌++◌, Text, pos, ltbℤ, length, is_blank,
  any, or_else, if◌then◌else◌,
}
use web_listening.Crawl.Urls.{
  UrlLibrary, Scope, sanitize_request_url, canonicalize_tracked_url, path_matches_prefixes,
  is_page_url_in_scope, is_file_url_in_scope, is_document_link, root_or,
}
use web_listening.Crawl.Data.{
  RowId, Saved, rollback_required, ordinary, Page, Acquired, accepted, declined, Reply, gave, threw,
  Backend, Crawl, Went, on, out, follow, after, unless, is_among,
}

-- What is fixed while a crawl runs.
pub record Site (W : Type 0) : Type 0 where
  pub library : UrlLibrary
  pub scope : Scope
  pub backend : Backend W

-- The page whose links are read: its depth, its canonical URL, and its row where it is in scope.
pub record Source : Type 0 where
  pub depth : ℕ
  pub url : Text
  pub tracked_page : Option RowId

module _ {W : Type 0} (s : Site W) where
  abbrev pub admitted_url : Text → Page → Text
  admitted_url link page = canonicalize_tracked_url s.library (or_else page.final_url link)

  -- `result.off_prefix_same_origin_files += 1`, where no page prefix fits.
  abbrev pub count_off_prefix : Text → Crawl → Crawl
  count_off_prefix url st =
      if path_matches_prefixes (root_or (s.library.split url).path) s.scope.allowed_page_prefixes
      then st
      else record st { off_prefix_same_origin_files = suc st.off_prefix_same_origin_files }

  -- `_track_file` and what becomes of its outcome.
  abbrev pub settle_file : Text → Text → Reply Saved → W → Crawl → Went Crawl × W
  settle_file link url (gave saved) w st = (
    on (record st {
      files = st.files ++ (saved.id ∷ []);
      processed_file_urls = url ∷ st.processed_file_urls;
    }),
    w,
  )
  settle_file link url (threw (rollback_required x)) w st = (out (rollback_required x) st, w)
  settle_file link url (threw (ordinary x)) w st =
      (on (record st { file_failures = st.file_failures ++ (link ∷ []) }), w)

  abbrev pub skip_external_file : Crawl → Crawl
  skip_external_file st = record st { skipped_external_files = suc st.skipped_external_files }

  -- A document that the gateway accepted.
  abbrev pub admit_file : Source → RowId → Text → Page → Crawl → W → Went Crawl × W
  admit_file source page link response st w =
      let url = admitted_url link response in
      unless (s.library.raises_at (or_else response.final_url link)) st w (
        if is_blank url || not (is_file_url_in_scope s.library s.scope url)
        then (on (skip_external_file st), w)
        else let (reply, w') = s.backend.track_file page url source.url w in
          settle_file link url reply w' (count_off_prefix url st))

  abbrev pub judge_file : Source → RowId → Text → Acquired → Crawl → W → Went Crawl × W
  judge_file source page link (accepted response) st w = admit_file source page link response st w
  judge_file source page link (declined reason) st w =
      (on (record st { file_failures = st.file_failures ++ (link ∷ []) }), w)

  abbrev pub request_file : Source → RowId → Text → Crawl → W → Went Crawl × W
  request_file source page link st w =
      let st' = record st { requested_file_urls = link ∷ st.requested_file_urls } in
      let (reply, w') = s.backend.acquire_file link w in
      after reply w' st' (λ acquired v. judge_file source page link acquired st' v)

  -- A link to a document, in its canonical spelling, on a page in scope.
  unfoldable pub take_document : Source → RowId → Text → Crawl → W → Went Crawl × W
  take_document source page link st w =
      if not (is_file_url_in_scope s.library s.scope link)
      then (on (skip_external_file st), w)
      else if is_among link st.processed_file_urls || is_among link st.requested_file_urls
      then (on (record st { skipped_duplicate_files = suc st.skipped_duplicate_files }), w)
      else if not s.scope.follow_files
          || not (ltbℤ (pos (length st.requested_file_urls)) s.scope.max_files)
      then (on st, w)
      else request_file source page link st w

  -- A link to a page; `link` is as the page spells it, `canonical` is canonical.
  unfoldable pub queue_page : Source → (link : Text) → (canonical : Text) → Crawl → Crawl
  queue_page source link canonical st =
      if not (is_page_url_in_scope s.library s.scope canonical)
      then record st { skipped_external_pages = suc st.skipped_external_pages }
      else if not (ltbℤ (pos source.depth) s.scope.max_depth)
      then st
      else if is_among canonical st.queued_page_urls || is_among canonical st.processed_page_urls
      then record st { skipped_duplicate_pages = suc st.skipped_duplicate_pages }
      else record st {
        queued_pages =
            st.queued_pages
            ++ (record {
              url = or_else (sanitize_request_url s.library link) link;
              depth = suc source.depth;
              from_page = source.tracked_page;
            }
                ∷ []);
        queued_page_urls = canonical ∷ st.queued_page_urls;
      }

  -- The documents of a page that is not tracked are left alone.
  abbrev pub take_document_of : Source → Option RowId → Text → Crawl → W → Went Crawl × W
  take_document_of source none link st w = (on st, w)
  take_document_of source (some page) link st w = take_document source page link st w

  unfoldable pub take_link : Source → Text → Crawl → W → Went Crawl × W
  take_link source link st w =
      let canonical = canonicalize_tracked_url s.library link in
      if is_blank canonical
      then (on st, w)
      else if is_document_link s.library link
      then take_document_of source source.tracked_page canonical st w
      else (on (queue_page source link canonical st), w)

  unfoldable pub take_links : Source → List Text → Crawl → W → Went Crawl × W
  take_links source [] st w = (on st, w)
  take_links source (link ∷ links) st w =
      let (went, w') = take_link source link st w in follow went w' (take_links source links)

  -- The links of a page; `find_document_links` parses all of them first.
  unfoldable pub take_page_links : Source → List Text → Crawl → W → Went Crawl × W
  take_page_links source links st w =
      unless (any s.library.raises_at links) st w (take_links source links st w)
