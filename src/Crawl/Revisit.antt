-- ===== src/Crawl/Revisit.antt =====
-- The links of one page in an incremental run: as in a bootstrap, and the run notes what is new, what
-- has changed, and whether it has seen everything (web_listening/blocks/tree_crawler.py, the inner
-- loop of `_run_scope_in_transaction`).
use web_listening.Prelude.{
  suc, Bool, false, not, ◌&&◌, ◌||◌, Option, none, some, List, [], ◌∷◌, ◌++◌, Text, pos, ltbℤ,
  length, is_blank, any, or_else, same_text, if◌then◌else◌,
}
use web_listening.Crawl.Urls.{
  canonicalize_tracked_url, is_page_url_in_scope, is_file_url_in_scope, is_document_link,
}
use web_listening.Crawl.Data.{
  RowId, rollback_required, ordinary, Page, Acquired, accepted, declined, Saved, Reply, gave, threw,
  Crawl, Went, on, out, follow, after, unless, is_among,
}
use web_listening.Crawl.Links.{
  Site, Source, admitted_url, count_off_prefix, skip_external_file, queue_page,
}

-- A row that the storage has of a page or a file: its canonical URL, whether it is active, and the hash
-- of its latest content.
pub record Known : Type 0 where
  pub url : Text
  pub is_active : Bool
  pub latest_hash : Text

-- The local variables of an incremental run; `crawl` are those that a bootstrap has too.
pub record Revisit : Type 0 where
  pub crawl : Crawl
  pub confirmed_missing_pages : List Text
  pub traversal_complete : Bool
  pub new_pages : List Text
  pub changed_pages : List Text
  pub new_files : List Text
  pub changed_files : List Text

abbrev pub find_known : Text → List Known → Option Known
find_known url [] = none
find_known url (k ∷ ks) = if same_text k.url url then some k else find_known url ks

-- `previous and current and previous != current`
abbrev pub has_changed : Text → Text → Bool
has_changed previous current =
    not (is_blank previous) && not (is_blank current) && not (same_text previous current)

-- `traversal_complete = False`
abbrev pub incomplete : Revisit → Revisit
incomplete st = record st { traversal_complete = false }

abbrev pub update : (Crawl → Crawl) → Revisit → Revisit
update f st = record st { crawl = f st.crawl }

abbrev pub fail_file : Text → Revisit → Revisit
fail_file link st =
    incomplete (update (λ c. record c { file_failures = c.file_failures ++ (link ∷ []) }) st)

module _ {W : Type 0} (s : Site W) (existing_files : List Known) where
  abbrev pub note_file : Option Known → Text → Text → Revisit → Revisit
  note_file none url hash st = record st { new_files = st.new_files ++ (url ∷ []) }
  note_file (some k) url hash st =
      if has_changed k.latest_hash hash
      then record st { changed_files = st.changed_files ++ (url ∷ []) }
      else st

  abbrev pub add_file : Text → RowId → Revisit → Revisit
  add_file url id st =
      update
        (λ c. record c {
          files = c.files ++ (id ∷ []);
          processed_file_urls = url ∷ c.processed_file_urls;
        })
        st

  abbrev pub settle_file_again : Text → Text → Reply Saved → W → Revisit → Went Revisit × W
  settle_file_again link url (gave saved) w st =
      (on (note_file (find_known url existing_files) url saved.hash (add_file url saved.id st)), w)
  settle_file_again link url (threw (rollback_required x)) w st = (out (rollback_required x) st, w)
  settle_file_again link url (threw (ordinary x)) w st = (on (fail_file link st), w)

  abbrev pub admit_file_again : Source → RowId → Text → Page → Revisit → W → Went Revisit × W
  admit_file_again source page link response st w =
      let url = admitted_url s link response in
      unless (s.library.raises_at (or_else response.final_url link)) st w (
        if is_blank url || not (is_file_url_in_scope s.library s.scope url)
        then (on (incomplete (update (skip_external_file s) st)), w)
        else let (reply, w') = s.backend.track_file page url source.url w in
          settle_file_again link url reply w' (update (count_off_prefix s url) st))

  abbrev pub judge_file_again : Source → RowId → Text → Acquired → Revisit → W → Went Revisit × W
  judge_file_again source page link (accepted response) st w =
      admit_file_again source page link response st w
  judge_file_again source page link (declined refusal) st w = (on (fail_file link st), w)

  abbrev pub request_file_again : Source → RowId → Text → Revisit → W → Went Revisit × W
  request_file_again source page link st w =
      let st' = update (λ c. record c { requested_file_urls = link ∷ c.requested_file_urls }) st in
      let (reply, w') = s.backend.acquire_file link w in
      after reply w' st' (λ acquired v. judge_file_again source page link acquired st' v)

  unfoldable pub take_document_again : Source → RowId → Text → Revisit → W → Went Revisit × W
  take_document_again source page link st w =
      if not (is_file_url_in_scope s.library s.scope link)
      then (on (update (skip_external_file s) st), w)
      else if is_among link st.crawl.processed_file_urls
          || is_among link st.crawl.requested_file_urls
      then (
        on (update (λ c. record c { skipped_duplicate_files = suc c.skipped_duplicate_files }) st),
        w,
      )
      else if not s.scope.follow_files
          || not (ltbℤ (pos (length st.crawl.requested_file_urls)) s.scope.max_files)
      then (on (incomplete st), w)
      else request_file_again source page link st w

  -- As in a bootstrap; a page that is too deep is left out of the traversal.
  unfoldable pub queue_page_again : Source → (link : Text) → (canonical : Text) → Revisit → Revisit
  queue_page_again source link canonical st =
      let queued = update (queue_page s source link canonical) st in
      if is_page_url_in_scope s.library s.scope canonical
        && not (ltbℤ (pos source.depth) s.scope.max_depth)
      then incomplete queued
      else queued

  abbrev pub take_document_of_again : Source → Option RowId → Text → Revisit → W → Went Revisit × W
  take_document_of_again source none link st w = (on st, w)
  take_document_of_again source (some page) link st w = take_document_again source page link st w

  unfoldable pub take_link_again : Source → Text → Revisit → W → Went Revisit × W
  take_link_again source link st w =
      let canonical = canonicalize_tracked_url s.library link in
      if is_blank canonical
      then (on st, w)
      else if is_document_link s.library link
      then take_document_of_again source source.tracked_page canonical st w
      else (on (queue_page_again source link canonical st), w)

  unfoldable pub take_links_again : Source → List Text → Revisit → W → Went Revisit × W
  take_links_again source [] st w = (on st, w)
  take_links_again source (link ∷ links) st w =
      let (went, w') = take_link_again source link st w in
      follow went w' (take_links_again source links)

  unfoldable pub take_page_links_again : Source → List Text → Revisit → W → Went Revisit × W
  take_page_links_again source links st w =
      unless (any s.library.raises_at links) st w (take_links_again source links st w)
