-- ===== src/Crawl/Runs.antt =====
-- An incremental run over a scope: its loop, and what it reports as missing
-- (web_listening/blocks/tree_crawler.py, `_run_scope_in_transaction`).
use web_listening.Prelude.{
  sort_texts, ℕ, zero, suc, Bool, true, false, not, ◌&&◌, Option, none, some, List, [], ◌∷◌, ◌++◌,
  map, select, Text, is_blank, or_else, same_text, if◌then◌else◌, ◌==◌, length,
}
use web_listening.Crawl.Urls.{canonicalize_tracked_url, is_page_url_in_scope}
use web_listening.Crawl.Data.{
  RowId, Exception, rollback_required, ordinary, Page, Refusal, Acquired, accepted, declined, Reply,
  gave, threw, Queued, Went, on, follow, after, unless, is_among, find_id,
}
use web_listening.Crawl.Links.{Site}
use web_listening.Crawl.Pages.{
  tracked, links_of, source_of, request_url_of, may_request, seed_canonical_url, start, enough,
  Loop, ended, broke, ran_out, resume,
}
use web_listening.Crawl.Revisit.{
  Known, Revisit, find_known, incomplete, update, take_page_links_again,
}

-- What is fixed during a run: the site, and the rows that the storage had at its start.
pub record Memory (W : Type 0) : Type 0 where
  pub site : Site W
  pub existing_pages : List Known
  pub existing_files : List Known

-- `xs.add(x)`
abbrev pub add_new : Text → List Text → List Text
add_new x xs = if is_among x xs then xs else x ∷ xs

module _ {W : Type 0} (m : Memory W) where
  abbrev pub edge_again : Option RowId → Option RowId → Revisit → W → Went Revisit × W
  edge_again none to_page st w = (on st, w)
  edge_again (some from_page) none st w = (on st, w)
  edge_again (some from_page) (some to_page) st w =
      let (reply, w') = m.site.backend.add_page_edge from_page to_page w in
      after reply w' st (λ _ v. (on st, v))

  abbrev pub skip_duplicate_again : Queued → Text → Revisit → W → Went Revisit × W
  skip_duplicate_again q url st w =
      edge_again q.from_page (find_id url st.crawl.page_id_by_url)
        (update (λ c. record c { skipped_duplicate_pages = suc c.skipped_duplicate_pages }) st) w

  abbrev pub note_page : Option Known → Text → Text → Revisit → Revisit
  note_page none url hash st = record st { new_pages = st.new_pages ++ (url ∷ []) }
  note_page (some k) url hash st =
      if not (is_blank k.latest_hash) && not (same_text k.latest_hash hash)
      then record st { changed_pages = st.changed_pages ++ (url ∷ []) }
      else st

  unfoldable pub track_page_again : Queued → Text → Text → Page → Revisit → W → Went Revisit × W
  track_page_again q request_url url page st w =
      let (reply, w') = m.site.backend.save_page url q.depth page w in
      after reply w' st (λ saved v.
        let st' =
          note_page (find_known url m.existing_pages) url saved.hash
            (update (tracked m.site url saved.id) st) in
        let (went, v') = edge_again q.from_page (some saved.id) st' v in
        follow went v' (
          take_page_links_again m.site m.existing_files (source_of m.site q url (some saved.id))
            (links_of m.site request_url page)))

  abbrev pub enter_again : Queued → Text → Text → Page → Revisit → W → Went Revisit × W
  enter_again q request_url url page st w =
      take_page_links_again m.site m.existing_files (source_of m.site q url none)
        (links_of m.site request_url page) st w

  abbrev pub read_again : Text → Page → Revisit → W → Went Revisit × W → Went Revisit × W
  read_again request_url page st w rest =
      unless (m.site.library.raises_in page.body (or_else page.final_url request_url)) st w rest

  unfoldable pub land_again : Queued → Text → Page → Revisit → W → Went Revisit × W
  land_again q request_url page st w =
      let url = canonicalize_tracked_url m.site.library (or_else page.final_url request_url) in
      if is_blank url
      then (on (incomplete st), w)
      else if is_page_url_in_scope m.site.library m.site.scope url
      then (if is_among url st.crawl.processed_page_urls
          then skip_duplicate_again q url st w
          else read_again request_url page st w (track_page_again q request_url url page st w))
      else if same_text url (seed_canonical_url m.site) && (q.depth == 0)
      then read_again request_url page st w (enter_again q request_url url page st w)
      else (
        on (
            incomplete (
              update (λ c. record c { skipped_external_pages = suc c.skipped_external_pages }) st)),
        w,
      )

  -- A page that the storage has, that lies in the scope, and that was asked for and answered as not
  -- found under its own URL.
  abbrev pub is_confirmed_missing : Text → Refusal → Bool
  is_confirmed_missing request_url refusal =
      let url = canonicalize_tracked_url m.site.library request_url in
      refusal.is_not_found
      && not (is_blank refusal.final_url)
      && same_text (canonicalize_tracked_url m.site.library refusal.final_url) url
      && is_among url (map (λ k. k.url) m.existing_pages)
      && is_page_url_in_scope m.site.library m.site.scope url

  abbrev pub decline : Text → Refusal → Revisit → Revisit
  decline request_url refusal st =
      let st' =
        incomplete
          (update (λ c. record c { page_failures = c.page_failures ++ (request_url ∷ []) }) st) in
      if is_confirmed_missing request_url refusal
      then record st' {
        confirmed_missing_pages =
            add_new (canonicalize_tracked_url m.site.library request_url)
              st.confirmed_missing_pages;
      }
      else st'

  abbrev pub judge_page_again : Queued → Text → Acquired → Revisit → W → Went Revisit × W
  judge_page_again q request_url (accepted page) st w =
      unless (m.site.library.raises_at (or_else page.final_url request_url)) st w
        (land_again q request_url page st w)
  judge_page_again q request_url (declined refusal) st w =
      unless (not (is_blank refusal.final_url) && m.site.library.raises_at refusal.final_url) st w
        (on (decline request_url refusal st), w)

  unfoldable pub visit_again : Queued → Revisit → W → Went Revisit × W
  visit_again q st w =
      let request_url = request_url_of m.site q st.crawl.requested_pages in
      let st' = update (λ c. record c { requested_pages = suc c.requested_pages }) st in
      let (reply, w') = m.site.backend.acquire_page request_url w in
      after reply w' st' (λ acquired v. judge_page_again q request_url acquired st' v)

  abbrev pub turn_again :
      List Queued → Revisit → W → (Revisit → W → Loop Revisit × W) → Loop Revisit × W
  turn_again [] st w next = (ended st, w)
  turn_again (q ∷ qs) st w next =
      let (went, w') = visit_again q (update (λ c. record c { queued_pages = qs }) st) w in
      if may_request m.site st.crawl then resume went w' next else (ended st, w)

  unfoldable pub crawl_again : (fuel : ℕ) → Revisit → W → Loop Revisit × W
  crawl_again zero st w = (ran_out, w)
  crawl_again (suc fuel) st w = turn_again st.crawl.queued_pages st w (crawl_again fuel)

  abbrev pub start_again : Revisit
  start_again = record {
    crawl = start m.site;
    confirmed_missing_pages = [];
    traversal_complete = true;
    new_pages = [];
    changed_pages = [];
    new_files = [];
    changed_files = [];
  }

-- The rows that are active and whose URL was not processed.
abbrev pub unseen : List Known → List Text → List Text
unseen known processed =
    map (λ k. k.url) (select (λ k. k.is_active && not (is_among k.url processed)) known)

abbrev pub has_more : List Queued → Bool
has_more [] = false
has_more (q ∷ qs) = true

module _ {W : Type 0} (m : Memory W) where
  -- Whether the run has followed every link of the scope: nothing failed or was cut, and nothing waits.
  abbrev pub has_seen_all : Revisit → Bool
  has_seen_all st = st.traversal_complete && not (has_more st.crawl.queued_pages)

  unfoldable pub missing_pages : Revisit → List Text
  missing_pages st =
      if has_seen_all st
      then sort_texts (unseen m.existing_pages st.crawl.processed_page_urls)
      else sort_texts st.confirmed_missing_pages

  unfoldable pub missing_files : Revisit → List Text
  missing_files st =
      if has_seen_all st
      then sort_texts (unseen m.existing_files st.crawl.processed_file_urls)
      else []

-- What a run reports beside its lists of new and changed pages and files.
pub record Report : Type 0 where
  pub seen : Revisit
  pub missing_pages : List Text
  pub missing_files : List Text

-- How a run ends: it returns, or it raises what requires a rollback, another exception of the storage,
-- or a `RuntimeError` about an exception.
pub data RunOutcome : Type 0 where
  reported : Report → RunOutcome
  rolled_back raised_again run_failed : ℕ → RunOutcome
  run_unfinished : RunOutcome

module _ {W : Type 0} (m : Memory W) where
  abbrev pub report : Revisit → Report
  report st = record {
    seen = st;
    missing_pages = missing_pages m st;
    missing_files = missing_files m st;
  }

  -- The exception that leaves `except Exception`.
  abbrev pub run_failed_with : ℕ → Reply (Unit {0}) → RunOutcome
  run_failed_with x (gave u) = run_failed x
  run_failed_with x (threw (rollback_required y)) = rolled_back y
  run_failed_with x (threw (ordinary y)) = raised_again y

  abbrev pub fail_again : Exception → Revisit → W → RunOutcome × W
  fail_again (rollback_required x) st w = (rolled_back x, w)
  fail_again (ordinary x) st w =
      let (reply, w') = m.site.backend.fail_run (length st.crawl.pages) (length st.crawl.files) w in
      (run_failed_with x reply, w')

  abbrev pub completed_again : Revisit → Reply (Unit {0}) → W → RunOutcome × W
  completed_again st (gave u) w = (reported (report st), w)
  completed_again st (threw x) w = fail_again x st w

  abbrev pub complete_again : Revisit → W → RunOutcome × W
  complete_again st w =
      let (reply, w') =
        m.site.backend.complete_run (length st.crawl.pages) (length st.crawl.files) w in
      completed_again st reply w'

  abbrev pub finish_again : Loop Revisit → W → RunOutcome × W
  finish_again (ended st) w = complete_again st w
  finish_again (broke x st) w = fail_again x st w
  finish_again ran_out w = (run_unfinished, w)

  unfoldable pub run_scope_in_transaction : W → RunOutcome × W
  run_scope_in_transaction w =
      let (loop, w') = crawl_again m (enough m.site) (start_again m) w in finish_again loop w'
