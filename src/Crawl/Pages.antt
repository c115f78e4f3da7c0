-- ===== src/Crawl/Pages.antt =====
-- The pages of a crawl, breadth first (web_listening/blocks/tree_crawler.py,
-- `_bootstrap_scope_in_transaction`).
use web_listening.Prelude.{
  ℕ, zero, suc, Bool, ◌&&◌, Option, none, some, List, [], ◌∷◌, ◌++◌, Text, pos, clamp, ltbℤ, length,
  is_blank, or_else, same_text, if◌then◌else◌, ◌==◌,
}
use web_listening.Crawl.Urls.{sanitize_request_url, canonicalize_tracked_url, is_page_url_in_scope}
use web_listening.Crawl.Data.{
  RowId, Exception, rollback_required, ordinary, Page, Acquired, accepted, declined, Reply, gave,
  threw, Queued, Crawl, Went, on, out, follow, after, unless, is_among, find_id,
}
use web_listening.Crawl.Links.{Site, Source, take_page_links}

module _ {W : Type 0} (s : Site W) where
  abbrev pub seed_canonical_url : Text
  seed_canonical_url = canonicalize_tracked_url s.library s.scope.seed_url

  abbrev pub add_edge : Option RowId → RowId → Crawl → W → Went Crawl × W
  add_edge none to_page st w = (on st, w)
  add_edge (some from_page) to_page st w =
      let (reply, w') = s.backend.add_page_edge from_page to_page w in
      after reply w' st (λ _ v. (on st, v))

  abbrev pub edge_to : Option RowId → Option RowId → Crawl → W → Went Crawl × W
  edge_to from_page none st w = (on st, w)
  edge_to from_page (some to_page) st w = add_edge from_page to_page st w

  -- A page that was tracked before.
  abbrev pub skip_duplicate : Queued → Text → Crawl → W → Went Crawl × W
  skip_duplicate q url st w =
      edge_to q.from_page (find_id url st.page_id_by_url)
        (record st { skipped_duplicate_pages = suc st.skipped_duplicate_pages }) w

  abbrev pub tracked : Text → RowId → Crawl → Crawl
  tracked url id st = record st {
    pages = st.pages ++ (id ∷ []);
    processed_page_urls = url ∷ st.processed_page_urls;
    page_id_by_url = (url, id) ∷ st.page_id_by_url;
  }

  abbrev pub links_of : Text → Page → List Text
  links_of request_url page = s.library.extract_links page.body (or_else page.final_url request_url)

  abbrev pub source_of : Queued → Text → Option RowId → Source
  source_of q url id = record { depth = q.depth; url = url; tracked_page = id }

  -- A new page in scope: it is tracked, joined to the page it was found on, and its links are read.
  unfoldable pub track_page : Queued → Text → Text → Page → Crawl → W → Went Crawl × W
  track_page q request_url url page st w =
      let (reply, w') = s.backend.save_page url q.depth page w in
      after reply w' st (λ saved v.
        let (went, v') = add_edge q.from_page saved.id (tracked url saved.id st) v in
        follow went v'
          (take_page_links s (source_of q url (some saved.id)) (links_of request_url page)))

  -- The seed, where it is out of scope: only its links are read.
  unfoldable pub enter : Queued → Text → Text → Page → Crawl → W → Went Crawl × W
  enter q request_url url page st w =
      take_page_links s (source_of q url none) (links_of request_url page) st w

  -- `extract_links`, before anything of the page is written.
  abbrev pub read : Text → Page → Crawl → W → Went Crawl × W → Went Crawl × W
  read request_url page st w rest =
      unless (s.library.raises_in page.body (or_else page.final_url request_url)) st w rest

  -- An accepted page, by its canonical URL.
  unfoldable pub land : Queued → Text → Page → Crawl → W → Went Crawl × W
  land q request_url page st w =
      let url = canonicalize_tracked_url s.library (or_else page.final_url request_url) in
      let in_scope = is_page_url_in_scope s.library s.scope url in
      if is_blank url
      then (on st, w)
      else if in_scope
      then (if is_among url st.processed_page_urls
          then skip_duplicate q url st w
          else read request_url page st w (track_page q request_url url page st w))
      else if same_text url seed_canonical_url && (q.depth == 0)
      then read request_url page st w (enter q request_url url page st w)
      else (on (record st { skipped_external_pages = suc st.skipped_external_pages }), w)

  abbrev pub judge_page : Queued → Text → Acquired → Crawl → W → Went Crawl × W
  judge_page q request_url (accepted page) st w =
      unless (s.library.raises_at (or_else page.final_url request_url)) st w
        (land q request_url page st w)
  judge_page q request_url (declined reason) st w =
      (on (record st { page_failures = st.page_failures ++ (request_url ∷ []) }), w)

  -- The first request takes the seed as it is spelled.
  abbrev pub request_url_of : Queued → ℕ → Text
  request_url_of q requested =
      if requested == 0 then q.url else or_else (sanitize_request_url s.library q.url) q.url

  -- The body of the outer loop, for the page that was taken from the queue.
  unfoldable pub visit : Queued → Crawl → W → Went Crawl × W
  visit q st w =
      let request_url = request_url_of q st.requested_pages in
      let st' = record st { requested_pages = suc st.requested_pages } in
      let (reply, w') = s.backend.acquire_page request_url w in
      after reply w' st' (λ acquired v. judge_page q request_url acquired st' v)

  abbrev pub may_request : Crawl → Bool
  may_request st = ltbℤ (pos st.requested_pages) s.scope.max_pages

-- How the loop ends: `while` no longer holds, or an exception, or the fuel is out.
pub data Loop (S : Type 0) : Type 0 where
  ended : S → Loop S
  broke : Exception → S → Loop S
  ran_out : Loop S

abbrev pub resume : {S W : Type 0} → Went S → W → (S → W → Loop S × W) → Loop S × W
resume (on st) w next = next st w
resume (out x st) w next = (broke x st, w)

module _ {W : Type 0} (s : Site W) where
  -- One test of the loop, and its body.
  abbrev pub turn : List Queued → Crawl → W → (Crawl → W → Loop Crawl × W) → Loop Crawl × W
  turn [] st w next = (ended st, w)
  turn (q ∷ qs) st w next =
      let (went, w') = visit s q (record st { queued_pages = qs }) w in
      if may_request s st then resume went w' next else (ended st, w)

  -- `while queued_pages and requested_pages < max_pages`.
  unfoldable pub crawl_pages : (fuel : ℕ) → Crawl → W → Loop Crawl × W
  crawl_pages zero st w = (ran_out, w)
  crawl_pages (suc fuel) st w = turn st.queued_pages st w (crawl_pages fuel)

  -- The state before the loop; the seed is queued as it is spelled.
  abbrev pub start : Crawl
  start = record {
    queued_pages = record { url = s.scope.seed_url; depth = 0; from_page = none } ∷ [];
    queued_page_urls = seed_canonical_url s ∷ [];
    processed_page_urls = [];
    processed_file_urls = [];
    requested_pages = 0;
    requested_file_urls = [];
    page_id_by_url = [];
    pages = [];
    files = [];
    page_failures = [];
    file_failures = [];
    skipped_external_pages = 0;
    skipped_external_files = 0;
    skipped_duplicate_pages = 0;
    skipped_duplicate_files = 0;
    off_prefix_same_origin_files = 0;
  }

  -- Each turn requests one page, so the loop has at most `max_pages` turns and one test more.
  abbrev pub enough : ℕ
  enough = suc (clamp s.scope.max_pages)

-- What `_bootstrap_scope_in_transaction` does after its run is made: it returns its result, or it
-- raises what requires a rollback, or a `RuntimeError` about another exception.
pub data Bootstrap : Type 0 where
  returned : Crawl → Bootstrap
  raised_rollback raised_ordinary : ℕ → Bootstrap
  crawl_failed : ℕ → Bootstrap
  unfinished : Bootstrap

module _ {W : Type 0} (s : Site W) where
  -- The exception that leaves `except Exception`.
  abbrev pub failed_with : ℕ → Reply (Unit {0}) → Bootstrap
  failed_with x (gave u) = crawl_failed x
  failed_with x (threw (rollback_required y)) = raised_rollback y
  failed_with x (threw (ordinary y)) = raised_ordinary y

  -- `except Exception`: the run's row is closed, unless that raises too.
  abbrev pub fail : Exception → Crawl → W → Bootstrap × W
  fail (rollback_required x) st w = (raised_rollback x, w)
  fail (ordinary x) st w =
      let (reply, w') = s.backend.fail_run (length st.pages) (length st.files) w in
      (failed_with x reply, w')

  abbrev pub completed_with : Crawl → Reply (Unit {0}) → W → Bootstrap × W
  completed_with st (gave u) w = (returned st, w)
  completed_with st (threw x) w = fail x st w

  abbrev pub complete : Crawl → W → Bootstrap × W
  complete st w =
      let (reply, w') = s.backend.complete_run (length st.pages) (length st.files) w in
      completed_with st reply w'

  abbrev pub finish_loop : Loop Crawl → W → Bootstrap × W
  finish_loop (ended st) w = complete st w
  finish_loop (broke x st) w = fail x st w
  finish_loop ran_out w = (unfinished, w)

  unfoldable pub bootstrap_scope_in_transaction : W → Bootstrap × W
  bootstrap_scope_in_transaction w =
      let (loop, w') = crawl_pages s (enough s) (start s) w in finish_loop loop w'
