-- ===== src/Crawl/Rules.antt =====
-- What every turn of a crawl keeps because each of its changes keeps it
-- (web_listening/blocks/tree_crawler.py, `_bootstrap_scope_in_transaction`).
use web_listening.Prelude.{
  any, or_else, Bool, ℕ, suc, ◌≡◌, refl, arith, true, false, not, ◌||◌, Option, none, some, List,
  [], ◌∷◌, ◌++◌, Text, pos, ltbℤ, length, is_blank, Bool-cases, inl, inr,
}
use web_listening.Crawl.Urls.{
  canonicalize_tracked_url, is_page_url_in_scope, is_file_url_in_scope, is_document_link,
  path_matches_prefixes, root_or,
}
use web_listening.Crawl.Data.{
  RowId, Saved, rollback_required, ordinary, Page, Acquired, accepted, declined, Reply, gave, threw,
  Queued, Crawl, Went, on, out, follow, after, unless, is_among,
}
use web_listening.Crawl.Links.{
  Site, Source, admitted_url, count_off_prefix, settle_file, skip_external_file, admit_file,
  judge_file, request_file, take_document, queue_page, take_document_of, take_link, take_links,
  take_page_links,
}
use web_listening.Crawl.Pages.{tracked}

-- Of the state that comes back, with or without an exception.
abbrev pub Holds : {S : Type 0} → (S → Type 0) → Went S → Type 0
Holds P (on st) = P st
Holds P (out x st) = P st

pub follow-Holds :
    {S W : Type 0} (P : S → Type 0) (went : Went S) (w : W) (next : S → W → Went S × W)
    → Holds P went
    → ((st : S) (v : W) → P st → Holds P (next st v).0)
    → Holds P (follow went w next).0
follow-Holds P (on st) w next h k = k st w h
follow-Holds P (out x st) w next h k = h

pub unless-Holds :
    {S W : Type 0} (P : S → Type 0) (raises : Bool) (st : S) (w : W) (rest : Went S × W)
    → P st
    → Holds P rest.0
    → Holds P (unless raises st w rest).0
unless-Holds P raises st w rest h k = elim (Bool-cases raises) [
  | inl yes' ↦ rw yes' h
  | inr no' ↦ rw no' k
]

pub after-Holds :
    {A S W : Type 0} (P : S → Type 0) (reply : Reply A) (w : W) (st : S) (next : A → W → Went S × W)
    → P st
    → ((a : A) (v : W) → Holds P (next a v).0)
    → Holds P (after reply w st next).0
after-Holds P (gave a) w st next h k = k a w
after-Holds P (threw x) w st next h k = h

-- `P` holds between the links of a page, `Q` of a page that was requested and not yet tracked, `R` of
-- a file that was requested and not yet tracked.
pub record AreKept {W : Type 0} (s : Site W) (P Q R : Crawl → Type 0) : Type 0 where
  pub page_left : (st : Crawl) → Q st → P st
  pub file_left : (st : Crawl) → R st → P st
  pub page_failed :
      (st : Crawl) (url : Text)
      → Q st
      → P (record st { page_failures = st.page_failures ++ (url ∷ []) })
  pub page_external :
      (st : Crawl) → P st → P (record st { skipped_external_pages = suc st.skipped_external_pages })
  pub page_duplicate :
      (st : Crawl)
      → P st
      → P (record st { skipped_duplicate_pages = suc st.skipped_duplicate_pages })
  pub file_failed :
      (st : Crawl) (url : Text)
      → R st
      → P (record st { file_failures = st.file_failures ++ (url ∷ []) })
  pub file_external : (st : Crawl) → P st → P (skip_external_file s st)
  pub file_duplicate :
      (st : Crawl)
      → P st
      → P (record st { skipped_duplicate_files = suc st.skipped_duplicate_files })
  pub off_prefix :
      (st : Crawl)
      → R st
      → R (record st { off_prefix_same_origin_files = suc st.off_prefix_same_origin_files })
  pub page_tracked :
      (st : Crawl) (url : Text) (id : RowId)
      → is_page_url_in_scope s.library s.scope url ≡ true
      → is_among url st.processed_page_urls ≡ false
      → Q st
      → P (tracked s url id st)
  pub file_requested :
      (st : Crawl) (url : Text)
      → is_file_url_in_scope s.library s.scope url ≡ true
      → is_among url st.requested_file_urls ≡ false
      → ltbℤ (pos (length st.requested_file_urls)) s.scope.max_files ≡ true
      → P st
      → R (record st { requested_file_urls = url ∷ st.requested_file_urls })
  pub file_tracked :
      (st : Crawl) (url : Text) (id : RowId)
      → is_file_url_in_scope s.library s.scope url ≡ true
      → R st
      → P (record st {
        files = st.files ++ (id ∷ []);
        processed_file_urls = url ∷ st.processed_file_urls;
      })
  pub page_queued :
      (st : Crawl) (q : Queued) (url : Text) (depth : ℕ)
      → is_page_url_in_scope s.library s.scope url ≡ true
      → q.depth ≡ suc depth
      → ltbℤ (pos depth) s.scope.max_depth ≡ true
      → P st
      → P (record st {
        queued_pages = st.queued_pages ++ (q ∷ []);
        queued_page_urls = url ∷ st.queued_page_urls;
      })

module _ {W : Type 0} (s : Site W) (P Q R : Crawl → Type 0) (k : AreKept s P Q R) where
  settle_file-Holds :
      (link url : Text) (reply : Reply Saved) (w : W) (st : Crawl)
      → is_file_url_in_scope s.library s.scope url ≡ true
      → R st
      → Holds P (settle_file s link url reply w st).0
  settle_file-Holds link url (gave saved) w st i h = k.file_tracked st url saved.id i h
  settle_file-Holds link url (threw (rollback_required x)) w st i h = k.file_left st h
  settle_file-Holds link url (threw (ordinary x)) w st i h = k.file_failed st link h

  pub count_off_prefix-kept : (url : Text) (st : Crawl) → R st → R (count_off_prefix s url st)
  count_off_prefix-kept url st h =
      let fits =
        path_matches_prefixes (root_or (s.library.split url).path) s.scope.allowed_page_prefixes in
      elim (Bool-cases fits) [ inl yes' ↦ rw yes' h | inr no' ↦ rw no' (k.off_prefix st h) ]

  admit_file-Holds :
      (source : Source) (page : RowId) (link : Text) (response : Page) (st : Crawl) (w : W)
      → R st
      → Holds P (admit_file s source page link response st w).0
  admit_file-Holds source page link response st w h =
      let url = admitted_url s link response in
      unless-Holds P (s.library.raises_at (or_else response.final_url link)) st w _
        (k.file_left st h)
        (elim (Bool-cases (is_blank url || not (is_file_url_in_scope s.library s.scope url))) [
          | inl bad ↦ rw bad (k.file_external st (k.file_left st h))
          | inr good ↦ rw good (
              let (reply, w') = s.backend.track_file page url source.url w in
              settle_file-Holds link url reply w' (count_off_prefix s url st) (ground arith)
                (count_off_prefix-kept url st h))
        ])

  judge_file-Holds :
      (source : Source) (page : RowId) (link : Text) (a : Acquired) (st : Crawl) (w : W)
      → R st
      → Holds P (judge_file s source page link a st w).0
  judge_file-Holds source page link (accepted response) st w h =
      admit_file-Holds source page link response st w h
  judge_file-Holds source page link (declined reason) st w h = k.file_failed st link h

  request_file-Holds :
      (source : Source) (page : RowId) (link : Text) (st : Crawl) (w : W)
      → is_file_url_in_scope s.library s.scope link ≡ true
      → is_among link st.requested_file_urls ≡ false
      → ltbℤ (pos (length st.requested_file_urls)) s.scope.max_files ≡ true
      → P st
      → Holds P (request_file s source page link st w).0
  request_file-Holds source page link st w inside new free h =
      let requested = k.file_requested st link inside new free h in
      let st' = record st { requested_file_urls = link ∷ st.requested_file_urls } in
      let (reply, w') = s.backend.acquire_file link w in
      after-Holds P reply w' st' (λ a v. judge_file s source page link a st' v)
        (k.file_left st' requested) (λ a v. judge_file-Holds source page link a st' v requested)

  take_document-Holds :
      (source : Source) (page : RowId) (link : Text) (st : Crawl) (w : W)
      → P st
      → Holds P (take_document s source page link st w).0
  unfolding take_document
  take_document-Holds source page link st w h =
      elim (Bool-cases (is_file_url_in_scope s.library s.scope link)) [
        | inr outside ↦ rw outside (k.file_external st h)
        | inl inside ↦ rw inside (
            let seen =
              is_among link st.processed_file_urls || is_among link st.requested_file_urls in
            elim (Bool-cases seen) [
              | inl old ↦ rw old (k.file_duplicate st h)
              | inr new ↦ rw new (
                  let limit =
                    not s.scope.follow_files
                    || not (ltbℤ (pos (length st.requested_file_urls)) s.scope.max_files) in
                  elim (Bool-cases limit) [
                    | inl full ↦ rw full h
                    | inr free ↦ rw free (
                        request_file-Holds source page link st w inside (ground arith)
                          (ground arith) h)
                  ])
            ])
      ]

  pub queue_page-kept :
      (source : Source) (link canonical : Text) (st : Crawl)
      → P st
      → P (queue_page s source link canonical st)
  unfolding queue_page
  queue_page-kept source link canonical st h =
      elim (Bool-cases (is_page_url_in_scope s.library s.scope canonical)) [
        | inr outside ↦ rw outside (k.page_external st h)
        | inl inside ↦ rw inside (elim (Bool-cases (ltbℤ (pos source.depth) s.scope.max_depth)) [
          | inr deep ↦ rw deep h
          | inl shallow ↦ rw shallow (
              let seen =
                is_among canonical st.queued_page_urls
                || is_among canonical st.processed_page_urls in
              elim (Bool-cases seen) [
                | inl old ↦ rw old (k.page_duplicate st h)
                | inr new ↦ rw new (k.page_queued st _ canonical source.depth inside refl shallow h)
              ])
        ])
      ]

  take_document_of-Holds :
      (source : Source) (tracked_page : Option RowId) (link : Text) (st : Crawl) (w : W)
      → P st
      → Holds P (take_document_of s source tracked_page link st w).0
  take_document_of-Holds source none link st w h = h
  take_document_of-Holds source (some page) link st w h =
      take_document-Holds source page link st w h

  take_link-Holds :
      (source : Source) (link : Text) (st : Crawl) (w : W)
      → P st
      → Holds P (take_link s source link st w).0
  unfolding take_link
  take_link-Holds source link st w h =
      elim (Bool-cases (is_blank (canonicalize_tracked_url s.library link))) [
        | inl blank ↦ rw blank h
        | inr good ↦ rw good (elim (Bool-cases (is_document_link s.library link)) [
          | inl document ↦ rw document (
              take_document_of-Holds source source.tracked_page
                (canonicalize_tracked_url s.library link) st w h)
          | inr page ↦
              rw page (queue_page-kept source link (canonicalize_tracked_url s.library link) st h)
        ])
      ]

  pub take_links-Holds :
      (source : Source) (links : List Text) (st : Crawl) (w : W)
      → P st
      → Holds P (take_links s source links st w).0
  unfolding take_links
  take_links-Holds source [] st w h = h
  take_links-Holds source (link ∷ links) st w h =
      let (went, w') = take_link s source link st w in
      follow-Holds P went w' (take_links s source links) (take_link-Holds source link st w h)
        (λ st' v h'. take_links-Holds source links st' v h')

  pub take_page_links-Holds :
      (source : Source) (links : List Text) (st : Crawl) (w : W)
      → P st
      → Holds P (take_page_links s source links st w).0
  unfolding take_page_links
  take_page_links-Holds source links st w h =
      unless-Holds P (any s.library.raises_at links) st w _ h (take_links-Holds source links st w h)
