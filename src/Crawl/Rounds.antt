-- ===== src/Crawl/Rounds.antt =====
-- Whole turns of an incremental run, and the loop of them
-- (web_listening/blocks/tree_crawler.py, `_run_scope_in_transaction`).
use mathlib.Core.Path.{subst}
use web_listening.Prelude.{
  any, sym, All, ◌≡◌, ◌∙◌, refl, arith, not, ◌&&◌, ◌||◌, Option, none, some, List, [], ◌∷◌, Text,
  pos, ltbℤ, length, is_blank, Bool-cases, inl, inr,
}
use web_listening.Crawl.Urls.{
  canonicalize_tracked_url, is_page_url_in_scope, is_file_url_in_scope, is_document_link,
}
use web_listening.Crawl.Data.{RowId, Crawl, is_among}
use web_listening.Crawl.Links.{Source, queue_page}
use web_listening.Crawl.Revisit.{
  Revisit, take_document_again, queue_page_again, take_document_of_again, take_link_again,
  take_links_again, take_page_links_again,
}
use web_listening.Crawl.Runs.{Memory}
use web_listening.Crawl.Rules.{Holds, follow-Holds, unless-Holds, AreKept, queue_page-kept}
use web_listening.Crawl.Again.{
  IsTold, IsNotFound, Both, IsTold-incomplete, request_file_again-Holds,
}

module _ {W : Type 0} (m : Memory W) (P Q R : Crawl → Type 0) (k : AreKept m.site P Q R) where
  -- The variables that only a run has are as before.
  pub IsTold-as_before :
      (st : Revisit) (c : Crawl)
      → IsTold m st
      → c.page_failures ≡ st.crawl.page_failures
      → c.file_failures ≡ st.crawl.file_failures
      → IsTold m (record st { crawl = c })
  IsTold-as_before st c h e f = record {
    complete = λ t. (e ∙ (h.complete t).0, f ∙ (h.complete t).1);
    confirmed =
        subst (λ failures. All (IsNotFound m failures) st.confirmed_missing_pages) (sym e)
          h.confirmed;
  }

  take_document_again-Holds :
      (source : Source) (page : RowId) (link : Text) (st : Revisit) (w : W)
      → Both m P Q R k P st
      → Holds
          (Both m P Q R k P)
          (take_document_again m.site m.existing_files source page link st w).0
  unfolding take_document_again
  take_document_again-Holds source page link st w h =
      elim (Bool-cases (is_file_url_in_scope m.site.library m.site.scope link)) [
        | inr outside ↦
            rw outside (k.file_external st.crawl h.0, IsTold-as_before st _ h.1 refl refl)
        | inl inside ↦ rw inside (
            let seen =
              is_among link st.crawl.processed_file_urls
              || is_among link st.crawl.requested_file_urls in
            elim (Bool-cases seen) [
              | inl old ↦
                  rw old (k.file_duplicate st.crawl h.0, IsTold-as_before st _ h.1 refl refl)
              | inr new ↦ rw new (
                  let limit =
                    not m.site.scope.follow_files
                    || not
                        (ltbℤ (pos (length st.crawl.requested_file_urls)) m.site.scope.max_files) in
                  elim (Bool-cases limit) [
                    | inl full ↦ rw full (h.0, IsTold-incomplete m P Q R k st h.1)
                    | inr free ↦ rw free (
                        request_file_again-Holds m P Q R k source page link st w inside
                          (ground arith) (ground arith) h)
                  ])
            ])
      ]

  queue_page-failures :
      (source : Source) (link canonical : Text) (c : Crawl)
      → ((queue_page m.site source link canonical c).page_failures ≡ c.page_failures)
        × ((queue_page m.site source link canonical c).file_failures ≡ c.file_failures)
  unfolding queue_page
  queue_page-failures source link canonical c = ground arith

  queue_page_again-Both :
      (source : Source) (link canonical : Text) (st : Revisit)
      → Both m P Q R k P st
      → Both m P Q R k P (queue_page_again m.site m.existing_files source link canonical st)
  unfolding queue_page_again
  queue_page_again-Both source link canonical st h =
      let same = queue_page-failures source link canonical st.crawl in
      let told =
        IsTold-as_before st (queue_page m.site source link canonical st.crawl) h.1 same.0 same.1 in
      let kept = queue_page-kept m.site P Q R k source link canonical st.crawl h.0 in
      let deep =
        is_page_url_in_scope m.site.library m.site.scope canonical
        && not (ltbℤ (pos source.depth) m.site.scope.max_depth) in
      elim (Bool-cases deep) [
        | inl cut ↦ rw cut (kept, IsTold-incomplete m P Q R k _ told)
        | inr fine ↦ rw fine (kept, told)
      ]

  take_document_of_again-Holds :
      (source : Source) (tracked_page : Option RowId) (link : Text) (st : Revisit) (w : W)
      → Both m P Q R k P st
      → Holds
          (Both m P Q R k P)
          (take_document_of_again m.site m.existing_files source tracked_page link st w).0
  take_document_of_again-Holds source none link st w h = h
  take_document_of_again-Holds source (some page) link st w h =
      take_document_again-Holds source page link st w h

  take_link_again-Holds :
      (source : Source) (link : Text) (st : Revisit) (w : W)
      → Both m P Q R k P st
      → Holds (Both m P Q R k P) (take_link_again m.site m.existing_files source link st w).0
  unfolding take_link_again
  take_link_again-Holds source link st w h =
      let canonical = canonicalize_tracked_url m.site.library link in
      elim (Bool-cases (is_blank canonical)) [
        | inl blank ↦ rw blank h
        | inr good ↦ rw good (elim (Bool-cases (is_document_link m.site.library link)) [
          | inl document ↦
              rw document (take_document_of_again-Holds source source.tracked_page canonical st w h)
          | inr page ↦ rw page (queue_page_again-Both source link canonical st h)
        ])
      ]

  take_links_again-Holds :
      (source : Source) (links : List Text) (st : Revisit) (w : W)
      → Both m P Q R k P st
      → Holds (Both m P Q R k P) (take_links_again m.site m.existing_files source links st w).0
  unfolding take_links_again
  take_links_again-Holds source [] st w h = h
  take_links_again-Holds source (link ∷ links) st w h =
      let (went, w') = take_link_again m.site m.existing_files source link st w in
      follow-Holds (Both m P Q R k P) went w'
        (take_links_again m.site m.existing_files source links)
        (take_link_again-Holds source link st w h)
        (λ st' v h'. take_links_again-Holds source links st' v h')

  pub take_page_links_again-Holds :
      (source : Source) (links : List Text) (st : Revisit) (w : W)
      → Both m P Q R k P st
      → Holds (Both m P Q R k P) (take_page_links_again m.site m.existing_files source links st w).0
  unfolding take_page_links_again
  take_page_links_again-Holds source links st w h =
      unless-Holds (Both m P Q R k P) (any m.site.library.raises_at links) st w _ h
        (take_links_again-Holds source links st w h)
