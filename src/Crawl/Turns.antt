-- ===== src/Crawl/Turns.antt =====
-- Whole turns of a crawl, and the loop of them
-- (web_listening/blocks/tree_crawler.py, `_bootstrap_scope_in_transaction`).
use web_listening.Prelude.{
  ℕ, zero, suc, ◌≡◌, refl, true, false, ◌&&◌, Option, none, some, List, [], ◌∷◌, Text, is_blank,
  or_else, same_text, ◌==◌, Bool-cases, inl, inr,
}
use web_listening.Crawl.Urls.{canonicalize_tracked_url, is_page_url_in_scope}
use web_listening.Crawl.Data.{
  RowId, Page, Acquired, accepted, declined, Queued, Crawl, Went, on, out, is_among, find_id,
}
use web_listening.Crawl.Links.{Site}
use web_listening.Crawl.Pages.{
  add_edge, edge_to, tracked, track_page, enter, land, judge_page, visit, seed_canonical_url,
  may_request, crawl_pages, resume, turn, Loop, ended, broke, ran_out,
}
use web_listening.Crawl.Rules.{
  Holds, follow-Holds, after-Holds, AreKept, unless-Holds, take_page_links-Holds,
}

module _ {W : Type 0} (s : Site W) (P Q R : Crawl → Type 0) (k : AreKept s P Q R) where
  add_edge-Holds :
      (from_page : Option RowId) (to_page : RowId) (st : Crawl) (w : W)
      → P st
      → Holds P (add_edge s from_page to_page st w).0
  add_edge-Holds none to_page st w h = h
  add_edge-Holds (some from_page) to_page st w h =
      let (reply, w') = s.backend.add_page_edge from_page to_page w in
      after-Holds P reply w' st (λ _ v. (on st, v)) h (λ _ v. h)

  edge_to-Holds :
      (from_page to_page : Option RowId) (st : Crawl) (w : W)
      → P st
      → Holds P (edge_to s from_page to_page st w).0
  edge_to-Holds from_page none st w h = h
  edge_to-Holds from_page (some to_page) st w h = add_edge-Holds from_page to_page st w h

  track_page-Holds :
      (q : Queued) (request_url url : Text) (page : Page) (st : Crawl) (w : W)
      → is_page_url_in_scope s.library s.scope url ≡ true
      → is_among url st.processed_page_urls ≡ false
      → Q st
      → Holds P (track_page s q request_url url page st w).0
  unfolding track_page
  track_page-Holds q request_url url page st w inside new h =
      let (reply, w') = s.backend.save_page url q.depth page w in
      after-Holds P reply w' st _ (k.page_left st h) (λ saved v.
        let (went, v') = add_edge s q.from_page saved.id (tracked s url saved.id st) v in
        follow-Holds P went v' _
          (add_edge-Holds q.from_page saved.id (tracked s url saved.id st) v
            (k.page_tracked st url saved.id inside new h))
          (λ st' u h'. take_page_links-Holds s P Q R k _ _ st' u h'))

  land-Holds :
      (q : Queued) (request_url : Text) (page : Page) (st : Crawl) (w : W)
      → Q st
      → Holds P (land s q request_url page st w).0
  unfolding land enter
  land-Holds q request_url page st w h =
      let url = canonicalize_tracked_url s.library (or_else page.final_url request_url) in
      elim (Bool-cases (is_blank url)) [
        | inl blank ↦ rw blank (k.page_left st h)
        | inr good ↦ rw good (elim (Bool-cases (is_page_url_in_scope s.library s.scope url)) [
          | inl inside ↦ rw inside (elim (Bool-cases (is_among url st.processed_page_urls)) [
            | inl old ↦ rw old (
                edge_to-Holds q.from_page (find_id url st.page_id_by_url) _ w
                  (k.page_duplicate st (k.page_left st h)))
            | inr new ↦ rw new (
                unless-Holds P _ st w _ (k.page_left st h)
                  (track_page-Holds q request_url url page st w inside new h))
          ])
          | inr outside ↦
              rw outside
                (elim (Bool-cases (same_text url (seed_canonical_url s) && (q.depth == 0))) [
                  | inl seed ↦ rw seed (
                      unless-Holds P _ st w _ (k.page_left st h)
                        (take_page_links-Holds s P Q R k _ _ st w (k.page_left st h)))
                  | inr other ↦ rw other (k.page_external st (k.page_left st h))
                ])
        ])
      ]

  judge_page-Holds :
      (q : Queued) (request_url : Text) (a : Acquired) (st : Crawl) (w : W)
      → Q st
      → Holds P (judge_page s q request_url a st w).0
  judge_page-Holds q request_url (accepted page) st w h =
      unless-Holds P _ st w _ (k.page_left st h) (land-Holds q request_url page st w h)
  judge_page-Holds q request_url (declined reason) st w h = k.page_failed st request_url h

  pub visit-Holds :
      (q : Queued) (st : Crawl) (w : W)
      → Q (record st { requested_pages = suc st.requested_pages })
      → Holds P (visit s q st w).0
  unfolding visit
  visit-Holds q st w h =
      let st' = record st { requested_pages = suc st.requested_pages } in
      let (reply, w') = s.backend.acquire_page _ w in
      after-Holds P reply w' st' (λ a v. judge_page s q _ a st' v) (k.page_left st' h)
        (λ a v. judge_page-Holds q _ a st' v h)

-- What is true of the state in which a loop stops.
abbrev pub Stops : {S : Type 0} → (S → Type 0) → Loop S → Type 0
Stops P (ended st) = P st
Stops P (broke x st) = P st
Stops P ran_out = Unit

pub resume-Stops :
    {S W : Type 0} (P : S → Type 0) (went : Went S) (w : W) (next : S → W → Loop S × W)
    → Holds P went
    → ((st : S) (v : W) → P st → Stops P (next st v).0)
    → Stops P (resume went w next).0
resume-Stops P (on st) w next h k = k st w h
resume-Stops P (out x st) w next h k = h

-- What the state becomes when a page is taken from the queue and requested.
abbrev pub AreTaken : {W : Type 0} → Site W → (Crawl → Type 0) → (Crawl → Type 0) → Type 0
AreTaken s P Q =
    (st : Crawl) (q : Queued) (qs : List Queued)
    → st.queued_pages ≡ q ∷ qs
    → may_request s st ≡ true
    → P st
    → Q (record st { queued_pages = qs; requested_pages = suc st.requested_pages })

turn-Stops :
    {W : Type 0} (s : Site W) (P Q R : Crawl → Type 0)
    → AreKept s P Q R
    → AreTaken s P Q
    → (queue : List Queued) (st : Crawl) (w : W) (next : Crawl → W → Loop Crawl × W)
    → st.queued_pages ≡ queue
    → P st
    → ((st' : Crawl) (v : W) → P st' → Stops P (next st' v).0)
    → Stops P (turn s queue st w next).0
turn-Stops s P Q R k take [] st w next e h f = h
turn-Stops s P Q R k take (q ∷ qs) st w next e h f = elim (Bool-cases (may_request s st)) [
  | inl more ↦ rw more (
      let (went, w') = visit s q (record st { queued_pages = qs }) w in
      resume-Stops P went w' next
        (visit-Holds s P Q R k q (record st { queued_pages = qs }) w (take st q qs e more h)) f)
  | inr full ↦ rw full h
]

-- An invariant of the outer loop.
pub crawl_pages-Stops :
    {W : Type 0} (s : Site W) (P Q R : Crawl → Type 0)
    → AreKept s P Q R
    → AreTaken s P Q
    → (fuel : ℕ) (st : Crawl) (w : W) → P st
    → Stops P (crawl_pages s fuel st w).0
unfolding crawl_pages
crawl_pages-Stops s P Q R k take zero st w h = tt
crawl_pages-Stops s P Q R k take (suc fuel) st w h =
    turn-Stops s P Q R k take st.queued_pages st w (crawl_pages s fuel) refl h
      (λ st' v h'. crawl_pages-Stops s P Q R k take fuel st' v h')
