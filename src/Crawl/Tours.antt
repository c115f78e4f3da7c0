-- ===== src/Crawl/Tours.antt =====
-- The pages of an incremental run, turn by turn
-- (web_listening/blocks/tree_crawler.py, `_run_scope_in_transaction`).
use web_listening.Prelude.{
  ◌++◌, All-weaken, same_text→eq, ℕ, zero, suc, ◌≡◌, refl, arith, true, false, not, ◌&&◌, Option,
  none, some, List, [], ◌∷◌, Text, is_blank, or_else, same_text, ◌==◌, Bool-cases, inl, inr,
}
use web_listening.Crawl.Urls.{canonicalize_tracked_url, is_page_url_in_scope}
use web_listening.Crawl.Data.{
  RowId, Page, Refusal, Acquired, accepted, declined, Reply, gave, threw, after, Queued, Crawl, on,
  is_among, find_id,
}
use web_listening.Crawl.Pages.{seed_canonical_url, tracked, may_request, Loop}
use web_listening.Crawl.Revisit.{Known, Revisit, find_known, update}
use web_listening.Crawl.Runs.{
  Memory, edge_again, note_page, track_page_again, land_again, is_confirmed_missing, decline,
  judge_page_again, visit_again, turn_again, crawl_again,
}
use web_listening.Crawl.Rules.{Holds, unless-Holds, follow-Holds, after-Holds, AreKept}
use web_listening.Crawl.Turns.{AreTaken, Stops, resume-Stops}
use web_listening.Crawl.Again.{IsNotFound, IsNotFound-more, is_among-last, Both, IsTold-incomplete}
use web_listening.Crawl.Rounds.{IsTold-as_before, take_page_links_again-Holds}

module _ {W : Type 0} (m : Memory W) (P Q R : Crawl → Type 0) (k : AreKept m.site P Q R) where
  edge_again-Holds :
      (from_page to_page : Option RowId) (st : Revisit) (w : W)
      → Both m P Q R k P st
      → Holds (Both m P Q R k P) (edge_again m from_page to_page st w).0
  edge_again-Holds none to_page st w h = h
  edge_again-Holds (some a) none st w h = h
  edge_again-Holds (some a) (some b) st w h =
      let (reply, w') = m.site.backend.add_page_edge a b w in
      after-Holds (Both m P Q R k P) reply w' st (λ _ v. (on st, v)) h (λ _ v. h)

  note_page-Both :
      (o : Option Known) (url hash : Text) (st : Revisit)
      → Both m P Q R k P st
      → Both m P Q R k P (note_page m o url hash st)
  note_page-Both none url hash st h =
      (h.0, record { complete = h.1.complete; confirmed = h.1.confirmed })
  note_page-Both (some v) url hash st h =
      let new = not (is_blank v.latest_hash) && not (same_text v.latest_hash hash) in
      elim (Bool-cases new) [
        | inl changed ↦
            rw changed (h.0, record { complete = h.1.complete; confirmed = h.1.confirmed })
        | inr same ↦ rw same h
      ]

  track_page_again-Holds :
      (q : Queued) (request_url url : Text) (page : Page) (st : Revisit) (w : W)
      → is_page_url_in_scope m.site.library m.site.scope url ≡ true
      → is_among url st.crawl.processed_page_urls ≡ false
      → Both m P Q R k Q st
      → Holds (Both m P Q R k P) (track_page_again m q request_url url page st w).0
  unfolding track_page_again
  track_page_again-Holds q request_url url page st w inside new h =
      let (reply, w') = m.site.backend.save_page url q.depth page w in
      after-Holds (Both m P Q R k P) reply w' st _ (k.page_left st.crawl h.0, h.1)
        (λ saved v.
          let st' =
            note_page m (find_known url m.existing_pages) url saved.hash
              (update (tracked m.site url saved.id) st) in
          let both =
            note_page-Both (find_known url m.existing_pages) url saved.hash
              (update (tracked m.site url saved.id) st)
              (
                k.page_tracked st.crawl url saved.id inside new h.0,
                IsTold-as_before m P Q R k st (tracked m.site url saved.id st.crawl) h.1 refl refl,
              ) in
          let (went, v') = edge_again m q.from_page (some saved.id) st' v in
          follow-Holds (Both m P Q R k P) went v' _
            (edge_again-Holds q.from_page (some saved.id) st' v both)
            (λ st'' u h'. take_page_links_again-Holds m P Q R k _ _ st'' u h'))

  land_again-Holds :
      (q : Queued) (request_url : Text) (page : Page) (st : Revisit) (w : W)
      → Both m P Q R k Q st
      → Holds (Both m P Q R k P) (land_again m q request_url page st w).0
  unfolding land_again
  land_again-Holds q request_url page st w h =
      let url = canonicalize_tracked_url m.site.library (or_else page.final_url request_url) in
      let left = k.page_left st.crawl h.0 in
      elim (Bool-cases (is_blank url)) [
        | inl blank ↦ rw blank (left, IsTold-incomplete m P Q R k st h.1)
        | inr good ↦
            rw good (elim (Bool-cases (is_page_url_in_scope m.site.library m.site.scope url)) [
              | inl inside ↦
                  rw inside (elim (Bool-cases (is_among url st.crawl.processed_page_urls)) [
                    | inl old ↦ rw old (
                        edge_again-Holds q.from_page (find_id url st.crawl.page_id_by_url) _ w (
                          k.page_duplicate st.crawl left,
                          IsTold-as_before m P Q R k st _ h.1 refl refl,
                        ))
                    | inr new ↦ rw new (
                        unless-Holds (Both m P Q R k P) _ st w _ (left, h.1)
                          (track_page_again-Holds q request_url url page st w inside new h))
                  ])
              | inr outside ↦
                  rw outside
                    (elim (Bool-cases
                      (same_text url (seed_canonical_url m.site) && (q.depth == 0))) [
                        | inl seed ↦ rw seed (
                            unless-Holds (Both m P Q R k P) _ st w _ (left, h.1)
                              (take_page_links_again-Holds m P Q R k _ _ st w (left, h.1)))
                        | inr other ↦ rw other (
                          k.page_external st.crawl left,
                          IsTold-incomplete m P Q R k _ (
                              IsTold-as_before m P Q R k st
                                (record st.crawl {
                                  skipped_external_pages = suc st.crawl.skipped_external_pages;
                                })
                                h.1 refl refl),
                        )
                      ])
            ])
      ]

  -- The page that `is_confirmed_missing` confirms.
  confirmed-IsNotFound :
      (request_url : Text) (refusal : Refusal) (failures : List Text) (v : W)
      → (m.site.backend.acquire_page request_url v).0 ≡ gave (declined refusal)
      → is_confirmed_missing m request_url refusal ≡ true
      → IsNotFound m
          (failures ++ (request_url ∷ []))
          (canonicalize_tracked_url m.site.library request_url)
  confirmed-IsNotFound request_url refusal failures v answer h =
      let url = canonicalize_tracked_url m.site.library request_url in
      record {
        known = ground arith;
        inside = ground arith;
        request_url = request_url;
        failed = is_among-last request_url failures;
        requested = refl;
        world = v;
        refusal = refusal;
        answered = answer;
        not_found = ground arith;
        final = ground arith;
        stayed =
            same_text→eq (canonicalize_tracked_url m.site.library refusal.final_url) url
              (ground arith);
      }

  decline-Both :
      (request_url : Text) (refusal : Refusal) (st : Revisit) (v : W)
      → (m.site.backend.acquire_page request_url v).0 ≡ gave (declined refusal)
      → Both m P Q R k Q st
      → Both m P Q R k P (decline m request_url refusal st)
  decline-Both request_url refusal st v answer h =
      let url = canonicalize_tracked_url m.site.library request_url in
      let failed = k.page_failed st.crawl request_url h.0 in
      let failures = st.crawl.page_failures in
      let before =
        All-weaken {P = IsNotFound m failures} {Q = IsNotFound m (failures ++ (request_url ∷ []))}
          st.confirmed_missing_pages (IsNotFound-more m failures request_url) h.1.confirmed in
      elim (Bool-cases (is_confirmed_missing m request_url refusal)) [
        | inr other ↦
            rw other (failed, record { complete = λ e. absurd (ground arith); confirmed = before })
        | inl missing ↦ rw missing (elim (Bool-cases (is_among url st.confirmed_missing_pages)) [
          | inl old ↦
              rw old (failed, record { complete = λ e. absurd (ground arith); confirmed = before })
          | inr new ↦ rw new (
            failed,
            record {
              complete = λ e. absurd (ground arith);
              confirmed =
                  (confirmed-IsNotFound request_url refusal failures v answer missing, before);
            },
          )
        ])
      ]

  judge_page_again-Holds :
      (q : Queued) (request_url : Text) (reply : Reply Acquired) (st : Revisit) (v w : W)
      → (m.site.backend.acquire_page request_url v).0 ≡ reply
      → Both m P Q R k P st
      → Both m P Q R k Q st
      → Holds
          (Both m P Q R k P)
          (after reply w st (λ a u. judge_page_again m q request_url a st u)).0
  judge_page_again-Holds q request_url (gave (accepted page)) st v w answer g h =
      unless-Holds (Both m P Q R k P) _ st w _ g (land_again-Holds q request_url page st w h)
  judge_page_again-Holds q request_url (gave (declined refusal)) st v w answer g h =
      unless-Holds (Both m P Q R k P)
        (not (is_blank refusal.final_url) && m.site.library.raises_at refusal.final_url) st w
        (on (decline m request_url refusal st), w) g
        (decline-Both request_url refusal st v answer h)
  judge_page_again-Holds q request_url (threw x) st v w answer g h = g

  pub visit_again-Holds :
      (q : Queued) (st : Revisit) (w : W)
      → Both m P Q R k Q (update (λ c. record c { requested_pages = suc c.requested_pages }) st)
      → Holds (Both m P Q R k P) (visit_again m q st w).0
  unfolding visit_again
  visit_again-Holds q st w h =
      let st' = update (λ c. record c { requested_pages = suc c.requested_pages }) st in
      let (reply, w') = m.site.backend.acquire_page _ w in
      judge_page_again-Holds q _ reply st' w w' refl (k.page_left st'.crawl h.0, h.1) h

  turn_again-Stops :
      AreTaken m.site P Q
      → (queue : List Queued) (st : Revisit) (w : W) (next : Revisit → W → Loop Revisit × W)
      → st.crawl.queued_pages ≡ queue
      → Both m P Q R k P st
      → ((st' : Revisit) (v : W) → Both m P Q R k P st' → Stops (Both m P Q R k P) (next st' v).0)
      → Stops (Both m P Q R k P) (turn_again m queue st w next).0
  turn_again-Stops take [] st w next e h f = h
  turn_again-Stops take (q ∷ qs) st w next e h f = elim (Bool-cases (may_request m.site st.crawl)) [
    | inl more ↦ rw more (
        let st' = update (λ c. record c { queued_pages = qs }) st in
        let (went, w') = visit_again m q st' w in
        resume-Stops (Both m P Q R k P) went w' next
          (visit_again-Holds q st' w
            (take st.crawl q qs e more h.0, IsTold-as_before m P Q R k st _ h.1 refl refl))
          f)
    | inr full ↦ rw full h
  ]

  -- An invariant of the loop.
  pub crawl_again-Stops :
      AreTaken m.site P Q
      → (fuel : ℕ) (st : Revisit) (w : W) → Both m P Q R k P st
      → Stops (Both m P Q R k P) (crawl_again m fuel st w).0
  unfolding crawl_again
  crawl_again-Stops take zero st w h = tt
  crawl_again-Stops take (suc fuel) st w h =
      turn_again-Stops take st.crawl.queued_pages st w (crawl_again m fuel) refl h
        (λ st' v h'. crawl_again-Stops take fuel st' v h')
