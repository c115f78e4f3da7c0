-- ===== src/Crawl/Limits.antt =====
-- An incremental run ends, and keeps to its scope and limits
-- (web_listening/blocks/tree_crawler.py, `_run_scope_in_transaction`).
use web_listening.Prelude.{
  ℕ, zero, suc, ◌+◌, ◌≤◌, ◌<◌, ◌≡◌, ◌≢◌, refl, arith, true, List, [], ◌∷◌, clamp, ltbℤ→lt, length,
  Bool-cases, inl, inr,
}
use web_listening.Crawl.Data.{Exception, rollback_required, ordinary, Reply, gave, threw, Queued}
use web_listening.Crawl.Pages.{may_request, enough, Loop, ended, broke, ran_out}
use web_listening.Crawl.Revisit.{Revisit, update}
use web_listening.Crawl.Runs.{
  Memory, visit_again, turn_again, crawl_again, start_again, run_failed_with, fail_again,
  completed_again, finish_again, run_scope_in_transaction, run_unfinished,
}
use web_listening.Crawl.Turns.{Stops}
use web_listening.Crawl.Ending.{counted, resume-ends}
use web_listening.Crawl.Sound.{
  IsCounted, IsInScope, counts, counts_taken, scopes, scopes_taken, StopsWith,
}
use web_listening.Crawl.Again.{IsTold, Both}
use web_listening.Crawl.Rounds.{IsTold-as_before}
use web_listening.Crawl.Tours.{visit_again-Holds, crawl_again-Stops}

Stops-both :
    {S : Type 0} (P Q R : S → Type 0) (loop : Loop S)
    → Stops (λ st. P st × R st) loop
    → Stops (λ st. Q st × R st) loop
    → loop ≢ ran_out
    → StopsWith (λ st. P st × Q st) loop
Stops-both P Q R (ended st) h k n = (h.0, k.0)
Stops-both P Q R (broke x st) h k n = (h.0, k.0)
Stops-both P Q R ran_out h k n = n refl

module _ {W : Type 0} (m : Memory W) where
  turn_again-ends :
      (fuel : ℕ) (queue : List Queued) (st : Revisit) (w : W)
      → st.crawl.queued_pages ≡ queue
      → IsTold m st
      → ((st' : Revisit) (v : W)
          → st'.crawl.requested_pages ≡ suc st.crawl.requested_pages
          → IsTold m st'
          → may_request m.site st.crawl ≡ true
          → (crawl_again m fuel st' v).0 ≢ ran_out)
      → (turn_again m queue st w (crawl_again m fuel)).0 ≢ ran_out
  turn_again-ends fuel [] st w e told f = λ h. cc
  turn_again-ends fuel (q ∷ qs) st w e told f = elim (Bool-cases (may_request m.site st.crawl)) [
    | inl more ↦ rw more (
        let n = suc st.crawl.requested_pages in
        let k = counted m.site n in
        let st' = update (λ c. record c { queued_pages = qs }) st in
        let (went, w') = visit_again m q st' w in
        resume-ends (Both m _ _ _ k (λ c. c.requested_pages ≡ n)) went w' (crawl_again m fuel)
          (visit_again-Holds m _ _ _ k q st' w
            (refl, IsTold-as_before m _ _ _ k st _ told refl refl))
          (λ st'' v h. f st'' v h.0 h.1 more))
    | inr full ↦ rw full (λ h. cc)
  ]

  crawl_again_ends :
      (fuel : ℕ) (st : Revisit) (w : W)
      → clamp m.site.scope.max_pages < fuel + st.crawl.requested_pages
      → st.crawl.requested_pages ≤ clamp m.site.scope.max_pages
      → IsTold m st
      → (crawl_again m fuel st w).0 ≢ ran_out
  unfolding crawl_again
  crawl_again_ends zero st w more h told = absurd (omega arith)
  crawl_again_ends (suc fuel) st w more h told =
      turn_again-ends fuel st.crawl.queued_pages st w refl told (λ st' v e told' taken.
        crawl_again_ends fuel st' v (omega arith)
          (omega (arith, ltbℤ→lt st.crawl.requested_pages m.site.scope.max_pages taken)) told')

  pub start_again-IsTold : IsTold m (start_again m)
  start_again-IsTold = ground arith

  pub crawl_again-ended : (w : W) → (crawl_again m (enough m.site) (start_again m) w).0 ≢ ran_out
  crawl_again-ended w =
      crawl_again_ends (enough m.site) (start_again m) w (omega arith) (omega arith)
        start_again-IsTold

  -- An incremental run stops, by its own end or by an exception, and then it has requested at most
  -- `max_pages` pages and `max_files` files, has tracked no page twice and requested no file twice, has
  -- tracked at most one page or file for each of its requests, and all that it has tracked, and every
  -- file that it has requested, lies in the scope.
  pub crawl_again-IsCounted :
      (w : W)
      → StopsWith
          (λ st. IsCounted m.site 0 0 st.crawl × IsInScope m.site st.crawl)
          (crawl_again m (enough m.site) (start_again m) w).0
  crawl_again-IsCounted w =
      let counts =
        crawl_again-Stops m _ _ _ (counts m.site) (counts_taken m.site) (enough m.site)
          (start_again m) w (ground arith, start_again-IsTold) in
      let scopes =
        crawl_again-Stops m _ _ _ (scopes m.site) (scopes_taken m.site) (enough m.site)
          (start_again m) w (ground arith, start_again-IsTold) in
      Stops-both (λ st. IsCounted m.site 0 0 st.crawl) (λ st. IsInScope m.site st.crawl) (IsTold m)
        (crawl_again m (enough m.site) (start_again m) w).0 counts scopes (crawl_again-ended w)

  run_failed_with_ends :
      (x : ℕ) (reply : Reply (Unit {0})) → run_failed_with m x reply ≢ run_unfinished
  run_failed_with_ends x reply h = ground arith

  fail_again_ends :
      (x : Exception) (st : Revisit) (w : W) → (fail_again m x st w).0 ≢ run_unfinished
  fail_again_ends (rollback_required x) st w h = cc
  fail_again_ends (ordinary x) st w h =
      run_failed_with_ends x
        (m.site.backend.fail_run (length st.crawl.pages) (length st.crawl.files) w).0 h

  completed_again_ends :
      (st : Revisit) (reply : Reply (Unit {0})) (w : W)
      → (completed_again m st reply w).0 ≢ run_unfinished
  completed_again_ends st (gave u) w h = cc
  completed_again_ends st (threw x) w h = fail_again_ends x st w h

  finish_again_ends :
      (loop : Loop Revisit) (w : W) → loop ≢ ran_out → (finish_again m loop w).0 ≢ run_unfinished
  finish_again_ends (ended st) w h =
      let (reply, w') =
        m.site.backend.complete_run (length st.crawl.pages) (length st.crawl.files) w in
      completed_again_ends st reply w'
  finish_again_ends (broke x st) w h = fail_again_ends x st w
  finish_again_ends ran_out w h = absurd (h refl)

  -- An incremental run ends, whatever the gateway, the storage and the pages are.
  pub run_scope_in_transaction_ends : (w : W) → (run_scope_in_transaction m w).0 ≢ run_unfinished
  unfolding run_scope_in_transaction
  run_scope_in_transaction_ends w =
      let (loop, w') = crawl_again m (enough m.site) (start_again m) w in
      finish_again_ends loop w' (crawl_again-ended w)
