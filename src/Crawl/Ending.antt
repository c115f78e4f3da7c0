-- ===== src/Crawl/Ending.antt =====
-- A crawl ends (web_listening/blocks/tree_crawler.py, `_bootstrap_scope_in_transaction`).
use web_listening.Prelude.{
  ℕ, ◌+◌, ◌≤◌, ◌<◌, ◌≢◌, clamp, zero, suc, ◌≡◌, refl, arith, true, List, [], ◌∷◌, ltbℤ→lt, length,
  Bool-cases, inl, inr,
}
use web_listening.Crawl.Data.{
  Exception, rollback_required, ordinary, Reply, gave, threw, Queued, Crawl, Went, on, out,
}
use web_listening.Crawl.Links.{Site}
use web_listening.Crawl.Pages.{
  visit, may_request, crawl_pages, start, enough, fail, failed_with, completed_with, finish_loop,
  bootstrap_scope_in_transaction, unfinished, resume, turn, Loop, ended, broke, ran_out,
}
use web_listening.Crawl.Rules.{Holds, AreKept}
use web_listening.Crawl.Turns.{visit-Holds}

pub resume-ends :
    {S W : Type 0} (P : S → Type 0) (went : Went S) (w : W) (next : S → W → Loop S × W)
    → Holds P went
    → ((st : S) (v : W) → P st → (next st v).0 ≢ ran_out)
    → (resume went w next).0 ≢ ran_out
resume-ends P (on st) w next h k = k st w h
resume-ends P (out x st) w next h k = λ e. cc

pub counted :
    {W : Type 0} (s : Site W) (n : ℕ)
    → AreKept s
        (λ st. st.requested_pages ≡ n)
        (λ st. st.requested_pages ≡ n)
        (λ st. st.requested_pages ≡ n)
counted s n = record {
  page_left = λ st h. h;
  file_left = λ st h. h;
  page_failed = λ st url h. h;
  page_external = λ st h. h;
  page_duplicate = λ st h. h;
  file_failed = λ st url h. h;
  file_external = λ st h. h;
  file_duplicate = λ st h. h;
  off_prefix = λ st h. h;
  page_tracked = λ st url id inside new h. h;
  file_requested = λ st url inside new free h. h;
  file_tracked = λ st url id inside h. h;
  page_queued = λ st q url depth inside e shallow h. h;
}

turn-ends :
    {W : Type 0} (s : Site W) (fuel : ℕ) (queue : List Queued) (st : Crawl) (w : W)
    → st.queued_pages ≡ queue
    → ((st' : Crawl) (v : W)
        → st'.requested_pages ≡ suc st.requested_pages
        → may_request s st ≡ true
        → (crawl_pages s fuel st' v).0 ≢ ran_out)
    → (turn s queue st w (crawl_pages s fuel)).0 ≢ ran_out
turn-ends s fuel [] st w e f = λ h. cc
turn-ends s fuel (q ∷ qs) st w e f = elim (Bool-cases (may_request s st)) [
  | inl more ↦ rw more (
      let n = suc st.requested_pages in
      let (went, w') = visit s q (record st { queued_pages = qs }) w in
      resume-ends (λ st'. st'.requested_pages ≡ n) went w' (crawl_pages s fuel)
        (visit-Holds s _ _ _ (counted s n) q (record st { queued_pages = qs }) w refl)
        (λ st' v h. f st' v h more))
  | inr full ↦ rw full (λ h. cc)
]

pub crawl_pages_ends :
    {W : Type 0} (s : Site W) (fuel : ℕ) (st : Crawl) (w : W)
    → clamp s.scope.max_pages < fuel + st.requested_pages
    → st.requested_pages ≤ clamp s.scope.max_pages
    → (crawl_pages s fuel st w).0 ≢ ran_out
unfolding crawl_pages
crawl_pages_ends s zero st w more h = absurd (omega arith)
crawl_pages_ends s (suc fuel) st w more h =
    turn-ends s fuel st.queued_pages st w refl (λ st' v e taken.
      crawl_pages_ends s fuel st' v (omega arith)
        (omega (arith, ltbℤ→lt st.requested_pages s.scope.max_pages taken)))

failed_with_ends :
    {W : Type 0} (s : Site W) (x : ℕ) (reply : Reply (Unit {0}))
    → failed_with s x reply ≢ unfinished
failed_with_ends s x reply h = ground arith

fail_ends :
    {W : Type 0} (s : Site W) (x : Exception) (st : Crawl) (w : W) → (fail s x st w).0 ≢ unfinished
fail_ends s (rollback_required x) st w h = cc
fail_ends s (ordinary x) st w h =
    failed_with_ends s x (s.backend.fail_run (length st.pages) (length st.files) w).0 h

complete_ends :
    {W : Type 0} (s : Site W) (st : Crawl) (w : W) (reply : Reply (Unit {0})) (w' : W)
    → (completed_with s st reply w').0 ≢ unfinished
complete_ends s st w (gave u) w' h = cc
complete_ends s st w (threw x) w' h = fail_ends s x st w' h

finish_loop_ends :
    {W : Type 0} (s : Site W) (loop : Loop Crawl) (w : W)
    → loop ≢ ran_out
    → (finish_loop s loop w).0 ≢ unfinished
finish_loop_ends s (ended st) w h =
    let (reply, w') = s.backend.complete_run (length st.pages) (length st.files) w in
    complete_ends s st w reply w'
finish_loop_ends s (broke x st) w h = fail_ends s x st w
finish_loop_ends s ran_out w h = absurd (h refl)

-- A crawl ends, whatever the gateway, the storage and the pages are: the loop stops within as many
-- turns as `max_pages` allows, and the crawl returns its result or raises.
pub bootstrap_scope_in_transaction_ends :
    {W : Type 0} (s : Site W) (w : W) → (bootstrap_scope_in_transaction s w).0 ≢ unfinished
unfolding bootstrap_scope_in_transaction
bootstrap_scope_in_transaction_ends s w =
    let (loop, w') = crawl_pages s (enough s) (start s) w in
    finish_loop_ends s loop w'
      (crawl_pages_ends s (enough s) (start s) w (omega arith) (omega arith))
