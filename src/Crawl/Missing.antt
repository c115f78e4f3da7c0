-- ===== src/Crawl/Missing.antt =====
-- An incremental run calls only that missing which it knows to be
-- (web_listening/blocks/tree_crawler.py, `_run_scope_in_transaction`).
use web_listening.Prelude.{
  insert_text, sort_texts, text_le, ℕ, ◌≡◌, ◌⊎◌, refl, arith, true, false, not, ◌&&◌, List, [], ◌∷◌,
  All, All-weaken, Some, Text, length, Bool-cases, and_true, inl, inr,
}
use mathlib.Core.Path.{subst}
use web_listening.Crawl.Data.{
  rollback_required, ordinary, Reply, gave, threw, Queued, Crawl, is_among,
}
use web_listening.Crawl.Pages.{enough, Loop, ended, broke, ran_out}
use web_listening.Crawl.Revisit.{Known, Revisit}
use web_listening.Crawl.Runs.{
  Memory, crawl_again, start_again, unseen, has_more, has_seen_all, missing_pages, missing_files,
  Report, reported, run_failed_with, completed_again, finish_again, run_scope_in_transaction,
  report,
}
use web_listening.Crawl.Turns.{Stops}
use web_listening.Crawl.Sound.{IsInScope, scopes, scopes_taken}
use web_listening.Crawl.Again.{IsTold, IsNotFound}
use web_listening.Crawl.Tours.{crawl_again-Stops}
use web_listening.Crawl.Limits.{start_again-IsTold}

insert_text-All :
    (P : Text → Type 0) (x : Text) (ys : List Text) → P x → All P ys → All P (insert_text x ys)
insert_text-All P x [] h k = (h, tt)
insert_text-All P x (y ∷ ys) h k = elim (Bool-cases (text_le x y)) [
  | inl first ↦ rw first (h, (k.0, k.1))
  | inr later ↦ rw later (k.0, insert_text-All P x ys h k.1)
]

sort_texts-All : (P : Text → Type 0) (xs : List Text) → All P xs → All P (sort_texts xs)
sort_texts-All P [] h = tt
sort_texts-All P (x ∷ xs) h = insert_text-All P x (sort_texts xs) h.0 (sort_texts-All P xs h.1)

-- The URL of an active row that was not processed.
abbrev pub IsUnseen : List Known → List Text → Text → Type 0
IsUnseen known processed url =
    Some (λ k. (k.url ≡ url) × (k.is_active ≡ true)) known × (is_among url processed ≡ false)

unseen-IsUnseen :
    (known : List Known) (processed : List Text)
    → All (IsUnseen known processed) (unseen known processed)
unseen-IsUnseen [] processed = tt
unseen-IsUnseen (k ∷ known) processed =
    let rest =
      All-weaken {P = IsUnseen known processed} {Q = IsUnseen (k ∷ known) processed}
        (unseen known processed) (λ url h. (inr h.0, h.1)) (unseen-IsUnseen known processed) in
    elim (Bool-cases (k.is_active && not (is_among k.url processed))) [
      | inl gone ↦ rw gone ((inl (refl, ground arith), ground arith), rest)
      | inr here' ↦ rw here' rest
    ]

module _ {W : Type 0} (m : Memory W) where
  -- The queue is empty and nothing has failed; the run calls missing what is active and was not seen.
  pub record IsComplete (r : Report) : Type 0 where
    pub followed : r.seen.crawl.queued_pages ≡ []
    pub pages_fetched : r.seen.crawl.page_failures ≡ []
    pub files_fetched : r.seen.crawl.file_failures ≡ []
    pub pages_unseen :
        All (IsUnseen m.existing_pages r.seen.crawl.processed_page_urls) r.missing_pages
    pub files_unseen :
        All (IsUnseen m.existing_files r.seen.crawl.processed_file_urls) r.missing_files

  -- The run was cut or had a failure; it calls no file missing, and only those pages that were not
  -- found.
  pub record IsCut (r : Report) : Type 0 where
    pub no_files : r.missing_files ≡ []
    pub pages_known : All (IsNotFound m r.seen.crawl.page_failures) r.missing_pages

  no_more : (queue : List Queued) → not (has_more queue) ≡ true → queue ≡ []
  no_more [] h = refl
  no_more (q ∷ qs) h = cc

  report-IsComplete :
      (st : Revisit) → IsTold m st → has_seen_all m st ≡ true → IsComplete (report m st)
  unfolding missing_pages missing_files
  report-IsComplete st told all_seen =
      let (complete, drained) =
        and_true st.traversal_complete (not (has_more st.crawl.queued_pages)) all_seen in
      record {
        followed = no_more st.crawl.queued_pages drained;
        pages_fetched = (told.complete complete).0;
        files_fetched = (told.complete complete).1;
        pages_unseen =
            rw all_seen
              (sort_texts-All _ _ (unseen-IsUnseen m.existing_pages st.crawl.processed_page_urls));
        files_unseen =
            rw all_seen
              (sort_texts-All _ _ (unseen-IsUnseen m.existing_files st.crawl.processed_file_urls));
      }

  report-IsCut : (st : Revisit) → IsTold m st → has_seen_all m st ≡ false → IsCut (report m st)
  unfolding missing_pages missing_files
  report-IsCut st told cut = record {
    no_files = rw cut refl;
    pages_known = rw cut (sort_texts-All _ _ told.confirmed);
  }

  report-IsHonest : (st : Revisit) → IsTold m st → IsComplete (report m st) ⊎ IsCut (report m st)
  report-IsHonest st told = elim (Bool-cases (has_seen_all m st)) [
    | inl all_seen ↦ inl (report-IsComplete st told all_seen)
    | inr cut ↦ inr (report-IsCut st told cut)
  ]

  never :
      (x : ℕ) (reply : Reply (Unit {0})) (r : Report) → run_failed_with m x reply ≡ reported r → ⊥
  never x reply r h = ground arith

  completed_again-report :
      (st : Revisit) (reply : Reply (Unit {0})) (w : W) (r : Report)
      → (completed_again m st reply w).0 ≡ reported r
      → report m st ≡ r
  completed_again-report st (gave u) w r h = cc
  completed_again-report st (threw (rollback_required x)) w r h = cc
  completed_again-report st (threw (ordinary x)) w r h =
      absurd
        (never x (m.site.backend.fail_run (length st.crawl.pages) (length st.crawl.files) w).0 r h)

  finish_again-IsHonest :
      (loop : Loop Revisit) (w : W) (r : Report)
      → Stops (IsTold m) loop
      → (finish_again m loop w).0 ≡ reported r
      → IsComplete r ⊎ IsCut r
  finish_again-IsHonest (ended st) w r told h =
      let (reply, w') =
        m.site.backend.complete_run (length st.crawl.pages) (length st.crawl.files) w in
      subst (λ r'. IsComplete r' ⊎ IsCut r') (completed_again-report st reply w' r h)
        (report-IsHonest st told)
  finish_again-IsHonest (broke (rollback_required x) st) w r told h = cc
  finish_again-IsHonest (broke (ordinary x) st) w r told h =
      absurd
        (never x (m.site.backend.fail_run (length st.crawl.pages) (length st.crawl.files) w).0 r h)
  finish_again-IsHonest ran_out w r told h = cc

  Stops-IsTold :
      (P : Crawl → Type 0) (loop : Loop Revisit)
      → Stops (λ st. P st.crawl × IsTold m st) loop
      → Stops (IsTold m) loop
  Stops-IsTold P (ended st) h = h.1
  Stops-IsTold P (broke x st) h = h.1
  Stops-IsTold P ran_out h = tt

  -- What an incremental run that returns calls missing: either its queue is empty, no page and no file
  -- has failed, and these are active pages and files that it has not seen; or it calls no file missing,
  -- and of pages only those that were known, that lie in the scope, and for which a request is among
  -- its failures to which the gateway answers, in some state of the world, that nothing is found under
  -- that URL.
  pub run_scope_in_transaction-IsComplete :
      (w : W) (r : Report) → (run_scope_in_transaction m w).0 ≡ reported r → IsComplete r ⊎ IsCut r
  unfolding run_scope_in_transaction
  run_scope_in_transaction-IsComplete w r h =
      let (loop, w') = crawl_again m (enough m.site) (start_again m) w in
      finish_again-IsHonest loop w' r
        (Stops-IsTold (IsInScope m.site) loop (
          crawl_again-Stops m _ _ _ (scopes m.site) (scopes_taken m.site) (enough m.site)
            (start_again m) w (ground arith, start_again-IsTold m)))
        h
