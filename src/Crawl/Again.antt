-- ===== src/Crawl/Again.antt =====
-- What every turn of an incremental run keeps: all that a bootstrap keeps, and that it knows whether
-- it has seen everything (web_listening/blocks/tree_crawler.py, `_run_scope_in_transaction`).
use mathlib.Core.Path.{subst}
use web_listening.Prelude.{
  or_else, List, ◌++◌, refl, sym, same_text, same_text_refl, ◌≡◌, arith, true, false, not, ◌||◌,
  Option, none, some, [], ◌∷◌, map, All, Text, pos, ltbℤ, length, is_blank, Bool-cases, inl, inr,
}
use web_listening.Crawl.Urls.{canonicalize_tracked_url, is_page_url_in_scope, is_file_url_in_scope}
use web_listening.Crawl.Data.{
  RowId, Refusal, rollback_required, ordinary, Page, Acquired, accepted, declined, Saved, Reply,
  gave, threw, Crawl, is_among,
}
use web_listening.Crawl.Links.{Source, admitted_url, count_off_prefix}
use web_listening.Crawl.Revisit.{
  Known, Revisit, find_known, has_changed, incomplete, update, fail_file, note_file,
  settle_file_again, admit_file_again, judge_file_again, request_file_again,
}
use web_listening.Crawl.Runs.{Memory}
use web_listening.Crawl.Rules.{Holds, unless-Holds, after-Holds, AreKept, count_off_prefix-kept}

is_among-append :
    (x : Text) (xs : List Text) (y : Text)
    → is_among x xs ≡ true
    → is_among x (xs ++ (y ∷ [])) ≡ true
is_among-append x [] y h = cc
is_among-append x (z ∷ xs) y h = elim (Bool-cases (same_text x z)) [
  | inl same ↦ rw same refl
  | inr other ↦ ground (arith, is_among-append x xs y (ground arith))
]

pub is_among-last : (x : Text) (xs : List Text) → is_among x (xs ++ (x ∷ [])) ≡ true
is_among-last x [] = ground (arith, same_text_refl x)
is_among-last x (z ∷ xs) = ground (arith, is_among-last x xs)

-- A page of the scope that the storage has; one of the requests that failed is for its URL, and the
-- gateway's answer to that request is that there is nothing under this very URL.
pub record IsNotFound {W : Type 0} (m : Memory W) (failures : List Text) (url : Text) : Type 0 where
  pub known : is_among url (map (λ k. k.url) m.existing_pages) ≡ true
  pub inside : is_page_url_in_scope m.site.library m.site.scope url ≡ true
  pub request_url : Text
  pub failed : is_among request_url failures ≡ true
  pub requested : canonicalize_tracked_url m.site.library request_url ≡ url
  pub world : W
  pub refusal : Refusal
  pub answered : (m.site.backend.acquire_page request_url world).0 ≡ gave (declined refusal)
  pub not_found : refusal.is_not_found ≡ true
  pub final : is_blank refusal.final_url ≡ false
  pub stayed : canonicalize_tracked_url m.site.library refusal.final_url ≡ url

pub IsNotFound-more :
    {W : Type 0} (m : Memory W) (failures : List Text) (x url : Text)
    → IsNotFound m failures url
    → IsNotFound m (failures ++ (x ∷ [])) url
IsNotFound-more m failures x url h = record {
  known = h.known;
  inside = h.inside;
  request_url = h.request_url;
  failed = is_among-append h.request_url failures x h.failed;
  requested = h.requested;
  world = h.world;
  refusal = h.refusal;
  answered = h.answered;
  not_found = h.not_found;
  final = h.final;
  stayed = h.stayed;
}

-- A run that counts as complete has had no failure, and only pages that were not found are confirmed
-- to be missing.
pub record IsTold {W : Type 0} (m : Memory W) (st : Revisit) : Type 0 where
  pub complete :
      st.traversal_complete ≡ true → (st.crawl.page_failures ≡ []) × (st.crawl.file_failures ≡ [])
  pub confirmed : All (IsNotFound m st.crawl.page_failures) st.confirmed_missing_pages

module _ {W : Type 0} (m : Memory W) (P Q R : Crawl → Type 0) (k : AreKept m.site P Q R) where
  abbrev pub Both : (Crawl → Type 0) → Revisit → Type 0
  Both X st = X st.crawl × IsTold m st

  pub IsTold-incomplete : (st : Revisit) → IsTold m st → IsTold m (incomplete st)
  IsTold-incomplete st h = record { complete = λ e. absurd (ground arith); confirmed = h.confirmed }

  fail_file-Both : (link : Text) (st : Revisit) → Both R st → Both P (fail_file link st)
  fail_file-Both link st h = (
    k.file_failed st.crawl link h.0,
    record { complete = λ e. absurd (ground arith); confirmed = h.1.confirmed },
  )

  note_file-Both :
      (o : Option Known) (url hash : Text) (st : Revisit)
      → Both P st
      → Both P (note_file m.site m.existing_files o url hash st)
  note_file-Both none url hash st h =
      (h.0, record { complete = h.1.complete; confirmed = h.1.confirmed })
  note_file-Both (some v) url hash st h = elim (Bool-cases (has_changed v.latest_hash hash)) [
    | inl new ↦ rw new (h.0, record { complete = h.1.complete; confirmed = h.1.confirmed })
    | inr old ↦ rw old h
  ]

  settle_file_again-Holds :
      (link url : Text) (reply : Reply Saved) (w : W) (st : Revisit)
      → is_file_url_in_scope m.site.library m.site.scope url ≡ true
      → Both R st
      → Holds (Both P) (settle_file_again m.site m.existing_files link url reply w st).0
  settle_file_again-Holds link url (gave saved) w st i h =
      note_file-Both (find_known url m.existing_files) url saved.hash _ (
        k.file_tracked st.crawl url saved.id i h.0,
        record { complete = h.1.complete; confirmed = h.1.confirmed },
      )
  settle_file_again-Holds link url (threw (rollback_required x)) w st i h =
      (k.file_left st.crawl h.0, h.1)
  settle_file_again-Holds link url (threw (ordinary x)) w st i h = fail_file-Both link st h

  count_off_prefix-failures :
      (url : Text) (c : Crawl) → (count_off_prefix m.site url c).page_failures ≡ c.page_failures
  count_off_prefix-failures url c = ground arith

  count_off_prefix-Both :
      (url : Text) (st : Revisit) → Both R st → Both R (update (count_off_prefix m.site url) st)
  count_off_prefix-Both url st h = (
    count_off_prefix-kept m.site P Q R k url st.crawl h.0,
    record {
      complete = λ e. ground (arith, h.1.complete e);
      confirmed =
          subst (λ failures. All (IsNotFound m failures) st.confirmed_missing_pages)
            (sym (count_off_prefix-failures url st.crawl)) h.1.confirmed;
    },
  )

  admit_file_again-Holds :
      (source : Source) (page : RowId) (link : Text) (response : Page) (st : Revisit) (w : W)
      → Both R st
      → Holds (Both P) (admit_file_again m.site m.existing_files source page link response st w).0
  admit_file_again-Holds source page link response st w h =
      let url = admitted_url m.site link response in
      unless-Holds (Both P) (m.site.library.raises_at (or_else response.final_url link)) st w _
        (k.file_left st.crawl h.0, h.1)
        (elim (Bool-cases
          (is_blank url || not (is_file_url_in_scope m.site.library m.site.scope url))) [
            | inl bad ↦ rw bad (
              k.file_external st.crawl (k.file_left st.crawl h.0),
              record { complete = λ e. absurd (ground arith); confirmed = h.1.confirmed },
            )
            | inr good ↦ rw good (
                let (reply, w') = m.site.backend.track_file page url source.url w in
                settle_file_again-Holds link url reply w' (update (count_off_prefix m.site url) st)
                  (ground arith) (count_off_prefix-Both url st h))
          ])

  judge_file_again-Holds :
      (source : Source) (page : RowId) (link : Text) (a : Acquired) (st : Revisit) (w : W)
      → Both R st
      → Holds (Both P) (judge_file_again m.site m.existing_files source page link a st w).0
  judge_file_again-Holds source page link (accepted response) st w h =
      admit_file_again-Holds source page link response st w h
  judge_file_again-Holds source page link (declined refusal) st w h = fail_file-Both link st h

  pub request_file_again-Holds :
      (source : Source) (page : RowId) (link : Text) (st : Revisit) (w : W)
      → is_file_url_in_scope m.site.library m.site.scope link ≡ true
      → is_among link st.crawl.requested_file_urls ≡ false
      → ltbℤ (pos (length st.crawl.requested_file_urls)) m.site.scope.max_files ≡ true
      → Both P st
      → Holds (Both P) (request_file_again m.site m.existing_files source page link st w).0
  request_file_again-Holds source page link st w inside new free h =
      let st' : Revisit =
        update (λ c. record c { requested_file_urls = link ∷ c.requested_file_urls }) st in
      let told : IsTold m st' = record { complete = h.1.complete; confirmed = h.1.confirmed } in
      let requested = k.file_requested st.crawl link inside new free h.0 in
      let (reply, w') = m.site.backend.acquire_file link w in
      after-Holds (Both P) reply w' st'
        (λ a v. judge_file_again m.site m.existing_files source page link a st' v)
        (k.file_left st'.crawl requested, told)
        (λ a v. judge_file_again-Holds source page link a st' v (requested, told))
