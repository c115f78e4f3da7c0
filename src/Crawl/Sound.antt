-- ===== src/Crawl/Sound.antt =====
-- What a crawl keeps while it runs: what it tracks and requests lies in its scope, each once, and
-- within the limits (web_listening/blocks/tree_crawler.py, `_bootstrap_scope_in_transaction`).
use web_listening.Prelude.{
  ℕ, suc, ◌+◌, ◌≤◌, ◌≡◌, ◌≢◌, refl, arith, Bool, true, not, ◌&&◌, List, [], ◌∷◌, ◌++◌, All, Text,
  clamp, ltbℤ→lt, length, length-append,
}
use mathlib.Core.Path.{subst}
use web_listening.Crawl.Urls.{is_page_url_in_scope, is_file_url_in_scope}
use web_listening.Crawl.Data.{RowId, Queued, Crawl, is_among}
use web_listening.Crawl.Links.{Site}
use web_listening.Crawl.Pages.{crawl_pages, enough, start, Loop, ended, broke, ran_out}
use web_listening.Crawl.Ending.{crawl_pages_ends}
use web_listening.Crawl.Rules.{AreKept}
use web_listening.Crawl.Turns.{AreTaken, Stops, crawl_pages-Stops}

-- No text stands in the list twice.
abbrev pub is_unique : List Text → Bool
is_unique [] = true
is_unique (x ∷ xs) = not (is_among x xs) && is_unique xs

-- `p` and `f` are 1 where a page or a file was requested and not yet tracked.
pub record IsCounted {W : Type 0} (s : Site W) (p f : ℕ) (st : Crawl) : Type 0 where
  pub pages_unique : is_unique st.processed_page_urls ≡ true
  pub pages_listed : length st.pages ≡ length st.processed_page_urls
  pub pages_requested : p + length st.pages ≤ st.requested_pages
  pub pages_bounded : st.requested_pages ≤ clamp s.scope.max_pages
  pub files_unique : is_unique st.requested_file_urls ≡ true
  pub files_requested : f + length st.files ≤ length st.requested_file_urls
  pub files_bounded : length st.requested_file_urls ≤ clamp s.scope.max_files

length-snoc : (xs : List RowId) (id : RowId) → length (xs ++ (id ∷ [])) ≡ suc (length xs)
length-snoc xs id = omega (arith, length-append xs (id ∷ []))

pub counts :
    {W : Type 0} (s : Site W) → AreKept s (IsCounted s 0 0) (IsCounted s 1 0) (IsCounted s 0 1)
counts s = record {
  page_left = λ st h. ground arith;
  file_left = λ st h. ground arith;
  page_failed = λ st url h. ground arith;
  page_external = λ st h. ground arith;
  page_duplicate = λ st h. ground arith;
  file_failed = λ st url h. ground arith;
  file_external = λ st h. ground arith;
  file_duplicate = λ st h. ground arith;
  off_prefix = λ st h. ground arith;
  page_tracked = λ st url id inside new h. ground (arith, length-snoc st.pages id);
  file_requested = λ st url inside new free h.
      ground (arith, ltbℤ→lt (length st.requested_file_urls) s.scope.max_files free);
  file_tracked = λ st url id inside h. ground (arith, length-snoc st.files id);
  page_queued = λ st q url depth inside e shallow h. ground arith;
}

-- Every page and file lies in the scope, and no page is queued from beyond the depth limit.
pub record IsInScope {W : Type 0} (s : Site W) (st : Crawl) : Type 0 where
  pub pages : All (λ url. is_page_url_in_scope s.library s.scope url ≡ true) st.processed_page_urls
  pub files : All (λ url. is_file_url_in_scope s.library s.scope url ≡ true) st.processed_file_urls
  pub requested :
      All (λ url. is_file_url_in_scope s.library s.scope url ≡ true) st.requested_file_urls
  pub depths : All (λ q. q.depth ≤ clamp s.scope.max_depth) st.queued_pages

All-snoc :
    (P : Queued → Type 0) (xs : List Queued) (x : Queued) → All P xs → P x → All P (xs ++ (x ∷ []))
All-snoc P [] x h k = (k, tt)
All-snoc P (y ∷ xs) x h k = (h.0, All-snoc P xs x h.1 k)

pub scopes : {W : Type 0} (s : Site W) → AreKept s (IsInScope s) (IsInScope s) (IsInScope s)
scopes s = record {
  page_left = λ st h. h;
  file_left = λ st h. h;
  page_failed = λ st url h. ground arith;
  page_external = λ st h. ground arith;
  page_duplicate = λ st h. ground arith;
  file_failed = λ st url h. ground arith;
  file_external = λ st h. ground arith;
  file_duplicate = λ st h. ground arith;
  off_prefix = λ st h. ground arith;
  page_tracked = λ st url id inside new h. ground arith;
  file_requested = λ st url inside new free h. ground arith;
  file_tracked = λ st url id inside h. ground arith;
  page_queued = λ st q url depth inside e shallow h. record {
    pages = h.pages;
    files = h.files;
    requested = h.requested;
    depths =
        All-snoc (λ q'. q'.depth ≤ clamp s.scope.max_depth) st.queued_pages q h.depths
          (omega (arith, ltbℤ→lt depth s.scope.max_depth shallow));
  };
}

pub counts_taken : {W : Type 0} (s : Site W) → AreTaken s (IsCounted s 0 0) (IsCounted s 1 0)
counts_taken s st q qs e more h = ground (arith, ltbℤ→lt st.requested_pages s.scope.max_pages more)

pub scopes_taken : {W : Type 0} (s : Site W) → AreTaken s (IsInScope s) (IsInScope s)
scopes_taken s st q qs e more h =
    let depths : All (λ q'. q'.depth ≤ clamp s.scope.max_depth) (q ∷ qs) =
      subst (λ xs. All (λ q'. q'.depth ≤ clamp s.scope.max_depth) xs) e h.depths in
    record { pages = h.pages; files = h.files; requested = h.requested; depths = depths.1 }

-- The loop stops, and `P` holds of its variables then.
abbrev pub StopsWith : {S : Type 0} → (S → Type 0) → Loop S → Type 0
StopsWith P (ended st) = P st
StopsWith P (broke x st) = P st
StopsWith P ran_out = ⊥

pub stops_with :
    {S : Type 0} (P : S → Type 0) (loop : Loop S) → Stops P loop → loop ≢ ran_out → StopsWith P loop
stops_with P (ended st) h k = h
stops_with P (broke x st) h k = h
stops_with P ran_out h k = k refl

-- A crawl stops, by its own end or by an exception, and then it has requested at most `max_pages`
-- pages and `max_files` files, has tracked no page twice and requested no file twice, and has tracked
-- at most one page or file for each of its requests.
pub crawl_pages-IsCounted :
    {W : Type 0} (s : Site W) (w : W)
    → StopsWith (IsCounted s 0 0) (crawl_pages s (enough s) (start s) w).0
crawl_pages-IsCounted s w =
    stops_with (IsCounted s 0 0) (crawl_pages s (enough s) (start s) w).0
      (crawl_pages-Stops s (IsCounted s 0 0) (IsCounted s 1 0) (IsCounted s 0 1) (counts s)
        (counts_taken s) (enough s) (start s) w (ground arith))
      (crawl_pages_ends s (enough s) (start s) w (omega arith) (omega arith))

-- A crawl stops, by its own end or by an exception, and then every page and file that it has tracked
-- and every file that it has requested lies in the scope, and no page waits that is deeper than
-- `max_depth`.
pub crawl_pages-IsInScope :
    {W : Type 0} (s : Site W) (w : W)
    → StopsWith (IsInScope s) (crawl_pages s (enough s) (start s) w).0
crawl_pages-IsInScope s w =
    stops_with (IsInScope s) (crawl_pages s (enough s) (start s) w).0
      (crawl_pages-Stops s (IsInScope s) (IsInScope s) (IsInScope s) (scopes s) (scopes_taken s)
        (enough s) (start s) w (ground arith))
      (crawl_pages_ends s (enough s) (start s) w (omega arith) (omega arith))
