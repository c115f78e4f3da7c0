-- ===== src/Acquisition/Passing.antt =====
-- Which pages pass the quality gates (web_listening/blocks/acquisition_capture.py).
use web_listening.Prelude.{◌≡◌, ◌↔◌, ◌⊎◌, arith, true, false, none, Text, pos, ltbℤ}
use web_listening.Acquisition.Data.{AdapterId, QualityGates, FetchResult, capture_passed}
use web_listening.Acquisition.Capture.{
  Externals, evaluate_fetch_result, quality_failure_reasons, find_blocked_marker, searched_text,
  best_content_text, status_is_ok,
}

-- A page passes exactly where it shows no blocked marker, its status is in the two hundreds or the
-- gates do not ask for that, and its words, links and document links reach their minima.
pub evaluate_fetch_result-passed :
    (e : Externals) (a : AdapterId) (url : Text) (r : FetchResult) (g : QualityGates)
    → ((evaluate_fetch_result e a url r g).status ≡ capture_passed) ↔ (
        (find_blocked_marker e (searched_text e r) g.blocked_markers ≡ none)
        × ((g.require_status_ok ≡ false) ⊎ (status_is_ok r.status_code ≡ true))
        × (ltbℤ (pos (e.count_words (best_content_text r))) g.min_words ≡ false)
        × (ltbℤ r.metadata.link_count g.min_links ≡ false)
        × (ltbℤ r.metadata.document_link_count g.min_document_links ≡ false))
unfolding evaluate_fetch_result quality_failure_reasons
evaluate_fetch_result-passed e a url r g = ground arith
