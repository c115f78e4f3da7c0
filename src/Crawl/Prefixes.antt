-- ===== src/Crawl/Prefixes.antt =====
-- Which paths the prefixes of a scope take
-- (web_listening/blocks/tree_crawler.py, `path_matches_prefixes`).
use web_listening.Prelude.{
  ◌≡◌, ◌↔◌, ◌⊎◌, inl, inr, refl, ◌∙◌, arith, true, List, ◌++◌, Some, any_iff, Text, same_text,
  same_text→eq, same_text_refl, starts_with→split, split→starts_with, append_assoc, sym, Bool-cases,
}
use web_listening.Crawl.Urls.{root, normalized_path, matches_prefix, path_matches_prefixes}

-- The path is the prefix, or lies below it, by whole segments; everything lies below `/`.
abbrev pub IsBelow : Text → Text → Type 0
IsBelow path prefix =
    (prefix ≡ root) ⊎ ((path ≡ prefix) ⊎ ((rest : Text) × (path ≡ prefix ++ (root ++ rest))))

matches_prefix_iff :
    (path prefix : Text) → (matches_prefix path prefix ≡ true) ↔ IsBelow path prefix
matches_prefix_iff path prefix = (
  λ h. elim (Bool-cases (same_text prefix root)) [
    | inl top ↦ inl (same_text→eq prefix root top)
    | inr low ↦ elim (Bool-cases (same_text path prefix)) [
      | inl same ↦ inr (inl (same_text→eq path prefix same))
      | inr other ↦
          let (rest, k) = starts_with→split path (prefix ++ root) (ground arith) in
          inr (inr (rest, k ∙ append_assoc prefix root rest))
    ]
  ],
  λ h. elim h [
    | inl top ↦ rw top refl
    | inr (inl same) ↦ rw same (ground (arith, same_text_refl prefix))
    | inr (inr (rest, k)) ↦
        rw (k ∙ sym (append_assoc prefix root rest))
          (ground (arith, split→starts_with (prefix ++ root) rest))
  ],
)

-- A path is taken exactly where, without last slashes, it is one of the prefixes or lies below one by
-- whole segments; the prefix `/` takes every path, and no prefix takes none.
pub path_matches_prefixes_iff :
    (path : Text) (prefixes : List Text)
    → (path_matches_prefixes path prefixes ≡ true)
      ↔ Some (λ p. IsBelow (normalized_path path) (normalized_path p)) prefixes
unfolding path_matches_prefixes
path_matches_prefixes_iff path prefixes =
    any_iff (λ p. matches_prefix (normalized_path path) (normalized_path p))
      (λ p. IsBelow (normalized_path path) (normalized_path p)) prefixes
      (λ p. matches_prefix_iff (normalized_path path) (normalized_path p))
