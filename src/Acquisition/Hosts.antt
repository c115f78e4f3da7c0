-- ===== src/Acquisition/Hosts.antt =====
-- Which hosts are allowed (web_listening/blocks/acquisition_fallback.py, `_host_allowed`).
use web_listening.Prelude.{
  ◌≡◌, ◌↔◌, ◌⊎◌, inl, inr, refl, ap, arith, true, List, [], ◌∷◌, ◌++◌, any_iff, Some, Text,
  same_text→eq, same_text_refl, same_text, ends_with, Bool-cases,
}
use web_listening.Acquisition.Capture.{Externals}
use web_listening.Acquisition.Safety.{
  dot, host_allowed, host_matches, normalized_host, normalized_domain,
}

-- `host.endswith(suffix)` and a label before it.
ends_with→split :
    (xs suffix : Text) → ends_with xs suffix ≡ true → (label : Text) × (xs ≡ label ++ suffix)
ends_with→split [] suffix h = ([], same_text→eq [] suffix h)
ends_with→split (x ∷ xs) suffix h = elim (Bool-cases (same_text (x ∷ xs) suffix)) [
  | inl whole ↦ ([], same_text→eq (x ∷ xs) suffix whole)
  | inr part ↦
      let (label, k) = ends_with→split xs suffix (ground arith) in (x ∷ label, ap (λ ys. x ∷ ys) k)
]

split→ends_with : (label suffix : Text) → ends_with (label ++ suffix) suffix ≡ true
split→ends_with [] [] = refl
split→ends_with [] (x ∷ xs) = ground (arith, same_text_refl (x ∷ xs))
split→ends_with (y ∷ label) suffix = ground (arith, split→ends_with label suffix)

-- The host is the domain, or one of its subdomains.
abbrev pub IsWithin : Text → Text → Type 0
IsWithin host domain = (host ≡ domain) ⊎ ((label : Text) × (host ≡ label ++ (dot ∷ domain)))

host_matches_iff : (host domain : Text) → (host_matches host domain ≡ true) ↔ IsWithin host domain
host_matches_iff host domain = (
  λ h. elim (Bool-cases (same_text host domain)) [
    | inl whole ↦ inl (same_text→eq host domain whole)
    | inr part ↦ inr (ends_with→split host (dot ∷ domain) (ground arith))
  ],
  λ h. elim h [
    | inl whole ↦ rw whole (ground (arith, same_text_refl domain))
    | inr (label, k) ↦ rw k (ground (arith, split→ends_with label (dot ∷ domain)))
  ],
)

-- A host is allowed exactly where, both normalized, it is one of the domains or a subdomain of one.
pub host_allowed_iff :
    (e : Externals) (host : Text) (domains : List Text)
    → (host_allowed e host domains ≡ true)
      ↔ Some (λ d. IsWithin (normalized_host e host) (normalized_domain e d)) domains
unfolding host_allowed
host_allowed_iff e host domains =
    any_iff (λ d. host_matches (normalized_host e host) (normalized_domain e d))
      (λ d. IsWithin (normalized_host e host) (normalized_domain e d)) domains
      (λ d. host_matches_iff (normalized_host e host) (normalized_domain e d))
