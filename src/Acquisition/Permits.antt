-- ===== src/Acquisition/Permits.antt =====
-- What a validated profile rules out (web_listening/blocks/acquisition_profile.py,
-- `validate_stealth_browser_safety`; web_listening/blocks/acquisition_fallback.py).
use web_listening.Prelude.{
  ◌≡◌, ◌≢◌, refl, arith, true, false, not, ◌&&◌, Option, none, some, List, [], ◌∷◌, ◌++◌, All,
  All-weaken, ℕ, zero, suc, ℤ, clamp, take, Text, Bool-cases, inl, inr,
}
use web_listening.Acquisition.Data.{AdapterId, cloakbrowser, Profile, SafetyPolicy, GoalPreset}
use web_listening.Acquisition.Profile.{
  is_in, permits_cloakbrowser, same_adapter, validate_stealth_browser_safety,
  build_default_acquisition_profile, append_new, adapter_sequence,
}
use web_listening.Acquisition.Capture.{Externals}
use web_listening.Acquisition.Resolve.{
  Strategy, authorized_fallback, other_strategy, public_web_default, document_discovery_default,
  dynamic_page_default, Request, given_profile, default_chains, resolve_profile, resolved,
  adapter_chain, cut_chain, resolve_goal_preset, coerce_quality_gates,
}

-- Every default profile passes the validator, whichever safety flags it is built with.
pub build_default_acquisition_profile-valid :
    (empty_config : ℕ) (markers : List Text) (site_key : Text) (safety : SafetyPolicy)
    → validate_stealth_browser_safety
        (build_default_acquisition_profile empty_config markers site_key safety)
      ≡ true
unfolding validate_stealth_browser_safety build_default_acquisition_profile
build_default_acquisition_profile-valid e markers key safety = ground arith

-- An adapter that may be tried: CloakBrowser only where the safety flags permit it.
abbrev pub IsPermitted : Profile → AdapterId → Type 0
IsPermitted p a = (same_adapter a cloakbrowser && not (permits_cloakbrowser p.safety)) ≡ false

take-All : (P : AdapterId → Type 0) (n : ℕ) (xs : List AdapterId) → All P xs → All P (take n xs)
take-All P zero xs h = tt
take-All P (suc n) [] h = tt
take-All P (suc n) (x ∷ xs) h = (h.0, take-All P n xs h.1)

cut_chain-All :
    (P : AdapterId → Type 0) (n : Option ℤ) (xs : List AdapterId)
    → All P xs
    → All P (cut_chain n xs)
cut_chain-All P none xs h = h
cut_chain-All P (some n) xs h = take-All P (clamp n) xs h

All-snoc :
    (P : AdapterId → Type 0) (xs : List AdapterId) (a : AdapterId)
    → All P xs
    → P a
    → All P (xs ++ (a ∷ []))
All-snoc P [] a h k = (k, tt)
All-snoc P (x ∷ xs) a h k = (h.0, All-snoc P xs a h.1 k)

append_new-All :
    (P : AdapterId → Type 0) (chain order : List AdapterId)
    → All P chain
    → All P order
    → All P (append_new chain order)
append_new-All P chain [] h k = h
append_new-All P chain (a ∷ order) h k = elim (Bool-cases (is_in a chain)) [
  | inl old ↦ rw old (append_new-All P chain order h k.1)
  | inr new ↦ rw new (append_new-All P (chain ++ (a ∷ [])) order (All-snoc P chain a h k.0) k.1)
]

valid-All :
    (p : Profile) (xs : List AdapterId)
    → (is_in cloakbrowser xs && not (permits_cloakbrowser p.safety)) ≡ false
    → All (IsPermitted p) xs
valid-All p [] h = tt
valid-All p (x ∷ xs) h = (ground arith, valid-All p xs (ground arith))

valid-adapter_sequence :
    (p : Profile)
    → validate_stealth_browser_safety p ≡ true
    → All (IsPermitted p) (adapter_sequence p)
unfolding validate_stealth_browser_safety
valid-adapter_sequence p h =
    append_new-All (IsPermitted p) (p.default_adapter ∷ []) p.fallback_order (ground arith, tt)
      (valid-All p p.fallback_order (ground arith))

-- What the arguments of an acquisition leave of a profile: its safety flags, and, but for a strategy
-- of `DEFAULT_CHAINS`, its adapters' order.
record IsKept (strategy : Option Strategy) (b p : Profile) : Type 0 where
  flags : permits_cloakbrowser p.safety ≡ permits_cloakbrowser b.safety
  order : default_chains strategy ≡ none → adapter_sequence p ≡ adapter_sequence b

resolve_profile-IsKept :
    (e : Externals) (q : Request) (preset : Option GoalPreset) (p : Profile)
    → resolve_profile e q ≡ resolved preset p
    → IsKept q.strategy (given_profile e q.url q.profile) p
unfolding resolve_profile resolve_goal_preset coerce_quality_gates
resolve_profile-IsKept e q preset p known = record {
  flags = ground arith;
  order = λ n. ground arith;
}

chain-IsPermitted :
    (strategy : Option Strategy) (b p : Profile)
    → IsKept strategy b p
    → validate_stealth_browser_safety b ≡ true
    → strategy ≢ some authorized_fallback
    → All (IsPermitted p) (adapter_chain p strategy)
unfolding adapter_chain default_chains
chain-IsPermitted none b p kept valid open_strategy =
    rw (kept.order refl)
      (All-weaken (adapter_sequence b) (λ a h. rw kept.flags h) (valid-adapter_sequence b valid))
chain-IsPermitted (some (other_strategy t)) b p kept valid open_strategy =
    rw (kept.order refl)
      (All-weaken (adapter_sequence b) (λ a h. rw kept.flags h) (valid-adapter_sequence b valid))
chain-IsPermitted (some authorized_fallback) b p kept valid open_strategy =
    absurd (open_strategy refl)
chain-IsPermitted (some public_web_default) b p kept valid open_strategy =
    (refl, (refl, (refl, (refl, tt))))
chain-IsPermitted (some document_discovery_default) b p kept valid open_strategy =
    (refl, (refl, (refl, (refl, tt))))
chain-IsPermitted (some dynamic_page_default) b p kept valid open_strategy =
    (refl, (refl, (refl, (refl, tt))))

-- The chain of a resolved profile, unless the strategy is `authorized_fallback`.
pub resolved-IsPermitted :
    (e : Externals) (q : Request) (preset : Option GoalPreset) (p : Profile)
    → validate_stealth_browser_safety (given_profile e q.url q.profile) ≡ true
    → q.strategy ≢ some authorized_fallback
    → resolve_profile e q ≡ resolved preset p
    → All (IsPermitted p) (cut_chain q.max_attempts (adapter_chain p q.strategy))
resolved-IsPermitted e q preset p valid open_strategy known =
    cut_chain-All (IsPermitted p) q.max_attempts (adapter_chain p q.strategy) (
      chain-IsPermitted q.strategy (given_profile e q.url q.profile) p
        (resolve_profile-IsKept e q preset p known) valid open_strategy)
