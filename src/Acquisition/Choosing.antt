-- ===== src/Acquisition/Choosing.antt =====
-- Which adapter is recommended next, which pages pass, and which hosts are allowed
-- (web_listening/blocks/acquisition_profile.py, acquisition_capture.py, acquisition_fallback.py).
use web_listening.Prelude.{
  ◌≡◌, ◌⊎◌, inl, inr, refl, ap, arith, Bool, true, false, not, ◌&&◌, Option, none, some, List, [],
  ◌∷◌, ◌++◌, any, Bool-cases,
}
use web_listening.Acquisition.Data.{AdapterId, Profile, CaptureAttempt}
use web_listening.Acquisition.Profile.{
  is_disabled, is_passed, same_adapter, adapter_sequence, first_untried, recommend_next_adapter,
}

abbrev pub is_attempted : List CaptureAttempt → AdapterId → Bool
is_attempted attempts a = any (λ t. same_adapter a t.adapter) attempts

-- An adapter that could still be tried.
abbrev pub is_untried : Profile → List CaptureAttempt → AdapterId → Bool
is_untried p attempts a = not (is_attempted attempts a) && not (is_disabled p a)

-- The first of a list that has the property: what stands before it has not.
pub record IsFirst (test : AdapterId → Bool) (xs : List AdapterId) (a : AdapterId) : Type 0 where
  pub before : List AdapterId
  pub after : List AdapterId
  pub parted : xs ≡ before ++ (a ∷ after)
  pub passed_over : any test before ≡ false
  pub chosen : test a ≡ true

first_untried-IsFirst :
    (p : Profile) (attempts : List CaptureAttempt) (xs : List AdapterId) (a : AdapterId)
    → first_untried p attempts xs ≡ some a
    → IsFirst (is_untried p attempts) xs a
first_untried-IsFirst p attempts [] a h = cc
first_untried-IsFirst p attempts (x ∷ xs) a h = elim (Bool-cases (is_untried p attempts x)) [
  | inl opened ↦
      let k : x ≡ a = ground arith in
      record {
        before = [];
        after = xs;
        parted = ap (λ y. y ∷ xs) k;
        passed_over = refl;
        chosen = rw (← k) opened;
      }
  | inr closed ↦
      let v = first_untried-IsFirst p attempts xs a (ground arith) in
      record {
        before = x ∷ v.before;
        after = v.after;
        parted = ap (λ ys. x ∷ ys) v.parted;
        passed_over = ground (arith, v.passed_over);
        chosen = v.chosen;
      }
]

first_untried-none :
    (p : Profile) (attempts : List CaptureAttempt) (xs : List AdapterId)
    → first_untried p attempts xs ≡ none
    → any (is_untried p attempts) xs ≡ false
first_untried-none p attempts [] h = refl
first_untried-none p attempts (x ∷ xs) h = elim (Bool-cases (is_untried p attempts x)) [
  | inl opened ↦ absurd (ground arith)
  | inr closed ↦ ground (arith, first_untried-none p attempts xs)
]

-- What a recommendation means.
abbrev pub IsRecommended : Profile → List CaptureAttempt → Option AdapterId → Type 0
IsRecommended p attempts none =
    (any (λ t. is_passed t.status) attempts ≡ true)
    ⊎ (any (is_untried p attempts) (adapter_sequence p) ≡ false)
IsRecommended p attempts (some a) =
    (any (λ t. is_passed t.status) attempts ≡ false)
    × IsFirst (is_untried p attempts) (adapter_sequence p) a

-- The adapter that is recommended next is the first one of the profile's order that is neither
-- attempted nor disabled, and no attempt has passed; none is recommended where an attempt has passed
-- or no such adapter is left.
pub recommend_next_adapter-IsRecommended :
    (p : Profile) (attempts : List CaptureAttempt)
    → IsRecommended p attempts (recommend_next_adapter p attempts)
unfolding recommend_next_adapter
recommend_next_adapter-IsRecommended p attempts =
    elim (Bool-cases (any (λ t. is_passed t.status) attempts)) [
      | inl passed ↦ rw passed (inl passed)
      | inr none_passed ↦
          rw none_passed
            (recommended none_passed (first_untried p attempts (adapter_sequence p)) refl)
    ]
  where
    recommended :
        any (λ t. is_passed t.status) attempts ≡ false
        → (o : Option AdapterId) → first_untried p attempts (adapter_sequence p) ≡ o
        → IsRecommended p attempts o
    recommended n none h = inr (first_untried-none p attempts (adapter_sequence p) h)
    recommended n (some a) h = (n, first_untried-IsFirst p attempts (adapter_sequence p) a h)
