-- ===== src/Acquisition/Irrelevant.antt =====
-- Adapters that an acquisition does not ask
-- (web_listening/blocks/acquisition_fallback.py, `acquire_with_fallback_result`).
use web_listening.Prelude.{
  ◌≡◌, refl, ap, arith, true, false, ◌⊎◌, inl, inr, Option, List, [], ◌∷◌, length, ℕ, ℤ, ◌∙◌, sym,
}
use web_listening.Acquisition.Data.{AdapterId, cloakbrowser, Profile, GoalPreset}
use web_listening.Acquisition.Profile.{permits_cloakbrowser, is_disabled, same_adapter}
use web_listening.Acquisition.Capture.{Externals, Adapter}
use web_listening.Acquisition.Safety.{UrlCheck-cases, input_url_safety_error}
use web_listening.Acquisition.Resolve.{Request, resolved, resolve_profile}
use web_listening.Acquisition.Engine.{
  Progress, Turn, proceed, leave, refuse, judge, skip, settle, try_adapter, run_chain, follow,
  exhausted, engine, end_of, acquire_with_fallback_result, nothing_tried,
}
use web_listening.Acquisition.Phases.{
  acquire-resolved, acquire_resolved-run, acquire_resolved-unsafe, acquire_resolved-unparsable,
  chain_of,
}

-- The profile disables the adapter, or it is CloakBrowser and the safety flags do not permit it.
abbrev pub IsIrrelevant : Profile → AdapterId → Type 0
IsIrrelevant p a =
    (is_disabled p a ≡ true)
    ⊎ ((same_adapter a cloakbrowser ≡ true) × (permits_cloakbrowser p.safety ≡ false))

abbrev pub AreAlike :
    {W : Type 0}
    → Profile
    → (AdapterId → Option (Adapter W))
    → (AdapterId → Option (Adapter W))
    → Type 0
AreAlike p adapters adapters' = (a : AdapterId) → IsIrrelevant p a ⊎ (adapters a ≡ adapters' a)

module _ {W : Type 0} (e : Externals) (adapters adapters' : AdapterId → Option (Adapter W))
    (q : Request) (p : Profile) where
  try_adapter-alike :
      AreAlike p adapters adapters'
      → (a : AdapterId) (st : Progress) (w : W)
      → try_adapter (engine e adapters q p) a st w ≡ try_adapter (engine e adapters' q p) a st w
  unfolding try_adapter settle skip judge
  try_adapter-alike alike a st w = elim (alike a) [
    | inl (inl d) ↦ ground arith
    | inl (inr (c, n)) ↦ ground arith
    | inr same ↦ rw same refl
  ]

  follow-alike :
      (turn : Turn) (w : W) (next next' : Progress → W → Turn × W)
      → ((st : Progress) (v : W) → next st v ≡ next' st v)
      → follow (engine e adapters q p) turn w next ≡ follow (engine e adapters' q p) turn w next'
  follow-alike (proceed st) w next next' h = h st w
  follow-alike (leave r) w next next' h = refl
  follow-alike (refuse f) w next next' h = refl

  run_chain-alike :
      AreAlike p adapters adapters'
      → (chain : List AdapterId) (st : Progress) (w : W)
      → run_chain (engine e adapters q p) chain st w ≡ run_chain (engine e adapters' q p) chain st w
  unfolding run_chain
  run_chain-alike alike [] st w = refl
  run_chain-alike alike (a ∷ chain) st w = rw (try_adapter-alike alike a st w) (
      follow-alike (try_adapter (engine e adapters' q p) a st w).0
        (try_adapter (engine e adapters' q p) a st w).1 (run_chain (engine e adapters q p) chain)
        (run_chain (engine e adapters' q p) chain) (run_chain-alike alike chain))

  end_of-alike :
      (preset : Option GoalPreset) (n : Option ℤ) (tried : ℕ) (turn : Turn)
      → end_of (engine e adapters q p) preset n tried turn
        ≡ end_of (engine e adapters' q p) preset n tried turn
  unfolding exhausted
  end_of-alike preset n tried (proceed st) = refl
  end_of-alike preset n tried (leave r) = refl
  end_of-alike preset n tried (refuse f) = refl

  -- What an adapter would do that the profile disables, or CloakBrowser where the safety flags do
  -- not permit it, or whether there is one at all, changes neither what an acquisition returns or
  -- raises nor the world it leaves: such an adapter is never asked.
  pub acquire_with_fallback_result-IsIrrelevant :
      (preset : Option GoalPreset) (w : W)
      → resolve_profile e q ≡ resolved preset p
      → AreAlike p adapters adapters'
      → acquire_with_fallback_result e adapters q w ≡ acquire_with_fallback_result e adapters' q w
  acquire_with_fallback_result-IsIrrelevant preset w known alike =
      elim (UrlCheck-cases (input_url_safety_error e q.url p.safety.allowed_domains)) [
        | inl unread ↦
            acquire-resolved e adapters q w preset p known
            ∙ acquire_resolved-unparsable e adapters q w preset p unread
            ∙ sym (
                acquire-resolved e adapters' q w preset p known
                ∙ acquire_resolved-unparsable e adapters' q w preset p unread)
        | inr (inl safe) ↦
            acquire-resolved e adapters q w preset p known
            ∙ acquire_resolved-run e adapters q w preset p safe
            ∙ rw (run_chain-alike alike (chain_of e adapters q w p) nothing_tried w) (
                ap
                  (λ o. (
                    o,
                    (run_chain (engine e adapters' q p) (chain_of e adapters' q w p) nothing_tried
                        w).1,
                  ))
                  (end_of-alike preset q.max_attempts (length (chain_of e adapters' q w p))
                    (run_chain (engine e adapters' q p) (chain_of e adapters' q w p) nothing_tried
                      w).0))
            ∙ sym (
                acquire-resolved e adapters' q w preset p known
                ∙ acquire_resolved-run e adapters' q w preset p safe)
        | inr (inr (m, unsafe)) ↦
            acquire-resolved e adapters q w preset p known
            ∙ acquire_resolved-unsafe e adapters q w preset p m unsafe
            ∙ sym (
                acquire-resolved e adapters' q w preset p known
                ∙ acquire_resolved-unsafe e adapters' q w preset p m unsafe)
      ]
