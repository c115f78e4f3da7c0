-- ===== src/Acquisition/Turns.antt =====
-- How one turn of the fallback engine may end
-- (web_listening/blocks/acquisition_fallback.py, the loop of `acquire_with_fallback_result`).
use web_listening.Prelude.{
  ◌≡◌, arith, true, false, not, ◌&&◌, some, [], ◌∷◌, ◌++◌, Bool-cases, Option-cases, inl, inr,
}
use web_listening.Acquisition.Data.{
  AdapterId, cloakbrowser, SkipReason, adapter_is_disabled, adapter_is_reserved, CaptureAttempt,
}
use web_listening.Acquisition.Profile.{
  permits_cloakbrowser, is_disabled, same_adapter, recommend_next_adapter,
}
use web_listening.Acquisition.Capture.{
  Captured, Adapter, run_capture_attempt, judge_capture, capture_is_safe, adapter_config,
}
use web_listening.Acquisition.Resolve.{capture_not_permitted}
use web_listening.Acquisition.Engine.{
  Engine, Progress, Turn, proceed, leave, refuse, skip, settle, deny_escalation, try_adapter,
}

module _ {W : Type 0} (x : Engine W) where
  -- What the adapter answers.
  abbrev pub answer : Adapter W → W → Captured × W
  answer ad w = ad.capture x.url (adapter_config x.profile ad.adapter_id) w

  -- The attempt that the engine makes of it.
  abbrev pub attempt_of : Adapter W → Progress → W → CaptureAttempt
  attempt_of ad st w =
      let c = judge_capture x.externals ad.adapter_id x.url x.profile (answer ad w).0 in
      record c {
        recommended_next_adapter = recommend_next_adapter x.profile (st.captures ++ (c ∷ []));
      }

  -- The adapter under a key may be asked.
  pub record IsAllowed (a : AdapterId) (ad : Adapter W) : Type 0 where
    pub enabled : is_disabled x.profile a ≡ false
    pub permitted :
        (same_adapter a cloakbrowser && not (permits_cloakbrowser x.profile.safety)) ≡ false
    pub found : x.adapters a ≡ some ad
    pub safe : capture_is_safe ad.adapter_id x.profile ≡ true

  pub data IsTurn (a : AdapterId) (st : Progress) (w : W) (turn : Turn) (w' : W) : Type 0 where
    skips :
        (reason : SkipReason) → turn ≡ proceed (skip x a reason st) → w' ≡ w → IsTurn a st w turn w'
    denies :
        (same_adapter a cloakbrowser && not (permits_cloakbrowser x.profile.safety)) ≡ true
        → turn ≡ leave (deny_escalation x st.records)
        → w' ≡ w
        → IsTurn a st w turn w'
    refuses :
        (ad : Adapter W)
        → x.adapters a ≡ some ad
        → capture_is_safe ad.adapter_id x.profile ≡ false
        → (same_adapter a cloakbrowser && not (permits_cloakbrowser x.profile.safety)) ≡ false
        → turn ≡ refuse capture_not_permitted
        → w' ≡ w
        → IsTurn a st w turn w'
    asks :
        (ad : Adapter W)
        → IsAllowed a ad
        → turn ≡ settle x (attempt_of ad st w) st
        → w' ≡ (answer ad w).1
        → IsTurn a st w turn w'

  pub try_adapter-IsTurn :
      (a : AdapterId) (st : Progress) (w : W)
      → IsTurn a st w (try_adapter x a st w).0 (try_adapter x a st w).1
  unfolding try_adapter run_capture_attempt
  try_adapter-IsTurn a st w = elim (Bool-cases (is_disabled x.profile a)) [
    | inl d ↦ skips adapter_is_disabled (ground arith) (ground arith)
    | inr d ↦
        elim (Bool-cases
          (same_adapter a cloakbrowser && not (permits_cloakbrowser x.profile.safety))) [
            | inl u ↦ denies u (ground arith) (ground arith)
            | inr u ↦ elim (Option-cases (x.adapters a)) [
              | inl n ↦ skips adapter_is_reserved (ground arith) (ground arith)
              | inr (ad, found) ↦ elim (Bool-cases (capture_is_safe ad.adapter_id x.profile)) [
                | inl safe ↦
                    asks ad (record { enabled = d; permitted = u; found = found; safe = safe })
                      (ground arith) (ground arith)
                | inr unsafe ↦ refuses ad found unsafe u (ground arith) (ground arith)
              ]
            ]
          ]
  ]
