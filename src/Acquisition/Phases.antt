-- ===== src/Acquisition/Phases.antt =====
-- The phases of one acquisition: its arguments, its URL, its chain
-- (web_listening/blocks/acquisition_fallback.py, `acquire_with_fallback_result`).
use web_listening.Prelude.{◌≡◌, arith, Option, none, some, List, [], ◌∷◌, length}
use web_listening.Acquisition.Data.{
  AdapterId, Profile, Message, GoalPreset, permission_denied, unsafe_url, unsafe_url_code,
  ToolResult,
}
use web_listening.Acquisition.Capture.{Externals, Adapter}
use web_listening.Acquisition.Records.{terminal_result}
use web_listening.Acquisition.Safety.{
  unparsable, url_accepted, url_rejected, input_url_safety_error,
}
use web_listening.Acquisition.Resolve.{
  invalid_url, Request, Failure, refused, resolved, resolve_profile, adapter_chain, cut_chain,
}
use web_listening.Acquisition.Engine.{
  run_chain, engine, nothing_tried, acquire_resolved, acquire_with_fallback_result, returns, raises,
  finalize, end_of, plain_error,
}

module _ {W : Type 0} (e : Externals) (adapters : AdapterId → Option (Adapter W)) (q : Request)
    (w : W) where
  pub acquire-refused :
      (failure : Failure)
      → resolve_profile e q ≡ refused failure
      → acquire_with_fallback_result e adapters q w ≡ (raises failure, w)
  unfolding acquire_with_fallback_result
  acquire-refused failure h = ground arith

  pub acquire-resolved :
      (preset : Option GoalPreset) (p : Profile)
      → resolve_profile e q ≡ resolved preset p
      → acquire_with_fallback_result e adapters q w ≡ acquire_resolved e adapters q preset p w
  unfolding acquire_with_fallback_result
  acquire-resolved preset p h = ground arith

  abbrev pub chain_of : Profile → List AdapterId
  chain_of p = cut_chain q.max_attempts (adapter_chain p q.strategy)

  -- The result for a URL that is not taken.
  abbrev pub unsafe_result : Profile → Message → ToolResult
  unsafe_result p m =
      terminal_result none permission_denied unsafe_url [] q.quality_gates p.quality_gates (m ∷ [])
        (some (plain_error unsafe_url_code m))

  pub acquire_resolved-unsafe :
      (preset : Option GoalPreset) (p : Profile) (m : Message)
      → input_url_safety_error e q.url p.safety.allowed_domains ≡ url_rejected m
      → acquire_resolved e adapters q preset p w
        ≡ (returns (finalize preset (unsafe_result p m)), w)
  unfolding acquire_resolved
  acquire_resolved-unsafe preset p m h = ground arith

  pub acquire_resolved-unparsable :
      (preset : Option GoalPreset) (p : Profile)
      → input_url_safety_error e q.url p.safety.allowed_domains ≡ unparsable
      → acquire_resolved e adapters q preset p w ≡ (raises invalid_url, w)
  unfolding acquire_resolved
  acquire_resolved-unparsable preset p h = ground arith

  pub acquire_resolved-run :
      (preset : Option GoalPreset) (p : Profile)
      → input_url_safety_error e q.url p.safety.allowed_domains ≡ url_accepted
      → acquire_resolved e adapters q preset p w ≡ (
          let x = engine e adapters q p in
          let (turn, w') = run_chain x (chain_of p) nothing_tried w in
          (end_of x preset q.max_attempts (length (chain_of p)) turn, w'))
  unfolding acquire_resolved
  acquire_resolved-run preset p h = ground arith
