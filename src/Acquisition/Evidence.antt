-- ===== src/Acquisition/Evidence.antt =====
-- Where the data of an acquisition comes from
-- (web_listening/blocks/acquisition_fallback.py, `acquire_with_fallback_result`).
use web_listening.Prelude.{
  refl, ℕ, ◌≡◌, sym, ap, ◌∙◌, arith, true, false, Option, none, some, List, [], length, ℤ,
  Option-cases, inl, inr,
}
use web_listening.Acquisition.Data.{AdapterId, Profile, Message, ToolResult, GoalPreset}
use web_listening.Acquisition.Capture.{Externals, Adapter}
use web_listening.Acquisition.Records.{terminal_result}
use web_listening.Acquisition.Safety.{url_accepted, UrlCheck-cases, input_url_safety_error}
use web_listening.Acquisition.Resolve.{Request, resolved, resolve_profile, adapter_chain, cut_chain}
use web_listening.Acquisition.Engine.{
  Engine, Progress, Turn, proceed, leave, refuse, run_chain, engine, nothing_tried, exhausted,
  acquire_resolved, acquire_with_fallback_result, returns, finalize, end_of,
}
use web_listening.Acquisition.Phases.{
  acquire-resolved, acquire_resolved-run, acquire_resolved-unparsable, acquire_resolved-unsafe,
  chain_of, unsafe_result,
}
use web_listening.Acquisition.Chain.{Ends}
use web_listening.Acquisition.Origins.{IsEvidence, HasNoData, HasEvidence, run_chain-Evidence}

exhausted_no_data :
    {W : Type 0} (x : Engine W) (chain : List AdapterId) (start : W) (n : Option ℤ) (tried : ℕ)
    (st : Progress)
    → HasNoData x chain start st
    → (exhausted x n tried st).has_data ≡ false
unfolding exhausted terminal_result
exhausted_no_data x chain start n tried st h = elim (Option-cases st.last) [
  | inl e ↦ ground arith
  | inr (r, e) ↦ ground (arith, h r e)
]

moved :
    {W : Type 0} (x : Engine W) (chain : List AdapterId) (start : W) (r s : ToolResult)
    → IsEvidence x chain start r
    → r.data_status ≡ s.data_status
    → r.payload ≡ s.payload
    → r.tool ≡ s.tool
    → IsEvidence x chain start s
moved x chain start r s v a c b = record {
  earlier = v.earlier;
  key = v.key;
  later = v.later;
  parted = v.parted;
  before = v.before;
  world = v.world;
  reached = v.reached;
  adapter = v.adapter;
  allowed = v.allowed;
  response = v.response;
  responded = v.responded;
  usable = v.usable;
  shown = sym a ∙ v.shown;
  contents = sym c ∙ v.contents;
  named = sym b ∙ v.named;
}

finalize-IsEvidence :
    {W : Type 0} (x : Engine W) (chain : List AdapterId) (start : W) (preset : Option GoalPreset)
    (r s : ToolResult)
    → (r.has_data ≡ true → IsEvidence x chain start r)
    → returns (finalize preset r) ≡ returns s
    → s.has_data ≡ true
    → IsEvidence x chain start s
finalize-IsEvidence x chain start none r s f e h =
    let k : finalize none r ≡ s = cc in
    moved x chain start r s (f (ap (λ t. t.has_data) k ∙ h)) (ap (λ t. t.data_status) k)
      (ap (λ t. t.payload) k) (ap (λ t. t.tool) k)
finalize-IsEvidence x chain start (some g) r s f e h =
    let k : finalize (some g) r ≡ s = cc in
    moved x chain start r s (f (ap (λ t. t.has_data) k ∙ h)) (ap (λ t. t.data_status) k)
      (ap (λ t. t.payload) k) (ap (λ t. t.tool) k)

end_of-IsEvidence :
    {W : Type 0} (x : Engine W) (chain : List AdapterId) (start : W) (preset : Option GoalPreset)
    (n : Option ℤ) (tried : ℕ) (turn : Turn) (r : ToolResult)
    → Ends (HasNoData x chain start) (HasEvidence x chain start) (λ f. Unit) turn
    → end_of x preset n tried turn ≡ returns r
    → r.has_data ≡ true
    → IsEvidence x chain start r
end_of-IsEvidence x chain start preset n tried (proceed st) r ends e h =
    finalize-IsEvidence x chain start preset (exhausted x n tried st) r
      (λ k. let no = exhausted_no_data x chain start n tried st ends in cc) e h
end_of-IsEvidence x chain start preset n tried (leave s) r ends e h =
    finalize-IsEvidence x chain start preset s r ends e h
end_of-IsEvidence x chain start preset n tried (refuse f) r ends e h = cc

ran_nothing :
    {W : Type 0} (x : Engine W) (start : W)
    → run_chain x [] nothing_tried start ≡ (proceed nothing_tried, start)
unfolding run_chain
ran_nothing x start = refl

unsafe_no_data :
    {W : Type 0} (e : Externals) (adapters : AdapterId → Option (Adapter W)) (q : Request) (w : W)
    (preset : Option GoalPreset) (p : Profile) (m : Message) (r : ToolResult)
    → returns (finalize preset (unsafe_result e adapters q w p m)) ≡ returns r
    → r.has_data ≡ true
    → ⊥
unfolding terminal_result
unsafe_no_data e adapters q w none p m r h k = cc
unsafe_no_data e adapters q w (some g) p m r h k = cc

-- Where an acquisition returns a result that has data, the URL it was asked for is one that it may
-- take, and the data is that of an adapter of the chain, as far as `max_attempts` lets it go, which
-- the profile does not disable and its safety flags permit. The engine had tried the adapters before
-- it, and gone on from each; then it asked this one, in the world that those left, and got a page that
-- passes every gate, whose status is none of 401, 403, 404 and 410, and whose final URL lies within
-- the allowed domains. The result's payload is that page's URL and the start of its text.
pub acquire_with_fallback_result-IsEvidence :
    {W : Type 0} (e : Externals) (adapters : AdapterId → Option (Adapter W)) (q : Request) (w : W)
    (preset : Option GoalPreset) (p : Profile) (r : ToolResult)
    → resolve_profile e q ≡ resolved preset p
    → (acquire_with_fallback_result e adapters q w).0 ≡ returns r
    → r.has_data ≡ true
    → (input_url_safety_error e q.url p.safety.allowed_domains ≡ url_accepted)
      × IsEvidence
          (engine e adapters q p)
          (cut_chain q.max_attempts (adapter_chain p q.strategy))
          w
          r
unfolding terminal_result
acquire_with_fallback_result-IsEvidence e adapters q w preset p r known returned h =
    let returned' : (acquire_resolved e adapters q preset p w).0 ≡ returns r =
      rw (← acquire-resolved e adapters q w preset p known) returned in
    elim (UrlCheck-cases (input_url_safety_error e q.url p.safety.allowed_domains)) [
      | inl unread ↦
          let run = ap (λ t. t.0) (acquire_resolved-unparsable e adapters q w preset p unread) in
          absurd cc
      | inr (inl safe) ↦
          let x = engine e adapters q p in
          let chain = chain_of e adapters q w p in
          let run = ap (λ t. t.0) (acquire_resolved-run e adapters q w preset p safe) in
          (
            safe,
            end_of-IsEvidence x chain w preset q.max_attempts (length chain)
                (run_chain x chain nothing_tried w).0 r
                (run_chain-Evidence x chain w [] chain nothing_tried w refl (ran_nothing x w)
                  (λ r k. cc))
                (sym run ∙ returned') h,
          )
      | inr (inr (m, unsafe)) ↦
          let run = ap (λ t. t.0) (acquire_resolved-unsafe e adapters q w preset p m unsafe) in
          absurd (unsafe_no_data e adapters q w preset p m r (sym run ∙ returned') h)
    ]
