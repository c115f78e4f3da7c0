-- ===== src/Acquisition/Attempts.antt =====
-- The attempts of a whole acquisition
-- (web_listening/blocks/acquisition_fallback.py, `acquire_with_fallback_result`).
use web_listening.Prelude.{
  ℕ, ◌≡◌, refl, sym, ap, ◌∙◌, arith, Option, none, some, List, [], ◌∷◌, ◌++◌, map, All, ℤ, length,
  append-nil, append_assoc, Option-cases, inl, inr,
}
use web_listening.Acquisition.Data.{AdapterId, Profile, ToolResult, AttemptRecord, GoalPreset}
use web_listening.Acquisition.Capture.{Externals, Adapter}
use web_listening.Acquisition.Records.{terminal_result, entries}
use web_listening.Acquisition.Resolve.{Request, resolved, resolve_profile, adapter_chain, cut_chain}
use web_listening.Acquisition.Engine.{
  Engine, Progress, Turn, proceed, leave, refuse, run_chain, try_adapter, follow, engine,
  nothing_tried, exhausted, acquire_with_fallback_result, returns, finalize, end_of,
}
use web_listening.Acquisition.Turns.{try_adapter-IsTurn}
use web_listening.Acquisition.Phases.{acquire-resolved, acquire_resolved-run, chain_of}
use web_listening.Acquisition.Safety.{url_accepted, input_url_safety_error}
use web_listening.Acquisition.Report.{
  AreKeyed, tools, IsContinued, IsReport, IsStep, adds, ends, stops, fails, turn-IsStep,
}

tools-append :
    (rs : List AttemptRecord) (r : AttemptRecord) (done : List AdapterId) (a : AdapterId)
    → tools rs ≡ map some done
    → r.tool ≡ some a
    → tools (rs ++ (r ∷ [])) ≡ map some (done ++ (a ∷ []))
tools-append [] r [] a h k = ap (λ t. t ∷ []) k
tools-append [] r (d ∷ done) a h k = cc
tools-append (q ∷ rs) r [] a h k = cc
tools-append (q ∷ rs) r (d ∷ done) a h k =
    let (same, more) : (q.tool ≡ some d) × (tools rs ≡ map some done) = (cc, cc) in
    let rest = tools-append rs r done a more k in cc

All-append :
    (rs : List AttemptRecord) (r : AttemptRecord)
    → All IsContinued rs
    → IsContinued r
    → All IsContinued (rs ++ (r ∷ []))
All-append [] r h k = (k, tt)
All-append (q ∷ rs) r h k = (h.0, All-append rs r h.1 k)

-- So far the adapters `done` have been tried, and each let the engine go on.
abbrev HasTried : List AdapterId → List AttemptRecord → Type 0
HasTried done rs = (tools rs ≡ map some done) × All IsContinued rs

abbrev HasTold : List AdapterId → Turn → Type 0
HasTold chain (proceed st) = HasTried chain st.records
HasTold chain (leave r) = IsReport chain r.attempts
HasTold chain (refuse f) = Unit

module _ {W : Type 0} (x : Engine W) where
  step-HasTold :
      (done : List AdapterId) (a : AdapterId) (chain : List AdapterId) (st : Progress)
      (next : Progress → W → Turn × W) (turn : Turn) (w : W)
      → HasTried done st.records
      → IsStep x a st turn
      → ((st' : Progress)
          → HasTried (done ++ (a ∷ [])) st'.records
          → HasTold ((done ++ (a ∷ [])) ++ chain) (next st' w).0)
      → HasTold (done ++ (a ∷ chain)) (follow x turn w next).0
  step-HasTold done a chain st next turn w h (adds st' added e records tool goes_on) k =
      rw (e, ← append_assoc done (a ∷ []) chain)
        (k st' (
          rw records (
            tools-append st.records added done a h.0 tool,
            All-append st.records added h.1 goes_on,
          )))
  step-HasTold done a chain st next turn w h (ends r added e told tool) k = rw e (record {
    tried = done ++ (a ∷ []);
    rest = chain;
    parted = sym (append_assoc done (a ∷ []) chain);
    earlier = st.records;
    ending = added ∷ [];
    reported = told;
    in_order = tools-append st.records added done a h.0 tool;
    continued = h.1;
    at_most_one = omega arith;
  })
  step-HasTold done a chain st next turn w h (stops r e told) k = rw e (record {
    tried = done;
    rest = a ∷ chain;
    parted = refl;
    earlier = st.records;
    ending = [];
    reported = told ∙ ap entries (sym (append-nil st.records));
    in_order = ap tools (append-nil st.records) ∙ h.0;
    continued = h.1;
    at_most_one = omega arith;
  })
  step-HasTold done a chain st next turn w h (fails f e) k = rw e tt

  run_chain-HasTold :
      AreKeyed x.adapters
      → (done chain : List AdapterId) (st : Progress) (w : W) → HasTried done st.records
      → HasTold (done ++ chain) (run_chain x chain st w).0
  unfolding run_chain
  run_chain-HasTold keyed done [] st w h = (h.0 ∙ ap (map some) (sym (append-nil done)), h.1)
  run_chain-HasTold keyed done (a ∷ chain) st w h =
      let (turn, w') = try_adapter x a st w in
      step-HasTold done a chain st (run_chain x chain) turn w' h
        (turn-IsStep x keyed a st w turn w' (try_adapter-IsTurn x a st w))
        (λ st' h'. run_chain-HasTold keyed (done ++ (a ∷ [])) chain st' w' h')

-- The chain after it was tried to its end, and the result of that.
exhausted-IsReport :
    {W : Type 0} (x : Engine W) (n : Option ℤ) (tried : ℕ) (st : Progress) (chain : List AdapterId)
    → HasTried chain st.records
    → IsReport chain (exhausted x n tried st).attempts
unfolding exhausted terminal_result
exhausted-IsReport x n tried st chain h = record {
  tried = chain;
  rest = [];
  parted = sym (append-nil chain);
  earlier = st.records;
  ending = [];
  reported = elim (Option-cases st.last) [
    | inl e ↦ ground (arith, append-nil st.records)
    | inr (r, e) ↦ ground (arith, append-nil st.records)
  ];
  in_order = ap tools (append-nil st.records) ∙ h.0;
  continued = h.1;
  at_most_one = omega arith;
}

finalize-IsReport :
    (chain : List AdapterId) (preset : Option GoalPreset) (r s : ToolResult)
    → IsReport chain r.attempts
    → returns (finalize preset r) ≡ returns s
    → IsReport chain s.attempts
finalize-IsReport chain none r s h e = let k : r.attempts ≡ s.attempts = cc in rw (← k) h
finalize-IsReport chain (some g) r s h e =
    let k : finalize (some g) r ≡ s = cc in rw (← ap (λ t. t.attempts) k) h

end_of-IsReport :
    {W : Type 0} (x : Engine W) (chain : List AdapterId) (preset : Option GoalPreset) (n : Option ℤ)
    (tried : ℕ) (turn : Turn) (r : ToolResult)
    → HasTold chain turn
    → end_of x preset n tried turn ≡ returns r
    → IsReport chain r.attempts
end_of-IsReport x chain preset n tried (proceed st) r h e =
    finalize-IsReport chain preset (exhausted x n tried st) r
      (exhausted-IsReport x n tried st chain h) e
end_of-IsReport x chain preset n tried (leave s) r h e = finalize-IsReport chain preset s r h e
end_of-IsReport x chain preset n tried (refuse f) r h e = cc

-- Where the adapters are keyed by their own names, the attempts of a result that an acquisition of a
-- URL it may take returns are those of the first adapters of the chain, in its order and each once,
-- as far as `max_attempts` lets it go; and all but the last one let the engine go on.
pub acquire_with_fallback_result-IsReport :
    {W : Type 0} (e : Externals) (adapters : AdapterId → Option (Adapter W)) (q : Request) (w : W)
    (preset : Option GoalPreset) (p : Profile) (r : ToolResult)
    → AreKeyed adapters
    → resolve_profile e q ≡ resolved preset p
    → input_url_safety_error e q.url p.safety.allowed_domains ≡ url_accepted
    → (acquire_with_fallback_result e adapters q w).0 ≡ returns r
    → IsReport (cut_chain q.max_attempts (adapter_chain p q.strategy)) r.attempts
acquire_with_fallback_result-IsReport e adapters q w preset p r keyed known safe returned =
    let x = engine e adapters q p in
    let chain = chain_of e adapters q w p in
    let run =
      acquire-resolved e adapters q w preset p known
      ∙ acquire_resolved-run e adapters q w preset p safe in
    end_of-IsReport x chain preset q.max_attempts (length chain)
      (run_chain x chain nothing_tried w).0 r
      (run_chain-HasTold x keyed [] chain nothing_tried w (refl, tt))
      (sym (ap (λ t. t.0) run) ∙ returned)
