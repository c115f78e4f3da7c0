-- ===== src/Acquisition/Origins.antt =====
-- Where the data of a chain comes from: the loop, turn by turn
-- (web_listening/blocks/acquisition_fallback.py, `acquire_with_fallback_result`).
use web_listening.Prelude.{
  refl, ◌++◌, append_assoc, or_else, ◌≡◌, sym, ap, ◌∙◌, arith, true, false, some, List, [], ◌∷◌,
  Bool-cases, inl, inr,
}
use web_listening.Acquisition.Data.{
  AdapterId, SkipReason, FetchResult, CaptureAttempt, ToolResult, present, Payload, content,
}
use web_listening.Acquisition.Capture.{Adapter, fetched, add_previews}
use web_listening.Acquisition.Result.{cut_preview, preview}
use web_listening.Acquisition.Records.{should_continue, skipped_result, terminal_result}
use web_listening.Acquisition.Safety.{is_unparsable}
use web_listening.Acquisition.Engine.{
  Engine, Progress, Turn, proceed, run_chain, nothing_tried, judge, skip, settle, try_adapter,
  final_check,
}
use web_listening.Acquisition.Turns.{
  IsTurn, try_adapter-IsTurn, IsAllowed, answer, attempt_of, skips, denies, refuses, asks,
}
use web_listening.Acquisition.Chain.{Ends, follow-Ends, run_chain-last}
use web_listening.Acquisition.Judging.{
  IsUsable, judge-IsUsable, attempt_of-fetched, attempt_of-adapter, attempt_of-metadata, misread,
  goes_on, halts, settle-IsSettled,
}

-- What a result shows of a response: the URL it came from, and the start of its text.
abbrev pub shown_of : {W : Type 0} → Engine W → FetchResult → Payload
shown_of x response =
    content (or_else response.final_url x.url)
      (cut_preview x.inline_content_limit (preview (add_previews x.externals response)))

-- A result's data is that of an enabled adapter of the chain: the engine came to it in the run that
-- began at `start`, asked it, and got a page that passes the gates and lies within the domains; and
-- the result shows that page.
pub record IsEvidence {W : Type 0} (x : Engine W) (chain : List AdapterId) (start : W)
    (r : ToolResult) : Type 0 where
  pub earlier : List AdapterId
  pub key : AdapterId
  pub later : List AdapterId
  pub parted : chain ≡ earlier ++ (key ∷ later)
  pub before : Progress
  pub world : W
  pub reached : run_chain x earlier nothing_tried start ≡ (proceed before, world)
  pub adapter : Adapter W
  pub allowed : IsAllowed x key adapter
  pub response : FetchResult
  pub responded : (answer x adapter world).0 ≡ fetched response
  pub usable : IsUsable x (attempt_of x adapter before world)
  pub shown : r.data_status ≡ present
  pub contents : r.payload ≡ shown_of x response
  pub named : r.tool ≡ some adapter.adapter_id

module _ {W : Type 0} (x : Engine W) (chain : List AdapterId) (start : W) where
  -- While the chain runs, the last result has no data.
  abbrev pub HasNoData : Progress → Type 0
  HasNoData st = (r : ToolResult) → st.last ≡ some r → r.has_data ≡ false

  abbrev pub HasEvidence : ToolResult → Type 0
  HasEvidence r = r.has_data ≡ true → IsEvidence x chain start r

  skip-HasNoData :
      (a : AdapterId) (reason : SkipReason) (st : Progress) → HasNoData (skip x a reason st)
  unfolding skip skipped_result
  skip-HasNoData a reason st r h = ground arith

  no_data_on :
      (c : CaptureAttempt) (r : ToolResult)
      → is_unparsable (final_check x c) ≡ false
      → should_continue (judge x c) ≡ true
      → some (judge x c) ≡ some r
      → r.has_data ≡ false
  no_data_on c r readable on e = elim (Bool-cases r.has_data) [
    | inl h ↦
        let k : judge x c ≡ r = cc in
        let usable = judge-IsUsable x c readable (ap (λ t. t.has_data) k ∙ h) in
        let off = usable.decided in cc
    | inr h ↦ h
  ]

  contents_of :
      (c : CaptureAttempt) (response : FetchResult)
      → c.metadata ≡ add_previews x.externals response
      → c.final_url ≡ response.final_url
      → c.url ≡ x.url
      → content
          (or_else c.final_url c.url)
          (cut_preview x.inline_content_limit (preview c.metadata))
        ≡ shown_of x response
  contents_of c response kept final asked = rw (kept, final, asked) refl

  settle-Ends :
      (earlier : List AdapterId) (a : AdapterId) (later : List AdapterId) (ad : Adapter W)
      (st : Progress) (w : W)
      → chain ≡ earlier ++ (a ∷ later)
      → run_chain x earlier nothing_tried start ≡ (proceed st, w)
      → IsAllowed x a ad
      → Ends HasNoData HasEvidence (λ f. Unit) (settle x (attempt_of x ad st w) st)
  settle-Ends earlier a later ad st w parted reached allowed =
      let c = attempt_of x ad st w in
      elim (settle-IsSettled x c st) [
        | misread u e ↦ rw e tt
        | goes_on readable on e ↦ rw e (λ r k. no_data_on c r readable on k)
        | halts readable off e ↦ rw e (λ h.
            let usable = judge-IsUsable x c readable h in
            let (response, responded) = attempt_of-fetched x ad st w usable.passed in
            let (kept, final, asked) = attempt_of-metadata x ad st w response responded in
            record {
              earlier = earlier;
              key = a;
              later = later;
              parted = parted;
              before = st;
              world = w;
              reached = reached;
              adapter = ad;
              allowed = allowed;
              response = response;
              responded = responded;
              usable = usable;
              shown = usable.shown;
              contents = usable.contents ∙ contents_of c response kept final asked;
              named = usable.named ∙ ap some (attempt_of-adapter x ad st w);
            })
      ]

  turn-Ends :
      (earlier : List AdapterId) (a : AdapterId) (later : List AdapterId) (st : Progress) (w : W)
      (turn : Turn) (w' : W)
      → chain ≡ earlier ++ (a ∷ later)
      → run_chain x earlier nothing_tried start ≡ (proceed st, w)
      → IsTurn x a st w turn w'
      → Ends HasNoData HasEvidence (λ f. Unit) turn
  unfolding terminal_result
  turn-Ends earlier a later st w turn w' parted reached (skips reason e _) =
      rw e (skip-HasNoData a reason st)
  turn-Ends earlier a later st w turn w' parted reached (denies _ e _) = rw e (λ k. cc)
  turn-Ends earlier a later st w turn w' parted reached (refuses ad _ _ _ e _) = rw e tt
  turn-Ends earlier a later st w turn w' parted reached (asks ad allowed e _) =
      rw e (settle-Ends earlier a later ad st w parted reached allowed)

  pub run_chain-Evidence :
      (earlier later : List AdapterId) (st : Progress) (w : W)
      → chain ≡ earlier ++ later
      → run_chain x earlier nothing_tried start ≡ (proceed st, w)
      → HasNoData st
      → Ends HasNoData HasEvidence (λ f. Unit) (run_chain x later st w).0
  unfolding run_chain
  run_chain-Evidence earlier [] st w parted reached h = h
  run_chain-Evidence earlier (a ∷ later) st w parted reached h =
      let (turn, w') = try_adapter x a st w in
      follow-Ends x HasNoData HasEvidence (λ f. Unit) (run_chain x later) turn w'
        (turn-Ends earlier a later st w turn w' parted reached (try_adapter-IsTurn x a st w))
        (λ st' e h'.
          run_chain-Evidence (earlier ++ (a ∷ [])) later st' w'
            (parted ∙ sym (append_assoc earlier (a ∷ []) later))
            (run_chain-last x earlier a nothing_tried st st' start w reached e) h')
