-- ===== src/Acquisition/Report.antt =====
-- What the `attempts` of an acquisition report
-- (web_listening/blocks/acquisition_fallback.py, `acquire_with_fallback_result`).
use web_listening.Prelude.{
  ◌≤◌, ◌≡◌, refl, ap, ◌∙◌, arith, Bool, true, false, Option, some, List, [], ◌∷◌, ◌++◌, map, All,
  length,
}
use web_listening.Acquisition.Data.{AdapterId, CaptureAttempt, ToolResult, AttemptRecord, Attempt}
use web_listening.Acquisition.Capture.{Adapter}
use web_listening.Acquisition.Result.{
  result_from_attempt, tool_result_from_capture_attempt, structured_error_from_attempt,
  apply_status_code_terminal_mapping,
}
use web_listening.Acquisition.Records.{
  should_continue, skipped_result, terminal_result, attempt_record, entries,
}
use web_listening.Acquisition.Resolve.{Failure, invalid_url}
use web_listening.Acquisition.Engine.{
  Engine, Progress, Turn, proceed, leave, refuse, judge, skip, settle, settled, deny_final_url,
}
use web_listening.Acquisition.Turns.{IsTurn, attempt_of, skips, denies, refuses, asks}
use web_listening.Acquisition.Judging.{
  attempt_of-adapter, misread, goes_on, halts, settle-IsSettled,
}

-- The key of an adapter is the name that the adapter gives itself.
abbrev pub AreKeyed : {W : Type 0} → (AdapterId → Option (Adapter W)) → Type 0
AreKeyed {W} adapters = (a : AdapterId) (ad : Adapter W) → adapters a ≡ some ad → ad.adapter_id ≡ a

abbrev pub tools : List AttemptRecord → List (Option AdapterId)
tools = map (λ r. r.tool)

-- The record of a result that the engine went on from.
abbrev pub IsContinued : AttemptRecord → Type 0
IsContinued record' =
    (r : ToolResult) × (b : Bool) × (record' ≡ attempt_record r b) × (should_continue r ≡ true)

-- The first adapters of the chain were tried in its order, each once; all records but the last one
-- let the engine go on.
pub record IsReport (chain : List AdapterId) (attempts : List Attempt) : Type 0 where
  pub tried : List AdapterId
  pub rest : List AdapterId
  pub parted : chain ≡ tried ++ rest
  pub earlier : List AttemptRecord
  pub ending : List AttemptRecord
  pub reported : attempts ≡ entries (earlier ++ ending)
  pub in_order : tools (earlier ++ ending) ≡ map some tried
  pub continued : All IsContinued earlier
  pub at_most_one : length ending ≤ 1

module _ {W : Type 0} (x : Engine W) where
  judge-tool : (c : CaptureAttempt) → (judge x c).tool ≡ some c.adapter
  unfolding judge result_from_attempt tool_result_from_capture_attempt
      apply_status_code_terminal_mapping deny_final_url structured_error_from_attempt
  judge-tool c = ground arith

  -- A record is added, or the chain is left with or without one.
  pub data IsStep (a : AdapterId) (st : Progress) (turn : Turn) : Type 0 where
    adds :
        (st' : Progress) (added : AttemptRecord)
        → turn ≡ proceed st'
        → st'.records ≡ st.records ++ (added ∷ [])
        → added.tool ≡ some a
        → IsContinued added
        → IsStep a st turn
    ends :
        (r : ToolResult) (added : AttemptRecord)
        → turn ≡ leave r
        → r.attempts ≡ entries (st.records ++ (added ∷ []))
        → added.tool ≡ some a
        → IsStep a st turn
    stops : (r : ToolResult) → turn ≡ leave r → r.attempts ≡ entries st.records → IsStep a st turn
    fails : (f : Failure) → turn ≡ refuse f → IsStep a st turn

  judge_record :
      (c : CaptureAttempt) (a : AdapterId)
      → c.adapter ≡ a
      → (attempt_record (judge x c) false).tool ≡ some a
  unfolding attempt_record
  judge_record c a h = judge-tool c ∙ ap some h

  settle-IsStep :
      (a : AdapterId) (c : CaptureAttempt) (st : Progress)
      → c.adapter ≡ a
      → IsStep a st (settle x c st)
  settle-IsStep a c st h = elim (settle-IsSettled x c st) [
    | misread _ e ↦ fails invalid_url e
    | goes_on _ on e ↦
        adds (settled x c st) (attempt_record (judge x c) false) e refl (judge_record c a h)
          (judge x c, false, refl, on)
    | halts _ _ e ↦ ends _ (attempt_record (judge x c) false) e refl (judge_record c a h)
  ]

  pub turn-IsStep :
      AreKeyed x.adapters
      → (a : AdapterId) (st : Progress) (w : W) (turn : Turn) (w' : W) → IsTurn x a st w turn w'
      → IsStep a st turn
  unfolding skip skipped_result attempt_record should_continue terminal_result
  turn-IsStep keyed a st w turn w' (skips reason e _) =
      adds (skip x a reason st)
        (attempt_record (skipped_result x.url a reason x.requested x.profile.quality_gates) true) e
        refl refl
        (skipped_result x.url a reason x.requested x.profile.quality_gates, true, refl, refl)
  turn-IsStep keyed a st w turn w' (denies _ e _) = stops _ e refl
  turn-IsStep keyed a st w turn w' (refuses ad _ _ _ e _) = fails _ e
  turn-IsStep keyed a st w turn w' (asks ad allowed e _) = rw e (
      settle-IsStep a (attempt_of x ad st w) st
        (attempt_of-adapter x ad st w ∙ keyed a ad allowed.found))
