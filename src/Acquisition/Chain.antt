-- ===== src/Acquisition/Chain.antt =====
-- What holds of a whole chain because it holds of every turn
-- (web_listening/blocks/acquisition_fallback.py, the loop of `acquire_with_fallback_result`).
use web_listening.Prelude.{◌≡◌, refl, List, [], ◌∷◌, ◌++◌, All}
use web_listening.Acquisition.Data.{AdapterId, ToolResult}
use web_listening.Acquisition.Resolve.{Failure}
use web_listening.Acquisition.Engine.{
  Engine, Progress, Turn, proceed, leave, refuse, try_adapter, run_chain, follow,
}
use web_listening.Acquisition.Turns.{IsTurn, try_adapter-IsTurn}

-- `P` of a turn that proceeds, `Q` of the result of one that leaves, `R` of what one raises.
abbrev pub Ends : (Progress → Type 0) → (ToolResult → Type 0) → (Failure → Type 0) → Turn → Type 0
Ends P Q R (proceed st) = P st
Ends P Q R (leave r) = Q r
Ends P Q R (refuse f) = R f

pub follow-Ends :
    {W : Type 0} (x : Engine W) (P : Progress → Type 0) (Q : ToolResult → Type 0)
    (R : Failure → Type 0) (next : Progress → W → Turn × W) (turn : Turn) (w : W)
    → Ends P Q R turn
    → ((st : Progress) → turn ≡ proceed st → P st → Ends P Q R (next st w).0)
    → Ends P Q R (follow x turn w next).0
follow-Ends x P Q R next (proceed st) w e k = k st refl e
follow-Ends x P Q R next (leave r) w e k = e
follow-Ends x P Q R next (refuse f) w e k = e

-- An invariant of the loop, whose turns try adapters that all have `A`.
pub run_chain-Ends :
    {W : Type 0} (x : Engine W) (A : AdapterId → Type 0) (P : Progress → Type 0)
    (Q : ToolResult → Type 0) (R : Failure → Type 0)
    (step : (a : AdapterId) (st : Progress) (w : W) (turn : Turn) (w' : W)
      → A a
      → P st
      → IsTurn x a st w turn w'
      → Ends P Q R turn)
    (chain : List AdapterId) (st : Progress) (w : W)
    → All A chain
    → P st
    → Ends P Q R (run_chain x chain st w).0
unfolding run_chain
run_chain-Ends x A P Q R step [] st w all p = p
run_chain-Ends x A P Q R step (a ∷ chain) st w all p =
    let (turn, w') = try_adapter x a st w in
    follow-Ends x P Q R (run_chain x chain) turn w'
      (step a st w turn w' all.0 p (try_adapter-IsTurn x a st w))
      (λ st' _ p'. run_chain-Ends x A P Q R step chain st' w' all.1 p')

follow-last :
    {W : Type 0} (x : Engine W) (ran ran' : Progress → W → Turn × W) (turn : Turn) (v w : W)
    (st : Progress) (end : Turn × W)
    → follow x turn v ran ≡ (proceed st, w)
    → ((st' : Progress) → ran st' v ≡ (proceed st, w) → ran' st' v ≡ end)
    → follow x turn v ran' ≡ end
follow-last x ran ran' (proceed st') v w st end h k = k st' h
follow-last x ran ran' (leave r) v w st end h k = cc
follow-last x ran ran' (refuse f) v w st end h k = cc

-- A chain that was tried to its end, and one adapter more that lets the engine go on.
pub run_chain-last :
    {W : Type 0} (x : Engine W) (done : List AdapterId) (a : AdapterId) (st₀ st st' : Progress)
    (w₀ w : W)
    → run_chain x done st₀ w₀ ≡ (proceed st, w)
    → (try_adapter x a st w).0 ≡ proceed st'
    → run_chain x (done ++ (a ∷ [])) st₀ w₀ ≡ (proceed st', (try_adapter x a st w).1)
unfolding run_chain
run_chain-last x [] a st₀ st st' w₀ w h e =
    let (p, q) : (st₀ ≡ st) × (w₀ ≡ w) = (cc, cc) in rw (p, q, e) refl
run_chain-last x (d ∷ done) a st₀ st st' w₀ w h e =
    follow-last x (run_chain x done) (run_chain x (done ++ (a ∷ []))) (try_adapter x d st₀ w₀).0
      (try_adapter x d st₀ w₀).1 w st (proceed st', (try_adapter x a st w).1) h
      (λ st₁ k. run_chain-last x done a st₁ st st' (try_adapter x d st₀ w₀).1 w k e)
