-- ===== src/Ledger/Workers.antt =====
-- Several processes over one ledger (web_listening/blocks/agentic_orchestration.py): each has a
-- repository object of its own, and their calls interleave in any order.
use web_listening.Prelude.{
  ℕ, ◌≤◌, ◌≡◌, Option, none, some, arith, ◌&&◌, leb, ltb, ◌==◌, ==_iff, if◌then◌else◌, sym, ap, ◌∙◌,
  inl, inr, Bool-cases,
}
use mathlib.Core.Path.{subst}
use web_listening.Ledger.Data.{Ident, Fence, Run, Ledger, Limits, Repository, ok, Texts}
use web_listening.Ledger.Store.{assert_run_fence}
use web_listening.Ledger.Epochs.{epoch_of, IsRemembered, Owns, perform-Advances}
use web_listening.Ledger.Calls.{Call, perform}

-- The tables, what each process remembers, and, of each run and each epoch, which process took the
-- lease that began that epoch.
pub record System : Type 0 where
  pub ledger : Ledger
  pub fences : ℕ → Ident → Option Fence
  pub winner : Ident → ℕ → ℕ

-- What one process sees.
abbrev pub repository : System → ℕ → Repository
repository y w = record { ledger = y.ledger; fences = y.fences w }

-- The epochs that a call begins are its process's.
abbrev pub won_by : ℕ → (before after : Option Run) → (ℕ → ℕ) → ℕ → ℕ
won_by w before after winner e =
    if ltb (epoch_of before) e && leb e (epoch_of after) then w else winner e

-- One process makes one call.
abbrev pub after_call : Texts → Limits → ℕ → Call → System → System
after_call t l w c y =
    let s' = perform t l c (repository y w) in
    record {
      ledger = s'.ledger;
      fences = λ v k. if v == w then s'.fences k else y.fences v k;
      winner = λ k. won_by w (y.ledger.runs k) (s'.ledger.runs k) (y.winner k);
    }

pub data Reach (t : Texts) (l : Limits) (start : System) : System → Type 0 where
  here : Reach t l start start
  call :
      {y : System} (w : ℕ) (c : Call)
      → Reach t l start y
      → Owns y.winner w (repository y w) c
      → Reach t l start (after_call t l w c y)

-- No process remembers anything yet.
abbrev pub IsFresh : System → Type 0
IsFresh y = (w : ℕ) (k : Ident) → y.fences w k ≡ none

-- What a process remembers of a run is an epoch that it won, and not ahead of the run.
record IsSeparate (y : System) : Type 0 where
  own :
      (w : ℕ) (k : Ident)
      → IsRemembered
          (y.winner k)
          w
          (epoch_of (y.ledger.runs k))
          (epoch_of (y.ledger.runs k))
          (y.fences w k)

IsFresh-IsSeparate : (y : System) → IsFresh y → IsSeparate y
IsFresh-IsSeparate y h = record { own = λ w k. rw (h w k) tt }

-- The caller's own memory after its call.
caller_separate :
    (f : ℕ → ℕ) (w : ℕ) (before after : Option Run) (x : Option Fence)
    → epoch_of before ≤ epoch_of after
    → IsRemembered f w (epoch_of before) (epoch_of after) x
    → IsRemembered (won_by w before after f) w (epoch_of after) (epoch_of after) x
caller_separate f w before after none b h = tt
caller_separate f w before after (some (o, e)) b h = ground arith

-- The memory of another process, when the caller has begun new epochs.
other_separate :
    (f : ℕ → ℕ) (v w : ℕ) (before after : Option Run) (x : Option Fence)
    → epoch_of before ≤ epoch_of after
    → IsRemembered f v (epoch_of before) (epoch_of before) x
    → IsRemembered (won_by w before after f) v (epoch_of after) (epoch_of after) x
other_separate f v w before after none b h = tt
other_separate f v w before after (some (o, e)) b h = ground arith

-- Either process's memory after the call.
separate_after :
    (f : ℕ → ℕ) (v w : ℕ) (before after : Option Run) (mine caller's : Option Fence)
    → epoch_of before ≤ epoch_of after
    → IsRemembered f w (epoch_of before) (epoch_of after) caller's
    → IsRemembered f v (epoch_of before) (epoch_of before) mine
    → IsRemembered
        (won_by w before after f)
        v
        (epoch_of after)
        (epoch_of after)
        (if v == w then caller's else mine)
separate_after f v w before after mine caller's b h k = elim (Bool-cases (v == w)) [
  | inl same ↦ rw same (
      subst
        (λ u. IsRemembered (won_by w before after f) u (epoch_of after) (epoch_of after) caller's)
        (sym ((==_iff v w).0 same)) (caller_separate f w before after caller's b h))
  | inr other ↦ rw other (other_separate f v w before after mine b k)
]

module _ (t : Texts) (l : Limits) where
  after_call-IsSeparate :
      (w : ℕ) (c : Call) (y : System)
      → Owns y.winner w (repository y w) c
      → IsSeparate y
      → IsSeparate (after_call t l w c y)
  after_call-IsSeparate w c y o h =
      let moved = perform-Advances y.winner w t l c (repository y w) o in
      record {
        own = λ v k.
            separate_after (y.winner k) v w (y.ledger.runs k)
              ((perform t l c (repository y w)).ledger.runs k) (y.fences v k)
              ((perform t l c (repository y w)).fences k) (moved.epochs k)
              (moved.fences k (epoch_of (y.ledger.runs k)) (omega arith) (h.own w k)) (h.own v k);
      }

  Reach-IsSeparate : {start y : System} → IsSeparate start → Reach t l start y → IsSeparate y
  Reach-IsSeparate h here = h
  Reach-IsSeparate h (call w c r o) = after_call-IsSeparate w c _ o (Reach-IsSeparate h r)

-- A fence that the check lets through is the process's own, at the run's epoch.
passed_fence :
    (run_id : Ident) (now o e : ℕ) (s : Repository)
    → (assert_run_fence run_id now s).0 ≡ ok (some (o, e))
    → (s.fences run_id ≡ some (o, e)) × (epoch_of (s.ledger.runs run_id) ≡ e)
unfolding assert_run_fence
passed_fence run_id now o e s h = ground arith

fence_winner :
    (f : ℕ → ℕ) (w n o e : ℕ) (x : Option Fence)
    → x ≡ some (o, e)
    → n ≡ e
    → IsRemembered f w n n x
    → f e ≡ w
fence_winner f w n o e none p q h = cc
fence_winner f w n o e (some (o', e')) p q h = ground arith

-- However the calls of any number of processes interleave, from a start where none remembers a lease,
-- and where a send claim is given back or renewed by the process that won its epoch: if the fence
-- checks of two of them both let a leased run through, whatever their clocks say, they are the same
-- process, and both checks gave the run's current epoch.
pub assert_run_fence-exclusive :
    (t : Texts) (l : Limits) (start y : System) (v w : ℕ) (run_id : Ident) (now now' o e o' e' : ℕ)
    → IsFresh start
    → Reach t l start y
    → (assert_run_fence run_id now (repository y v)).0 ≡ ok (some (o, e))
    → (assert_run_fence run_id now' (repository y w)).0 ≡ ok (some (o', e'))
    → (v ≡ w) × (e ≡ e') × (epoch_of (y.ledger.runs run_id) ≡ e)
assert_run_fence-exclusive t l start y v w run_id now now' o e o' e' fresh r hv hw =
    let separate = Reach-IsSeparate t l (IsFresh-IsSeparate start fresh) r in
    let (mine, at) = passed_fence run_id now o e (repository y v) hv in
    let (yours, at') = passed_fence run_id now' o' e' (repository y w) hw in
    let won = fence_winner (y.winner run_id) v _ o e _ mine at (separate.own v run_id) in
    let won' = fence_winner (y.winner run_id) w _ o' e' _ yours at' (separate.own w run_id) in
    let same_epoch : e ≡ e' = omega arith in
    (sym won ∙ ap (y.winner run_id) same_epoch ∙ won', same_epoch, at)
