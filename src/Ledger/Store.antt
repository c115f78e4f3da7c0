-- ===== src/Ledger/Store.antt =====
-- One method call of the repository: state and exceptions, and the statements that it sends to
-- SQLite (web_listening/blocks/agentic_orchestration.py). The state comes back after a raise too.
use web_listening.Prelude.{
  ◌≡◌, arith, ℕ, Bool, true, false, not, ◌&&◌, ◌||◌, Option, none, some, ◌==◌, ltb, if◌then◌else◌,
}
use web_listening.Ledger.Data.{
  Ident, Fence, Run, Ledger, Repository, Error, Result, ok, err, run_not_found, run_lease_lost,
  integrity_error, same,
}
use web_listening.Ledger.Guards.{runs_update_allowed, terminal_evidence_allowed}

abbrev pub Action : Type 0 → Type 0
Action A = Repository → Result A × Repository

module _ {A : Type 0} where
  abbrev pub pure : A → Action A
  pure a s = (ok a, s)

  abbrev pub raise : Error → Action A
  raise e s = (err e, s)

  abbrev pub gets : (Repository → A) → Action A
  gets f s = (ok (f s), s)

  abbrev pub require : Option A → Error → Action A
  require none e = raise e
  require (some a) _ = pure a

infixl 5 ◌>>=◌ ◌>>◌
abbrev pub ◌>>=◌ : {A B : Type 0} → Action A → (A → Action B) → Action B
◌>>=◌ m f s = let (r, s') = m s in elim r [ ok a ↦ f a s' | err e ↦ raise e s' ]

abbrev pub ◌>>◌ : {A B : Type 0} → Action A → Action B → Action B
m >> k = m >>= λ _. k

abbrev pub raise_if : Bool → Error → Action (Unit {0})
raise_if c e s = (if c then err e else ok tt, s)

-- `with self.transaction()`: a raise takes the tables back. The fences are memory, not a table.
unfoldable pub transaction : {A : Type 0} → Action A → Action A
transaction m s =
    let (r, s') = m s in
    elim r [ ok a ↦ (ok a, s') | err e ↦ (err e, record s' { ledger = s.ledger }) ]

abbrev pub put_run : Ident → Run → Ledger → Ledger
put_run run_id r l = record l { runs = λ k. if k == run_id then some r else l.runs k }

-- `UPDATE agentic_runs SET … WHERE run_id = ? AND …`; whether `rowcount` is 1. A trigger that
-- aborts the statement raises `sqlite3.IntegrityError`.
unfoldable pub update_run : Ident → (Run → Bool) → (Run → Run) → Action Bool
update_run run_id test change s = elim (s.ledger.runs run_id) [
  | none ↦ (ok false, s)
  | some r ↦
      if test r
      then (if runs_update_allowed r (change r) && terminal_evidence_allowed s.ledger r (change r)
          then (ok true, record s { ledger = put_run run_id (change r) s.ledger })
          else (err integrity_error, s))
      else (ok false, s)
]

-- `self._lease_fences[run_id] = fence`, and `.pop(run_id, None)`
abbrev pub set_fence : Ident → Option Fence → Action (Unit {0})
set_fence run_id fence s =
    (ok tt, record s { fences = λ k. if k == run_id then fence else s.fences k })

-- `lease_owner IS ? AND lease_epoch = ?`, with the values of a fence or else NULL and 0
abbrev pub fenced : Option Fence → Run → Bool
fenced none r = same r.lease_owner none && r.lease_epoch == 0
fenced (some (owner, epoch)) r = same r.lease_owner (some owner) && r.lease_epoch == epoch

abbrev pub same_fence : Option Fence → Option Fence → Bool
same_fence none none = true
same_fence (some (o, e)) (some (o', e')) = o == o' && e == e'
same_fence _ _ = false

-- `expires_at is not None and now < expires_at`
abbrev pub unexpired : Option ℕ → ℕ → Bool
unexpired none now = false
unexpired (some expires) now = ltb now expires

-- `_assert_run_fence`; `now` is the clock when it is called.
abbrev fence_check : Ident → ℕ → Run → Option Ident → Action (Option Fence)
fence_check run_id now r none = pure none
fence_check run_id now r (some owner) = do
  expected ← gets (λ s. s.fences run_id)
  raise_if
      (not (same_fence expected (some (owner, r.lease_epoch)))
        || not (unexpired r.lease_expires_at now))
      run_lease_lost
  pure expected

unfoldable pub assert_run_fence : Ident → ℕ → Action (Option Fence)
assert_run_fence run_id now = do
  row ← gets (λ s. s.ledger.runs run_id)
  r ← require row run_not_found
  fence_check run_id now r r.lease_owner

-- The check of a fence writes nothing.
pub assert_run_fence_state :
    (run_id : Ident) (now : ℕ) (s : Repository) → (assert_run_fence run_id now s).1 ≡ s
unfolding assert_run_fence
assert_run_fence_state run_id now s = ground arith
