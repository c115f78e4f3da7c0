-- ===== src/Ledger/Settling.antt =====
-- A read is settled within what was reserved for it: `reserve_read_budget` and then
-- `finish_read_budget` (web_listening/blocks/agentic_orchestration.py).
use web_listening.Prelude.{
  ap, ℕ, ◌+◌, ◌-◌, ◌≤◌, ◌<◌, ◌≡◌, refl, ◌∙◌, Option, none, some, arith, Bool, true, false, ◌||◌,
  ltb, if◌then◌else◌,
}
use web_listening.Ledger.Data.{
  Ident, Fence, Run, Repository, Limits, ok, running, same_bool, is_none, budget_usage_invalid,
}
use web_listening.Ledger.Guards.{runs_update_allowed}
use web_listening.Ledger.Store.{
  Action, pure, gets, raise_if, ◌>>=◌, assert_run_fence, update_run, put_run, fenced,
}
use web_listening.Ledger.Budget.{
  Usage, can_settle, settled_row, finish_failure, reserve_read_budget, finish_read_budget,
}
use web_listening.Ledger.Steps.{
  bind_ok, same_identity_refl, assert_run_fence_passed, update_run_done, running-evidence,
  put_run-same,
}

-- The row with one more request and one more read open.
abbrev reserved_row : Run → Run
reserved_row r = record r { requests_used = r.requests_used + 1; active_reads = r.active_reads + 1 }

-- What a reservation that returns has found and done.
record IsReserved (run_id : Ident) (l : Limits) (now n : ℕ) (r : Run) (s : Repository)
    : Type 0 where
  fence : Option Fence
  passed : (assert_run_fence run_id now s).0 ≡ ok fence
  current : fenced fence r ≡ true
  open_run : r.status ≡ running
  allowance : n ≡ l.max_bytes - r.bytes_used
  room : r.bytes_used < l.max_bytes
  consistent : same_bool (is_none r.lease_owner) (is_none r.lease_expires_at) ≡ true
  after :
      (reserve_read_budget run_id l now s).1
      ≡ record s { ledger = put_run run_id (reserved_row r) s.ledger }

reserve_read_budget-IsReserved :
    (run_id : Ident) (l : Limits) (now n : ℕ) (r : Run) (s : Repository)
    → s.ledger.runs run_id ≡ some r
    → (reserve_read_budget run_id l now s).0 ≡ ok n
    → IsReserved run_id l now n r s
unfolding reserve_read_budget assert_run_fence update_run runs_update_allowed
reserve_read_budget-IsReserved run_id l now n r s row granted = ground arith

-- A row with the same lease is let through alike.
assert_run_fence-put_run :
    (run_id : Ident) (now : ℕ) (r r' : Run) (s : Repository)
    → s.ledger.runs run_id ≡ some r
    → r'.lease_owner ≡ r.lease_owner
    → r'.lease_epoch ≡ r.lease_epoch
    → r'.lease_expires_at ≡ r.lease_expires_at
    → (assert_run_fence run_id now (record s { ledger = put_run run_id r' s.ledger })).0
      ≡ (assert_run_fence run_id now s).0
unfolding assert_run_fence
assert_run_fence-put_run run_id now r r' s row owner epoch expiry = ground arith

reserved-fenced :
    (fence : Option Fence) (r : Run) → fenced fence r ≡ true → fenced fence (reserved_row r) ≡ true
reserved-fenced none r h = h
reserved-fenced (some (o, e)) r h = h

usage_valid :
    (u : Usage)
    → u.pages + u.files ≤ 1
    → (ltb 1 u.pages || ltb 1 u.files || ltb 1 (u.pages + u.files)) ≡ false
usage_valid u h = ground arith

settled-allowed :
    (u : Usage) (r : Run)
    → r.status ≡ running
    → same_bool (is_none r.lease_owner) (is_none r.lease_expires_at) ≡ true
    → runs_update_allowed r (settled_row u r) ≡ true
unfolding runs_update_allowed
settled-allowed u r h k = ground (arith, same_identity_refl r.identity)

-- Settling with room returns.
finish_read_budget-some :
    (run_id : Ident) (u : Usage) (l : Limits) (now : ℕ) (fence : Option Fence) (r : Run)
    (s : Repository)
    → s.ledger.runs run_id ≡ some r
    → (assert_run_fence run_id now s).0 ≡ ok fence
    → fenced fence r ≡ true
    → r.status ≡ running
    → 1 ≤ r.active_reads
    → r.bytes_used + u.bytes_read ≤ l.max_bytes
    → u.pages + u.files ≤ 1
    → r.pages_used + u.pages ≤ l.max_pages
    → r.files_used + u.files ≤ l.max_files
    → same_bool (is_none r.lease_owner) (is_none r.lease_expires_at) ≡ true
    → ((finish_read_budget run_id u l now s).0 ≡ ok tt)
      × ((finish_read_budget run_id u l now s).1.ledger.runs run_id ≡ some (settled_row u r))
unfolding finish_read_budget
finish_read_budget-some run_id u l now fence r s row passed current open_run reads bytes one pages
      files consistent =
    let new = put_run run_id (settled_row u r) s.ledger in
    let answer : Bool → Action (Unit {0}) = λ changed.
      gets (λ s'. s'.ledger.runs run_id) >>= λ row'.
      if changed then pure tt else finish_failure u l row' in
    let settle : Option Fence → Action (Unit {0}) =
      λ f. update_run run_id (can_settle u l f) (settled_row u) >>= answer in
    let check : Action (Unit {0}) =
      raise_if (ltb 1 u.pages || ltb 1 u.files || ltb 1 (u.pages + u.files)) budget_usage_invalid in
    let run_through : finish_read_budget run_id u l now s ≡ (ok tt, record s { ledger = new }) =
      bind_ok check (λ _. assert_run_fence run_id now >>= settle) s tt s
        (ap (λ c. raise_if c budget_usage_invalid s) (usage_valid u one))
      ∙ bind_ok (assert_run_fence run_id now) settle s fence s
          (assert_run_fence_passed run_id now fence s passed)
      ∙ bind_ok (update_run run_id (can_settle u l fence) (settled_row u)) answer s true
          (record s { ledger = new })
          (update_run_done run_id (can_settle u l fence) (settled_row u) r s row (ground arith)
            (settled-allowed u r open_run consistent)
            (running-evidence s.ledger r (settled_row u r) open_run)) in
    rw run_through (refl, put_run-same run_id (settled_row u r) s.ledger)

-- Take a reservation that was granted, with what it returned of bytes, and a read that used no more
-- bytes than that and whose page or file the budgets have room for. Settling it, at a time
-- when the fence check answers as it did for the reservation, returns, and the run then differs from the one before the reservation by one request
-- and by what the read used; no read is left open for it.
pub finish_read_budget-reserve_read_budget :
    (run_id : Ident) (l : Limits) (u : Usage) (now now' n : ℕ) (r : Run) (s : Repository)
    → s.ledger.runs run_id ≡ some r
    → (reserve_read_budget run_id l now s).0 ≡ ok n
    → (assert_run_fence run_id now' s).0 ≡ (assert_run_fence run_id now s).0
    → u.bytes_read ≤ n
    → u.pages + u.files ≤ 1
    → r.pages_used + u.pages ≤ l.max_pages
    → r.files_used + u.files ≤ l.max_files
    → ((finish_read_budget run_id u l now' (reserve_read_budget run_id l now s).1).0 ≡ ok tt)
      × ((finish_read_budget run_id u l now' (reserve_read_budget run_id l now s).1).1.ledger.runs
            run_id
          ≡ some (record r {
            requests_used = r.requests_used + 1;
            bytes_used = r.bytes_used + u.bytes_read;
            pages_used = r.pages_used + u.pages;
            files_used = r.files_used + u.files;
          }))
finish_read_budget-reserve_read_budget run_id l u now now' n r s row granted fence bytes one pages
      files =
    let h = reserve_read_budget-IsReserved run_id l now n r s row granted in
    let kept = assert_run_fence-put_run run_id now' r (reserved_row r) s row refl refl refl in
    let settled =
      finish_read_budget-some run_id u l now' h.fence (reserved_row r)
        (record s { ledger = put_run run_id (reserved_row r) s.ledger })
        (put_run-same run_id (reserved_row r) s.ledger) (kept ∙ fence ∙ h.passed)
        (reserved-fenced h.fence r h.current) h.open_run (omega arith)
        (omega (arith, h.allowance, h.room)) one pages files h.consistent in
    rw (h.after) (ground (arith, settled))
