-- ===== src/Ledger/Interleaving.antt =====
-- What holds of the shared tables however several processes' calls interleave
-- (web_listening/blocks/agentic_orchestration.py).
use web_listening.Prelude.{ℕ}
use web_listening.Ledger.Data.{Ident, Limits, Texts}
use web_listening.Ledger.Workers.{System, Reach, here, call, repository}
use web_listening.Ledger.History.{Evolves, evolves}
use web_listening.Ledger.Audit.{perform-Evolves}
use web_listening.Ledger.Bounds.{AreWithin, perform-AreWithin}

-- However the calls of any number of processes interleave, where a send claim is given back or renewed by
-- the process that won its epoch: every run that started within the budgets has used at most what
-- each budget allows, and has at most as many reads open as may run at once.
pub Reach-AreWithin :
    (t : Texts) (l : Limits) (start y : System) (k : Ident)
    → Reach t l start y
    → AreWithin l (start.ledger.runs k)
    → AreWithin l (y.ledger.runs k)
Reach-AreWithin t l start y k here h = h
Reach-AreWithin t l start y k (call {y = x} w c r o) h =
    perform-AreWithin t l c k (repository x w) (Reach-AreWithin t l start x k r h)

-- However the calls of any number of processes interleave, where a send claim is given back or renewed by
-- the process that won its epoch: as any of them sees the tables, every run, task and observation
-- that was there is there, with the columns that identify it; epochs have not fallen; and a run
-- that was over, a task that had ended and an observation have not changed.
pub Reach-Evolves :
    (t : Texts) (l : Limits) (start y : System) (v : ℕ)
    → Reach t l start y
    → Evolves (repository start v) (repository y v)
Reach-Evolves t l start y v here = evolves.same_state (repository start v)
Reach-Evolves t l start y v (call {y = x} w c r o) =
    let step = perform-Evolves t l c (repository x w) in
    evolves.compose (repository start v) (repository x v) (repository y v)
      (Reach-Evolves t l start x v r)
      (record { runs = step.runs; tasks = step.tasks; observations = step.observations })
