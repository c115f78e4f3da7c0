-- ===== src/Ledger.antt =====
-- web_listening/blocks/agentic_orchestration.py, `AgenticTaskRepository`: the durable ledger.
pub mod Data
pub mod Guards
pub mod Store
pub mod Lease
pub mod Budget
pub mod TargetSend
pub mod Discovery
pub mod Outcome
pub mod Rows
pub mod Runs
pub mod Tasks
pub mod Observations
pub mod Rules
pub mod Frames
pub mod Calls
pub mod Methods
pub mod Epochs
pub mod Workers
pub mod Rowwise
pub mod History
pub mod Audit
pub mod Fencing
pub mod Steps
pub mod Leasing
pub mod Settling
pub mod Ending
pub mod Interrupting
pub mod Evidence
pub mod Repeating
pub mod Interleaving
pub mod Bounds
