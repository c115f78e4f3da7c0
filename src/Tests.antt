-- ===== src/Tests.antt =====
-- The ledger's methods run on small tables, and the theorems at them
-- (web_listening/blocks/agentic_orchestration.py): the tables, and one module for leases and budgets
-- and one for runs, tasks and observations.
pub mod Tables
pub mod Leases
pub mod Runs
pub mod Pages
pub mod Acquisition
pub mod Crawl
pub mod Jobs
