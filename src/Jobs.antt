-- ===== src/Jobs.antt =====
-- Jobs: what is run for a scope, and how far it is (web_listening/blocks/job_orchestration.py).
pub mod Data
pub mod Reports
pub mod Execution
pub mod Outcomes
