-- ===== src/Acquisition.antt =====
-- Acquisition of one page: an engine that tries adapters in order until one of them decides.
pub mod Data
pub mod Profile
pub mod Capture
pub mod Result
pub mod Records
pub mod Safety
pub mod Resolve
pub mod Engine
pub mod Turns
pub mod Phases
pub mod Chain
pub mod Judging
pub mod Origins
pub mod Evidence
pub mod Report
pub mod Attempts
pub mod Irrelevant
pub mod Permits
pub mod Returning
pub mod Choosing
pub mod Passing
pub mod Hosts
