-- ===== src/Platform/Jobs.antt =====
-- The async job units of core/coordination/src/jobs.
pub mod Types
pub mod Units
pub mod Finalization
pub mod Atomic
pub mod Observation
pub mod Absorb
pub mod Loop
pub mod Final
pub mod Retry
pub mod Accepted
pub mod Finishes
pub mod Creation
