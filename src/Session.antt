-- ===== src/Session.antt =====
-- The `psbt_session` module: a signing session as an event-sourced entity.
pub mod Types
pub mod Entity
pub mod Hydrate
pub mod WellFormed
pub mod Replay
pub mod Commands
pub mod Invariant
pub mod Lifecycle
pub mod Idempotence
pub mod Policy
pub mod Propose
pub mod Proposal
pub mod After
pub mod Outcomes
pub mod Completion
pub mod Log
mod Examples
pub mod Spends
