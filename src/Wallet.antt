-- ===== src/Wallet.antt =====
-- The `wallet` module: a multisig wallet as an event-sourced entity, and its descriptors.
pub mod Types
pub mod Descriptor
pub mod Entity
pub mod Submissions
pub mod Invariant
pub mod Activation
pub mod Registered
pub mod Log
pub mod Replay
pub mod Canonical
pub mod Build
pub mod Balance
pub mod Examples
