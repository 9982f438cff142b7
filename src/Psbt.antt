-- ===== src/Psbt.antt =====
-- core/coordination/src/psbt.rs: the validation of signer-submitted PSBTs.
pub mod Types
pub mod Validate
pub mod Accepted
pub mod Merged
pub mod Additive
pub mod Complete
pub mod Exact
pub mod Verified
pub mod Examples
