-- ===== src/Storage.antt =====
-- core/coordination/src/storage.rs: content-addressed blobs.
pub mod Store
pub mod Fetch
pub mod Examples
