-- ===== src/Storage.antt =====
-- The storage: crates/storage/src.
pub mod Memory
pub mod Layered
pub mod Certificates
pub mod Blocks
