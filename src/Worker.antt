-- ===== src/Worker.antt =====
-- The worker: crates/consensus/worker/src, with the validation of batches in
-- crates/execution/batch-validator/src.
pub mod Batches
pub mod Quorum
