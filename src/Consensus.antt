-- ===== src/Consensus.antt =====
-- The Bullshark consensus of the primary: crates/consensus/primary/src/consensus.
pub mod State
pub mod Order
pub mod Schedule
pub mod Leaders
pub mod Bullshark
