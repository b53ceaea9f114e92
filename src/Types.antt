-- ===== src/Types.antt =====
-- The consensus types: crates/types/src/primary (header.rs, certificate.rs, vote.rs, reputation.rs,
-- output.rs). Identifiers, digests, keys and signatures are numbers, compared and ordered as such.
pub mod Header
pub mod Certificate
pub mod Crypto
pub mod Reputation
pub mod SubDag
pub mod Vote
