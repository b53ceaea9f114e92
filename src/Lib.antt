-- ===== src/Lib.antt =====
-- Verification of the consensus of telcoin-network: the DAG protocol by which the validators agree on
-- a sequence of certificates (Bullshark), the parts of the primary that make and accept certificates,
-- the storage below them, and the exchange of batches. Paths are from the repository's root.
--
-- How the program works: a validator proposes a header for each round, with the certificates of the
-- round before as parents. Peers vote on it (`RequestHandler::vote`), and the votes of a quorum make a
-- certificate (`VotesAggregator`, `Certificate::new_unverified`). A certificate from a peer is verified
-- by the `CertificateValidator` and goes to the `CertificateManager`, where it waits, in the
-- `PendingCertificateManager`, while its parents are not in the certificate store. Accepted
-- certificates are stored and go to the consensus, which inserts them into the DAG (`ConsensusState`)
-- and commits a leader of every second round, with all of its history, once enough certificates of
-- the next round support it (`Bullshark`). The `LeaderSchedule` names the leaders and changes with the
-- reputation scores. The store lies in a `LayeredDatabase`, which answers from memory and persists in
-- the background. The workers spread batches of transactions, which peers validate
-- (`BatchValidator`) and acknowledge (`QuorumWaiter`).
--
-- Files and the code they model:
--   Base, Base/..: tests on numbers, results, machine words, lists and maps.
--   Types/Header, Certificate, Reputation, SubDag, Vote: crates/types/src/primary (header.rs,
--     certificate.rs, reputation.rs, output.rs, vote.rs). Types/Crypto: the cryptography that the code
--     calls, an interface that every definition takes as an instance argument.
--   Committee: crates/types/src/committee.rs. Committee/Stake, Laws, Keys: voting power, quorums and
--     the two indexes of the authorities.
--   Signing: `new_internal`, `signed_by`, `verify_cert` of certificate.rs. Signing/Roundtrip, Verified.
--   Aggregators: crates/consensus/primary/src/aggregators. Aggregators/Tally, Quorum.
--   Pending: crates/consensus/primary/src/state_sync/pending_cert_manager.rs. Pending/Ends, Release,
--     Missing.
--   Voting: `vote` of crates/consensus/primary/src/network/handler.rs, `Header::validate`,
--     `notify_read_parent_certificates` of state_sync/header_validator.rs, and the vote store of
--     crates/storage/src/stores/vote_digest_store.rs. Voting/Once, Support.
--   Storage/Memory, Layered: crates/storage/src/mem_db.rs and layered_db.rs; the persistent database is
--     the interface `Backend`. Layered/Thread, Refinement, Durable. Base/Pairs: tables keyed by pairs.
--   Storage/Certificates: crates/storage/src/stores/certificate_store.rs. Certificates/Removal, Index,
--     Written, Kept.
--   Storage/Blocks: crates/storage/src/stores/consensus_store.rs, and the insertion of a
--     block in `save_consensus` of crates/state-sync/src/lib.rs. Blocks/Committed, Highest.
--   Manager: crates/consensus/primary/src/state_sync/cert_manager.rs, over Pending, Aggregators and
--     Storage/Certificates. Manager/Placed, Causal, Accepted, Collected.
--   Validator: state_sync/cert_validator.rs, `Certificate::verify`, and the ends of
--     certificate_fetcher.rs and of network/handler.rs that call it. Validator/Signed, Vouched.
--   Worker/Batches: crates/execution/batch-validator/src/validator.rs. Batches/Accepted.
--   Worker/Quorum: crates/consensus/worker/src/quorum_waiter.rs. Quorum/Acknowledged.
--   Consensus/State: crates/consensus/primary/src/consensus/state.rs. State/Rounds, Insert, Causal.
--   Consensus/Order: `order_dag` of consensus/utils.rs. Order/Ends, Sound, Complete.
--   Consensus/Schedule: consensus/leader_schedule.rs; the seeded choices of the crate rand are the
--     interface `Election`.
--   Consensus/Leaders: `order_leaders` and `linked` of consensus/bullshark.rs. Leaders/Chain,
--     Linked.
--   Consensus/Bullshark: the rest of consensus/bullshark.rs. Bullshark/Invariant, Runs, Termination,
--     Fresh, Restart.
--   Tests, Tests/..: concrete runs.
--
-- State is passed explicitly: an operation takes the state and returns it beside its result, also
-- where it ends in an error. A panic is an error value. Numbers are natural numbers, and the
-- operations on u32 and u64 wrap around (Base/Words); identifiers, digests, keys and signatures are
-- numbers. Maps are association lists with increasing keys. What other tasks answer during a request
-- is an argument (`Answers` in Voting).
--
-- Fuel: `order_dag` has one step for the leader and one for each certificate of the DAG, since a
-- certificate is pushed once; the loop of `process_certificate` has as many steps as the round of the
-- election, since each schedule change raises the committed round and leaves it below that round;
-- `update_pending` has one step for the given digest and one for each pending certificate;
-- `process_gc_round` has one step for each missing certificate and one more. That this is enough is
-- proved.
--
-- Not modelled: metrics, logs and the tasks that connect the parts by channels (certifier, proposer,
-- the requests of the certificate fetcher, consensus bus, transport of the worker, executor), since
-- they are scheduling and input/output; the execution engine and the network, which are glue over
-- third-party code; the backends of the database; the synchronisation of batches of the header
-- validator, and the collector of missing certificates.
pub mod Base
pub mod Types
pub mod Committee
pub mod Consensus
pub mod Signing
pub mod Aggregators
pub mod Pending
pub mod Voting
pub mod Storage
pub mod Manager
pub mod Validator
pub mod Worker
pub mod Tests
