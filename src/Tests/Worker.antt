-- ===== src/Tests/Worker.antt =====
-- Tests of the worker.
use telcoin_network.Base.{
  ℕ, ◌+◌, ◌^◌, ◌≤◌, ◌<◌, ◌≡◌, ◌≢◌, ◌↔◌, refl, Option, none, some, List, [], ◌∷◌, map, length, ok,
  arith,
}
use telcoin_network.Worker.Batches.{
  Batch, Chain, validate_batch, validate_against_parent_timestamp, validate_batch_size_bytes,
  validate_batch_gas, decode_transactions, reduce_sizes, reduce_from, parent_time,
}
use telcoin_network.Worker.Batches.Accepted.{Fits, IsU64, Recovers, validate_batch_iff}
use telcoin_network.Worker.Quorum.{
  Answer, acked, rejected, network_error, verify_batch, wait_for_quorum, receive_answer, available,
}
use telcoin_network.Worker.Quorum.Acknowledged.{
  acked_stake, verify_batch-quorum, verify_batch-ends, verify_batch-rejected,
}

-- A transaction is recovered if it has a byte, and its gas limit is 2^63.
abbrev gas_of : List ℕ → Option ℕ
gas_of [] = none
gas_of (b ∷ rest) = some (2 ^ 63)

gas_of-IsU64 : (tx : List ℕ) (gas : ℕ) → gas_of tx ≡ some gas → IsU64 gas
gas_of-IsU64 [] gas e = cc
gas_of-IsU64 (b ∷ rest) gas e = ground arith

abbrev plain_chain : Chain
plain_chain = record {
  seal = λ b. b.timestamp;
  header_time = λ hash. none;
  finalized = none;
  recover_gas = gas_of;
}

abbrev batch : Batch
batch = record { transactions = (1 ∷ []) ∷ (2 ∷ []) ∷ []; parent_hash = 0; timestamp = 7 }

-- Two gas limits of 2^63 wrap around to 0, and the batch is accepted.
batch-accepted : validate_batch plain_chain batch 7 ≡ ok tt
unfolding validate_batch validate_against_parent_timestamp validate_batch_size_bytes
    validate_batch_gas decode_transactions reduce_sizes reduce_from parent_time
batch-accepted = refl

validate_batch_iff_example : (validate_batch plain_chain batch 7 ≡ ok tt) ↔ (
    (◌≡◌ {A = ℕ} 7 7)
    × (parent_time plain_chain batch < 7)
    × Fits 1000000 (map length batch.transactions)
    × ((limits : List ℕ) × Recovers plain_chain batch.transactions limits × Fits 30000000 limits))
validate_batch_iff_example =
    validate_batch_iff plain_chain batch 7 (omega arith, (omega arith, tt)) gas_of-IsU64

abbrev answers : List Answer
answers = acked 1 ∷ network_error 1 ∷ acked 1 ∷ []

answers-quorum : verify_batch 1 3 answers ≡ ok tt
unfolding verify_batch wait_for_quorum receive_answer available
answers-quorum = refl

verify_batch-quorum_example : 3 ≤ 1 + acked_stake answers
verify_batch-quorum_example = verify_batch-quorum 1 3 answers (omega arith) answers-quorum

verify_batch-ends_example : verify_batch 1 3 answers ≡ ok tt
verify_batch-ends_example =
    verify_batch-ends 1 3 answers (refl, (refl, (refl, tt))) (omega arith) (omega arith)
      (omega arith)

verify_batch-rejected_example :
    verify_batch 1 3 (acked 1 ∷ rejected 1 ∷ acked 1 ∷ acked 1 ∷ []) ≢ ok tt
verify_batch-rejected_example =
    verify_batch-rejected 1 3 1 (acked 1 ∷ []) (acked 1 ∷ acked 1 ∷ []) (refl, tt) (omega arith)
      (omega arith) (omega arith) (omega arith)
