-- ===== src/Worker/Batches.antt =====
-- `BatchValidator`: crates/execution/batch-validator/src/validator.rs. What the execution layer knows
-- and the recovery of a transaction are parameters; a transaction is its bytes and what they decode
-- to is its gas limit.
pub mod Accepted
use telcoin_network.Base.{
  ℕ, ◌+◌, ◌%◌, ◌^◌, ◌≤◌, ◌<◌, ◌≡◌, ◌↔◌, ◌==◌, leb, not, if◌then◌else◌, Bool, true, false,
  Bool-cases, inl, inr, Option, none, some, Option-cases, List, [], ◌∷◌, map, length, Result, ok,
  err, Result-cases, ok-injective, >>=-eq-ok, ◌>>=◌, ◌>>◌, ensure, add_u64, arith, refl,
}

pub data BatchValidationError : Type 0 where
  invalid_digest empty_batch : BatchValidationError
  timestamp_is_in_past : ℕ → ℕ → BatchValidationError
  header_transaction_bytes_exceeds_max : ℕ → BatchValidationError
  recover_transaction : ℕ → BatchValidationError
  header_max_gas_exceeds_gas_limit : ℕ → ℕ → BatchValidationError

pub record Batch : Type 0 where
  pub transactions : List (List ℕ)
  pub parent_hash : ℕ
  pub timestamp : ℕ

-- What the validator asks: the hash of a batch, the time of the header of a parent or of the last
-- finalised one, and the gas limit of a transaction that can be recovered.
pub record Chain : Type 0 where
  pub seal : Batch → ℕ
  pub header_time : ℕ → Option ℕ
  pub finalized : Option ℕ
  pub recover_gas : List ℕ → Option ℕ

abbrev pub max_batch_gas : ℕ → ℕ
max_batch_gas timestamp = 30000000

abbrev pub max_batch_size : ℕ → ℕ
max_batch_size timestamp = 1000000

-- `iter().reduce(|total, size| total + size)`, of u64 numbers.
unfoldable pub reduce_from : ℕ → List ℕ → ℕ
reduce_from total [] = total
reduce_from total (size ∷ rest) = reduce_from (add_u64 total size) rest

unfoldable pub reduce_sizes : List ℕ → Result BatchValidationError ℕ
unfolding reduce_from
reduce_sizes [] = err empty_batch
reduce_sizes (size ∷ rest) = ok (reduce_from size rest)

module _ (chain : Chain) where
  -- The time of the parent: of the last finalised block, or 0, if its header is not there.
  unfoldable pub parent_time : Batch → ℕ
  parent_time b = elim (chain.header_time b.parent_hash) [
    | some t ↦ t
    | none ↦ elim chain.finalized [
      | none ↦ 0
      | some hash ↦ elim (chain.header_time hash) [ none ↦ 0 | some t ↦ t ]
    ]
  ]

  unfoldable pub validate_against_parent_timestamp : ℕ → ℕ → Result BatchValidationError (Unit {0})
  validate_against_parent_timestamp timestamp parent =
      if leb timestamp parent then err (timestamp_is_in_past parent timestamp) else ok tt

  unfoldable pub validate_batch_size_bytes :
      List (List ℕ) → ℕ → Result BatchValidationError (Unit {0})
  unfolding reduce_sizes
  validate_batch_size_bytes transactions timestamp = do
    total_bytes ← reduce_sizes (map length transactions)
    ensure (leb total_bytes (max_batch_size timestamp))
        (header_transaction_bytes_exceeds_max total_bytes)

  -- `decode_transactions`, also where it runs in parallel: the gas limits.
  unfoldable pub decode_transactions : List (List ℕ) → ℕ → Result BatchValidationError (List ℕ)
  decode_transactions [] digest = ok []
  decode_transactions (tx ∷ rest) digest = do
    gas ← elim (chain.recover_gas tx) [ none ↦ err (recover_transaction digest) | some g ↦ ok g ]
    later ← decode_transactions rest digest
    ok (gas ∷ later)

  unfoldable pub validate_batch_gas : List ℕ → ℕ → Result BatchValidationError (Unit {0})
  unfolding reduce_sizes
  validate_batch_gas limits timestamp = do
    total_possible_gas ← reduce_sizes limits
    ensure (leb total_possible_gas (max_batch_gas timestamp))
        (header_max_gas_exceeds_gas_limit total_possible_gas (max_batch_gas timestamp))

  -- `validate_batch`, of a batch and the digest that it comes with.
  unfoldable pub validate_batch : Batch → ℕ → Result BatchValidationError (Unit {0})
  unfolding validate_against_parent_timestamp validate_batch_size_bytes decode_transactions
      validate_batch_gas parent_time
  validate_batch b digest = do
    ensure (digest == chain.seal b) invalid_digest
    validate_against_parent_timestamp b.timestamp (parent_time b)
    validate_batch_size_bytes b.transactions b.timestamp
    limits ← decode_transactions b.transactions digest
    validate_batch_gas limits b.timestamp
