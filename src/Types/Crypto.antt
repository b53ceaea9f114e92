-- ===== src/Types/Crypto.antt =====
-- The cryptography that the program calls and does not implement: the hash of an encoded header
-- (blake2 and bcs), and BLS signatures (blst). A client takes it as an instance argument.
use telcoin_network.Base.{ℕ, Bool, Option, List}
use telcoin_network.Types.Header.{Header}

pub record Crypto : Type 0 where
  -- `Hash::digest(&header)`
  pub hash : Header → ℕ
  -- `BlsAggregateSignature::aggregate(sigs, true)`, `none` where it fails
  pub aggregate : List ℕ → Option ℕ
  -- `aggregate_signature.verify_secure(&to_intent_message(digest), pks)`
  pub verify_aggregate : ℕ → ℕ → List ℕ → Bool
  -- `BlsSignature::default()`
  pub default_signature : ℕ
  -- `sig.verify_secure(&to_intent_message(digest), pk)`
  pub verify : ℕ → ℕ → ℕ → Bool
  -- `network_key.to_peer_id()`, of libp2p
  pub to_peer_id : ℕ → ℕ
