-- ===== src/Types/Header.antt =====
-- `struct Header` and its methods: crates/types/src/primary/header.rs.
use telcoin_network.Base.{ℕ, ◌+◌, ◌*◌, ◌^◌, Option, List}

pub record BlockNumHash : Type 0 where
  pub number : ℕ
  pub hash : ℕ

-- `payload` lists (batch digest, worker id, time) in order of insertion; `parents` is an ordered set;
-- `digest` is the write-once cell for the digest, not part of what is hashed.
pub record Header : Type 0 where
  pub author : ℕ
  pub round : ℕ
  pub epoch : ℕ
  pub created_at : ℕ
  pub payload : List (ℕ × ℕ × ℕ)
  pub parents : List ℕ
  pub latest_execution_block : BlockNumHash
  pub digest : Option ℕ

-- `nonce`. For a round below 2^32 the bits of the round and of the shifted epoch are disjoint, so
-- that `|` is a sum.
unfoldable pub nonce : Header → ℕ
nonce h = h.epoch * 2 ^ 32 + h.round
