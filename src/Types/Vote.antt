-- ===== src/Types/Vote.antt =====
-- `struct Vote`: crates/types/src/primary/vote.rs.
use telcoin_network.Base.{ℕ}
use telcoin_network.Types.Header.{Header}
use telcoin_network.Types.Crypto.{Crypto}
use telcoin_network.Types.Certificate.{header_digest}

pub record Vote : Type 0 where
  pub header_digest : ℕ
  pub round : ℕ
  pub epoch : ℕ
  pub origin : ℕ
  pub author : ℕ
  pub signature : ℕ

-- `Vote::new_sync`, with the signature that the signature service makes of the digest.
unfoldable pub new_sync : ⦃crypto : Crypto⦄ → Header → ℕ → (ℕ → ℕ) → Vote
new_sync header author request_signature =
    let d = header_digest header in
    record {
      header_digest = d;
      round = header.round;
      epoch = header.epoch;
      origin = header.author;
      author = author;
      signature = request_signature d;
    }
