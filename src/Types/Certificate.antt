-- ===== src/Types/Certificate.antt =====
-- `struct Certificate`: crates/types/src/primary/certificate.rs. Signing and verifying it stand in
-- `Verify`, since they read the committee.
use telcoin_network.Base.{ℕ, Bool, true, false, Option, none, some, List, ◌==◌, ◌&&◌}
use telcoin_network.Types.Header.{Header}
use telcoin_network.Types.Header
use telcoin_network.Types.Crypto.{Crypto}

pub data SignatureVerificationState : Type 0 where
  unsigned unverified verified_directly verified_indirectly : ℕ → SignatureVerificationState
  genesis : SignatureVerificationState

-- `signed_authorities` is the bitmap: the indexes of the signers in the committee, increasing.
pub record Certificate : Type 0 where
  pub header : Header
  pub signature_verification_state : SignatureVerificationState
  pub signed_authorities : List ℕ
  pub created_at : ℕ

abbrev pub round : Certificate → ℕ
round c = c.header.round

abbrev pub epoch : Certificate → ℕ
epoch c = c.header.epoch

abbrev pub origin : Certificate → ℕ
origin c = c.header.author

abbrev pub parents : Certificate → List ℕ
parents c = c.header.parents

-- `nonce`
abbrev pub nonce : Certificate → ℕ
nonce c = Header.nonce c.header

-- `aggregated_signature`
unfoldable pub aggregated_signature : Certificate → Option ℕ
aggregated_signature c = elim c.signature_verification_state [
  | unsigned sig ↦ some sig
  | unverified sig ↦ some sig
  | verified_directly sig ↦ some sig
  | verified_indirectly sig ↦ some sig
  | genesis ↦ none
]

-- `is_verified`
unfoldable pub is_verified : Certificate → Bool
is_verified c = elim c.signature_verification_state [
  | unsigned sig ↦ false
  | unverified sig ↦ false
  | verified_directly sig ↦ true
  | verified_indirectly sig ↦ true
  | genesis ↦ true
]

module _ ⦃crypto : Crypto⦄ where
  -- `Header::digest`: the cell if it is filled, and the hash otherwise.
  unfoldable pub header_digest : Header → ℕ
  header_digest h = elim h.digest [ none ↦ crypto.hash h | some d ↦ d ]

  -- `Certificate::digest`
  unfoldable pub digest : Certificate → ℕ
  digest c = header_digest c.header

  -- `Certificate::eq`
  unfoldable pub same : Certificate → Certificate → Bool
  same a b =
      (digest a == digest b)
      && (round a == round b)
      && (epoch a == epoch b)
      && (origin a == origin b)
