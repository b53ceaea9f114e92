-- ===== src/Signing.antt =====
-- The signatures of a certificate: `new_internal`, `signed_by` and the verification functions of
-- crates/types/src/primary/certificate.rs.
pub mod Roundtrip
pub mod Verified
use telcoin_network.Base.{
  ℕ, suc, ◌==◌, leb, Bool, true, false, not, ◌||◌, Option, none, some, List, [], ◌∷◌, map, is_empty,
  Result, ok, err, ◌>>=◌, ◌>>◌, ensure, add_u64,
}
use telcoin_network.Base.Map.{Map, insert}
use telcoin_network.Types.Header.{Header}
use telcoin_network.Types.Crypto.{Crypto}
use telcoin_network.Types.Certificate.{
  Certificate, SignatureVerificationState, unsigned, unverified, verified_directly,
  verified_indirectly, genesis, digest, aggregated_signature,
}
use telcoin_network.Committee.{Authority, Committee, id, authorities, sum_power}

-- The `DagError`s of the certificates and of the aggregation of votes.
pub data DagError : Type 0 where
  unknown_authority authority_reuse : ℕ → DagError
  certificate_requires_quorum invalid_signature : DagError

-- The `CertificateError`s of the verification.
pub data CertificateError : Type 0 where
  inquorate : ℕ → ℕ → CertificateError
  unsigned_certificate bad_signature recover_bls_aggregate_signature_bytes : CertificateError

-- The collection of a list into a `BTreeMap`, where a later entry replaces an earlier one.
unfoldable pub collect_votes : Map ℕ → List (ℕ × ℕ) → Map ℕ
collect_votes m [] = m
collect_votes m ((author, signature) ∷ rest) = collect_votes (insert author signature m) rest

-- The closure of the filter in `new_internal` takes the first vote away when it is of the authority:
-- the signing authorities with their indexes, their signatures, and the votes that are left.
pub record Selected : Type 0 where
  pub indexes : List ℕ
  pub signatures : List ℕ
  pub weight : ℕ
  pub left : Map ℕ

module _ ⦃crypto : Crypto⦄ where
  -- The filter over the authorities from index `i` on. The keys of a map differ, so that the repeats
  -- the source removes are not there.
  unfoldable pub select : ℕ → List Authority → Map ℕ → Selected
  select i [] votes = record { indexes = []; signatures = []; weight = 0; left = votes }
  select i (a ∷ rest) [] = record { indexes = []; signatures = []; weight = 0; left = [] }
  select i (a ∷ rest) ((author, signature) ∷ votes) = elim (id a == author) [
    | true ↦
        let later = select (suc i) rest votes in
        record {
          indexes = i ∷ later.indexes;
          signatures = signature ∷ later.signatures;
          weight = add_u64 a.voting_power later.weight;
          left = later.left;
        }
    | false ↦ select (suc i) rest ((author, signature) ∷ votes)
  ]

  -- The error of the first vote whose authority is not known.
  unfoldable pub ensure_known : Map ℕ → Result DagError (Unit {0})
  ensure_known [] = ok tt
  ensure_known ((author, signature) ∷ votes) = err (unknown_authority author)

  -- The signature of the certificate.
  unfoldable pub aggregate_or_default : List ℕ → Result DagError ℕ
  aggregate_or_default [] = ok crypto.default_signature
  aggregate_or_default (sig ∷ sigs) = elim (crypto.aggregate (sig ∷ sigs)) [
    | none ↦ err invalid_signature
    | some aggregated ↦ ok aggregated
  ]

  -- `new_internal`, at the time `now`.
  unfoldable pub new_internal : Committee → Header → Map ℕ → Bool → ℕ → Result DagError Certificate
  new_internal c header votes check_stake now = do
    let selected = select 0 (authorities c) votes
    ensure_known selected.left
    ensure (not check_stake || leb c.quorum_threshold selected.weight) certificate_requires_quorum
    signature ← aggregate_or_default selected.signatures
    ok (record {
      header = header;
      signature_verification_state = elim check_stake [
        | true ↦ unverified signature
        | false ↦ unsigned signature
      ];
      signed_authorities = selected.indexes;
      created_at = now;
    })

  -- `new_unverified`
  unfoldable pub new_unverified :
      Committee → Header → List (ℕ × ℕ) → ℕ → Result DagError Certificate
  new_unverified c header votes now = new_internal c header (collect_votes [] votes) true now

  -- `verify_signature`, given the keys.
  unfoldable pub verify_signature : Certificate → List ℕ → Result CertificateError Certificate
  verify_signature c keys = elim c.signature_verification_state [
    | verified_indirectly sig ↦ ok c
    | verified_directly sig ↦ ok c
    | genesis ↦ ok c
    | unsigned sig ↦ err unsigned_certificate
    | unverified sig ↦ elim (crypto.verify_aggregate sig (digest c) keys) [
      | false ↦ err bad_signature
      | true ↦ ok (record c { signature_verification_state = verified_directly sig })
    ]
  ]

  -- `validate_received`
  unfoldable pub validate_received : Certificate → Result CertificateError Certificate
  validate_received c = elim (aggregated_signature c) [
    | none ↦ err recover_bls_aggregate_signature_bytes
    | some sig ↦ ok (record c { signature_verification_state = unverified sig })
  ]

-- The authorities from index `i` on whose index is in the bitmap.
unfoldable pub signers : ℕ → List Authority → List ℕ → List Authority
signers i [] indexes = []
signers i (a ∷ rest) [] = []
signers i (a ∷ rest) (j ∷ indexes) = elim (j == i) [
  | true ↦ a ∷ signers (suc i) rest indexes
  | false ↦ signers (suc i) rest (j ∷ indexes)
]

-- `signed_by`: the voting power of the signers and their keys.
unfoldable pub signed_by : Certificate → Committee → ℕ × List ℕ
signed_by c committee =
    let signed = signers 0 (authorities committee) c.signed_authorities in
    (sum_power signed, map (λ (a : Authority). a.protocol_key) signed)

module _ ⦃crypto : Crypto⦄ where
  -- `verify_cert`
  unfoldable pub verify_cert : Certificate → Committee → Result CertificateError Certificate
  verify_cert c committee = do
    received ← validate_received c
    let signed = signed_by received committee
    ensure (leb committee.quorum_threshold signed.0) (inquorate signed.0 committee.quorum_threshold)
    verify_signature received signed.1
