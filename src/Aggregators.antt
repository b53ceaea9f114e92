-- ===== src/Aggregators.antt =====
-- `VotesAggregator` and `CertificatesAggregator`: crates/consensus/primary/src/aggregators
-- (votes.rs, certificates.rs). The metrics and logs are left out, and the channel to the proposer is
-- the list of the messages sent.
pub mod Tally
pub mod Quorum
use telcoin_network.Base.{
  ℕ, ◌==◌, leb, ltb, if◌then◌else◌, Bool, true, false, Option, none, some, List, [], ◌∷◌, ◌++◌,
  contains, Result, ok, err, add_u64, sub_u64,
}
use telcoin_network.Base.Map.{Map, lookup_or, insert, retain}
use telcoin_network.Types.Header.{Header}
use telcoin_network.Types.Crypto.{Crypto}
use telcoin_network.Types.Vote.{Vote}
use telcoin_network.Types.Certificate.{
  Certificate, SignatureVerificationState, verified_directly, round, origin, digest,
  aggregated_signature,
}
use telcoin_network.Committee.{Authority, Committee, authority, voting_power, voting_power_by_id}
use telcoin_network.Signing.{
  DagError, authority_reuse, invalid_signature, new_unverified, signed_by,
}

pub record VotesAggregator : Type 0 where
  pub weight : ℕ
  pub votes : List (ℕ × ℕ)
  pub authorities_seen : List ℕ

-- `VotesAggregator::new`
unfoldable pub new_votes : VotesAggregator
new_votes = record { weight = 0; votes = []; authorities_seen = [] }

module _ ⦃crypto : Crypto⦄ where
  -- The `retain` over the votes: the weight less the power of the authorities whose votes are
  -- invalid, and the votes that stay.
  unfoldable pub retain_valid : Committee → ℕ → ℕ → List (ℕ × ℕ) → ℕ × List (ℕ × ℕ)
  retain_valid c d weight [] = (weight, [])
  retain_valid c d weight ((author, signature) ∷ votes) = elim (authority c author) [
    | none ↦ retain_valid c d weight votes
    | some a ↦ elim (crypto.verify signature d a.protocol_key) [
      | true ↦ let later = retain_valid c d weight votes in (later.0, (author, signature) ∷ later.1)
      | false ↦ retain_valid c d (sub_u64 weight (voting_power c a.protocol_key)) votes
    ]
  ]

  -- The check of the certificate that a quorum of votes makes.
  unfoldable pub check_quorum :
      VotesAggregator
      → Committee
      → Certificate
      → VotesAggregator × Result DagError (Option Certificate)
  check_quorum v c cert = elim (aggregated_signature cert) [
    | none ↦ (v, err invalid_signature)
    | some sig ↦ elim (crypto.verify_aggregate sig (digest cert) (signed_by cert c).1) [
      | true ↦ (v, ok (some (record cert { signature_verification_state = verified_directly sig })))
      | false ↦
          let kept = retain_valid c (digest cert) v.weight v.votes in
          (record v { weight = kept.0; votes = kept.1 }, ok none)
    ]
  ]

  -- `VotesAggregator::append`
  unfoldable pub append :
      VotesAggregator
      → Vote
      → Committee
      → Header
      → ℕ
      → VotesAggregator × Result DagError (Option Certificate)
  append v vote c header now =
      if contains v.authorities_seen vote.author
      then (v, err (authority_reuse vote.author))
      else let counted = record v {
        authorities_seen = vote.author ∷ v.authorities_seen;
        votes = v.votes ++ (vote.author, vote.signature) ∷ [];
        weight = add_u64 v.weight (voting_power_by_id c vote.author);
      } in
        if leb c.quorum_threshold counted.weight
        then (elim (new_unverified c header counted.votes now) [
          | err e ↦ (counted, err e)
          | ok cert ↦ check_quorum counted c cert
        ])
        else (counted, ok none)

pub record CertificatesAggregator : Type 0 where
  pub weight : ℕ
  pub certificates : List Certificate
  pub authorities_seen : List ℕ

-- `CertificatesAggregator::new`
unfoldable pub new_certificates : CertificatesAggregator
new_certificates = record { weight = 0; certificates = []; authorities_seen = [] }

-- `CertificatesAggregator::append`. At a quorum the certificates are drained; the weight stays.
unfoldable pub append_to :
    CertificatesAggregator
    → Certificate
    → Committee
    → CertificatesAggregator × Option (List Certificate)
append_to g cert c =
    if contains g.authorities_seen (origin cert)
    then (g, none)
    else let counted = record g {
      authorities_seen = origin cert ∷ g.authorities_seen;
      certificates = g.certificates ++ cert ∷ [];
      weight = add_u64 g.weight (voting_power_by_id c (origin cert));
    } in
      if leb c.quorum_threshold counted.weight
      then (record counted { certificates = [] }, some counted.certificates)
      else (counted, none)

-- `CertificatesAggregatorManager`: the aggregators by round.
abbrev pub CertificatesAggregatorManager : Type 0
CertificatesAggregatorManager = Map CertificatesAggregator

-- `append_certificate`, with the parents that it sends to the proposer.
unfoldable pub append_certificate :
    CertificatesAggregatorManager
    → Certificate
    → Committee
    → CertificatesAggregatorManager × Option (List Certificate × ℕ)
append_certificate m cert c =
    let (g, quorum) = append_to (lookup_or (round cert) new_certificates m) cert c in
    (
      insert (round cert) g m,
      elim quorum [ none ↦ none | some parents ↦ some (parents, round cert) ],
    )

unfoldable pub garbage_collect : CertificatesAggregatorManager → ℕ → CertificatesAggregatorManager
garbage_collect m gc_round = retain (λ k. ltb gc_round k) m
