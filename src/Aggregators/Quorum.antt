-- ===== src/Aggregators/Quorum.antt =====
-- The certificate that `VotesAggregator::append` returns.
use telcoin_network.Base.{
  ℕ, ◌≤◌, ◌≡◌, refl, sym, subst, ap, leb, true, false, Option, some, Option-cases, List, [], ◌∷◌,
  ◌++◌, contains, Result, ok, Result-cases, Bool-cases, inl, inr, add_u64, map,
}
use telcoin_network.Types.Header.{Header}
use telcoin_network.Types.Crypto.{Crypto}
use telcoin_network.Types.Vote.{Vote}
use telcoin_network.Types.Certificate.{Certificate, verified_directly, digest, aggregated_signature}
use telcoin_network.Committee.{Committee, id, authorities, voting_power_by_id}
use telcoin_network.Signing.{DagError, collect_votes, new_unverified, signed_by, signers}
use telcoin_network.Signing.Roundtrip.{new_internal-signers}
use telcoin_network.Aggregators.{VotesAggregator, check_quorum, append}

same_certificate :
    {a b : Certificate}
    → ◌≡◌ {A = Result DagError (Option Certificate)} (ok (some a)) (ok (some b))
    → a ≡ b
same_certificate h = cc

module _ ⦃crypto : Crypto⦄ where
  check_quorum-some :
      (v : VotesAggregator) (c : Committee) (cert0 : Certificate) {v' : VotesAggregator}
      {cert : Certificate}
      → check_quorum v c cert0 ≡ (v', ok (some cert))
      → (sig : ℕ) × (cert ≡ record cert0 { signature_verification_state = verified_directly sig })
        × (crypto.verify_aggregate sig (digest cert0) (signed_by cert0 c).1 ≡ true)
  unfolding check_quorum
  check_quorum-some v c cert0 h = elim (Option-cases (aggregated_signature cert0)) [
    | inl e ↦ cc (rw (e, check_quorum) at h)
    | inr (sig, e) ↦
        elim (Bool-cases (crypto.verify_aggregate sig (digest cert0) (signed_by cert0 c).1)) [
          | inr f ↦ cc (rw (e, f, check_quorum) at h)
          | inl f ↦ (sig, same_certificate (sym (ap (λ x. x.1) (rw (e, f, check_quorum) at h))), f)
        ]
  ]

  -- What is to hold of a certificate that an aggregation of votes makes.
  abbrev pub Certifies : Committee → Header → List (ℕ × ℕ) → Certificate → Type 0
  Certifies c header votes cert =
      (cert.header ≡ header)
      × (c.quorum_threshold ≤ (signed_by cert c).0)
      × (map id (signers 0 (authorities c) cert.signed_authorities)
          ≡ map (λ x. x.0) (collect_votes [] votes))
      × ((sig : ℕ) × (cert.signature_verification_state ≡ verified_directly sig)
          × (crypto.verify_aggregate sig (digest cert) (signed_by cert c).1 ≡ true))

  certified :
      (v : VotesAggregator) (c : Committee) (header : Header) (votes : List (ℕ × ℕ)) (now : ℕ)
      (cert0 : Certificate) {v' : VotesAggregator} {cert : Certificate}
      → new_unverified c header votes now ≡ ok cert0
      → check_quorum v c cert0 ≡ (v', ok (some cert))
      → Certifies c header votes cert
  unfolding new_unverified signed_by digest
  certified v c header votes now cert0 made h =
      let (named, enough, same) = new_internal-signers c header (collect_votes [] votes) now made in
      let (sig, e, valid) = check_quorum-some v c cert0 h in
      subst (Certifies c header votes) (sym e) (same, enough, named, (sig, refl, valid))

  -- When a vote completes a certificate, the author of the vote had not voted before, the certificate
  -- is for the header, its signers are a quorum and the authors of the collected votes, and their
  -- aggregated signature is valid for its digest.
  pub append-Certifies :
      (v : VotesAggregator) (vote : Vote) (c : Committee) (header : Header) (now : ℕ)
      {v' : VotesAggregator} {cert : Certificate}
      → append v vote c header now ≡ (v', ok (some cert))
      → (contains v.authorities_seen vote.author ≡ false)
        × Certifies c header (v.votes ++ (vote.author, vote.signature) ∷ []) cert
  unfolding append
  append-Certifies v vote c header now {cert} h =
      elim (Bool-cases (contains v.authorities_seen vote.author)) [
        | inl e ↦ cc (rw (e, append) at h)
        | inr e ↦
            elim (Bool-cases
              (leb c.quorum_threshold (add_u64 v.weight (voting_power_by_id c vote.author)))) [
                | inr f ↦ cc (rw (e, f, append) at h)
                | inl f ↦
                    elim (Result-cases (
                      new_unverified c header (v.votes ++ (vote.author, vote.signature) ∷ [])
                        now)) [
                          | inr (x, g) ↦ cc (rw (e, f, g, append) at h)
                          | inl (cert0, g) ↦ (
                            e,
                            certified _ c header (v.votes ++ (vote.author, vote.signature) ∷ []) now
                                cert0 g (rw (e, f, g, append) at h),
                          )
                        ]
              ]
      ]
