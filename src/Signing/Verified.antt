-- ===== src/Signing/Verified.antt =====
-- `verify_cert` on its branches.
use telcoin_network.Base.{
  ℕ, ◌≤◌, ◌≡◌, refl, sym, ap, ◌↔◌, leb, leb→le, le→leb, true, false, none, some, Option-cases,
  ◌>>=◌, ◌>>◌, ensure, ok, err, ok-injective, Bool-cases, inl, inr,
}
use telcoin_network.Types.Crypto.{Crypto}
use telcoin_network.Types.Certificate.{
  Certificate, verified_directly, unverified, digest, aggregated_signature,
}
use telcoin_network.Committee.{Committee}
use telcoin_network.Signing.{
  signed_by, verify_signature, validate_received, verify_cert, inquorate, bad_signature,
  recover_bls_aggregate_signature_bytes,
}

module _ ⦃crypto : Crypto⦄ where
  validate_received-some :
      (c : Certificate) (sig : ℕ)
      → aggregated_signature c ≡ some sig
      → validate_received c ≡ ok (record c { signature_verification_state = unverified sig })
  unfolding validate_received
  validate_received-some c sig e = rw (e, validate_received) refl

  none_fails :
      (c : Certificate)
      → aggregated_signature c ≡ none
      → validate_received c ≡ err recover_bls_aggregate_signature_bytes
  unfolding validate_received
  none_fails c e = rw (e, validate_received) refl

  -- The verification once the signature is there.
  verify_unverified :
      (c : Certificate) (sig : ℕ) (committee : Committee)
      → aggregated_signature c ≡ some sig
      → verify_cert c committee ≡ (
          ensure
            (leb committee.quorum_threshold (signed_by c committee).0)
            (inquorate (signed_by c committee).0 committee.quorum_threshold)
          >> (elim (crypto.verify_aggregate sig (digest c) (signed_by c committee).1) [
            | false ↦ err bad_signature
            | true ↦ ok (record c { signature_verification_state = verified_directly sig })
          ]))
  unfolding verify_cert verify_signature signed_by digest
  verify_unverified c sig committee e = rw (validate_received-some c sig e, verify_cert) refl

  unsigned_fails :
      (c : Certificate) (committee : Committee)
      → aggregated_signature c ≡ none
      → verify_cert c committee ≡ err recover_bls_aggregate_signature_bytes
  unfolding verify_cert
  unsigned_fails c committee e =
      ap
        (λ r. r >>= λ received.
          let signed = signed_by received committee in
          ensure (leb committee.quorum_threshold signed.0)
            (inquorate signed.0 committee.quorum_threshold)
          >> verify_signature received signed.1)
        (none_fails c e)

  -- The verification of a received certificate succeeds exactly if it carries a signature, its
  -- signers are a quorum and the signature is valid for the digest under their keys; then the
  -- certificate is marked as verified with that signature and else unchanged. What the sender
  -- claimed about the state of the verification does not matter.
  pub verify_cert_iff :
      (c v : Certificate) (committee : Committee)
      → (verify_cert c committee ≡ ok v) ↔ (
          (sig : ℕ) × (aggregated_signature c ≡ some sig)
          × (committee.quorum_threshold ≤ (signed_by c committee).0)
          × (crypto.verify_aggregate sig (digest c) (signed_by c committee).1 ≡ true)
          × (v ≡ record c { signature_verification_state = verified_directly sig }))
  verify_cert_iff c v committee = (
    λ h. elim (Option-cases (aggregated_signature c)) [
      | inl e ↦ cc (rw (unsigned_fails c committee e) at h)
      | inr (sig, e) ↦
          elim (Bool-cases (leb committee.quorum_threshold (signed_by c committee).0)) [
            | inr f ↦ cc (rw (verify_unverified c sig committee e, f) at h)
            | inl f ↦
                elim (Bool-cases
                  (crypto.verify_aggregate sig (digest c) (signed_by c committee).1)) [
                    | inr g ↦ cc (rw (verify_unverified c sig committee e, f, g) at h)
                    | inl g ↦ (
                      sig,
                      e,
                      leb→le committee.quorum_threshold (signed_by c committee).0 f,
                      g,
                      sym (ok-injective (rw (verify_unverified c sig committee e, f, g) at h)),
                    )
                  ]
          ]
    ],
    λ (sig, e, enough, valid, same).
        rw
          (
            verify_unverified c sig committee e,
            le→leb committee.quorum_threshold (signed_by c committee).0 enough,
            valid,
          )
          (ap ok (sym same)),
  )
