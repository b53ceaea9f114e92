-- ===== src/Validator/Signed.antt =====
-- The verification of one certificate: `Certificate::verify` of
-- crates/types/src/primary/certificate.rs.
use telcoin_network.Base.{
  ℕ, ◌≡◌, ◌⊎◌, inl, inr, refl, subst, Bool, true, false, Bool-cases, ◌==◌, ltb, leb, List, Memᴰ,
  contains_iff, ok, ok-injective, >>=-eq-ok, ensure, arith,
}
use telcoin_network.Types.Crypto.{Crypto}
use telcoin_network.Types.Certificate.{
  Certificate, unverified, verified_directly, verified_indirectly, round, epoch, digest,
}
use telcoin_network.Signing.{signed_by, verify_signature}
use telcoin_network.Voting.{validate}
use telcoin_network.Validator.{
  ValidatorConfig, is_genesis, verify, validate_and_verify, lift_header, lift_certificate,
  requires_direct_verification,
}

module _ ⦃crypto : Crypto⦄ (config : ValidatorConfig) where
  -- The certificate is of the epoch, and a quorum signed it.
  pub record IsSigned (x : Certificate) : Type 0 where
    pub signature : ℕ
    pub state : x.signature_verification_state ≡ verified_directly signature
    pub valid : crypto.verify_aggregate signature (digest x) (signed_by x config.committee).1 ≡ true
    pub quorum : leb config.committee.quorum_threshold (signed_by x config.committee).0 ≡ true
    pub own_epoch : (epoch x == config.committee.epoch) ≡ true

  -- A certificate that is marked as received.
  abbrev pub IsReceived : Certificate → Type 0
  IsReceived x = (sig : ℕ) × (x.signature_verification_state ≡ unverified sig)

  ensure-ok : {E : Type 0} (b : Bool) (e : E) {x : Unit {0}} → ensure b e ≡ ok x → b ≡ true
  ensure-ok true e h = refl
  ensure-ok false e h = cc

  verify_signature-ok :
      (x : Certificate) (sig : ℕ) (keys : List ℕ) {y : Certificate}
      → x.signature_verification_state ≡ unverified sig
      → lift_certificate (verify_signature x keys) ≡ ok y
      → (crypto.verify_aggregate sig (digest x) keys ≡ true)
        × (record x { signature_verification_state = verified_directly sig } ≡ y)
  unfolding verify_signature lift_certificate
  verify_signature-ok x sig keys e h =
      elim (Bool-cases (crypto.verify_aggregate sig (digest x) keys)) [
        | inl v ↦ (v, ok-injective (rw (verify_signature, e, v, lift_certificate) at h))
        | inr v ↦ absurd (cc (rw (verify_signature, e, v, lift_certificate) at h))
      ]

  digest-state :
      (x : Certificate) (sig : ℕ)
      → digest (record x { signature_verification_state = verified_directly sig }) ≡ digest x
  unfolding digest
  digest-state x sig = refl

  -- A received certificate that passes is signed, or is a genesis certificate.
  abbrev pub IsDirect : Certificate → Type 0
  IsDirect y = IsSigned y ⊎ (is_genesis config y ≡ true)

  signed_of :
      (x : Certificate) (sig : ℕ) {y : Certificate}
      → (epoch x == config.committee.epoch) ≡ true
      → leb config.committee.quorum_threshold (signed_by x config.committee).0 ≡ true
      → crypto.verify_aggregate sig (digest x) (signed_by x config.committee).1 ≡ true
      → record x { signature_verification_state = verified_directly sig } ≡ y
      → (y.header ≡ x.header) × IsDirect y
  unfolding signed_by digest
  signed_of x sig e q v same =
      subst (λ z. (z.header ≡ x.header) × IsDirect z) same
        (refl, inl (record { signature = sig; state = refl; valid = v; quorum = q; own_epoch = e }))

  verify-ok :
      (x : Certificate) {y : Certificate}
      → IsReceived x
      → verify config x ≡ ok y
      → (y.header ≡ x.header) × IsDirect y
  unfolding verify
  verify-ok x {y} (sig, r) h =
      let (_, e, rest) = >>=-eq-ok (ensure (epoch x == config.committee.epoch) _) _ h in
      let own = ensure-ok (epoch x == config.committee.epoch) _ e in
      elim (Bool-cases (is_genesis config x)) [
        | inl g ↦
            let same : x ≡ y = ok-injective (rw g at rest) in
            subst (λ z. (z.header ≡ x.header) × IsDirect z) same (refl, inr g)
        | inr g ↦
            let (_, _, later) =
              >>=-eq-ok (lift_header (validate x.header config.committee config.worker)) _
                (rw g at rest) in
            let (_, quorum, last) =
              >>=-eq-ok
                (ensure (leb config.committee.quorum_threshold (signed_by x config.committee).0) _)
                _ later in
            let (valid, same) = verify_signature-ok x sig (signed_by x config.committee).1 r last in
            signed_of x sig own (ensure-ok _ _ quorum) valid same
      ]

  pub validated :
      (x : Certificate) (gc : ℕ) {y : Certificate}
      → IsReceived x
      → validate_and_verify config gc x ≡ ok y
      → (y.header ≡ x.header) × IsDirect y
  unfolding validate_and_verify
  validated x gc r h = elim (Bool-cases (ltb (round x) gc)) [
    | inl old ↦ absurd (cc (rw (validate_and_verify, old) at h))
    | inr new ↦ verify-ok x r (rw (validate_and_verify, new) at h)
  ]

  abbrev pub marked : Certificate → ℕ → Certificate
  marked x sig = record x { signature_verification_state = verified_indirectly sig }

  -- What is not verified directly is a parent in the collection.
  pub needed :
      (known : List ℕ) (x : Certificate)
      → requires_direct_verification config known x ≡ false
      → Memᴰ (digest x) known
  unfolding requires_direct_verification
  needed known x d = (contains_iff (digest x) known).0 (ground arith)
