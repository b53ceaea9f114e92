-- ===== src/Tests/Validator.antt =====
-- Tests of the certificate validator.
use mathlib.Core.List.Memᴰ
use telcoin_network.Base.{
  ℕ, ◌<◌, ◌≡◌, refl, true, List, [], ◌∷◌, Memᴰ, All-mem, ok, arith, inl, inr,
}
use telcoin_network.Base.Map.{lookup, values}
use telcoin_network.Types.Certificate.{
  Certificate, verified_directly, verified_indirectly, digest, header_digest, aggregated_signature,
  parents, same,
}
use telcoin_network.Committee.{authority, authorities, id, voting_power_by_id, sum_power}
use telcoin_network.Signing.{signed_by, signers, verify_signature, validate_received}
use telcoin_network.Voting.{validate, validate_workers}
use telcoin_network.Validator.{
  ValidatorConfig, all_parents, is_genesis, genesis_certificate, verify, validate_and_verify,
  lift_header, lift_certificate, requires_direct_verification, mark_verified_indirectly,
  classify_one, classify, verify_one, verify_marked, verify_collection, receive_all,
}
use telcoin_network.Validator.Vouched.{IsAcyclic, IsVouched, verify_collection-IsVouched}
use telcoin_network.Tests.{plain_crypto, four, certificate_at}

abbrev plain_config : ValidatorConfig
plain_config = record {
  committee = four;
  worker = λ key worker_id. true;
  genesis = [];
  max_diff = 100;
  verification_round_interval = 50;
}

-- A certificate of round 2 with its parents.
abbrev fetched : List Certificate
fetched = certificate_at 2 1 (11 ∷ 12 ∷ []) ∷ certificate_at 1 1 [] ∷ certificate_at 1 2 [] ∷ []

abbrev parent : Certificate
parent = record (certificate_at 1 1 []) { signature_verification_state = verified_indirectly 7 }

abbrev checked : List Certificate
checked =
    record (certificate_at 2 1 (11 ∷ 12 ∷ [])) {
      signature_verification_state = verified_directly 7;
    }
    ∷ parent
    ∷ record (certificate_at 1 2 []) { signature_verification_state = verified_indirectly 7 }
    ∷ []

fetched-received : receive_all plain_config fetched ≡ ok fetched
unfolding receive_all validate_received lift_certificate aggregated_signature
fetched-received = refl

fetched-checked : verify_collection plain_config 0 fetched ≡ ok checked
unfolding verify_collection classify classify_one verify_marked verify_one all_parents
    requires_direct_verification mark_verified_indirectly validate_and_verify verify is_genesis
    lift_header lift_certificate validate validate_workers signed_by signers verify_signature
    aggregated_signature digest header_digest authority authorities id voting_power_by_id lookup
    same genesis_certificate sum_power values
fetched-checked = refl

checked-IsAcyclic : IsAcyclic plain_config (λ d. d) checked
unfolding digest header_digest
checked-IsAcyclic y m =
    All-mem (λ (z : Certificate). (q : ℕ) → Memᴰ q (parents z) → q < digest z) {xs = checked}
      (
        λ q n. elim (Memᴰ.cases_cons n) [
          | inl e ↦ rw e (omega arith)
          | inr k ↦ rw (Memᴰ.eq_of_singleton k) (omega arith)
        ],
        (λ q n. absurd (Memᴰ.not-nil n), (λ q n. absurd (Memᴰ.not-nil n), tt)),
      )
      m

verify_collection-IsVouched_example : IsVouched plain_config checked parent
verify_collection-IsVouched_example =
    verify_collection-IsVouched plain_config 0 fetched (λ d. d) fetched-received fetched-checked
      checked-IsAcyclic parent (Memᴰ.tail (Memᴰ.head refl))
