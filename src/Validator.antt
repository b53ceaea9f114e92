-- ===== src/Validator.antt =====
-- `CertificateValidator`: crates/consensus/primary/src/state_sync/cert_validator.rs, with
-- `Certificate::verify` and `Certificate::genesis` of crates/types/src/primary/certificate.rs,
-- `process_certificates_helper` of crates/consensus/primary/src/certificate_fetcher.rs, and the
-- gossip of certificates of network/handler.rs. The channels are open; the certificate manager
-- answers before the next request. The tasks that fetch batches, metrics and logs are left out. The
-- chunks of a collection are verified in their order.
pub mod Signed
pub mod Vouched
use telcoin_network.Base.{
  ℕ, max, ◌==◌, ◌<◌, ltb, leb, not, if◌then◌else◌, ◌&&◌, ◌||◌, ◌%◌, Bool, true, false, Option, none,
  some, List, [], ◌∷◌, ◌++◌, map, any, contains, length, Result, ok, err, ◌>>=◌, ◌>>◌, ensure,
  add_u32, saturating_sub,
}
use telcoin_network.Types.Header.{Header}
use telcoin_network.Types.Crypto.{Crypto}
use telcoin_network.Types.Certificate.{
  Certificate, SignatureVerificationState, unsigned, verified_indirectly, round, epoch, parents,
  digest, same, aggregated_signature,
}
use telcoin_network.Committee.{Authority, Committee, id, authorities}
use telcoin_network.Signing.{
  CertificateError, inquorate, recover_bls_aggregate_signature_bytes, signed_by, verify_signature,
  validate_received,
}
use telcoin_network.Voting.{VoteError, invalid_epoch, validate}
use telcoin_network.Storage.Certificates.{contains_certificate}
use telcoin_network.Manager.{ManagerError, CertificateManager, process_verified_certificates}

-- The errors that the validator returns.
pub data ValidatorError : Type 0 where
  header_error : VoteError → ValidatorError
  certificate_error : CertificateError → ValidatorError
  manager_error : ManagerError → ValidatorError
  too_old too_new : ℕ → ℕ → ℕ → ValidatorError
  too_many_fetched_certificates_returned : ℕ → ℕ → ValidatorError

-- What the validator reads: the worker cache and the settings of the synchronisation.
pub record ValidatorConfig : Type 0 where
  pub committee : Committee
  pub worker : ℕ → ℕ → Bool
  pub genesis : List ℕ
  pub max_diff : ℕ
  pub verification_round_interval : ℕ

-- `minimal_rounds` are the rounds sent to the proposer, with no parents.
pub record ValidatorState : Type 0 where
  pub manager : CertificateManager
  pub highest_received_round : ℕ
  pub minimal_rounds : List ℕ

abbrev pub max_certificates_to_fetch : ℕ
max_certificates_to_fetch = 2000

-- A certificate of `Certificate::genesis`
unfoldable pub genesis_certificate : ⦃crypto : Crypto⦄ → Committee → Authority → Certificate
genesis_certificate ⦃crypto⦄ c a = record {
  header = record {
    author = id a;
    round = 0;
    epoch = c.epoch;
    created_at = 0;
    payload = [];
    parents = [];
    latest_execution_block = record { number = 0; hash = 0 };
    digest = none;
  };
  signature_verification_state = unsigned crypto.default_signature;
  signed_authorities = [];
  created_at = 0;
}

unfoldable pub lift_header : Result VoteError (Unit {0}) → Result ValidatorError (Unit {0})
lift_header (ok x) = ok x
lift_header (err e) = err (header_error e)

unfoldable pub lift_certificate :
    Result CertificateError Certificate → Result ValidatorError Certificate
lift_certificate (ok x) = ok x
lift_certificate (err e) = err (certificate_error e)

unfoldable pub lift_manager :
    CertificateManager × Result ManagerError (Unit {0}) → Result ValidatorError (Unit {0})
lift_manager (s, ok x) = ok x
lift_manager (s, err e) = err (manager_error e)

-- The digests of all parents of the collection.
unfoldable pub all_parents : List Certificate → List ℕ
all_parents [] = []
all_parents (c ∷ rest) = parents c ++ all_parents rest

module _ ⦃crypto : Crypto⦄ (config : ValidatorConfig) where
  unfoldable pub is_genesis : Certificate → Bool
  unfolding same genesis_certificate
  is_genesis cert =
      (round cert == 0)
      && any (λ a. same (genesis_certificate config.committee a) cert)
          (authorities config.committee)

  -- `Certificate::verify`
  unfoldable pub verify : Certificate → Result ValidatorError Certificate
  unfolding is_genesis validate signed_by verify_signature lift_header lift_certificate
  verify cert = do
    ensure (epoch cert == config.committee.epoch)
        (header_error (invalid_epoch (epoch cert) config.committee.epoch))
    elim (is_genesis cert) [
      | true ↦ ok cert
      | false ↦ do
        lift_header (validate cert.header config.committee config.worker)
        let signed = signed_by cert config.committee
        ensure (leb config.committee.quorum_threshold signed.0)
            (certificate_error (inquorate signed.0 config.committee.quorum_threshold))
        lift_certificate (verify_signature cert signed.1)
    ]

  -- `validate_and_verify`
  unfoldable pub validate_and_verify : ℕ → Certificate → Result ValidatorError Certificate
  unfolding verify
  validate_and_verify gc_round cert =
      if ltb (round cert) gc_round
      then err (too_old (digest cert) (round cert) gc_round)
      else verify cert

  -- `requires_direct_verification`
  unfoldable pub requires_direct_verification : List ℕ → Certificate → Bool
  requires_direct_verification known cert =
      not (contains known (digest cert)) || ((round cert % config.verification_round_interval) == 0)

  -- `mark_verified_indirectly`
  unfoldable pub mark_verified_indirectly : Certificate → Result ValidatorError Certificate
  unfolding aggregated_signature
  mark_verified_indirectly cert = elim (aggregated_signature cert) [
    | none ↦ err (certificate_error recover_bls_aggregate_signature_bytes)
    | some sig ↦ ok (record cert { signature_verification_state = verified_indirectly sig })
  ]

  -- One step of `classify_certificates_for_verification`: whether the certificate is to be verified
  -- directly.
  unfoldable pub classify_one : List ℕ → Certificate → Result ValidatorError (Bool × Certificate)
  unfolding requires_direct_verification mark_verified_indirectly
  classify_one known cert = elim (requires_direct_verification known cert) [
    | true ↦ ok (true, cert)
    | false ↦ mark_verified_indirectly cert >>= λ c. ok (false, c)
  ]

  -- `classify_certificates_for_verification`
  unfoldable pub classify :
      List ℕ → List Certificate → Result ValidatorError (List (Bool × Certificate))
  unfolding classify_one
  classify known [] = ok []
  classify known (cert ∷ rest) = do
    marked ← classify_one known cert
    later ← classify known rest
    ok (marked ∷ later)

  unfoldable pub verify_one : ℕ → Bool × Certificate → Result ValidatorError Certificate
  unfolding validate_and_verify
  verify_one gc_round (true, cert) = validate_and_verify gc_round cert
  verify_one gc_round (false, cert) = ok cert

  -- `verify_certificate_chunk`, with the verified certificates put in their places.
  unfoldable pub verify_marked :
      ℕ → List (Bool × Certificate) → Result ValidatorError (List Certificate)
  unfolding verify_one
  verify_marked gc_round [] = ok []
  verify_marked gc_round (marked ∷ rest) = do
    verified ← verify_one gc_round marked
    later ← verify_marked gc_round rest
    ok (verified ∷ later)

  -- `verify_collection`
  unfoldable pub verify_collection : ℕ → List Certificate → Result ValidatorError (List Certificate)
  unfolding classify verify_marked all_parents
  verify_collection gc_round certs =
      classify (all_parents certs) certs >>= λ marked. verify_marked gc_round marked

  -- The loop of `forward_verified_certs`: the certificate that is too far ahead.
  unfoldable pub find_too_new : ℕ → List Certificate → Option Certificate
  find_too_new highest_processed [] = none
  find_too_new highest_processed (cert ∷ rest) =
      let later = find_too_new highest_processed rest in
      if ltb (add_u32 highest_processed config.max_diff) (round cert) then some cert else later

  -- `forward_verified_certs`
  unfoldable pub forward_verified_certs :
      ValidatorState → ℕ → List Certificate → ValidatorState × Result ValidatorError (Unit {0})
  unfolding find_too_new process_verified_certificates lift_manager
  forward_verified_certs s highest_round certs =
      let highest = max s.highest_received_round highest_round in
      let informed = record s {
        highest_received_round = highest;
        minimal_rounds = s.minimal_rounds ++ (saturating_sub highest 1 ∷ []);
      } in
      elim (find_too_new s.manager.highest_processed_round certs) [
        | some cert ↦ (
          record informed {
            manager = record s.manager { fetches = s.manager.fetches ++ (cert ∷ []) };
          },
          err (too_new (digest cert) (round cert) s.manager.highest_processed_round),
        )
        | none ↦
            let answer =
              process_verified_certificates config.committee config.genesis s.manager certs in
            (record informed { manager = answer.0 }, lift_manager answer)
      ]

  -- `process_certificate`, of a peer or of the node itself.
  unfoldable pub process_certificate :
      ValidatorState → Certificate → Bool → ValidatorState × Result ValidatorError (Unit {0})
  unfolding contains_certificate validate_and_verify forward_verified_certs
  process_certificate s cert external =
      if contains_certificate (digest cert) s.manager.store
      then (s, ok tt)
      else elim (if external then validate_and_verify s.manager.gc_round cert else ok cert) [
        | err e ↦ (s, err e)
        | ok verified ↦ forward_verified_certs s (round verified) (verified ∷ [])
      ]

  -- `process_gossip` of a certificate
  unfoldable pub process_gossip :
      ValidatorState → Certificate → ValidatorState × Result ValidatorError (Unit {0})
  unfolding validate_received process_certificate lift_certificate
  process_gossip s cert = elim (lift_certificate (validate_received cert)) [
    | err e ↦ (s, err e)
    | ok unverified_cert ↦ process_certificate s unverified_cert true
  ]

  -- `certificates.iter().map(|c| c.round()).max().unwrap_or(0)`
  unfoldable pub highest_round : List Certificate → ℕ
  highest_round [] = 0
  highest_round (cert ∷ rest) = max (round cert) (highest_round rest)

  -- `process_fetched_certificates_in_parallel`
  unfoldable pub process_fetched :
      ValidatorState → List Certificate → ValidatorState × Result ValidatorError (Unit {0})
  unfolding verify_collection forward_verified_certs highest_round
  process_fetched s certs = elim (verify_collection s.manager.gc_round certs) [
    | err e ↦ (s, err e)
    | ok verified ↦ forward_verified_certs s (highest_round verified) verified
  ]

  -- `validate_received_certificate`, of each certificate.
  unfoldable pub receive_all : List Certificate → Result ValidatorError (List Certificate)
  unfolding validate_received lift_certificate
  receive_all [] = ok []
  receive_all (cert ∷ rest) = do
    received ← lift_certificate (validate_received cert)
    later ← receive_all rest
    ok (received ∷ later)

  -- `process_certificates_helper` of the certificate fetcher
  unfoldable pub process_response :
      ValidatorState → List Certificate → ValidatorState × Result ValidatorError (Unit {0})
  unfolding receive_all process_fetched
  process_response s certs =
      if ltb max_certificates_to_fetch (length certs)
      then (
        s,
        err (too_many_fetched_certificates_returned (length certs) max_certificates_to_fetch),
      )
      else elim (receive_all certs) [
        | err e ↦ (s, err e)
        | ok received ↦ process_fetched s received
      ]
