-- ===== src/Manager.antt =====
-- `CertificateManager`: crates/consensus/primary/src/state_sync/cert_manager.rs. The channels are
-- open: what is sent is appended to a list. The operations of the database succeed; metrics and logs
-- are left out.
pub mod Placed
pub mod Causal
pub mod Accepted
pub mod Collected
use telcoin_network.Base.{
  ℕ, zero, suc, max, leb, not, ◌==◌, if◌then◌else◌, Bool, true, false, Option, none, some, List, [],
  ◌∷◌, ◌++◌, filter, contains, length, Result, ok, err, add_u32,
}
use telcoin_network.Base.Map.{Map}
use telcoin_network.Types.Crypto.{Crypto}
use telcoin_network.Types.Certificate.{Certificate, round, parents, digest, is_verified}
use telcoin_network.Committee.{Committee}
use telcoin_network.Consensus.State.{missing_among}
use telcoin_network.Aggregators.{CertificatesAggregatorManager, append_certificate}
use telcoin_network.Pending.{
  PendingCertificateManager, PendingError, insert_pending, is_pending, update_pending,
  next_for_gc_round,
}
use telcoin_network.Storage.Certificates.{
  CertificateTables, StoreError, write_all, contains_certificate, last_two_rounds_certs,
}

-- The errors of `CertManagerError` that the manager makes itself, and those it passes on.
pub data ManagerError : Type 0 where
  unverified_signature : ℕ → ManagerError
  pending_certificate : ℕ → ManagerError
  invalid_genesis_parent : ℕ → ManagerError
  pending_error : PendingError → ManagerError

-- `fetches` are the requests to the certificate fetcher, `proposed_parents` the parents sent to the
-- proposer, and `sent_certificates` the certificates sent to the consensus.
pub record CertificateManager : Type 0 where
  pub pending : PendingCertificateManager
  pub aggregators : CertificatesAggregatorManager
  pub gc_round : ℕ
  pub highest_processed_round : ℕ
  pub store : CertificateTables
  pub fetches : List Certificate
  pub proposed_parents : List (List Certificate × ℕ)
  pub sent_certificates : List Certificate

unfoldable pub append_sent : {A : Type 0} → List A → Option A → List A
append_sent sent none = sent
append_sent sent (some x) = sent ++ (x ∷ [])

-- `self.parents.append_certificate`
unfoldable pub append_parent : Committee → CertificateManager → Certificate → CertificateManager
unfolding append_certificate append_sent
append_parent c s cert =
    let (aggregators', quorum) = append_certificate s.aggregators cert c in
    record s {
      aggregators = aggregators';
      proposed_parents = append_sent s.proposed_parents quorum;
    }

-- The loop of `accept_verified_certificates`.
unfoldable pub accept_each : Committee → List Certificate → CertificateManager → CertificateManager
unfolding append_parent
accept_each c [] s = s
accept_each c (cert ∷ rest) s =
    let appended = append_parent c s cert in
    accept_each c rest (record appended {
      highest_processed_round = max s.highest_processed_round (round cert);
      sent_certificates = s.sent_certificates ++ (cert ∷ []);
    })

-- The loop of `recover_state`.
unfoldable pub append_parents :
    Committee → List Certificate → CertificateManager → CertificateManager
unfolding append_parent
append_parents c [] s = s
append_parents c (cert ∷ rest) s = append_parents c rest (append_parent c s cert)

-- `recover_state`: an error of the store panics.
unfoldable pub recover_state :
    Committee → CertificateManager → CertificateManager × Result StoreError (Unit {0})
unfolding last_two_rounds_certs append_parents
recover_state c s = elim (last_two_rounds_certs s.store) [
  | err e ↦ (s, err e)
  | ok certificates ↦ (append_parents c certificates s, ok tt)
]

module _ ⦃crypto : Crypto⦄ (c : Committee) (genesis : List ℕ) where
  unfoldable pub accept_verified_certificates :
      CertificateManager → List Certificate → CertificateManager
  unfolding write_all accept_each
  accept_verified_certificates s certificates =
      accept_each c certificates (record s { store = write_all certificates s.store })

  -- `get_missing_parents`, less the request to the fetcher.
  unfoldable pub get_missing_parents :
      CertificateManager → Certificate → Result ManagerError (List ℕ)
  unfolding missing_among contains_certificate
  get_missing_parents s cert =
      if round cert == 1
      then (elim (missing_among genesis (parents cert)) [
        | some d ↦ err (invalid_genesis_parent d)
        | none ↦ ok []
      ])
      else ok (filter (λ d. not (contains_certificate d s.store)) (parents cert))

  -- The branch for missing parents: the fetcher is asked, and the certificate waits.
  unfoldable pub suspend :
      CertificateManager
      → Certificate
      → List ℕ
      → CertificateManager × Result ManagerError (Option ℕ)
  unfolding insert_pending
  suspend s cert missing =
      let (pending', inserted) = insert_pending s.pending cert missing in
      (
        record s { pending = pending'; fetches = s.fetches ++ (cert ∷ []) },
        elim inserted [ err e ↦ err (pending_error e) | ok _ ↦ ok (some (digest cert)) ],
      )

  -- The end of the loop: the certificate is accepted with those that it unlocks.
  unfoldable pub accept_with_unlocked :
      CertificateManager → Certificate → CertificateManager × Result ManagerError (Option ℕ)
  unfolding update_pending accept_verified_certificates
  accept_with_unlocked s cert = elim (update_pending s.pending (round cert) (digest cert)) [
    | err (e, left) ↦ (record s { pending = left.manager }, err (pending_error e))
    | ok unlocked ↦ (
      accept_verified_certificates (record s { pending = unlocked.manager })
          (cert ∷ unlocked.ready_certificates),
      ok none,
    )
  ]

  -- The parents that a certificate waits for.
  unfoldable pub awaited : CertificateManager → Certificate → Result ManagerError (List ℕ)
  unfolding get_missing_parents
  awaited s cert =
      if leb (round cert) (add_u32 s.gc_round 1) then ok [] else get_missing_parents s cert

  -- One certificate of `process_verified_certificates`: an error that ends the loop, or the digest
  -- of a certificate that is pending.
  unfoldable pub process_one :
      CertificateManager → Certificate → CertificateManager × Result ManagerError (Option ℕ)
  unfolding is_verified is_pending awaited suspend accept_with_unlocked
  process_one s cert =
      if not (is_verified cert)
      then (s, err (unverified_signature (digest cert)))
      else if is_pending s.pending (digest cert)
      then (s, ok (some (digest cert)))
      else elim (awaited s cert) [
        | err e ↦ (s, err e)
        | ok missing ↦ elim missing [
          | [] ↦ accept_with_unlocked s cert
          | d ∷ ds ↦ suspend s cert (d ∷ ds)
        ]
      ]

  -- The loop of `process_verified_certificates`, with its result so far.
  unfoldable pub process_all :
      CertificateManager
      → List Certificate
      → Result ManagerError (Unit {0})
      → CertificateManager × Result ManagerError (Unit {0})
  unfolding process_one
  process_all s [] result = (s, result)
  process_all s (cert ∷ rest) result =
      let (next, outcome) = process_one s cert in
      elim outcome [
        | err e ↦ (next, err e)
        | ok waiting ↦ elim waiting [
          | none ↦ process_all next rest result
          | some d ↦ process_all next rest (err (pending_certificate d))
        ]
      ]

  unfoldable pub process_verified_certificates :
      CertificateManager → List Certificate → CertificateManager × Result ManagerError (Unit {0})
  unfolding process_all
  process_verified_certificates s certs = process_all s certs (ok tt)

  -- The loop of `process_gc_round`, with fuel.
  unfoldable pub collect_rounds :
      ℕ → CertificateManager → CertificateManager × Result ManagerError (Unit {0})
  unfolding next_for_gc_round update_pending accept_verified_certificates
  collect_rounds zero s = (s, ok tt)
  collect_rounds (suc fuel) s =
      let (pending', next) = next_for_gc_round s.pending s.gc_round in
      elim next [
        | none ↦ (record s { pending = pending' }, ok tt)
        | some (r, d) ↦ elim (update_pending pending' r d) [
          | err (e, left) ↦ (record s { pending = left.manager }, err (pending_error e))
          | ok unlocked ↦ collect_rounds fuel (
              accept_verified_certificates (record s { pending = unlocked.manager })
                unlocked.ready_certificates)
        ]
      ]

  -- `process_gc_round`: each step handles one entry of `missing_for_pending`.
  unfoldable pub process_gc_round :
      CertificateManager → CertificateManager × Result ManagerError (Unit {0})
  unfolding collect_rounds
  process_gc_round s = collect_rounds (suc (length s.pending.missing_for_pending)) s
