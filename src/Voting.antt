-- ===== src/Voting.antt =====
-- The vote for the header of a peer: `RequestHandler::vote` of
-- crates/consensus/primary/src/network/handler.rs, with `Header::validate` of
-- crates/types/src/primary/header.rs, `notify_read_parent_certificates` of
-- state_sync/header_validator.rs and the vote store of crates/storage. What other components answer
-- during a request is in `Answers`; metrics and logs are left out.
pub mod Once
pub mod Support
use telcoin_network.Base.{
  ℕ, suc, ◌-◌, ◌==◌, leb, ltb, not, if◌then◌else◌, ◌&&◌, ◌||◌, Bool, true, false, Option, none,
  some, List, [], ◌∷◌, ◌++◌, contains, is_empty, length, filter, Result, ok, err, ◌>>=◌, ◌>>◌,
  ensure, add_u32, add_u64, sub_u32, saturating_sub,
}
use telcoin_network.Base.Map.{Map, lookup, insert}
use telcoin_network.Types.Header.{BlockNumHash, Header}
use telcoin_network.Types.Crypto.{Crypto}
use telcoin_network.Types.Vote
use telcoin_network.Types.Vote.{Vote}
use telcoin_network.Types.Certificate.{
  Certificate, SignatureVerificationState, unverified, header_digest, round, origin, digest,
  aggregated_signature,
}
use telcoin_network.Storage.Certificates.{CertificateTables, read}
use telcoin_network.Committee.{
  Authority, Committee, authority, is_authority, size, voting_power_by_id,
}

-- The `HeaderError`s, and the errors of the certificates and of the network that a request can meet.
pub data VoteError : Type 0 where
  invalid_epoch already_voted_for_later_round already_voted invalid_timestamp : ℕ → ℕ → VoteError
  invalid_header_digest unkown_worker_id peer_not_author parent_missing_signature : VoteError
  invalid_parent_round duplicate_parents unavailable : VoteError
  unknown_authority unknown_network_key invalid_genesis_parent : ℕ → VoteError
  too_many_parents inquorate invalid_parent_timestamp : ℕ → ℕ → VoteError
  unknown_execution_result : BlockNumHash → VoteError
  too_old : ℕ → ℕ → ℕ → VoteError

pub data PrimaryResponse : Type 0 where
  vote_response : Vote → PrimaryResponse
  missing_parents : List ℕ → PrimaryResponse

-- `VoteInfo`
pub record VoteInfo : Type 0 where
  pub epoch : ℕ
  pub round : ℕ
  pub vote_digest : ℕ

-- A parent that was requested, and from whom.
pub record Request : Type 0 where
  pub round : ℕ
  pub parent : ℕ
  pub author : ℕ

-- The state that the requests share: the vote store, by author, and `requested_parents`, in order of
-- round and digest.
pub record Handler : Type 0 where
  pub votes : Map VoteInfo
  pub requested_parents : List Request

-- What the request sees of the rest of the node: `worker` is whether the cache knows the worker,
-- `waits_for_execution` and `syncs_batches` whether these calls succeed, `unknown_parents` the answer
-- of `identify_unkown_parents`, `processes` whether a parent is accepted, `genesis` the genesis
-- certificates, `certificates` the certificate store with all that arrives while the request waits,
-- `request_signature` the signature service.
pub record Answers : Type 0 where
  pub worker : ℕ → ℕ → Bool
  pub waits_for_execution : Bool
  pub unknown_parents : List ℕ
  pub primary_round : ℕ
  pub max_proposed_header_age_limit : ℕ
  pub processes : Certificate → Bool
  pub genesis : Map Certificate
  pub certificates : CertificateTables
  pub syncs_batches : Bool
  pub now : ℕ
  pub max_header_time_drift_tolerance : ℕ
  pub own_id : ℕ
  pub request_signature : ℕ → ℕ

-- The genesis certificates of the digests.
unfoldable pub genesis_parents : Map Certificate → List ℕ → Result VoteError (List Certificate)
unfolding lookup
genesis_parents genesis [] = ok []
genesis_parents genesis (d ∷ rest) = do
  p ← elim (lookup d genesis) [ none ↦ err (invalid_genesis_parent d) | some p ↦ ok p ]
  later ← genesis_parents genesis rest
  ok (p ∷ later)

-- `notify_read` of each digest. A certificate that never arrives leaves the request without an
-- answer, an error here.
unfoldable pub stored_parents : CertificateTables → List ℕ → Result VoteError (List Certificate)
unfolding read
stored_parents store [] = ok []
stored_parents store (d ∷ rest) = do
  p ← elim (read d store) [ none ↦ err unavailable | some p ↦ ok p ]
  later ← stored_parents store rest
  ok (p ∷ later)

unfoldable pub notify_read_parent_certificates :
    Answers → Header → Result VoteError (List Certificate)
unfolding genesis_parents stored_parents
notify_read_parent_certificates env h =
    if h.round == 1
    then genesis_parents env.genesis h.parents
    else stored_parents env.certificates h.parents

-- The loop of `validate` over the workers of the payload.
unfoldable pub validate_workers :
    Committee → ℕ → (ℕ → ℕ → Bool) → List (ℕ × ℕ × ℕ) → Result VoteError (Unit {0})
validate_workers c author worker [] = ok tt
validate_workers c author worker ((batch, worker_id, time) ∷ rest) = do
  a ← elim (authority c author) [ none ↦ err (unknown_authority author) | some a ↦ ok a ]
  ensure (worker (Authority.protocol_key a) worker_id) unkown_worker_id
  validate_workers c author worker rest

-- The pop of the requests below a round.
unfoldable pub drop_requests : ℕ → List Request → List Request
drop_requests low [] = []
drop_requests low (r ∷ rest) =
    let later = drop_requests low rest in if ltb r.round low then later else r ∷ rest

unfoldable pub requested_by : List Request → ℕ → ℕ → Option ℕ
requested_by [] r parent = none
requested_by (q ∷ rest) r parent =
    let later = requested_by rest r parent in
    if (q.round == r) && (q.parent == parent) then some q.author else later

-- The insertion of a request that is not there.
unfoldable pub add_request : List Request → Request → List Request
add_request [] n = n ∷ []
add_request (q ∷ rest) n =
    let later = add_request rest n in
    if ltb n.round q.round || ((n.round == q.round) && ltb n.parent q.parent)
    then n ∷ q ∷ rest
    else q ∷ later

-- The `retain` over the unknown parents.
unfoldable pub request_all : List Request → ℕ → ℕ → List ℕ → List Request × List ℕ
request_all requests r author [] = (requests, [])
request_all requests r author (d ∷ rest) = elim (requested_by requests r d) [
  | some other ↦ request_all requests r author rest
  | none ↦
      let (requests', kept) =
        request_all (add_request requests (record { round = r; parent = d; author = author })) r
          author rest in
      (requests', d ∷ kept)
]

-- `VoteInfo::from(&vote)`, where the digest of a vote is that of its header.
unfoldable pub vote_info : Vote → VoteInfo
vote_info v = record { epoch = v.epoch; round = v.round; vote_digest = v.header_digest }

-- `write_vote`
unfoldable pub write_vote : Handler → Vote → Handler
write_vote s v = record s { votes = insert v.origin (vote_info v) s.votes }

module _ ⦃crypto : Crypto⦄ where
  -- `Header::validate`
  unfoldable pub validate : Header → Committee → (ℕ → ℕ → Bool) → Result VoteError (Unit {0})
  validate h c worker = do
    ensure (h.epoch == c.epoch) (invalid_epoch h.epoch c.epoch)
    ensure (crypto.hash h == header_digest h) invalid_header_digest
    ensure (not (voting_power_by_id c h.author == 0)) (unknown_authority h.author)
    validate_workers c h.author worker h.payload

  -- `check_for_missing_parents`
  unfoldable pub check_for_missing_parents :
      Answers → Handler → Header → Handler × Result VoteError (List ℕ)
  check_for_missing_parents env s h =
      let limit = saturating_sub env.primary_round env.max_proposed_header_age_limit in
      if ltb h.round limit
      then (s, err (too_old (header_digest h) h.round limit))
      else (let (requests, kept) =
            request_all (drop_requests (saturating_sub limit 1) s.requested_parents)
              (sub_u32 h.round 1) h.author env.unknown_parents in
          (record s { requested_parents = requests }, ok kept))

  -- The parents that come with a request, marked as not verified.
  unfoldable pub received_parents : List Certificate → Result VoteError (List Certificate)
  received_parents [] = ok []
  received_parents (p ∷ rest) = do
    sig ← elim (aggregated_signature p) [ none ↦ err parent_missing_signature | some sig ↦ ok sig ]
    later ← received_parents rest
    ok (record p { signature_verification_state = unverified sig } ∷ later)

  unfoldable pub process_all : (Certificate → Bool) → List Certificate → Result VoteError (Unit {0})
  process_all processes [] = ok tt
  process_all processes (p ∷ rest) = ensure (processes p) unavailable >> process_all processes rest

  -- `try_accept_unknown_certs`
  unfoldable pub try_accept_unknown_certs :
      Answers → Handler → Header → List Certificate → Result VoteError (Unit {0})
  try_accept_unknown_certs env s h parents = process_all env.processes (
      filter
        (λ p. elim (requested_by s.requested_parents (round p) (digest p)) [
          | none ↦ false
          | some author ↦ author == h.author
        ])
        parents)

  -- The loop over the accepted parents, with the authorities and the stake so far.
  unfoldable pub check_parents :
      Committee → Header → List ℕ → ℕ → List Certificate → Result VoteError ℕ
  check_parents c h parent_authorities stake [] = ok stake
  check_parents c h parent_authorities stake (p ∷ rest) = do
    ensure (add_u32 (round p) 1 == h.round) invalid_parent_round
    ensure (leb p.header.created_at h.created_at)
        (invalid_parent_timestamp h.created_at p.created_at)
    ensure (not (contains parent_authorities (origin p))) duplicate_parents
    check_parents c h (origin p ∷ parent_authorities)
        (add_u64 stake (voting_power_by_id c (origin p))) rest

  -- The parents that the request brings, or that it is told to bring.
  unfoldable pub settle_parents :
      Answers → Handler → Header → List Certificate → Handler × Result VoteError (List ℕ)
  settle_parents env s h parents = if is_empty parents then check_for_missing_parents env s h else (
    s,
    (received_parents parents >>= λ verified. try_accept_unknown_certs env s h verified >> ok []),
  )

  -- The checks of `vote` from the accepted parents to the time of the header.
  unfoldable pub check_header : Committee → Answers → Header → Result VoteError (Unit {0})
  check_header c env h = do
    parents ← notify_read_parent_certificates env h
    stake ← check_parents c h [] 0 parents
    ensure (leb c.quorum_threshold stake) (inquorate stake c.quorum_threshold)
    ensure env.syncs_batches unavailable
    ensure
        (leb h.created_at env.now
          || leb (h.created_at - env.now) env.max_header_time_drift_tolerance)
        (invalid_timestamp h.created_at env.now)

  -- The end of `vote`: the check against the vote stored for the author, and the vote.
  unfoldable pub cast : Answers → Handler → Header → Handler × Result VoteError PrimaryResponse
  cast env s h =
      let vote = Vote.new_sync h env.own_id env.request_signature in
      elim (lookup h.author s.votes) [
        | none ↦ (write_vote s vote, ok (vote_response vote))
        | some info ↦
            if not (h.epoch == info.epoch)
            then (s, err (invalid_epoch h.epoch info.epoch))
            else if ltb h.round info.round
            then (s, err (already_voted_for_later_round h.round info.round))
            else if h.round == info.round
            then if vote.header_digest == info.vote_digest
              then (s, ok (vote_response vote))
              else (s, err (already_voted (header_digest h) h.round))
            else (write_vote s vote, ok (vote_response vote))
      ]

  -- The checks of `vote` before the parents.
  unfoldable pub admit :
      Committee → Answers → ℕ → Header → List Certificate → Result VoteError (Unit {0})
  admit c env peer h parents = do
    validate h c env.worker
    ensure (leb (length parents) (size c)) (too_many_parents (length parents) (size c))
    ensure (is_authority c peer) (unknown_network_key peer)
    ensure (h.author == peer) peer_not_author
    ensure env.waits_for_execution (unknown_execution_result h.latest_execution_block)

  -- `vote`
  unfoldable pub vote :
      Committee
      → Answers
      → Handler
      → ℕ
      → Header
      → List Certificate
      → Handler × Result VoteError PrimaryResponse
  vote c env s peer h parents = elim (admit c env peer h parents) [
    | err e ↦ (s, err e)
    | ok _ ↦
        let (s', settled) = settle_parents env s h parents in
        elim settled [
          | err e ↦ (s', err e)
          | ok (d ∷ missing) ↦ (s', ok (missing_parents (d ∷ missing)))
          | ok [] ↦ elim (check_header c env h) [ err e ↦ (s', err e) | ok _ ↦ cast env s' h ]
        ]
  ]
