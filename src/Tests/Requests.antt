-- ===== src/Tests/Requests.antt =====
-- Tests of votes, certificates and pending certificates.
use telcoin_network.Base.{
  ℕ, ◌≤◌, ◌≡◌, ◌⊎◌, ◌↔◌, refl, true, false, some, List, [], ◌∷◌, ◌++◌, Memᴰ, All, Result, ok, err,
  arith, contains, map,
}
use telcoin_network.Base.Map.{Map, lookup, insert, replace, remove, values}
use telcoin_network.Types.Header.{Header}
use telcoin_network.Types.Vote
use telcoin_network.Types.Vote.{Vote}
use telcoin_network.Types.Certificate.{
  Certificate, verified_directly, digest, header_digest, aggregated_signature,
}
use telcoin_network.Committee.{id, authorities, authority, is_authority, size, voting_power_by_id}
use telcoin_network.Signing.{
  collect_votes, select, ensure_known, aggregate_or_default, new_internal, new_unverified, signers,
  signed_by, verify_cert,
}
use telcoin_network.Signing.Roundtrip.{new_internal-signers}
use telcoin_network.Signing.Verified.{verify_cert_iff}
use telcoin_network.Aggregators.{VotesAggregator, new_votes, append, check_quorum}
use telcoin_network.Aggregators.Tally.{HasPowers, IsTallied, new_votes-IsTallied, append-IsTallied}
use telcoin_network.Aggregators.Quorum.{Certifies, append-Certifies}
use telcoin_network.Pending.{
  PendingCertificateManager, PendingCertificate, Update, new_manager, insert_pending,
  update_pending, process, wake, wake_all, unblock, without, is_ready, remove_parent, num_pending,
  block, block_all, with_element,
}
use telcoin_network.Pending.Ends.{update_pending_ends}
use telcoin_network.Pending.Release.{
  IsKeyedByDigest, insert_pending-IsKeyedByDigest, update_pending_releases,
}
use telcoin_network.Voting.{
  Handler, Answers, notify_read_parent_certificates, vote_response, vote, admit, validate,
  validate_workers, settle_parents, check_for_missing_parents, drop_requests, request_all,
  check_header, check_parents, cast, write_vote, vote_info,
}
use telcoin_network.Voting.Once.{idle, vote_once}
use telcoin_network.Voting.Support.{Distinct, Precedes, stake_of, parent_of, vote_supported}
use telcoin_network.Committee.Keys.{voting_power-by_key}
use telcoin_network.Tests.Power.{four-IsCommittee, four-IsKeyed}
use telcoin_network.Tests.{plain_crypto, four, header_at, certificate_at, leader}

abbrev result_or : {A : Type 0} {E : Type 0} → A → Result E A → A
result_or a (ok b) = b
result_or a (err e) = a

-- A header of authority 1, and the answers to a request for a vote on it.
abbrev proposed : Header
proposed = header_at 2 1 (11 ∷ 12 ∷ 13 ∷ [])

abbrev answers : Answers
answers = record {
  worker = λ key worker_id. true;
  waits_for_execution = true;
  unknown_parents = [];
  primary_round = 2;
  max_proposed_header_age_limit = 3;
  processes = λ c. true;
  genesis = [];
  certificates = record {
    certificates =
        (11, certificate_at 1 1 [])
        ∷ (12, certificate_at 1 2 [])
        ∷ (13, certificate_at 1 3 [])
        ∷ [];
    by_round = [];
    by_origin = [];
  };
  syncs_batches = true;
  now = 200;
  max_header_time_drift_tolerance = 1;
  own_id = 4;
  request_signature = λ d. d;
}

abbrev empty_handler : Handler
empty_handler = record { votes = []; requested_parents = [] }

abbrev given : Vote
given = record { header_digest = 21; round = 2; epoch = 0; origin = 1; author = 4; signature = 21 }

vote-first : (vote four answers empty_handler 1 proposed []).1 ≡ ok (vote_response given)
unfolding vote admit validate notify_read_parent_certificates validate_workers settle_parents
    check_for_missing_parents drop_requests request_all check_header check_parents cast write_vote
    vote_info Vote.new_sync header_digest digest lookup insert is_authority size voting_power_by_id
    authority
vote-first = refl

vote-second :
    (vote four answers (vote four answers empty_handler 1 proposed []).0 1 proposed []).1
    ≡ ok (vote_response given)
unfolding vote admit validate notify_read_parent_certificates validate_workers settle_parents
    check_for_missing_parents drop_requests request_all check_header check_parents cast write_vote
    vote_info Vote.new_sync header_digest digest lookup insert is_authority size voting_power_by_id
    authority
vote-second = refl

vote_once_example : given.header_digest ≡ given.header_digest
vote_once_example =
    vote_once four answers answers empty_handler (vote four answers empty_handler 1 proposed []).0 1
      1 proposed proposed [] [] given given vote-first idle vote-second refl refl

vote_supported_example :
    (proposed.author ≡ 1)
    × (is_authority four 1 ≡ true)
    × (proposed.epoch ≡ four.epoch)
    × (plain_crypto.hash proposed ≡ header_digest proposed)
    × ((accepted : List Certificate) × (map (parent_of answers proposed) proposed.parents
          ≡ map some accepted)
        × All (Precedes proposed) accepted
        × Distinct [] accepted
        × (3 ≤ stake_of four 0 accepted))
vote_supported_example = vote_supported four answers empty_handler 1 proposed [] given vote-first

verify_cert_iff_example :
    (verify_cert leader four
      ≡ ok (record leader { signature_verification_state = verified_directly 7 }))
    ↔ ((sig : ℕ) × (aggregated_signature leader ≡ some sig)
        × (3 ≤ (signed_by leader four).0)
        × (plain_crypto.verify_aggregate sig (digest leader) (signed_by leader four).1 ≡ true)
        × (record leader { signature_verification_state = verified_directly 7 }
            ≡ record leader { signature_verification_state = verified_directly sig }))
verify_cert_iff_example =
    verify_cert_iff leader (record leader { signature_verification_state = verified_directly 7 })
      four

-- The votes of three authorities make a certificate.
abbrev three_votes : Map ℕ
three_votes = (1, 5) ∷ (2, 6) ∷ (4, 8) ∷ []

abbrev made : Certificate
made = result_or leader (new_internal four proposed three_votes true 300)

made-ok : new_internal four proposed three_votes true 300 ≡ ok made
unfolding new_internal select ensure_known aggregate_or_default authorities values id
made-ok = refl

new_internal-signers_example :
    (map id (signers 0 (authorities four) made.signed_authorities) ≡ 1 ∷ 2 ∷ 4 ∷ [])
    × (3 ≤ (signed_by made four).0)
    × (made.header ≡ proposed)
new_internal-signers_example = new_internal-signers four proposed three_votes 300 made-ok

abbrev vote_of : ℕ → Vote
vote_of author = record {
  header_digest = 21;
  round = 2;
  epoch = 0;
  origin = 1;
  author = author;
  signature = author;
}

abbrev two_votes : VotesAggregator
two_votes =
    (append (append new_votes (vote_of 1) four proposed 300).0 (vote_of 2) four proposed 300).0

-- The certificate that the third vote completes.
abbrev completed : Certificate
completed = record {
  header = proposed;
  signature_verification_state = verified_directly 7;
  signed_authorities = 0 ∷ 1 ∷ 2 ∷ [];
  created_at = 300;
}

third-ok :
    append two_votes (vote_of 3) four proposed 300
    ≡ ((append two_votes (vote_of 3) four proposed 300).0, ok (some completed))
unfolding append check_quorum new_votes new_unverified collect_votes new_internal select
    ensure_known aggregate_or_default authorities values id insert aggregated_signature
    voting_power_by_id lookup
third-ok = refl

append-Certifies_example :
    (contains two_votes.authorities_seen 3 ≡ false)
    × Certifies four proposed (two_votes.votes ++ (3, 3) ∷ []) completed
append-Certifies_example = append-Certifies two_votes (vote_of 3) four proposed 300 third-ok

four-HasPowers : HasPowers four
unfolding voting_power_by_id lookup
four-HasPowers = record {
  known = λ i a e. (voting_power-by_key four i a four-IsCommittee four-IsKeyed e).1;
  word = λ i. ground arith;
}

append-IsTallied_example : IsTallied four (append new_votes (vote_of 1) four proposed 300).0
append-IsTallied_example =
    append-IsTallied four new_votes (vote_of 1) proposed 300 four-HasPowers
      (new_votes-IsTallied four)

-- Two certificates of round 2 wait for one of round 1, and one of round 3 for them.
abbrev suspended : PendingCertificateManager
suspended =
    (insert_pending
      (insert_pending (insert_pending new_manager (certificate_at 2 1 (11 ∷ [])) (11 ∷ [])).0
        (certificate_at 2 2 (11 ∷ [])) (11 ∷ [])).0
      (certificate_at 3 1 (21 ∷ 22 ∷ [])) (21 ∷ 22 ∷ [])).0

abbrev start : Update
start = record { manager = new_manager; certificates_to_process = []; ready_certificates = [] }

abbrev released : Update
released = result_or start (update_pending suspended 1 11)

released-ok : update_pending suspended 1 11 ≡ ok released
unfolding update_pending insert_pending process wake wake_all unblock without is_ready remove_parent
    num_pending block block_all with_element new_manager lookup insert replace remove digest
    header_digest
released-ok = refl

last-ready : Memᴰ (certificate_at 3 1 (21 ∷ 22 ∷ [])) released.ready_certificates
unfolding update_pending insert_pending process wake wake_all unblock without is_ready remove_parent
    num_pending block block_all with_element new_manager lookup insert replace remove digest
    header_digest
last-ready = Memᴰ.tail (Memᴰ.tail (Memᴰ.head refl))

new_manager-IsKeyedByDigest : IsKeyedByDigest new_manager
unfolding new_manager lookup
new_manager-IsKeyedByDigest d p e = cc

suspended-IsKeyedByDigest : IsKeyedByDigest suspended
suspended-IsKeyedByDigest =
    insert_pending-IsKeyedByDigest
      (insert_pending (insert_pending new_manager (certificate_at 2 1 (11 ∷ [])) (11 ∷ [])).0
        (certificate_at 2 2 (11 ∷ [])) (11 ∷ [])).0
      (certificate_at 3 1 (21 ∷ 22 ∷ [])) (21 ∷ 22 ∷ [])
      (insert_pending-IsKeyedByDigest
        (insert_pending new_manager (certificate_at 2 1 (11 ∷ [])) (11 ∷ [])).0
        (certificate_at 2 2 (11 ∷ [])) (11 ∷ [])
        (insert_pending-IsKeyedByDigest new_manager (certificate_at 2 1 (11 ∷ [])) (11 ∷ [])
          new_manager-IsKeyedByDigest))

update_pending_ends_example : released.certificates_to_process ≡ []
update_pending_ends_example = update_pending_ends suspended 1 11 released-ok

update_pending_releases_example :
    (p : PendingCertificate) × (lookup 31 suspended.pending ≡ some p)
    × (certificate_at 3 1 (21 ∷ 22 ∷ []) ≡ p.certificate)
    × ((q : ℕ)
        → Memᴰ q p.missing_parent_digests
        → (q ≡ 11) ⊎ Memᴰ q (map digest released.ready_certificates))
unfolding digest header_digest
update_pending_releases_example =
    update_pending_releases suspended 11 1 suspended-IsKeyedByDigest released-ok
      (certificate_at 3 1 (21 ∷ 22 ∷ [])) last-ready
