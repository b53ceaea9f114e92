-- ===== src/Tests/Commits.antt =====
-- Tests of the consensus: the commit of the leader of round 2.
use telcoin_network.Base.{
  ◌≤◌, ◌<◌, ◌≡◌, ◌↔◌, refl, Bool, true, false, some, List, [], ◌∷◌, ◌++◌, Memᴰ, All, Result, ok,
  err, arith,
}
use telcoin_network.Base.Map.{lookup, lookup_or, insert, values, retain}
use telcoin_network.Types.Certificate.{Certificate, round, digest, header_digest, same}
use telcoin_network.Types.SubDag.{CommittedSubDag}
use telcoin_network.Types.Header
use telcoin_network.Types.Reputation
use telcoin_network.Types.Reputation.{zero_scores, add_score, total_authorities}
use telcoin_network.Types.SubDag
use telcoin_network.Committee.{voting_power_by_id, is_authority, size, authorities, authority, id}
use telcoin_network.Consensus.State.{
  ConsensusState, new_state, try_insert, update, try_insert_in_dag, check_parents, insert_in_dag,
  missing_among, entry_at, update_round, gc_round_of, raise_committed,
}
use telcoin_network.Consensus.State.Causal.{IsCausal, try_insert-IsCausal, update-IsCausal}
use telcoin_network.Consensus.Order.{
  order_dag, walked, find_digest, parent_entry, is_committed, offer, offer_all, visit, walk,
  insert_by_round, sort_by_round, dag_entries, order_gc_round, start_walk,
}
use telcoin_network.Consensus.Order.Ends.{walked_ends}
use telcoin_network.Consensus.Order.Sound.{History}
use telcoin_network.Consensus.Order.Complete.{DigestsDiffer, order_dag_iff}
use telcoin_network.Consensus.Bullshark.{
  process_certificate, elect, report_leader_on_time_metrics, commit_until, commit_leader,
  commit_leaders, commit_sub_dag, support, resolve_reputation_score, starting_scores,
  score_sequence, update_leader_schedule, update_all, is_schedule_changed, Node, Outcome, commit,
}
use telcoin_network.Consensus.Bullshark.Invariant.{Grows, IsConsistent}
use telcoin_network.Consensus.Bullshark.Runs.{
  try_insert-IsConsistent, process_certificate-IsConsistent,
}
use telcoin_network.Consensus.Bullshark.Termination.{elected_ends}
use telcoin_network.Consensus.Bullshark.Fresh.{commit_sub_dag_fresh, commit_sub_dag_time}
use telcoin_network.Consensus.Schedule
use telcoin_network.Consensus.Schedule.{
  leader_certificate, weighted_leader, swap, new_table, retrieve_first_nodes, first_nodes,
  update_leader_swap_table,
}
use telcoin_network.Consensus.Leaders.{
  order_leaders, collect_leaders, rounds_down, linked, descend, step_down, all_authorities,
}
use telcoin_network.Consensus.Leaders.Chain.{Chain, order_leaders-Chain}
use telcoin_network.Consensus.Bullshark.Restart.{new_state-IsConsistent}
use telcoin_network.Tests.{
  plain_crypto, first_election, four, protocol, leader, last_certificate, certificate_at, filled,
  filled-IsConsistent, insert_each, insert_each-IsConsistent,
}

-- The result where there is one.
abbrev pub result_or : {A : Type 0} {E : Type 0} → A → Result E A → A
result_or a (ok b) = b
result_or a (err e) = a

-- What the processing of the last certificate gives.
abbrev processed : Node × Outcome × List CommittedSubDag
processed =
    result_or ((protocol, filled), commit, [])
      (process_certificate (protocol, filled) last_certificate)

processed-ok : process_certificate (protocol, filled) last_certificate ≡ ok processed
unfolding new_state try_insert try_insert_in_dag check_parents insert_in_dag missing_among lookup
    insert values retain digest header_digest update update_round gc_round_of raise_committed
    entry_at order_dag walked find_digest parent_entry is_committed offer offer_all visit walk
    insert_by_round sort_by_round dag_entries order_gc_round start_walk leader_certificate
    Schedule.leader weighted_leader swap new_table retrieve_first_nodes first_nodes
    update_leader_swap_table order_leaders collect_leaders rounds_down linked descend step_down
    all_authorities same process_certificate elect report_leader_on_time_metrics commit_until
    commit_leader commit_leaders commit_sub_dag support resolve_reputation_score starting_scores
    score_sequence update_leader_schedule update_all is_schedule_changed SubDag.new Header.nonce
    Reputation.new zero_scores add_score total_authorities voting_power_by_id is_authority size
    authorities authority id
processed-ok = refl

abbrev empty_sub_dag : CommittedSubDag
empty_sub_dag = record {
  certificates = [];
  leader = leader;
  reputation_score = record { scores_per_authority = []; final_of_schedule = false };
  timestamp = 0;
}

-- What the commit of the leader gives.
abbrev pub committed : Node × CommittedSubDag × Bool
committed =
    result_or ((protocol, filled), empty_sub_dag, false) (commit_sub_dag (protocol, filled) leader)

pub committed-ok : commit_sub_dag (protocol, filled) leader ≡ ok committed
unfolding new_state try_insert try_insert_in_dag check_parents insert_in_dag missing_among lookup
    insert values retain digest header_digest update update_round gc_round_of raise_committed
    entry_at order_dag walked find_digest parent_entry is_committed offer offer_all visit walk
    insert_by_round sort_by_round dag_entries order_gc_round start_walk leader_certificate
    Schedule.leader weighted_leader swap new_table retrieve_first_nodes first_nodes
    update_leader_swap_table order_leaders collect_leaders rounds_down linked descend step_down
    all_authorities same process_certificate elect report_leader_on_time_metrics commit_until
    commit_leader commit_leaders commit_sub_dag support resolve_reputation_score starting_scores
    score_sequence update_leader_schedule update_all is_schedule_changed SubDag.new Header.nonce
    Reputation.new zero_scores add_score total_authorities voting_power_by_id is_authority size
    authorities authority id
committed-ok = refl

leader-mem : Memᴰ leader committed.1.certificates
unfolding new_state try_insert try_insert_in_dag check_parents insert_in_dag missing_among lookup
    insert values retain digest header_digest update update_round gc_round_of raise_committed
    entry_at order_dag walked find_digest parent_entry is_committed offer offer_all visit walk
    insert_by_round sort_by_round dag_entries order_gc_round start_walk leader_certificate
    Schedule.leader weighted_leader swap new_table retrieve_first_nodes first_nodes
    update_leader_swap_table order_leaders collect_leaders rounds_down linked descend step_down
    all_authorities same process_certificate elect report_leader_on_time_metrics commit_until
    commit_leader commit_leaders commit_sub_dag support resolve_reputation_score starting_scores
    score_sequence update_leader_schedule update_all is_schedule_changed SubDag.new Header.nonce
    Reputation.new zero_scores add_score total_authorities voting_power_by_id is_authority size
    authorities authority id
leader-mem = Memᴰ.tail (Memᴰ.tail (Memᴰ.tail (Memᴰ.head refl)))

pub filled-round : filled.last_round.committed_round ≡ 0
unfolding new_state try_insert try_insert_in_dag check_parents insert_in_dag missing_among lookup
    insert values retain digest header_digest update update_round gc_round_of raise_committed
    entry_at order_dag walked find_digest parent_entry is_committed offer offer_all visit walk
    insert_by_round sort_by_round dag_entries order_gc_round start_walk leader_certificate
    Schedule.leader weighted_leader swap new_table retrieve_first_nodes first_nodes
    update_leader_swap_table order_leaders collect_leaders rounds_down linked descend step_down
    all_authorities same process_certificate elect report_leader_on_time_metrics commit_until
    commit_leader commit_leaders commit_sub_dag support resolve_reputation_score starting_scores
    score_sequence update_leader_schedule update_all is_schedule_changed SubDag.new Header.nonce
    Reputation.new zero_scores add_score total_authorities voting_power_by_id is_authority size
    authorities authority id
filled-round = refl

commit_sub_dag_fresh_example :
    (lookup_or 1 0 filled.last_committed < 2) × (2 ≤ lookup_or 1 0 committed.0.1.last_committed)
commit_sub_dag_fresh_example =
    commit_sub_dag_fresh protocol filled leader filled-IsConsistent (omega (arith, filled-round))
      committed-ok leader leader-mem

process_certificate-IsConsistent_example : IsConsistent processed.0.1 × Grows filled processed.0.1
process_certificate-IsConsistent_example =
    process_certificate-IsConsistent protocol filled last_certificate filled-IsConsistent
      (omega arith) processed-ok

walked_ends_example : (walked leader filled).buffer ≡ []
walked_ends_example = walked_ends leader filled

try_insert-ok_last : (try_insert filled last_certificate).1 ≡ ok true
unfolding new_state try_insert try_insert_in_dag check_parents insert_in_dag missing_among lookup
    insert values retain digest header_digest update update_round gc_round_of raise_committed
    entry_at order_dag walked find_digest parent_entry is_committed offer offer_all visit walk
    insert_by_round sort_by_round dag_entries order_gc_round start_walk leader_certificate
    Schedule.leader weighted_leader swap new_table retrieve_first_nodes first_nodes
    update_leader_swap_table order_leaders collect_leaders rounds_down linked descend step_down
    all_authorities same process_certificate elect report_leader_on_time_metrics commit_until
    commit_leader commit_leaders commit_sub_dag support resolve_reputation_score starting_scores
    score_sequence update_leader_schedule update_all is_schedule_changed SubDag.new Header.nonce
    Reputation.new zero_scores add_score total_authorities voting_power_by_id is_authority size
    authorities authority id
try_insert-ok_last = refl

try_insert-IsCausal_example : IsCausal (try_insert filled last_certificate).0
try_insert-IsCausal_example =
    try_insert-IsCausal filled last_certificate filled-IsConsistent.causal (omega arith)
      try_insert-ok_last

update-IsCausal_example : IsCausal (update filled leader)
update-IsCausal_example =
    update-IsCausal filled leader filled-IsConsistent.rounds filled-IsConsistent.causal

-- A certificate and its only parent.
abbrev parent_certificate : Certificate
parent_certificate = certificate_at 1 1 []

abbrev child : Certificate
child = certificate_at 2 1 (11 ∷ [])

abbrev family : ConsensusState
family = insert_each (new_state 50) (parent_certificate ∷ child ∷ [])

family-IsConsistent : IsConsistent family
unfolding new_state try_insert try_insert_in_dag check_parents insert_in_dag missing_among lookup
    insert values digest header_digest
family-IsConsistent =
    insert_each-IsConsistent (new_state 50) (parent_certificate ∷ child ∷ [])
      (new_state-IsConsistent 50) (refl, omega arith, (refl, omega arith, tt))

family-DigestsDiffer : DigestsDiffer family child family-IsConsistent.causal.dag
unfolding new_state try_insert try_insert_in_dag check_parents insert_in_dag missing_among lookup
    insert values retain digest header_digest update update_round gc_round_of raise_committed
    entry_at order_dag walked find_digest parent_entry is_committed offer offer_all visit walk
    insert_by_round sort_by_round dag_entries order_gc_round start_walk leader_certificate
    Schedule.leader weighted_leader swap new_table retrieve_first_nodes first_nodes
    update_leader_swap_table order_leaders collect_leaders rounds_down linked descend step_down
    all_authorities same process_certificate elect report_leader_on_time_metrics commit_until
    commit_leader commit_leaders commit_sub_dag support resolve_reputation_score starting_scores
    score_sequence update_leader_schedule update_all is_schedule_changed SubDag.new Header.nonce
    Reputation.new zero_scores add_score total_authorities voting_power_by_id is_authority size
    authorities authority id
family-DigestsDiffer = (
  (λ e. refl, (λ e. absurd (omega (arith, e)), (λ e. refl, tt))),
  (
    (λ e. absurd (omega (arith, e)), (λ e. refl, (λ e. absurd (omega (arith, e)), tt))),
    ((λ e. refl, (λ e. absurd (omega (arith, e)), (λ e. refl, tt))), tt),
  ),
)

order_dag_iff_example :
    Memᴰ parent_certificate (order_dag child family) ↔ History family child parent_certificate
order_dag_iff_example =
    order_dag_iff family child family-IsConsistent.causal.dag family-DigestsDiffer
      parent_certificate

-- What a second commit of the leader gives.
abbrev again : Node × CommittedSubDag × Bool
again = result_or (committed.0, empty_sub_dag, false) (commit_sub_dag committed.0 leader)

again-ok : commit_sub_dag committed.0 leader ≡ ok again
unfolding new_state try_insert try_insert_in_dag check_parents insert_in_dag missing_among lookup
    insert values retain digest header_digest update update_round gc_round_of raise_committed
    entry_at order_dag walked find_digest parent_entry is_committed offer offer_all visit walk
    insert_by_round sort_by_round dag_entries order_gc_round start_walk leader_certificate
    Schedule.leader weighted_leader swap new_table retrieve_first_nodes first_nodes
    update_leader_swap_table order_leaders collect_leaders rounds_down linked descend step_down
    all_authorities same process_certificate elect report_leader_on_time_metrics commit_until
    commit_leader commit_leaders commit_sub_dag support resolve_reputation_score starting_scores
    score_sequence update_leader_schedule update_all is_schedule_changed SubDag.new Header.nonce
    Reputation.new zero_scores add_score total_authorities voting_power_by_id is_authority size
    authorities authority id
again-ok = refl

last-committed : committed.0.1.last_committed_sub_dag ≡ some committed.1
unfolding new_state try_insert try_insert_in_dag check_parents insert_in_dag missing_among lookup
    insert values retain digest header_digest update update_round gc_round_of raise_committed
    entry_at order_dag walked find_digest parent_entry is_committed offer offer_all visit walk
    insert_by_round sort_by_round dag_entries order_gc_round start_walk leader_certificate
    Schedule.leader weighted_leader swap new_table retrieve_first_nodes first_nodes
    update_leader_swap_table order_leaders collect_leaders rounds_down linked descend step_down
    all_authorities same process_certificate elect report_leader_on_time_metrics commit_until
    commit_leader commit_leaders commit_sub_dag support resolve_reputation_score starting_scores
    score_sequence update_leader_schedule update_all is_schedule_changed SubDag.new Header.nonce
    Reputation.new zero_scores add_score total_authorities voting_power_by_id is_authority size
    authorities authority id
last-committed = refl

ordered-ok : order_leaders four protocol.leader_schedule leader filled ≡ ok (leader ∷ [])
unfolding new_state try_insert try_insert_in_dag check_parents insert_in_dag missing_among lookup
    insert values retain digest header_digest update update_round gc_round_of raise_committed
    entry_at order_dag walked find_digest parent_entry is_committed offer offer_all visit walk
    insert_by_round sort_by_round dag_entries order_gc_round start_walk leader_certificate
    Schedule.leader weighted_leader swap new_table retrieve_first_nodes first_nodes
    update_leader_swap_table order_leaders collect_leaders rounds_down linked descend step_down
    all_authorities same process_certificate elect report_leader_on_time_metrics commit_until
    commit_leader commit_leaders commit_sub_dag support resolve_reputation_score starting_scores
    score_sequence update_leader_schedule update_all is_schedule_changed SubDag.new Header.nonce
    Reputation.new zero_scores add_score total_authorities voting_power_by_id is_authority size
    authorities authority id
ordered-ok = refl

abbrev looped : Node × Outcome × List CommittedSubDag
looped =
    result_or ((protocol, filled), commit, [])
      (commit_until 2 (protocol, (try_insert filled last_certificate).0) 2 [])

looped-ok : commit_until 2 (protocol, (try_insert filled last_certificate).0) 2 [] ≡ ok looped
unfolding new_state try_insert try_insert_in_dag check_parents insert_in_dag missing_among lookup
    insert values retain digest header_digest update update_round gc_round_of raise_committed
    entry_at order_dag walked find_digest parent_entry is_committed offer offer_all visit walk
    insert_by_round sort_by_round dag_entries order_gc_round start_walk leader_certificate
    Schedule.leader weighted_leader swap new_table retrieve_first_nodes first_nodes
    update_leader_swap_table order_leaders collect_leaders rounds_down linked descend step_down
    all_authorities same process_certificate elect report_leader_on_time_metrics commit_until
    commit_leader commit_leaders commit_sub_dag support resolve_reputation_score starting_scores
    score_sequence update_leader_schedule update_all is_schedule_changed SubDag.new Header.nonce
    Reputation.new zero_scores add_score total_authorities voting_power_by_id is_authority size
    authorities authority id
looped-ok = refl

inserted-round : (try_insert filled last_certificate).0.last_round.committed_round ≡ 0
unfolding new_state try_insert try_insert_in_dag check_parents insert_in_dag missing_among lookup
    insert values retain digest header_digest update update_round gc_round_of raise_committed
    entry_at order_dag walked find_digest parent_entry is_committed offer offer_all visit walk
    insert_by_round sort_by_round dag_entries order_gc_round start_walk leader_certificate
    Schedule.leader weighted_leader swap new_table retrieve_first_nodes first_nodes
    update_leader_swap_table order_leaders collect_leaders rounds_down linked descend step_down
    all_authorities same process_certificate elect report_leader_on_time_metrics commit_until
    commit_leader commit_leaders commit_sub_dag support resolve_reputation_score starting_scores
    score_sequence update_leader_schedule update_all is_schedule_changed SubDag.new Header.nonce
    Reputation.new zero_scores add_score total_authorities voting_power_by_id is_authority size
    authorities authority id
inserted-round = refl

commit_sub_dag_time_example :
    (committed.1.timestamp ≤ again.1.timestamp)
    × (102 ≤ again.1.timestamp)
    × (again.0.1.last_committed_sub_dag ≡ some again.1)
commit_sub_dag_time_example =
    commit_sub_dag_time committed.0.0 committed.0.1 leader last-committed again-ok

order_leaders-Chain_example :
    Chain filled.dag (leader ∷ [])
    × All (λ c. filled.last_round.committed_round < round c) (leader ∷ [])
    × ((front : List Certificate) × (leader ∷ [] ≡ front ++ leader ∷ []))
order_leaders-Chain_example =
    order_leaders-Chain four protocol.leader_schedule leader filled filled-IsConsistent.causal.dag
      (omega (arith, filled-round)) (omega arith) ordered-ok

elected_ends_example : is_schedule_changed looped.1 ≡ false
elected_ends_example =
    elected_ends protocol (try_insert filled last_certificate).0 3
      (try_insert-IsConsistent filled last_certificate filled-IsConsistent (omega arith)
        try_insert-ok_last)
      (omega arith) refl (rw inserted-round refl) looped-ok
