-- ===== src/Consensus/Bullshark.antt =====
-- `Bullshark`: crates/consensus/primary/src/consensus/bullshark.rs. A method takes the protocol and
-- the consensus state and returns them beside its result; a panic is an error value. Metrics and
-- logs are left out.
pub mod Invariant
pub mod Runs
pub mod Termination
pub mod Fresh
pub mod Restart
use telcoin_network.Base.{
  ℕ, zero, suc, ◌+◌, ◌-◌, ◌/◌, ◌%◌, ◌==◌, ltb, leb, not, max, if◌then◌else◌, ◌&&◌, ◌||◌, Bool, true,
  false, Option, none, some, List, [], ◌∷◌, ◌++◌, Result, ok, err, ◌>>=◌, ◌>>◌, ensure, add_u32,
  sub_u32, add_u64, any, filter, map, contains, is_empty,
}
use telcoin_network.Base.Map.{Map, lookup, values}
use telcoin_network.Types.Crypto.{Crypto}
use telcoin_network.Types.Certificate.{Certificate, round, origin, parents, digest, nonce}
use telcoin_network.Types.Reputation
use telcoin_network.Types.Reputation.{ReputationScores, add_score, total_authorities}
use telcoin_network.Types.SubDag
use telcoin_network.Types.SubDag.{CommittedSubDag}
use telcoin_network.Committee.{Committee, size, voting_power_by_id}
use telcoin_network.Consensus.State.{Dag, ConsensusState, ConsensusError, try_insert, update}
use telcoin_network.Consensus.Order.{order_dag}
use telcoin_network.Consensus.Schedule.{
  Election, Failure, panicked, failed, LeaderSchedule, leader, leader_certificate, new_table,
  update_leader_swap_table,
}
use telcoin_network.Consensus.Leaders.{order_leaders}

pub record Bullshark : Type 0 where
  pub committee : Committee
  pub max_inserted_certificate_round : ℕ
  pub num_sub_dags_per_schedule : ℕ
  pub leader_schedule : LeaderSchedule
  pub bad_nodes_stake_threshold : ℕ

pub data Outcome : Type 0 where
  certificate_below_commit_round no_leader_elected_for_odd_round : Outcome
  leader_below_commit_round leader_not_found not_enough_support_for_leader : Outcome
  commit schedule_changed : Outcome

-- The test `outcome == Outcome::ScheduleChanged`.
unfoldable pub is_schedule_changed : Outcome → Bool
is_schedule_changed schedule_changed = true
is_schedule_changed outcome = false

abbrev pub Node : Type 0
Node = Bullshark × ConsensusState

-- `state.update(&x)` for each certificate of the sequence.
unfoldable pub update_all : ConsensusState → List Certificate → ConsensusState
update_all s [] = s
update_all s (c ∷ rest) = update_all (update s c) rest

module _ ⦃crypto : Crypto⦄ where
  -- The scores of the certificates that name the last leader as a parent.
  unfoldable pub score_sequence :
      ReputationScores → Certificate → List Certificate → ReputationScores
  score_sequence r last_leader [] = r
  score_sequence r last_leader (c ∷ rest) =
      score_sequence
        (if contains (parents c) (digest last_leader) then add_score r (origin c) 1 else r)
        last_leader rest

  -- The scores that a new sub dag starts from.
  unfoldable pub starting_scores : Bullshark → ConsensusState → ℕ → ReputationScores
  starting_scores b s index =
      if (index / 2) % b.num_sub_dags_per_schedule == 0
      then Reputation.new b.committee
      else elim s.last_committed_sub_dag [
        | none ↦ Reputation.new b.committee
        | some last ↦ last.reputation_score
      ]

  -- `resolve_reputation_score`. Division by a zero `num_sub_dags_per_schedule` panics.
  unfoldable pub resolve_reputation_score :
      Bullshark → ConsensusState → List Certificate → ℕ → Result Failure ReputationScores
  resolve_reputation_score b s sequence index =
      let started = starting_scores b s index in
      let scored : ReputationScores = elim s.last_committed_sub_dag [
        | none ↦ started
        | some last ↦ score_sequence started last.leader sequence
      ] in
      let final = record scored {
        final_of_schedule = add_u64 (index / 2) 1 % b.num_sub_dags_per_schedule == 0;
      } in
      if not (b.num_sub_dags_per_schedule == 0) && (total_authorities final == size b.committee)
      then ok final
      else err panicked

  -- `update_leader_schedule`
  unfoldable pub update_leader_schedule :
      Bullshark → ℕ → ReputationScores → Result Failure (Bullshark × Bool)
  update_leader_schedule b leader_round scores =
      if scores.final_of_schedule
      then (new_table b.committee leader_round scores b.bad_nodes_stake_threshold >>= λ table.
          ok
            (record b { leader_schedule = update_leader_swap_table b.leader_schedule table }, true))
      else ok (b, false)

  -- One round of the loop over the leaders to commit.
  unfoldable pub commit_sub_dag :
      Node → Certificate → Result Failure (Node × CommittedSubDag × Bool)
  commit_sub_dag (b, s) leader = do
    ensure (ltb 0 (round leader)) panicked
    let sequence = order_dag leader s
    let updated = update_all s sequence
    scores ← resolve_reputation_score b updated sequence (nonce leader)
    let sub_dag = SubDag.new sequence leader scores updated.last_committed_sub_dag
    changed ← update_leader_schedule b (round leader) scores
    ok ((changed.0, record updated { last_committed_sub_dag = some sub_dag }), sub_dag, changed.1)

  unfoldable pub commit_leaders :
      Node
      → List Certificate
      → List CommittedSubDag
      → Result Failure (Node × Outcome × List CommittedSubDag)
  commit_leaders node [] committed = ok (node, commit, committed)
  commit_leaders node (leader ∷ rest) committed = elim (commit_sub_dag node leader) [
    | err e ↦ err e
    | ok (node', sub_dag, changed) ↦ elim (changed && not (is_empty rest)) [
      | true ↦ ok (node', schedule_changed, committed ++ sub_dag ∷ [])
      | false ↦ commit_leaders node' rest (committed ++ sub_dag ∷ [])
    ]
  ]

  -- The voting power of the certificates that name the leader as a parent.
  unfoldable pub support : Committee → Certificate → List (ℕ × Certificate) → ℕ
  support c leader [] = 0
  support c leader ((d, x) ∷ rest) =
      let later = support c leader rest in
      if contains (parents x) (digest leader)
      then add_u64 (voting_power_by_id c (origin x)) later
      else later

  module _ ⦃election : Election⦄ where
    unfoldable pub commit_leader : Node → ℕ → Result Failure (Node × Outcome × List CommittedSubDag)
    commit_leader (b, s) leader_round =
        leader_certificate b.leader_schedule leader_round s.dag >>= λ found. elim found.1 [
          | none ↦ ok ((b, s), leader_not_found, [])
          | some leader ↦ elim (lookup (add_u32 leader_round 1) s.dag) [
            | none ↦ err panicked
            | some children ↦
                if ltb (support b.committee leader (values children)) b.committee.validity_threshold
                then ok ((b, s), not_enough_support_for_leader, [])
                else (order_leaders b.committee b.leader_schedule leader s >>= λ leaders.
                    commit_leaders (b, s) leaders [])
          ]
        ]

    -- The loop of `process_certificate`, which ends when the schedule did not change. Out of fuel it
    -- answers `schedule_changed`.
    unfoldable pub commit_until :
        ℕ → Node → ℕ → List CommittedSubDag → Result Failure (Node × Outcome × List CommittedSubDag)
    commit_until zero node leader_round committed = ok (node, schedule_changed, committed)
    commit_until (suc fuel) node leader_round committed = elim (commit_leader node leader_round) [
      | err e ↦ err e
      | ok (node', outcome, more) ↦ elim (is_schedule_changed outcome) [
        | true ↦ commit_until fuel node' leader_round (committed ++ more)
        | false ↦ ok (node', outcome, committed ++ more)
      ]
    ]

    -- `report_leader_on_time_metrics`, less the metrics; the lookup of the leader can panic.
    unfoldable pub report_leader_on_time_metrics : Bullshark → ℕ → Result Failure Bullshark
    report_leader_on_time_metrics b certificate_round =
        let reported = record b {
          max_inserted_certificate_round = max b.max_inserted_certificate_round certificate_round;
        } in
        if ltb b.max_inserted_certificate_round certificate_round
          && (certificate_round % 2 == 0)
          && ltb 2 certificate_round
        then (leader b.leader_schedule (sub_u32 certificate_round 2) >>= λ _. ok reported)
        else ok reported

    -- What `process_certificate` does after the insertion: the leader election.
    unfoldable pub elect : Node → ℕ → Result Failure (Node × Outcome × List CommittedSubDag)
    elect (b, s) certificate_round =
        let r = sub_u32 certificate_round 1 in
        if not (r % 2 == 0) || ltb r 2
        then ok ((b, s), no_leader_elected_for_odd_round, [])
        else if leb r s.last_round.committed_round
        then ok ((b, s), leader_below_commit_round, [])
        else (commit_until r (b, s) r [] >>= λ (node, outcome, committed).
            ok (node, (if is_empty committed then outcome else commit), committed))

    unfoldable pub process_certificate :
        Node → Certificate → Result Failure (Node × Outcome × List CommittedSubDag)
    process_certificate (b, s) c =
        let (s', inserted) = try_insert s c in
        elim inserted [
          | err e ↦ err (failed e s')
          | ok false ↦ ok ((b, s'), certificate_below_commit_round, [])
          | ok true ↦ (report_leader_on_time_metrics b (round c) >>= λ b'. elect (b', s') (round c))
        ]
