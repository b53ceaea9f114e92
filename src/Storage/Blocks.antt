-- ===== src/Storage/Blocks.antt =====
-- `ConsensusStore`: crates/storage/src/stores/consensus_store.rs. Of the headers of the consensus
-- blocks, which are kept by number, only the sub dags are read.
pub mod Committed
pub mod Highest
use mathlib.Core.List.{reverse}
use telcoin_network.Base.{
  ℕ, take, if◌then◌else◌, ltb, Bool, true, false, Option, none, some, List, [], ◌∷◌,
}
use telcoin_network.Base.Map.{Map, insert, values}
use telcoin_network.Types.Certificate.{Certificate, round, origin}
use telcoin_network.Types.SubDag.{CommittedSubDag, leader_round}
use telcoin_network.Consensus.State.{raise_committed}

abbrev pub ConsensusBlocks : Type 0
ConsensusBlocks = Map CommittedSubDag

-- The insertion of the header in `save_consensus`, of crates/state-sync/src/lib.rs.
unfoldable pub save_consensus : ℕ → CommittedSubDag → ConsensusBlocks → ConsensusBlocks
unfolding insert
save_consensus number dag blocks = insert number dag blocks

-- The loop over the certificates of a block.
unfoldable pub raise_all : List Certificate → Map ℕ → Map ℕ
unfolding raise_committed
raise_all [] m = m
raise_all (c ∷ rest) m = raise_all rest (raise_committed (origin c) (round c) m)

-- The loop of `read_last_committed` over the blocks.
unfoldable pub raise_blocks : List CommittedSubDag → Map ℕ → Map ℕ
unfolding raise_committed raise_all leader_round
raise_blocks [] m = m
raise_blocks (dag ∷ rest) m =
    raise_blocks rest
      (raise_all dag.certificates (raise_committed (origin dag.leader) (leader_round dag) m))

unfoldable pub read_last_committed : ConsensusBlocks → Map ℕ
unfolding raise_blocks values
read_last_committed blocks = raise_blocks (take (reverse (values blocks)) 50) []

unfoldable pub get_latest_sub_dag : ConsensusBlocks → Option CommittedSubDag
get_latest_sub_dag [] = none
get_latest_sub_dag ((number, dag) ∷ rest) = elim (get_latest_sub_dag rest) [
  | none ↦ some dag
  | some later ↦ some later
]

unfoldable pub read_committed_sub_dags_from : ConsensusBlocks → ℕ → List CommittedSubDag
unfolding values
read_committed_sub_dags_from [] from = []
read_committed_sub_dags_from ((number, dag) ∷ rest) from =
    let later = read_committed_sub_dags_from rest from in
    if ltb number from then later else dag ∷ values rest

-- The first sub dag with final scores.
unfoldable pub first_final : List CommittedSubDag → Option CommittedSubDag
first_final [] = none
first_final (dag ∷ rest) = elim dag.reputation_score.final_of_schedule [
  | true ↦ some dag
  | false ↦ first_final rest
]

unfoldable pub read_latest_commit_with_final_reputation_scores :
    ConsensusBlocks → Option CommittedSubDag
unfolding first_final values
read_latest_commit_with_final_reputation_scores blocks = first_final (reverse (values blocks))
