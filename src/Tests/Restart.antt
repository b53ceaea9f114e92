-- ===== src/Tests/Restart.antt =====
-- Tests of a restart, on the block of the commit of the leader of round 2.
use telcoin_network.Base.{◌≡◌, refl, true, some, List, [], ◌∷◌, ok, arith}
use telcoin_network.Base.Map.{insert}
use telcoin_network.Types.Certificate.{Certificate}
use telcoin_network.Types.SubDag.{leader_round}
use telcoin_network.Consensus.State.{
  ConsensusState, new_state, try_insert, highest_committed, new_with_gc_depth, new_from_store,
  construct_dag_from_cert_store, insert_all,
}
use telcoin_network.Consensus.Bullshark.Restart.{
  Saved, started, inserted, committed, restart_agrees, new_from_store-recovers,
}
use telcoin_network.Storage.Blocks.{
  ConsensusBlocks, save_consensus, read_last_committed, get_latest_sub_dag,
}
use telcoin_network.Tests.{
  plain_crypto, protocol, leader, filled-AllInserted, AllInserted, insert_each, some_certificates,
}
use telcoin_network.Tests.Commits
use telcoin_network.Tests.Commits.{result_or, committed-ok, filled-round}

insert_each-Saved :
    {blocks : ConsensusBlocks} (s : ConsensusState) (cs : List Certificate)
    → Saved blocks s
    → AllInserted s cs
    → Saved blocks (insert_each s cs)
insert_each-Saved s [] r h = r
insert_each-Saved s (c ∷ rest) r h =
    insert_each-Saved (try_insert s c).0 rest (inserted c true r h.1 h.0 refl) h.2

abbrev blocks : ConsensusBlocks
blocks = save_consensus 1 Commits.committed.1 []

blocks-Saved : Saved blocks Commits.committed.0.1
blocks-Saved =
    committed protocol Commits.committed.0.0 leader Commits.committed.1 Commits.committed.2 1
      (insert_each-Saved (new_state 50) some_certificates (started 50 refl refl) filled-AllInserted)
      (omega (arith, filled-round)) committed-ok tt refl

blocks-latest : get_latest_sub_dag blocks ≡ some Commits.committed.1
unfolding save_consensus insert get_latest_sub_dag
blocks-latest = refl

restart_agrees_example :
    leader_round Commits.committed.1 ≡ highest_committed (read_last_committed blocks)
restart_agrees_example =
    restart_agrees blocks Commits.committed.0.1 Commits.committed.1 blocks-Saved blocks-latest

-- The node restarts with an empty certificate store.
abbrev restarted : ConsensusState
restarted = record {
  last_round =
      new_with_gc_depth (highest_committed (read_last_committed blocks))
        Commits.committed.0.1.gc_depth;
  gc_depth = Commits.committed.0.1.gc_depth;
  last_committed = read_last_committed blocks;
  last_committed_sub_dag = get_latest_sub_dag blocks;
  dag = [];
}

restarted-ok :
    new_from_store
      (highest_committed (read_last_committed blocks))
      Commits.committed.0.1.gc_depth
      (read_last_committed blocks)
      (get_latest_sub_dag blocks)
      (λ r. [])
    ≡ ok restarted
unfolding new_from_store construct_dag_from_cert_store insert_all
restarted-ok = refl

new_from_store-recovers_example :
    (restarted.last_round ≡ Commits.committed.0.1.last_round)
    × (restarted.last_committed_sub_dag ≡ Commits.committed.0.1.last_committed_sub_dag)
    × (restarted.last_round.committed_round ≡ highest_committed restarted.last_committed)
new_from_store-recovers_example =
    new_from_store-recovers blocks Commits.committed.0.1 (λ r. []) blocks-Saved restarted-ok
