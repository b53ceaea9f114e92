-- ===== src/Tests/Paths.antt =====
-- Tests of the links between leaders.
use telcoin_network.Base.{◌≡◌, ◌↔◌, refl, true}
use telcoin_network.Base.Map.{lookup, insert, values}
use telcoin_network.Types.Certificate.{Certificate, digest, header_digest, same}
use telcoin_network.Consensus.State.{
  new_state, try_insert, try_insert_in_dag, check_parents, insert_in_dag, missing_among,
}
use telcoin_network.Consensus.Leaders.{linked, descend, step_down}
use telcoin_network.Consensus.Leaders.Linked.{IsPathDown, linked_iff}
use telcoin_network.Tests.{plain_crypto, filled, leader, last_certificate}

linked_iff_example :
    (linked last_certificate leader filled.dag ≡ true)
    ↔ ((y : Certificate) × IsPathDown filled.dag 1 2 last_certificate y × (same y leader ≡ true))
linked_iff_example = linked_iff last_certificate leader filled.dag

-- The certificate of round 3 is linked to the leader of round 2.
last-linked : linked last_certificate leader filled.dag ≡ true
unfolding linked descend step_down values lookup insert new_state try_insert try_insert_in_dag
    check_parents insert_in_dag missing_among digest header_digest same
last-linked = refl
