-- ===== src/Types/SubDag.antt =====
-- `CommittedSubDag`: crates/types/src/primary/output.rs.
use telcoin_network.Base.{ℕ, max, ◌==◌, if◌then◌else◌, Option, none, some, List}
use telcoin_network.Types.Certificate.{Certificate}
use telcoin_network.Types.Certificate
use telcoin_network.Types.Reputation.{ReputationScores}

-- `timestamp` is the private field `commit_timestamp`.
pub record CommittedSubDag : Type 0 where
  pub certificates : List Certificate
  pub leader : Certificate
  pub reputation_score : ReputationScores
  pub timestamp : ℕ

-- `CommittedSubDag::new`, less the sub dag index, which is only logged.
unfoldable pub new :
    List Certificate → Certificate → ReputationScores → Option CommittedSubDag → CommittedSubDag
new certificates leader scores previous =
    let previous_ts : ℕ = elim previous [ none ↦ 0 | some s ↦ s.timestamp ] in
    record {
      certificates = certificates;
      leader = leader;
      reputation_score = scores;
      timestamp = max previous_ts leader.header.created_at;
    }

unfoldable pub leader_round : CommittedSubDag → ℕ
leader_round s = Certificate.round s.leader

unfoldable pub leader_epoch : CommittedSubDag → ℕ
leader_epoch s = Certificate.epoch s.leader

unfoldable pub commit_timestamp : CommittedSubDag → ℕ
commit_timestamp s = if s.timestamp == 0 then s.leader.header.created_at else s.timestamp
