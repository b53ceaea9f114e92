-- ===== src/Consensus/Leaders.antt =====
-- `linked` and `order_leaders` of crates/consensus/primary/src/consensus/bullshark.rs.
pub mod Chain
pub mod Linked
use telcoin_network.Base.{
  ℕ, zero, suc, ◌+◌, ◌-◌, ◌%◌, ◌==◌, leb, if◌then◌else◌, Bool, true, false, Option, none, some,
  List, [], ◌∷◌, Result, ok, err, ◌>>=◌, ◌>>◌, ensure, add_u32, sub_u32, any, filter, map, contains,
}
use telcoin_network.Base.Map.{Map, lookup, values}
use telcoin_network.Types.Crypto.{Crypto}
use telcoin_network.Types.Certificate.{Certificate, round, origin, parents, same}
use telcoin_network.Committee.{Committee, is_authority}
use telcoin_network.Consensus.State.{Dag, ConsensusState}
use telcoin_network.Consensus.Schedule.{
  Election, Failure, panicked, LeaderSchedule, leader_certificate,
}

-- The certificates of a round that are parents of some of the given ones.
unfoldable pub step_down : Dag → List Certificate → ℕ → List Certificate
step_down dag reached r = elim (lookup r dag) [
  | none ↦ []
  | some round_table ↦
      map (λ x. x.1)
        (filter (λ x. any (λ y. contains (parents y) x.0) reached) (values round_table))
]

-- The loop of `linked` over the `n` rounds that end at `lowest`, the highest of them first.
unfoldable pub descend : Dag → List Certificate → ℕ → ℕ → List Certificate
descend dag reached zero lowest = reached
descend dag reached (suc n) lowest = descend dag (step_down dag reached (lowest + n)) n lowest

-- The rounds `(lo..=hi).rev().step_by(2)`, with as much fuel as there are numbers up to `hi`.
unfoldable pub rounds_down : ℕ → ℕ → ℕ → List ℕ
rounds_down zero lo hi = []
rounds_down (suc fuel) lo hi =
    let lower = rounds_down fuel lo (hi - 2) in
    if leb lo hi then hi ∷ (if leb 2 hi then lower else []) else []

module _ ⦃crypto : Crypto⦄ where
  unfoldable pub linked : Certificate → Certificate → Dag → Bool
  linked leader prev_leader dag =
      any (λ c. same c prev_leader)
        (descend dag (leader ∷ []) (round leader - round prev_leader) (round prev_leader))

  module _ ⦃election : Election⦄ where
    -- The loop of `order_leaders`, with the leader that was put in front last.
    unfoldable pub collect_leaders :
        LeaderSchedule
        → Dag
        → Certificate
        → List Certificate
        → List ℕ
        → Result Failure (List Certificate)
    collect_leaders schedule dag leader to_commit [] = ok to_commit
    collect_leaders schedule dag leader to_commit (r ∷ rest) =
        elim (leader_certificate schedule r dag) [
          | err e ↦ err e
          | ok (_, none) ↦ collect_leaders schedule dag leader to_commit rest
          | ok (_, some prev) ↦ elim (linked leader prev dag) [
            | true ↦ collect_leaders schedule dag prev (prev ∷ to_commit) rest
            | false ↦ collect_leaders schedule dag leader to_commit rest
          ]
        ]

    unfoldable pub all_authorities : Committee → List Certificate → Bool
    all_authorities c [] = true
    all_authorities c (x ∷ rest) =
        let later = all_authorities c rest in if is_authority c (origin x) then later else false

    unfoldable pub order_leaders :
        Committee
        → LeaderSchedule
        → Certificate
        → ConsensusState
        → Result Failure (List Certificate)
    order_leaders committee schedule leader s =
        ensure (round leader % 2 == 0) panicked
        >> (collect_leaders schedule s.dag leader (leader ∷ []) (
              rounds_down (suc (sub_u32 (round leader) 2)) (add_u32 s.last_round.committed_round 2)
                (sub_u32 (round leader) 2))
            >>= λ to_commit. ensure (all_authorities committee to_commit) panicked >> ok to_commit)
