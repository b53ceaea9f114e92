-- ===== src/Consensus/Schedule.antt =====
-- The leader schedule: crates/consensus/primary/src/consensus/leader_schedule.rs. A panic of the
-- source is the error `panicked`; the lock around the swap table is left out.
use mathlib.Core.List.{reverse}
use telcoin_network.Base.{
  ℕ, ◌/◌, ◌%◌, ◌≡◌, ◌==◌, ltb, leb, if◌then◌else◌, ◌&&◌, Option, none, some, List, [], ◌∷◌, Result,
  ok, err, ◌>>=◌, ◌>>◌, ensure, add_u64, mul_u64, Memᴰ, length,
}
use telcoin_network.Base.Map.{Map, contains_key}
use telcoin_network.Types.Crypto.{Crypto}
use telcoin_network.Types.Certificate.{Certificate}
use telcoin_network.Types.Reputation.{ReputationScores, authorities_by_score_desc}
use telcoin_network.Committee.{
  Authority, Committee, id, authority, voting_power_by_id, total_voting_power, collect_by_id,
}
use telcoin_network.Base.Map.{values}
use telcoin_network.Consensus.State.{Dag, ConsensusState, ConsensusError, entry_at}

-- The seeded choices of the crate `rand`, at the seed that the source makes from a round: `none`
-- where the library returns no element.
pub record Election : Type 0 where
  -- `good_nodes.choose(&mut rng)`
  pub choose : ℕ → List Authority → Option Authority
  -- `choices.choose_weighted(&mut rng, power)`
  pub choose_weighted : ℕ → List Authority → Option Authority
  pub choose_mem :
      (seed : ℕ) (xs : List Authority) (a : Authority) → choose seed xs ≡ some a → Memᴰ a xs
  pub choose_weighted_mem :
      (seed : ℕ) (xs : List Authority) (a : Authority)
      → choose_weighted seed xs ≡ some a
      → Memᴰ a xs

-- A panic, or an error value with the state that is left behind.
pub data Failure : Type 0 where
  panicked : Failure
  failed : ConsensusError → ConsensusState → Failure

-- `expect`
abbrev pub expect : {A : Type 0} → Option A → Result Failure A
expect none = err panicked
expect (some a) = ok a

pub record LeaderSwapTable : Type 0 where
  pub round : ℕ
  pub good_nodes : List Authority
  pub bad_nodes : Map Authority

-- `LeaderSwapTable::default`
abbrev pub default_table : LeaderSwapTable
default_table = record { round = 0; good_nodes = []; bad_nodes = [] }

pub record LeaderSchedule : Type 0 where
  pub committee : Committee
  pub leader_swap_table : LeaderSwapTable

-- The loop of `retrieve_first_nodes`, from the voting power summed so far.
unfoldable pub first_nodes : Committee → ℕ → ℕ → List (ℕ × ℕ) → List Authority
first_nodes c threshold power [] = []
first_nodes c threshold power ((i, score) ∷ rest) =
    let power' = add_u64 power (voting_power_by_id c i) in
    let later = first_nodes c threshold power' rest in
    if ltb (mul_u64 threshold (total_voting_power c) / 100) power'
    then []
    else elim (authority c i) [ none ↦ later | some a ↦ a ∷ later ]

unfoldable pub retrieve_first_nodes : Committee → List (ℕ × ℕ) → ℕ → List Authority
retrieve_first_nodes c ranked threshold = first_nodes c threshold 0 ranked

module _ ⦃crypto : Crypto⦄ where
  -- `LeaderSwapTable::new`
  unfoldable pub new_table : Committee → ℕ → ReputationScores → ℕ → Result Failure LeaderSwapTable
  new_table c round scores threshold =
      let ranked = authorities_by_score_desc scores in
      let table : LeaderSwapTable = record {
        round = round;
        good_nodes = retrieve_first_nodes c ranked threshold;
        bad_nodes = collect_by_id [] (retrieve_first_nodes c (reverse ranked) threshold);
      } in
      if leb threshold 33 && scores.final_of_schedule then ok table else err panicked

  module _ ⦃election : Election⦄ where
    -- `LeaderSwapTable::swap`
    unfoldable pub swap : LeaderSwapTable → ℕ → ℕ → Result Failure (Option Authority)
    swap t leader leader_round =
        if contains_key leader t.bad_nodes
        then (expect (election.choose leader_round t.good_nodes) >>= λ good. ok (some good))
        else ok none

    -- `Committee::leader`
    unfoldable pub weighted_leader : Committee → ℕ → Result Failure Authority
    weighted_leader c seed = expect (election.choose_weighted seed (values c.authorities))

    -- `LeaderSchedule::leader`, of a build that is not a test.
    unfoldable pub leader : LeaderSchedule → ℕ → Result Failure Authority
    leader s round = do
      ensure (round % 2 == 0) panicked
      elected ← weighted_leader s.committee round
      swapped ← swap s.leader_swap_table (id elected) round
      ok (elim swapped [ none ↦ elected | some good ↦ good ])

    -- `leader_certificate`: the certificate without its digest.
    unfoldable pub leader_certificate :
        LeaderSchedule → ℕ → Dag → Result Failure (Authority × Option Certificate)
    leader_certificate s round dag = do
      a ← leader s round
      ok (a, elim (entry_at dag round (id a)) [ none ↦ none | some (_, c) ↦ some c ])

-- `update_leader_swap_table`
unfoldable pub update_leader_swap_table : LeaderSchedule → LeaderSwapTable → LeaderSchedule
update_leader_swap_table s table = record s { leader_swap_table = table }

unfoldable pub num_of_bad_nodes : LeaderSchedule → ℕ
num_of_bad_nodes s = length s.leader_swap_table.bad_nodes
