-- ===== src/Committee.antt =====
-- `Committee`: crates/types/src/committee.rs. A panic of the source is `none`.
pub mod Stake
pub mod Laws
pub mod Keys
use telcoin_network.Base.{
  ℕ, ◌+◌, ◌/◌, ◌%◌, ◌==◌, leb, ltb, if◌then◌else◌, Bool, Option, none, some, List, [], ◌∷◌, ◌&&◌,
  length, add_u64, mul_u64,
}
use telcoin_network.Base.Map.{Map, lookup, insert, values, contains_key}
use telcoin_network.Types.Crypto.{Crypto}

pub record Authority : Type 0 where
  pub protocol_key : ℕ
  pub voting_power : ℕ
  pub primary_network_address : ℕ
  pub execution_address : ℕ
  pub network_key : ℕ
  pub hostname : ℕ

-- `CommitteeInner`, behind its lock.
pub record Committee : Type 0 where
  pub authorities : Map Authority
  pub authorities_by_id : Map Authority
  pub epoch : ℕ
  pub quorum_threshold : ℕ
  pub validity_threshold : ℕ

-- The sum of u64 values.
unfoldable pub sum_power : List Authority → ℕ
sum_power [] = 0
sum_power (a ∷ rest) = add_u64 a.voting_power (sum_power rest)

unfoldable pub total_voting_power : Committee → ℕ
total_voting_power c = sum_power (values c.authorities)

-- `NonZeroU64::new(2 * total_votes / 3 + 1)`, never zero.
unfoldable pub calculate_quorum_threshold : Committee → ℕ
calculate_quorum_threshold c = mul_u64 2 (total_voting_power c) / 3 + 1

-- `total_votes.div_ceil(3)`, or 1 if that is zero.
unfoldable pub calculate_validity_threshold : Committee → ℕ
calculate_validity_threshold c =
    let total = total_voting_power c in
    let third = total / 3 + (if ltb 0 (total % 3) then 1 else 0) in if third == 0 then 1 else third

module _ ⦃crypto : Crypto⦄ where
  -- `Authority::id`
  unfoldable pub id : Authority → ℕ
  id a = crypto.to_peer_id a.network_key

  -- `.map(|a| (a.id(), a)).collect()`: a later authority replaces an earlier one of the same id.
  unfoldable pub collect_by_id : Map Authority → List Authority → Map Authority
  collect_by_id m [] = m
  collect_by_id m (a ∷ rest) = collect_by_id (insert (id a) a m) rest

  -- `CommitteeInner::load`
  unfoldable pub load : Committee → Option Committee
  load c =
      let by_id = collect_by_id [] (values c.authorities) in
      let loaded = record c {
        authorities_by_id = by_id;
        validity_threshold = calculate_validity_threshold c;
        quorum_threshold = calculate_quorum_threshold c;
      } in
      if ltb 1 (length by_id) then some loaded else none

  -- `Committee::new`
  unfoldable pub new : Map Authority → ℕ → Option Committee
  unfolding load
  new authorities epoch =
      let blank : Committee = record {
        authorities = authorities;
        authorities_by_id = [];
        epoch = epoch;
        quorum_threshold = 0;
        validity_threshold = 0;
      } in
      elim (load blank) [
        | none ↦ none
        | some c ↦
            if (length c.authorities_by_id == length c.authorities)
              && (c.validity_threshold == calculate_validity_threshold c)
              && (c.quorum_threshold == calculate_quorum_threshold c)
            then some c
            else none
      ]

-- `CommitteeBuilder`
pub record CommitteeBuilder : Type 0 where
  pub epoch : ℕ
  pub authorities : Map Authority

-- `CommitteeBuilder::new`
unfoldable pub new_builder : ℕ → CommitteeBuilder
new_builder epoch = record { epoch = epoch; authorities = [] }

unfoldable pub add_authority : CommitteeBuilder → Authority → CommitteeBuilder
add_authority b a = record b { authorities = insert a.protocol_key a b.authorities }

unfoldable pub build : ⦃crypto : Crypto⦄ → CommitteeBuilder → Option Committee
build b = new b.authorities b.epoch

-- `authority`
unfoldable pub authority : Committee → ℕ → Option Authority
authority c id = lookup id c.authorities_by_id

-- `authority_by_key`
unfoldable pub authority_by_key : Committee → ℕ → Option Authority
authority_by_key c key = lookup key c.authorities

-- `authorities`, ordered by identifier.
unfoldable pub authorities : Committee → List Authority
authorities c = values c.authorities_by_id

unfoldable pub is_authority : Committee → ℕ → Bool
is_authority c id = contains_key id c.authorities_by_id

unfoldable pub size : Committee → ℕ
size c = length c.authorities

-- `voting_power`, by protocol key.
unfoldable pub voting_power : Committee → ℕ → ℕ
voting_power c key = elim (lookup key c.authorities) [ none ↦ 0 | some a ↦ a.voting_power ]

unfoldable pub voting_power_by_id : Committee → ℕ → ℕ
voting_power_by_id c id = elim (lookup id c.authorities_by_id) [
  | none ↦ 0
  | some a ↦ a.voting_power
]

unfoldable pub reached_quorum : Committee → ℕ → Bool
reached_quorum c power = leb c.quorum_threshold power

unfoldable pub reached_validity : Committee → ℕ → Bool
reached_validity c power = leb c.validity_threshold power
