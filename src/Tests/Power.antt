-- ===== src/Tests/Power.antt =====
-- Tests of the committee.
use mathlib.Core.List.Memᴰ
use telcoin_network.Base.{◌<◌, ◌≡◌, refl, true, some, ◌==◌, ◌||◌, ◌&&◌, not, arith}
use telcoin_network.Base.Map.{lookup, insert, values}
use telcoin_network.Committee.{
  new, load, collect_by_id, id, calculate_quorum_threshold, calculate_validity_threshold,
  total_voting_power, sum_power, reached_quorum, reached_validity, authority, voting_power,
  voting_power_by_id, new_builder, add_authority,
}
use telcoin_network.Committee.Stake.{held}
use telcoin_network.Committee.Laws.{
  IsCommittee, new-IsCommittee, power_of, quorum_intersection, validity_meets_quorum,
}
use telcoin_network.Committee.Keys.{IsKeyed, add_authority-IsKeyed, voting_power-by_key}
use telcoin_network.Tests.{plain_crypto, four, four_authorities, authority_at}

four-new : new four_authorities 0 ≡ some four
unfolding new load collect_by_id calculate_quorum_threshold calculate_validity_threshold
    total_voting_power sum_power id insert values
four-new = refl

pub four-IsCommittee : IsCommittee four
unfolding held values
four-IsCommittee = new-IsCommittee four_authorities 0 (omega arith) four-new

quorum_intersection_example :
    reached_validity four (power_of four (λ i. not (i == 4) && not (i == 1))) ≡ true
unfolding reached_quorum held id values
quorum_intersection_example =
    quorum_intersection four (λ i. not (i == 4)) (λ i. not (i == 1)) four-IsCommittee refl refl

validity_meets_quorum_example : 0 < power_of four (λ i. ((i == 1) || (i == 4)) && not (i == 4))
unfolding reached_quorum reached_validity held id values
validity_meets_quorum_example =
    validity_meets_quorum four (λ i. (i == 1) || (i == 4)) (λ i. not (i == 4)) four-IsCommittee refl
      refl

pub four-IsKeyed : IsKeyed four_authorities
unfolding add_authority new_builder insert
four-IsKeyed =
    add_authority-IsKeyed
      (add_authority
        (add_authority (add_authority (new_builder 0) (authority_at 1)) (authority_at 2))
        (authority_at 3))
      (authority_at 4)
      (add_authority-IsKeyed
        (add_authority (add_authority (new_builder 0) (authority_at 1)) (authority_at 2))
        (authority_at 3)
        (add_authority-IsKeyed (add_authority (new_builder 0) (authority_at 1)) (authority_at 2) (
          add_authority-IsKeyed (new_builder 0) (authority_at 1)
            (record { sorted = tt; keyed = λ k a m. absurd (Memᴰ.not-nil m) }))))

voting_power-by_key_example :
    (id (authority_at 2) ≡ 2) × (voting_power four 2 ≡ voting_power_by_id four 2)
unfolding authority lookup
voting_power-by_key_example =
    voting_power-by_key four 2 (authority_at 2) four-IsCommittee four-IsKeyed refl
