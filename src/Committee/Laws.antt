-- ===== src/Committee/Laws.antt =====
-- What a committee that `new` returns guarantees: its thresholds, and how quorums meet.
use telcoin_network.Base.{
  ℕ, ◌+◌, ◌*◌, ◌/◌, ◌<◌, ◌^◌, ◌≡◌, refl, Bool, true, ◌&&◌, [], ◌∷◌, arith, length, if◌then◌else◌,
  ◌==◌, some,
}
use telcoin_network.Base.Map.{Map, values}
use telcoin_network.Types.Crypto.{Crypto}
use telcoin_network.Committee.{
  Authority, Committee, collect_by_id, id, new, total_voting_power, calculate_quorum_threshold,
  calculate_validity_threshold, reached_quorum, reached_validity,
}
use telcoin_network.Committee.Stake.{held, everyone, sum_power-eq-held, held_overlap, held-collect}

-- All voting power, without wrap-around.
abbrev pub total : Committee → ℕ
total c = held everyone (values c.authorities)

length-values {ℓ} : {V : Type ℓ} (m : Map V) → length (values m) ≡ length m
unfolding values
length-values [] = refl
length-values ((k, v) ∷ m) = omega (arith, length-values m)

module _ ⦃crypto : Crypto⦄ where
  -- A committee whose thresholds and index belong to its authorities, and whose power does not wrap.
  pub record IsCommittee (c : Committee) : Type 0 where
    pub quorum : c.quorum_threshold ≡ 2 * total c / 3 + 1
    pub validity : c.validity_threshold ≡ (if total c == 0 then 1 else (total c + 2) / 3)
    pub by_id : c.authorities_by_id ≡ collect_by_id [] (values c.authorities)
    pub same_power : held everyone (values c.authorities_by_id) ≡ total c
    pub several : 1 < length c.authorities

  new-eq-some :
      (authorities : Map Authority) (epoch : ℕ) {c : Committee}
      → new authorities epoch ≡ some c
      → (c.authorities ≡ authorities)
        × (c.authorities_by_id ≡ collect_by_id [] (values authorities))
        × (c.epoch ≡ epoch)
        × (length (collect_by_id [] (values authorities)) ≡ length authorities)
        × (1 < length authorities)
        × (c.validity_threshold ≡ calculate_validity_threshold c)
        × (c.quorum_threshold ≡ calculate_quorum_threshold c)
  unfolding new
  new-eq-some authorities epoch {c} h = ground arith

  pub new-IsCommittee :
      (authorities : Map Authority) (epoch : ℕ) {c : Committee}
      → held everyone (values authorities) < 2 ^ 63
      → new authorities epoch ≡ some c
      → IsCommittee c
  unfolding calculate_quorum_threshold calculate_validity_threshold total_voting_power
  new-IsCommittee authorities epoch {c} small h =
      let (a, b, e, l, n, v, q) = new-eq-some authorities epoch h in
      let sums = sum_power-eq-held (values c.authorities) (rw a (omega arith)) in
      record {
        quorum = ground (arith, sums);
        validity = ground (arith, sums);
        by_id = rw (b, a);
        same_power =
            rw (b, a)
              (held-collect (values authorities) (rw (l, length-values authorities) (omega arith)));
        several = rw a n;
      }

  -- The voting power of the authorities whose identifiers pass a test.
  abbrev pub power_of : Committee → (ℕ → Bool) → ℕ
  power_of c test = held (λ a. test (id a)) (values c.authorities_by_id)

  -- In a committee whose thresholds belong to its voting power, any two quorums share authorities
  -- of at least the validity threshold, f + 1.
  pub quorum_intersection :
      (c : Committee) (p q : ℕ → Bool)
      → IsCommittee c
      → reached_quorum c (power_of c p) ≡ true
      → reached_quorum c (power_of c q) ≡ true
      → reached_validity c (power_of c (λ i. p i && q i)) ≡ true
  unfolding reached_quorum reached_validity
  quorum_intersection c p q v hp hq = ground (
    arith,
    v.quorum,
    v.validity,
    v.same_power,
    held_overlap (λ a. p (id a)) (λ a. q (id a)) (values c.authorities_by_id),
  )

  -- In a committee whose thresholds belong to its voting power, a set that reaches the validity
  -- threshold shares voting power with every quorum.
  pub validity_meets_quorum :
      (c : Committee) (p q : ℕ → Bool)
      → IsCommittee c
      → reached_validity c (power_of c p) ≡ true
      → reached_quorum c (power_of c q) ≡ true
      → 0 < power_of c (λ i. p i && q i)
  unfolding reached_quorum reached_validity
  validity_meets_quorum c p q v hp hq = ground (
    arith,
    v.quorum,
    v.validity,
    v.same_power,
    held_overlap (λ a. p (id a)) (λ a. q (id a)) (values c.authorities_by_id),
  )
