-- ===== src/Committee/Stake.antt =====
-- Voting power of sets of authorities, summed without wrap-around.
use telcoin_network.Base.{
  ℕ, suc, ◌+◌, ◌≤◌, ◌<◌, ◌^◌, ◌≡◌, refl, Bool, true, ◌&&◌, List, [], ◌∷◌, arith, length,
  if◌then◌else◌,
}
use telcoin_network.Base.Map.{Map, insert, values}
use telcoin_network.Types.Crypto.{Crypto}
use telcoin_network.Committee.{Authority, sum_power, collect_by_id, id}

-- The voting power of the authorities that pass a test.
unfoldable pub held : (Authority → Bool) → List Authority → ℕ
held test [] = 0
held test (a ∷ rest) = (if test a then a.voting_power else 0) + held test rest

abbrev pub everyone : Authority → Bool
everyone a = true

pub sum_power-eq-held :
    (xs : List Authority) → held everyone xs < 2 ^ 64 → sum_power xs ≡ held everyone xs
unfolding sum_power held
sum_power-eq-held [] h = refl
sum_power-eq-held (a ∷ rest) h = omega (arith, sum_power-eq-held rest (omega arith))

-- Two sets cannot be larger together than all authorities and what the sets share.
pub held_overlap :
    (p q : Authority → Bool) (xs : List Authority)
    → held p xs + held q xs ≤ held everyone xs + held (λ a. p a && q a) xs
unfolding held
held_overlap p q [] = omega arith
held_overlap p q (a ∷ rest) = ground (arith, held_overlap p q rest)

length-insert-le :
    (k : ℕ) (a : Authority) (m : Map Authority) → length (insert k a m) ≤ suc (length m)
unfolding insert
length-insert-le k a [] = omega arith
length-insert-le k a ((j, b) ∷ m) = ground (arith, length-insert-le k a m)

-- An insertion that makes the map longer replaces nobody.
held-insert :
    (k : ℕ) (a : Authority) (m : Map Authority)
    → length (insert k a m) ≡ suc (length m)
    → held everyone (values (insert k a m)) ≡ a.voting_power + held everyone (values m)
unfolding insert held values
held-insert k a [] h = refl
held-insert k a ((j, b) ∷ m) h = ground (arith, held-insert k a m)

module _ ⦃crypto : Crypto⦄ where
  length-collect_by_id :
      (m : Map Authority) (xs : List Authority) → length (collect_by_id m xs) ≤ length m + length xs
  unfolding collect_by_id
  length-collect_by_id m [] = omega arith
  length-collect_by_id m (a ∷ rest) =
      omega (arith, length-collect_by_id (insert (id a) a m) rest, length-insert-le (id a) a m)

  -- With as many entries as authorities, the index by identifier holds the same voting power.
  held-collect_by_id :
      (m : Map Authority) (xs : List Authority)
      → length (collect_by_id m xs) ≡ length m + length xs
      → held everyone (values (collect_by_id m xs)) ≡ held everyone (values m) + held everyone xs
  unfolding collect_by_id held
  held-collect_by_id m [] h = omega arith
  held-collect_by_id m (a ∷ rest) h =
      let bound = length-collect_by_id (insert (id a) a m) rest in
      let grows = length-insert-le (id a) a m in
      omega (
        arith,
        held-collect_by_id (insert (id a) a m) rest (omega (arith, bound, grows)),
        held-insert (id a) a m (omega (arith, bound, grows)),
      )

  pub held-collect :
      (xs : List Authority)
      → length (collect_by_id [] xs) ≡ length xs
      → held everyone (values (collect_by_id [] xs)) ≡ held everyone xs
  unfolding held values
  held-collect xs h = omega (arith, held-collect_by_id [] xs (omega arith))
