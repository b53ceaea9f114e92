-- ===== src/Committee/Keys.antt =====
-- The two indexes of a committee, by protocol key and by identifier, agree.
use mathlib.Core.Logic.{⊎_elim}
use mathlib.Core.List.Memᴰ
use telcoin_network.Base.{
  ℕ, ◌≡◌, sym, ap, ◌∙◌, ◌⊎◌, inl, inr, List, [], ◌∷◌, Memᴰ, some, arith, mem-cons,
}
use telcoin_network.Base.Map.{
  Map, insert, values, IsSorted, insert-IsSorted, mem_of_lookup, lookup_of_mem, of_mem-values,
}
use telcoin_network.Types.Crypto.{Crypto}
use telcoin_network.Committee.{
  Authority, Committee, CommitteeBuilder, add_authority, collect_by_id, id, authority, voting_power,
  voting_power_by_id,
}
use telcoin_network.Committee.Laws.{IsCommittee}

-- The map of authorities has one entry for each protocol key, under that key.
pub record IsKeyed (m : Map Authority) : Type 0 where
  pub sorted : IsSorted m
  pub keyed : (k : ℕ) (a : Authority) → Memᴰ (k, a) m → k ≡ a.protocol_key

mem-insert :
    (k : ℕ) (a : Authority) (m : Map Authority) (j : ℕ) (b : Authority)
    → Memᴰ (j, b) (insert k a m)
    → ((j ≡ k) × (b ≡ a)) ⊎ Memᴰ (j, b) m
unfolding insert
mem-insert k a [] j b h = ground (arith, mem-cons {A = ℕ × Authority} (j, b) (k, a) [])
mem-insert k a ((i, d) ∷ m) j b h = ground (
  arith,
  mem-insert k a m j b,
  mem-cons {A = ℕ × Authority} (j, b) (k, a) m,
  mem-cons {A = ℕ × Authority} (j, b) (i, d) m,
  mem-cons {A = ℕ × Authority} (j, b) (k, a) ((i, d) ∷ m),
  mem-cons {A = ℕ × Authority} (j, b) (i, d) (insert k a m),
)

-- Adding an authority to a builder keeps its map keyed.
pub add_authority-IsKeyed :
    (b : CommitteeBuilder) (a : Authority)
    → IsKeyed b.authorities
    → IsKeyed (add_authority b a).authorities
unfolding add_authority
add_authority-IsKeyed b a h = record {
  sorted = insert-IsSorted a.protocol_key a b.authorities h.sorted;
  keyed = λ k x m.
      ⊎_elim (λ e. e.0 ∙ ap (λ (y : Authority). y.protocol_key) (sym e.1)) (h.keyed k x)
        (mem-insert a.protocol_key a b.authorities k x m);
}

module _ ⦃crypto : Crypto⦄ where
  mem-collect_by_id :
      (m : Map Authority) (xs : List Authority) (j : ℕ) (b : Authority)
      → Memᴰ (j, b) (collect_by_id m xs)
      → ((j ≡ id b) × Memᴰ b xs) ⊎ Memᴰ (j, b) m
  unfolding collect_by_id
  mem-collect_by_id m [] j b h = inr h
  mem-collect_by_id m (a ∷ rest) j b h = ground (
    arith,
    mem-collect_by_id (insert (id a) a m) rest j b,
    mem-insert (id a) a m j b,
    mem-cons b a rest,
  )

  -- In a committee whose authorities stand under their keys and are indexed by their identifiers, an
  -- authority that is found by its identifier has the same voting power under its key.
  pub voting_power-by_key :
      (c : Committee) (i : ℕ) (a : Authority)
      → IsCommittee c
      → IsKeyed c.authorities
      → authority c i ≡ some a
      → (id a ≡ i) × (voting_power c a.protocol_key ≡ voting_power_by_id c i)
  unfolding authority voting_power voting_power_by_id
  voting_power-by_key c i a v keyed h =
      let found =
        mem-collect_by_id [] (values c.authorities) i a
          (rw v.by_id at (mem_of_lookup i c.authorities_by_id h)) in
      elim found [
        | inr m ↦ absurd (Memᴰ.not-nil m)
        | inl e ↦
            let (k, m) = of_mem-values a c.authorities e.1 in
            let at_key = lookup_of_mem k a c.authorities keyed.sorted m in
            (sym e.0, ground (arith, keyed.keyed k a m))
      ]
