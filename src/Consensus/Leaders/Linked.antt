-- ===== src/Consensus/Leaders/Linked.antt =====
-- `linked` is the existence of a path: crates/consensus/primary/src/consensus/bullshark.rs.
use mathlib.Core.List.{Memᴰ}
use mathlib.Core.List.Memᴰ
use telcoin_network.Base.{
  ℕ, zero, suc, ◌+◌, ◌-◌, ◌≡◌, ◌↔◌, refl, ap, subst, Bool, true, inl, inr, Option-cases, List, [],
  ◌∷◌, map, filter, any, mem-filter, any_of_mem, mem_of_any, contains, contains_iff,
}
use telcoin_network.Base.Map.{lookup, values}
use telcoin_network.Types.Crypto.{Crypto}
use telcoin_network.Types.Certificate.{Certificate, round, parents, same}
use telcoin_network.Consensus.State.{Dag}
use telcoin_network.Consensus.State.Insert.{table, table_of_lookup}
use telcoin_network.Consensus.Leaders.{step_down, descend, linked}

-- The certificate stands in the round, under a digest that is among the parents of the other one.
abbrev pub IsParentIn : Dag → ℕ → Certificate → Certificate → Type 0
IsParentIn dag r child z = (d : ℕ) × Memᴰ (d, z) (values (table dag r)) × Memᴰ d (parents child)

-- A path from the first certificate to the second, by parents in the `n` rounds that end at `lowest`,
-- the highest of them first.
abbrev pub IsPathDown : Dag → ℕ → ℕ → Certificate → Certificate → Type 0
IsPathDown dag zero lowest x y = x ≡ y
IsPathDown dag (suc n) lowest x y =
    (z : Certificate) × IsParentIn dag (lowest + n) x z × IsPathDown dag n lowest z y

of_mem-map_second :
    (z : Certificate) (xs : List (ℕ × Certificate))
    → Memᴰ z (map (λ x. x.1) xs)
    → (d : ℕ) × Memᴰ (d, z) xs
of_mem-map_second z [] m = absurd (Memᴰ.not-nil m)
of_mem-map_second z ((d, y) ∷ xs) m = elim (Memᴰ.cases_cons m) [
  | inl e ↦ (d, Memᴰ.head (ap (λ c. (d, c)) e))
  | inr at ↦ let (d', later) = of_mem-map_second z xs at in (d', Memᴰ.tail later)
]

mem-map_second :
    (d : ℕ) (z : Certificate) (xs : List (ℕ × Certificate))
    → Memᴰ (d, z) xs
    → Memᴰ z (map (λ x. x.1) xs)
mem-map_second d z [] m = absurd (Memᴰ.not-nil m)
mem-map_second d z (x ∷ xs) m = elim (Memᴰ.cases_cons m) [
  | inl e ↦ Memᴰ.head (ap (λ y. y.1) e)
  | inr at ↦ Memᴰ.tail (mem-map_second d z xs at)
]

abbrev has_child : List Certificate → ℕ × Certificate → Bool
has_child reached x = any (λ y. contains (parents y) x.0) reached

of_mem-step_down :
    (dag : Dag) (reached : List Certificate) (r : ℕ) (z : Certificate)
    → Memᴰ z (step_down dag reached r)
    → (x : Certificate) × Memᴰ x reached × IsParentIn dag r x z
unfolding step_down
of_mem-step_down dag reached r z m = elim (Option-cases (lookup r dag)) [
  | inl e ↦ absurd (Memᴰ.not-nil (rw (step_down, e) at m))
  | inr (rows, e) ↦
      let (d, at) =
        of_mem-map_second z (filter (has_child reached) (values rows)) (rw (step_down, e) at m) in
      let (inside, child) = (mem-filter (has_child reached) (d, z) (values rows)).0 at in
      let (x, among, parent) =
        mem_of_any (λ (y : Certificate). contains (parents y) d) reached child in
      (x, among, (d, rw (table_of_lookup dag r e) inside, (contains_iff d (parents x)).0 parent))
]

mem-step_down :
    (dag : Dag) (reached : List Certificate) (r : ℕ) (z x : Certificate)
    → Memᴰ x reached
    → IsParentIn dag r x z
    → Memᴰ z (step_down dag reached r)
unfolding step_down values
mem-step_down dag reached r z x among (d, inside, parent) = elim (Option-cases (lookup r dag)) [
  | inl e ↦ absurd (Memᴰ.not-nil (rw (e, values) at inside))
  | inr (rows, e) ↦
      let child =
        any_of_mem (λ (y : Certificate). contains (parents y) d) x reached among
          ((contains_iff d (parents x)).1 parent) in
      rw (step_down, e)
        (mem-map_second d z (filter (has_child reached) (values rows)) (
          (mem-filter (has_child reached) (d, z) (values rows)).1
            (rw (table_of_lookup dag r e) at inside, child)))
]

of_mem-descend :
    (dag : Dag) (n lowest : ℕ) (reached : List Certificate) (y : Certificate)
    → Memᴰ y (descend dag reached n lowest)
    → (x : Certificate) × Memᴰ x reached × IsPathDown dag n lowest x y
unfolding descend
of_mem-descend dag zero lowest reached y m = (y, m, refl)
of_mem-descend dag (suc n) lowest reached y m =
    let (z, at, rest) = of_mem-descend dag n lowest (step_down dag reached (lowest + n)) y m in
    let (x, among, parent) = of_mem-step_down dag reached (lowest + n) z at in
    (x, among, (z, parent, rest))

mem-descend :
    (dag : Dag) (n lowest : ℕ) (reached : List Certificate) (x y : Certificate)
    → Memᴰ x reached
    → IsPathDown dag n lowest x y
    → Memᴰ y (descend dag reached n lowest)
unfolding descend
mem-descend dag zero lowest reached x y m e = subst (λ z. Memᴰ z reached) e m
mem-descend dag (suc n) lowest reached x y m (z, parent, rest) =
    mem-descend dag n lowest (step_down dag reached (lowest + n)) z y
      (mem-step_down dag reached (lowest + n) z x m parent) rest

module _ ⦃crypto : Crypto⦄ where
  -- A leader is linked to an earlier one exactly if a path leads down from it, by one parent in each
  -- round, to a certificate that is equal to the earlier one.
  pub linked_iff :
      (leader prev_leader : Certificate) (dag : Dag)
      → (linked leader prev_leader dag ≡ true) ↔ (
          (y : Certificate) × IsPathDown dag
            (round leader - round prev_leader)
            (round prev_leader)
            leader
            y
          × (same y prev_leader ≡ true))
  unfolding linked
  linked_iff leader prev_leader dag =
      let n = round leader - round prev_leader in
      let reached = descend dag (leader ∷ []) n (round prev_leader) in
      (
        λ h.
            let (y, at, equal) = mem_of_any (λ c. same c prev_leader) reached h in
            let (x, among, path) = of_mem-descend dag n (round prev_leader) (leader ∷ []) y at in
            (
              y,
              subst (λ z. IsPathDown dag n (round prev_leader) z y) (Memᴰ.eq_of_singleton among)
                  path,
              equal,
            ),
        λ (y, path, equal).
            any_of_mem (λ c. same c prev_leader) y reached
              (mem-descend dag n (round prev_leader) (leader ∷ []) leader y (Memᴰ.head refl) path)
              equal,
      )
