-- ===== src/Base/Pairs.antt =====
-- Tables whose keys are pairs, in the order of the first number and then of the second.
use Prim.Native.Nat.{ℕ, suc, ◌≤◌, ◌<◌}
use mathlib.Core.Path.{◌≡◌, ap, subst}
use mathlib.Core.Logic.{inl, inr, ◌↔◌}
use mathlib.Core.Bool.{◌&&◌}
use mathlib.Core.Option.{Option, none, some}
use mathlib.Core.List.{List, [], ◌∷◌, ◌++◌, Memᴰ}
use mathlib.Core.List.Memᴰ
use native.Mathlib.Omega.{arith}
use telcoin_network.Base.Tests.{◌==◌, ltb, if◌then◌else◌, Option-cases, Bool-cases}
use telcoin_network.Base.Lists.{mem-cons, mem-append}
use telcoin_network.Base.Map.{
  Map, lookup, insert, remove, lookup_or, IsSorted, SortedFrom, lookup-insert, lookup-remove,
  mem_of_lookup, lookup_of_mem, insert-IsSorted, remove-IsSorted,
}

abbrev pub PairMap {ℓ} : Type ℓ → Type ℓ
PairMap V = Map (Map V)

module _ {ℓ} {V : Type ℓ} where
  abbrev pub rows_at : ℕ → PairMap V → Map V
  rows_at i m = lookup_or i [] m

  unfoldable pub lookup_pair : ℕ → ℕ → PairMap V → Option V
  lookup_pair i j m = lookup j (rows_at i m)

  unfoldable pub insert_pair : ℕ → ℕ → V → PairMap V → PairMap V
  insert_pair i j v m = insert i (insert j v (rows_at i m)) m

  unfoldable pub remove_pair : ℕ → ℕ → PairMap V → PairMap V
  remove_pair i j m = insert i (remove j (rows_at i m)) m

  unfoldable pub with_first : ℕ → Map V → List (ℕ × ℕ × V)
  with_first i [] = []
  with_first i ((j, v) ∷ row) = (i, j, v) ∷ with_first i row

  -- The iteration over the table.
  unfoldable pub entries : PairMap V → List (ℕ × ℕ × V)
  unfolding with_first
  entries [] = []
  entries ((i, row) ∷ m) = with_first i row ++ entries m

  pub record IsOrdered (m : PairMap V) : Type 0 where
    pub outer : IsSorted m
    pub inner : (i : ℕ) → IsSorted (rows_at i m)

  rows_at-insert :
      (i : ℕ) (row : Map V) (m : PairMap V) (i' : ℕ)
      → rows_at i' (insert i row m) ≡ (if i == i' then row else rows_at i' m)
  rows_at-insert i row m i' = ground (arith, lookup-insert i i' row m)

  pub lookup-insert_pair :
      (i j : ℕ) (v : V) (m : PairMap V) (i' j' : ℕ)
      → lookup_pair i' j' (insert_pair i j v m)
        ≡ (if (i == i') && (j == j') then some v else lookup_pair i' j' m)
  unfolding lookup_pair insert_pair
  lookup-insert_pair i j v m i' j' =
      ground (
        arith,
        rows_at-insert i (insert j v (rows_at i m)) m i',
        lookup-insert j j' v (rows_at i m),
      )

  pub lookup-remove_pair :
      (i j : ℕ) (m : PairMap V) (i' j' : ℕ)
      → lookup_pair i' j' (remove_pair i j m)
        ≡ (if (i == i') && (j == j') then none else lookup_pair i' j' m)
  unfolding lookup_pair remove_pair
  lookup-remove_pair i j m i' j' =
      ground
        (arith, rows_at-insert i (remove j (rows_at i m)) m i', lookup-remove j j' (rows_at i m))

  replaced-IsOrdered :
      (i : ℕ) (row : Map V) (m : PairMap V)
      → IsSorted row
      → IsOrdered m
      → IsOrdered (insert i row m)
  replaced-IsOrdered i row m sorted h = record {
    outer = insert-IsSorted i row m h.outer;
    inner = λ i'. elim (Bool-cases (i == i')) [
      | inl e ↦ rw (rows_at-insert i row m i', e) sorted
      | inr e ↦ rw (rows_at-insert i row m i', e) (h.inner i')
    ];
  }

  pub insert_pair-IsOrdered :
      (i j : ℕ) (v : V) (m : PairMap V) → IsOrdered m → IsOrdered (insert_pair i j v m)
  unfolding insert_pair
  insert_pair-IsOrdered i j v m h =
      replaced-IsOrdered i _ m (insert-IsSorted j v (rows_at i m) (h.inner i)) h

  pub remove_pair-IsOrdered :
      (i j : ℕ) (m : PairMap V) → IsOrdered m → IsOrdered (remove_pair i j m)
  unfolding remove_pair
  remove_pair-IsOrdered i j m h =
      replaced-IsOrdered i _ m (remove-IsSorted j (rows_at i m) (h.inner i)) h

  mem-with_first :
      (i j i' : ℕ) (v : V) (row : Map V)
      → Memᴰ (i', j, v) (with_first i row) ↔ ((i' ≡ i) × Memᴰ (j, v) row)
  unfolding with_first
  mem-with_first i j i' v [] = (λ h. absurd (Memᴰ.not-nil h), λ h. absurd (Memᴰ.not-nil h.1))
  mem-with_first i j i' v ((k, w) ∷ row) = ground (
    arith,
    mem-cons (i', j, v) (i, k, w) (with_first i row),
    mem-cons (j, v) (k, w) row,
    mem-with_first i j i' v row,
  )

  of_mem-entries :
      (i j : ℕ) (v : V) (m : PairMap V)
      → Memᴰ (i, j, v) (entries m)
      → (row : Map V) × Memᴰ (i, row) m × Memᴰ (j, v) row
  unfolding entries
  of_mem-entries i j v [] h = absurd (Memᴰ.not-nil h)
  of_mem-entries i j v ((k, row) ∷ m) h =
      elim ((mem-append (i, j, v) (with_first k row) (entries m)).0 h) [
        | inl here ↦
            let (same, at) = (mem-with_first k j i v row).0 here in
            (row, Memᴰ.head (ap (λ x. (x, row)) same), at)
        | inr there ↦
            let (other, at, inside) = of_mem-entries i j v m there in (other, Memᴰ.tail at, inside)
      ]

  mem-entries :
      (i j : ℕ) (v : V) (row : Map V) (m : PairMap V)
      → Memᴰ (i, row) m
      → Memᴰ (j, v) row
      → Memᴰ (i, j, v) (entries m)
  unfolding entries
  mem-entries i j v row [] at inside = absurd (Memᴰ.not-nil at)
  mem-entries i j v row ((k, other) ∷ m) at inside =
      let append = mem-append (i, j, v) (with_first k other) (entries m) in
      elim (Memᴰ.cases_cons at) [
        | inl e ↦ append.1 (
            inl (
              (mem-with_first k j i v other).1
                (ap (λ x. x.0) e, subst (λ r. Memᴰ (j, v) r) (ap (λ x. x.1) e) inside)))
        | inr later ↦ append.1 (inr (mem-entries i j v row m later inside))
      ]

  lookup-rows_at :
      (i j : ℕ) (v : V) (m : PairMap V)
      → lookup_pair i j m ≡ some v
      → (row : Map V) × (lookup i m ≡ some row) × (lookup j row ≡ some v)
  unfolding lookup_pair lookup
  lookup-rows_at i j v m h = elim (Option-cases (lookup i m)) [
    | inl e ↦ absurd (ground arith)
    | inr (row, e) ↦ (row, e, ground arith)
  ]

  -- The iteration gives each pair with its value.
  pub mem-entries_iff :
      (i j : ℕ) (v : V) (m : PairMap V)
      → IsOrdered m
      → Memᴰ (i, j, v) (entries m) ↔ (lookup_pair i j m ≡ some v)
  unfolding lookup_pair
  mem-entries_iff i j v m h = (
    λ at.
        let (row, outside, inside) = of_mem-entries i j v m at in
        let found = lookup_of_mem i row m h.outer outside in
        let same : rows_at i m ≡ row = ground arith in
        rw same (lookup_of_mem j v row (subst IsSorted same (h.inner i)) inside),
    λ e.
        let (row, outside, inside) = lookup-rows_at i j v m e in
        mem-entries i j v row m (mem_of_lookup i m outside) (mem_of_lookup j row inside),
  )

-- The first numbers do not fall, from the bound on.
abbrev pub FirstFrom {ℓ} : {V : Type ℓ} → ℕ → List (ℕ × ℕ × V) → Type 0
FirstFrom lo [] = Unit
FirstFrom lo (x ∷ xs) = (lo ≤ x.0) × FirstFrom x.0 xs

module _ {ℓ} {V : Type ℓ} where
  FirstFrom-mono : (lo hi : ℕ) (xs : List (ℕ × ℕ × V)) → lo ≤ hi → FirstFrom hi xs → FirstFrom lo xs
  FirstFrom-mono lo hi [] h s = tt
  FirstFrom-mono lo hi (x ∷ xs) h s = (omega (arith, s.0, h), s.1)

  FirstFrom-with_first :
      (lo i : ℕ) (row : Map V) (xs : List (ℕ × ℕ × V))
      → lo ≤ i
      → FirstFrom i xs
      → FirstFrom lo (with_first i row ++ xs)
  unfolding with_first
  FirstFrom-with_first lo i [] xs h s = FirstFrom-mono lo i xs h s
  FirstFrom-with_first lo i ((j, v) ∷ row) xs h s =
      (h, FirstFrom-with_first i i row xs (omega arith) s)

  pub entries-FirstFrom : (lo : ℕ) (m : PairMap V) → SortedFrom lo m → FirstFrom lo (entries m)
  unfolding entries
  entries-FirstFrom lo [] s = tt
  entries-FirstFrom lo ((i, row) ∷ m) s =
      FirstFrom-with_first lo i row (entries m) s.0
        (FirstFrom-mono i (suc i) (entries m) (omega arith) (entries-FirstFrom (suc i) m s.1))

  le_of_first :
      (lo : ℕ) (x : ℕ × ℕ × V) (xs : List (ℕ × ℕ × V)) → FirstFrom lo xs → Memᴰ x xs → lo ≤ x.0
  le_of_first lo x [] s h = absurd (Memᴰ.not-nil h)
  le_of_first lo x (y ∷ ys) s h = elim (Memᴰ.cases_cons h) [
    | inl e ↦ rw e s.0
    | inr later ↦ omega (arith, s.0, le_of_first y.0 x ys s.1 later)
  ]

  bound_le :
      (y x : ℕ × ℕ × V) (ys : List (ℕ × ℕ × V)) → FirstFrom y.0 ys → Memᴰ x (y ∷ ys) → y.0 ≤ x.0
  bound_le y x ys s h = le_of_first y.0 x (y ∷ ys) (omega arith, s) h

  -- The entries up to the first that is not below the bound.
  unfoldable pub take_below : ℕ → List (ℕ × ℕ × V) → List (ℕ × ℕ × V)
  take_below bound [] = []
  take_below bound (x ∷ xs) =
      let rest = take_below bound xs in if ltb x.0 bound then x ∷ rest else []

  pub mem-take_below :
      (bound lo : ℕ) (x : ℕ × ℕ × V) (xs : List (ℕ × ℕ × V))
      → FirstFrom lo xs
      → Memᴰ x (take_below bound xs) ↔ (Memᴰ x xs × (x.0 < bound))
  unfolding take_below
  mem-take_below bound lo x [] s = (λ h. absurd (Memᴰ.not-nil h), λ h. absurd (Memᴰ.not-nil h.0))
  mem-take_below bound lo x (y ∷ ys) s =
      let later = mem-take_below bound y.0 x ys s.1 in
      elim (Bool-cases (ltb y.0 bound)) [
        | inl e ↦ rw e (
          λ h. elim (Memᴰ.cases_cons h) [
            | inl same ↦ (Memᴰ.head same, rw same (ground arith))
            | inr at ↦ (Memᴰ.tail (later.0 at).0, (later.0 at).1)
          ],
          λ h. elim (Memᴰ.cases_cons h.0) [
            | inl same ↦ Memᴰ.head same
            | inr at ↦ Memᴰ.tail (later.1 (at, h.1))
          ],
        )
        | inr e ↦
            rw e
              (λ h. absurd (Memᴰ.not-nil h), λ h. absurd (ground (arith, bound_le y x ys s.1 h.0)))
      ]
