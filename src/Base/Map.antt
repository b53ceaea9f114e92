-- ===== src/Base/Map.antt =====
-- `BTreeMap`, and `HashMap`, whose order of iteration is not specified: association lists with
-- increasing keys. Keys are natural numbers.
use Prim.Native.Nat.{ℕ, suc, ◌≤◌}
use mathlib.Core.Path.{◌≡◌, refl, ap}
use mathlib.Core.Logic.{inl, inr}
use mathlib.Core.Bool.{Bool, true, false}
use mathlib.Core.Option.{Option, none, some}
use mathlib.Core.List.{List, [], ◌∷◌, Memᴰ}
use mathlib.Core.List.Memᴰ
use native.Mathlib.Omega.{arith}
use telcoin_network.Base.Tests.{◌==◌, ltb, if◌then◌else◌}
use telcoin_network.Base.Lists.{mem-cons}

abbrev pub Map {ℓ} : Type ℓ → Type ℓ
Map V = List (ℕ × V)

module _ {ℓ} {V : Type ℓ} where
  -- `map.get(&k)`
  unfoldable pub lookup : ℕ → Map V → Option V
  lookup k [] = none
  lookup k ((j, v) ∷ m) = if j == k then some v else lookup k m

  -- `map.insert(k, v)`
  unfoldable pub insert : ℕ → V → Map V → Map V
  insert k v [] = (k, v) ∷ []
  insert k v ((j, w) ∷ m) =
      let rest = insert k v m in
      if j == k then (k, v) ∷ m else if ltb k j then (k, v) ∷ (j, w) ∷ m else (j, w) ∷ rest

  -- `map.remove(&k)`
  unfoldable pub remove : ℕ → Map V → Map V
  remove k [] = []
  remove k ((j, v) ∷ m) = let rest = remove k m in if j == k then rest else (j, v) ∷ rest

  -- `*map.get_mut(&k) = v`, where the key is there
  unfoldable pub replace : ℕ → V → Map V → Map V
  replace k v [] = []
  replace k v ((j, w) ∷ m) =
      let rest = replace k v m in if j == k then (j, v) ∷ m else (j, w) ∷ rest

  -- `map.retain(|k, _| test(k))`
  unfoldable pub retain : (ℕ → Bool) → Map V → Map V
  retain test [] = []
  retain test ((j, v) ∷ m) = let rest = retain test m in if test j then (j, v) ∷ rest else rest

  -- `map.values()`
  unfoldable pub values : Map V → List V
  values [] = []
  values ((j, v) ∷ m) = v ∷ values m

  -- `map.contains_key(&k)`
  abbrev pub contains_key : ℕ → Map V → Bool
  contains_key k m = elim (lookup k m) [ none ↦ false | some v ↦ true ]

  -- `map.get(&k).unwrap_or(d)`
  abbrev pub lookup_or : ℕ → V → Map V → V
  lookup_or k d m = elim (lookup k m) [ none ↦ d | some v ↦ v ]

  pub lookup-insert :
      (key other : ℕ) (x : V) (table : Map V)
      → lookup other (insert key x table) ≡ (if key == other then some x else lookup other table)
  unfolding lookup insert
  lookup-insert key other x [] = refl
  lookup-insert key other x ((i, w) ∷ table) = ground (arith, lookup-insert key other x table)

  pub lookup-remove :
      (k j : ℕ) (m : Map V) → lookup j (remove k m) ≡ (if k == j then none else lookup j m)
  unfolding lookup remove
  lookup-remove k j [] = ground arith
  lookup-remove k j ((i, w) ∷ m) = ground (arith, lookup-remove k j m)

  pub lookup-replace :
      (k j : ℕ) (old v : V) (m : Map V)
      → lookup k m ≡ some old
      → lookup j (replace k v m) ≡ (if k == j then some v else lookup j m)
  unfolding lookup replace
  lookup-replace k j old v [] h = cc
  lookup-replace k j old v ((i, w) ∷ m) h = ground (arith, lookup-replace k j old v m)

  pub lookup-retain :
      (test : ℕ → Bool) (j : ℕ) (m : Map V)
      → lookup j (retain test m) ≡ (if test j then lookup j m else none)
  unfolding lookup retain
  lookup-retain test j [] = ground arith
  lookup-retain test j ((i, w) ∷ m) = ground (arith, lookup-retain test j m)

  pub mem_of_lookup : (k : ℕ) {v : V} (m : Map V) → lookup k m ≡ some v → Memᴰ (k, v) m
  unfolding lookup
  mem_of_lookup k [] e = cc
  mem_of_lookup k {v} ((j, w) ∷ m) e =
      ground (arith, mem_of_lookup k {v = v} m, mem-cons (k, v) (j, w) m)

  pub mem-values : (k : ℕ) {v : V} (m : Map V) → Memᴰ (k, v) m → Memᴰ v (values m)
  unfolding values
  mem-values k {v} ((j, w) ∷ m) h =
      ground (arith, mem-values k {v = v} m, mem-cons (k, v) (j, w) m, mem-cons v w (values m))
  mem-values k [] h = absurd (Memᴰ.not-nil h)

  pub of_mem-values : (v : V) (m : Map V) → Memᴰ v (values m) → (k : ℕ) × Memᴰ (k, v) m
  unfolding values
  of_mem-values v [] h = absurd (Memᴰ.not-nil h)
  of_mem-values v ((j, w) ∷ m) h = elim (Memᴰ.cases_cons h) [
    | inl e ↦ (j, Memᴰ.head (ap (λ x. (j, x)) e))
    | inr t ↦ let (k, r) = of_mem-values v m t in (k, Memᴰ.tail r)
  ]

-- Keys increase, from the bound on.
abbrev pub SortedFrom {ℓ} : {V : Type ℓ} → ℕ → Map V → Type 0
SortedFrom lo [] = Unit
SortedFrom lo ((k, v) ∷ m) = (lo ≤ k) × SortedFrom (suc k) m

abbrev pub IsSorted {ℓ} : {V : Type ℓ} → Map V → Type 0
IsSorted m = SortedFrom 0 m

module _ {ℓ} {V : Type ℓ} where
  SortedFrom-mono : (lo hi : ℕ) (m : Map V) → lo ≤ hi → SortedFrom hi m → SortedFrom lo m
  SortedFrom-mono lo hi [] h s = tt
  SortedFrom-mono lo hi ((k, v) ∷ m) h s = (omega arith, s.1)

  insert-SortedFrom :
      (lo k : ℕ) (v : V) (m : Map V) → lo ≤ k → SortedFrom lo m → SortedFrom lo (insert k v m)
  unfolding insert
  insert-SortedFrom lo k v [] h s = (h, tt)
  insert-SortedFrom lo k v ((j, w) ∷ m) h s =
      ground (arith, insert-SortedFrom (suc j) k v m, SortedFrom-mono (suc k) (suc j) m)

  pub insert-IsSorted : (k : ℕ) (v : V) (m : Map V) → IsSorted m → IsSorted (insert k v m)
  insert-IsSorted k v m s = insert-SortedFrom 0 k v m (omega arith) s

  retain-SortedFrom :
      (test : ℕ → Bool) (lo : ℕ) (m : Map V) → SortedFrom lo m → SortedFrom lo (retain test m)
  unfolding retain
  retain-SortedFrom test lo [] s = tt
  retain-SortedFrom test lo ((j, w) ∷ m) s =
      ground (arith, retain-SortedFrom test (suc j) m, SortedFrom-mono lo (suc j) (retain test m))

  remove-SortedFrom : (k lo : ℕ) (m : Map V) → SortedFrom lo m → SortedFrom lo (remove k m)
  unfolding remove
  remove-SortedFrom k lo [] s = tt
  remove-SortedFrom k lo ((j, w) ∷ m) s =
      ground (arith, remove-SortedFrom k (suc j) m, SortedFrom-mono lo (suc j) (remove k m))

  pub remove-IsSorted : (k : ℕ) (m : Map V) → IsSorted m → IsSorted (remove k m)
  remove-IsSorted k m s = remove-SortedFrom k 0 m s

  pub retain-IsSorted : (test : ℕ → Bool) (m : Map V) → IsSorted m → IsSorted (retain test m)
  retain-IsSorted test m s = retain-SortedFrom test 0 m s

  le_of_mem : (lo k : ℕ) (v : V) (m : Map V) → SortedFrom lo m → Memᴰ (k, v) m → lo ≤ k
  le_of_mem lo k v [] s h = absurd (Memᴰ.not-nil h)
  le_of_mem lo k v ((j, w) ∷ m) s h =
      ground (arith, mem-cons (k, v) (j, w) m, le_of_mem (suc j) k v m s.1)

  lookup_of_mem_from :
      (lo k : ℕ) (v : V) (m : Map V) → SortedFrom lo m → Memᴰ (k, v) m → lookup k m ≡ some v
  unfolding lookup
  lookup_of_mem_from lo k v [] s h = absurd (Memᴰ.not-nil h)
  lookup_of_mem_from lo k v ((j, w) ∷ m) s h = ground (
    arith,
    mem-cons (k, v) (j, w) m,
    le_of_mem (suc j) k v m s.1,
    lookup_of_mem_from (suc j) k v m s.1,
  )

  pub lookup_of_mem : (k : ℕ) (v : V) (m : Map V) → IsSorted m → Memᴰ (k, v) m → lookup k m ≡ some v
  lookup_of_mem k v m s h = lookup_of_mem_from 0 k v m s h

pub ruleset map_laws = (lookup-insert, lookup-remove, lookup-retain)
