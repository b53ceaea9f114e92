-- ===== src/Consensus/Order/Ends.antt =====
-- The walk ends with an empty stack.
use mathlib.Core.List.Memᴰ
use telcoin_network.Base.{
  ℕ, zero, suc, ◌+◌, ◌≤◌, ◌≡◌, inl, inr, ◌==◌, if◌then◌else◌, false, some, Option-cases, Bool-cases,
  List, [], ◌∷◌, contains, length, add_u32, sub_u32, arith, Memᴰ, mem-cons, List-cases, ap,
}
use telcoin_network.Base.Map.{Map, lookup, values, mem_of_lookup}
use telcoin_network.Types.Certificate.{Certificate, round, parents}
use telcoin_network.Consensus.State.{Dag, ConsensusState}
use telcoin_network.Consensus.Order.{
  find_digest, parent_entry, Walk, offer, offer_all, visit, pop_into, walk, dag_entries, start_walk,
  walked,
}

abbrev pub Entry : Type 0
Entry = ℕ × Certificate

pub find_digest-mem :
    (p d : ℕ) (c : Certificate) (xs : List Entry)
    → find_digest p xs ≡ some (d, c)
    → (d ≡ p) × Memᴰ (d, c) xs
unfolding find_digest
find_digest-mem p d c [] h = cc
find_digest-mem p d c ((e, x) ∷ xs) h =
    ground (arith, find_digest-mem p d c xs, mem-cons {A = Entry} (d, c) (e, x) xs)

mem-dag_entries :
    (x : Entry) (r : ℕ) (m : Map Entry) (d : Dag)
    → Memᴰ (r, m) d
    → Memᴰ x (values m)
    → Memᴰ x (dag_entries d)
unfolding dag_entries
mem-dag_entries x r m [] at h = absurd (Memᴰ.not-nil at)
mem-dag_entries x r m ((q, t) ∷ d) at h = elim (Memᴰ.cases_cons at) [
  | inl e ↦ Memᴰ.append_left {s = values t} _ (ground arith)
  | inr later ↦ Memᴰ.append_right (values t) (mem-dag_entries x r m d later h)
]

-- The found entry of a parent has the parent's digest, and is one of the DAG.
pub parent_entry-mem :
    (dag : Dag) (x : Certificate) (p d : ℕ) (c : Certificate)
    → parent_entry dag x p ≡ some (d, c)
    → (d ≡ p) × Memᴰ (d, c) (dag_entries dag)
unfolding parent_entry
parent_entry-mem dag x p d c h = elim (Option-cases (lookup (sub_u32 (round x) 1) dag)) [
  | inl e ↦ ground arith
  | inr (m, e) ↦
      let (same, at) = find_digest-mem p d c (values m) (rw (e, parent_entry) at h) in
      (same, mem-dag_entries (d, c) (sub_u32 (round x) 1) m dag (mem_of_lookup _ dag e) at)
]

-- The entries whose digest is not yet marked.
unseen : List ℕ → List Entry → ℕ
unseen already [] = 0
unseen already ((d, c) ∷ rest) = (if contains already d then 0 else 1) + unseen already rest

unseen-le-length : (already : List ℕ) (xs : List Entry) → unseen already xs ≤ length xs
unfolding unseen
unseen-le-length already [] = omega arith
unseen-le-length already ((d, c) ∷ xs) = ground (arith, unseen-le-length already xs)

unseen_mono :
    (d : ℕ) (already : List ℕ) (xs : List Entry) → unseen (d ∷ already) xs ≤ unseen already xs
unfolding unseen
unseen_mono d already [] = omega arith
unseen_mono d already ((e, c) ∷ xs) = ground (arith, unseen_mono d already xs)

-- Marking a digest of an entry that was not marked leaves fewer.
unseen-mark :
    (d : ℕ) (c : Certificate) (already : List ℕ) (xs : List Entry)
    → Memᴰ (d, c) xs
    → contains already d ≡ false
    → suc (unseen (d ∷ already) xs) ≤ unseen already xs
unfolding unseen
unseen-mark d c already [] at h = absurd (Memᴰ.not-nil at)
unseen-mark d c already ((e, x) ∷ xs) at h = ground (
  arith,
  unseen-mark d c already xs,
  unseen_mono d already xs,
  mem-cons {A = Entry} (d, c) (e, x) xs,
)

-- What the walk has still to do.
abbrev work : ConsensusState → Walk → ℕ
work s w = unseen w.already_ordered (dag_entries s.dag) + length w.buffer

work-offer :
    (s : ConsensusState) (x : Certificate) (w : Walk) (p : ℕ) → work s (offer s x w p) ≤ work s w
unfolding offer
work-offer s x w p = elim (Option-cases (parent_entry s.dag x p)) [
  | inl e ↦ rw (e, offer) (omega arith)
  | inr ((d, c), e) ↦ ground (
    arith,
    unseen-mark d c w.already_ordered (dag_entries s.dag) (parent_entry-mem s.dag x p d c e).1,
  )
]

work-offer_all :
    (s : ConsensusState) (x : Certificate) (w : Walk) (ps : List ℕ)
    → work s (offer_all s x w ps) ≤ work s w
unfolding offer_all
work-offer_all s x w [] = omega arith
work-offer_all s x w (p ∷ ps) =
    omega (arith, work-offer_all s x (offer s x w p) ps, work-offer s x w p)

work-visit :
    (s : ConsensusState) (gc : ℕ) (w : Walk) (x : Certificate) (rest : List Certificate)
    → w.buffer ≡ x ∷ rest
    → suc (work s (visit s gc w x rest)) ≤ work s w
unfolding visit
work-visit s gc w x rest e = elim (Bool-cases (round x == add_u32 gc 1)) [
  | inl t ↦ rw (t, visit) (omega (arith, ap length e))
  | inr t ↦
      rw (t, visit) (omega (arith, ap length e, work-offer_all s x (pop_into w x rest) (parents x)))
]

walk-ends :
    (s : ConsensusState) (gc fuel : ℕ) (w : Walk) → work s w ≤ fuel → (walk s gc fuel w).buffer ≡ []
unfolding walk
walk-ends s gc zero w h = elim (List-cases w.buffer) [
  | inl e ↦ e
  | inr (x, rest, e) ↦ absurd (omega (arith, ap length e))
]
walk-ends s gc (suc fuel) w h = elim (List-cases w.buffer) [
  | inl e ↦ rw (e, walk) e
  | inr (x, rest, e) ↦
      rw (e, walk)
        (walk-ends s gc fuel (visit s gc w x rest) (omega (arith, work-visit s gc w x rest e)))
]

-- The stack of `order_dag` is empty in the end: the fuel suffices, whatever the DAG.
pub walked_ends : (leader : Certificate) (s : ConsensusState) → (walked leader s).buffer ≡ []
unfolding walked start_walk
walked_ends leader s = walk-ends s _ _ _ (omega (arith, unseen-le-length [] (dag_entries s.dag)))
