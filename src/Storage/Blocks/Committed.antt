-- ===== src/Storage/Blocks/Committed.antt =====
-- The committed rounds read back: crates/storage/src/stores/consensus_store.rs.
use mathlib.Core.List.{reverse, append_assoc, append-nil}
use mathlib.Core.List.Memᴰ
use telcoin_network.Base.{
  ℕ, take, ◌≤◌, ◌≡◌, ◌⊎◌, inl, inr, refl, ap, subst, Option, none, some, Option-cases, Bool-cases,
  List, [], ◌∷◌, ◌++◌, Memᴰ, mem-append, arith, max, if◌then◌else◌, ◌==◌, ==_iff, false, leb,
}
use telcoin_network.Base.Map.{Map, lookup, values, lookup-insert}
use telcoin_network.Types.Certificate.{Certificate, round, origin}
use telcoin_network.Types.SubDag.{CommittedSubDag, leader_round}
use telcoin_network.Consensus.State.{raise_committed}
use telcoin_network.Storage.Blocks.{ConsensusBlocks, raise_all, raise_blocks, read_last_committed}

-- The largest round of the certificates of the author.
abbrev pub IsLargest : List Certificate → ℕ → Option ℕ → Type 0
IsLargest cs a none = (c : Certificate) → Memᴰ c cs → (origin c == a) ≡ false
IsLargest cs a (some r) =
    ((c : Certificate) × Memᴰ c cs × (origin c ≡ a) × (round c ≡ r))
    × ((c : Certificate) → Memᴰ c cs → origin c ≡ a → round c ≤ r)

lookup-raise :
    (k r a : ℕ) (m : Map ℕ)
    → lookup a (raise_committed k r m) ≡ (
        if k == a
        then (elim (lookup a m) [ none ↦ some r | some old ↦ some (max old r) ])
        else lookup a m)
unfolding raise_committed
lookup-raise k r a m = elim (Option-cases (lookup k m)) [
  | inl e ↦ ground (arith, e, lookup-insert k a r m)
  | inr (old, e) ↦ ground (arith, e, lookup-insert k a (max old r) m)
]

one_of : (cs : List Certificate) (x c : Certificate) → Memᴰ c (cs ++ (x ∷ [])) → Memᴰ c cs ⊎ (c ≡ x)
one_of cs x c m = elim ((mem-append c cs (x ∷ [])).0 m) [
  | inl old ↦ inl old
  | inr new ↦ inr (Memᴰ.eq_of_singleton new)
]

raised : ℕ → Option ℕ → Option ℕ
raised r o = elim o [ none ↦ some r | some old ↦ some (max old r) ]

larger_own :
    (cs : List Certificate) (x : Certificate) (a : ℕ) (o : Option ℕ)
    → origin x ≡ a
    → IsLargest cs a o
    → IsLargest (cs ++ (x ∷ [])) a (raised (round x) o)
unfolding raised
larger_own cs x a none own h = (
  (x, (mem-append x cs (x ∷ [])).1 (inr (Memᴰ.head refl)), own, refl),
  λ c m e. elim (one_of cs x c m) [
    | inl old ↦ absurd (ground (arith, h c old, e))
    | inr same ↦ rw same (omega arith)
  ],
)
larger_own cs x a (some r) own h =
    let (c0, m0, e0, r0) = h.0 in
    let below : (c : Certificate)
        → Memᴰ c (cs ++ (x ∷ []))
        → origin c ≡ a
        → round c ≤ max r (round x) =
      λ c m e. elim (one_of cs x c m) [
        | inl old ↦ omega (arith, h.1 c old e)
        | inr same ↦ rw same (omega arith)
      ] in
    elim (Bool-cases (leb (round x) r)) [
      | inl le ↦ ((c0, (mem-append c0 cs (x ∷ [])).1 (inl m0), e0, ground (arith, r0, le)), below)
      | inr gt ↦
          ((x, (mem-append x cs (x ∷ [])).1 (inr (Memᴰ.head refl)), own, ground (arith, gt)), below)
    ]

larger_other :
    (cs : List Certificate) (x : Certificate) (a : ℕ) (o : Option ℕ)
    → (origin x == a) ≡ false
    → IsLargest cs a o
    → IsLargest (cs ++ (x ∷ [])) a o
larger_other cs x a none other h =
    λ c m. elim (one_of cs x c m) [ inl old ↦ h c old | inr same ↦ rw same other ]
larger_other cs x a (some r) other h =
    let (c0, m0, e0, r0) = h.0 in
    (
      (c0, (mem-append c0 cs (x ∷ [])).1 (inl m0), e0, r0),
      λ c m e. elim (one_of cs x c m) [
        | inl old ↦ h.1 c old e
        | inr same ↦ absurd (ground (arith, other, ap origin same, e))
      ],
    )

raise-IsLargest :
    (cs : List Certificate) (x : Certificate) (a : ℕ) (m : Map ℕ)
    → IsLargest cs a (lookup a m)
    → IsLargest (cs ++ (x ∷ [])) a (lookup a (raise_committed (origin x) (round x) m))
unfolding raised
raise-IsLargest cs x a m h = elim (Bool-cases (origin x == a)) [
  | inl own ↦
      rw (lookup-raise (origin x) (round x) a m, own)
        (larger_own cs x a (lookup a m) ((==_iff (origin x) a).0 own) h)
  | inr other ↦
      rw (lookup-raise (origin x) (round x) a m, other) (larger_other cs x a (lookup a m) other h)
]

raise_all-IsLargest :
    (cs xs : List Certificate) (a : ℕ) (m : Map ℕ)
    → IsLargest cs a (lookup a m)
    → IsLargest (cs ++ xs) a (lookup a (raise_all xs m))
unfolding raise_all
raise_all-IsLargest cs [] a m h = rw (append-nil cs) h
raise_all-IsLargest cs (x ∷ xs) a m h =
    subst (λ k. IsLargest k a (lookup a (raise_all (x ∷ xs) m))) (append_assoc cs (x ∷ []) xs)
      (raise_all-IsLargest (cs ++ (x ∷ [])) xs a (raise_committed (origin x) (round x) m)
        (raise-IsLargest cs x a m h))

-- The leaders and the certificates of the sub dags.
abbrev pub committed_in : List CommittedSubDag → List Certificate
committed_in [] = []
committed_in (dag ∷ rest) = (dag.leader ∷ dag.certificates) ++ committed_in rest

raise_blocks-IsLargest :
    (dags : List CommittedSubDag) (cs : List Certificate) (a : ℕ) (m : Map ℕ)
    → IsLargest cs a (lookup a m)
    → IsLargest (cs ++ committed_in dags) a (lookup a (raise_blocks dags m))
unfolding raise_blocks raise_all leader_round
raise_blocks-IsLargest [] cs a m h = rw (append-nil cs) h
raise_blocks-IsLargest (dag ∷ rest) cs a m h =
    subst (λ k. IsLargest k a (lookup a (raise_blocks (dag ∷ rest) m)))
      (append_assoc cs (dag.leader ∷ dag.certificates) (committed_in rest))
      (raise_blocks-IsLargest rest (cs ++ (dag.leader ∷ dag.certificates)) a
        (raise_all dag.certificates (raise_committed (origin dag.leader) (leader_round dag) m))
        (raise_all-IsLargest cs (dag.leader ∷ dag.certificates) a m h))

-- For every author, the last committed round that a restart reads is the largest round of the
-- author's certificates and leaders in the last 50 blocks; an author without one there is not in the
-- map.
pub read_last_committed-IsLargest :
    (blocks : ConsensusBlocks) (a : ℕ)
    → IsLargest
        (committed_in (take (reverse (values blocks)) 50))
        a
        (lookup a (read_last_committed blocks))
unfolding read_last_committed lookup
read_last_committed-IsLargest blocks a =
    raise_blocks-IsLargest (take (reverse (values blocks)) 50) [] a []
      (λ c m. absurd (Memᴰ.not-nil m))
