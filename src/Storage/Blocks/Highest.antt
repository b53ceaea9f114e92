-- ===== src/Storage/Blocks/Highest.antt =====
-- The largest committed round that is read back: crates/storage/src/stores/consensus_store.rs.
use mathlib.Core.List.{reverse, reverse-append, reverse-cons}
use telcoin_network.Base.{
  ℕ, zero, suc, take, ◌≤◌, ◌<◌, ◌≡◌, refl, sym, subst, ap, ◌∙◌, some, List, [], ◌∷◌, ◌++◌, All,
  arith,
}
use telcoin_network.Base.Map.{Map, insert, values}
use telcoin_network.Types.Certificate.{Certificate, round, origin}
use telcoin_network.Types.SubDag.{CommittedSubDag, leader_round}
use telcoin_network.Consensus.State.{raise_committed, highest_committed}
use telcoin_network.Consensus.State.Rounds.{highest-raise}
use telcoin_network.Storage.Blocks.{
  ConsensusBlocks, raise_all, raise_blocks, read_last_committed, get_latest_sub_dag, save_consensus,
}

-- The leader and the certificates of a sub dag are of rounds up to a bound.
abbrev pub Within : ℕ → CommittedSubDag → Type 0
Within n d = (leader_round d ≤ n) × All (λ c. round c ≤ n) d.certificates

highest-raise_all :
    (n : ℕ) (cs : List Certificate) (m : Map ℕ)
    → All (λ c. round c ≤ n) cs
    → highest_committed m ≤ n
    → (highest_committed m ≤ highest_committed (raise_all cs m))
      × (highest_committed (raise_all cs m) ≤ n)
unfolding raise_all
highest-raise_all n [] m h le = (omega arith, le)
highest-raise_all n (c ∷ cs) m h le =
    let top = highest-raise (origin c) (round c) m in
    let (low, high) =
      highest-raise_all n cs (raise_committed (origin c) (round c) m) h.1
        (omega (arith, top, h.0, le)) in
    (omega (arith, top, low), high)

highest-raise_blocks :
    (n : ℕ) (dags : List CommittedSubDag) (m : Map ℕ)
    → All (Within n) dags
    → highest_committed m ≤ n
    → (highest_committed m ≤ highest_committed (raise_blocks dags m))
      × (highest_committed (raise_blocks dags m) ≤ n)
unfolding raise_blocks
highest-raise_blocks n [] m h le = (omega arith, le)
highest-raise_blocks n (d ∷ dags) m h le =
    let m1 = raise_committed (origin d.leader) (leader_round d) m in
    let top = highest-raise (origin d.leader) (leader_round d) m in
    let (low1, high1) =
      highest-raise_all n d.certificates m1 h.0.1 (omega (arith, top, h.0.0, le)) in
    let (low, high) = highest-raise_blocks n dags (raise_all d.certificates m1) h.1 high1 in
    (omega (arith, top, low1, low), high)

All-snoc {ℓ κ} :
    {A : Type ℓ} (P : A → Type κ) (xs : List A) (x : A) → All P xs → P x → All P (xs ++ (x ∷ []))
All-snoc P [] x h p = (p, tt)
All-snoc P (y ∷ ys) x h p = (h.0, All-snoc P ys x h.1 p)

All-reverse {ℓ κ} : {A : Type ℓ} (P : A → Type κ) (xs : List A) → All P xs → All P (reverse xs)
All-reverse P [] h = tt
All-reverse P (x ∷ xs) h =
    subst (All P) (sym (reverse-cons x xs)) (All-snoc P (reverse xs) x (All-reverse P xs h.1) h.0)

All-take {ℓ κ} : {A : Type ℓ} (P : A → Type κ) (xs : List A) (n : ℕ) → All P xs → All P (take xs n)
All-take P xs zero h = tt
All-take P [] (suc n) h = tt
All-take P (x ∷ xs) (suc n) h = (h.0, All-take P xs n h.1)

-- A block with a number above all others is the last one.
save_consensus-last :
    (number : ℕ) (d : CommittedSubDag) (blocks : ConsensusBlocks)
    → All (λ (x : ℕ × CommittedSubDag). x.0 < number) blocks
    → (values (save_consensus number d blocks) ≡ values blocks ++ (d ∷ []))
      × (get_latest_sub_dag (save_consensus number d blocks) ≡ some d)
unfolding save_consensus insert values get_latest_sub_dag
save_consensus-last number d [] h = (refl, refl)
save_consensus-last number d ((n, e) ∷ rest) h =
    let (all, last) = save_consensus-last number d rest h.1 in
    (ground (arith, h.0, all), ground (arith, h.0, last))

pub values-save_consensus :
    (P : CommittedSubDag → Type 0) (number : ℕ) (d : CommittedSubDag) (blocks : ConsensusBlocks)
    → All (λ (x : ℕ × CommittedSubDag). x.0 < number) blocks
    → All P (values blocks)
    → P d
    → All P (values (save_consensus number d blocks))
values-save_consensus P number d blocks h all p =
    subst (All P) (sym (save_consensus-last number d blocks h).0)
      (All-snoc P (values blocks) d all p)

pub get_latest-save_consensus :
    (number : ℕ) (d : CommittedSubDag) (blocks : ConsensusBlocks)
    → All (λ (x : ℕ × CommittedSubDag). x.0 < number) blocks
    → get_latest_sub_dag (save_consensus number d blocks) ≡ some d
get_latest-save_consensus number d blocks h = (save_consensus-last number d blocks h).1

-- If the sub dag of the last block has its leader at the bound of all blocks, that bound is the
-- largest round that is read back.
pub highest-read_last_committed :
    (number n : ℕ) (d : CommittedSubDag) (blocks : ConsensusBlocks)
    → All (λ (x : ℕ × CommittedSubDag). x.0 < number) blocks
    → All (Within n) (values blocks)
    → Within n d
    → leader_round d ≡ n
    → highest_committed (read_last_committed (save_consensus number d blocks)) ≡ n
unfolding read_last_committed raise_blocks highest_committed
highest-read_last_committed number n d blocks above all own top =
    let order : reverse (values (save_consensus number d blocks)) ≡ d ∷ reverse (values blocks) =
      ap reverse (save_consensus-last number d blocks above).0
      ∙ reverse-append (values blocks) (d ∷ []) in
    let rest = take (reverse (values blocks)) 49 in
    let m1 = raise_committed (origin d.leader) (leader_round d) [] in
    let first = highest-raise (origin d.leader) (leader_round d) [] in
    let (low1, high1) = highest-raise_all n d.certificates m1 own.1 (omega (arith, first, top)) in
    let (low, high) =
      highest-raise_blocks n rest (raise_all d.certificates m1)
        (All-take (Within n) (reverse (values blocks)) 49
          (All-reverse (Within n) (values blocks) all))
        high1 in
    subst (λ ds. highest_committed (raise_blocks (take ds 50) []) ≡ n) (sym order)
      (omega (arith, first, top, low1, low, high))
