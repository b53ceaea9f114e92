-- ===== src/Consensus/State/Rounds.antt =====
-- The committed and collected rounds of the state: crates/consensus/primary/src/consensus/state.rs.
use telcoin_network.Base.{
  ℕ, max, ◌-◌, ◌≤◌, ◌<◌, ◌≡◌, ◌≢◌, refl, ltb, none, [], ◌∷◌, arith, if◌then◌else◌, ◌==◌,
}
use telcoin_network.Base.Map.{Map, lookup, insert, lookup_or, lookup-insert, lookup-retain}
use telcoin_network.Types.Certificate.{Certificate, round, origin}
use telcoin_network.Consensus.State.{
  ConsensusState, gc_round_of, update_round, new_state, raise_committed, update, highest_committed,
}

-- The rounds of the state belong to one another: the garbage collection round lies `gc_depth` below
-- the committed round, which is the largest round in `last_committed`, and the DAG holds no round at
-- or below the garbage collection round.
pub record HasRounds (s : ConsensusState) : Type 0 where
  pub gc : s.last_round.gc_round ≡ s.last_round.committed_round - s.gc_depth
  pub committed : s.last_round.committed_round ≡ highest_committed s.last_committed
  pub live : (r : ℕ) → lookup r s.dag ≢ none → s.last_round.gc_round < r

pub new_state-HasRounds : (depth : ℕ) → HasRounds (new_state depth)
unfolding new_state highest_committed lookup
new_state-HasRounds depth = record {
  gc = omega arith;
  committed = refl;
  live = λ r h. absurd (h refl);
}

highest-insert :
    (k v : ℕ) (m : Map ℕ)
    → lookup_or k 0 m ≤ v
    → highest_committed (insert k v m) ≡ max v (highest_committed m)
unfolding highest_committed insert lookup
highest-insert k v [] h = refl
highest-insert k v ((j, w) ∷ m) h = ground (arith, highest-insert k v m)

pub lookup_or-le-highest : (k : ℕ) (m : Map ℕ) → lookup_or k 0 m ≤ highest_committed m
unfolding lookup highest_committed
lookup_or-le-highest k [] = omega arith
lookup_or-le-highest k ((j, w) ∷ m) = ground (arith, lookup_or-le-highest k m)

pub highest-raise :
    (k r : ℕ) (m : Map ℕ) → highest_committed (raise_committed k r m) ≡ max r (highest_committed m)
unfolding raise_committed
highest-raise k r m = ground (
  arith,
  lookup_or-le-highest k m,
  highest-insert k r m,
  highest-insert k (max (lookup_or k 0 m) r) m,
)

pub lookup_or-raise :
    (k r j : ℕ) (m : Map ℕ)
    → lookup_or j 0 (raise_committed k r m)
      ≡ (if k == j then max (lookup_or k 0 m) r else lookup_or j 0 m)
unfolding raise_committed
lookup_or-raise k r j m =
    ground (arith, lookup-insert k j r m, lookup-insert k j (max (lookup_or k 0 m) r) m)

pub update-HasRounds : (s : ConsensusState) (c : Certificate) → HasRounds s → HasRounds (update s c)
unfolding update update_round gc_round_of
update-HasRounds s c h = record {
  gc = omega arith;
  committed = omega (arith, h.committed, highest-raise (origin c) (round c) s.last_committed);
  live = λ r. ground (
    arith,
    lookup-retain (λ q. ltb (update_round s.last_round (round c) s.gc_depth).gc_round q) r s.dag,
  );
}

-- A committed certificate is within the committed round and the round of its author, and neither the
-- committed round nor that of any author falls.
pub update_grows :
    (s : ConsensusState) (c : Certificate)
    → (round c ≤ (update s c).last_round.committed_round)
      × (s.last_round.committed_round ≤ (update s c).last_round.committed_round)
      × ((a : ℕ) → lookup_or a 0 s.last_committed ≤ lookup_or a 0 (update s c).last_committed)
      × (round c ≤ lookup_or (origin c) 0 (update s c).last_committed)
unfolding update update_round
update_grows s c = (
  omega arith,
  omega arith,
  λ a. ground (arith, lookup_or-raise (origin c) (round c) a s.last_committed),
  ground (arith, lookup_or-raise (origin c) (round c) (origin c) s.last_committed),
)
