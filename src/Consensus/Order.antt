-- ===== src/Consensus/Order.antt =====
-- `order_dag` of crates/consensus/primary/src/consensus/utils.rs: the certificates that the commit of
-- a leader brings with it. The loop over the stack of certificates runs on fuel, one unit for the
-- leader and one for each certificate of the DAG; `Order/Ends` shows that this empties the stack.
pub mod Ends
pub mod Sound
pub mod Complete
use telcoin_network.Base.{
  ℕ, zero, suc, ◌+◌, ◌||◌, ◌==◌, leb, if◌then◌else◌, Bool, true, false, Option, none, some, List,
  [], ◌∷◌, ◌++◌, contains, length, add_u32, sub_u32, saturating_sub,
}
use telcoin_network.Base.Map.{Map, lookup, values}
use telcoin_network.Types.Crypto.{Crypto}
use telcoin_network.Types.Certificate.{Certificate, round, origin, parents}
use telcoin_network.Consensus.State.{Dag, ConsensusState}

-- `values().find(|(x, _)| x == parent)`
unfoldable pub find_digest : ℕ → List (ℕ × Certificate) → Option (ℕ × Certificate)
find_digest p [] = none
find_digest p ((d, c) ∷ rest) =
    let later = find_digest p rest in if d == p then some (d, c) else later

-- The entry of a parent in the round below a certificate.
unfoldable pub parent_entry : Dag → Certificate → ℕ → Option (ℕ × Certificate)
parent_entry dag x p = elim (lookup (sub_u32 (round x) 1) dag) [
  | none ↦ none
  | some round_table ↦ find_digest p (values round_table)
]

-- A round that was committed for the origin, or that never will be.
unfoldable pub is_committed : Map ℕ → Certificate → Bool
is_committed last_committed c = elim (lookup (origin c) last_committed) [
  | none ↦ false
  | some r ↦ leb (round c) r
]

-- The locals of the loop. The head of `buffer` is the top of the stack.
pub record Walk : Type 0 where
  pub ordered : List Certificate
  pub already_ordered : List ℕ
  pub buffer : List Certificate

-- The body of the loop over the parents.
unfoldable pub offer : ConsensusState → Certificate → Walk → ℕ → Walk
offer s x w p = elim (parent_entry s.dag x p) [
  | none ↦ w
  | some (digest, c) ↦
      if contains w.already_ordered digest || is_committed s.last_committed c
      then w
      else record w { already_ordered = digest ∷ w.already_ordered; buffer = c ∷ w.buffer }
]

unfoldable pub offer_all : ConsensusState → Certificate → Walk → List ℕ → Walk
offer_all s x w [] = w
offer_all s x w (p ∷ rest) = offer_all s x (offer s x w p) rest

-- `x` leaves the stack for the sequence.
abbrev pub pop_into : Walk → Certificate → List Certificate → Walk
pop_into w x rest = record {
  ordered = w.ordered ++ x ∷ [];
  already_ordered = w.already_ordered;
  buffer = rest;
}

-- One round of the loop.
unfoldable pub visit : ConsensusState → ℕ → Walk → Certificate → List Certificate → Walk
visit s gc_round w x rest =
    if round x == add_u32 gc_round 1
    then pop_into w x rest
    else offer_all s x (pop_into w x rest) (parents x)

unfoldable pub walk : ConsensusState → ℕ → ℕ → Walk → Walk
walk s gc_round zero w = w
walk s gc_round (suc fuel) w = elim w.buffer [
  | [] ↦ w
  | x ∷ rest ↦ walk s gc_round fuel (visit s gc_round w x rest)
]

-- `sort_by_key(|x| x.round())`, which is stable.
unfoldable pub insert_by_round : Certificate → List Certificate → List Certificate
insert_by_round x [] = x ∷ []
insert_by_round x (y ∷ rest) =
    let later = insert_by_round x rest in
    if leb (round x) (round y) then x ∷ y ∷ rest else y ∷ later

unfoldable pub sort_by_round : List Certificate → List Certificate
sort_by_round [] = []
sort_by_round (x ∷ rest) = insert_by_round x (sort_by_round rest)

unfoldable pub dag_entries : Dag → List (ℕ × Certificate)
dag_entries [] = []
dag_entries ((r, round_table) ∷ rest) = values round_table ++ dag_entries rest

-- The round from which on `order_dag` looks at no parents.
unfoldable pub order_gc_round : Certificate → ConsensusState → ℕ
order_gc_round leader s = saturating_sub (round leader) s.gc_depth

unfoldable pub start_walk : Certificate → Walk
start_walk leader = record { ordered = []; already_ordered = []; buffer = leader ∷ [] }

unfoldable pub walked : Certificate → ConsensusState → Walk
walked leader s =
    walk s (order_gc_round leader s) (suc (length (dag_entries s.dag))) (start_walk leader)

unfoldable pub order_dag : Certificate → ConsensusState → List Certificate
order_dag leader s = sort_by_round (walked leader s).ordered
