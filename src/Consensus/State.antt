-- ===== src/Consensus/State.antt =====
-- `ConsensusState` and `ConsensusRound`: crates/consensus/primary/src/consensus/state.rs, and
-- `gc_round` of utils.rs. Metrics and logs are left out.
pub mod Rounds
pub mod Insert
pub mod Causal
use telcoin_network.Base.{
  ℕ, max, ◌==◌, ltb, leb, not, if◌then◌else◌, Bool, true, false, Option, none, some, List, [], ◌∷◌,
  contains, map, Result, ok, err, ◌>>=◌, ◌>>◌, add_u32, sub_u32, saturating_sub,
}
use telcoin_network.Base.Map.{Map, lookup, insert, retain, values, lookup_or}
use telcoin_network.Types.Crypto.{Crypto}
use telcoin_network.Types.Certificate.{Certificate, round, origin, parents, digest}
use telcoin_network.Types.SubDag.{CommittedSubDag}

-- `enum ConsensusError`, less the errors of storage and channels.
pub data ConsensusError : Type 0 where
  certificate_equivocation : Certificate → Certificate → ConsensusError
  missing_parent : ℕ → Certificate → ConsensusError
  missing_parent_round : Certificate → ConsensusError

-- `type Dag`: the certificates by round and origin, each with its digest.
abbrev pub Dag : Type 0
Dag = Map (Map (ℕ × Certificate))

pub record ConsensusRound : Type 0 where
  pub committed_round : ℕ
  pub gc_round : ℕ

pub record ConsensusState : Type 0 where
  pub last_round : ConsensusRound
  pub gc_depth : ℕ
  pub last_committed : Map ℕ
  pub last_committed_sub_dag : Option CommittedSubDag
  pub dag : Dag

-- `dag.get(&round).and_then(|x| x.get(&authority))`
unfoldable pub entry_at : Dag → ℕ → ℕ → Option (ℕ × Certificate)
entry_at dag r a = elim (lookup r dag) [ none ↦ none | some round_table ↦ lookup a round_table ]

-- The digests of a round.
abbrev pub digests : Map (ℕ × Certificate) → List ℕ
digests round_table = map (λ x. x.0) (values round_table)

-- `utils::gc_round`
unfoldable pub gc_round_of : ℕ → ℕ → ℕ
gc_round_of commit_round gc_depth = saturating_sub commit_round gc_depth

unfoldable pub new_with_gc_depth : ℕ → ℕ → ConsensusRound
unfolding gc_round_of
new_with_gc_depth committed gc_depth = record {
  committed_round = committed;
  gc_round = gc_round_of committed gc_depth;
}

-- `ConsensusRound::update`
unfoldable pub update_round : ConsensusRound → ℕ → ℕ → ConsensusRound
unfolding gc_round_of
update_round r new_committed gc_depth =
    let last = max r.committed_round new_committed in
    record { committed_round = last; gc_round = gc_round_of last gc_depth }

-- `ConsensusState::new`
unfoldable pub new_state : ℕ → ConsensusState
new_state gc_depth = record {
  last_round = record { committed_round = 0; gc_round = 0 };
  gc_depth = gc_depth;
  last_committed = [];
  last_committed_sub_dag = none;
  dag = [];
}

-- The first parent that is not among the digests.
unfoldable pub missing_among : List ℕ → List ℕ → Option ℕ
missing_among known [] = none
missing_among known (p ∷ rest) =
    let later = missing_among known rest in if contains known p then later else some p

module _ ⦃crypto : Crypto⦄ where
  unfoldable pub check_parents : Certificate → Dag → ℕ → Result ConsensusError (Unit {0})
  check_parents c dag gc_round =
      if leb (round c) (add_u32 gc_round 1)
      then ok tt
      else elim (lookup (sub_u32 (round c) 1) dag) [
        | none ↦ err (missing_parent_round c)
        | some round_table ↦ elim (missing_among (digests round_table) (parents c)) [
          | none ↦ ok tt
          | some p ↦ err (missing_parent p c)
        ]
      ]

  -- The insertion of the certificate under its round and origin. It replaces what stood there, also
  -- when that is another certificate and an error is returned.
  unfoldable pub insert_in_dag : Dag → Certificate → Dag × Result ConsensusError (Unit {0})
  insert_in_dag dag c =
      let round_table = lookup_or (round c) [] dag in
      (
        insert (round c) (insert (origin c) (digest c, c) round_table) dag,
        elim (lookup (origin c) round_table) [
          | none ↦ ok tt
          | some (_, existing) ↦
              if digest existing == digest c
              then ok tt
              else err (certificate_equivocation c existing)
        ],
      )

  unfoldable pub try_insert_in_dag :
      Dag → Map ℕ → ℕ → Certificate → Bool → Dag × Result ConsensusError Bool
  try_insert_in_dag dag last_committed gc_round c check =
      if leb (round c) gc_round
      then (dag, ok false)
      else elim (if check then check_parents c dag gc_round else ok tt) [
        | err e ↦ (dag, err e)
        | ok _ ↦
            let (dag', inserted) = insert_in_dag dag c in
            (dag', inserted >> ok (ltb (lookup_or (origin c) 0 last_committed) (round c)))
      ]

  -- `ConsensusState::try_insert`
  unfoldable pub try_insert :
      ConsensusState → Certificate → ConsensusState × Result ConsensusError Bool
  try_insert s c =
      let (dag', result) = try_insert_in_dag s.dag s.last_committed s.last_round.gc_round c true in
      (record s { dag = dag' }, result)

  unfoldable pub insert_all : Dag → Map ℕ → ℕ → List Certificate → Result ConsensusError Dag
  insert_all dag last_committed gc_round [] = ok dag
  insert_all dag last_committed gc_round (c ∷ rest) =
      let (dag', result) = try_insert_in_dag dag last_committed gc_round c false in
      let later = insert_all dag' last_committed gc_round rest in
      elim result [ ok _ ↦ later | err e ↦ err e ]

  -- `construct_dag_from_cert_store`, where the store's `after_round` gives the certificates.
  unfoldable pub construct_dag_from_cert_store :
      (ℕ → List Certificate) → Map ℕ → ℕ → Result ConsensusError Dag
  construct_dag_from_cert_store after_round last_committed gc_round =
      insert_all [] last_committed gc_round (after_round (add_u32 gc_round 1))

  -- `new_from_store`: a failed recovery panics, `err` here.
  unfoldable pub new_from_store :
      ℕ
      → ℕ
      → Map ℕ
      → Option CommittedSubDag
      → (ℕ → List Certificate)
      → Result ConsensusError ConsensusState
  new_from_store committed gc_depth recovered latest after_round =
      let last_round = new_with_gc_depth committed gc_depth in
      elim (construct_dag_from_cert_store after_round recovered last_round.gc_round) [
        | err e ↦ err e
        | ok dag ↦ ok (record {
          last_round = last_round;
          gc_depth = gc_depth;
          last_committed = recovered;
          last_committed_sub_dag = latest;
          dag = dag;
        })
      ]

-- The `and_modify`, `or_insert_with` of `update`.
unfoldable pub raise_committed : ℕ → ℕ → Map ℕ → Map ℕ
raise_committed origin r m = elim (lookup origin m) [
  | none ↦ insert origin r m
  | some old ↦ insert origin (max old r) m
]

-- `ConsensusState::update`
unfoldable pub update : ConsensusState → Certificate → ConsensusState
update s c =
    let last = update_round s.last_round (round c) s.gc_depth in
    record s {
      last_committed = raise_committed (origin c) (round c) s.last_committed;
      last_round = last;
      dag = retain (λ r. ltb last.gc_round r) s.dag;
    }

-- The last committed round that `Consensus::spawn` reads from the recovered map: its largest value.
unfoldable pub highest_committed : Map ℕ → ℕ
highest_committed [] = 0
highest_committed ((k, r) ∷ m) = max r (highest_committed m)
