-- ===== src/Tests.antt =====
-- Concrete data for the tests: a committee of four authorities with one vote each, three rounds of
-- certificates, and plain instances of the interfaces.
pub mod Power
pub mod Commits
pub mod Restart
pub mod Requests
pub mod Storage
pub mod Paths
pub mod Worker
pub mod Validator
pub mod Manager
pub mod Certificates
use mathlib.Core.List.Memᴰ
use telcoin_network.Base.{
  ℕ, ◌+◌, ◌*◌, ◌<◌, ◌^◌, ◌≡◌, refl, sym, Bool, true, Option, none, some, List, [], ◌∷◌, Memᴰ, All,
  Result, ok, arith,
}
use telcoin_network.Base.Map.{Map, lookup, insert, values}
use telcoin_network.Types.Header.{BlockNumHash, Header}
use telcoin_network.Types.Crypto.{Crypto}
use telcoin_network.Types.Certificate.{
  Certificate, SignatureVerificationState, unverified, round, digest, header_digest,
}
use telcoin_network.Committee.{Authority, Committee}
use telcoin_network.Consensus.State.{
  ConsensusState, new_state, try_insert, try_insert_in_dag, check_parents, insert_in_dag,
  missing_among,
}
use telcoin_network.Consensus.Schedule.{Election, LeaderSchedule, default_table}
use telcoin_network.Consensus.Bullshark.{Bullshark}
use telcoin_network.Consensus.Bullshark.Invariant.{IsConsistent}
use telcoin_network.Consensus.Bullshark.Runs.{try_insert-IsConsistent}
use telcoin_network.Consensus.Bullshark.Restart.{new_state-IsConsistent}

instance abbrev pub plain_crypto : Crypto
plain_crypto = record {
  hash = λ h. h.author + 10 * h.round + 1000 * h.epoch;
  aggregate = λ signatures. some 7;
  verify_aggregate = λ signature d keys. true;
  default_signature = 0;
  verify = λ signature d key. true;
  to_peer_id = λ key. key;
}

abbrev pub first : List Authority → Option Authority
first [] = none
first (a ∷ rest) = some a

pub first-mem : (xs : List Authority) (a : Authority) → first xs ≡ some a → Memᴰ a xs
first-mem [] a e = cc
first-mem (b ∷ rest) a e = Memᴰ.head cc

instance abbrev pub first_election : Election
first_election = record {
  choose = λ seed xs. first xs;
  choose_weighted = λ seed xs. first xs;
  choose_mem = λ seed xs a e. first-mem xs a e;
  choose_weighted_mem = λ seed xs a e. first-mem xs a e;
}

abbrev pub authority_at : ℕ → Authority
authority_at k = record {
  protocol_key = k;
  voting_power = 1;
  primary_network_address = 0;
  execution_address = 0;
  network_key = k;
  hostname = 0;
}

abbrev pub four_authorities : Map Authority
four_authorities =
    (1, authority_at 1) ∷ (2, authority_at 2) ∷ (3, authority_at 3) ∷ (4, authority_at 4) ∷ []

abbrev pub four : Committee
four = record {
  authorities = four_authorities;
  authorities_by_id = four_authorities;
  epoch = 0;
  quorum_threshold = 3;
  validity_threshold = 2;
}

abbrev pub header_at : ℕ → ℕ → List ℕ → Header
header_at r author parents = record {
  author = author;
  round = r;
  epoch = 0;
  created_at = 100 + r;
  payload = [];
  parents = parents;
  latest_execution_block = record { number = 0; hash = 0 };
  digest = none;
}

abbrev pub certificate_at : ℕ → ℕ → List ℕ → Certificate
certificate_at r author parents = record {
  header = header_at r author parents;
  signature_verification_state = unverified 7;
  signed_authorities = 0 ∷ 1 ∷ 2 ∷ [];
  created_at = 100 + r;
}

-- The leader of round 2.
abbrev pub leader : Certificate
leader = certificate_at 2 1 (11 ∷ 12 ∷ 13 ∷ [])

-- The certificates of the rounds 1 and 2, and one of round 3.
abbrev pub some_certificates : List Certificate
some_certificates =
    certificate_at 1 1 []
    ∷ certificate_at 1 2 []
    ∷ certificate_at 1 3 []
    ∷ leader
    ∷ certificate_at 2 2 (11 ∷ 12 ∷ 13 ∷ [])
    ∷ certificate_at 3 1 (21 ∷ 22 ∷ [])
    ∷ []

-- The certificate of round 3 that gives the leader enough support.
abbrev pub last_certificate : Certificate
last_certificate = certificate_at 3 2 (21 ∷ 22 ∷ [])

abbrev pub insert_each : ConsensusState → List Certificate → ConsensusState
insert_each s [] = s
insert_each s (c ∷ rest) = insert_each (try_insert s c).0 rest

abbrev pub AllInserted : ConsensusState → List Certificate → Type 0
AllInserted s [] = Unit
AllInserted s (c ∷ rest) =
    ((try_insert s c).1 ≡ ok true) × (round c < 2 ^ 32) × AllInserted (try_insert s c).0 rest

pub insert_each-IsConsistent :
    (s : ConsensusState) (cs : List Certificate)
    → IsConsistent s
    → AllInserted s cs
    → IsConsistent (insert_each s cs)
insert_each-IsConsistent s [] v h = v
insert_each-IsConsistent s (c ∷ rest) v h =
    insert_each-IsConsistent (try_insert s c).0 rest (try_insert-IsConsistent s c v h.1 h.0) h.2

abbrev pub filled : ConsensusState
filled = insert_each (new_state 50) some_certificates

abbrev pub protocol : Bullshark
protocol = record {
  committee = four;
  max_inserted_certificate_round = 0;
  num_sub_dags_per_schedule = 10;
  leader_schedule = record { committee = four; leader_swap_table = default_table };
  bad_nodes_stake_threshold = 33;
}

pub filled-AllInserted : AllInserted (new_state 50) some_certificates
unfolding new_state try_insert try_insert_in_dag check_parents insert_in_dag missing_among lookup
    insert values digest header_digest
filled-AllInserted = (
  refl,
  omega arith,
  (
    refl,
    omega arith,
    (refl, omega arith, (refl, omega arith, (refl, omega arith, (refl, omega arith, tt)))),
  ),
)

pub filled-IsConsistent : IsConsistent filled
filled-IsConsistent =
    insert_each-IsConsistent (new_state 50) some_certificates (new_state-IsConsistent 50)
      filled-AllInserted
