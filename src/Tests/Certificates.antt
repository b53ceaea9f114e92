-- ===== src/Tests/Certificates.antt =====
-- Tests of the certificate store.
use mathlib.Core.List.{reverse}
use telcoin_network.Base.{
  take, ℕ, ◌≤◌, ◌+◌, ◌≡◌, ◌↔◌, refl, none, some, List, [], Memᴰ, ok, ◌∷◌, false,
}
use telcoin_network.Base.Map.{values, lookup, insert, remove}
use telcoin_network.Base.Pairs.{
  insert_pair, lookup_pair, remove_pair, entries, with_first, take_below,
}
use telcoin_network.Types.Certificate.{Certificate, digest, round, origin, header_digest}
use telcoin_network.Storage.Certificates.{
  CertificateTables, rounds_to_keep, gc_rounds, remove_rows, remove_row_of, read, read_by_index,
  save_cert, write, after_round, last_round_number, last_of_origin, record_prior_to, delete,
}
use telcoin_network.Storage.Certificates.Index.{HasNoCollision, IsIndexed, empty-IsIndexed}
use telcoin_network.Storage.Certificates.Written.{write-IsIndexed, read-write, after_round_iff}
use telcoin_network.Types.SubDag.{leader_round}
use telcoin_network.Consensus.State.{raise_committed}
use telcoin_network.Storage.Blocks.{ConsensusBlocks, raise_all, raise_blocks, read_last_committed}
use telcoin_network.Storage.Blocks.Committed.{
  IsLargest, committed_in, read_last_committed-IsLargest,
}
use telcoin_network.Tests.{plain_crypto, certificate_at}

abbrev no_certificates : CertificateTables
no_certificates = record { certificates = []; by_round = []; by_origin = [] }

abbrev one : Certificate
one = certificate_at 1 1 []

abbrev late : Certificate
late = certificate_at 70 2 []

abbrev one_written : CertificateTables
one_written = write one no_certificates

one-fresh : HasNoCollision one no_certificates
unfolding lookup
one-fresh other e = cc

write-IsIndexed_example : IsIndexed one_written
write-IsIndexed_example = write-IsIndexed one no_certificates one-fresh empty-IsIndexed

late-fresh : HasNoCollision late one_written
unfolding lookup write digest header_digest save_cert insert insert_pair gc_rounds lookup_pair
late-fresh other e = cc

read-write_example :
    (read (digest late) (write late one_written) ≡ some late)
    × (read_by_index 2 70 (write late one_written) ≡ some late)
    × ((r o d : ℕ)
        → lookup_pair r o (write late one_written).by_round ≡ some d
        → 70 ≤ r + rounds_to_keep)
read-write_example = read-write late one_written late-fresh write-IsIndexed_example

after_round_iff_example :
    (cs : List Certificate) × (after_round 1 one_written ≡ ok cs)
    × ((c : Certificate)
        → Memᴰ c cs ↔ ((1 ≤ round c) × (read_by_index (origin c) (round c) one_written ≡ some c)))
after_round_iff_example = after_round_iff 1 one_written write-IsIndexed_example

-- The certificate of the first round is gone after that of round 70.
late-collects : read (digest one) (write late one_written) ≡ none
unfolding lookup insert remove write digest header_digest save_cert insert_pair gc_rounds read
    remove_rows remove_row_of remove_pair entries with_first take_below
late-collects = refl

-- A deleted certificate keeps its row in the index by origin.
delete-leaves_row : last_round_number 1 (delete (digest one) one_written).0 ≡ some 1
unfolding lookup insert remove write digest header_digest save_cert insert_pair gc_rounds read
    delete remove_pair last_round_number last_of_origin record_prior_to entries with_first
delete-leaves_row = refl

-- A block with the certificates of two rounds.
abbrev one_block : ConsensusBlocks
one_block =
    (
      1,
      record {
        certificates = one ∷ certificate_at 2 1 (11 ∷ []) ∷ [];
        leader = certificate_at 2 1 (11 ∷ []);
        reputation_score = record { scores_per_authority = []; final_of_schedule = false };
        timestamp = 102;
      },
    )
    ∷ []

read_last_committed-IsLargest_example :
    IsLargest
      (committed_in (take (reverse (values one_block)) 50))
      1
      (lookup 1 (read_last_committed one_block))
read_last_committed-IsLargest_example = read_last_committed-IsLargest one_block 1

one_block-read : lookup 1 (read_last_committed one_block) ≡ some 2
unfolding lookup insert values read_last_committed raise_blocks raise_all raise_committed
    leader_round
one_block-read = refl
