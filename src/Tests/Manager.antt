-- ===== src/Tests/Manager.antt =====
-- Tests of the certificate manager.
use telcoin_network.Base.{All, arith, ◌<◌, ℕ, ◌≡◌, refl, false, List, [], ◌∷◌, map, Memᴰ, ok}
use telcoin_network.Base.Map.{lookup, insert, replace, remove}
use telcoin_network.Base.Pairs.{insert_pair}
use telcoin_network.Types.Certificate.{
  Certificate, verified_directly, digest, header_digest, is_verified,
}
use telcoin_network.Committee.{voting_power_by_id, authority}
use telcoin_network.Aggregators.{append_certificate, append_to, new_certificates}
use telcoin_network.Pending.{
  new_manager, insert_pending, is_pending, update_pending, process, wake, wake_all, unblock,
  without, is_ready, remove_parent, num_pending, block, block_all, with_element,
}
use telcoin_network.Storage.Certificates.{
  write_all, save_all, save_cert, gc_rounds, contains_certificate,
}
use telcoin_network.Manager.{
  CertificateManager, append_sent, append_parent, accept_each, accept_verified_certificates,
  get_missing_parents, suspend, accept_with_unlocked, awaited, process_one, process_all,
  process_verified_certificates,
}
use telcoin_network.Manager.{process_gc_round, collect_rounds}
use telcoin_network.Pending.Missing.{InRounds}
use telcoin_network.Manager.Collected.{process_gc_round-ends}
use telcoin_network.Pending.{Blocked, next_for_gc_round}
use telcoin_network.Manager.Placed.{is_broken}
use telcoin_network.Manager.Causal.{SendsInOrder, process_verified_certificates-SendsInOrder}
use telcoin_network.Manager.Accepted.{process_verified_certificates-sends}
use telcoin_network.Tests.{plain_crypto, four, certificate_at}

abbrev verified : ℕ → ℕ → List ℕ → Certificate
verified r author parents = record (certificate_at r author parents) {
  signature_verification_state = verified_directly 7;
}

abbrev empty_manager : CertificateManager
empty_manager = record {
  pending = new_manager;
  aggregators = [];
  gc_round = 0;
  highest_processed_round = 0;
  store = record { certificates = []; by_round = []; by_origin = [] };
  fetches = [];
  proposed_parents = [];
  sent_certificates = [];
}

empty_manager-SendsInOrder : SendsInOrder four [] empty_manager
unfolding new_manager lookup
empty_manager-SendsInOrder = record {
  keyed = λ d p e. cc;
  stored = λ d e. cc;
  waiting = λ d p e. cc;
  ordered = tt;
}

-- A certificate of round 2 comes before its two parents.
abbrev out_of_order : List Certificate
out_of_order = verified 2 1 (11 ∷ 12 ∷ []) ∷ verified 1 1 [] ∷ verified 1 2 [] ∷ []

abbrev processed : CertificateManager
processed = (process_verified_certificates four [] empty_manager out_of_order).0

-- It is sent after them.
processed-sent : map digest processed.sent_certificates ≡ 11 ∷ 12 ∷ 21 ∷ []
unfolding lookup insert replace remove insert_pair digest header_digest is_verified
    voting_power_by_id authority append_certificate append_to new_certificates new_manager
    insert_pending is_pending update_pending process wake wake_all unblock without is_ready
    remove_parent num_pending block block_all with_element write_all save_all save_cert gc_rounds
    contains_certificate append_sent append_parent accept_each accept_verified_certificates
    get_missing_parents suspend accept_with_unlocked awaited process_one process_all
    process_verified_certificates
processed-sent = refl

processed_ok :
    is_broken (process_verified_certificates four [] empty_manager out_of_order).1 ≡ false
unfolding lookup insert replace remove insert_pair digest header_digest is_verified
    voting_power_by_id authority append_certificate append_to new_certificates new_manager
    insert_pending is_pending update_pending process wake wake_all unblock without is_ready
    remove_parent num_pending block block_all with_element write_all save_all save_cert gc_rounds
    contains_certificate append_sent append_parent accept_each accept_verified_certificates
    get_missing_parents suspend accept_with_unlocked awaited process_one process_all
    process_verified_certificates
processed_ok = refl

process_verified_certificates-SendsInOrder_example : SendsInOrder four [] processed
process_verified_certificates-SendsInOrder_example =
    process_verified_certificates-SendsInOrder four [] empty_manager out_of_order
      empty_manager-SendsInOrder processed_ok

process_verified_certificates-sends_example :
    ((y : Certificate)
      → Memᴰ y processed.sent_certificates
      → Memᴰ y
          (process_verified_certificates four [] processed
            (verified 1 3 [] ∷ [])).0.sent_certificates)
    × ((process_verified_certificates four [] processed (verified 1 3 [] ∷ [])).1 ≡ ok tt
        → (x : Certificate) → Memᴰ x (verified 1 3 [] ∷ [])
        → Memᴰ x
            (process_verified_certificates four [] processed
              (verified 1 3 [] ∷ [])).0.sent_certificates)
process_verified_certificates-sends_example =
    process_verified_certificates-sends four [] processed (verified 1 3 [] ∷ [])

-- The certificate of round 2 waits for its parents, and round 1 is collected.
abbrev collecting : CertificateManager
collecting =
    record (process_verified_certificates four [] empty_manager
      (verified 2 1 (11 ∷ 12 ∷ []) ∷ [])).0 { gc_round = 1 }

collecting-done : (process_gc_round four [] collecting).1 ≡ ok tt
unfolding lookup insert replace remove insert_pair digest header_digest is_verified
    voting_power_by_id authority append_certificate append_to new_certificates new_manager
    insert_pending is_pending update_pending process wake wake_all unblock without is_ready
    remove_parent num_pending block block_all with_element write_all save_all save_cert gc_rounds
    contains_certificate append_sent append_parent accept_each accept_verified_certificates
    get_missing_parents suspend accept_with_unlocked awaited process_one process_all
    process_verified_certificates process_gc_round collect_rounds next_for_gc_round
collecting-done = refl

collecting-InRounds : InRounds collecting.pending.missing_for_pending
unfolding lookup insert replace remove insert_pair digest header_digest is_verified
    voting_power_by_id authority append_certificate append_to new_certificates new_manager
    insert_pending is_pending update_pending process wake wake_all unblock without is_ready
    remove_parent num_pending block block_all with_element write_all save_all save_cert gc_rounds
    contains_certificate append_sent append_parent accept_each accept_verified_certificates
    get_missing_parents suspend accept_with_unlocked awaited process_one process_all
    process_verified_certificates
collecting-InRounds = omega arith

process_gc_round-ends_example :
    All
      (λ (x : Blocked). 1 < x.round)
      (process_gc_round four [] collecting).0.pending.missing_for_pending
process_gc_round-ends_example =
    process_gc_round-ends four [] collecting collecting-InRounds collecting-done
