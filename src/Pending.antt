-- ===== src/Pending.antt =====
-- `PendingCertificateManager`: crates/consensus/primary/src/state_sync/pending_cert_manager.rs. Sets
-- are lists, and the order in which a hash set is iterated is the order of the list. Metrics and logs
-- are left out.
pub mod Release
pub mod Ends
pub mod Missing
use telcoin_network.Base.{
  ℕ, zero, suc, ◌+◌, ◌==◌, leb, ltb, not, if◌then◌else◌, ◌&&◌, ◌||◌, Bool, true, false, Option,
  none, some, List, [], ◌∷◌, ◌++◌, contains, filter, is_empty, length, Result, ok, err, ◌>>=◌,
  sub_u32,
}
use telcoin_network.Base.Map.{Map, lookup, insert, replace, remove, contains_key}
use telcoin_network.Types.Crypto.{Crypto}
use telcoin_network.Types.Certificate.{Certificate, round, digest}

pub record PendingCertificate : Type 0 where
  pub certificate : Certificate
  pub missing_parent_digests : List ℕ

-- An entry of `missing_for_pending`, of the round and digest of a missing certificate.
pub record Blocked : Type 0 where
  pub round : ℕ
  pub parent : ℕ
  pub waiting : List ℕ

-- `missing_for_pending` is ordered by round and digest.
pub record PendingCertificateManager : Type 0 where
  pub pending : Map PendingCertificate
  pub missing_for_pending : List Blocked

-- The `CertManagerError`s of the component.
pub data PendingError : Type 0 where
  pending_parents_mismatch pending_certificate_not_found : ℕ → PendingError

-- `PendingCertificateManager::new`
unfoldable pub new_manager : PendingCertificateManager
new_manager = record { pending = []; missing_for_pending = [] }

-- The removal of an element from a set.
unfoldable pub without : ℕ → List ℕ → List ℕ
without x xs = filter (λ y. not (y == x)) xs

-- The insertion of an element into a set.
unfoldable pub with_element : ℕ → List ℕ → List ℕ
with_element x xs = if contains xs x then xs else x ∷ xs

unfoldable pub is_subset : List ℕ → List ℕ → Bool
is_subset [] ys = true
is_subset (x ∷ xs) ys = contains ys x && is_subset xs ys

unfoldable pub same_set : List ℕ → List ℕ → Bool
same_set xs ys = is_subset xs ys && is_subset ys xs

-- `PendingCertificate::is_ready`
unfoldable pub is_ready : PendingCertificate → Bool
is_ready p = is_empty p.missing_parent_digests

-- `PendingCertificate::remove_parent`
unfoldable pub remove_parent : PendingCertificate → ℕ → PendingCertificate
remove_parent p parent = record p {
  missing_parent_digests = without parent p.missing_parent_digests;
}

-- `missing_for_pending.entry((r, parent)).or_default().insert(d)`
unfoldable pub block : List Blocked → ℕ → ℕ → ℕ → List Blocked
block [] r parent d = record { round = r; parent = parent; waiting = d ∷ [] } ∷ []
block (b ∷ rest) r parent d =
    let later = block rest r parent d in
    if (b.round == r) && (b.parent == parent)
    then record b { waiting = with_element d b.waiting } ∷ rest
    else if ltb r b.round || ((b.round == r) && ltb parent b.parent)
    then record { round = r; parent = parent; waiting = d ∷ [] } ∷ b ∷ rest
    else b ∷ later

unfoldable pub block_all : List Blocked → ℕ → List ℕ → ℕ → List Blocked
block_all m r [] d = m
block_all m r (parent ∷ parents) d = block_all (block m r parent d) r parents d

-- `missing_for_pending.remove(&(r, parent))`: who waited, and what is left.
unfoldable pub unblock : List Blocked → ℕ → ℕ → Option (List ℕ) × List Blocked
unblock [] r parent = (none, [])
unblock (b ∷ rest) r parent =
    let later = unblock rest r parent in
    if (b.round == r) && (b.parent == parent)
    then (some b.waiting, rest)
    else (later.0, b ∷ later.1)

unfoldable pub is_pending : PendingCertificateManager → ℕ → Bool
is_pending m d = contains_key d m.pending

unfoldable pub num_pending : PendingCertificateManager → ℕ
num_pending m = length m.pending

-- `filter_unknown_digests`
unfoldable pub filter_unknown_digests : PendingCertificateManager → List ℕ → List ℕ
filter_unknown_digests m unknown = filter (λ d. not (contains_key d m.pending)) unknown

-- The locals of the loop of `update_pending`.
pub record Update : Type 0 where
  pub manager : PendingCertificateManager
  pub certificates_to_process : List (ℕ × ℕ)
  pub ready_certificates : List Certificate

-- One pending certificate that waited for the digest. An error keeps the state that it left.
unfoldable pub wake : ℕ → Update → ℕ → Result (PendingError × Update) Update
wake next_digest u d = elim (lookup d u.manager.pending) [
  | none ↦ err (pending_certificate_not_found d, u)
  | some p ↦
      let p' = remove_parent p next_digest in
      if is_ready p'
      then ok (record {
        manager = record u.manager { pending = remove d u.manager.pending };
        certificates_to_process = u.certificates_to_process ++ (round p.certificate, d) ∷ [];
        ready_certificates = u.ready_certificates ++ p.certificate ∷ [];
      })
      else ok (record u { manager = record u.manager { pending = replace d p' u.manager.pending } })
]

unfoldable pub wake_all : ℕ → Update → List ℕ → Result (PendingError × Update) Update
wake_all next_digest u [] = ok u
wake_all next_digest u (d ∷ rest) = elim (wake next_digest u d) [
  | err e ↦ err e
  | ok u' ↦ wake_all next_digest u' rest
]

-- The loop, until nothing is left to process or the fuel is used up.
unfoldable pub process : ℕ → Update → Result (PendingError × Update) Update
process zero u = ok u
process (suc fuel) u = elim u.certificates_to_process [
  | [] ↦ ok u
  | next ∷ rest ↦
      let (blocked, left) = unblock u.manager.missing_for_pending next.0 next.1 in
      elim blocked [
        | none ↦ process fuel (record u { certificates_to_process = rest })
        | some waiting ↦
            elim (wake_all next.1
              (record u {
                manager = record u.manager { missing_for_pending = left };
                certificates_to_process = rest;
              })
              waiting) [ err e ↦ err e | ok u' ↦ process fuel u' ]
      ]
]

abbrev pub start_update : PendingCertificateManager → ℕ → ℕ → Update
start_update m round digest = record {
  manager = m;
  certificates_to_process = (round, digest) ∷ [];
  ready_certificates = [];
}

-- `update_pending`, with fuel for the given digest and each pending certificate.
unfoldable pub update_pending :
    PendingCertificateManager → ℕ → ℕ → Result (PendingError × Update) Update
update_pending m round digest = process (suc (num_pending m)) (start_update m round digest)

-- `next_for_gc_round`
unfoldable pub next_for_gc_round :
    PendingCertificateManager → ℕ → PendingCertificateManager × Option (ℕ × ℕ)
next_for_gc_round m gc_round = elim m.missing_for_pending [
  | [] ↦ (m, none)
  | b ∷ rest ↦ if ltb gc_round b.round then (m, none) else (
    elim (lookup b.parent m.pending) [
      | none ↦ m
      | some p ↦ record m {
        pending = replace b.parent (record p { missing_parent_digests = [] }) m.pending;
      }
    ],
    some (b.round, b.parent),
  )
]

module _ ⦃crypto : Crypto⦄ where
  -- `insert_pending`. An entry with other parents is replaced before the error.
  unfoldable pub insert_pending :
      PendingCertificateManager
      → Certificate
      → List ℕ
      → PendingCertificateManager × Result PendingError (Unit {0})
  insert_pending m c missing_parents =
      let d = digest c in
      let p : PendingCertificate = record {
        certificate = c;
        missing_parent_digests = missing_parents;
      } in
      let stored = record m { pending = insert d p m.pending } in
      let blocked = record stored {
        missing_for_pending =
            block_all m.missing_for_pending (sub_u32 (round c) 1) missing_parents d;
      } in
      elim (lookup d m.pending) [
        | none ↦ (blocked, ok tt)
        | some existing ↦
            if not (same_set existing.missing_parent_digests missing_parents)
            then (stored, err (pending_parents_mismatch d))
            else (blocked, ok tt)
      ]
