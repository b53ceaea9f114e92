-- ===== src/Storage/Certificates/Removal.antt =====
-- The removal of rows in the certificate store: crates/storage/src/stores/certificate_store.rs.
use telcoin_network.Base.{
  any_of_mem, mem_of_any, ℕ, ◌<◌, ◌≡◌, ◌↔◌, ◌&&◌, ◌==◌, ltb, if◌then◌else◌, refl, Bool, Bool-cases,
  none, some, Option-cases, List, [], ◌∷◌, Memᴰ, any, arith, inl, inr,
}
use telcoin_network.Base.Map.{lookup, lookup-remove}
use telcoin_network.Base.Pairs.{
  PairMap, lookup_pair, entries, take_below, IsOrdered, lookup-remove_pair, remove_pair-IsOrdered,
  mem-entries_iff, entries-FirstFrom, mem-take_below,
}
use telcoin_network.Storage.Certificates.{CertificateTables, remove_row_of, remove_rows}

abbrev pub same_key : ℕ → ℕ → ℕ × ℕ × ℕ → Bool
same_key r o row = (row.0 == r) && (row.1 == o)

abbrev pub same_digest : ℕ → ℕ × ℕ × ℕ → Bool
same_digest d row = row.2 == d

-- What a removal of rows leaves.
pub lookup-remove_rows :
    (rows : List (ℕ × ℕ × ℕ)) (s : CertificateTables) (r o : ℕ)
    → lookup_pair r o (remove_rows rows s).by_round
      ≡ (if any (same_key r o) rows then none else lookup_pair r o s.by_round)
unfolding remove_rows remove_row_of
lookup-remove_rows [] s r o = refl
lookup-remove_rows ((r', o', d) ∷ rows) s r o = ground (
  arith,
  lookup-remove_rows rows (remove_row_of (r', o', d) s) r o,
  lookup-remove_pair r' o' s.by_round r o,
)

pub lookup-remove_rows_by_origin :
    (rows : List (ℕ × ℕ × ℕ)) (s : CertificateTables) (r o : ℕ)
    → lookup_pair o r (remove_rows rows s).by_origin
      ≡ (if any (same_key r o) rows then none else lookup_pair o r s.by_origin)
unfolding remove_rows remove_row_of
lookup-remove_rows_by_origin [] s r o = refl
lookup-remove_rows_by_origin ((r', o', d) ∷ rows) s r o = ground (
  arith,
  lookup-remove_rows_by_origin rows (remove_row_of (r', o', d) s) r o,
  lookup-remove_pair o' r' s.by_origin o r,
)

pub read-remove_rows :
    (rows : List (ℕ × ℕ × ℕ)) (s : CertificateTables) (d : ℕ)
    → lookup d (remove_rows rows s).certificates
      ≡ (if any (same_digest d) rows then none else lookup d s.certificates)
unfolding remove_rows remove_row_of
read-remove_rows [] s d = refl
read-remove_rows ((r', o', d') ∷ rows) s d = ground (
  arith,
  read-remove_rows rows (remove_row_of (r', o', d') s) d,
  lookup-remove d' d s.certificates,
)

pub remove_rows-IsOrdered :
    (rows : List (ℕ × ℕ × ℕ)) (s : CertificateTables)
    → IsOrdered s.by_round
    → IsOrdered (remove_rows rows s).by_round
unfolding remove_rows remove_row_of
remove_rows-IsOrdered [] s h = h
remove_rows-IsOrdered ((r, o, d) ∷ rows) s h =
    remove_rows-IsOrdered rows (remove_row_of (r, o, d) s) (remove_pair-IsOrdered r o s.by_round h)

pub mem-taken :
    (t : ℕ) (m : PairMap ℕ) (r o d : ℕ)
    → IsOrdered m
    → Memᴰ (r, o, d) (take_below t (entries m)) ↔ ((lookup_pair r o m ≡ some d) × (r < t))
mem-taken t m r o d h = grind (
  arith,
  mem-take_below t 0 (r, o, d) (entries m) (entries-FirstFrom 0 m h.outer),
  mem-entries_iff r o d m h,
)

-- Below the bound, the removed keys are all that are there.
pub removed_keys :
    (t : ℕ) (m : PairMap ℕ) (r o : ℕ)
    → IsOrdered m
    → (if any (same_key r o) (take_below t (entries m)) then none else lookup_pair r o m)
      ≡ (if ltb r t then none else lookup_pair r o m)
removed_keys t m r o h = elim (Option-cases (lookup_pair r o m)) [
  | inl e ↦ ground arith
  | inr (d, e) ↦ elim (Bool-cases (any (same_key r o) (take_below t (entries m)))) [
    | inl taken ↦
        let ((r', o', d'), at, same) = mem_of_any (same_key r o) _ taken in
        ground (arith, mem-taken t m r' o' d' h, at, same)
    | inr left ↦ elim (Bool-cases (ltb r t)) [
      | inl below ↦
          let here =
            any_of_mem (same_key r o) (r, o, d) _ ((mem-taken t m r o d h).1 (e, ground arith))
              (ground arith) in
          absurd (cc)
      | inr above ↦ ground arith
    ]
  ]
]
