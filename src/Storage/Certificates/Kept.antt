-- ===== src/Storage/Certificates/Kept.antt =====
-- What a write leaves in the store: crates/storage/src/stores/certificate_store.rs.
use telcoin_network.Base.{
  ℕ, ◌-◌, ◌≡◌, ◌⊎◌, inl, inr, Bool-cases, some, List, [], ◌∷◌, Memᴰ, map, max, arith, ◌==◌,
}
use telcoin_network.Base.Map.{lookup, lookup-insert}
use telcoin_network.Base.Pairs.{take_below, entries}
use telcoin_network.Types.Crypto.{Crypto}
use telcoin_network.Types.Certificate.{Certificate, round, digest}
use telcoin_network.Storage.Certificates.{
  CertificateTables, rounds_to_keep, gc_rounds, save_cert, save_all, write_all,
}
use telcoin_network.Storage.Certificates.Removal.{read-remove_rows}

-- Garbage collection adds nothing.
of_gc_rounds :
    (target d : ℕ) (s : CertificateTables) {c : Certificate}
    → lookup d (gc_rounds target s).certificates ≡ some c
    → lookup d s.certificates ≡ some c
unfolding gc_rounds
of_gc_rounds target d s {c} e =
    ground (arith, read-remove_rows (take_below (target - rounds_to_keep) (entries s.by_round)) s d)

module _ ⦃crypto : Crypto⦄ where
  of_save_all :
      (cs : List Certificate) (highest d : ℕ) (s : CertificateTables) {c : Certificate}
      → lookup d (save_all cs highest s).0.certificates ≡ some c
      → Memᴰ d (map digest cs) ⊎ (lookup d s.certificates ≡ some c)
  unfolding save_all save_cert
  of_save_all [] highest d s e = inr e
  of_save_all (x ∷ cs) highest d s {c} e =
      elim (of_save_all cs (max highest (round x)) d (save_cert (digest x) x s) e) [
        | inl m ↦ inl (Memᴰ.tail m)
        | inr old ↦ elim (Bool-cases (digest x == d)) [
          | inl same ↦ inl (Memᴰ.head (ground arith))
          | inr other ↦ inr (ground (arith, lookup-insert (digest x) d x s.certificates, old))
        ]
      ]

  -- A stored certificate is one of those written, or was stored before.
  pub of_write_all :
      (cs : List Certificate) (d : ℕ) (s : CertificateTables) {c : Certificate}
      → lookup d (write_all cs s).certificates ≡ some c
      → Memᴰ d (map digest cs) ⊎ (lookup d s.certificates ≡ some c)
  unfolding write_all
  of_write_all cs d s e =
      of_save_all cs 0 d s (of_gc_rounds (save_all cs 0 s).1 d (save_all cs 0 s).0 e)
