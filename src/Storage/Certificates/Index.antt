-- ===== src/Storage/Certificates/Index.antt =====
-- The indexes of the certificate store: crates/storage/src/stores/certificate_store.rs.
use telcoin_network.Base.{
  mem_of_any, ℕ, ◌-◌, ◌≤◌, ◌≡◌, ◌&&◌, ◌||◌, ◌==◌, leb, if◌then◌else◌, refl, sym, ◌∙◌, Bool, true,
  false, Bool-cases, none, some, [], any, arith, inl, inr,
}
use telcoin_network.Base.Map.{lookup, lookup-insert}
use telcoin_network.Base.Pairs.{
  lookup_pair, entries, take_below, IsOrdered, lookup-insert_pair, insert_pair-IsOrdered,
}
use telcoin_network.Types.Crypto.{Crypto}
use telcoin_network.Types.Certificate.{Certificate, round, origin, digest}
use telcoin_network.Storage.Certificates.{CertificateTables, rounds_to_keep, gc_rounds, save_cert}
use telcoin_network.Storage.Certificates.Removal.{
  same_digest, lookup-remove_rows, lookup-remove_rows_by_origin, read-remove_rows,
  remove_rows-IsOrdered, mem-taken, removed_keys,
}

-- Garbage collection for a round keeps a round.
abbrev pub kept : ℕ → ℕ → Bool
kept target r = leb target rounds_to_keep || leb (target - rounds_to_keep) r

module _ ⦃crypto : Crypto⦄ where
  -- Both indexes hold the same digests, and each names a stored certificate of its round and origin.
  pub record IsIndexed (s : CertificateTables) : Type 0 where
    pub ordered : IsOrdered s.by_round
    pub mirrored : (r o : ℕ) → lookup_pair o r s.by_origin ≡ lookup_pair r o s.by_round
    pub stored :
        (r o d : ℕ)
        → lookup_pair r o s.by_round ≡ some d
        → (c : Certificate) × (lookup d s.certificates ≡ some c)
          × (round c ≡ r)
          × (origin c ≡ o)
          × (digest c ≡ d)

  pub by_round-gc :
      (target : ℕ) (s : CertificateTables) (r o : ℕ)
      → IsOrdered s.by_round
      → lookup_pair r o (gc_rounds target s).by_round
        ≡ (if kept target r then lookup_pair r o s.by_round else none)
  unfolding gc_rounds
  by_round-gc target s r o h = ground (
    arith,
    lookup-remove_rows (take_below (target - rounds_to_keep) (entries s.by_round)) s r o,
    removed_keys (target - rounds_to_keep) s.by_round r o h,
  )

  pub by_origin-gc :
      (target : ℕ) (s : CertificateTables) (r o : ℕ)
      → IsIndexed s
      → lookup_pair o r (gc_rounds target s).by_origin
        ≡ (if kept target r then lookup_pair r o s.by_round else none)
  unfolding gc_rounds
  by_origin-gc target s r o h = ground (
    arith,
    lookup-remove_rows_by_origin (take_below (target - rounds_to_keep) (entries s.by_round)) s r o,
    h.mirrored r o,
    removed_keys (target - rounds_to_keep) s.by_round r o h.ordered,
  )

  -- The digest of a row that is kept is not removed.
  digest_left :
      (t : ℕ) (s : CertificateTables) (r o d : ℕ)
      → IsIndexed s
      → lookup_pair r o s.by_round ≡ some d
      → t ≤ r
      → any (same_digest d) (take_below t (entries s.by_round)) ≡ false
  digest_left t s r o d h e above =
      elim (Bool-cases (any (same_digest d) (take_below t (entries s.by_round)))) [
        | inl taken ↦
            let ((r', o', d'), at, same) = mem_of_any (same_digest d) _ taken in
            let (found, below) = (mem-taken t s.by_round r' o' d' h.ordered).0 at in
            let (c, in_store, is_round, _, _) = h.stored r o d e in
            let (c', in_store', is_round', _, _) = h.stored r' o' d' found in absurd (ground arith)
        | inr left ↦ left
      ]

  pub read-gc :
      (target : ℕ) (s : CertificateTables) (r o d : ℕ)
      → IsIndexed s
      → lookup_pair r o s.by_round ≡ some d
      → kept target r ≡ true
      → lookup d (gc_rounds target s).certificates ≡ lookup d s.certificates
  unfolding gc_rounds
  read-gc target s r o d h e keeps = elim (Bool-cases (leb target rounds_to_keep)) [
    | inl small ↦ rw small refl
    | inr large ↦ rw large (
        read-remove_rows (take_below (target - rounds_to_keep) (entries s.by_round)) s d
        ∙ rw (digest_left (target - rounds_to_keep) s r o d h e (ground arith)) refl)
  ]

  gc_rounds-IsOrdered :
      (target : ℕ) (s : CertificateTables)
      → IsOrdered s.by_round
      → IsOrdered (gc_rounds target s).by_round
  unfolding gc_rounds
  gc_rounds-IsOrdered target s h = elim (Bool-cases (leb target rounds_to_keep)) [
    | inl small ↦ rw small h
    | inr large ↦
        rw large
          (remove_rows-IsOrdered (take_below (target - rounds_to_keep) (entries s.by_round)) s h)
  ]

  pub gc_rounds-IsIndexed :
      (target : ℕ) (s : CertificateTables) → IsIndexed s → IsIndexed (gc_rounds target s)
  gc_rounds-IsIndexed target s h = record {
    ordered = gc_rounds-IsOrdered target s h.ordered;
    mirrored = λ r o. by_origin-gc target s r o h ∙ sym (by_round-gc target s r o h.ordered);
    stored = λ r o d e.
        let here = by_round-gc target s r o h.ordered in
        let keeps : kept target r ≡ true = ground (arith, here, e) in
        let found : lookup_pair r o s.by_round ≡ some d = ground (arith, here, e, keeps) in
        let (c, in_store, is_round, is_origin, is_digest) = h.stored r o d found in
        (c, read-gc target s r o d h found keeps ∙ in_store, is_round, is_origin, is_digest);
  }

  -- A stored certificate with the digest is of the same round and origin.
  abbrev pub HasNoCollision : Certificate → CertificateTables → Type 0
  HasNoCollision c s =
      (other : Certificate)
      → lookup (digest c) s.certificates ≡ some other
      → (round other ≡ round c) × (origin other ≡ origin c)

  pub save_cert-IsIndexed :
      (c : Certificate) (s : CertificateTables)
      → HasNoCollision c s
      → IsIndexed s
      → IsIndexed (save_cert (digest c) c s)
  unfolding save_cert
  save_cert-IsIndexed c s fresh h = record {
    ordered = insert_pair-IsOrdered (round c) (origin c) (digest c) s.by_round h.ordered;
    mirrored = λ r o. ground (
      arith,
      lookup-insert_pair (round c) (origin c) (digest c) s.by_round r o,
      lookup-insert_pair (origin c) (round c) (digest c) s.by_origin o r,
      h.mirrored r o,
    );
    stored = λ r o d e.
        let here = lookup-insert_pair (round c) (origin c) (digest c) s.by_round r o in
        let entry = lookup-insert (digest c) d c s.certificates in
        elim (Bool-cases ((round c == r) && (origin c == o))) [
          | inl new ↦
              let same : digest c ≡ d = ground (arith, here, e, new) in
              (c, ground (arith, entry, same), ground (arith, new), ground (arith, new), same)
          | inr old ↦
              let found : lookup_pair r o s.by_round ≡ some d = ground (arith, here, e, old) in
              let (c', in_store, is_round, is_origin, is_digest) = h.stored r o d found in
              elim (Bool-cases (digest c == d)) [
                | inl same ↦
                    let d_same : digest c ≡ d = ground (arith, same) in
                    let (r_same, o_same) = fresh c' (rw d_same in_store) in
                    (
                      c,
                      ground (arith, entry, same),
                      sym r_same ∙ is_round,
                      sym o_same ∙ is_origin,
                      d_same,
                    )
                | inr other ↦
                    (c', ground (arith, entry, other, in_store), is_round, is_origin, is_digest)
              ]
        ];
  }

  pub empty-IsIndexed : IsIndexed (record { certificates = []; by_round = []; by_origin = [] })
  unfolding lookup_pair lookup
  empty-IsIndexed = record {
    ordered = record { outer = tt; inner = λ i. tt };
    mirrored = λ r o. refl;
    stored = λ r o d e. cc;
  }
