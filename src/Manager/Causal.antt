-- ===== src/Manager/Causal.antt =====
-- The order in which certificates go to the consensus:
-- crates/consensus/primary/src/state_sync/cert_manager.rs.
use mathlib.Core.List.Memᴰ
use mathlib.Core.List.{map-append}
use mathlib.Core.Logic.{⊎_elim}
use mathlib.Core.Option.{some_inj}
use telcoin_network.Base.{
  ℕ, ◌≡◌, ◌⊎◌, inl, inr, refl, ap, ◌∙◌, subst, false, Bool-cases, not, leb, ◌==◌, if◌then◌else◌,
  some, Option-cases, List, [], ◌∷◌, ◌++◌, List-cases, map, Memᴰ, mem-append, mem-filter, filter,
  Result, ok, err, Result-cases, ok-injective, arith, add_u32,
}
use telcoin_network.Base.Map.{lookup, lookup-insert}
use telcoin_network.Types.Crypto.{Crypto}
use telcoin_network.Types.Certificate.{Certificate, round, parents, digest, is_verified}
use telcoin_network.Committee.{Committee}
use telcoin_network.Consensus.State.{missing_among}
use telcoin_network.Consensus.State.Insert.{missing_among-none}
use telcoin_network.Pending.{
  PendingCertificate, PendingCertificateManager, insert_pending, is_pending, update_pending,
}
use telcoin_network.Pending.Release.{
  IsKeyedByDigest, insert_pending-IsKeyedByDigest, update_pending-InOrder,
}
use telcoin_network.Storage.Certificates.{write_all, contains_certificate}
use telcoin_network.Storage.Certificates.Kept.{of_write_all}
use telcoin_network.Manager.{
  ManagerError, pending_certificate, CertificateManager, accept_verified_certificates,
  get_missing_parents, suspend, accept_with_unlocked, awaited, process_one, process_all,
  process_verified_certificates,
}
use telcoin_network.Manager.Placed.{
  is_broken, sent-accept_each, pending-accept_each, store-accept_each, gc_round-accept_each,
  IsPlaced, IsOrdered, IsOrdered-mono, IsOrdered-append, Waits, of_InOrder,
}

module _ ⦃crypto : Crypto⦄ (c : Committee) (genesis : List ℕ) where
  -- The digests of what was sent to the consensus.
  abbrev pub Sent : CertificateManager → ℕ → Type 0
  Sent s q = Memᴰ q (map digest s.sent_certificates)

  -- What was sent is in causal order, what is stored was sent, and a parent of a pending certificate
  -- is missing or was sent.
  pub record SendsInOrder (s : CertificateManager) : Type 0 where
    pub keyed : IsKeyedByDigest s.pending
    pub stored : (d : ℕ) {x : Certificate} → lookup d s.store.certificates ≡ some x → Sent s d
    pub waiting : Waits genesis s.pending (Sent s)
    pub ordered : IsOrdered genesis s.gc_round (λ q. Memᴰ q []) s.sent_certificates

  -- A parent that is not missing from the store was sent.
  in_store_or_missing :
      (s : CertificateManager) (x : Certificate)
      → SendsInOrder s
      → (q : ℕ) → Memᴰ q (parents x)
      → Memᴰ q (filter (λ d. not (contains_certificate d s.store)) (parents x)) ⊎ Sent s q
  unfolding contains_certificate
  in_store_or_missing s x h q m = elim (Option-cases (lookup q s.store.certificates)) [
    | inl e ↦ inl (
        (mem-filter (λ d. not (contains_certificate d s.store)) q (parents x)).1
          (m, ground (arith, e)))
    | inr (y, e) ↦ inr (h.stored q e)
  ]

  -- A parent that is not awaited is a genesis certificate or was sent.
  awaited-nil :
      (s : CertificateManager) (x : Certificate)
      → SendsInOrder s
      → awaited c genesis s x ≡ ok []
      → IsPlaced genesis s.gc_round (Sent s) x
  unfolding awaited get_missing_parents
  awaited-nil s x h e = elim (Bool-cases (leb (round x) (add_u32 s.gc_round 1))) [
    | inl below ↦ inl below
    | inr above ↦ inr (λ q m. elim (Bool-cases (round x == 1)) [
      | inl one ↦ elim (Option-cases (missing_among genesis (parents x))) [
        | inl known ↦ inl (missing_among-none genesis (parents x) known q m)
        | inr (d, unknown) ↦
            absurd (cc (rw (awaited, get_missing_parents, above, one, unknown) at e))
      ]
      | inr later ↦
          let none_missing = ok-injective (rw (awaited, get_missing_parents, above, later) at e) in
          ⊎_elim (λ miss. absurd (Memᴰ.not-nil (subst (Memᴰ q) none_missing miss))) inr
            (in_store_or_missing s x h q m)
    ])
  ]

  awaited-cons :
      (s : CertificateManager) (x : Certificate) {d : ℕ} {ds : List ℕ}
      → SendsInOrder s
      → awaited c genesis s x ≡ ok (d ∷ ds)
      → (q : ℕ) → Memᴰ q (parents x)
      → Memᴰ q (d ∷ ds) ⊎ Sent s q
  unfolding awaited get_missing_parents
  awaited-cons s x {d} {ds} h e q m = elim (Bool-cases (leb (round x) (add_u32 s.gc_round 1))) [
    | inl below ↦ absurd (cc (rw (awaited, below) at e))
    | inr above ↦ elim (Bool-cases (round x == 1)) [
      | inl one ↦ elim (Option-cases (missing_among genesis (parents x))) [
        | inl known ↦ absurd (cc (rw (awaited, get_missing_parents, above, one, known) at e))
        | inr (y, unknown) ↦
            absurd (cc (rw (awaited, get_missing_parents, above, one, unknown) at e))
      ]
      | inr later ↦
          ⊎_elim
            (λ miss. inl (
              subst (Memᴰ q) (ok-injective (rw (awaited, get_missing_parents, above, later) at e))
                miss))
            inr (in_store_or_missing s x h q m)
    ]
  ]

  abbrev waiting_for : Certificate → List ℕ → PendingCertificate
  waiting_for x missing = record { certificate = x; missing_parent_digests = missing }

  lookup-insert_pending :
      (m : PendingCertificateManager) (x : Certificate) (missing : List ℕ) (d : ℕ)
      → lookup d (insert_pending m x missing).0.pending
        ≡ (if digest x == d then some (waiting_for x missing) else lookup d m.pending)
  unfolding insert_pending
  lookup-insert_pending m x missing d = elim (Option-cases (lookup (digest x) m.pending)) [
    | inl e ↦ rw (insert_pending, e) (lookup-insert (digest x) d (waiting_for x missing) m.pending)
    | inr (p, e) ↦ ground (arith, e, lookup-insert (digest x) d (waiting_for x missing) m.pending)
  ]

  suspend-SendsInOrder :
      (s : CertificateManager) (x : Certificate) (missing : List ℕ)
      → SendsInOrder s
      → ((q : ℕ) → Memᴰ q (parents x) → Memᴰ q missing ⊎ Sent s q)
      → SendsInOrder (suspend c genesis s x missing).0
  unfolding suspend
  suspend-SendsInOrder s x missing h g = record {
    keyed = insert_pending-IsKeyedByDigest s.pending x missing h.keyed;
    stored = h.stored;
    waiting = λ d p e q m. elim (Bool-cases (digest x == d)) [
      | inl same ↦
          let new : waiting_for x missing ≡ p =
            some_inj.0 (ground (arith, lookup-insert_pending s.pending x missing d, e, same)) in
          subst
            (λ (y : PendingCertificate).
              Memᴰ q (parents y.certificate) → Memᴰ q y.missing_parent_digests ⊎ Sent s q)
            new (g q) m
      | inr other ↦
          h.waiting d p (ground (arith, lookup-insert_pending s.pending x missing d, e, other)) q m
    ];
    ordered = h.ordered;
  }

  sent_append :
      (s : CertificateManager) (xs : List Certificate) (q : ℕ)
      → Sent s q ⊎ Memᴰ q (map digest xs)
      → Memᴰ q (map digest (s.sent_certificates ++ xs))
  sent_append s xs q h =
      rw (map-append digest s.sent_certificates xs)
        ((mem-append q (map digest s.sent_certificates) (map digest xs)).1 h)

  -- The certificates are accepted, where what stays pending agrees.
  accept-SendsInOrder :
      (s : CertificateManager) (m : PendingCertificateManager) (xs : List Certificate)
      → SendsInOrder s
      → IsKeyedByDigest m
      → Waits genesis m (λ q. Sent s q ⊎ Memᴰ q (map digest xs))
      → IsOrdered genesis s.gc_round (Sent s) xs
      → SendsInOrder (accept_verified_certificates c genesis (record s { pending = m }) xs)
  unfolding accept_verified_certificates
  accept-SendsInOrder s m xs h k w o =
      let now : CertificateManager = record s { pending = m; store = write_all xs s.store } in
      record {
        keyed = rw (pending-accept_each c xs now) k;
        stored = λ d e. rw (sent-accept_each c xs now) (
            sent_append s xs d (
              ⊎_elim inr (λ old. inl (h.stored d old))
                (of_write_all xs d s.store (rw (store-accept_each c xs now) at e))));
        waiting = λ d p e q r. rw (sent-accept_each c xs now) (
            ⊎_elim inl (λ known. inr (sent_append s xs q known))
              (w d p (rw (pending-accept_each c xs now) at e) q r));
        ordered =
            rw (gc_round-accept_each c xs now, sent-accept_each c xs now)
              (IsOrdered-append genesis s.gc_round (λ q. Memᴰ q []) s.sent_certificates xs h.ordered
                (IsOrdered-mono genesis s.gc_round (Sent s) _ xs (λ q r. inr r) o));
      }

  accept_with_unlocked-SendsInOrder :
      (s : CertificateManager) (x : Certificate)
      → SendsInOrder s
      → IsPlaced genesis s.gc_round (Sent s) x
      → is_broken (accept_with_unlocked c genesis s x).1 ≡ false
      → SendsInOrder (accept_with_unlocked c genesis s x).0
  unfolding accept_with_unlocked
  accept_with_unlocked-SendsInOrder s x h placed sound =
      elim (Result-cases (update_pending s.pending (round x) (digest x))) [
        | inr ((failure, left), e) ↦ absurd (cc (rw (accept_with_unlocked, e) at sound))
        | inl (u, e) ↦
            let (order, kept) = update_pending-InOrder s.pending (digest x) (round x) h.keyed e in
            rw (accept_with_unlocked, e)
              (accept-SendsInOrder s u.manager (x ∷ u.ready_certificates) h
                (λ d p at.
                  let (p0, at0, same, g) = kept d p at in ap digest same ∙ h.keyed d p0 at0)
                (λ d p at q m.
                  let (p0, at0, same, g) = kept d p at in
                  elim (h.waiting d p0 at0 q (subst (λ y. Memᴰ q (parents y)) same m)) [
                    | inr known ↦ inr (inl known)
                    | inl miss ↦ elim (g q miss) [
                      | inl still ↦ inl still
                      | inr released ↦ inr (inr (⊎_elim Memᴰ.head Memᴰ.tail released))
                    ]
                  ])
                (
                  placed,
                  of_InOrder genesis s.gc_round s.pending (λ q. q ≡ digest x)
                      (λ q. Sent s q ⊎ (q ≡ digest x)) u.ready_certificates
                      (λ d p at q m. ⊎_elim inl (λ k. inr (inl k)) (h.waiting d p at q m))
                      (λ q r. inr r) order,
                ))
      ]

  process_one-SendsInOrder :
      (s : CertificateManager) (x : Certificate)
      → SendsInOrder s
      → is_broken (process_one c genesis s x).1 ≡ false
      → SendsInOrder (process_one c genesis s x).0
  unfolding process_one
  process_one-SendsInOrder s x h sound = elim (Bool-cases (is_verified x)) [
    | inr e ↦ rw (process_one, e) h
    | inl e ↦ elim (Bool-cases (is_pending s.pending (digest x))) [
      | inl f ↦ rw (process_one, e, f) h
      | inr f ↦ elim (Result-cases (awaited c genesis s x)) [
        | inr (failure, g) ↦ rw (process_one, e, f, g) h
        | inl (missing, g) ↦ elim (List-cases missing) [
          | inl k ↦
              rw (process_one, e, f, g, k)
                (accept_with_unlocked-SendsInOrder s x h (awaited-nil s x h (g ∙ ap ok k))
                  (rw (process_one, e, f, g, k) at sound))
          | inr (d, ds, k) ↦
              rw (process_one, e, f, g, k)
                (suspend-SendsInOrder s x (d ∷ ds) h (awaited-cons s x h (g ∙ ap ok k)))
        ]
      ]
    ]
  ]

  process_all-SendsInOrder :
      (xs : List Certificate) (s : CertificateManager) (result : Result ManagerError (Unit {0}))
      → SendsInOrder s
      → is_broken (process_all c genesis s xs result).1 ≡ false
      → SendsInOrder (process_all c genesis s xs result).0
  unfolding process_all
  process_all-SendsInOrder [] s result h sound = h
  process_all-SendsInOrder (x ∷ xs) s result h sound =
      elim (Result-cases (process_one c genesis s x).1) [
        | inr (failure, e) ↦
            rw (process_all, e)
              (process_one-SendsInOrder s x h (rw e (rw (process_all, e) at sound)))
        | inl (waiting, e) ↦
            let next = process_one-SendsInOrder s x h (rw e refl) in
            elim (Option-cases waiting) [
              | inl k ↦
                  rw (process_all, e, k)
                    (process_all-SendsInOrder xs (process_one c genesis s x).0 result next
                      (rw (process_all, e, k) at sound))
              | inr (d, k) ↦
                  rw (process_all, e, k)
                    (process_all-SendsInOrder xs (process_one c genesis s x).0
                      (err (pending_certificate d)) next (rw (process_all, e, k) at sound))
            ]
      ]

  -- Processing verified certificates keeps the order in which they go to the consensus: a certificate
  -- goes there after all of its parents, unless it is of a round up to the one after garbage
  -- collection or its parents are genesis certificates; what is stored went there; and a parent of a
  -- pending certificate is one that it misses or went there. This holds for every list of
  -- certificates and every result but an error of the pending certificates.
  pub process_verified_certificates-SendsInOrder :
      (s : CertificateManager) (xs : List Certificate)
      → SendsInOrder s
      → is_broken (process_verified_certificates c genesis s xs).1 ≡ false
      → SendsInOrder (process_verified_certificates c genesis s xs).0
  unfolding process_verified_certificates
  process_verified_certificates-SendsInOrder s xs h sound =
      process_all-SendsInOrder xs s (ok tt) h sound
