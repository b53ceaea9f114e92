-- ===== src/Manager/Accepted.antt =====
-- Which certificates are accepted: crates/consensus/primary/src/state_sync/cert_manager.rs.
use mathlib.Core.List.Memᴰ
use telcoin_network.Base.{
  ℕ, ◌≡◌, ◌⊎◌, inl, inr, refl, sym, ap, ◌∙◌, subst, Bool-cases, none, Option-cases, List, [], ◌∷◌,
  List-cases, Memᴰ, mem-append, Result, ok, err, Result-cases,
}
use telcoin_network.Types.Crypto.{Crypto}
use telcoin_network.Types.Certificate.{Certificate, round, digest, is_verified}
use telcoin_network.Committee.{Committee}
use telcoin_network.Pending.{PendingCertificateManager, insert_pending, is_pending, update_pending}
use telcoin_network.Storage.Certificates.{write_all}
use telcoin_network.Manager.{
  ManagerError, pending_certificate, CertificateManager, accept_verified_certificates, suspend,
  accept_with_unlocked, awaited, process_one, process_all, process_verified_certificates,
}
use telcoin_network.Manager.Placed.{sent-accept_each}

module _ ⦃crypto : Crypto⦄ (c : Committee) (genesis : List ℕ) where
  -- What was sent stays, and a certificate that is accepted is sent.
  abbrev Keeps : CertificateManager → CertificateManager → Type 0
  Keeps s next = (y : Certificate) → Memᴰ y s.sent_certificates → Memᴰ y next.sent_certificates

  accepted_with :
      (s : CertificateManager) (m : PendingCertificateManager) (xs : List Certificate)
      (y : Certificate)
      → Memᴰ y s.sent_certificates ⊎ Memᴰ y xs
      → Memᴰ y
          (accept_verified_certificates c genesis (record s { pending = m }) xs).sent_certificates
  unfolding accept_verified_certificates
  accepted_with s m xs y h =
      let now : CertificateManager = record s { pending = m; store = write_all xs s.store } in
      rw (sent-accept_each c xs now) ((mem-append y s.sent_certificates xs).1 h)

  accept_with_unlocked-sends :
      (s : CertificateManager) (x : Certificate)
      → Keeps s (accept_with_unlocked c genesis s x).0
        × ((accept_with_unlocked c genesis s x).1 ≡ ok none
            → Memᴰ x (accept_with_unlocked c genesis s x).0.sent_certificates)
  unfolding accept_with_unlocked
  accept_with_unlocked-sends s x =
      elim (Result-cases (update_pending s.pending (round x) (digest x))) [
        | inr ((failure, left), e) ↦ rw (accept_with_unlocked, e) (λ y m. m, λ h. cc)
        | inl (u, e) ↦
            rw (accept_with_unlocked, e)
              (
                λ y m. accepted_with s u.manager (x ∷ u.ready_certificates) y (inl m),
                λ h. accepted_with s u.manager (x ∷ u.ready_certificates) x (inr (Memᴰ.head refl)),
              )
      ]

  suspend-waits :
      (s : CertificateManager) (x : Certificate) (missing : List ℕ)
      → (suspend c genesis s x missing).1 ≡ ok none
      → Memᴰ x (suspend c genesis s x missing).0.sent_certificates
  unfolding suspend
  suspend-waits s x missing h = elim (Result-cases (insert_pending s.pending x missing).1) [
    | inl (done, e) ↦ absurd (cc (rw (suspend, e) at h))
    | inr (failure, e) ↦ absurd (cc (rw (suspend, e) at h))
  ]

  process_one-sends :
      (s : CertificateManager) (x : Certificate)
      → Keeps s (process_one c genesis s x).0
        × ((process_one c genesis s x).1 ≡ ok none
            → Memᴰ x (process_one c genesis s x).0.sent_certificates)
  unfolding process_one suspend
  process_one-sends s x = elim (Bool-cases (is_verified x)) [
    | inr e ↦ rw (process_one, e) (λ y m. m, λ h. cc)
    | inl e ↦ elim (Bool-cases (is_pending s.pending (digest x))) [
      | inl f ↦ rw (process_one, e, f) (λ y m. m, λ h. cc)
      | inr f ↦ elim (Result-cases (awaited c genesis s x)) [
        | inr (failure, g) ↦ rw (process_one, e, f, g) (λ y m. m, λ h. cc)
        | inl (missing, g) ↦ elim (List-cases missing) [
          | inl k ↦ rw (process_one, e, f, g, k) (accept_with_unlocked-sends s x)
          | inr (d, ds, k) ↦ rw (process_one, e, f, g, k) (λ y m. m, suspend-waits s x (d ∷ ds))
        ]
      ]
    ]
  ]

  process_all-sends :
      (xs : List Certificate) (s : CertificateManager) (result : Result ManagerError (Unit {0}))
      → Keeps s (process_all c genesis s xs result).0
        × ((process_all c genesis s xs result).1 ≡ ok tt
            → (result ≡ ok tt)
              × ((x : Certificate)
                  → Memᴰ x xs
                  → Memᴰ x (process_all c genesis s xs result).0.sent_certificates))
  unfolding process_all
  process_all-sends [] s result = (λ y m. m, λ h. (h, λ x m. absurd (Memᴰ.not-nil m)))
  process_all-sends (x ∷ xs) s result =
      let (kept, sent) = process_one-sends s x in
      elim (Result-cases (process_one c genesis s x).1) [
        | inr (failure, e) ↦ rw (process_all, e) (kept, λ h. cc)
        | inl (waiting, e) ↦ elim (Option-cases waiting) [
          | inl k ↦
              let (later, done) = process_all-sends xs (process_one c genesis s x).0 result in
              rw (process_all, e, k)
                (
                  λ y m. later y (kept y m),
                  λ h. (
                    (done h).0,
                    λ y m. elim (Memᴰ.cases_cons m) [
                      | inl same ↦ later y (
                          subst (λ z. Memᴰ z (process_one c genesis s x).0.sent_certificates)
                            (sym same) (sent (e ∙ ap ok k)))
                      | inr at ↦ (done h).1 y at
                    ],
                  ),
                )
          | inr (d, k) ↦
              let (later, done) =
                process_all-sends xs (process_one c genesis s x).0 (err (pending_certificate d)) in
              rw (process_all, e, k) (λ y m. later y (kept y m), λ h. absurd (cc ((done h).0)))
        ]
      ]

  -- If processing ends with Ok, every certificate of the list has gone to the consensus; and what went
  -- there before stays, whatever the result.
  pub process_verified_certificates-sends :
      (s : CertificateManager) (xs : List Certificate)
      → ((y : Certificate)
          → Memᴰ y s.sent_certificates
          → Memᴰ y (process_verified_certificates c genesis s xs).0.sent_certificates)
        × ((process_verified_certificates c genesis s xs).1 ≡ ok tt
            → (x : Certificate) → Memᴰ x xs
            → Memᴰ x (process_verified_certificates c genesis s xs).0.sent_certificates)
  unfolding process_verified_certificates
  process_verified_certificates-sends s xs =
      let (kept, done) = process_all-sends xs s (ok tt) in (kept, λ h. (done h).1)
