-- ===== src/Manager/Placed.antt =====
-- Certificates in causal order, for the manager of
-- crates/consensus/primary/src/state_sync/cert_manager.rs.
use mathlib.Core.List.Memᴰ
use mathlib.Core.List.{append-nil, append_assoc}
use mathlib.Core.Logic.{⊎_elim}
use telcoin_network.Base.{
  ℕ, ◌≡◌, ◌⊎◌, inl, inr, refl, sym, ◌∙◌, subst, Bool, true, false, leb, some, List, [], ◌∷◌, ◌++◌,
  map, Memᴰ, Result, err, add_u32,
}
use telcoin_network.Base.Map.{lookup}
use telcoin_network.Types.Crypto.{Crypto}
use telcoin_network.Types.Certificate.{Certificate, round, parents, digest}
use telcoin_network.Committee.{Committee}
use telcoin_network.Pending.{PendingCertificate, PendingCertificateManager}
use telcoin_network.Pending.Release.{InOrder}
use telcoin_network.Manager.{
  ManagerError, pending_error, CertificateManager, append_parent, accept_each,
}

-- The result is an error of the pending certificates.
abbrev pub is_broken : {A : Type 0} → Result ManagerError A → Bool
is_broken (err (pending_error e)) = true
is_broken _ = false

module _ (c : Committee) where
  pub sent-accept_each :
      (xs : List Certificate) (s : CertificateManager)
      → (accept_each c xs s).sent_certificates ≡ s.sent_certificates ++ xs
  unfolding accept_each append_parent
  sent-accept_each [] s = sym (append-nil s.sent_certificates)
  sent-accept_each (x ∷ xs) s = sent-accept_each xs _ ∙ append_assoc s.sent_certificates (x ∷ []) xs

  pub pending-accept_each :
      (xs : List Certificate) (s : CertificateManager) → (accept_each c xs s).pending ≡ s.pending
  unfolding accept_each append_parent
  pending-accept_each [] s = refl
  pending-accept_each (x ∷ xs) s = pending-accept_each xs _

  pub store-accept_each :
      (xs : List Certificate) (s : CertificateManager) → (accept_each c xs s).store ≡ s.store
  unfolding accept_each append_parent
  store-accept_each [] s = refl
  store-accept_each (x ∷ xs) s = store-accept_each xs _

  pub gc_round-accept_each :
      (xs : List Certificate) (s : CertificateManager) → (accept_each c xs s).gc_round ≡ s.gc_round
  unfolding accept_each append_parent
  gc_round-accept_each [] s = refl
  gc_round-accept_each (x ∷ xs) s = gc_round-accept_each xs _

module _ ⦃crypto : Crypto⦄ (genesis : List ℕ) where
  -- The certificate is of a round up to the one after garbage collection, or its parents are genesis
  -- certificates or known.
  abbrev pub IsPlaced : ℕ → (ℕ → Type 0) → Certificate → Type 0
  IsPlaced gc known x =
      (leb (round x) (add_u32 gc 1) ≡ true)
      ⊎ ((q : ℕ) → Memᴰ q (parents x) → Memᴰ q genesis ⊎ known q)

  -- Each certificate is placed where those before it are known.
  abbrev pub IsOrdered : ℕ → (ℕ → Type 0) → List Certificate → Type 0
  IsOrdered gc known [] = Unit
  IsOrdered gc known (x ∷ xs) =
      IsPlaced gc known x × IsOrdered gc (λ q. known q ⊎ (q ≡ digest x)) xs

  pub IsPlaced-mono :
      (gc : ℕ) (known more : ℕ → Type 0) (x : Certificate)
      → ((q : ℕ) → known q → more q)
      → IsPlaced gc known x
      → IsPlaced gc more x
  IsPlaced-mono gc known more x f (inl h) = inl h
  IsPlaced-mono gc known more x f (inr h) = inr (λ q m. ⊎_elim inl (λ k. inr (f q k)) (h q m))

  pub IsOrdered-mono :
      (gc : ℕ) (known more : ℕ → Type 0) (xs : List Certificate)
      → ((q : ℕ) → known q → more q)
      → IsOrdered gc known xs
      → IsOrdered gc more xs
  IsOrdered-mono gc known more [] f h = tt
  IsOrdered-mono gc known more (x ∷ xs) f (now, later) = (
    IsPlaced-mono gc known more x f now,
    IsOrdered-mono gc (λ q. known q ⊎ (q ≡ digest x)) (λ q. more q ⊎ (q ≡ digest x)) xs
        (λ q r. ⊎_elim (λ k. inl (f q k)) inr r) later,
  )

  pub IsOrdered-append :
      (gc : ℕ) (known : ℕ → Type 0) (xs ys : List Certificate)
      → IsOrdered gc known xs
      → IsOrdered gc (λ q. known q ⊎ Memᴰ q (map digest xs)) ys
      → IsOrdered gc known (xs ++ ys)
  IsOrdered-append gc known [] ys h g =
      IsOrdered-mono gc (λ q. known q ⊎ Memᴰ q []) known ys
        (λ q r. ⊎_elim (λ k. k) (λ m. absurd (Memᴰ.not-nil m)) r) g
  IsOrdered-append gc known (x ∷ xs) ys (now, later) g = (
    now,
    IsOrdered-append gc (λ q. known q ⊎ (q ≡ digest x)) xs ys later
        (IsOrdered-mono gc _ _ ys
          (λ q r. elim r [
            | inl k ↦ inl (inl k)
            | inr m ↦ elim (Memᴰ.cases_cons m) [ inl e ↦ inl (inr e) | inr t ↦ inr t ]
          ])
          g),
  )

  -- A parent of a pending certificate is missing or known.
  abbrev pub Waits : PendingCertificateManager → (ℕ → Type 0) → Type 0
  Waits m known =
      (d : ℕ) (p : PendingCertificate)
      → lookup d m.pending ≡ some p
      → (q : ℕ) → Memᴰ q (parents p.certificate)
      → Memᴰ q p.missing_parent_digests ⊎ known q

  pub of_InOrder :
      (gc : ℕ) (m : PendingCertificateManager) (released known : ℕ → Type 0) (xs : List Certificate)
      → Waits m known
      → ((q : ℕ) → released q → known q)
      → InOrder m released xs
      → IsOrdered gc known xs
  of_InOrder gc m released known [] w f h = tt
  of_InOrder gc m released known (x ∷ xs) w f (now, later) =
      let (p, at, same, g) = now in
      (
        inr (λ q r. inr (
            ⊎_elim (λ miss. f q (g q miss)) (λ k. k)
              (w (digest x) p at q (subst (λ y. Memᴰ q (parents y)) same r)))),
        of_InOrder gc m (λ q. released q ⊎ (q ≡ digest x)) (λ q. known q ⊎ (q ≡ digest x)) xs
            (λ d p' e q r. ⊎_elim inl (λ k. inr (inl k)) (w d p' e q r))
            (λ q r. ⊎_elim (λ k. inl (f q k)) inr r) later,
      )
