-- ===== src/Manager/Collected.antt =====
-- The loop of `process_gc_round`: crates/consensus/primary/src/state_sync/cert_manager.rs.
use mathlib.Core.Option.{some_inj}
use mathlib.Core.List.Memᴰ
use telcoin_network.Base.{
  ℕ, zero, suc, ◌≤◌, ◌<◌, ◌≡◌, sym, ap, ◌∙◌, subst, Bool-cases, ltb, inl, inr, none, some,
  Option-cases, List, ◌∷◌, List-cases, length, ok, Result-cases, arith, All, All-intro, All-mem,
  Memᴰ, ltb→lt,
}
use telcoin_network.Base.Map.{lookup}
use telcoin_network.Types.Crypto.{Crypto}
use telcoin_network.Types.Certificate.{Certificate}
use telcoin_network.Committee.{Committee}
use telcoin_network.Pending.{
  Blocked, PendingCertificateManager, Update, update_pending, next_for_gc_round,
}
use telcoin_network.Pending.Missing.{
  blocked, InRounds, update_pending-first, update_pending-InRounds,
}
use telcoin_network.Storage.Certificates.{write_all}
use telcoin_network.Manager.{
  CertificateManager, accept_verified_certificates, collect_rounds, process_gc_round,
}
use telcoin_network.Manager.Placed.{pending-accept_each, gc_round-accept_each}

module _ ⦃crypto : Crypto⦄ (c : Committee) (genesis : List ℕ) where
  -- Handling a collected round leaves the other entries only.
  next-blocked :
      (m : PendingCertificateManager) (gc r d : ℕ)
      → (next_for_gc_round m gc).1 ≡ some (r, d)
      → (b : Blocked) × (rest : List Blocked) × (m.missing_for_pending ≡ b ∷ rest)
        × (b.round ≡ r)
        × (b.parent ≡ d)
        × ((next_for_gc_round m gc).0.missing_for_pending ≡ b ∷ rest)
  unfolding next_for_gc_round
  next-blocked m gc r d h = elim (List-cases m.missing_for_pending) [
    | inl e ↦ absurd (cc (rw (next_for_gc_round, e) at h))
    | inr (b, rest, e) ↦ elim (Bool-cases (ltb gc b.round)) [
      | inl above ↦ absurd (cc (rw (next_for_gc_round, e, above) at h))
      | inr here ↦
          let same : (b.round, b.parent) ≡ (r, d) =
            some_inj.0 (rw (next_for_gc_round, e, here) at h) in
          (
            b,
            rest,
            e,
            ap (λ k. k.0) same,
            ap (λ k. k.1) same,
            elim (Option-cases (lookup b.parent m.pending)) [
              | inl f ↦ rw (next_for_gc_round, e, here, f) e
              | inr (p, f) ↦ rw (next_for_gc_round, e, here, f) e
            ],
          )
    ]
  ]

  next-same :
      (m : PendingCertificateManager) (gc : ℕ)
      → (next_for_gc_round m gc).1 ≡ none
      → (next_for_gc_round m gc).0 ≡ m
  unfolding next_for_gc_round
  next-same m gc h = elim (List-cases m.missing_for_pending) [
    | inl e ↦ ground (arith, e)
    | inr (b, rest, e) ↦ elim (Bool-cases (ltb gc b.round)) [
      | inl above ↦ ground (arith, e, above)
      | inr here ↦ absurd (ground (arith, e, here, h))
    ]
  ]

  fewer :
      (m : PendingCertificateManager) (gc r d : ℕ) {u : Update}
      → (next_for_gc_round m gc).1 ≡ some (r, d)
      → update_pending (next_for_gc_round m gc).0 r d ≡ ok u
      → blocked u.manager < blocked m
  fewer m gc r d {u} e g =
      let (b, rest, here, same_round, same_parent, there) = next-blocked m gc r d e in
      let g' : update_pending (next_for_gc_round m gc).0 b.round b.parent ≡ ok u =
        rw (same_round, same_parent) g in
      omega (arith, ap length here, update_pending-first (next_for_gc_round m gc).0 b rest there g')

  accepted_fields :
      (s : CertificateManager) (xs : List Certificate)
      → ((accept_verified_certificates c genesis s xs).pending ≡ s.pending)
        × ((accept_verified_certificates c genesis s xs).gc_round ≡ s.gc_round)
  unfolding accept_verified_certificates
  accepted_fields s xs =
      let now : CertificateManager = record s { store = write_all xs s.store } in
      (pending-accept_each c xs now, gc_round-accept_each c xs now)

  -- The first entry tells for all.
  next-above :
      (m : PendingCertificateManager) (gc : ℕ) (x : Blocked)
      → InRounds m.missing_for_pending
      → (next_for_gc_round m gc).1 ≡ none
      → Memᴰ x m.missing_for_pending
      → gc < x.round
  unfolding next_for_gc_round
  next-above m gc x sorted h at = elim (List-cases m.missing_for_pending) [
    | inl e ↦ absurd (Memᴰ.not-nil (subst (Memᴰ x) e at))
    | inr (b, rest, e) ↦ elim (Bool-cases (ltb gc b.round)) [
      | inr here ↦ absurd (ground (arith, e, here, h))
      | inl above ↦
          let low = (subst InRounds e sorted).0 in
          elim (Memᴰ.cases_cons (subst (Memᴰ x) e at)) [
            | inl same ↦ rw same (ltb→lt gc b.round above)
            | inr later ↦
                let le = All-mem (λ (y : Blocked). b.round ≤ y.round) low later in
                omega (arith, ltb→lt gc b.round above, le)
          ]
    ]
  ]

  collect_rounds-ends :
      (fuel : ℕ) (s : CertificateManager)
      → blocked s.pending < fuel
      → InRounds s.pending.missing_for_pending
      → (collect_rounds c genesis fuel s).1 ≡ ok tt
      → (x : Blocked) → Memᴰ x (collect_rounds c genesis fuel s).0.pending.missing_for_pending
      → s.gc_round < x.round
  unfolding collect_rounds
  collect_rounds-ends zero s le sorted h = absurd (omega (arith, le))
  collect_rounds-ends (suc fuel) s le sorted h =
      elim (Option-cases (next_for_gc_round s.pending s.gc_round).1) [
        | inl e ↦
            rw (collect_rounds, e)
              (λ x at. next-above s.pending s.gc_round x sorted e (
                subst (λ (m : PendingCertificateManager). Memᴰ x m.missing_for_pending)
                  (next-same s.pending s.gc_round e) at))
        | inr ((r, d), e) ↦
            let m : PendingCertificateManager = (next_for_gc_round s.pending s.gc_round).0 in
            elim (Result-cases (update_pending m r d)) [
              | inr ((failure, left), g) ↦ absurd (cc (rw (collect_rounds, e, g) at h))
              | inl (u, g) ↦
                  let next =
                    accept_verified_certificates c genesis (record s { pending = u.manager })
                      u.ready_certificates in
                  let (same, gc) =
                    accepted_fields (record s { pending = u.manager }) u.ready_certificates in
                  let (b, rest, here, _, _, there) = next-blocked s.pending s.gc_round r d e in
                  let kept : InRounds next.pending.missing_for_pending =
                    subst (λ (k : PendingCertificateManager). InRounds k.missing_for_pending)
                      (sym same)
                      (update_pending-InRounds m r d g
                        (subst InRounds (here ∙ sym there) sorted)) in
                  rw (collect_rounds, e, g)
                    (subst
                      (λ k.
                        (x : Blocked)
                        → Memᴰ x (collect_rounds c genesis fuel next).0.pending.missing_for_pending
                        → k < x.round)
                      gc
                      (collect_rounds-ends fuel next
                        (omega (arith, le, ap blocked same, fewer s.pending s.gc_round r d e g))
                        kept (rw (collect_rounds, e, g) at h)))
            ]
      ]

  -- If the handling of the collected round ends without an error, every certificate that is still
  -- missing is of a round above the collected one: the fuel, one step for each missing certificate
  -- and one more, is enough. The missing certificates were in the order of their rounds before.
  pub process_gc_round-ends :
      (s : CertificateManager)
      → InRounds s.pending.missing_for_pending
      → (process_gc_round c genesis s).1 ≡ ok tt
      → All
          (λ (x : Blocked). s.gc_round < x.round)
          (process_gc_round c genesis s).0.pending.missing_for_pending
  unfolding process_gc_round
  process_gc_round-ends s sorted h =
      All-intro (λ (x : Blocked). s.gc_round < x.round)
        (process_gc_round c genesis s).0.pending.missing_for_pending
        (collect_rounds-ends (suc (length s.pending.missing_for_pending)) s (omega arith) sorted h)
