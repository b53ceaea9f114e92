-- ===== src/Pending/Release.antt =====
-- `update_pending`: the certificates that it releases and their parents.
use mathlib.Core.List.Memᴰ
use mathlib.Core.List.{map-append}
use mathlib.Core.Logic.{⊎_elim}
use telcoin_network.Base.{
  ℕ, zero, suc, ◌≡◌, ◌⊎◌, refl, sym, subst, ap, ◌∙◌, ◌==◌, ==_iff, not, true, some, Option-cases,
  List, [], ◌∷◌, ◌++◌, List-cases, ok, Result-cases, ok-injective, arith, Bool-cases, inl, inr, map,
  Memᴰ, mem-filter, mem-append,
}
use telcoin_network.Base.Map.{lookup, replace, remove, lookup-insert, lookup-replace, lookup-remove}
use telcoin_network.Types.Crypto.{Crypto}
use telcoin_network.Types.Certificate.{Certificate, round, digest}
use telcoin_network.Pending.{
  PendingCertificate, PendingCertificateManager, Update, without, is_ready, remove_parent, unblock,
  wake, wake_all, process, start_update, insert_pending, update_pending, num_pending,
}

mem-without : (x q : ℕ) (xs : List ℕ) → Memᴰ x xs → (x ≡ q) ⊎ Memᴰ x (without q xs)
unfolding without
mem-without x q xs m = elim (Bool-cases (x == q)) [
  | inl e ↦ inl ((==_iff x q).0 e)
  | inr e ↦ inr ((mem-filter (λ y. not (y == q)) x xs).1 (m, ap not e))
]

last_parent :
    (x q : ℕ) (p : PendingCertificate)
    → is_ready (remove_parent p q) ≡ true
    → Memᴰ x p.missing_parent_digests
    → x ≡ q
unfolding is_ready remove_parent
last_parent x q p h m = elim (mem-without x q p.missing_parent_digests m) [
  | inl e ↦ e
  | inr k ↦ elim (List-cases (without q p.missing_parent_digests)) [
    | inl e ↦ absurd (Memᴰ.not-nil (subst (Memᴰ x) e k))
    | inr (y, ys, e) ↦ cc (rw (e) at h)
  ]
]

module _ ⦃crypto : Crypto⦄ where
  -- Every pending certificate stands under its digest.
  abbrev pub IsKeyedByDigest : PendingCertificateManager → Type 0
  IsKeyedByDigest m =
      (d : ℕ) (p : PendingCertificate) → lookup d m.pending ≡ some p → digest p.certificate ≡ d

  -- The insertion of a pending certificate keeps the map keyed, also where it ends in an error.
  pub insert_pending-IsKeyedByDigest :
      (m : PendingCertificateManager) (c : Certificate) (missing : List ℕ)
      → IsKeyedByDigest m
      → IsKeyedByDigest (insert_pending m c missing).0
  unfolding insert_pending
  insert_pending-IsKeyedByDigest m c missing keyed d p =
      elim (Option-cases (lookup (digest c) m.pending)) [
        | inl e ↦
            rw (e, insert_pending)
              (ground (
                arith,
                lookup-insert (digest c) d
                    (record { certificate = c; missing_parent_digests = missing }) m.pending,
                keyed d p,
              ))
        | inr (q, e) ↦ ground (
          arith,
          e,
          lookup-insert (digest c) d (record { certificate = c; missing_parent_digests = missing })
              m.pending,
          keyed d p,
        )
      ]

  -- Each certificate of the list was pending, and each parent that it was missing is known or that of
  -- a certificate before it.
  abbrev pub InOrder : PendingCertificateManager → (ℕ → Type 0) → List Certificate → Type 0
  InOrder m known [] = Unit
  InOrder m known (c ∷ rest) =
      ((p : PendingCertificate) × (lookup (digest c) m.pending ≡ some p)
        × (c ≡ p.certificate)
        × ((q : ℕ) → Memᴰ q p.missing_parent_digests → known q))
      × InOrder m (λ q. known q ⊎ (q ≡ digest c)) rest

  InOrder-mono :
      (m : PendingCertificateManager) (known more : ℕ → Type 0) (cs : List Certificate)
      → ((q : ℕ) → known q → more q)
      → InOrder m known cs
      → InOrder m more cs
  InOrder-mono m known more [] f h = tt
  InOrder-mono m known more (c ∷ cs) f (now, later) =
      let (p, at, same, g) = now in
      (
        (p, at, same, λ q r. f q (g q r)),
        InOrder-mono m (λ q. known q ⊎ (q ≡ digest c)) (λ q. more q ⊎ (q ≡ digest c)) cs
            (λ q r. ⊎_elim (λ k. inl (f q k)) inr r) later,
      )

  InOrder-append :
      (m : PendingCertificateManager) (known : ℕ → Type 0) (cs : List Certificate) (c : Certificate)
      (p : PendingCertificate)
      → lookup (digest c) m.pending ≡ some p
      → c ≡ p.certificate
      → ((q : ℕ) → Memᴰ q p.missing_parent_digests → known q ⊎ Memᴰ q (map digest cs))
      → InOrder m known cs
      → InOrder m known (cs ++ (c ∷ []))
  InOrder-append m known [] c p at same g h =
      ((p, at, same, λ q r. ⊎_elim (λ k. k) (λ k. absurd (Memᴰ.not-nil k)) (g q r)), tt)
  InOrder-append m known (x ∷ cs) c p at same g (now, later) = (
    now,
    InOrder-append m (λ q. known q ⊎ (q ≡ digest x)) cs c p at same
        (λ q r. elim (g q r) [
          | inl k ↦ inl (inl k)
          | inr k ↦ elim (Memᴰ.cases_cons k) [ inl e ↦ inl (inr e) | inr t ↦ inr t ]
        ])
        later,
  )

module _ ⦃crypto : Crypto⦄ (m0 : PendingCertificateManager) (accepted : ℕ) where
  -- The digest that was accepted, and those of the certificates that are ready.
  abbrev pub Released : Update → ℕ → Type 0
  Released u q = (q ≡ accepted) ⊎ Memᴰ q (map digest u.ready_certificates)

  record Sound (u : Update) : Type 0 where
    kept :
        (d : ℕ) (p : PendingCertificate)
        → lookup d u.manager.pending ≡ some p
        → (p0 : PendingCertificate) × (lookup d m0.pending ≡ some p0)
          × (p.certificate ≡ p0.certificate)
          × ((q : ℕ)
              → Memᴰ q p0.missing_parent_digests
              → Memᴰ q p.missing_parent_digests ⊎ Released u q)
    ready :
        (c : Certificate)
        → Memᴰ c u.ready_certificates
        → (p0 : PendingCertificate) × (lookup (digest c) m0.pending ≡ some p0)
          × (c ≡ p0.certificate)
          × ((q : ℕ) → Memᴰ q p0.missing_parent_digests → Released u q)
    queue : (x : ℕ × ℕ) → Memᴰ x u.certificates_to_process → Released u x.1
    order : InOrder m0 (λ q. q ≡ accepted) u.ready_certificates

  -- The release of more certificates.
  Released-append :
      (u : Update) (c : Certificate) (q : ℕ)
      → Released u q
      → (q ≡ accepted) ⊎ Memᴰ q (map digest (u.ready_certificates ++ c ∷ []))
  Released-append u c q h = elim h [
    | inl e ↦ inl e
    | inr m ↦ inr (
        subst (Memᴰ q) (sym (map-append digest u.ready_certificates (c ∷ [])))
          ((mem-append q (map digest u.ready_certificates) (digest c ∷ [])).1 (inl m)))
  ]

  Released-new :
      (u : Update) (c : Certificate) (q : ℕ)
      → q ≡ digest c
      → (q ≡ accepted) ⊎ Memᴰ q (map digest (u.ready_certificates ++ c ∷ []))
  Released-new u c q e = inr (
      subst (Memᴰ q) (sym (map-append digest u.ready_certificates (c ∷ [])))
        ((mem-append q (map digest u.ready_certificates) (digest c ∷ [])).1 (inr (Memᴰ.head e))))

  released :
      (q : ℕ) (u : Update) (d : ℕ) (p : PendingCertificate)
      → IsKeyedByDigest m0
      → Released u q
      → Sound u
      → lookup d u.manager.pending ≡ some p
      → is_ready (remove_parent p q) ≡ true
      → Sound (record {
        manager = record u.manager { pending = remove d u.manager.pending };
        certificates_to_process = u.certificates_to_process ++ (round p.certificate, d) ∷ [];
        ready_certificates = u.ready_certificates ++ p.certificate ∷ [];
      })
  released q u d p keyed now h e f =
      let (p0, at0, same, g) = h.kept d p e in
      let own : digest p.certificate ≡ d = ap digest same ∙ keyed d p0 at0 in
      record {
        kept = λ d' p1 at.
            let (p2, at2, same2, g2) =
              h.kept d' p1 (ground (arith, lookup-remove d d' u.manager.pending)) in
            (
              p2,
              at2,
              same2,
              λ x m. ⊎_elim inl (λ r. inr (Released-append u p.certificate x r)) (g2 x m),
            );
        ready = λ c m. elim ((mem-append c u.ready_certificates (p.certificate ∷ [])).0 m) [
          | inl old ↦
              let (p2, at2, same2, g2) = h.ready c old in
              (p2, at2, same2, λ x k. Released-append u p.certificate x (g2 x k))
          | inr new ↦
              let eq = Memᴰ.eq_of_singleton new in
              (
                p0,
                subst (λ y. lookup y m0.pending ≡ some p0) (sym (ap digest eq ∙ own)) at0,
                eq ∙ same,
                λ x k. Released-append u p.certificate x (
                    ⊎_elim (λ miss. subst (Released u) (sym (last_parent x q p f miss)) now)
                      (λ r. r) (g x k)),
              )
        ];
        queue = λ x m.
            elim ((mem-append x u.certificates_to_process ((round p.certificate, d) ∷ [])).0 m) [
              | inl old ↦ Released-append u p.certificate x.1 (h.queue x old)
              | inr new ↦
                  Released-new u p.certificate x.1
                    (ap (λ y. y.1) (Memᴰ.eq_of_singleton new) ∙ sym own)
            ];
        order =
            InOrder-append m0 (λ x. x ≡ accepted) u.ready_certificates p.certificate p0
              (subst (λ y. lookup y m0.pending ≡ some p0) (sym own) at0) same
              (λ x k.
                ⊎_elim (λ miss. subst (Released u) (sym (last_parent x q p f miss)) now) (λ r. r)
                  (g x k))
              h.order;
      }

  waits :
      (q : ℕ) (u : Update) (d : ℕ) (p : PendingCertificate)
      → Released u q
      → Sound u
      → lookup d u.manager.pending ≡ some p
      → Sound (record u {
        manager = record u.manager { pending = replace d (remove_parent p q) u.manager.pending };
      })
  unfolding remove_parent
  waits q u d p now h e = record {
    kept = λ d' p1 at. elim (Bool-cases (d == d')) [
      | inr f ↦
          h.kept d' p1 (ground (arith, lookup-replace d d' p (remove_parent p q) u.manager.pending))
      | inl f ↦
          let p1_is : remove_parent p q ≡ p1 =
            ground (arith, lookup-replace d d' p (remove_parent p q) u.manager.pending) in
          let (p0, at0, same, g) = h.kept d p e in
          subst
            (λ y.
              (p2 : PendingCertificate) × (lookup d' m0.pending ≡ some p2)
              × (y.certificate ≡ p2.certificate)
              × ((x : ℕ)
                  → Memᴰ x p2.missing_parent_digests
                  → Memᴰ x y.missing_parent_digests ⊎ Released u x))
            p1_is
            (
              p0,
              subst (λ k. lookup k m0.pending ≡ some p0) ((==_iff d d').0 f) at0,
              same,
              λ x m. elim (g x m) [
                | inr r ↦ inr r
                | inl miss ↦
                    ⊎_elim (λ z. inr (subst (Released u) (sym z) now)) inl
                      (mem-without x q p.missing_parent_digests miss)
              ],
            )
    ];
    ready = h.ready;
    queue = h.queue;
    order = h.order;
  }

  wake-Sound :
      (q : ℕ) (u : Update) (d : ℕ) {v : Update}
      → IsKeyedByDigest m0
      → Released u q
      → Sound u
      → wake q u d ≡ ok v
      → Sound v × ((x : ℕ) → Released u x → Released v x)
  unfolding wake
  wake-Sound q u d {v} keyed now h k = elim (Option-cases (lookup d u.manager.pending)) [
    | inl e ↦ cc (rw (e, wake) at k)
    | inr (p, e) ↦ elim (Bool-cases (is_ready (remove_parent p q))) [
      | inl f ↦
          subst (λ w. Sound w × ((x : ℕ) → Released u x → Released w x))
            (ok-injective (rw (e, f, wake) at k))
            (released q u d p keyed now h e f, λ x. Released-append u p.certificate x)
      | inr f ↦
          subst (λ w. Sound w × ((x : ℕ) → Released u x → Released w x))
            (ok-injective (rw (e, f, wake) at k)) (waits q u d p now h e, λ x r. r)
    ]
  ]

  wake_all-Sound :
      (q : ℕ) (u : Update) (ds : List ℕ) {v : Update}
      → IsKeyedByDigest m0
      → Released u q
      → Sound u
      → wake_all q u ds ≡ ok v
      → Sound v
  unfolding wake_all
  wake_all-Sound q u [] keyed now h k = subst Sound (ok-injective k) h
  wake_all-Sound q u (d ∷ ds) keyed now h k = elim (Result-cases (wake q u d)) [
    | inr (e, f) ↦ cc (rw (f, wake_all) at k)
    | inl (w, f) ↦
        let (sound, keeps) = wake-Sound q u d keyed now h f in
        wake_all-Sound q w ds keyed (keeps q now) sound (rw (f, wake_all) at k)
  ]

  process-Sound :
      (fuel : ℕ) (u : Update) {v : Update}
      → IsKeyedByDigest m0
      → Sound u
      → process fuel u ≡ ok v
      → Sound v
  unfolding process
  process-Sound zero u keyed h k = subst Sound (ok-injective k) h
  process-Sound (suc fuel) u keyed h k = elim (List-cases u.certificates_to_process) [
    | inl e ↦ subst Sound (ok-injective (rw (e, process) at k)) h
    | inr (x, rest, e) ↦
        let queued =
          λ (y : ℕ × ℕ) (m : Memᴰ y rest). h.queue y (subst (Memᴰ y) (sym e) (Memᴰ.tail m)) in
        elim (Option-cases (unblock u.manager.missing_for_pending x.0 x.1).0) [
          | inl f ↦
              process-Sound fuel (record u { certificates_to_process = rest }) keyed
                (record { kept = h.kept; ready = h.ready; queue = queued; order = h.order })
                (rw (e, f, process) at k)
          | inr (waiting, f) ↦
              let u' : Update = record u {
                manager = record u.manager {
                  missing_for_pending = (unblock u.manager.missing_for_pending x.0 x.1).1;
                };
                certificates_to_process = rest;
              } in
              elim (Result-cases (wake_all x.1 u' waiting)) [
                | inr (y, g) ↦ cc (rw (e, f, g, process) at k)
                | inl (w, g) ↦
                    process-Sound fuel w keyed
                      (wake_all-Sound x.1 u' waiting keyed
                        (h.queue x (subst (Memᴰ x) (sym e) (Memᴰ.head refl)))
                        (record { kept = h.kept; ready = h.ready; queue = queued; order = h.order })
                        g)
                      (rw (e, f, g, process) at k)
              ]
        ]
  ]

  start-Sound : (round : ℕ) → Sound (start_update m0 round accepted)
  start-Sound round = record {
    kept = λ d p e. (p, e, refl, λ q m. inl m);
    ready = λ c m. absurd (Memᴰ.not-nil m);
    queue = λ x m. inl (ap (λ y. y.1) (Memᴰ.eq_of_singleton m));
    order = tt;
  }

  -- Where every pending certificate stands under its digest and the update ends without an error,
  -- every certificate that is released after a digest was accepted was pending, and each parent that
  -- it was missing is the accepted digest or that of a certificate released with it.
  pub update_pending_releases :
      (round : ℕ) {u : Update}
      → IsKeyedByDigest m0
      → update_pending m0 round accepted ≡ ok u
      → (c : Certificate) → Memᴰ c u.ready_certificates
      → (p : PendingCertificate) × (lookup (digest c) m0.pending ≡ some p)
        × (c ≡ p.certificate)
        × ((q : ℕ)
            → Memᴰ q p.missing_parent_digests
            → (q ≡ accepted) ⊎ Memᴰ q (map digest u.ready_certificates))
  unfolding update_pending
  update_pending_releases round keyed h c m =
      (process-Sound (suc (num_pending m0)) (start_update m0 round accepted) keyed
          (start-Sound round) h).ready
        c m

  -- The certificates are released in causal order, and what is left is as it was but for parents that
  -- are known now.
  pub update_pending-InOrder :
      (round : ℕ) {u : Update}
      → IsKeyedByDigest m0
      → update_pending m0 round accepted ≡ ok u
      → InOrder m0 (λ q. q ≡ accepted) u.ready_certificates
        × ((d : ℕ) (p : PendingCertificate)
            → lookup d u.manager.pending ≡ some p
            → (p0 : PendingCertificate) × (lookup d m0.pending ≡ some p0)
              × (p.certificate ≡ p0.certificate)
              × ((q : ℕ)
                  → Memᴰ q p0.missing_parent_digests
                  → Memᴰ q p.missing_parent_digests ⊎ Released u q))
  unfolding update_pending
  update_pending-InOrder round keyed h =
      let sound =
        process-Sound (suc (num_pending m0)) (start_update m0 round accepted) keyed
          (start-Sound round) h in
      (sound.order, sound.kept)
