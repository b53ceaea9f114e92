-- ===== src/Pending/Missing.antt =====
-- The missing certificates that others wait for, their number and their order:
-- crates/consensus/primary/src/state_sync/pending_cert_manager.rs.
use telcoin_network.Base.{
  ℕ, zero, suc, ◌≤◌, ◌≡◌, sym, ap, ◌∙◌, subst, Bool-cases, ltb, inl, inr, some, Option-cases, List,
  [], ◌∷◌, List-cases, length, ok, Result-cases, ok-injective, arith, All, All-map, not, ◌==◌, ◌&&◌,
  ◌||◌,
}
use telcoin_network.Base.Map.{lookup}
use telcoin_network.Types.Crypto.{Crypto}
use telcoin_network.Types.Certificate.{Certificate, digest}
use telcoin_network.Pending.{
  Blocked, insert_pending, block, block_all, same_set, PendingCertificateManager, Update, unblock,
  wake, wake_all, process, update_pending, start_update, num_pending, is_ready, remove_parent,
}

-- The entries that are left.
abbrev pub blocked : PendingCertificateManager → ℕ
blocked m = length m.missing_for_pending

-- The missing certificates are in the order of their rounds, as the keys of a `BTreeMap`.
abbrev pub InRounds : List Blocked → Type 0
InRounds [] = Unit
InRounds (b ∷ rest) = All (λ (x : Blocked). b.round ≤ x.round) rest × InRounds rest

unblock-All :
    (low : ℕ) (m : List Blocked) (r d : ℕ)
    → All (λ (x : Blocked). low ≤ x.round) m
    → All (λ (x : Blocked). low ≤ x.round) (unblock m r d).1
unfolding unblock
unblock-All low [] r d h = tt
unblock-All low (b ∷ rest) r d h = elim (Bool-cases ((b.round == r) && (b.parent == d))) [
  | inl e ↦ rw (unblock, e) h.1
  | inr e ↦ rw (unblock, e) (h.0, unblock-All low rest r d h.1)
]

unblock-InRounds : (m : List Blocked) (r d : ℕ) → InRounds m → InRounds (unblock m r d).1
unfolding unblock
unblock-InRounds [] r d h = tt
unblock-InRounds (b ∷ rest) r d h = elim (Bool-cases ((b.round == r) && (b.parent == d))) [
  | inl e ↦ rw (unblock, e) h.1
  | inr e ↦ rw (unblock, e) (unblock-All b.round rest r d h.0, unblock-InRounds rest r d h.1)
]

block-All :
    (low : ℕ) (m : List Blocked) (r parent d : ℕ)
    → low ≤ r
    → All (λ (x : Blocked). low ≤ x.round) m
    → All (λ (x : Blocked). low ≤ x.round) (block m r parent d)
unfolding block
block-All low [] r parent d le h = (le, tt)
block-All low (b ∷ rest) r parent d le h =
    elim (Bool-cases ((b.round == r) && (b.parent == parent))) [
      | inl e ↦ rw (block, e) h
      | inr e ↦ elim (Bool-cases (ltb r b.round || ((b.round == r) && ltb parent b.parent))) [
        | inl f ↦ rw (block, e, f) (le, h)
        | inr f ↦ rw (block, e, f) (h.0, block-All low rest r parent d le h.1)
      ]
    ]

block-InRounds : (m : List Blocked) (r parent d : ℕ) → InRounds m → InRounds (block m r parent d)
unfolding block
block-InRounds [] r parent d h = (tt, tt)
block-InRounds (b ∷ rest) r parent d h =
    elim (Bool-cases ((b.round == r) && (b.parent == parent))) [
      | inl e ↦ rw (block, e) h
      | inr e ↦ elim (Bool-cases (ltb r b.round || ((b.round == r) && ltb parent b.parent))) [
        | inl f ↦
            let le : r ≤ b.round = ground (arith, f) in
            rw (block, e, f)
              (
                (
                  le,
                  All-map _ _ rest (λ (x : Blocked) (p : b.round ≤ x.round). omega (arith, le, p))
                      h.0,
                ),
                h,
              )
        | inr f ↦
            rw (block, e, f)
              (
                block-All b.round rest r parent d (ground (arith, e, f)) h.0,
                block-InRounds rest r parent d h.1,
              )
      ]
    ]

block_all-InRounds :
    (m : List Blocked) (r : ℕ) (parents : List ℕ) (d : ℕ)
    → InRounds m
    → InRounds (block_all m r parents d)
unfolding block_all
block_all-InRounds m r [] d h = h
block_all-InRounds m r (p ∷ ps) d h =
    block_all-InRounds (block m r p d) r ps d (block-InRounds m r p d h)

unblock-le : (m : List Blocked) (r d : ℕ) → length (unblock m r d).1 ≤ length m
unfolding unblock
unblock-le [] r d = omega arith
unblock-le (b ∷ rest) r d = ground (arith, unblock-le rest r d)

unblock-first :
    (b : Blocked) (rest : List Blocked)
    → unblock (b ∷ rest) b.round b.parent ≡ (some b.waiting, rest)
unfolding unblock
unblock-first b rest = ground arith

wake-blocked :
    (q : ℕ) (u : Update) (d : ℕ) {v : Update}
    → wake q u d ≡ ok v
    → v.manager.missing_for_pending ≡ u.manager.missing_for_pending
unfolding wake
wake-blocked q u d h = elim (Option-cases (lookup d u.manager.pending)) [
  | inl e ↦ absurd (cc (rw (wake, e) at h))
  | inr (p, e) ↦ elim (Bool-cases (is_ready (remove_parent p q))) [
    | inl f ↦
        sym
          (ap (λ (w : Update). w.manager.missing_for_pending) (ok-injective (rw (wake, e, f) at h)))
    | inr f ↦
        sym
          (ap (λ (w : Update). w.manager.missing_for_pending) (ok-injective (rw (wake, e, f) at h)))
  ]
]

pub wake_all-blocked :
    (q : ℕ) (ds : List ℕ) (u : Update) {v : Update}
    → wake_all q u ds ≡ ok v
    → v.manager.missing_for_pending ≡ u.manager.missing_for_pending
unfolding wake_all
wake_all-blocked q [] u h =
    sym (ap (λ (w : Update). w.manager.missing_for_pending) (ok-injective h))
wake_all-blocked q (d ∷ ds) u h = elim (Result-cases (wake q u d)) [
  | inr (e, f) ↦ absurd (cc (rw (wake_all, f) at h))
  | inl (w, f) ↦ wake_all-blocked q ds w (rw (wake_all, f) at h) ∙ wake-blocked q u d f
]

-- The state of the loop after an entry was taken.
abbrev unblocked : Update → ℕ × ℕ → List (ℕ × ℕ) → Update
unblocked u x rest = record u {
  manager = record u.manager {
    missing_for_pending = (unblock u.manager.missing_for_pending x.0 x.1).1;
  };
  certificates_to_process = rest;
}

process-blocked :
    (fuel : ℕ) (u : Update) {v : Update}
    → process fuel u ≡ ok v
    → blocked v.manager ≤ blocked u.manager
unfolding process
process-blocked zero u h = rw (sym (ok-injective h)) (omega arith)
process-blocked (suc fuel) u {v} h = elim (List-cases u.certificates_to_process) [
  | inl e ↦ rw (sym (ok-injective (rw (process, e) at h))) (omega arith)
  | inr (x, rest, e) ↦ elim (Option-cases (unblock u.manager.missing_for_pending x.0 x.1).0) [
    | inl f ↦
        process-blocked fuel (record u { certificates_to_process = rest }) (rw (process, e, f) at h)
    | inr (waiting, f) ↦ elim (Result-cases (wake_all x.1 (unblocked u x rest) waiting)) [
      | inr (y, g) ↦ absurd (cc (rw (process, e, f, g) at h))
      | inl (w, g) ↦ omega (
        arith,
        process-blocked fuel w (rw (process, e, f, g) at h),
        ap length (wake_all-blocked x.1 waiting (unblocked u x rest) g),
        unblock-le u.manager.missing_for_pending x.0 x.1,
      )
    ]
  ]
]

process-InRounds :
    (fuel : ℕ) (u : Update) {v : Update}
    → process fuel u ≡ ok v
    → InRounds u.manager.missing_for_pending
    → InRounds v.manager.missing_for_pending
unfolding process
process-InRounds zero u h p =
    subst (λ (w : Update). InRounds w.manager.missing_for_pending) (ok-injective h) p
process-InRounds (suc fuel) u {v} h p = elim (List-cases u.certificates_to_process) [
  | inl e ↦
      subst (λ (w : Update). InRounds w.manager.missing_for_pending)
        (ok-injective (rw (process, e) at h)) p
  | inr (x, rest, e) ↦ elim (Option-cases (unblock u.manager.missing_for_pending x.0 x.1).0) [
    | inl f ↦
        process-InRounds fuel (record u { certificates_to_process = rest })
          (rw (process, e, f) at h) p
    | inr (waiting, f) ↦ elim (Result-cases (wake_all x.1 (unblocked u x rest) waiting)) [
      | inr (y, g) ↦ absurd (cc (rw (process, e, f, g) at h))
      | inl (w, g) ↦ process-InRounds fuel w (rw (process, e, f, g) at h) (
          subst InRounds (sym (wake_all-blocked x.1 waiting (unblocked u x rest) g))
            (unblock-InRounds u.manager.missing_for_pending x.0 x.1 p))
    ]
  ]
]

pub update_pending-InRounds :
    (m : PendingCertificateManager) (r d : ℕ) {v : Update}
    → update_pending m r d ≡ ok v
    → InRounds m.missing_for_pending
    → InRounds v.manager.missing_for_pending
unfolding update_pending
update_pending-InRounds m r d h p = process-InRounds (suc (num_pending m)) (start_update m r d) h p

-- An update for the first entry takes it away.
pub update_pending-first :
    (m : PendingCertificateManager) (b : Blocked) (rest : List Blocked) {v : Update}
    → m.missing_for_pending ≡ b ∷ rest
    → update_pending m b.round b.parent ≡ ok v
    → blocked v.manager ≤ length rest
unfolding update_pending process
update_pending-first m b rest {v} first h =
    let u = start_update m b.round b.parent in
    let taken = ap (λ k. unblock k b.round b.parent) first ∙ unblock-first b rest in
    let found : (unblock m.missing_for_pending b.round b.parent).0 ≡ some b.waiting =
      ap (λ k. k.0) taken in
    let left : (unblock m.missing_for_pending b.round b.parent).1 ≡ rest = ap (λ k. k.1) taken in
    let next : Update = unblocked u (b.round, b.parent) [] in
    elim (Result-cases (wake_all b.parent next b.waiting)) [
      | inr (y, g) ↦ absurd (cc (rw (update_pending, process, found, g) at h))
      | inl (w, g) ↦ omega (
        arith,
        process-blocked (num_pending m) w (rw (update_pending, process, found, g) at h),
        ap length (wake_all-blocked b.parent b.waiting next g),
        ap length left,
      )
    ]

module _ ⦃crypto : Crypto⦄ where
  -- A certificate that is made to wait keeps the order.
  pub insert_pending-InRounds :
      (m : PendingCertificateManager) (x : Certificate) (missing : List ℕ)
      → InRounds m.missing_for_pending
      → InRounds (insert_pending m x missing).0.missing_for_pending
  unfolding insert_pending
  insert_pending-InRounds m x missing h = elim (Option-cases (lookup (digest x) m.pending)) [
    | inl e ↦ rw (insert_pending, e) (block_all-InRounds m.missing_for_pending _ missing _ h)
    | inr (p, e) ↦ elim (Bool-cases (not (same_set p.missing_parent_digests missing))) [
      | inl f ↦ rw (insert_pending, e, f) h
      | inr f ↦ rw (insert_pending, e, f) (block_all-InRounds m.missing_for_pending _ missing _ h)
    ]
  ]
