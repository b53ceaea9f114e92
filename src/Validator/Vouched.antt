-- ===== src/Validator/Vouched.antt =====
-- The verification of fetched certificates:
-- crates/consensus/primary/src/state_sync/cert_validator.rs.
use mathlib.Core.List.Memᴰ
use telcoin_network.Base.{
  ℕ, zero, suc, ◌+◌, ◌≤◌, ◌<◌, ◌≡◌, ◌⊎◌, inl, inr, refl, sym, ap, subst, Bool, true, false,
  Bool-cases, Option-cases, List, [], ◌∷◌, Memᴰ, mem-append, All, All-mem, ok, ok-injective,
  >>=-eq-ok, arith, max,
}
use telcoin_network.Types.Header.{Header}
use telcoin_network.Types.Crypto.{Crypto}
use telcoin_network.Types.Certificate.{Certificate, parents, digest, aggregated_signature}
use telcoin_network.Signing.{validate_received}
use telcoin_network.Validator.{
  ValidatorConfig, all_parents, validate_and_verify, lift_certificate, requires_direct_verification,
  mark_verified_indirectly, classify_one, classify, verify_one, verify_marked, verify_collection,
  receive_all,
}
use telcoin_network.Validator.Signed.{IsReceived, IsDirect, validated, marked, needed}

module _ ⦃crypto : Crypto⦄ (config : ValidatorConfig) where
  verify_one-ok :
      (gc : ℕ) (known : List ℕ) (x : Certificate) {m : Bool × Certificate} {y : Certificate}
      → IsReceived config x
      → classify_one config known x ≡ ok m
      → verify_one config gc m ≡ ok y
      → (y.header ≡ x.header) × (IsDirect config y ⊎ Memᴰ (digest y) known)
  unfolding classify_one verify_one validate_and_verify digest
  verify_one-ok gc known x {m} {y} r h g =
      elim (Bool-cases (requires_direct_verification config known x)) [
        | inl d ↦
            let same : (true, x) ≡ m = ok-injective (rw (classify_one, d) at h) in
            let (header, direct) =
              validated config x gc r (subst (λ k. verify_one config gc k ≡ ok y) (sym same) g) in
            (header, inl direct)
        | inr d ↦
            let same : (false, marked config x r.0) ≡ m =
              ok-injective
                (rw (classify_one, d, mark_verified_indirectly, aggregated_signature, r.1) at h) in
            let kept : marked config x r.0 ≡ y =
              ok-injective (subst (λ k. verify_one config gc k ≡ ok y) (sym same) g) in
            subst (λ z. (z.header ≡ x.header) × (IsDirect config z ⊎ Memᴰ (digest z) known)) kept
              (refl, inr (needed config known x d))
      ]

  collection-ok :
      (gc : ℕ) (known : List ℕ) (xs : List Certificate) {ms : List (Bool × Certificate)}
      {ys : List Certificate}
      → All (IsReceived config) xs
      → classify config known xs ≡ ok ms
      → verify_marked config gc ms ≡ ok ys
      → (all_parents ys ≡ all_parents xs) × All (λ y. IsDirect config y ⊎ Memᴰ (digest y) known) ys
  unfolding classify verify_marked all_parents
  collection-ok gc known [] {ms} {ys} r h g =
      let none_left : [] ≡ ms = ok-injective h in
      let nothing : [] ≡ ys =
        ok-injective (subst (λ k. verify_marked config gc k ≡ ok ys) (sym none_left) g) in
      subst (λ z. (all_parents z ≡ []) × All (λ y. IsDirect config y ⊎ Memᴰ (digest y) known) z)
        nothing (refl, tt)
  collection-ok gc known (x ∷ xs) {ms} {ys} r h g =
      let (m, first, h1) = >>=-eq-ok (classify_one config known x) _ h in
      let (later, next, h2) = >>=-eq-ok (classify config known xs) _ h1 in
      let split : m ∷ later ≡ ms = ok-injective h2 in
      let (y, verified, g1) =
        >>=-eq-ok (verify_one config gc m) _
          (subst (λ k. verify_marked config gc k ≡ ok ys) (sym split) g) in
      let (rest, others, g2) = >>=-eq-ok (verify_marked config gc later) _ g1 in
      let (header, here) = verify_one-ok gc known x r.0 first verified in
      let (same, all) = collection-ok gc known xs r.1 next others in
      subst
        (λ z.
          (all_parents z ≡ all_parents (x ∷ xs))
          × All (λ y. IsDirect config y ⊎ Memᴰ (digest y) known) z)
        (ok-injective g2)
        (rw (all_parents, ap (λ (k : Header). k.parents) header, same) refl, (here, all))

  IsReceived-intro :
      (x : Certificate) {y : Certificate}
      → lift_certificate (validate_received x) ≡ ok y
      → IsReceived config y
  unfolding validate_received lift_certificate
  IsReceived-intro x {y} h = elim (Option-cases (aggregated_signature x)) [
    | inl e ↦ absurd (cc (rw (validate_received, e, lift_certificate) at h))
    | inr (sig, e) ↦
        subst (IsReceived config) (ok-injective (rw (validate_received, e, lift_certificate) at h))
          (sig, refl)
  ]

  receive_all-ok :
      (xs : List Certificate) {ys : List Certificate}
      → receive_all config xs ≡ ok ys
      → All (IsReceived config) ys
  unfolding receive_all
  receive_all-ok [] h = subst (All (IsReceived config)) (ok-injective h) tt
  receive_all-ok (x ∷ xs) h =
      let (y, first, h1) = >>=-eq-ok (lift_certificate (validate_received x)) _ h in
      let (ys, later, h2) = >>=-eq-ok (receive_all config xs) _ h1 in
      subst (All (IsReceived config)) (ok-injective h2)
        (IsReceived-intro x first, receive_all-ok xs later)

  mem-all_parents :
      (q : ℕ) (ys : List Certificate)
      → Memᴰ q (all_parents ys)
      → (y : Certificate) × Memᴰ y ys × Memᴰ q (parents y)
  unfolding all_parents
  mem-all_parents q [] m = absurd (Memᴰ.not-nil m)
  mem-all_parents q (y ∷ ys) m = elim ((mem-append q (parents y) (all_parents ys)).0 m) [
    | inl here ↦ (y, Memᴰ.head refl, here)
    | inr there ↦ let (z, at, inside) = mem-all_parents q ys there in (z, Memᴰ.tail at, inside)
  ]

  -- The certificate is verified directly, or it is a parent of one of the collection that is vouched
  -- for.
  pub data IsVouched (ys : List Certificate) : Certificate → Type 0 where
    directly : {x : Certificate} → IsDirect config x → IsVouched ys x
    through :
        {x : Certificate} (y : Certificate)
        → Memᴰ y ys
        → Memᴰ (digest x) (parents y)
        → IsVouched ys y
        → IsVouched ys x

  -- No certificate is its own ancestor: a parent is lower.
  abbrev pub IsAcyclic : (ℕ → ℕ) → List Certificate → Type 0
  IsAcyclic height ys =
      (y : Certificate) → Memᴰ y ys → (q : ℕ) → Memᴰ q (parents y) → height q < height (digest y)

  abbrev highest : (ℕ → ℕ) → List Certificate → ℕ
  highest height [] = 0
  highest height (y ∷ ys) = max (height (digest y)) (highest height ys)

  le_highest :
      (height : ℕ → ℕ) (y : Certificate) (ys : List Certificate)
      → Memᴰ y ys
      → height (digest y) ≤ highest height ys
  le_highest height y [] m = absurd (Memᴰ.not-nil m)
  le_highest height y (z ∷ zs) m = elim (Memᴰ.cases_cons m) [
    | inl e ↦ rw e (omega arith)
    | inr at ↦ omega (arith, le_highest height y zs at)
  ]

  vouch :
      (height : ℕ → ℕ) (ys : List Certificate) (fuel : ℕ)
      → IsAcyclic height ys
      → All (λ y. IsDirect config y ⊎ Memᴰ (digest y) (all_parents ys)) ys
      → (x : Certificate) → Memᴰ x ys
      → highest height ys ≤ height (digest x) + fuel
      → IsVouched ys x
  vouch height ys zero acyclic h x m le = elim (All-mem _ h m) [
    | inl d ↦ directly d
    | inr needed ↦
        let (y, at, parent) = mem-all_parents (digest x) ys needed in
        absurd (omega (arith, acyclic y at (digest x) parent, le_highest height y ys at, le))
  ]
  vouch height ys (suc fuel) acyclic h x m le = elim (All-mem _ h m) [
    | inl d ↦ directly d
    | inr needed ↦
        let (y, at, parent) = mem-all_parents (digest x) ys needed in
        through y at parent
          (vouch height ys fuel acyclic h y at (omega (arith, acyclic y at (digest x) parent, le)))
  ]

  -- If no certificate of the result is its own ancestor, then of the certificates that a peer sends
  -- and that pass, each is of the epoch and signed by a quorum with a valid signature, or is a
  -- genesis certificate, or is the ancestor, through the result, of such a certificate.
  pub verify_collection-IsVouched :
      (gc : ℕ) (sent : List Certificate) {received result : List Certificate} (height : ℕ → ℕ)
      → receive_all config sent ≡ ok received
      → verify_collection config gc received ≡ ok result
      → IsAcyclic height result
      → (x : Certificate) → Memᴰ x result
      → IsVouched result x
  unfolding verify_collection
  verify_collection-IsVouched gc sent {received} {result} height taken passed acyclic x m =
      let (ms, classified, verified) =
        >>=-eq-ok (classify config (all_parents received) received) _ passed in
      let (same, all) =
        collection-ok gc (all_parents received) received (receive_all-ok sent taken) classified
          verified in
      vouch height result (highest height result) acyclic
        (subst (λ k. All (λ y. IsDirect config y ⊎ Memᴰ (digest y) k) result) (sym same) all) x m
        (omega arith)
