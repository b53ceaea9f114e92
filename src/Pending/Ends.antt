-- ===== src/Pending/Ends.antt =====
-- The loop of `update_pending` and its fuel.
use telcoin_network.Base.{
  ℕ, zero, suc, ◌+◌, ◌≤◌, ◌≡◌, refl, subst, ap, some, Option-cases, List, [], ◌∷◌, length,
  length-append, List-cases, ok, Result-cases, ok-injective, arith, Bool-cases, inl, inr,
}
use telcoin_network.Base.Map.{Map, lookup, replace, remove}
use telcoin_network.Types.Certificate.{round}
use telcoin_network.Pending.{
  PendingCertificateManager, Update, is_ready, remove_parent, unblock, wake, wake_all, process,
  start_update, update_pending, num_pending,
}

length-replace : {V : Type 0} (k : ℕ) (v : V) (m : Map V) → length (replace k v m) ≡ length m
unfolding replace
length-replace k v [] = refl
length-replace k v ((j, w) ∷ m) = ground (arith, length-replace k v m)

length-remove-le : {V : Type 0} (k : ℕ) (m : Map V) → length (remove k m) ≤ length m
unfolding remove
length-remove-le k [] = omega arith
length-remove-le k ((j, w) ∷ m) = ground (arith, length-remove-le k m)

length-remove :
    {V : Type 0} (k : ℕ) (old : V) (m : Map V)
    → lookup k m ≡ some old
    → suc (length (remove k m)) ≤ length m
unfolding lookup remove
length-remove k old [] h = cc
length-remove k old ((j, w) ∷ m) h = ground (arith, length-remove k old m, length-remove-le k m)

-- What is left to do: each pending certificate can enter the queue once.
abbrev work : Update → ℕ
work u = length u.certificates_to_process + length u.manager.pending

wake_works : (q : ℕ) (u : Update) (d : ℕ) {v : Update} → wake q u d ≡ ok v → work v ≤ work u
unfolding wake
wake_works q u d {v} h = elim (Option-cases (lookup d u.manager.pending)) [
  | inl e ↦ cc (rw (e, wake) at h)
  | inr (p, e) ↦ elim (Bool-cases (is_ready (remove_parent p q))) [
    | inl f ↦
        subst (λ w. work w ≤ work u) (ok-injective (rw (e, f, wake) at h))
          (omega (
            arith,
            length-remove d p u.manager.pending e,
            length-append u.certificates_to_process ((round p.certificate, d) ∷ []),
          ))
    | inr f ↦
        subst (λ w. work w ≤ work u) (ok-injective (rw (e, f, wake) at h))
          (omega (arith, length-replace d (remove_parent p q) u.manager.pending))
  ]
]

wake_all_works :
    (q : ℕ) (u : Update) (ds : List ℕ) {v : Update} → wake_all q u ds ≡ ok v → work v ≤ work u
unfolding wake_all
wake_all_works q u [] h = subst (λ w. work w ≤ work u) (ok-injective h) (omega arith)
wake_all_works q u (d ∷ ds) h = elim (Result-cases (wake q u d)) [
  | inr (e, f) ↦ cc (rw (f, wake_all) at h)
  | inl (w, f) ↦ omega (arith, wake_works q u d f, wake_all_works q w ds (rw (f, wake_all) at h))
]

nothing_left : {A : Type 0} (xs : List A) → length xs ≤ 0 → xs ≡ []
nothing_left [] h = refl
nothing_left (x ∷ xs) h = absurd (omega arith)

process_ends :
    (fuel : ℕ) (u : Update) {v : Update}
    → work u ≤ fuel
    → process fuel u ≡ ok v
    → v.certificates_to_process ≡ []
unfolding process
process_ends zero u h k =
    subst (λ (w : Update). w.certificates_to_process ≡ []) (ok-injective k)
      (nothing_left u.certificates_to_process (omega arith))
process_ends (suc fuel) u {v} h k = elim (List-cases u.certificates_to_process) [
  | inl e ↦
      subst (λ (w : Update). w.certificates_to_process ≡ []) (ok-injective (rw (e, process) at k)) e
  | inr (x, rest, e) ↦
      let shorter = ap length e in
      elim (Option-cases (unblock u.manager.missing_for_pending x.0 x.1).0) [
        | inl f ↦
            process_ends fuel (record u { certificates_to_process = rest }) (omega arith)
              (rw (e, f, process) at k)
        | inr (waiting, f) ↦
            let u' : Update = record u {
              manager = record u.manager {
                missing_for_pending = (unblock u.manager.missing_for_pending x.0 x.1).1;
              };
              certificates_to_process = rest;
            } in
            elim (Result-cases (wake_all x.1 u' waiting)) [
              | inr (y, g) ↦ cc (rw (e, f, g, process) at k)
              | inl (w, g) ↦
                  let fewer = wake_all_works x.1 u' waiting g in
                  process_ends fuel w (omega arith) (rw (e, f, g, process) at k)
            ]
      ]
]

-- The update of the pending certificates goes on until nothing is left to process: its fuel, one for
-- the given digest and one for each pending certificate, is enough.
pub update_pending_ends :
    (m : PendingCertificateManager) (round digest : ℕ) {u : Update}
    → update_pending m round digest ≡ ok u
    → u.certificates_to_process ≡ []
unfolding update_pending num_pending
update_pending_ends m round digest h =
    process_ends (suc (num_pending m)) (start_update m round digest) (omega arith) h
