-- ===== src/Consensus/Leaders/Chain.antt =====
-- The loop of `order_leaders` and the rounds that it goes through.
use mathlib.Core.List.{append_assoc}
use telcoin_network.Base.{
  ℕ, zero, suc, ◌+◌, ◌-◌, ◌%◌, ◌≤◌, ◌<◌, ◌^◌, ◌≡◌, inl, inr, refl, leb, true, none, some,
  Option-cases, Bool-cases, List, [], ◌∷◌, All, ok, >>=-eq-ok, leb→le, All-map, ◌++◌, add_u32,
  sub_u32, sub_u32-eq, arith, subst, sym, ◌∙◌, Result-cases,
}
use telcoin_network.Types.Crypto.{Crypto}
use telcoin_network.Types.Certificate.{Certificate, round, origin}
use telcoin_network.Committee.{Authority, Committee, id}
use telcoin_network.Consensus.State.{Dag, ConsensusState, entry_at}
use telcoin_network.Consensus.State.Insert.{IsDag}
use telcoin_network.Consensus.Schedule
use telcoin_network.Consensus.Schedule.{
  Election, Failure, panicked, failed, LeaderSchedule, leader_certificate,
}
use telcoin_network.Consensus.Leaders.{rounds_down, linked, collect_leaders, order_leaders}

-- Each round is below the one before it.
abbrev Descends : ℕ → List ℕ → Type 0
Descends hi [] = Unit
Descends hi (r ∷ rs) = (r < hi) × Descends r rs

Descends-mono : (lo hi : ℕ) (rs : List ℕ) → lo ≤ hi → Descends lo rs → Descends hi rs
Descends-mono lo hi [] h d = tt
Descends-mono lo hi (r ∷ rs) h d = (omega arith, d.1)

-- Every second round from `hi` down to `lo`.
abbrev InRange : ℕ → ℕ → ℕ → Type 0
InRange lo hi r = (lo ≤ r) × (r ≤ hi) × (r % 2 ≡ hi % 2)

rounds_down_bounds :
    (fuel lo hi : ℕ)
    → All (InRange lo hi) (rounds_down fuel lo hi) × Descends (suc hi) (rounds_down fuel lo hi)
unfolding rounds_down
rounds_down_bounds zero lo hi = (tt, tt)
rounds_down_bounds (suc fuel) lo hi = elim (Bool-cases (leb lo hi)) [
  | inr f ↦ rw (f, rounds_down) (tt, tt)
  | inl t ↦ elim (Bool-cases (leb 2 hi)) [
    | inr f ↦ rw (t, f, rounds_down) (((leb→le lo hi t, omega arith, refl), tt), (omega arith, tt))
    | inl two ↦
        let (all, down) = rounds_down_bounds fuel lo (hi - 2) in
        let enough = leb→le 2 hi two in
        rw (t, two, rounds_down)
          (
            (
              (leb→le lo hi t, omega arith, refl),
              All-map (InRange lo (hi - 2)) (InRange lo hi) (rounds_down fuel lo (hi - 2))
                  (λ r h. omega arith) all,
            ),
            (omega arith, Descends-mono (suc (hi - 2)) hi _ (omega arith) down),
          )
  ]
]

pub rounds_down-nil : (fuel lo hi : ℕ) → hi < lo → rounds_down fuel lo hi ≡ []
unfolding rounds_down
rounds_down-nil zero lo hi h = refl
rounds_down-nil (suc fuel) lo hi h = ground arith

module _ ⦃crypto : Crypto⦄ ⦃election : Election⦄ where
  -- A leader that is found stands in the DAG in the round asked for.
  pub leader_certificate-mem :
      (schedule : LeaderSchedule) (r : ℕ) (dag : Dag) {a : Authority} {c : Certificate}
      → IsDag dag
      → leader_certificate schedule r dag ≡ ok (a, some c)
      → (round c ≡ r)
        × (origin c ≡ id a)
        × (Schedule.leader schedule r ≡ ok a)
        × ((d : ℕ) × (entry_at dag r (id a) ≡ some (d, c)))
  unfolding leader_certificate
  leader_certificate-mem schedule r dag {a} {c} v h =
      let (b, e, k) = >>=-eq-ok (Schedule.leader schedule r) _ h in
      elim (Option-cases (entry_at dag r (id b))) [
        | inl q ↦ ground arith
        | inr ((d, x), q) ↦ (
          ground (arith, v.entries r (id b) d x),
          ground (arith, v.entries r (id b) d x),
          ground arith,
          (d, ground arith),
        )
      ]

  -- Leaders in order of their rounds, each with a path from the next.
  abbrev pub Chain : Dag → List Certificate → Type 0
  Chain dag [] = Unit
  Chain dag (x ∷ rest) =
      elim rest [ [] ↦ Unit | y ∷ _ ↦ (round x < round y) × (linked y x dag ≡ true) ]
      × Chain dag rest

  collect_leaders-Chain :
      (schedule : LeaderSchedule) (dag : Dag) (leader : Certificate) (t : List Certificate)
      (rs : List ℕ) (bound : ℕ) {result : List Certificate}
      → IsDag dag
      → Chain dag (leader ∷ t)
      → All (λ c. bound < round c) (leader ∷ t)
      → Descends (round leader) rs
      → All (λ r. bound < r) rs
      → collect_leaders schedule dag leader (leader ∷ t) rs ≡ ok result
      → Chain dag result
        × All (λ c. bound < round c) result
        × ((front : List Certificate) × (result ≡ front ++ leader ∷ t))
  unfolding collect_leaders
  collect_leaders-Chain schedule dag leader t [] bound v chain above down low h =
      subst
        (λ l.
          Chain dag l
          × All (λ c. bound < round c) l
          × ((front : List Certificate) × (l ≡ front ++ leader ∷ t)))
        (cc h) (chain, above, ([], refl))
  collect_leaders-Chain schedule dag leader t (r ∷ rs) bound {result} v chain above down low h =
      elim (Result-cases (leader_certificate schedule r dag)) [
        | inr (e, q) ↦ cc (rw (q, collect_leaders) at h)
        | inl ((a, none), q) ↦
            collect_leaders-Chain schedule dag leader t rs bound v chain above
              (Descends-mono r (round leader) rs (omega arith) down.1) low.1
              (rw (q, collect_leaders) at h)
        | inl ((a, some prev), q) ↦
            let same_round = (leader_certificate-mem schedule r dag v q).0 in
            elim (Bool-cases (linked leader prev dag)) [
              | inr f ↦
                  collect_leaders-Chain schedule dag leader t rs bound v chain above
                    (Descends-mono r (round leader) rs (omega arith) down.1) low.1
                    (rw (q, f, collect_leaders) at h)
              | inl f ↦
                  let (chain', above', (front, e)) =
                    collect_leaders-Chain schedule dag prev (leader ∷ t) rs bound v
                      ((omega arith, f), chain) (omega arith, above)
                      (subst (λ k. Descends k rs) (sym same_round) down.1) low.1
                      (rw (q, f, collect_leaders) at h) in
                  (
                    chain',
                    above',
                    (front ++ prev ∷ [], e ∙ sym (append_assoc front (prev ∷ []) (leader ∷ t))),
                  )
            ]
      ]

  order_leaders-eq-ok :
      (committee : Committee) (schedule : LeaderSchedule) (leader : Certificate)
      (s : ConsensusState) {result : List Certificate}
      → order_leaders committee schedule leader s ≡ ok result
      → (round leader % 2 ≡ 0)
        × (collect_leaders schedule s.dag leader (leader ∷ []) (
              rounds_down
                (suc (sub_u32 (round leader) 2))
                (add_u32 s.last_round.committed_round 2)
                (sub_u32 (round leader) 2))
            ≡ ok result)
  unfolding order_leaders
  order_leaders-eq-ok committee schedule leader s {result} h =
      elim (Result-cases (
        collect_leaders schedule s.dag leader (leader ∷ []) (
          rounds_down (suc (sub_u32 (round leader) 2)) (add_u32 s.last_round.committed_round 2)
            (sub_u32 (round leader) 2)))) [
              | inl (l, e) ↦ ground (arith, e)
              | inr (l, e) ↦ ground (arith, e)
            ]

  -- In a DAG that holds each certificate under its round, origin and digest, the leaders to commit
  -- for a leader above the committed round, whose next round is a u32 number, come in order of
  -- their rounds, all above the committed round, each linked to by the next one, and the leader
  -- that triggered the commit is the last of them.
  pub order_leaders-Chain :
      (committee : Committee) (schedule : LeaderSchedule) (leader : Certificate)
      (s : ConsensusState) {result : List Certificate}
      → IsDag s.dag
      → s.last_round.committed_round < round leader
      → suc (round leader) < 2 ^ 32
      → order_leaders committee schedule leader s ≡ ok result
      → Chain s.dag result
        × All (λ c. s.last_round.committed_round < round c) result
        × ((front : List Certificate) × (result ≡ front ++ leader ∷ []))
  order_leaders-Chain committee schedule leader s v above small h =
      let (even, e) = order_leaders-eq-ok committee schedule leader s h in
      let lo = add_u32 s.last_round.committed_round 2 in
      let hi = sub_u32 (round leader) 2 in
      let two : sub_u32 (round leader) 2 ≡ round leader - 2 =
        sub_u32-eq (round leader) 2 (omega arith) in
      let (all, down) = rounds_down_bounds (suc hi) lo hi in
      collect_leaders-Chain schedule s.dag leader [] (rounds_down (suc hi) lo hi)
        s.last_round.committed_round v (tt, tt) (above, tt)
        (Descends-mono (suc hi) (round leader) _ (omega arith) down)
        (All-map (InRange lo hi) (λ r. s.last_round.committed_round < r) _ (λ r k. omega arith) all)
        e

  -- Just below its round nothing is left to commit but the leader.
  pub order_leaders_alone :
      (committee : Committee) (schedule : LeaderSchedule) (leader : Certificate)
      (s : ConsensusState) {result : List Certificate}
      → s.last_round.committed_round < round leader
      → round leader < s.last_round.committed_round + 4
      → suc (round leader) < 2 ^ 32
      → order_leaders committee schedule leader s ≡ ok result
      → result ≡ leader ∷ []
  unfolding collect_leaders
  order_leaders_alone committee schedule leader s above near small h =
      let (even, e) = order_leaders-eq-ok committee schedule leader s h in
      let none_left =
        rounds_down-nil (suc (sub_u32 (round leader) 2)) (add_u32 s.last_round.committed_round 2)
          (sub_u32 (round leader) 2) (ground arith) in
      cc (rw (none_left, collect_leaders) at e)
