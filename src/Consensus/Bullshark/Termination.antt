-- ===== src/Consensus/Bullshark/Termination.antt =====
-- The loop of `process_certificate` over schedule changes: the committed round in each turn.
use mathlib.Core.List.Memᴰ
use telcoin_network.Base.{
  ℕ, zero, suc, ◌+◌, ◌-◌, ◌≤◌, ◌<◌, ◌^◌, ◌≡◌, ◌≢◌, inl, inr, refl, sym, subst, ◌∙◌, true, false,
  some, List, [], ◌∷◌, ◌++◌, ◌&&◌, ok, arith, ok-injective, >>=-eq-ok, ltb, leb, Bool-cases,
  Result-cases, Option-cases, not, is_empty, add_u32, ◌==◌, sub_u32, sub_u32-eq, ◌||◌, ◌%◌, Memᴰ,
  All-mem,
}
use telcoin_network.Base.Map.{lookup, values}
use telcoin_network.Types.Crypto.{Crypto}
use telcoin_network.Types.Certificate.{Certificate, round}
use telcoin_network.Types.SubDag.{CommittedSubDag}
use telcoin_network.Consensus.State.{Dag, ConsensusState, update, update_round, entry_at}
use telcoin_network.Consensus.Order.{order_dag, parent_entry}
use telcoin_network.Consensus.Order.Sound.{History, lead, parent, order_dag_sound}
use telcoin_network.Consensus.Order.Complete.{parent_entry-at, leader-mem-order_dag}
use telcoin_network.Consensus.Schedule.{Election, leader_certificate}
use telcoin_network.Consensus.Leaders.{order_leaders}
use telcoin_network.Consensus.Leaders.Chain.{Chain, order_leaders-Chain, leader_certificate-mem}
use telcoin_network.Consensus.Bullshark.{
  Bullshark, Node, Outcome, update_all, commit_sub_dag, commit_leaders, commit_leader, commit_until,
  is_schedule_changed, support,
}
use telcoin_network.Consensus.Bullshark.Invariant.{
  IsConsistent, Commits, commit_sub_dag-Commits, Commits-IsConsistent, Commits-records,
}
use telcoin_network.Consensus.Bullshark.Runs.{Runs-IsConsistent, commit_leader-Runs}

module _ ⦃crypto : Crypto⦄ where
  -- A found parent stands a round below.
  parent_below :
      (s : ConsensusState) (x c : Certificate) (p d : ℕ)
      → IsConsistent s
      → 0 < round x
      → parent_entry s.dag x p ≡ some (d, c)
      → (0 < round c) × (round c < round x)
  unfolding entry_at
  parent_below s x c p d v above at =
      let (e, _, stands) = parent_entry-at s.dag x p d c v.causal.dag at in
      let e2 : round c ≡ round x - 1 = e ∙ sub_u32-eq (round x) 1 (omega arith) in
      (ground (arith, v.rounds.live (round c)), omega arith)

  -- The history of a leader lies below it, in rounds above 0.
  pub below_leader :
      (s : ConsensusState) (leader c : Certificate)
      → IsConsistent s
      → 0 < round leader
      → History s leader c
      → (0 < round c) × (round c ≤ round leader)
  below_leader s leader c v above lead = (above, omega arith)
  below_leader s leader c v above (parent {x} p d h _ m at live) =
      let (low, high) = below_leader s leader x v above h in
      let (low2, high2) = parent_below s x c p d v low at in (low2, omega arith)

  update_all_below :
      (s : ConsensusState) (cs : List Certificate) (m : ℕ)
      → ((c : Certificate) → Memᴰ c cs → round c ≤ m)
      → s.last_round.committed_round ≤ m
      → (update_all s cs).last_round.committed_round ≤ m
  unfolding update_all update update_round
  update_all_below s [] m all h = h
  update_all_below s (c ∷ cs) m all h =
      let here = all c (Memᴰ.head refl) in
      update_all_below (update s c) cs m (λ x k. all x (Memᴰ.tail k)) (omega arith)

  -- The commit of a leader above the committed round makes its round the committed round.
  pub Commits-round :
      {s t : ConsensusState} {leader : Certificate} {d : CommittedSubDag}
      → Commits s leader t d
      → IsConsistent s
      → s.last_round.committed_round < round leader
      → t.last_round.committed_round ≡ round leader
  Commits-round {s} {t} {leader} {d} k v above =
      let low = (Commits-records leader k (leader-mem-order_dag s leader v.causal.dag)).0 in
      let high =
        subst (λ (u : ConsensusState). u.last_round.committed_round ≤ round leader) (sym k.state)
          (update_all_below s (order_dag leader s) (round leader)
            (λ c m. (below_leader s leader c v k.positive (order_dag_sound s leader c m)).1)
            (omega arith)) in
      omega arith

module _ ⦃crypto : Crypto⦄ ⦃election : Election⦄ where
  front_below :
      (dag : Dag) (front : List Certificate) (leader : Certificate)
      → Chain dag (front ++ leader ∷ [])
      → ((c : Certificate) → Memᴰ c front → round c < round leader)
  front_below dag [] leader h c m = absurd (Memᴰ.not-nil m)
  front_below dag (x ∷ []) leader h c m =
      subst (λ y. round y < round leader) (sym (Memᴰ.eq_of_singleton m)) h.0.0
  front_below dag (x ∷ y ∷ front) leader h c m = elim (Memᴰ.cases_cons m) [
    | inl e ↦
        subst (λ z. round z < round leader) (sym e)
          (omega (arith, h.0.0, front_below dag (y ∷ front) leader h.1 y (Memᴰ.head refl)))
    | inr k ↦ front_below dag (y ∷ front) leader h.1 c k
  ]

  above_head :
      (dag : Dag) (l : Certificate) (rest : List Certificate)
      → Chain dag (l ∷ rest)
      → ((c : Certificate) → Memᴰ c rest → round l < round c)
  above_head dag l [] h c m = absurd (Memᴰ.not-nil m)
  above_head dag l (y ∷ rest) h c m = elim (Memᴰ.cases_cons m) [
    | inl e ↦ subst (λ z. round l < round z) (sym e) h.0.0
    | inr k ↦ omega (arith, h.0.0, above_head dag y rest h.1 c k)
  ]

  commit_leaders_alone :
      (b : Bullshark) (s : ConsensusState) (leader : Certificate) (committed : List CommittedSubDag)
      {x : Node × Outcome × List CommittedSubDag}
      → commit_leaders (b, s) (leader ∷ []) committed ≡ ok x
      → is_schedule_changed x.1 ≢ true
  unfolding commit_leaders is_schedule_changed
  commit_leaders_alone b s leader committed h k =
      elim (Result-cases (commit_sub_dag (b, s) leader)) [
        | inr (e, q) ↦ ground (arith, q)
        | inl (e, q) ↦ ground (arith, q)
      ]

  -- Leaders in a row, each above the committed round that the one before it leaves.
  commit_leaders_changed :
      (b : Bullshark) (s : ConsensusState) (dag : Dag) (front : List Certificate)
      (leader : Certificate) (committed : List CommittedSubDag)
      {x : Node × Outcome × List CommittedSubDag}
      → IsConsistent s
      → Chain dag (front ++ leader ∷ [])
      → ((c : Certificate) → Memᴰ c (front ++ leader ∷ []) → s.last_round.committed_round < round c)
      → commit_leaders (b, s) (front ++ leader ∷ []) committed ≡ ok x
      → is_schedule_changed x.1 ≡ true
      → (s.last_round.committed_round < x.0.1.last_round.committed_round)
        × (x.0.1.last_round.committed_round < round leader)
  unfolding commit_leaders
  commit_leaders_changed b s dag [] leader committed v chain above h changed =
      absurd (commit_leaders_alone b s leader committed h changed)
  commit_leaders_changed b s dag (l ∷ front) leader committed v chain above h changed =
      elim (Result-cases (commit_sub_dag (b, s) l)) [
        | inr (e, q) ↦ cc (rw (q, commit_leaders) at h)
        | inl (((b', t), d, now), q) ↦
            let c = commit_sub_dag-Commits b s l q in
            let raised = Commits-round c v (above l (Memᴰ.head refl)) in
            let up = above l (Memᴰ.head refl) in
            elim (Bool-cases (now && not (is_empty (front ++ leader ∷ [])))) [
              | inl f ↦
                  let below = front_below dag (l ∷ front) leader chain l (Memᴰ.head refl) in
                  subst
                    (λ (y : Node × Outcome × List CommittedSubDag).
                      (s.last_round.committed_round < y.0.1.last_round.committed_round)
                      × (y.0.1.last_round.committed_round < round leader))
                    (ok-injective (rw (q, f, commit_leaders) at h)) (omega arith, omega arith)
              | inr f ↦
                  let (low, high) =
                    commit_leaders_changed b' t dag front leader (committed ++ d ∷ [])
                      (Commits-IsConsistent c v) chain.1
                      (λ x m.
                        subst (λ r. r < round x) (sym raised)
                          (above_head dag l (front ++ leader ∷ []) chain x m))
                      (rw (q, f, commit_leaders) at h) changed in
                  (omega arith, high)
            ]
      ]

  ordered_changed :
      (b : Bullshark) (s : ConsensusState) (leader : Certificate) (leaders : List Certificate)
      {x : Node × Outcome × List CommittedSubDag}
      → IsConsistent s
      → suc (round leader) < 2 ^ 32
      → s.last_round.committed_round < round leader
      → order_leaders b.committee b.leader_schedule leader s ≡ ok leaders
      → commit_leaders (b, s) leaders [] ≡ ok x
      → is_schedule_changed x.1 ≡ true
      → (s.last_round.committed_round < x.0.1.last_round.committed_round)
        × (x.0.1.last_round.committed_round < round leader)
  ordered_changed b s leader leaders {x} v small above h k changed =
      let (chain, all, (front, e)) =
        order_leaders-Chain b.committee b.leader_schedule leader s v.causal.dag above small h in
      commit_leaders_changed b s s.dag front leader [] v (subst (Chain s.dag) e chain)
        (λ c m.
          All-mem (λ y. s.last_round.committed_round < round y) all (subst (Memᴰ c) (sym e) m))
        (subst (λ l. commit_leaders (b, s) l [] ≡ ok x) e k) changed

  -- A round of the loop that ends in a schedule change commits a leader below the elected one.
  commit_leader_changed :
      (b : Bullshark) (s : ConsensusState) (r : ℕ) {x : Node × Outcome × List CommittedSubDag}
      → IsConsistent s
      → suc r < 2 ^ 32
      → s.last_round.committed_round < r
      → commit_leader (b, s) r ≡ ok x
      → is_schedule_changed x.1 ≡ true
      → (s.last_round.committed_round < x.0.1.last_round.committed_round)
        × (x.0.1.last_round.committed_round < r)
  unfolding commit_leader is_schedule_changed
  commit_leader_changed b s r v small above h changed =
      let ((a, found), e, k) = >>=-eq-ok (leader_certificate b.leader_schedule r s.dag) _ h in
      elim (Option-cases found) [
        | inl q ↦ ground (arith, q)
        | inr (leader, q) ↦ elim (Option-cases (lookup (add_u32 r 1) s.dag)) [
          | inl f ↦ cc (rw (q, f) at k)
          | inr (children, f) ↦
              elim (Bool-cases (
                ltb (support b.committee leader (values children))
                  b.committee.validity_threshold)) [
                    | inl g ↦ ground (arith, q, f, g)
                    | inr g ↦
                        let (leaders, e3, k2) =
                          >>=-eq-ok (order_leaders b.committee b.leader_schedule leader s) _
                            (rw (q, f, g) at k) in
                        let at_round : round leader ≡ r =
                          (leader_certificate-mem b.leader_schedule r s.dag v.causal.dag (
                            subst (λ o. leader_certificate b.leader_schedule r s.dag ≡ ok (a, o)) q
                              e)).0 in
                        let (low, high) =
                          ordered_changed b s leader leaders v (omega arith) (omega arith) e3 k2
                            changed in
                        (low, omega arith)
                  ]
        ]
      ]

  -- With as much fuel as there are rounds above the committed one, the loop ends: its outcome is
  -- never a schedule change.
  commit_until_ends :
      (fuel : ℕ) (b : Bullshark) (s : ConsensusState) (r : ℕ) (committed : List CommittedSubDag)
      {x : Node × Outcome × List CommittedSubDag}
      → IsConsistent s
      → suc r < 2 ^ 32
      → s.last_round.committed_round < r
      → r ≤ fuel + s.last_round.committed_round
      → commit_until fuel (b, s) r committed ≡ ok x
      → is_schedule_changed x.1 ≡ false
  unfolding commit_until
  commit_until_ends zero b s r committed v small above enough h = absurd (omega arith)
  commit_until_ends (suc fuel) b s r committed v small above enough h =
      elim (Result-cases (commit_leader (b, s) r)) [
        | inr (e, q) ↦ cc (rw (q, commit_until) at h)
        | inl (((b', t), o, more), q) ↦ elim (Bool-cases (is_schedule_changed o)) [
          | inl f ↦
              let (low, high) = commit_leader_changed b s r v small above q f in
              commit_until_ends fuel b' t r (committed ++ more)
                (Runs-IsConsistent (commit_leader-Runs b s r q).2 v) small high (omega arith)
                (rw (q, f, commit_until) at h)
          | inr f ↦
              subst (λ (y : Node × Outcome × List CommittedSubDag). is_schedule_changed y.1 ≡ false)
                (ok-injective (rw (q, f, commit_until) at h)) f
        ]
      ]

  elected_small :
      (q : ℕ)
      → q < 2 ^ 32
      → (not (sub_u32 q 1 % 2 == 0) || ltb (sub_u32 q 1) 2) ≡ false
      → suc (sub_u32 q 1) < 2 ^ 32
  elected_small q small e = ground (arith, e)

  -- In a consistent state, in the election for a certificate's round that is a u32 number, once the
  -- guards before it are passed, the loop ends with the fuel that the election gives it: unless it
  -- ends in an error, its outcome is not a schedule change.
  pub elected_ends :
      (b : Bullshark) (s : ConsensusState) (certificate_round : ℕ)
      {x : Node × Outcome × List CommittedSubDag}
      → IsConsistent s
      → certificate_round < 2 ^ 32
      → (not (sub_u32 certificate_round 1 % 2 == 0) || ltb (sub_u32 certificate_round 1) 2) ≡ false
      → leb (sub_u32 certificate_round 1) s.last_round.committed_round ≡ false
      → commit_until (sub_u32 certificate_round 1) (b, s) (sub_u32 certificate_round 1) [] ≡ ok x
      → is_schedule_changed x.1 ≡ false
  elected_ends b s q v small e f h =
      commit_until_ends (sub_u32 q 1) b s (sub_u32 q 1) [] v (elected_small q small e)
        (ground (arith, f)) (omega arith) h
