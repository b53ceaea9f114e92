-- ===== src/Consensus/Bullshark/Invariant.antt =====
-- The invariant of the consensus state, through the commit of a sub dag.
use mathlib.Core.List.Memᴰ
use telcoin_network.Base.{
  ℕ, ◌≤◌, ◌<◌, ◌≡◌, sym, subst, Bool, some, List, [], ◌∷◌, Result, ok, arith, Memᴰ, ◌∙◌,
  ok-injective, >>=-eq-ok, ltb, ltb→lt, Bool-cases, inl, inr, ap,
}
use telcoin_network.Base.Map.{lookup_or}
use telcoin_network.Types.Crypto.{Crypto}
use telcoin_network.Types.Certificate.{Certificate, round, origin, nonce}
use telcoin_network.Types.SubDag
use telcoin_network.Types.SubDag.{CommittedSubDag}
use telcoin_network.Types.Reputation.{ReputationScores}
use telcoin_network.Consensus.State.{ConsensusState, update}
use telcoin_network.Consensus.State.Rounds.{HasRounds, update-HasRounds, update_grows}
use telcoin_network.Consensus.State.Causal.{IsCausal, update-IsCausal}
use telcoin_network.Consensus.Order.{order_dag}
use telcoin_network.Consensus.Schedule.{Failure}
use telcoin_network.Consensus.Bullshark.{
  Bullshark, Node, update_all, commit_sub_dag, resolve_reputation_score, update_leader_schedule,
}

-- No round of the state falls.
pub record Grows (s t : ConsensusState) : Type 0 where
  pub committed : s.last_round.committed_round ≤ t.last_round.committed_round
  pub by_author : (a : ℕ) → lookup_or a 0 s.last_committed ≤ lookup_or a 0 t.last_committed

pub Grows-refl : (s : ConsensusState) → Grows s s
Grows-refl s = record { committed = omega arith; by_author = λ a. omega arith }

pub Grows-trans : {s t u : ConsensusState} → Grows s t → Grows t u → Grows s u
Grows-trans g h = record {
  committed = omega (arith, g.committed, h.committed);
  by_author = λ a. omega (arith, g.by_author a, h.by_author a);
}

update-Grows : (s : ConsensusState) (c : Certificate) → Grows s (update s c)
update-Grows s c =
    let (_, up, all, _) = update_grows s c in record { committed = up; by_author = all }

pub update_all-Grows : (s : ConsensusState) (cs : List Certificate) → Grows s (update_all s cs)
unfolding update_all
update_all-Grows s [] = Grows-refl s
update_all-Grows s (c ∷ cs) = Grows-trans (update-Grows s c) (update_all-Grows (update s c) cs)

-- The rounds of what was committed are recorded.
pub update_all-records :
    (s : ConsensusState) (cs : List Certificate) (c : Certificate)
    → Memᴰ c cs
    → (round c ≤ (update_all s cs).last_round.committed_round)
      × (round c ≤ lookup_or (origin c) 0 (update_all s cs).last_committed)
unfolding update_all
update_all-records s [] c m = absurd (Memᴰ.not-nil m)
update_all-records s (x ∷ xs) c m = elim (Memᴰ.cases_cons m) [
  | inl e ↦
      let (here, _, _, own) = update_grows s x in
      let later = update_all-Grows (update s x) xs in
      subst
        (λ y.
          (round y ≤ (update_all (update s x) xs).last_round.committed_round)
          × (round y ≤ lookup_or (origin y) 0 (update_all (update s x) xs).last_committed))
        (sym e) (omega (arith, later.committed), omega (arith, later.by_author (origin x)))
  | inr t ↦ update_all-records (update s x) xs c t
]

module _ ⦃crypto : Crypto⦄ where
  pub record IsConsistent (s : ConsensusState) : Type 0 where
    pub rounds : HasRounds s
    pub causal : IsCausal s

  pub update_all-IsConsistent :
      (s : ConsensusState) (cs : List Certificate) → IsConsistent s → IsConsistent (update_all s cs)
  unfolding update_all
  update_all-IsConsistent s [] v = v
  update_all-IsConsistent s (c ∷ cs) v = update_all-IsConsistent (update s c) cs (record {
    rounds = update-HasRounds s c v.rounds;
    causal = update-IsCausal s c v.rounds v.causal;
  })

  -- The sub dag of a leader with given scores.
  abbrev sub_dag_of : ConsensusState → Certificate → ReputationScores → CommittedSubDag
  sub_dag_of s leader scores =
      let sequence = order_dag leader s in
      SubDag.new sequence leader scores (update_all s sequence).last_committed_sub_dag

  -- What the commit of one leader does: the state takes in the history of the leader, in the order of
  -- `order_dag`, and the sub dag holds that sequence.
  pub record Commits (s : ConsensusState) (leader : Certificate) (t : ConsensusState)
      (d : CommittedSubDag) : Type 0 where
    pub positive : 0 < round leader
    pub scores : ReputationScores
    pub sub_dag : d ≡ sub_dag_of s leader scores
    pub state : t ≡ record (update_all s (order_dag leader s)) { last_committed_sub_dag = some d }

  committed_parts :
      (s t : ConsensusState) (leader : Certificate) (scores : ReputationScores) (b b' : Bullshark)
      (d : CommittedSubDag) (changed changed' : Bool)
      → ◌≡◌ {A = Result Failure (Node × CommittedSubDag × Bool)}
          (ok (
            (
              b,
              record (update_all s (order_dag leader s)) {
                last_committed_sub_dag = some (sub_dag_of s leader scores);
              },
            ),
            sub_dag_of s leader scores,
            changed,
          ))
          (ok ((b', t), d, changed'))
      → (d ≡ sub_dag_of s leader scores)
        × (t ≡ record (update_all s (order_dag leader s)) { last_committed_sub_dag = some d })
        × (b' ≡ b)
        × (changed' ≡ changed)
  committed_parts s t leader scores b b' d changed changed' h =
      let same = ok-injective h in
      let dag = ap (λ x. x.1) same in
      let with_sub_dag = λ (y : CommittedSubDag). record (update_all s (order_dag leader s)) {
        last_committed_sub_dag = some y;
      } in
      (
        sym dag,
        sym (ap (λ x. x.0.1) same) ∙ ap with_sub_dag dag,
        sym (ap (λ x. x.0.0) same),
        sym (ap (λ x. x.2) same),
      )

  pub commit_sub_dag-Commits :
      (b : Bullshark) (s : ConsensusState) (leader : Certificate) {b' : Bullshark}
      {t : ConsensusState} {d : CommittedSubDag} {changed : Bool}
      → commit_sub_dag (b, s) leader ≡ ok ((b', t), d, changed)
      → Commits s leader t d
  unfolding commit_sub_dag
  commit_sub_dag-Commits b s leader {b'} {t} {d} {changed} h =
      elim (Bool-cases (ltb 0 (round leader))) [
        | inr f ↦ cc (rw (f, commit_sub_dag) at h)
        | inl f ↦
            let (scores, _, k) =
              >>=-eq-ok
                (resolve_reputation_score b (update_all s (order_dag leader s)) (order_dag leader s)
                  (nonce leader))
                _ (rw (f, commit_sub_dag) at h) in
            let ((c, now), _, k2) =
              >>=-eq-ok (update_leader_schedule b (round leader) scores) _ k in
            let (same_dag, same_state, _, _) =
              committed_parts s t leader scores c b' d now changed k2 in
            record {
              positive = ltb→lt 0 (round leader) f;
              scores = scores;
              sub_dag = same_dag;
              state = same_state;
            }
      ]

  pub Commits-IsConsistent :
      {s t : ConsensusState} {leader : Certificate} {d : CommittedSubDag}
      → Commits s leader t d
      → IsConsistent s
      → IsConsistent t
  Commits-IsConsistent {s} {leader} {d} c v =
      let w = update_all-IsConsistent s (order_dag leader s) v in
      subst IsConsistent (sym c.state) (record {
        rounds = record { gc = w.rounds.gc; committed = w.rounds.committed; live = w.rounds.live };
        causal = record { dag = w.causal.dag; complete = w.causal.complete };
      })

  pub Commits-Grows :
      {s t : ConsensusState} {leader : Certificate} {d : CommittedSubDag}
      → Commits s leader t d
      → Grows s t
  Commits-Grows {s} {leader} c =
      let w = update_all-Grows s (order_dag leader s) in
      subst (Grows s) (sym c.state) (record { committed = w.committed; by_author = w.by_author })

  -- The round of a committed certificate is recorded, and so is that of its leader.
  pub Commits-records :
      {s t : ConsensusState} {leader : Certificate} {d : CommittedSubDag} (c : Certificate)
      → Commits s leader t d
      → Memᴰ c (order_dag leader s)
      → (round c ≤ t.last_round.committed_round)
        × (round c ≤ lookup_or (origin c) 0 t.last_committed)
  Commits-records {s} {leader} c k m =
      subst
        (λ (u : ConsensusState).
          (round c ≤ u.last_round.committed_round)
          × (round c ≤ lookup_or (origin c) 0 u.last_committed))
        (sym k.state) (update_all-records s (order_dag leader s) c m)
