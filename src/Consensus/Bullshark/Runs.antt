-- ===== src/Consensus/Bullshark/Runs.antt =====
-- What the processing of a certificate does to the consensus state, as a run of commits.
use mathlib.Core.List.{append_assoc, append-nil}
use telcoin_network.Base.{
  ℕ, zero, suc, ◌<◌, ◌^◌, ◌≡◌, ◌≢◌, inl, inr, refl, sym, subst, ap, ◌∙◌, Bool, true, false, none,
  List, [], ◌∷◌, ◌++◌, ◌&&◌, ok, arith, ok-injective, >>=-eq-ok, ltb, leb, Bool-cases, Result-cases,
  Option-cases, not, is_empty, add_u32, ◌==◌, sub_u32, ◌||◌, ◌%◌,
}
use telcoin_network.Base.Map.{lookup, lookup_or, insert, lookup-insert, values}
use telcoin_network.Types.Crypto.{Crypto}
use telcoin_network.Types.Certificate.{Certificate, round, origin, digest}
use telcoin_network.Types.SubDag.{CommittedSubDag}
use telcoin_network.Consensus.State.{ConsensusState, try_insert, insert_in_dag}
use telcoin_network.Consensus.State.Rounds.{HasRounds}
use telcoin_network.Consensus.State.Causal.{try_insert-ok, try_insert-IsCausal}
use telcoin_network.Consensus.Schedule.{Election, leader_certificate}
use telcoin_network.Consensus.Leaders.{order_leaders}
use telcoin_network.Consensus.Bullshark.{
  Bullshark, Node, Outcome, commit_sub_dag, commit_leaders, commit_leader, commit_until,
  process_certificate, elect, report_leader_on_time_metrics, is_schedule_changed, support,
}
use telcoin_network.Consensus.Bullshark.Invariant.{
  Grows, Grows-refl, Grows-trans, IsConsistent, Commits, commit_sub_dag-Commits,
  Commits-IsConsistent, Commits-Grows,
}

module _ ⦃crypto : Crypto⦄ where
  -- The states that follow one another when leaders are committed, with their sub dags.
  pub data Runs : ConsensusState → ConsensusState → List CommittedSubDag → Type 0 where
    rest : {s : ConsensusState} → Runs s s []
    next :
        {s t u : ConsensusState} {leader : Certificate} {d : CommittedSubDag}
        {ds : List CommittedSubDag}
        → Commits s leader t d
        → Runs t u ds
        → Runs s u (d ∷ ds)

  pub Runs-trans :
      {s t u : ConsensusState} {ds es : List CommittedSubDag}
      → Runs s t ds
      → Runs t u es
      → Runs s u (ds ++ es)
  Runs-trans rest r = r
  Runs-trans (next c q) r = next c (Runs-trans q r)

  pub Runs-IsConsistent :
      {s t : ConsensusState} {ds : List CommittedSubDag}
      → Runs s t ds
      → IsConsistent s
      → IsConsistent t
  Runs-IsConsistent rest v = v
  Runs-IsConsistent (next c q) v = Runs-IsConsistent q (Commits-IsConsistent c v)

  pub Runs-Grows : {s t : ConsensusState} {ds : List CommittedSubDag} → Runs s t ds → Grows s t
  Runs-Grows {s} rest = Grows-refl s
  Runs-Grows (next c q) = Grows-trans (Commits-Grows c) (Runs-Grows q)

  live-insert :
      (s : ConsensusState) (c : Certificate)
      → HasRounds s
      → s.last_round.gc_round < round c
      → (r : ℕ) → lookup r (insert_in_dag s.dag c).0 ≢ none
      → s.last_round.gc_round < r
  unfolding insert_in_dag
  live-insert s c v above r = ground (
    arith,
    lookup-insert (round c) r (insert (origin c) (digest c, c) (lookup_or (round c) [] s.dag))
        s.dag,
    v.live r,
  )

  -- An insertion without an error keeps the invariant.
  pub try_insert-IsConsistent :
      (s : ConsensusState) (c : Certificate) {b : Bool}
      → IsConsistent s
      → round c < 2 ^ 32
      → (try_insert s c).1 ≡ ok b
      → IsConsistent (try_insert s c).0
  try_insert-IsConsistent s c v small h = record {
    rounds = elim (try_insert-ok s c h) [
      | inl (_, _, e) ↦ subst HasRounds (sym e) v.rounds
      | inr (above, _, _, _, e) ↦ subst HasRounds (sym e) (record {
        gc = v.rounds.gc;
        committed = v.rounds.committed;
        live = live-insert s c v.rounds above;
      })
    ];
    causal = try_insert-IsCausal s c v.causal small h;
  }

  try_insert-Grows : (s : ConsensusState) (c : Certificate) → Grows s (try_insert s c).0
  unfolding try_insert
  try_insert-Grows s c = record { committed = omega arith; by_author = λ a. omega arith }

  -- The result of a run of commits after others.
  abbrev pub Ran :
      ConsensusState → List CommittedSubDag → Node × Outcome × List CommittedSubDag → Type 0
  Ran s committed x = (ds : List CommittedSubDag) × (x.2 ≡ committed ++ ds) × Runs s x.0.1 ds

  commit_leaders-Runs :
      (b : Bullshark) (s : ConsensusState) (leaders : List Certificate)
      (committed : List CommittedSubDag) {x : Node × Outcome × List CommittedSubDag}
      → commit_leaders (b, s) leaders committed ≡ ok x
      → Ran s committed x
  unfolding commit_leaders
  commit_leaders-Runs b s [] committed h =
      subst (Ran s committed) (ok-injective h) ([], sym (append-nil committed), rest)
  commit_leaders-Runs b s (leader ∷ leaders) committed h =
      elim (Result-cases (commit_sub_dag (b, s) leader)) [
        | inr (e, q) ↦ cc (rw (q, commit_leaders) at h)
        | inl (((b', t), d, changed), q) ↦
            let c = commit_sub_dag-Commits b s leader q in
            elim (Bool-cases (changed && not (is_empty leaders))) [
              | inl f ↦
                  subst (Ran s committed) (ok-injective (rw (q, f, commit_leaders) at h))
                    (d ∷ [], refl, next c rest)
              | inr f ↦
                  let (ds, e, r) =
                    commit_leaders-Runs b' t leaders (committed ++ d ∷ [])
                      (rw (q, f, commit_leaders) at h) in
                  (d ∷ ds, e ∙ append_assoc committed (d ∷ []) ds, next c r)
            ]
      ]

  module _ ⦃election : Election⦄ where
    pub commit_leader-Runs :
        (b : Bullshark) (s : ConsensusState) (leader_round : ℕ)
        {x : Node × Outcome × List CommittedSubDag}
        → commit_leader (b, s) leader_round ≡ ok x
        → Ran s [] x
    unfolding commit_leader
    commit_leader-Runs b s leader_round h =
        let (found, e, k) =
          >>=-eq-ok (leader_certificate b.leader_schedule leader_round s.dag) _ h in
        elim (Option-cases found.1) [
          | inl q ↦ subst (Ran s []) (ok-injective (rw (q) at k)) ([], refl, rest)
          | inr (leader, q) ↦ elim (Option-cases (lookup (add_u32 leader_round 1) s.dag)) [
            | inl f ↦ cc (rw (q, f) at k)
            | inr (children, f) ↦
                elim (Bool-cases (
                  ltb (support b.committee leader (values children))
                    b.committee.validity_threshold)) [
                      | inl g ↦ subst (Ran s []) (ok-injective (rw (q, f, g) at k)) ([], refl, rest)
                      | inr g ↦
                          let (leaders, _, k2) =
                            >>=-eq-ok (order_leaders b.committee b.leader_schedule leader s) _
                              (rw (q, f, g) at k) in
                          commit_leaders-Runs b s leaders [] k2
                    ]
          ]
        ]

    pub commit_until-Runs :
        (fuel : ℕ) (b : Bullshark) (s : ConsensusState) (leader_round : ℕ)
        (committed : List CommittedSubDag) {x : Node × Outcome × List CommittedSubDag}
        → commit_until fuel (b, s) leader_round committed ≡ ok x
        → Ran s committed x
    unfolding commit_until
    commit_until-Runs zero b s leader_round committed h =
        subst (Ran s committed) (ok-injective h) ([], sym (append-nil committed), rest)
    commit_until-Runs (suc fuel) b s leader_round committed h =
        elim (Result-cases (commit_leader (b, s) leader_round)) [
          | inr (e, q) ↦ cc (rw (q, commit_until) at h)
          | inl (((b', t), o, more), q) ↦
              let (ds, e, r) = commit_leader-Runs b s leader_round q in
              elim (Bool-cases (is_schedule_changed o)) [
                | inl f ↦
                    let (es, e2, r2) =
                      commit_until-Runs fuel b' t leader_round (committed ++ more)
                        (rw (q, f, commit_until) at h) in
                    (
                      ds ++ es,
                      e2 ∙ (ap (λ l. (committed ++ l) ++ es) e ∙ append_assoc committed ds es),
                      Runs-trans r r2,
                    )
                | inr f ↦
                    subst (Ran s committed) (ok-injective (rw (q, f, commit_until) at h))
                      (ds, ap (λ l. committed ++ l) e, r)
              ]
        ]

    elect-Runs :
        (b : Bullshark) (s : ConsensusState) (certificate_round : ℕ)
        {x : Node × Outcome × List CommittedSubDag}
        → elect (b, s) certificate_round ≡ ok x
        → Ran s [] x
    unfolding elect
    elect-Runs b s certificate_round h =
        let r = sub_u32 certificate_round 1 in
        elim (Bool-cases (not (r % 2 == 0) || ltb r 2)) [
          | inl q ↦ subst (Ran s []) (ok-injective (rw (q) at h)) ([], refl, rest)
          | inr q ↦ elim (Bool-cases (leb r s.last_round.committed_round)) [
            | inl f ↦ subst (Ran s []) (ok-injective (rw (q, f) at h)) ([], refl, rest)
            | inr f ↦
                let ((node, o, out), e, k) =
                  >>=-eq-ok (commit_until r (b, s) r []) _ (rw (q, f) at h) in
                let (ds, e2, run) = commit_until-Runs r b s r [] e in
                subst (Ran s []) (ok-injective k) (ds, e2, run)
          ]
        ]

    -- After the insertion, processing a certificate is a run of commits.
    pub process_certificate-Runs :
        (b : Bullshark) (s : ConsensusState) (c : Certificate)
        {x : Node × Outcome × List CommittedSubDag}
        → process_certificate (b, s) c ≡ ok x
        → ((inserted : Bool) × ((try_insert s c).1 ≡ ok inserted)) × Ran (try_insert s c).0 [] x
    unfolding process_certificate elect
    process_certificate-Runs b s c h = elim (Result-cases (try_insert s c).1) [
      | inr (e, q) ↦ cc (rw (q, process_certificate) at h)
      | inl (false, q) ↦ (
        (false, q),
        subst (Ran (try_insert s c).0 []) (ok-injective (rw (q, process_certificate) at h))
            ([], refl, rest),
      )
      | inl (true, q) ↦
          let (b', e, k) =
            >>=-eq-ok (report_leader_on_time_metrics b (round c)) _
              (rw (q, process_certificate) at h) in
          ((true, q), elect-Runs b' (try_insert s c).0 (round c) k)
    ]

    -- Processing a certificate, of a round that is a u32 number, without an error keeps the invariant
    -- of the state, and lowers none of the committed rounds.
    pub process_certificate-IsConsistent :
        (b : Bullshark) (s : ConsensusState) (c : Certificate)
        {x : Node × Outcome × List CommittedSubDag}
        → IsConsistent s
        → round c < 2 ^ 32
        → process_certificate (b, s) c ≡ ok x
        → IsConsistent x.0.1 × Grows s x.0.1
    process_certificate-IsConsistent b s c v small h =
        let ((_, q), (_, _, r)) = process_certificate-Runs b s c h in
        (
          Runs-IsConsistent r (try_insert-IsConsistent s c v small q),
          Grows-trans (try_insert-Grows s c) (Runs-Grows r),
        )
