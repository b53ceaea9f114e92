-- ===== src/Consensus/Bullshark/Fresh.antt =====
-- The commit of a sub dag against the rounds recorded by author.
use telcoin_network.Base.{
  ℕ, ◌≤◌, ◌<◌, ◌≡◌, refl, sym, subst, ap, ◌∙◌, Bool, false, Option, some, List, [], ◌∷◌, ok, arith,
  Memᴰ,
}
use telcoin_network.Base.Map.{Map, lookup_or}
use telcoin_network.Types.Crypto.{Crypto}
use telcoin_network.Types.Certificate.{Certificate, round, origin}
use telcoin_network.Types.Reputation.{ReputationScores}
use telcoin_network.Types.SubDag
use telcoin_network.Types.SubDag.{CommittedSubDag}
use telcoin_network.Consensus.State.{ConsensusState, update}
use telcoin_network.Consensus.State.Rounds.{lookup_or-le-highest}
use telcoin_network.Consensus.Order.{order_dag, is_committed}
use telcoin_network.Consensus.Order.Sound.{History, lead, parent, order_dag_sound}
use telcoin_network.Consensus.Bullshark.{Bullshark, update_all, commit_sub_dag}
use telcoin_network.Consensus.Bullshark.Invariant.{
  IsConsistent, commit_sub_dag-Commits, Commits-records,
}
use telcoin_network.Consensus.Bullshark.Termination.{below_leader}

not_committed :
    (m : Map ℕ) (c : Certificate)
    → is_committed m c ≡ false
    → 0 < round c
    → lookup_or (origin c) 0 m < round c
unfolding is_committed
not_committed m c h above = ground (arith, h)

update_all-sub_dag :
    (s : ConsensusState) (cs : List Certificate)
    → (update_all s cs).last_committed_sub_dag ≡ s.last_committed_sub_dag
unfolding update_all update
update_all-sub_dag s [] = refl
update_all-sub_dag s (c ∷ cs) = update_all-sub_dag (update s c) cs

new_time :
    (cs : List Certificate) (leader : Certificate) (scores : ReputationScores)
    {previous : Option CommittedSubDag} (last : CommittedSubDag)
    → previous ≡ some last
    → (last.timestamp ≤ (SubDag.new cs leader scores previous).timestamp)
      × (leader.header.created_at ≤ (SubDag.new cs leader scores previous).timestamp)
unfolding SubDag.new
new_time cs leader scores {previous} last e =
    subst
      (λ p.
        (last.timestamp ≤ (SubDag.new cs leader scores p).timestamp)
        × (leader.header.created_at ≤ (SubDag.new cs leader scores p).timestamp))
      (sym e) (omega arith, omega arith)

module _ ⦃crypto : Crypto⦄ where
  fresh_below :
      (s : ConsensusState) (leader c : Certificate)
      → IsConsistent s
      → s.last_round.committed_round < round leader
      → History s leader c
      → lookup_or (origin c) 0 s.last_committed < round c
  fresh_below s leader c v above lead =
      omega (arith, v.rounds.committed, lookup_or-le-highest (origin leader) s.last_committed)
  fresh_below s leader c v above (parent {x} p d h low m at live) =
      not_committed s.last_committed c live
        (below_leader s leader c v (omega arith) (parent p d h low m at live)).0

  -- In a consistent state the commit of a leader above the committed round takes in, of each
  -- author, only certificates above the round recorded for the author before, and after it their
  -- rounds are within the recorded one.
  pub commit_sub_dag_fresh :
      (b : Bullshark) (s : ConsensusState) (leader : Certificate) {b' : Bullshark}
      {t : ConsensusState} {d : CommittedSubDag} {changed : Bool}
      → IsConsistent s
      → s.last_round.committed_round < round leader
      → commit_sub_dag (b, s) leader ≡ ok ((b', t), d, changed)
      → (c : Certificate) → Memᴰ c d.certificates
      → (lookup_or (origin c) 0 s.last_committed < round c)
        × (round c ≤ lookup_or (origin c) 0 t.last_committed)
  unfolding SubDag.new
  commit_sub_dag_fresh b s leader {d} v above h c m =
      let k = commit_sub_dag-Commits b s leader h in
      let in_order = subst (Memᴰ c) (ap (λ (x : CommittedSubDag). x.certificates) k.sub_dag) m in
      (
        fresh_below s leader c v above (order_dag_sound s leader c in_order),
        (Commits-records c k in_order).1,
      )

  -- The time of a sub dag is not before the time of the sub dag committed before it, nor before the
  -- time at which its leader was created, and it is stored as the last one.
  pub commit_sub_dag_time :
      (b : Bullshark) (s : ConsensusState) (leader : Certificate) {b' : Bullshark}
      {t : ConsensusState} {d last : CommittedSubDag} {changed : Bool}
      → s.last_committed_sub_dag ≡ some last
      → commit_sub_dag (b, s) leader ≡ ok ((b', t), d, changed)
      → (last.timestamp ≤ d.timestamp)
        × (leader.header.created_at ≤ d.timestamp)
        × (t.last_committed_sub_dag ≡ some d)
  unfolding SubDag.new
  commit_sub_dag_time b s leader {t} {d} {last} e h =
      let k = commit_sub_dag-Commits b s leader h in
      let before = update_all-sub_dag s (order_dag leader s) ∙ e in
      let (after, created) = new_time (order_dag leader s) leader k.scores last before in
      let time = ap (λ (x : CommittedSubDag). x.timestamp) k.sub_dag in
      (omega arith, omega arith, ap (λ (u : ConsensusState). u.last_committed_sub_dag) k.state)
