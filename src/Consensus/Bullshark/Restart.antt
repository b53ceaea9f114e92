-- ===== src/Consensus/Bullshark/Restart.antt =====
-- A node that restarts, from the blocks of its commits: crates/consensus/primary/src/consensus, and
-- the store of crates/storage/src/stores/consensus_store.rs.
use telcoin_network.Base.{
  ℕ, ◌≤◌, ◌<◌, ◌^◌, ◌≡◌, refl, sym, subst, ap, ◌∙◌, Bool, some, List, [], ok, All, All-map,
  All-intro, Result-cases, ok-injective, arith, inl, inr,
}
use telcoin_network.Base.Map.{values}
use telcoin_network.Types.Crypto.{Crypto}
use telcoin_network.Types.Certificate.{Certificate, round}
use telcoin_network.Types.SubDag
use telcoin_network.Types.SubDag.{CommittedSubDag, leader_round}
use telcoin_network.Consensus.State.{
  ConsensusState, new_state, try_insert, highest_committed, new_with_gc_depth, gc_round_of,
  new_from_store, construct_dag_from_cert_store,
}
use telcoin_network.Consensus.State.Rounds.{new_state-HasRounds}
use telcoin_network.Consensus.State.Causal.{new_state-IsCausal}
use telcoin_network.Consensus.Order.{order_dag}
use telcoin_network.Consensus.Bullshark.{Bullshark, commit_sub_dag}
use telcoin_network.Consensus.Bullshark.Invariant.{
  Commits, Commits-IsConsistent, Commits-Grows, Commits-records, IsConsistent,
  commit_sub_dag-Commits,
}
use telcoin_network.Consensus.Bullshark.Runs.{try_insert-IsConsistent}
use telcoin_network.Consensus.Bullshark.Termination.{Commits-round}
use telcoin_network.Storage.Blocks.{
  ConsensusBlocks, save_consensus, read_last_committed, get_latest_sub_dag, raise_blocks,
}
use telcoin_network.Storage.Blocks.Highest.{
  Within, values-save_consensus, get_latest-save_consensus, highest-read_last_committed,
}

module _ ⦃crypto : Crypto⦄ where
  -- The blocks that a node has saved, and its state after the last of their commits and any later
  -- insertions. It started with an empty state and no blocks; insertions met no error; each leader
  -- was above the committed round; and each commit was saved under a number above all before it.
  pub data Saved : ConsensusBlocks → ConsensusState → Type 0 where
    started :
        {blocks : ConsensusBlocks} {s : ConsensusState} (gc_depth : ℕ)
        → blocks ≡ []
        → s ≡ new_state gc_depth
        → Saved blocks s
    inserted :
        {blocks : ConsensusBlocks} {s t : ConsensusState} (c : Certificate) (fresh : Bool)
        → Saved blocks s
        → round c < 2 ^ 32
        → (try_insert s c).1 ≡ ok fresh
        → t ≡ (try_insert s c).0
        → Saved blocks t
    committed :
        {blocks later : ConsensusBlocks} {s t : ConsensusState} (b b' : Bullshark)
        (leader : Certificate) (d : CommittedSubDag) (changed : Bool) (number : ℕ)
        → Saved blocks s
        → s.last_round.committed_round < round leader
        → commit_sub_dag (b, s) leader ≡ ok ((b', t), d, changed)
        → All (λ (x : ℕ × CommittedSubDag). x.0 < number) blocks
        → later ≡ save_consensus number d blocks
        → Saved later t

  -- What the blocks say of the state.
  pub record Tells (blocks : ConsensusBlocks) (s : ConsensusState) : Type 0 where
    pub consistent : IsConsistent s
    pub within : All (Within s.last_round.committed_round) (values blocks)
    pub highest : highest_committed (read_last_committed blocks) ≡ s.last_round.committed_round
    pub latest : get_latest_sub_dag blocks ≡ s.last_committed_sub_dag
    pub leads :
        (d : CommittedSubDag)
        → s.last_committed_sub_dag ≡ some d
        → leader_round d ≡ s.last_round.committed_round

  pub new_state-IsConsistent : (gc_depth : ℕ) → IsConsistent (new_state gc_depth)
  new_state-IsConsistent gc_depth = record {
    rounds = new_state-HasRounds gc_depth;
    causal = new_state-IsCausal gc_depth;
  }

  started-Tells : (gc_depth : ℕ) → Tells [] (new_state gc_depth)
  unfolding new_state read_last_committed raise_blocks highest_committed values get_latest_sub_dag
  started-Tells gc_depth = record {
    consistent = new_state-IsConsistent gc_depth;
    within = tt;
    highest = refl;
    latest = refl;
    leads = λ d e. cc;
  }

  inserted-Tells :
      (blocks : ConsensusBlocks) (s : ConsensusState) (c : Certificate) {fresh : Bool}
      → Tells blocks s
      → round c < 2 ^ 32
      → (try_insert s c).1 ≡ ok fresh
      → Tells blocks (try_insert s c).0
  unfolding try_insert
  inserted-Tells blocks s c h small e = record {
    consistent = try_insert-IsConsistent s c h.consistent small e;
    within = h.within;
    highest = h.highest;
    latest = h.latest;
    leads = h.leads;
  }

  own-Within :
      {s t : ConsensusState} {leader : Certificate} {d : CommittedSubDag}
      → Commits s leader t d
      → IsConsistent s
      → s.last_round.committed_round < round leader
      → Within t.last_round.committed_round d × (leader_round d ≡ t.last_round.committed_round)
  unfolding leader_round SubDag.new
  own-Within {s} {t} {leader} {d} k v above =
      let n = t.last_round.committed_round in
      let top : leader_round d ≡ n = ap leader_round k.sub_dag ∙ sym (Commits-round k v above) in
      let sequence : d.certificates ≡ order_dag leader s =
        ap (λ (x : CommittedSubDag). x.certificates) k.sub_dag in
      (
        (
          omega (arith, top),
          subst (All (λ c. round c ≤ n)) (sym sequence) (
              All-intro (λ c. round c ≤ n) (order_dag leader s) (λ c m. (Commits-records c k m).0)),
        ),
        top,
      )

  committed-Tells :
      (blocks : ConsensusBlocks) {s t : ConsensusState} {leader : Certificate} {d : CommittedSubDag}
      (number : ℕ)
      → Tells blocks s
      → s.last_round.committed_round < round leader
      → Commits s leader t d
      → All (λ (x : ℕ × CommittedSubDag). x.0 < number) blocks
      → Tells (save_consensus number d blocks) t
  committed-Tells blocks {s} {t} {leader} {d} number h above k rising =
      let n = t.last_round.committed_round in
      let (own, top) = own-Within k h.consistent above in
      let up = (Commits-Grows k).committed in
      let old =
        All-map (Within s.last_round.committed_round) (Within n) (values blocks)
          (λ x w. (
            omega (arith, w.0, up),
            All-map _ (λ c. round c ≤ n) x.certificates
                (λ (c : Certificate) (le : round c ≤ s.last_round.committed_round).
                  omega (arith, le, up))
                w.1,
          ))
          h.within in
      let last = ap (λ (u : ConsensusState). u.last_committed_sub_dag) k.state in
      record {
        consistent = Commits-IsConsistent k h.consistent;
        within = values-save_consensus (Within n) number d blocks rising old own;
        highest = highest-read_last_committed number n d blocks rising old own top;
        latest = get_latest-save_consensus number d blocks rising ∙ sym last;
        leads = λ e f. subst (λ x. leader_round x ≡ n) (cc (f, last)) top;
      }

  Saved-Tells : {saved : ConsensusBlocks} {now : ConsensusState} → Saved saved now → Tells saved now
  Saved-Tells {now} (started gc_depth none_yet e) =
      subst (λ bs. Tells bs now) (sym none_yet) (subst (Tells []) (sym e) (started-Tells gc_depth))
  Saved-Tells {saved} (inserted {s} c fresh r small q e) =
      subst (Tells saved) (sym e) (inserted-Tells saved s c (Saved-Tells r) small q)
  Saved-Tells {now} (committed {blocks} {s} b b' leader d changed number r above q rising e) =
      subst (λ bs. Tells bs now) (sym e)
        (committed-Tells blocks number (Saved-Tells r) above (commit_sub_dag-Commits b s leader q)
          rising)

  -- The assertion of a restart holds: of the blocks that a node has saved, the leader of the last sub
  -- dag is of the largest round that is read back as committed from the last 50 of them. The node
  -- started with an empty state, inserted certificates of u32 rounds without errors, committed
  -- leaders above the committed round, and saved each commit under a number above all before it.
  pub restart_agrees :
      (blocks : ConsensusBlocks) (s : ConsensusState) (d : CommittedSubDag)
      → Saved blocks s
      → get_latest_sub_dag blocks ≡ some d
      → leader_round d ≡ highest_committed (read_last_committed blocks)
  restart_agrees blocks s d r e =
      let h = Saved-Tells r in h.leads d (sym h.latest ∙ e) ∙ sym h.highest

  -- If a node restarts without an error on the blocks that it has saved, with the same depth of
  -- garbage collection, it gets the committed and the garbage collection round and the last sub dag of
  -- the state after the last saved commit, whatever its certificate store holds, and its committed
  -- round is the largest of its committed rounds by author. Conditions as for the assertion.
  pub new_from_store-recovers :
      (blocks : ConsensusBlocks) (s : ConsensusState) (after_round : ℕ → List Certificate)
      {t : ConsensusState}
      → Saved blocks s
      → new_from_store
          (highest_committed (read_last_committed blocks))
          s.gc_depth
          (read_last_committed blocks)
          (get_latest_sub_dag blocks)
          after_round
        ≡ ok t
      → (t.last_round ≡ s.last_round)
        × (t.last_committed_sub_dag ≡ s.last_committed_sub_dag)
        × (t.last_round.committed_round ≡ highest_committed t.last_committed)
  unfolding new_from_store new_with_gc_depth gc_round_of
  new_from_store-recovers blocks s after_round {t} r e =
      let h = Saved-Tells r in
      let read = read_last_committed blocks in
      let now = new_with_gc_depth (highest_committed read) s.gc_depth in
      let same : now ≡ s.last_round = ground (arith, h.highest, h.consistent.rounds.gc) in
      elim (Result-cases (construct_dag_from_cert_store after_round read now.gc_round)) [
        | inr (x, f) ↦ cc (rw (f, new_from_store) at e)
        | inl (dag, f) ↦
            let made = ok-injective (rw (f, new_from_store) at e) in
            (
              sym (ap (λ (u : ConsensusState). u.last_round) made) ∙ same,
              sym (ap (λ (u : ConsensusState). u.last_committed_sub_dag) made) ∙ h.latest,
              subst
                  (λ (u : ConsensusState).
                    u.last_round.committed_round ≡ highest_committed u.last_committed)
                  made refl,
            )
      ]
