-- ===== src/Consensus/State/Causal.antt =====
-- `try_insert` and `update` of the consensus state, and the parents that stand in the DAG.
use mathlib.Core.List.Memᴰ
use telcoin_network.Base.{
  ℕ, suc, ◌≤◌, ◌<◌, ◌^◌, ◌≡◌, ◌⊎◌, ◌&&◌, inl, inr, refl, sym, subst, ltb, Bool, true, false, none,
  some, Option-cases, Bool-cases, [], ◌∷◌, arith, if◌then◌else◌, ◌==◌, Memᴰ, mem-cons, ok, sub_u32,
  ==_iff,
}
use telcoin_network.Base.Map.{Map, lookup, insert, retain, values, lookup_or, lookup-retain}
use telcoin_network.Types.Crypto.{Crypto}
use telcoin_network.Types.Certificate.{Certificate, round, origin, digest}
use telcoin_network.Consensus.State.{
  Dag, ConsensusState, entry_at, digests, check_parents, insert_in_dag, try_insert_in_dag,
  try_insert, update, gc_round_of, update_round, new_state,
}
use telcoin_network.Consensus.State.Insert.{
  IsDag, ParentsIn, table, table-insert, entry_at-table, entry_at-insert, insert_in_dag-IsDag,
  check_parents-ok,
}
use telcoin_network.Consensus.State.Rounds.{HasRounds}

mem-digests-insert :
    (k dg p : ℕ) (x : Certificate) (m : Map (ℕ × Certificate))
    → (lookup k m ≡ none) ⊎ ((x0 : Certificate) × (lookup k m ≡ some (dg, x0)))
    → Memᴰ p (digests m)
    → Memᴰ p (digests (insert k (dg, x) m))
unfolding lookup insert values
mem-digests-insert k dg p x [] h mem = absurd (Memᴰ.not-nil mem)
mem-digests-insert k dg p x ((j, (e, y)) ∷ m) h mem = ground (
  arith,
  mem-digests-insert k dg p x m,
  mem-cons p e (digests m),
  mem-cons p dg (digests m),
  mem-cons p dg (e ∷ digests m),
  mem-cons p e (digests (insert k (dg, x) m)),
)

lookup-nil : (a : ℕ) → lookup {V = ℕ × Certificate} a [] ≡ none
unfolding lookup
lookup-nil a = refl

module _ ⦃crypto : Crypto⦄ where
  -- What an insertion without an error did: nothing, at or below the garbage collection round, and
  -- otherwise it stored the certificate over nothing but itself, after its parents were found.
  pub try_insert-ok :
      (s : ConsensusState) (c : Certificate) {b : Bool}
      → (try_insert s c).1 ≡ ok b
      → ((round c ≤ s.last_round.gc_round) × (b ≡ false) × ((try_insert s c).0 ≡ s))
        ⊎ ((s.last_round.gc_round < round c)
            × (check_parents c s.dag s.last_round.gc_round ≡ ok tt)
            × ((insert_in_dag s.dag c).1 ≡ ok tt)
            × (b ≡ ltb (lookup_or (origin c) 0 s.last_committed) (round c))
            × ((try_insert s c).0 ≡ record s { dag = (insert_in_dag s.dag c).0 }))
  unfolding try_insert try_insert_in_dag
  try_insert-ok s c {b} h = ground arith

  insert_in_dag-ok :
      (d : Dag) (c : Certificate)
      → IsDag d
      → (insert_in_dag d c).1 ≡ ok tt
      → (lookup (origin c) (table d (round c)) ≡ none)
        ⊎ ((x : Certificate) × (lookup (origin c) (table d (round c)) ≡ some (digest c, x)))
  unfolding insert_in_dag
  insert_in_dag-ok d c v h = elim (Option-cases (lookup (origin c) (table d (round c)))) [
    | inl e ↦ inl e
    | inr ((dg, x), e) ↦
        let known =
          v.entries (round c) (origin c) dg x (rw (entry_at-table d (round c) (origin c)) e) in
        inr (x, ground arith)
  ]

  -- An insertion without an error keeps every digest of every round.
  digests-insert :
      (d : Dag) (c : Certificate) (r p : ℕ)
      → IsDag d
      → (insert_in_dag d c).1 ≡ ok tt
      → Memᴰ p (digests (table d r))
      → Memᴰ p (digests (table (insert_in_dag d c).0 r))
  digests-insert d c r p v h m = elim (Bool-cases (round c == r)) [
    | inl e ↦
        rw (table-insert d c r, e)
          (mem-digests-insert (origin c) (digest c) p c (table d r)
            (subst
              (λ q.
                (lookup (origin c) (table d q) ≡ none)
                ⊎ ((x : Certificate) × (lookup (origin c) (table d q) ≡ some (digest c, x))))
              ((==_iff (round c) r).0 e) (insert_in_dag-ok d c v h))
            m)
    | inr e ↦ rw (table-insert d c r, e) m
  ]

  pub record IsCausal (s : ConsensusState) : Type 0 where
    pub dag : IsDag s.dag
    pub complete :
        (r a dg : ℕ) (c : Certificate)
        → entry_at s.dag r a ≡ some (dg, c)
        → suc s.last_round.gc_round < r
        → ParentsIn s.dag c

  pub new_state-IsCausal : (depth : ℕ) → IsCausal (new_state depth)
  unfolding new_state entry_at lookup
  new_state-IsCausal depth = record {
    dag = record { entries = λ r a dg c e. cc; tables = λ r. tt };
    complete = λ r a dg c e. cc;
  }

  -- An insertion without an error of a certificate whose round is a u32 number keeps the DAG causally
  -- complete.
  pub try_insert-IsCausal :
      (s : ConsensusState) (c : Certificate) {b : Bool}
      → IsCausal s
      → round c < 2 ^ 32
      → (try_insert s c).1 ≡ ok b
      → IsCausal (try_insert s c).0
  try_insert-IsCausal s c v small h = elim (try_insert-ok s c h) [
    | inl (_, _, e) ↦ subst IsCausal (sym e) v
    | inr (above, checked, stored, _, e) ↦ subst IsCausal (sym e) (record {
      dag = insert_in_dag-IsDag s.dag c v.dag;
      complete = λ r a dg x at late p m.
          digests-insert s.dag c (sub_u32 (round x) 1) p v.dag stored
            (elim (Bool-cases ((round c == r) && (origin c == a))) [
              | inl q ↦
                  let e : c ≡ x = ground (arith, entry_at-insert s.dag c r a) in
                  subst (ParentsIn s.dag) e
                    (check_parents-ok c s.dag s.last_round.gc_round checked (ground arith)) p m
              | inr q ↦ v.complete r a dg x (ground (arith, entry_at-insert s.dag c r a)) late p m
            ]);
    })
  ]

  table-retain :
      (test : ℕ → Bool) (d : Dag) (r : ℕ)
      → table (retain test d) r ≡ (if test r then table d r else [])
  table-retain test d r = ground (arith, lookup-retain test r d)

  retain-IsDag : (test : ℕ → Bool) (d : Dag) → IsDag d → IsDag (retain test d)
  unfolding lookup
  retain-IsDag test d v = record {
    entries = λ r a dg c. ground (
      arith,
      entry_at-table (retain test d) r a,
      entry_at-table d r a,
      table-retain test d r,
      v.entries r a dg c,
    );
    tables = λ r. elim (Bool-cases (test r)) [
      | inl e ↦ rw (table-retain test d r, e) (v.tables r)
      | inr e ↦ rw (table-retain test d r, e) tt
    ];
  }

  -- Committing a certificate, with the garbage collection that follows, keeps the DAG causally
  -- complete, where the rounds of the state belong to one another.
  pub update-IsCausal :
      (s : ConsensusState) (c : Certificate) → HasRounds s → IsCausal s → IsCausal (update s c)
  unfolding update update_round gc_round_of
  update-IsCausal s c w v = record {
    dag = retain-IsDag _ s.dag v.dag;
    complete = λ r a dg x at late p m.
        let keep = λ (q : ℕ). ltb (update_round s.last_round (round c) s.gc_depth).gc_round q in
        let old : entry_at s.dag r a ≡ some (dg, x) = ground (
          arith,
          entry_at-table (retain keep s.dag) r a,
          entry_at-table s.dag r a,
          table-retain keep s.dag r,
          lookup-nil a,
        ) in
        let here = (v.dag.entries r a dg x old).0 in
        let kept : keep (sub_u32 (round x) 1) ≡ true = ground (arith, w.gc) in
        rw (table-retain keep s.dag (sub_u32 (round x) 1), kept)
          (v.complete r a dg x old (omega (arith, w.gc)) p m);
  }
