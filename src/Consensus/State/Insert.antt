-- ===== src/Consensus/State/Insert.antt =====
-- Insertion into the DAG: what each branch does, and that the DAG stays keyed and causally complete.
use mathlib.Core.List.Memᴰ
use telcoin_network.Base.{
  ℕ, ◌<◌, ◌≡◌, ◌&&◌, inl, inr, refl, sym, subst, ◌∙◌, ap, Option, none, some, Option-cases,
  Bool-cases, List, [], ◌∷◌, arith, if◌then◌else◌, ◌==◌, Memᴰ, mem-cons, contains_iff, ok, sub_u32,
  add_u32,
}
use telcoin_network.Base.Map.{
  Map, lookup, insert, IsSorted, lookup_or, lookup-insert, insert-IsSorted, lookup_of_mem,
}
use telcoin_network.Types.Crypto.{Crypto}
use telcoin_network.Types.Certificate.{Certificate, round, origin, parents, digest}
use telcoin_network.Consensus.State.{
  Dag, entry_at, digests, missing_among, check_parents, insert_in_dag,
}

-- The certificates of a round.
abbrev pub table : Dag → ℕ → Map (ℕ × Certificate)
table d r = lookup_or r [] d

pub table_of_lookup :
    (d : Dag) (r : ℕ) {m : Map (ℕ × Certificate)} → lookup r d ≡ some m → table d r ≡ m
table_of_lookup d r e =
    ap (λ o. elim o as (λ _. Map (ℕ × Certificate)) [ none ↦ [] | some v ↦ v ]) e

lookup_in :
    (o : Option (Map (ℕ × Certificate))) (a : ℕ)
    → (elim o [ none ↦ none | some m ↦ lookup a m ])
      ≡ lookup a (elim o as (λ _. Map (ℕ × Certificate)) [ none ↦ [] | some m ↦ m ])
unfolding lookup
lookup_in none a = refl
lookup_in (some m) a = refl

pub entry_at-table : (d : Dag) (r a : ℕ) → entry_at d r a ≡ lookup a (table d r)
unfolding entry_at
entry_at-table d r a = lookup_in (lookup r d) a

module _ ⦃crypto : Crypto⦄ where
  -- Each entry stands under its own round and origin, with its own digest.
  pub record IsDag (d : Dag) : Type 0 where
    pub entries :
        (r a dg : ℕ) (c : Certificate)
        → entry_at d r a ≡ some (dg, c)
        → (round c ≡ r) × (origin c ≡ a) × (digest c ≡ dg)
    pub tables : (r : ℕ) → IsSorted (table d r)

  -- A member of the table of a round stands in the DAG under its round and origin.
  pub entry_of_mem :
      (dag : Dag) (r a d : ℕ) (c : Certificate) (m : Map (ℕ × Certificate))
      → IsDag dag
      → lookup r dag ≡ some m
      → Memᴰ (a, (d, c)) m
      → (round c ≡ r) × (digest c ≡ d) × (entry_at dag (round c) (origin c) ≡ some (d, c))
  entry_of_mem dag r a d c m v e at =
      let sorted = subst IsSorted (table_of_lookup dag r e) (v.tables r) in
      let here : entry_at dag r a ≡ some (d, c) =
        entry_at-table dag r a
        ∙ ap (lookup a) (table_of_lookup dag r e)
        ∙ lookup_of_mem a (d, c) m sorted at in
      let (same_round, same_origin, same_digest) = v.entries r a d c here in
      (
        same_round,
        same_digest,
        subst (λ q. entry_at dag q (origin c) ≡ some (d, c)) (sym same_round)
            (subst (λ q. entry_at dag r q ≡ some (d, c)) (sym same_origin) here),
      )

  pub table-insert :
      (d : Dag) (c : Certificate) (r : ℕ)
      → table (insert_in_dag d c).0 r
        ≡ (if round c == r then insert (origin c) (digest c, c) (table d r) else table d r)
  unfolding insert_in_dag
  table-insert d c r =
      ground
        (arith, lookup-insert (round c) r (insert (origin c) (digest c, c) (table d (round c))) d)

  pub entry_at-insert :
      (d : Dag) (c : Certificate) (r a : ℕ)
      → entry_at (insert_in_dag d c).0 r a
        ≡ (if (round c == r) && (origin c == a) then some (digest c, c) else entry_at d r a)
  entry_at-insert d c r a = ground (
    arith,
    entry_at-table d r a,
    entry_at-table (insert_in_dag d c).0 r a,
    table-insert d c r,
    lookup-insert (origin c) a (digest c, c) (table d r),
  )

  pub insert_in_dag-IsDag : (d : Dag) (c : Certificate) → IsDag d → IsDag (insert_in_dag d c).0
  insert_in_dag-IsDag d c h = record {
    entries = λ r a dg x. ground (arith, entry_at-insert d c r a, h.entries r a dg x);
    tables = λ r. elim (Bool-cases (round c == r)) [
      | inl e ↦ rw (table-insert d c r, e) (insert-IsSorted (origin c) (digest c, c) _ (h.tables r))
      | inr e ↦ rw (table-insert d c r, e) (h.tables r)
    ];
  }

  -- The parents of a certificate stand in the round below it.
  abbrev pub ParentsIn : Dag → Certificate → Type 0
  ParentsIn d c = (p : ℕ) → Memᴰ p (parents c) → Memᴰ p (digests (table d (sub_u32 (round c) 1)))

  pub missing_among-none :
      (known ps : List ℕ) → missing_among known ps ≡ none → (p : ℕ) → Memᴰ p ps → Memᴰ p known
  unfolding missing_among
  missing_among-none known [] h p m = absurd (Memᴰ.not-nil m)
  missing_among-none known (q ∷ ps) h p m =
      ground
        (arith, missing_among-none known ps (ground arith) p, contains_iff q known, mem-cons p q ps)

  checked_parents :
      (c : Certificate) (d : Dag) (gc : ℕ)
      → check_parents c d gc ≡ ok tt
      → add_u32 gc 1 < round c
      → missing_among (digests (table d (sub_u32 (round c) 1))) (parents c) ≡ none
  unfolding check_parents
  checked_parents c d gc h above = elim (Option-cases (lookup (sub_u32 (round c) 1) d)) [
    | inl e ↦ ground arith
    | inr (m, e) ↦ ground arith
  ]

  -- Outside the round after garbage collection, the check passes only if no parent is missing.
  pub check_parents-ok :
      (c : Certificate) (d : Dag) (gc : ℕ)
      → check_parents c d gc ≡ ok tt
      → add_u32 gc 1 < round c
      → ParentsIn d c
  check_parents-ok c d gc h above =
      missing_among-none _ (parents c) (checked_parents c d gc h above)
