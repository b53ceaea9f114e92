-- ===== src/Consensus/Order/Complete.antt =====
-- `order_dag` puts the whole history of the leader in sequence.
use mathlib.Core.List.Memᴰ
use mathlib.Core.Logic.{⊎_elim}
use telcoin_network.Base.{
  ℕ, ◌≡◌, ◌≢◌, inl, inr, refl, sym, subst, ◌∙◌, ap, ◌==◌, false, some, Option-cases, Bool-cases,
  List, [], ◌∷◌, ◌++◌, map, All, All-mem, add_u32, sub_u32, arith, Memᴰ, ◌↔◌, ==_iff,
}
use telcoin_network.Base.Map.{lookup, values, of_mem-values}
use telcoin_network.Types.Crypto.{Crypto}
use telcoin_network.Types.Certificate.{Certificate, round, origin, parents, digest}
use telcoin_network.Consensus.State.{Dag, ConsensusState, entry_at}
use telcoin_network.Consensus.State.Insert.{IsDag, entry_of_mem}
use telcoin_network.Consensus.Order.{
  parent_entry, is_committed, Walk, offer, offer_all, visit, pop_into, order_gc_round, start_walk,
  walked, order_dag, dag_entries,
}
use telcoin_network.Consensus.Order.Ends.{Entry, find_digest-mem, parent_entry-mem, walked_ends}
use telcoin_network.Consensus.Order.Sound.{
  History, lead, parent, walk_rule, offer_all_rule, offer_cases, Found, Found-pop,
  mem-sort_by_round, order_dag_sound,
}

module _ (s : ConsensusState) (x : Certificate) where
  offer-ordered : (w : Walk) (p : ℕ) → (offer s x w p).ordered ≡ w.ordered
  offer-ordered w p = elim (offer_cases s x w p) [
    | inl (e, _) ↦ ap (λ (v : Walk). v.ordered) e
    | inr (d, c, _, _, _, e) ↦ ap (λ (v : Walk). v.ordered) e
  ]

  offer-keeps :
      (w : Walk) (p d : ℕ) → Memᴰ d w.already_ordered → Memᴰ d (offer s x w p).already_ordered
  offer-keeps w p d m = elim (offer_cases s x w p) [
    | inl (e, _) ↦ subst (λ (v : Walk). Memᴰ d v.already_ordered) (sym e) m
    | inr (_, _, _, _, _, e) ↦ subst (λ (v : Walk). Memᴰ d v.already_ordered) (sym e) (Memᴰ.tail m)
  ]

  offer-Found : (w : Walk) (p : ℕ) (c : Certificate) → Found w c → Found (offer s x w p) c
  offer-Found w p c f = elim (offer_cases s x w p) [
    | inl (e, _) ↦ subst (λ v. Found v c) (sym e) f
    | inr (_, _, _, _, _, e) ↦
        subst (λ v. Found v c) (sym e) (⊎_elim inl (λ m. inr (Memᴰ.tail m)) f)
  ]

  -- After the offer a live parent is marked.
  offer-marks :
      (w : Walk) (p d : ℕ) (c : Certificate)
      → parent_entry s.dag x p ≡ some (d, c)
      → is_committed s.last_committed c ≡ false
      → Memᴰ d (offer s x w p).already_ordered
  offer-marks w p d c at live = elim (offer_cases s x w p) [
    | inl (e, f) ↦ subst (λ (v : Walk). Memᴰ d v.already_ordered) (sym e) (f d c at live)
    | inr (d', c', at', _, _, e) ↦
        subst (λ (v : Walk). Memᴰ d v.already_ordered) (sym e) (Memᴰ.head (ground arith))
  ]

  offer_all-keeps :
      (w : Walk) (ps : List ℕ) (d : ℕ)
      → Memᴰ d w.already_ordered
      → Memᴰ d (offer_all s x w ps).already_ordered
  offer_all-keeps w ps d =
      offer_all_rule (λ (v : Walk). Memᴰ d v.already_ordered) s x ps (λ v p _. offer-keeps v p d) w

  offer_all-marks :
      (w : Walk) (ps : List ℕ) (p d : ℕ) (c : Certificate)
      → Memᴰ p ps
      → parent_entry s.dag x p ≡ some (d, c)
      → is_committed s.last_committed c ≡ false
      → Memᴰ d (offer_all s x w ps).already_ordered
  unfolding offer_all
  offer_all-marks w [] p d c m at live = absurd (Memᴰ.not-nil m)
  offer_all-marks w (q ∷ ps) p d c m at live = elim (Memᴰ.cases_cons m) [
    | inl e ↦
        offer_all-keeps (offer s x w q) ps d
          (subst (λ k. Memᴰ d (offer s x w k).already_ordered) e (offer-marks w p d c at live))
    | inr later ↦ offer_all-marks (offer s x w q) ps p d c later at live
  ]

module _ ⦃crypto : Crypto⦄ where
  -- The found parent stands in the DAG under its round and origin.
  pub parent_entry-at :
      (dag : Dag) (x : Certificate) (p d : ℕ) (c : Certificate)
      → IsDag dag
      → parent_entry dag x p ≡ some (d, c)
      → (round c ≡ sub_u32 (round x) 1)
        × (digest c ≡ d)
        × (entry_at dag (round c) (origin c) ≡ some (d, c))
  unfolding parent_entry
  parent_entry-at dag x p d c v h = elim (Option-cases (lookup (sub_u32 (round x) 1) dag)) [
    | inl e ↦ ground arith
    | inr (m, e) ↦
        let found = (find_digest-mem p d c (values m) (rw (e, parent_entry) at h)).1 in
        let (a, at) = of_mem-values (d, c) m found in
        entry_of_mem dag (sub_u32 (round x) 1) a d c m v e at
  ]

  module _ (s : ConsensusState) (leader : Certificate) (v : IsDag s.dag) where
    abbrev gc : ℕ
    gc = order_gc_round leader s

    abbrev Marked : Walk → Type 0
    Marked w = (d : ℕ) → Memᴰ d w.already_ordered → (c : Certificate) × Found w c × (digest c ≡ d)

    record Full (w : Walk) : Type 0 where
      leads : Found w leader
      marked : Marked w
      closed :
          (y c : Certificate) (p d : ℕ)
          → Memᴰ y w.ordered
          → round y ≢ add_u32 gc 1
          → Memᴰ p (parents y)
          → parent_entry s.dag y p ≡ some (d, c)
          → is_committed s.last_committed c ≡ false
          → Memᴰ d w.already_ordered

    offer-Marked : (x : Certificate) (w : Walk) (p : ℕ) → Marked w → Marked (offer s x w p)
    offer-Marked x w p h = elim (offer_cases s x w p) [
      | inl (e, _) ↦ subst Marked (sym e) h
      | inr (d, c, at, live, _, e) ↦ subst Marked (sym e) λ k m. elim (Memᴰ.cases_cons m) [
        | inl q ↦ (c, inr (Memᴰ.head refl), (parent_entry-at s.dag x p d c v at).1 ∙ sym q)
        | inr later ↦ let (y, f, q) = h k later in (y, ⊎_elim inl (λ b. inr (Memᴰ.tail b)) f, q)
      ]
    ]

    visit_keeps_Full :
        (w : Walk) (x : Certificate) (rest : List Certificate)
        → w.buffer ≡ x ∷ rest
        → Full w
        → Full (visit s gc w x rest)
    unfolding visit
    visit_keeps_Full w x rest e h = elim (Bool-cases (round x == add_u32 gc 1)) [
      | inl t ↦
          rw (t, visit)
            (record {
              leads = (Found-pop w x rest leader e).1 h.leads;
              marked = popped;
              closed = λ y c p d m low.
                  ⊎_elim (λ old. h.closed y c p d old low)
                    (λ new. absurd (
                      low (
                        subst (λ z. round z ≡ add_u32 gc 1) (sym (Memᴰ.eq_of_singleton new))
                          ((==_iff (round x) (add_u32 gc 1)).0 t))))
                    (Memᴰ.append_cases w.ordered m);
            })
      | inr t ↦
          let all = λ (P : Walk → Type 0) (keep : (u : Walk) (p : ℕ) → P u → P (offer s x u p)).
            offer_all_rule P s x (parents x) (λ u p _. keep u p) (pop_into w x rest) in
          let same =
            all (λ u. u.ordered ≡ w.ordered ++ x ∷ []) (λ u p q. offer-ordered s x u p ∙ q) refl in
          rw (t, visit)
            (record {
              leads =
                  all (λ u. Found u leader) (λ u p. offer-Found s x u p leader)
                    ((Found-pop w x rest leader e).1 h.leads);
              marked = all Marked (offer-Marked x) popped;
              closed = λ y c p d m low in_y at live.
                  ⊎_elim
                    (λ old.
                      offer_all-keeps s x (pop_into w x rest) (parents x) d
                        (h.closed y c p d old low in_y at live))
                    (λ new.
                      let q = Memᴰ.eq_of_singleton new in
                      offer_all-marks s x (pop_into w x rest) (parents x) p d c
                        (subst (λ z. Memᴰ p (parents z)) q in_y)
                        (subst (λ z. parent_entry s.dag z p ≡ some (d, c)) q at) live)
                    (Memᴰ.append_cases w.ordered (subst (Memᴰ y) same m));
            })
    ]
      where
        popped : Marked (pop_into w x rest)
        popped d m = let (c, f, q) = h.marked d m in (c, (Found-pop w x rest c e).1 f, q)

    start-Full : Full (start_walk leader)
    unfolding start_walk
    start-Full = record {
      leads = inr (Memᴰ.head refl);
      marked = λ d m. absurd (Memᴰ.not-nil m);
      closed = λ y c p d m. absurd (Memᴰ.not-nil m);
    }

    Full-walked : Full (walked leader s)
    unfolding walked
    Full-walked = walk_rule Full s gc visit_keeps_Full _ (start_walk leader) start-Full

    Found-walked : (c : Certificate) → Found (walked leader s) c → Memᴰ c (order_dag leader s)
    unfolding order_dag
    Found-walked c f =
        (mem-sort_by_round c _).1
          (⊎_elim (λ m. m) (λ b. absurd (Memᴰ.not-nil (subst (Memᴰ c) (walked_ends leader s) b))) f)

    -- The leader itself is in the sequence.
    pub leader-mem-order_dag : Memᴰ leader (order_dag leader s)
    leader-mem-order_dag = Found-walked leader Full-walked.leads

    -- Certificates of the DAG and the leader are told apart by their digests.
    abbrev pub DigestsDiffer : Type 0
    DigestsDiffer =
        All
          (λ a.
            All (λ b. digest a ≡ digest b → a ≡ b) (leader ∷ map (λ x. x.1) (dag_entries s.dag)))
          (leader ∷ map (λ x. x.1) (dag_entries s.dag))

    History-mem :
        (c : Certificate)
        → History s leader c
        → Memᴰ c (leader ∷ map (λ x. x.1) (dag_entries s.dag))
    History-mem c lead = Memᴰ.head refl
    History-mem c (parent {x} p d hx low m at live) =
        Memᴰ.tail (Memᴰ.map (λ (y : Entry). y.1) (parent_entry-mem s.dag x p d c at).1)

    differ :
        DigestsDiffer
        → (a b : Certificate) → History s leader a
        → History s leader b
        → digest a ≡ digest b
        → a ≡ b
    differ h a b ha hb = All-mem _ (All-mem _ h (History-mem a ha)) (History-mem b hb)

    ordered-mem : (c : Certificate) → Memᴰ c (order_dag leader s) → Memᴰ c (walked leader s).ordered
    unfolding order_dag
    ordered-mem c = (mem-sort_by_round c (walked leader s).ordered).0

    complete : DigestsDiffer → (c : Certificate) → History s leader c → Memᴰ c (order_dag leader s)
    complete h c lead = leader-mem-order_dag
    complete h c (parent {x} p d hx low m at live) =
        let in_x = ordered-mem x (complete h x hx) in
        let (c', f, q) = Full-walked.marked d (Full-walked.closed x c p d in_x low m at live) in
        let found = Found-walked c' f in
        let here = parent p d hx low m at live in
        let same =
          differ h c' c (order_dag_sound s leader c' found) here
            (q ∙ sym (parent_entry-at s.dag x p d c v at).1) in
        subst (λ y. Memᴰ y (order_dag leader s)) same found

    -- In a DAG that holds each certificate under its round, origin and digest, and where certificates
    -- with the leader are told apart by their digests, the sequence of a commit is the history of the
    -- leader, neither more nor less.
    pub order_dag_iff :
        DigestsDiffer → (c : Certificate) → Memᴰ c (order_dag leader s) ↔ History s leader c
    order_dag_iff h c = (order_dag_sound s leader c, complete h c)
