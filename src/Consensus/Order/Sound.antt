-- ===== src/Consensus/Order/Sound.antt =====
-- The loop of `order_dag` against the history of a leader.
use mathlib.Core.List.Memᴰ
use mathlib.Core.Logic.{⊎_elim}
use telcoin_network.Base.{
  ℕ, zero, suc, ◌≡◌, ◌≢◌, ◌⊎◌, inl, inr, refl, sym, subst, ◌||◌, ◌==◌, false, some, Option-cases,
  Bool-cases, List-cases, List, [], ◌∷◌, ◌++◌, contains, add_u32, arith, Memᴰ, mem-cons, mem-append,
  contains_iff, ◌↔◌, leb, ==_iff,
}
use telcoin_network.Types.Certificate.{Certificate, round, parents}
use telcoin_network.Consensus.State.{ConsensusState}
use telcoin_network.Consensus.Order.{
  parent_entry, is_committed, Walk, offer, offer_all, visit, pop_into, walk, order_gc_round,
  start_walk, walked, insert_by_round, sort_by_round, order_dag,
}

-- The certificates that the commit of a leader should bring: the leader, and with a certificate the
-- parents that stand in the DAG and are not committed, down to the round after garbage collection.
pub data History (s : ConsensusState) (leader : Certificate) : Certificate → Type 0 where
  lead : History s leader leader
  parent :
      {x c : Certificate} (p d : ℕ)
      → History s leader x
      → round x ≢ add_u32 (order_gc_round leader s) 1
      → Memᴰ p (parents x)
      → parent_entry s.dag x p ≡ some (d, c)
      → is_committed s.last_committed c ≡ false
      → History s leader c

-- An invariant of one round holds after all.
pub walk_rule {ℓ} :
    (P : Walk → Type ℓ) (s : ConsensusState) (gc : ℕ)
    → ((w : Walk) (x : Certificate) (rest : List Certificate)
        → w.buffer ≡ x ∷ rest
        → P w
        → P (visit s gc w x rest))
    → (fuel : ℕ) (w : Walk) → P w
    → P (walk s gc fuel w)
unfolding walk
walk_rule P s gc keep zero w h = h
walk_rule P s gc keep (suc fuel) w h = elim (List-cases w.buffer) [
  | inl e ↦ rw (e, walk) h
  | inr (x, rest, e) ↦
      rw (e, walk) (walk_rule P s gc keep fuel (visit s gc w x rest) (keep w x rest e h))
]

pub offer_all_rule {ℓ} :
    (P : Walk → Type ℓ) (s : ConsensusState) (x : Certificate) (ps : List ℕ)
    → ((w : Walk) (p : ℕ) → Memᴰ p ps → P w → P (offer s x w p))
    → (w : Walk) → P w
    → P (offer_all s x w ps)
unfolding offer_all
offer_all_rule P s x [] keep w h = h
offer_all_rule P s x (p ∷ ps) keep w h =
    offer_all_rule P s x ps (λ v q m. keep v q (Memᴰ.tail m)) (offer s x w p)
      (keep w p (Memᴰ.head refl) h)

-- A parent is skipped, or pushed and marked.
abbrev pub OfferCases : ConsensusState → Certificate → Walk → ℕ → Type 0
OfferCases s x w p =
    ((offer s x w p ≡ w)
      × ((d : ℕ) (c : Certificate)
          → parent_entry s.dag x p ≡ some (d, c)
          → is_committed s.last_committed c ≡ false
          → Memᴰ d w.already_ordered))
    ⊎ ((d : ℕ) × (c : Certificate) × (parent_entry s.dag x p ≡ some (d, c))
        × (is_committed s.last_committed c ≡ false)
        × (contains w.already_ordered d ≡ false)
        × (offer s x w p
            ≡ record w { already_ordered = d ∷ w.already_ordered; buffer = c ∷ w.buffer }))

pub offer_cases : (s : ConsensusState) (x : Certificate) (w : Walk) (p : ℕ) → OfferCases s x w p
unfolding offer
offer_cases s x w p = elim (Option-cases (parent_entry s.dag x p)) [
  | inl e ↦ inl (rw (e, offer) refl, λ d c at. ground arith)
  | inr ((d, c), e) ↦
      elim (Bool-cases (contains w.already_ordered d || is_committed s.last_committed c)) [
        | inl t ↦ inl (
          rw (e, offer) (rw t refl),
          λ d' c' at live. ground (arith, contains_iff d w.already_ordered),
        )
        | inr t ↦ inr (d, c, e, ground arith, ground arith, rw (e, offer) (rw t refl))
      ]
]

abbrev pub Found : Walk → Certificate → Type 0
Found w c = Memᴰ c w.ordered ⊎ Memᴰ c w.buffer

-- Moving the head of one list to the end of another keeps the members of the two.
mem_move {ℓ} :
    {A : Type ℓ} (c x : A) (done rest : List A)
    → (Memᴰ c (done ++ x ∷ []) ⊎ Memᴰ c rest) ↔ (Memᴰ c done ⊎ Memᴰ c (x ∷ rest))
mem_move c x done rest =
    ground
      (arith, mem-append c done (x ∷ []), mem-cons c x [], mem-cons c x rest, Memᴰ.not-nil {a = c})

pub Found-pop :
    (w : Walk) (x : Certificate) (rest : List Certificate) (c : Certificate)
    → w.buffer ≡ x ∷ rest
    → Found (pop_into w x rest) c ↔ Found w c
Found-pop w x rest c e = rw e (mem_move c x w.ordered rest)

mem_swap {ℓ} :
    {A : Type ℓ} (c x y : A) (ys zs : List A)
    → Memᴰ c zs ↔ ((c ≡ x) ⊎ Memᴰ c ys)
    → Memᴰ c (y ∷ zs) ↔ ((c ≡ x) ⊎ Memᴰ c (y ∷ ys))
mem_swap c x y ys zs h = ground (arith, mem-cons c y zs, mem-cons c y ys)

-- Sorting keeps the members.
mem-insert_by_round :
    (c x : Certificate) (ys : List Certificate)
    → Memᴰ c (insert_by_round x ys) ↔ ((c ≡ x) ⊎ Memᴰ c ys)
unfolding insert_by_round
mem-insert_by_round c x [] = mem-cons c x []
mem-insert_by_round c x (y ∷ ys) = elim (Bool-cases (leb (round x) (round y))) [
  | inl t ↦ rw (t, insert_by_round) (mem-cons c x (y ∷ ys))
  | inr t ↦
      rw (t, insert_by_round)
        (mem_swap c x y ys (insert_by_round x ys) (mem-insert_by_round c x ys))
]

pub mem-sort_by_round :
    (c : Certificate) (xs : List Certificate) → Memᴰ c (sort_by_round xs) ↔ Memᴰ c xs
unfolding sort_by_round
mem-sort_by_round c [] = (λ m. m, λ m. m)
mem-sort_by_round c (x ∷ xs) =
    let (into, out) = mem-insert_by_round c x (sort_by_round xs) in
    let (below, above) = mem-sort_by_round c xs in
    (
      λ m. ⊎_elim Memᴰ.head (λ later. Memᴰ.tail (below later)) (into m),
      λ m. out (⊎_elim inl (λ later. inr (above later)) (Memᴰ.cases_cons m)),
    )

module _ (s : ConsensusState) (leader : Certificate) where
  abbrev Sound : Walk → Type 0
  Sound w = (c : Certificate) → Found w c → History s leader c

  offer-Sound :
      (x : Certificate) (w : Walk) (p : ℕ)
      → History s leader x
      → round x ≢ add_u32 (order_gc_round leader s) 1
      → Memᴰ p (parents x)
      → Sound w
      → Sound (offer s x w p)
  offer-Sound x w p hx low m h = elim (offer_cases s x w p) [
    | inl (e, _) ↦ subst Sound (sym e) h
    | inr (d, c, at, live, _, e) ↦ subst Sound (sym e) λ y f. elim f [
      | inl o ↦ h y (inl o)
      | inr b ↦ elim (Memᴰ.cases_cons b) [
        | inl q ↦ subst (History s leader) (sym q) (History.parent p d hx low m at live)
        | inr later ↦ h y (inr later)
      ]
    ]
  ]

  visit-Sound :
      (w : Walk) (x : Certificate) (rest : List Certificate)
      → w.buffer ≡ x ∷ rest
      → Sound w
      → Sound (visit s (order_gc_round leader s) w x rest)
  unfolding visit
  visit-Sound w x rest e h =
      let popped : Sound (pop_into w x rest) = λ c f. h c ((Found-pop w x rest c e).0 f) in
      elim (Bool-cases (round x == add_u32 (order_gc_round leader s) 1)) [
        | inl t ↦ rw (t, visit) popped
        | inr t ↦
            let low : round x ≢ add_u32 (order_gc_round leader s) 1 =
              λ q. cc ((==_iff (round x) (add_u32 (order_gc_round leader s) 1)).1 q) in
            rw (t, visit)
              (offer_all_rule Sound s x (parents x)
                (λ v p m. offer-Sound x v p (h x (inr (rw e (Memᴰ.head refl)))) low m)
                (pop_into w x rest) popped)
      ]

  start-Sound : Sound (start_walk leader)
  unfolding start_walk
  start-Sound c (inl m) = absurd (Memᴰ.not-nil m)
  start-Sound c (inr m) = subst (History s leader) (sym (Memᴰ.eq_of_singleton m)) lead

  -- Whatever `order_dag` puts in sequence is in the history of the leader.
  pub order_dag_sound : (c : Certificate) → Memᴰ c (order_dag leader s) → History s leader c
  unfolding order_dag walked
  order_dag_sound c m =
      walk_rule Sound s (order_gc_round leader s) visit-Sound _ (start_walk leader) start-Sound c
        (inl ((mem-sort_by_round c _).0 m))
