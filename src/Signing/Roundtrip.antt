-- ===== src/Signing/Roundtrip.antt =====
-- `new_internal` and the bitmap of signers that `signed_by` reads.
use mathlib.Core.List.{append-nil}
use telcoin_network.Base.{
  leb→le, List-cases, ℕ, suc, ◌≤◌, ◌≡◌, refl, sym, subst, ap, ◌∙◌, ◌==◌, ==_refl, ==_iff, leb, true,
  false, List, [], ◌∷◌, ◌++◌, map, ok, Result-cases, ok-injective, arith, add_u64, Bool-cases, inl,
  inr, All, All-map,
}
use telcoin_network.Base.Map.{Map, values}
use telcoin_network.Types.Header.{Header}
use telcoin_network.Types.Crypto.{Crypto}
use telcoin_network.Types.Certificate.{Certificate}
use telcoin_network.Committee.{Authority, Committee, id, authorities, sum_power}
use telcoin_network.Signing.{
  Selected, select, signers, signed_by, new_internal, ensure_known, aggregate_or_default,
}

-- An index that lies further on is not met here.
signers_skip :
    (i : ℕ) (a : Authority) (rest : List Authority) (indexes : List ℕ)
    → All (λ j. suc i ≤ j) indexes
    → signers i (a ∷ rest) indexes ≡ signers (suc i) rest indexes
unfolding signers
signers_skip i a [] [] h = refl
signers_skip i a (b ∷ rest) [] h = refl
signers_skip i a rest (j ∷ indexes) h =
    let other : (j == i) ≡ false = ground arith in rw (other, signers) refl

module _ ⦃crypto : Crypto⦄ where
  -- What the filter selects, the bitmap gives back.
  record Selects (i : ℕ) (auths : List Authority) (votes : Map ℕ) (s : Selected) : Type 0 where
    above : All (λ j. i ≤ j) s.indexes
    weight : sum_power (signers i auths s.indexes) ≡ s.weight
    authors : map id (signers i auths s.indexes) ++ map (λ x. x.0) s.left ≡ map (λ x. x.0) votes
    signatures : s.signatures ++ values s.left ≡ values votes

  Selects-take :
      (i : ℕ) (a : Authority) (auths : List Authority) (author signature : ℕ) (votes : Map ℕ)
      (s : Selected)
      → id a ≡ author
      → Selects (suc i) auths votes s
      → Selects i (a ∷ auths) ((author, signature) ∷ votes) (record {
        indexes = i ∷ s.indexes;
        signatures = signature ∷ s.signatures;
        weight = add_u64 a.voting_power s.weight;
        left = s.left;
      })
  unfolding signers sum_power values
  Selects-take i a auths author signature votes s e h = record {
    above =
        (omega arith, All-map (λ j. suc i ≤ j) (λ j. i ≤ j) s.indexes (λ j k. omega arith) h.above);
    weight = rw (==_refl i, signers) (ap (λ w. add_u64 a.voting_power w) h.weight);
    authors =
        rw (==_refl i, signers)
          (ap (λ l. id a ∷ l) h.authors ∙ ap (λ x. x ∷ map (λ y. y.0) votes) e);
    signatures = ap (λ l. signature ∷ l) h.signatures;
  }

  Selects-skip :
      (i : ℕ) (a : Authority) (auths : List Authority) (votes : Map ℕ) (s : Selected)
      → Selects (suc i) auths votes s
      → Selects i (a ∷ auths) votes s
  Selects-skip i a auths votes s h =
      let same = signers_skip i a auths s.indexes h.above in
      record {
        above = All-map (λ j. suc i ≤ j) (λ j. i ≤ j) s.indexes (λ j k. omega arith) h.above;
        weight = ap sum_power same ∙ h.weight;
        authors = ap (λ l. map id l ++ map (λ x. x.0) s.left) same ∙ h.authors;
        signatures = h.signatures;
      }

  select-Selects :
      (i : ℕ) (auths : List Authority) (votes : Map ℕ)
      → Selects i auths votes (select i auths votes)
  unfolding select signers sum_power
  select-Selects i [] votes = record {
    above = tt;
    weight = refl;
    authors = refl;
    signatures = refl;
  }
  select-Selects i (a ∷ rest) [] = record {
    above = tt;
    weight = refl;
    authors = refl;
    signatures = refl;
  }
  select-Selects i (a ∷ rest) ((author, signature) ∷ votes) = elim (Bool-cases (id a == author)) [
    | inl e ↦
        rw (e, select)
          (Selects-take i a rest author signature votes (select (suc i) rest votes)
            ((==_iff (id a) author).0 e) (select-Selects (suc i) rest votes))
    | inr e ↦
        rw (e, select)
          (Selects-skip i a rest ((author, signature) ∷ votes)
            (select (suc i) rest ((author, signature) ∷ votes))
            (select-Selects (suc i) rest ((author, signature) ∷ votes)))
  ]

  new_internal-ok :
      (c : Committee) (h : Header) (votes : Map ℕ) (now : ℕ) {cert : Certificate}
      → new_internal c h votes true now ≡ ok cert
      → ((select 0 (authorities c) votes).left ≡ [])
        × (c.quorum_threshold ≤ (select 0 (authorities c) votes).weight)
        × (cert.signed_authorities ≡ (select 0 (authorities c) votes).indexes)
        × (cert.header ≡ h)
  unfolding new_internal ensure_known
  new_internal-ok c h votes now {cert} made =
      elim (List-cases (select 0 (authorities c) votes).left) [
        | inr (x, rest, e) ↦ cc (rw (e) at made)
        | inl e ↦
            elim (Bool-cases (leb c.quorum_threshold (select 0 (authorities c) votes).weight)) [
              | inr f ↦ cc (rw (e, f) at made)
              | inl f ↦
                  elim (Result-cases
                    (aggregate_or_default (select 0 (authorities c) votes).signatures)) [
                      | inr (x, g) ↦ cc (rw (e, f, g) at made)
                      | inl (x, g) ↦
                          let same = ok-injective (rw (e, f, g) at made) in
                          (
                            e,
                            leb→le c.quorum_threshold (select 0 (authorities c) votes).weight f,
                            sym (ap (λ (y : Certificate). y.signed_authorities) same),
                            sym (ap (λ (y : Certificate). y.header) same),
                          )
                    ]
            ]
      ]

  -- A certificate that is made of votes with a check of the stake names as its signers, in order, the
  -- authors of the votes, and the voting power of the signers is a quorum.
  pub new_internal-signers :
      (c : Committee) (h : Header) (votes : Map ℕ) (now : ℕ) {cert : Certificate}
      → new_internal c h votes true now ≡ ok cert
      → (map id (signers 0 (authorities c) cert.signed_authorities) ≡ map (λ x. x.0) votes)
        × (c.quorum_threshold ≤ (signed_by cert c).0)
        × (cert.header ≡ h)
  unfolding signed_by
  new_internal-signers c h votes now {cert} made =
      let (none_left, enough, same, header) = new_internal-ok c h votes now made in
      let s = select 0 (authorities c) votes in
      let k = select-Selects 0 (authorities c) votes in
      let named = ap (λ l. signers 0 (authorities c) l) same in
      (
        ap (λ l. map id l) named
            ∙ (sym (append-nil (map id (signers 0 (authorities c) s.indexes)))
                ∙ subst
                    (λ l.
                      map id (signers 0 (authorities c) s.indexes) ++ map (λ x. x.0) l
                      ≡ map (λ x. x.0) votes)
                    none_left k.authors),
        subst (λ w. c.quorum_threshold ≤ w) (sym (ap sum_power named ∙ k.weight)) enough,
        header,
      )
