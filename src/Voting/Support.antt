-- ===== src/Voting/Support.antt =====
-- The checks of `vote` before the vote.
use telcoin_network.Base.{
  ℕ, map, ap, if◌then◌else◌, Option, Bool-cases, ◌≤◌, ◌≡◌, refl, sym, subst, ◌==◌, ==_iff, leb,
  leb→le, not, Bool, true, false, some, Option-cases, List, [], ◌∷◌, contains, length, Result, ok,
  ◌>>◌, ensure, Result-cases, ok-injective, >>=-eq-ok, inl, inr, add_u32, add_u64, All,
}
use telcoin_network.Base.Map.{Map, lookup}
use telcoin_network.Types.Header.{Header}
use telcoin_network.Types.Crypto.{Crypto}
use telcoin_network.Types.Vote.{Vote}
use telcoin_network.Types.Certificate.{Certificate, header_digest, round, origin}
use telcoin_network.Storage.Certificates.{CertificateTables, read}
use telcoin_network.Committee.{Committee, is_authority, size, voting_power_by_id}
use telcoin_network.Voting.{
  vote_response, Handler, Answers, genesis_parents, stored_parents, notify_read_parent_certificates,
  validate, check_parents, settle_parents, check_header, admit, vote,
}

-- The parents are of different authors, and of none of those seen.
abbrev pub Distinct : List ℕ → List Certificate → Type 0
Distinct seen [] = Unit
Distinct seen (p ∷ rest) = (contains seen (origin p) ≡ false) × Distinct (origin p ∷ seen) rest

-- The voting power of the authors of the parents, added to a stake.
abbrev pub stake_of : Committee → ℕ → List Certificate → ℕ
stake_of c stake [] = stake
stake_of c stake (p ∷ rest) = stake_of c (add_u64 stake (voting_power_by_id c (origin p))) rest

-- What the digest of a parent names: a genesis certificate for a header of round 1, else a
-- certificate of the store.
abbrev pub parent_of : Answers → Header → ℕ → Option Certificate
parent_of env h d = if h.round == 1 then lookup d env.genesis else read d env.certificates

-- A parent of the round before, made not after the header.
abbrev pub Precedes : Header → Certificate → Type 0
Precedes h p = (add_u32 (round p) 1 ≡ h.round) × (p.header.created_at ≤ h.created_at)

ensure-then :
    {E A : Type 0} (b : Bool) (e : E) (r : Result E A) {a : A}
    → (ensure b e >> r) ≡ ok a
    → (b ≡ true) × (r ≡ ok a)
ensure-then true e r h = (refl, h)
ensure-then false e r h = cc

ensure-last :
    {E : Type 0} (b : Bool) (e : E) {u : Unit {0}}
    → ◌≡◌ {A = Result E (Unit {0})} (ensure b e) (ok u)
    → b ≡ true
ensure-last true e h = refl
ensure-last false e h = cc

not-false : (b : Bool) → not b ≡ true → b ≡ false
not-false true h = cc
not-false false h = refl

genesis_parents-ok :
    (genesis : Map Certificate) (ds : List ℕ) {ps : List Certificate}
    → genesis_parents genesis ds ≡ ok ps
    → map (λ d. lookup d genesis) ds ≡ map some ps
unfolding genesis_parents
genesis_parents-ok genesis [] e = ap (map some) (ok-injective e)
genesis_parents-ok genesis (d ∷ ds) e = elim (Option-cases (lookup d genesis)) [
  | inl f ↦ cc (rw (f, genesis_parents) at e)
  | inr (p, f) ↦
      let (ps, g, k) = >>=-eq-ok (genesis_parents genesis ds) _ (rw (f, genesis_parents) at e) in
      rw (f, genesis_parents-ok genesis ds g) (ap (map some) (ok-injective k))
]

stored_parents-ok :
    (store : CertificateTables) (ds : List ℕ) {ps : List Certificate}
    → stored_parents store ds ≡ ok ps
    → map (λ d. read d store) ds ≡ map some ps
unfolding stored_parents
stored_parents-ok store [] e = ap (map some) (ok-injective e)
stored_parents-ok store (d ∷ ds) e = elim (Option-cases (read d store)) [
  | inl f ↦ cc (rw (f, stored_parents) at e)
  | inr (p, f) ↦
      let (ps, g, k) = >>=-eq-ok (stored_parents store ds) _ (rw (f, stored_parents) at e) in
      rw (f, stored_parents-ok store ds g) (ap (map some) (ok-injective k))
]

read_parents-ok :
    (env : Answers) (h : Header) {ps : List Certificate}
    → notify_read_parent_certificates env h ≡ ok ps
    → map (parent_of env h) h.parents ≡ map some ps
unfolding notify_read_parent_certificates
read_parents-ok env h {ps} e =
    let named = λ (b : Bool).
      map (λ d. if b then lookup d env.genesis else read d env.certificates) h.parents in
    elim (Bool-cases (h.round == 1)) [
      | inl f ↦
          subst (λ b. named b ≡ map some ps) (sym f)
            (genesis_parents-ok env.genesis h.parents
              (rw (notify_read_parent_certificates, f) at e))
      | inr f ↦
          subst (λ b. named b ≡ map some ps) (sym f)
            (stored_parents-ok env.certificates h.parents
              (rw (notify_read_parent_certificates, f) at e))
    ]

module _ ⦃crypto : Crypto⦄ where
  check_parents-ok :
      (c : Committee) (h : Header) (seen : List ℕ) (stake : ℕ) (parents : List Certificate)
      {total : ℕ}
      → check_parents c h seen stake parents ≡ ok total
      → All (Precedes h) parents × Distinct seen parents × (total ≡ stake_of c stake parents)
  unfolding check_parents
  check_parents-ok c h seen stake [] e = (tt, tt, sym (ok-injective e))
  check_parents-ok c h seen stake (p ∷ rest) e =
      let (a, e1) = ensure-then (add_u32 (round p) 1 == h.round) _ _ e in
      let (b, e2) = ensure-then (leb p.header.created_at h.created_at) _ _ e1 in
      let (d, e3) = ensure-then (not (contains seen (origin p))) _ _ e2 in
      let (all, distinct, total) =
        check_parents-ok c h (origin p ∷ seen) (add_u64 stake (voting_power_by_id c (origin p)))
          rest e3 in
      ((((==_iff _ _).0 a, leb→le _ _ b), all), (not-false _ d, distinct), total)

  admit-ok :
      (c : Committee) (env : Answers) (peer : ℕ) (h : Header) (parents : List Certificate)
      {u : Unit {0}}
      → admit c env peer h parents ≡ ok u
      → (h.epoch ≡ c.epoch)
        × (crypto.hash h ≡ header_digest h)
        × (is_authority c peer ≡ true)
        × (h.author ≡ peer)
  unfolding admit validate
  admit-ok c env peer h parents e =
      let (x, valid, e1) = >>=-eq-ok (validate h c env.worker) _ e in
      let (_, e2) = ensure-then (leb (length parents) (size c)) _ _ e1 in
      let (member, e3) = ensure-then (is_authority c peer) _ _ e2 in
      let (author, _) = ensure-then (h.author == peer) _ _ e3 in
      let (epoch, v1) = ensure-then (h.epoch == c.epoch) _ _ valid in
      let (own, _) = ensure-then (crypto.hash h == header_digest h) _ _ v1 in
      ((==_iff _ _).0 epoch, (==_iff _ _).0 own, member, (==_iff _ _).0 author)

  check_header-ok :
      (c : Committee) (env : Answers) (h : Header) {u : Unit {0}}
      → check_header c env h ≡ ok u
      → (accepted : List Certificate) × (map (parent_of env h) h.parents ≡ map some accepted)
        × All (Precedes h) accepted
        × Distinct [] accepted
        × (c.quorum_threshold ≤ stake_of c 0 accepted)
  unfolding check_header
  check_header-ok c env h e = elim (Result-cases (notify_read_parent_certificates env h)) [
    | inr (x, f) ↦ cc (rw (f, check_header) at e)
    | inl (accepted, f) ↦ elim (Result-cases (check_parents c h [] 0 accepted)) [
      | inr (x, g) ↦ cc (rw (f, g, check_header) at e)
      | inl (stake, g) ↦
          let (all, distinct, total) = check_parents-ok c h [] 0 accepted g in
          let (enough, _) =
            ensure-then (leb c.quorum_threshold stake) _ _ (rw (f, g, check_header) at e) in
          (
            accepted,
            read_parents-ok env h f,
            all,
            distinct,
            subst (λ n. c.quorum_threshold ≤ n) total (leb→le _ _ enough),
          )
    ]
  ]

  -- A header gets a vote only if it comes from its author, a member of the committee, in the epoch of
  -- the committee and under its own digest, and if the digests of its parents all name certificates,
  -- genesis certificates for a header of round 1 and stored ones for others, of the round before, not
  -- newer than the header, of different authors, and of a quorum of the voting power.
  pub vote_supported :
      (c : Committee) (env : Answers) (s : Handler) (peer : ℕ) (h : Header)
      (parents : List Certificate) (v : Vote)
      → (vote c env s peer h parents).1 ≡ ok (vote_response v)
      → (h.author ≡ peer)
        × (is_authority c peer ≡ true)
        × (h.epoch ≡ c.epoch)
        × (crypto.hash h ≡ header_digest h)
        × ((accepted : List Certificate) × (map (parent_of env h) h.parents ≡ map some accepted)
            × All (Precedes h) accepted
            × Distinct [] accepted
            × (c.quorum_threshold ≤ stake_of c 0 accepted))
  unfolding vote
  vote_supported c env s peer h parents v e = elim (Result-cases (admit c env peer h parents)) [
    | inr (x, f) ↦ cc (rw (f, vote) at e)
    | inl (_, f) ↦ elim (Result-cases (settle_parents env s h parents).1) [
      | inr (x, g) ↦ cc (rw (f, g, vote) at e)
      | inl (d ∷ l, g) ↦ cc (rw (f, g, vote) at e)
      | inl ([], g) ↦ elim (Result-cases (check_header c env h)) [
        | inr (x, k) ↦ cc (rw (f, g, k, vote) at e)
        | inl (_, k) ↦
            let (epoch, own, member, author) = admit-ok c env peer h parents f in
            (author, member, epoch, own, check_header-ok c env h k)
      ]
    ]
  ]
