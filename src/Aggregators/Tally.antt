-- ===== src/Aggregators/Tally.antt =====
-- The weight of `VotesAggregator`.
use mathlib.Core.List.Memᴰ
use telcoin_network.Base.{
  ℕ, ◌+◌, ◌%◌, ◌^◌, ◌<◌, ◌≡◌, refl, ap, leb, none, some, Option-cases, List, [], ◌∷◌, ◌++◌,
  contains, Result-cases, arith, Bool-cases, inl, inr, Memᴰ, mem-append, add_u64, sub_u64,
}
use telcoin_network.Types.Header.{Header}
use telcoin_network.Types.Crypto.{Crypto}
use telcoin_network.Types.Vote.{Vote}
use telcoin_network.Types.Certificate.{Certificate, digest, aggregated_signature}
use telcoin_network.Committee.{Authority, Committee, authority, voting_power, voting_power_by_id}
use telcoin_network.Signing.{new_unverified, signed_by}
use telcoin_network.Aggregators.{VotesAggregator, new_votes, retain_valid, check_quorum, append}

-- The power of the authors of votes, counted without wrap-around.
unfoldable pub tally : Committee → List (ℕ × ℕ) → ℕ
tally c [] = 0
tally c ((author, signature) ∷ votes) = voting_power_by_id c author + tally c votes

tally-append : (c : Committee) (xs ys : List (ℕ × ℕ)) → tally c (xs ++ ys) ≡ tally c xs + tally c ys
unfolding tally
tally-append c [] ys = omega arith
tally-append c ((a, s) ∷ xs) ys = omega (arith, tally-append c xs ys)

-- What the lookups of a committee of `Committee::new` satisfy: the power of an authority is the
-- same by key and by identifier, an unknown one has none, and powers are u64 numbers.
pub record HasPowers (c : Committee) : Type 0 where
  pub known :
      (i : ℕ) (a : Authority)
      → authority c i ≡ some a
      → voting_power c a.protocol_key ≡ voting_power_by_id c i
  pub word : (i : ℕ) → voting_power_by_id c i < 2 ^ 64

unknown_power : (c : Committee) (i : ℕ) → authority c i ≡ none → voting_power_by_id c i ≡ 0
unfolding authority voting_power_by_id
unknown_power c i h = rw (h, voting_power_by_id) refl

module _ ⦃crypto : Crypto⦄ where
  retain_valid-weight :
      (c : Committee) (d weight before : ℕ) (votes : List (ℕ × ℕ))
      → HasPowers c
      → weight ≡ (before + tally c votes) % 2 ^ 64
      → (retain_valid c d weight votes).0
        ≡ (before + tally c (retain_valid c d weight votes).1) % 2 ^ 64
  unfolding retain_valid tally
  retain_valid-weight c d weight before [] p h = h
  retain_valid-weight c d weight before ((author, signature) ∷ votes) p h =
      elim (Option-cases (authority c author)) [
        | inl e ↦
            rw (e, retain_valid)
              (retain_valid-weight c d weight before votes p
                (omega (arith, unknown_power c author e)))
        | inr (a, e) ↦ elim (Bool-cases (crypto.verify signature d a.protocol_key)) [
          | inl f ↦
              let later =
                retain_valid-weight c d weight (before + voting_power_by_id c author) votes p
                  (omega arith) in
              rw (e, f, retain_valid) (omega arith)
          | inr f ↦
              let own = p.known author a e in
              let small = p.word author in
              rw (e, f, retain_valid)
                (retain_valid-weight c d (sub_u64 weight (voting_power c a.protocol_key)) before
                  votes p (ground arith))
        ]
      ]

  retain_valid-mem :
      (c : Committee) (d weight : ℕ) (votes : List (ℕ × ℕ)) (x : ℕ × ℕ)
      → Memᴰ x (retain_valid c d weight votes).1
      → Memᴰ x votes
  unfolding retain_valid
  retain_valid-mem c d weight [] x m = m
  retain_valid-mem c d weight ((author, signature) ∷ votes) x m =
      elim (Option-cases (authority c author)) [
        | inl e ↦ Memᴰ.tail (retain_valid-mem c d weight votes x (rw (e, retain_valid) at m))
        | inr (a, e) ↦ elim (Bool-cases (crypto.verify signature d a.protocol_key)) [
          | inl f ↦ elim (Memᴰ.cases_cons (rw (e, f, retain_valid) at m)) [
            | inl q ↦ Memᴰ.head q
            | inr q ↦ Memᴰ.tail (retain_valid-mem c d weight votes x q)
          ]
          | inr f ↦ Memᴰ.tail (
              retain_valid-mem c d (sub_u64 weight (voting_power c a.protocol_key)) votes x
                (rw (e, f, retain_valid) at m))
        ]
      ]

  -- The weight is the power of the votes, and who voted was seen.
  pub record IsTallied (c : Committee) (v : VotesAggregator) : Type 0 where
    pub weight : v.weight ≡ tally c v.votes % 2 ^ 64
    pub seen : (x : ℕ × ℕ) → Memᴰ x v.votes → Memᴰ x.0 v.authorities_seen

  pub new_votes-IsTallied : (c : Committee) → IsTallied c new_votes
  unfolding new_votes tally
  new_votes-IsTallied c = record { weight = refl; seen = λ x m. absurd (Memᴰ.not-nil m) }

  counted-IsTallied :
      (c : Committee) (v : VotesAggregator) (vote : Vote)
      → IsTallied c v
      → IsTallied c (record {
        weight = add_u64 v.weight (voting_power_by_id c vote.author);
        votes = v.votes ++ (vote.author, vote.signature) ∷ [];
        authorities_seen = vote.author ∷ v.authorities_seen;
      })
  unfolding tally
  counted-IsTallied c v vote h = record {
    weight = omega (arith, h.weight, tally-append c v.votes ((vote.author, vote.signature) ∷ []));
    seen = λ x m. elim ((mem-append x v.votes ((vote.author, vote.signature) ∷ [])).0 m) [
      | inl q ↦ Memᴰ.tail (h.seen x q)
      | inr q ↦ Memᴰ.head (ap (λ y. y.0) (Memᴰ.eq_of_singleton q))
    ];
  }

  check_quorum-IsTallied :
      (c : Committee) (v : VotesAggregator) (cert : Certificate)
      → HasPowers c
      → IsTallied c v
      → IsTallied c (check_quorum v c cert).0
  unfolding check_quorum
  check_quorum-IsTallied c v cert p h = elim (Option-cases (aggregated_signature cert)) [
    | inl e ↦ rw (e, check_quorum) h
    | inr (sig, e) ↦
        elim (Bool-cases (crypto.verify_aggregate sig (digest cert) (signed_by cert c).1)) [
          | inl f ↦ rw (e, f, check_quorum) h
          | inr f ↦
              let kept : IsTallied c (record v {
                weight = (retain_valid c (digest cert) v.weight v.votes).0;
                votes = (retain_valid c (digest cert) v.weight v.votes).1;
              }) =
                record {
                  weight = omega (
                    arith,
                    retain_valid-weight c (digest cert) v.weight 0 v.votes p
                        (omega (arith, h.weight)),
                  );
                  seen = λ x m. h.seen x (retain_valid-mem c (digest cert) v.weight v.votes x m);
                } in
              rw (e, f, check_quorum) kept
        ]
  ]

  -- In a committee whose powers are u64 numbers, the same by key and by identifier, and known for
  -- the authorities alone, a vote that is appended to an aggregation with the right weight, whether
  -- or not it completes a quorum and whether or not the aggregated signature is valid, keeps the
  -- weight equal to the power of the votes held, modulo the word size, and all their authors among
  -- those that cannot vote again.
  pub append-IsTallied :
      (c : Committee) (v : VotesAggregator) (vote : Vote) (header : Header) (now : ℕ)
      → HasPowers c
      → IsTallied c v
      → IsTallied c (append v vote c header now).0
  unfolding append
  append-IsTallied c v vote header now p h =
      elim (Bool-cases (contains v.authorities_seen vote.author)) [
        | inl e ↦ rw (e, append) h
        | inr e ↦
            let counted : VotesAggregator = record {
              weight = add_u64 v.weight (voting_power_by_id c vote.author);
              votes = v.votes ++ (vote.author, vote.signature) ∷ [];
              authorities_seen = vote.author ∷ v.authorities_seen;
            } in
            let k = counted-IsTallied c v vote h in
            elim (Bool-cases
              (leb c.quorum_threshold (add_u64 v.weight (voting_power_by_id c vote.author)))) [
                | inr f ↦ rw (e, f, append) k
                | inl f ↦
                    elim (Result-cases (
                      new_unverified c header (v.votes ++ (vote.author, vote.signature) ∷ [])
                        now)) [
                          | inr (x, g) ↦ rw (e, f, g, append) k
                          | inl (cert, g) ↦
                              rw (e, f, g, append) (check_quorum-IsTallied c counted cert p k)
                        ]
              ]
      ]
