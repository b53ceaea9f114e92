-- ===== src/Voting/Once.antt =====
-- `cast` of the vote handler against the vote store, over requests that are served in sequence.
use telcoin_network.Base.{
  ℕ, ◌<◌, ◌≡◌, ◌⊎◌, refl, sym, subst, ap, ◌∙◌, ◌==◌, ==_iff, ltb, is_empty, false, Option, some,
  Option-cases, List, [], ◌∷◌, Result, ok, err, Result-cases, arith, Bool-cases, inl, inr,
}
use telcoin_network.Base.Map.{Map, lookup, insert, lookup-insert}
use telcoin_network.Types.Header.{Header}
use telcoin_network.Types.Crypto.{Crypto}
use telcoin_network.Types.Vote
use telcoin_network.Types.Vote.{Vote}
use telcoin_network.Types.Certificate.{Certificate, header_digest}
use telcoin_network.Committee.{Committee}
use telcoin_network.Voting.{
  VoteError, PrimaryResponse, vote_response, missing_parents, VoteInfo, Handler, Answers, vote_info,
  write_vote, check_for_missing_parents, settle_parents, check_header, cast, admit, vote,
}

-- What was stored for an author stays, or gives way to a later round.
abbrev Keeps : Map VoteInfo → Map VoteInfo → Type 0
Keeps m n =
    (a : ℕ) (i : VoteInfo)
    → lookup a m ≡ some i
    → (j : VoteInfo) × (lookup a n ≡ some j) × ((i.round < j.round) ⊎ (j ≡ i))

Keeps-refl : (m : Map VoteInfo) → Keeps m m
Keeps-refl m a i e = (i, e, inr refl)

Keeps-trans : (m n o : Map VoteInfo) → Keeps m n → Keeps n o → Keeps m o
Keeps-trans m n o f g a i e =
    let (j, ej, cj) = f a i e in
    let (k, ek, ck) = g a j ej in
    elim ck [
      | inr same ↦ (k, ek, subst (λ x. (i.round < x.round) ⊎ (x ≡ i)) (sym same) cj)
      | inl up ↦ (
        k,
        ek,
        elim cj [
          | inl up2 ↦ inl (omega arith)
          | inr same ↦ inl (subst (λ x. x.round < k.round) same up)
        ],
      )
    ]

later_round :
    (r : ℕ) (info i : VoteInfo) (o : Option VoteInfo)
    → o ≡ some info
    → o ≡ some i
    → ltb r info.round ≡ false
    → (r == info.round) ≡ false
    → i.round < r
later_round r info i o e l g k =
    let same : info ≡ i = cc in ground (arith, ap (λ (x : VoteInfo). x.round) same)

same_vote :
    {v w : Vote}
    → ◌≡◌ {A = Result VoteError PrimaryResponse} (ok (vote_response v)) (ok (vote_response w))
    → v ≡ w
same_vote h = cc

same_info :
    (i : VoteInfo) (e r d : ℕ)
    → i.epoch ≡ e
    → i.round ≡ r
    → i.vote_digest ≡ d
    → ◌≡◌ {A = VoteInfo} i (record { epoch = e; round = r; vote_digest = d })
same_info i e r d he hr hd = λ k. record { epoch = he k; round = hr k; vote_digest = hd k }

Keeps-insert :
    (m : Map VoteInfo) (a : ℕ) (n : VoteInfo)
    → ((i : VoteInfo) → lookup a m ≡ some i → i.round < n.round)
    → Keeps m (insert a n m)
Keeps-insert m a n later b i e = elim (Bool-cases (a == b)) [
  | inl same ↦ (
    n,
    ground (arith, lookup-insert a b n m),
    inl (later i (subst (λ x. lookup x m ≡ some i) (sym ((==_iff a b).0 same)) e)),
  )
  | inr other ↦ (i, ground (arith, lookup-insert a b n m), inr refl)
]

module _ ⦃crypto : Crypto⦄ where
  -- The vote of an answer is stored, and what is stored stays or gives way to later rounds.
  abbrev Stored : Header → Handler → Handler × Result VoteError PrimaryResponse → Type 0
  Stored h s x =
      Keeps s.votes x.0.votes
      × ((v : Vote)
          → x.1 ≡ ok (vote_response v)
          → (v.origin ≡ h.author)
            × (v.round ≡ h.round)
            × (lookup v.origin x.0.votes ≡ some (vote_info v)))

  wrote :
      (s : Handler) (h : Header) (w : Vote)
      → w.origin ≡ h.author
      → w.round ≡ h.round
      → ((i : VoteInfo) → lookup w.origin s.votes ≡ some i → i.round < w.round)
      → Stored h s (write_vote s w, ok (vote_response w))
  unfolding write_vote vote_info
  wrote s h w same_author same_round later = (
    Keeps-insert s.votes w.origin (vote_info w) later,
    λ v k.
        subst
          (λ (x : Vote).
            (x.origin ≡ h.author)
            × (x.round ≡ h.round)
            × (lookup x.origin (insert w.origin (vote_info w) s.votes) ≡ some (vote_info x)))
          (same_vote k)
          (
            same_author,
            same_round,
            ground (arith, lookup-insert w.origin w.origin (vote_info w) s.votes),
          ),
  )

  resent :
      (s : Handler) (h : Header) (w : Vote)
      → w.origin ≡ h.author
      → w.round ≡ h.round
      → lookup w.origin s.votes ≡ some (vote_info w)
      → Stored h s (s, ok (vote_response w))
  resent s h w same_author same_round stored = (
    Keeps-refl s.votes,
    λ v k.
        subst
          (λ (x : Vote).
            (x.origin ≡ h.author)
            × (x.round ≡ h.round)
            × (lookup x.origin s.votes ≡ some (vote_info x)))
          (same_vote k) (same_author, same_round, stored),
  )

  silent : (s : Handler) (h : Header) (e : VoteError) → Stored h s (s, err e)
  silent s h e = (Keeps-refl s.votes, λ v k. cc)

  cast-Stored : (env : Answers) (s : Handler) (h : Header) → Stored h s (cast env s h)
  unfolding cast Vote.new_sync vote_info
  cast-Stored env s h = elim (Option-cases (lookup h.author s.votes)) [
    | inl e ↦
        rw (e, cast)
          (wrote s h (Vote.new_sync h env.own_id env.request_signature) refl refl (λ i k. cc))
    | inr (info, e) ↦ elim (Bool-cases (h.epoch == info.epoch)) [
      | inr f ↦ rw (e, f, cast) (silent s h _)
      | inl f ↦ elim (Bool-cases (ltb h.round info.round)) [
        | inl g ↦ rw (e, f, g, cast) (silent s h _)
        | inr g ↦ elim (Bool-cases (h.round == info.round)) [
          | inr k ↦
              rw (e, f, g, k, cast)
                (wrote s h (Vote.new_sync h env.own_id env.request_signature) refl refl
                  (λ i l. later_round h.round info i (lookup h.author s.votes) e l g k))
          | inl k ↦ elim (Bool-cases (header_digest h == info.vote_digest)) [
            | inr l ↦ rw (e, f, g, k, l, cast) (silent s h _)
            | inl l ↦
                rw (e, f, g, k, l, cast)
                  (resent s h (Vote.new_sync h env.own_id env.request_signature) refl refl (
                    e
                    ∙ ap some (
                        same_info info _ _ _ (sym ((==_iff h.epoch info.epoch).0 f))
                          (sym ((==_iff h.round info.round).0 k))
                          (sym ((==_iff (header_digest h) info.vote_digest).0 l)))))
          ]
        ]
      ]
    ]
  ]

  settle-votes :
      (env : Answers) (s : Handler) (h : Header) (parents : List Certificate)
      → (settle_parents env s h parents).0.votes ≡ s.votes
  unfolding settle_parents check_for_missing_parents
  settle-votes env s h parents = elim (Bool-cases (is_empty parents)) [
    | inr e ↦ rw (e, settle_parents) refl
    | inl e ↦ ground arith
  ]

  asked :
      (s t : Handler) (h : Header) (l : List ℕ)
      → t.votes ≡ s.votes
      → Stored h s (t, ok (missing_parents l))
  asked s t h l same = (subst (Keeps s.votes) (sym same) (Keeps-refl s.votes), λ v k. cc)

  refused : (s t : Handler) (h : Header) (e : VoteError) → t.votes ≡ s.votes → Stored h s (t, err e)
  refused s t h e same = (subst (Keeps s.votes) (sym same) (Keeps-refl s.votes), λ v k. cc)

  settled :
      (s t : Handler) (h : Header) (x : Handler × Result VoteError PrimaryResponse)
      → t.votes ≡ s.votes
      → Stored h t x
      → Stored h s x
  settled s t h x same k = (subst (λ m. Keeps m x.0.votes) same k.0, k.1)

  same_digest :
      (v w : Vote) (i : VoteInfo)
      → v.round ≡ w.round
      → some i ≡ some (vote_info w)
      → ((vote_info v).round < i.round) ⊎ (i ≡ vote_info v)
      → v.header_digest ≡ w.header_digest
  unfolding vote_info
  same_digest v w i at_round e later =
      let same : i ≡ vote_info w = cc in
      elim later [
        | inl up ↦ absurd (omega (arith, ap (λ (x : VoteInfo). x.round) same))
        | inr old ↦ ap (λ (x : VoteInfo). x.vote_digest) (sym old ∙ same)
      ]

  vote-Stored :
      (c : Committee) (env : Answers) (s : Handler) (peer : ℕ) (h : Header)
      (parents : List Certificate)
      → Stored h s (vote c env s peer h parents)
  unfolding vote
  vote-Stored c env s peer h parents = elim (Result-cases (admit c env peer h parents)) [
    | inr (e, f) ↦ rw (f, vote) (silent s h e)
    | inl (_, f) ↦
        let same = settle-votes env s h parents in
        elim (Result-cases (settle_parents env s h parents).1) [
          | inr (e, g) ↦ rw (f, g, vote) (refused s (settle_parents env s h parents).0 h e same)
          | inl (d ∷ l, g) ↦
              rw (f, g, vote) (asked s (settle_parents env s h parents).0 h (d ∷ l) same)
          | inl ([], g) ↦ elim (Result-cases (check_header c env h)) [
            | inr (e, k) ↦
                rw (f, g, k, vote) (refused s (settle_parents env s h parents).0 h e same)
            | inl (_, k) ↦
                rw (f, g, k, vote)
                  (settled s (settle_parents env s h parents).0 h
                    (cast env (settle_parents env s h parents).0 h) same
                    (cast-Stored env (settle_parents env s h parents).0 h))
          ]
        ]
  ]

  -- The states that follow when requests are served one after another.
  pub data Serves (c : Committee) : Handler → Handler → Type 0 where
    idle : {s : Handler} → Serves c s s
    serve :
        {s t : Handler} (env : Answers) (peer : ℕ) (h : Header) (parents : List Certificate)
        → Serves c s t
        → Serves c s (vote c env t peer h parents).0

  Serves-Keeps : (c : Committee) (s t : Handler) → Serves c s t → Keeps s.votes t.votes
  Serves-Keeps c s t idle = Keeps-refl s.votes
  Serves-Keeps c s t (serve {t = r} env peer h parents before) =
      Keeps-trans s.votes r.votes (vote c env r peer h parents).0.votes (Serves-Keeps c s r before)
        (vote-Stored c env r peer h parents).0

  -- Of two votes that are given for the same author and round, whatever requests are served between
  -- them, one after another, both are for the same header digest.
  pub vote_once :
      (c : Committee) (env env' : Answers) (s t : Handler) (peer peer' : ℕ) (h h' : Header)
      (parents parents' : List Certificate) (v v' : Vote)
      → (vote c env s peer h parents).1 ≡ ok (vote_response v)
      → Serves c (vote c env s peer h parents).0 t
      → (vote c env' t peer' h' parents').1 ≡ ok (vote_response v')
      → v.origin ≡ v'.origin
      → v.round ≡ v'.round
      → v.header_digest ≡ v'.header_digest
  unfolding vote_info
  vote_once c env env' s t peer peer' h h' parents parents' v v' first between second author
        at_round =
      let (_, _, stored) = (vote-Stored c env s peer h parents).1 v first in
      let (keeps, answer) = vote-Stored c env' t peer' h' parents' in
      let (_, _, stored') = answer v' second in
      let (i, at, later) =
        Keeps-trans (vote c env s peer h parents).0.votes t.votes
          (vote c env' t peer' h' parents').0.votes
          (Serves-Keeps c (vote c env s peer h parents).0 t between) keeps v.origin (vote_info v)
          stored in
      same_digest v v' i at_round
        (sym at ∙ (ap (λ a. lookup a (vote c env' t peer' h' parents').0.votes) author ∙ stored'))
        later
