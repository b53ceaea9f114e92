-- ===== src/Types/Reputation.antt =====
-- `ReputationScores`: crates/types/src/primary/reputation.rs.
use telcoin_network.Base.{
  ℕ, Bool, false, not, ◌==◌, ltb, if◌then◌else◌, ◌||◌, List, [], ◌∷◌, none, some, length, any,
  add_u64,
}
use telcoin_network.Base.Map.{Map, lookup, insert, values}
use telcoin_network.Types.Crypto.{Crypto}
use telcoin_network.Committee.{Authority, Committee, authorities, id}

pub record ReputationScores : Type 0 where
  pub scores_per_authority : Map ℕ
  pub final_of_schedule : Bool

module _ ⦃crypto : Crypto⦄ where
  unfoldable pub zero_scores : List Authority → Map ℕ
  zero_scores [] = []
  zero_scores (a ∷ rest) = insert (id a) 0 (zero_scores rest)

  -- `ReputationScores::new`
  unfoldable pub new : Committee → ReputationScores
  new c = record { scores_per_authority = zero_scores (authorities c); final_of_schedule = false }

unfoldable pub add_score : ReputationScores → ℕ → ℕ → ReputationScores
add_score r authority score = elim (lookup authority r.scores_per_authority) [
  | none ↦ record r { scores_per_authority = insert authority score r.scores_per_authority }
  | some val ↦ record r {
    scores_per_authority = insert authority (add_u64 val score) r.scores_per_authority;
  }
]

unfoldable pub total_authorities : ReputationScores → ℕ
total_authorities r = length r.scores_per_authority

unfoldable pub all_zero : ReputationScores → Bool
all_zero r = not (any (λ e. ltb 0 e) (values r.scores_per_authority))

-- Whether the first of two (authority, score) pairs stands first: the higher score, and of equal
-- scores the higher identifier.
unfoldable pub ranks_before : ℕ × ℕ → ℕ × ℕ → Bool
ranks_before (i, s) (j, t) = ltb t s || (if s == t then ltb j i else false)

unfoldable pub insert_ranked : ℕ × ℕ → List (ℕ × ℕ) → List (ℕ × ℕ)
insert_ranked x [] = x ∷ []
insert_ranked x (y ∷ rest) =
    let later = insert_ranked x rest in if ranks_before y x then y ∷ later else x ∷ y ∷ rest

-- `authorities_by_score_desc`: `sort_by` under the order above.
unfoldable pub rank : List (ℕ × ℕ) → List (ℕ × ℕ)
rank [] = []
rank (x ∷ rest) = insert_ranked x (rank rest)

unfoldable pub authorities_by_score_desc : ReputationScores → List (ℕ × ℕ)
authorities_by_score_desc r = rank r.scores_per_authority
