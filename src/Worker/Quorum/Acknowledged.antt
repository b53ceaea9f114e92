-- ===== src/Worker/Quorum/Acknowledged.antt =====
-- The results of the quorum waiter: crates/consensus/worker/src/quorum_waiter.rs.
use telcoin_network.Base.{
  ℕ, ◌+◌, ◌^◌, ◌≤◌, ◌<◌, ◌≡◌, ◌≢◌, refl, ◌∙◌, leb, Bool, true, false, Bool-cases, inl, inr, List,
  [], ◌∷◌, ◌++◌, ok, add_u64, sub_u64, arith, All,
}
use telcoin_network.Worker.Quorum.{
  Answer, acked, rejected, network_error, stake_of, Waiting, available, receive_answer,
  wait_for_quorum, verify_batch,
}

abbrev pub acked_of : Answer → ℕ
acked_of (acked stake) = stake
acked_of _ = 0

-- The voting power of the peers, and of those that acknowledge.
abbrev pub all_stake : List Answer → ℕ
all_stake [] = 0
all_stake (answer ∷ rest) = stake_of answer + all_stake rest

abbrev pub acked_stake : List Answer → ℕ
acked_stake [] = 0
acked_stake (answer ∷ rest) = acked_of answer + acked_stake rest

abbrev pub is_no_rejection : Answer → Bool
is_no_rejection (rejected stake) = false
is_no_rejection _ = true

abbrev pub NoRejection : List Answer → Type 0
NoRejection answers = All (λ x. is_no_rejection x ≡ true) answers

available-sum :
    (start : ℕ) (xs : List Answer)
    → start + all_stake xs < 2 ^ 64
    → available start xs ≡ start + all_stake xs
unfolding available
available-sum start [] h = omega arith
available-sum start (x ∷ xs) h =
    available-sum (add_u64 start (stake_of x)) xs (omega (arith, h)) ∙ omega (arith, h)

waited-quorum :
    (threshold max : ℕ) (xs : List Answer) (s : Waiting)
    → s.total_stake + acked_stake xs < 2 ^ 64
    → wait_for_quorum threshold max s xs ≡ ok tt
    → threshold ≤ s.total_stake + acked_stake xs
unfolding wait_for_quorum receive_answer
waited-quorum threshold max [] s h e = cc
waited-quorum threshold max (acked stake ∷ xs) s h e =
    elim (Bool-cases (leb threshold (add_u64 s.total_stake stake))) [
      | inl q ↦ ground arith
      | inr q ↦ ground (
        arith,
        waited-quorum threshold max xs (record s { total_stake = add_u64 s.total_stake stake }),
      )
    ]
waited-quorum threshold max (rejected stake ∷ xs) s h e = ground (
  arith,
  waited-quorum threshold max xs (record s {
    rejected_stake = sub_u64 s.rejected_stake stake;
    available_stake = sub_u64 s.available_stake stake;
  }),
)
waited-quorum threshold max (network_error stake ∷ xs) s h e = ground (
  arith,
  waited-quorum threshold max xs (record s { available_stake = sub_u64 s.available_stake stake }),
)

acked_le_all : (xs : List Answer) → acked_stake xs ≤ all_stake xs
acked_le_all [] = omega arith
acked_le_all (acked stake ∷ xs) = omega (arith, acked_le_all xs)
acked_le_all (rejected stake ∷ xs) = omega (arith, acked_le_all xs)
acked_le_all (network_error stake ∷ xs) = omega (arith, acked_le_all xs)

waited-ends :
    (threshold max : ℕ) (xs : List Answer) (s : Waiting)
    → NoRejection xs
    → s.rejected_stake ≡ 0
    → s.total_stake < threshold
    → s.total_stake + s.available_stake + acked_stake xs < 2 ^ 64
    → all_stake xs ≤ s.available_stake
    → threshold ≤ s.total_stake + acked_stake xs
    → wait_for_quorum threshold max s xs ≡ ok tt
unfolding wait_for_quorum receive_answer
waited-ends threshold max [] s n z below bound all enough = absurd (omega arith)
waited-ends threshold max (acked stake ∷ xs) s n z below bound all enough = ground (
  arith,
  acked_le_all xs,
  waited-ends threshold max xs (record s { total_stake = add_u64 s.total_stake stake }) n.1,
)
waited-ends threshold max (rejected stake ∷ xs) s n z below bound all enough = cc
waited-ends threshold max (network_error stake ∷ xs) s n z below bound all enough = ground (
  arith,
  acked_le_all xs,
  waited-ends threshold max xs (record s { available_stake = sub_u64 s.available_stake stake }) n.1,
)

-- A batch gets a quorum only if the own voting power and that of the peers who acknowledge it make
-- one, where the voting power of all fits a u64.
pub verify_batch-quorum :
    (own threshold : ℕ) (answers : List Answer)
    → own + all_stake answers < 2 ^ 64
    → verify_batch own threshold answers ≡ ok tt
    → threshold ≤ own + acked_stake answers
unfolding verify_batch
verify_batch-quorum own threshold answers h e =
    waited-quorum threshold _ answers _ (omega (arith, h, acked_le_all answers)) e

-- If no peer rejects the batch, and the own voting power, which is not a quorum, makes one with that
-- of the peers who acknowledge it, then the batch gets a quorum, in whichever order they answer and
-- whatever other peers fail. The sum of the own voting power and twice that of all peers fits a u64.
pub verify_batch-ends :
    (own threshold : ℕ) (answers : List Answer)
    → NoRejection answers
    → own < threshold
    → own + all_stake answers + all_stake answers < 2 ^ 64
    → threshold ≤ own + acked_stake answers
    → verify_batch own threshold answers ≡ ok tt
unfolding verify_batch
verify_batch-ends own threshold answers n below bound enough =
    let sum = available-sum 0 answers (omega (arith, bound)) in
    waited-ends threshold _ answers _ n refl below (omega (arith, bound, acked_le_all answers, sum))
      (omega (arith, sum)) enough

-- A rejection that is handled before a quorum: whatever the rest is, the wait fails.
waited-rejected :
    (threshold max stake : ℕ) (before rest : List Answer) (s : Waiting)
    → NoRejection before
    → s.rejected_stake ≡ 0
    → 0 < stake
    → max + stake < 2 ^ 64
    → s.total_stake + acked_stake before < threshold
    → threshold < 2 ^ 64
    → wait_for_quorum threshold max s (before ++ rejected stake ∷ rest) ≢ ok tt
unfolding wait_for_quorum receive_answer
waited-rejected threshold max stake [] rest s n z positive bound below small = ground arith
waited-rejected threshold max stake (acked a ∷ before) rest s n z positive bound below small =
    ground (
      arith,
      waited-rejected threshold max stake before rest
          (record s { total_stake = add_u64 s.total_stake a }) n.1,
    )
waited-rejected threshold max stake (rejected a ∷ before) rest s n z positive bound below small = cc
waited-rejected threshold max stake (network_error a ∷ before) rest s n z positive bound below
      small =
    ground (
      arith,
      waited-rejected threshold max stake before rest
          (record s { available_stake = sub_u64 s.available_stake a }) n.1,
    )

-- If the first rejection arrives while the own voting power and that of the peers who acknowledged
-- before are less than a quorum, then the batch gets no quorum, whatever the other peers answer
-- after: the rejected voting power is subtracted from 0 and wraps around, past what may be rejected.
-- The stake of the rejection is positive, the voting power of the peers reaches the threshold, and
-- with that stake once more it fits a u64.
pub verify_batch-rejected :
    (own threshold stake : ℕ) (before after : List Answer)
    → NoRejection before
    → 0 < stake
    → own + acked_stake before < threshold
    → threshold ≤ all_stake (before ++ rejected stake ∷ after)
    → stake + all_stake (before ++ rejected stake ∷ after) < 2 ^ 64
    → verify_batch own threshold (before ++ rejected stake ∷ after) ≢ ok tt
unfolding verify_batch
verify_batch-rejected own threshold stake before after n positive below enough bound =
    let sum = available-sum 0 (before ++ rejected stake ∷ after) (omega (arith, bound)) in
    waited-rejected threshold _ stake before after _ n refl positive (ground (arith, sum)) below
      (omega (arith, bound))
