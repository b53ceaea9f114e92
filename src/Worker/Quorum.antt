-- ===== src/Worker/Quorum.antt =====
-- `QuorumWaiter`: crates/consensus/worker/src/quorum_waiter.rs. What the peers answer, in the order of
-- arrival, is an argument, and the timeout does not fire. Metrics, and the wait for the remaining
-- answers after a quorum, are left out.
pub mod Acknowledged
use telcoin_network.Base.{
  ℕ, ltb, leb, if◌then◌else◌, Option, none, some, List, [], ◌∷◌, Result, ok, err, add_u64, sub_u64,
}

-- What `waiter` delivers for a peer, with its voting power.
pub data Answer : Type 0 where
  acked rejected network_error : ℕ → Answer

abbrev pub stake_of : Answer → ℕ
stake_of (acked stake) = stake
stake_of (rejected stake) = stake
stake_of (network_error stake) = stake

-- `enum QuorumWaiterError`, as the loop returns it.
pub data QuorumWaiterError : Type 0 where
  quorum_rejected anti_quorum : QuorumWaiterError

-- The variables of the loop.
pub record Waiting : Type 0 where
  pub total_stake : ℕ
  pub available_stake : ℕ
  pub rejected_stake : ℕ

-- The sum of the voting power of the peers.
unfoldable pub available : ℕ → List Answer → ℕ
available sum [] = sum
available sum (answer ∷ rest) = available (add_u64 sum (stake_of answer)) rest

-- The match on an answer: none for a quorum.
unfoldable pub receive_answer : ℕ → Waiting → Answer → Option Waiting
receive_answer threshold s (acked stake) =
    let total = add_u64 s.total_stake stake in
    if leb threshold total then none else some (record s { total_stake = total })
receive_answer threshold s (rejected stake) = some (record s {
  rejected_stake = sub_u64 s.rejected_stake stake;
  available_stake = sub_u64 s.available_stake stake;
})
receive_answer threshold s (network_error stake) =
    some (record s { available_stake = sub_u64 s.available_stake stake })

-- The loop of `verify_batch`.
unfoldable pub wait_for_quorum : ℕ → ℕ → Waiting → List Answer → Result QuorumWaiterError (Unit {0})
unfolding receive_answer
wait_for_quorum threshold max_rejected_stake s [] = err anti_quorum
wait_for_quorum threshold max_rejected_stake s (answer ∷ rest) =
    elim (receive_answer threshold s answer) [
      | none ↦ ok tt
      | some next ↦
          let later = wait_for_quorum threshold max_rejected_stake next rest in
          if ltb max_rejected_stake next.rejected_stake
          then err quorum_rejected
          else if ltb (add_u64 next.total_stake next.available_stake) threshold
          then err anti_quorum
          else later
    ]

-- `verify_batch`, for the own voting power.
unfoldable pub verify_batch : ℕ → ℕ → List Answer → Result QuorumWaiterError (Unit {0})
unfolding available wait_for_quorum
verify_batch own threshold answers =
    let all = available 0 answers in
    wait_for_quorum threshold (sub_u64 all threshold)
      (record { total_stake = own; available_stake = all; rejected_stake = 0 }) answers
