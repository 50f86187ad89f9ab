-- ===== src/Driver/Setup/Rounds.antt =====
-- driver/runner.go: `round0Warmup`, `armFinality` and `armFinalitySubRound`. The chain that they are given
-- is that of the runner when the state of the round is read, which for round 0 is after its warm-up.
-- What starts at once is armed for `now`; `none` is the division by zero of a chain without rounds.
use eth_slot_sim.Base.{
  ℕ, ◌+◌, ◌*◌, ◌/◌, ◌%◌, Bool, ◌&&◌, List, [], ◌∷◌, ◌++◌, Option, none, some, ltb, ◌==◌,
  if◌then◌else◌, length,
}
use eth_slot_sim.Driver.Finality.{Chain, FinalityState, find, has_prejoin_state, prejoin_finality}

-- What is armed for a round: its key is that of the round, or of the next one for a pre-join.
pub data RoundAction : Type 0 where
  prejoin_round emit_votes_of emit_aggregate_of drop_round seal_round : ℕ → RoundAction

pub record RoundTimer : Type 0 where
  pub at : ℕ
  pub action : RoundAction

abbrev pub round_timer : ℕ → RoundAction → RoundTimer
round_timer at action = record { at = at; action = action }

abbrev pub arm_if : Bool → RoundTimer → List RoundTimer
arm_if b t = if b then t ∷ [] else []

-- `round0Warmup`, with whether it has been started, up to the network operations of its pre-join.
unfoldable pub round0_warmup : (ℕ → ℕ → List ℕ) → Bool → Chain → Option Chain
round0_warmup shuffled started c = if started then some c else prejoin_finality shuffled 0 c

-- The vote burst, then what is armed for the aggregation deadline of the round.
unfoldable pub arm_state : Chain → ℕ → ℕ → ℕ → ℕ → Option FinalityState → List RoundTimer
arm_state c n votes_at due seal_at none = []
arm_state c n votes_at due seal_at (some fs) =
    round_timer votes_at (emit_votes_of n)
      ∷ arm_if (ltb 0 (length fs.aggregate_subnets)) (round_timer due (emit_aggregate_of n))
    ++ arm_if (c.view.has_finality_aggregators && has_prejoin_state fs)
        (round_timer due (drop_round n))
    ++ arm_if (c.partial && c.view.has_finality_aggregators) (round_timer seal_at (seal_round n))

unfoldable pub arm_finality : Chain → ℕ → ℕ → ℕ → Option (List RoundTimer)
arm_finality c now slot slot_start =
    let k = c.finality_round_size in
    let next = arm_if ((slot + 1) % k == 0) (round_timer now (prejoin_round ((slot + 1) / k))) in
    let due = slot_start + c.fc_agg_fraction * k * c.slot_dur / 100 in
    if k == 0
    then none
    else (if slot % k == 0
        then some (
            next
            ++ arm_state c (slot / k) (slot_start + c.fc_vote_offset) due due
                (find (slot / k) c.finals))
        else some next)

-- 200 ms after the deadline, in nanoseconds.
abbrev pub seal_grace : ℕ
seal_grace = 200000000

unfoldable pub arm_finality_sub_round : Chain → ℕ → ℕ → ℕ → List RoundTimer
arm_finality_sub_round c now slot slot_start =
    let due = slot_start + c.round_agg_fraction * c.slot_dur / 100 in
    round_timer now (prejoin_round (slot + 1))
    ∷ arm_state c slot (slot_start + c.fc_vote_offset) due (due + seal_grace) (find slot c.finals)

-- The shape of the chain picks one of the two.
unfoldable pub arm_slot : Chain → ℕ → ℕ → ℕ → Option (List RoundTimer)
unfolding arm_finality arm_finality_sub_round
arm_slot c now slot slot_start =
    if c.segregated
    then some (arm_finality_sub_round c now slot slot_start)
    else arm_finality c now slot slot_start
