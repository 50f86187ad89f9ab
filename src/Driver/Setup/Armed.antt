-- ===== src/Driver/Setup/Armed.antt =====
-- driver/runner.go: how many bursts and teardowns a round arms.
use eth_slot_sim.Base.{
  bit, ℕ, ◌+◌, ◌≡◌, refl, Bool, true, false, ◌&&◌, List, [], ◌∷◌, ◌++◌, Option, none, some, arith,
  ltb, ◌==◌, length,
}
use eth_slot_sim.Driver.Finality.{Chain, FinalityState, has_prejoin_state}
use eth_slot_sim.Driver.Setup.Rounds.{
  prejoin_round, emit_votes_of, emit_aggregate_of, drop_round, seal_round, RoundAction, RoundTimer,
  round_timer, arm_if, arm_state,
}

-- How many aggregate bursts, and how many teardowns, of a round are armed.
abbrev pub is_aggregate_of : ℕ → RoundAction → Bool
is_aggregate_of m (emit_aggregate_of n) = n == m
is_aggregate_of m (drop_round n) = false
is_aggregate_of m (prejoin_round n) = false
is_aggregate_of m (emit_votes_of n) = false
is_aggregate_of m (seal_round n) = false

abbrev pub is_drop_of : ℕ → RoundAction → Bool
is_drop_of m (emit_aggregate_of n) = false
is_drop_of m (drop_round n) = n == m
is_drop_of m (prejoin_round n) = false
is_drop_of m (emit_votes_of n) = false
is_drop_of m (seal_round n) = false

abbrev pub armed : (RoundAction → Bool) → List RoundTimer → ℕ
armed is_it [] = 0
armed is_it (t ∷ ts) = bit (is_it t.action) + armed is_it ts

pub armed-append :
    (is_it : RoundAction → Bool) (xs ys : List RoundTimer)
    → armed is_it (xs ++ ys) ≡ armed is_it xs + armed is_it ys
armed-append is_it [] ys = omega arith
armed-append is_it (x ∷ xs) ys = omega (arith, armed-append is_it xs ys)

pub armed-arm_if :
    (is_it : RoundAction → Bool) (b : Bool) (t : RoundTimer)
    → armed is_it (arm_if b t) ≡ bit (b && is_it t.action)
armed-arm_if is_it true t = omega arith
armed-arm_if is_it false t = refl

-- Whether a round that is joined, or is not, has aggregates to publish, and something to tear down.
abbrev pub has_aggregates : Option FinalityState → Bool
has_aggregates none = false
has_aggregates (some fs) = ltb 0 (length fs.aggregate_subnets)

abbrev pub has_teardown : Chain → Option FinalityState → Bool
has_teardown c none = false
has_teardown c (some fs) = c.view.has_finality_aggregators && has_prejoin_state fs

pub arm_state-armed :
    (c : Chain) (n votes_at due seal_at m : ℕ) (o : Option FinalityState)
    → let ts = arm_state c n votes_at due seal_at o in
      (armed (is_aggregate_of m) ts ≡ bit (n == m && has_aggregates o))
      × (armed (is_drop_of m) ts ≡ bit (n == m && has_teardown c o))
unfolding arm_state
arm_state-armed c n votes_at due seal_at m none = ground arith
arm_state-armed c n votes_at due seal_at m (some fs) =
    let aggs = arm_if (has_aggregates (some fs)) (round_timer due (emit_aggregate_of n)) in
    let drops = arm_if (has_teardown c (some fs)) (round_timer due (drop_round n)) in
    let seals =
      arm_if (c.partial && c.view.has_finality_aggregators) (round_timer seal_at (seal_round n)) in
    let count : (is_it : RoundAction → Bool)
        → armed is_it ((aggs ++ drops) ++ seals)
          ≡ bit (has_aggregates (some fs) && is_it (emit_aggregate_of n))
            + bit (has_teardown c (some fs) && is_it (drop_round n))
            + bit ((c.partial && c.view.has_finality_aggregators) && is_it (seal_round n)) =
      λ is_it. omega (
        arith,
        armed-append is_it (aggs ++ drops) seals,
        armed-append is_it aggs drops,
        armed-arm_if is_it (has_aggregates (some fs)) (round_timer due (emit_aggregate_of n)),
        armed-arm_if is_it (has_teardown c (some fs)) (round_timer due (drop_round n)),
        armed-arm_if is_it (c.partial && c.view.has_finality_aggregators)
            (round_timer seal_at (seal_round n)),
      ) in
    (ground (arith, count (is_aggregate_of m)), ground (arith, count (is_drop_of m)))
