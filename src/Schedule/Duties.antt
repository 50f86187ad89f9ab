-- ===== src/Schedule/Duties.antt =====
-- schedule/schedule.go: `finalityVoteDuties` and `finalityAggregations`.
pub mod Hosting
pub mod Votes
use eth_slot_sim.Base.{
  ℕ, zero, suc, ◌+◌, ◌*◌, Bool, true, List, [], ◌∷◌, Option, none, some, ◌>>=◌, ℤ, pos, ltb, ◌==◌,
  if◌then◌else◌, length, get_elem?, take, sum, range_from, any, indices,
}
use eth_slot_sim.Schedule.{Assignment, AttestDuty, AttesterRef, SlotPlan, segregated}
use eth_slot_sim.Schedule.Position.{finality_position, round}

-- The loop `for val := node; val < V; val += N`. The fuel runs out only where N is 0, where the
-- code's loop does not end.
unfoldable pub strided : ℕ → ℕ → ℕ → ℕ → Option (List ℕ)
strided zero val v n = none
strided (suc fuel) val v n =
    let rest = strided fuel (val + n) v n in
    if ltb val v then (do vals ← rest; some (val ∷ vals)) else some []

-- The validators that a node hosts, in the order of the loops.
unfoldable pub hosted : Assignment → ℕ → Option (List ℕ)
unfolding strided
hosted a node =
    if ltb 0 (length a.validator_counts)
    then (do
      count ← get_elem? a.validator_counts node
      some (range_from (sum (take node a.validator_counts)) count))
    else strided (suc a.params.v) node a.params.v a.params.n

-- `include`, with the round of the key computed before.
unfoldable pub includes : Assignment → ℕ → ℕ → Option Bool
includes a k val =
    if segregated a then (do r ← get_elem? a.finality_round_of val; some (r == k)) else some true

-- The duty of a validator that is included, in front of the others.
unfoldable pub duty_for : Assignment → ℕ → List AttestDuty → Option (List AttestDuty)
duty_for a val rest = do
  s ← get_elem? a.finality_subnet_of val
  p ← finality_position a (pos val)
  some (record { subnet = s; val = val; position = p } ∷ rest)

-- `duty` for each validator in turn.
unfoldable pub duties_of : Assignment → ℕ → List ℕ → Option (List AttestDuty)
unfolding includes duty_for
duties_of a k [] = some []
duties_of a k (val ∷ vals) = do
  rest ← duties_of a k vals
  in_round ← includes a k val
  if in_round then duty_for a val rest else some rest

unfoldable pub finality_vote_duties : Assignment → ℕ → ℕ → Option (List AttestDuty)
unfolding hosted duties_of
finality_vote_duties a node slot = do k ← round a slot; vals ← hosted a node; duties_of a k vals

abbrev pub hosts_one : ℕ → List AttesterRef → Bool
hosts_one node = any (λ r. r.node == node)

unfoldable pub finality_aggregations : Assignment → ℕ → ℕ → List ℕ
finality_aggregations a node slot =
    if a.params.ac_slots_per_finality_slot == 0
    then []
    else elim (get_elem? a.slots
        (if segregated a then slot else slot * a.params.ac_slots_per_finality_slot)) [
          | none ↦ []
          | some plan ↦ indices (hosts_one node) 0 plan.finality_aggregators
        ]
