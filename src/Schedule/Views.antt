-- ===== src/Schedule/Views.antt =====
-- schedule/schedule.go: `Assignment.Node`, one node's slice of the plan. `none` is a panic.
pub mod Seats
pub mod Rounds
use eth_slot_sim.Base.{
  ℕ, zero, suc, ◌+◌, ◌-◌, ◌/◌, Bool, true, false, ◌||◌, List, [], ◌∷◌, ◌++◌, map, Option, none,
  some, ◌>>=◌, ℤ, pos, minus_one, ltb, ◌==◌, if◌then◌else◌, length, get_elem?, range_from, any,
  indices, find_index, contains,
}
use eth_slot_sim.Schedule.{
  Assignment, AttestDuty, AcVoteDuty, PtcDuty, AttesterRef, SlotPlan, View, segregated,
}
use eth_slot_sim.Schedule.Duties.{finality_vote_duties, finality_aggregations}

abbrev pub duty_of : AttesterRef → AttestDuty
duty_of r = record { subnet = r.subnet; val = r.val; position = pos r.position }

-- The seats of one committee that the node fills.
unfoldable pub committee_duties : ℕ → List AttesterRef → List AttestDuty
committee_duties node [] = []
committee_duties node (r ∷ rs) =
    let rest = committee_duties node rs in if r.node == node then duty_of r ∷ rest else rest

unfoldable pub slot_duties : ℕ → List (List AttesterRef) → List AttestDuty
unfolding committee_duties
slot_duties node [] = []
slot_duties node (c ∷ cs) = committee_duties node c ++ slot_duties node cs

unfoldable pub voter_vals : ℕ → List AttesterRef → List ℕ
voter_vals node [] = []
voter_vals node (r ∷ rs) =
    let rest = voter_vals node rs in if r.node == node then r.val ∷ rest else rest

-- The subnets of the committees, counted from `ci`, that the node aggregates.
unfoldable pub aggregated : ℕ → List ℕ → ℕ → List (List ℕ) → Option (List ℕ)
aggregated node subnet_of ci [] = some []
aggregated node subnet_of ci (aggs ∷ rest) = do
  more ← aggregated node subnet_of (suc ci) rest
  if contains aggs node then (do s ← get_elem? subnet_of ci; some (s ∷ more)) else some more

unfoldable pub all_aggregated : ℕ → List SlotPlan → Option (List (List ℕ))
unfolding aggregated
all_aggregated node [] = some []
all_aggregated node (sp ∷ sps) = do
  here ← aggregated node sp.subnet_of 0 sp.aggregators
  more ← all_aggregated node sps
  some (here ∷ more)

-- Some committee, subnet or finality subnet of some slot has an aggregator.
abbrev pub draws {ℓ} : {A : Type ℓ} → (SlotPlan → List (List A)) → List SlotPlan → Bool
draws of = any (λ sp. any (λ aggs. ltb 0 (length aggs)) (of sp))

abbrev pub member_subnet : ℕ → List (List ℕ) → ℤ × Bool
member_subnet node subscribers =
    elim (find_index (λ members. contains members node) 0 subscribers) [
      | none ↦ (minus_one, false)
      | some s ↦ (pos s, true)
    ]

-- The number of finality rounds: 0 without a finality chain, every slot under segregation, and
-- otherwise the slots in groups of k, the last one perhaps not full.
abbrev pub rounds_in_plan : Assignment → ℕ
rounds_in_plan a =
    if a.params.ac_slots_per_finality_slot == 0 || length a.finality_subnet_of == 0
    then 0
    else (if segregated a
        then length a.slots
        else (length a.slots + a.params.ac_slots_per_finality_slot - 1)
          / a.params.ac_slots_per_finality_slot)

unfoldable pub round_duties : Assignment → ℕ → ℕ → ℕ → Option (List (List AttestDuty))
round_duties a node n zero = some []
round_duties a node n (suc count) = do
  here ← finality_vote_duties a node n
  more ← round_duties a node (suc n) count
  some (here ∷ more)

unfoldable pub node_view : Assignment → ℕ → Option View
unfolding slot_duties voter_vals all_aggregated round_duties
node_view a node = do
  aggregate_subnets ← all_aggregated node a.slots
  votes ← round_duties a node 0 (rounds_in_plan a)
  some (record {
    num_columns = a.num_columns;
    proposes = map (λ sp. sp.proposer == node) a.slots;
    attest_duties = map (λ sp. slot_duties node sp.committees) a.slots;
    ac_vote_duties =
        map (λ sp. map (λ v. record { val = v }) (voter_vals node sp.ac_voters)) a.slots;
    ptc_duties = map (λ sp. map (λ v. record { val = v }) (voter_vals node sp.ptc_voters)) a.slots;
    aggregate_subnets = aggregate_subnets;
    sync_aggregate_subnets =
        map (λ sp. indices (λ aggs. contains aggs node) 0 sp.sync_aggregators) a.slots;
    finality_vote_duties = votes;
    finality_aggregations =
        map (λ n. finality_aggregations a node n) (range_from 0 (rounds_in_plan a));
    has_aggregators = draws (λ sp. sp.aggregators) a.slots;
    has_sync_aggregators = draws (λ sp. sp.sync_aggregators) a.slots;
    has_finality_aggregators = draws (λ sp. sp.finality_aggregators) a.slots;
    subscribed_subnets = indices (λ members. contains members node) 0 a.subnet_subscribers;
    custody_columns =
        if contains a.full_custody node
        then range_from 0 a.num_columns
        else indices (λ members. contains members node) 0 a.column_subscribers;
    full_custody = contains a.full_custody node;
    sync_subnet = (member_subnet node a.sync_subscribers).0;
    sync_member = (member_subnet node a.sync_subscribers).1;
    finality_subnet = (member_subnet node a.finality_subscribers).0;
    finality_member = (member_subnet node a.finality_subscribers).1;
    subscribers = a.subnet_subscribers;
    finality_subscribers = a.finality_subscribers;
    validators_per_subnet = a.validators_per_subnet;
    validators_per_round_subnet = a.validators_per_round_subnet;
  })
