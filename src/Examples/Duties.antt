-- ===== src/Examples/Duties.antt =====
-- The duties and identities of the small plan.
use eth_slot_sim.Base.{
  ℕ, zero, suc, ◌<◌, ◌≡◌, refl, ◌↔◌, true, false, minus_one, List, [], ◌∷◌, some, arith, pos,
  get_elem?, contains,
}
use eth_slot_sim.Schedule.{AttestDuty, View}
use eth_slot_sim.Schedule.Position.{round, host_of, finality_position, finality_ranks}
use eth_slot_sim.Schedule.Duties.{hosted, finality_vote_duties, finality_aggregations}
use eth_slot_sim.Schedule.Duties.Hosting.{validators_of, hosted-host_of}
use eth_slot_sim.Schedule.Duties.Votes.{is_in_round}
use eth_slot_sim.Schedule.Views.{node_view}
use eth_slot_sim.Schedule.Views.Rounds.{votes_for, node_view-finality_vote_duties}
use eth_slot_sim.Node.Kinds.{attestation, finality_vote}
use eth_slot_sim.Driver.Resolver.{committee, committee_size, identity}
use eth_slot_sim.Driver.Resolver.Identities.{
  IsNumbered, identity-finality_vote_duties, identity-committee,
}
use eth_slot_sim.Examples.Plans.{small_plan, small_plan-IsRanked, first_seat, second_seat}

-- The duties of node 1 in round 0: validators 1 and 3.
abbrev votes_of_one : List AttestDuty
votes_of_one =
    record { subnet = 1; val = 1; position = pos 0 }
    ∷ record { subnet = 0; val = 3; position = pos 1 }
    ∷ []

duties_of_one : finality_vote_duties small_plan 1 0 ≡ some votes_of_one
unfolding finality_vote_duties round finality_position finality_ranks
duties_of_one = refl

hosted-host_of_example :
    (vals : List ℕ) × (hosted small_plan 1 ≡ some vals)
    × ((val : ℕ)
        → (contains vals val ≡ true)
          ↔ ((val < validators_of small_plan) × (host_of small_plan (pos val) ≡ pos 1)))
hosted-host_of_example = hosted-host_of small_plan 1 (omega arith)

identity-finality_vote_duties_example :
    (p : ℕ) × (size : ℕ) × (pos 1 ≡ pos p)
    × (committee_size small_plan finality_vote 0 0 ≡ some size)
    × (p < size)
    × (identity small_plan finality_vote 0 0 p ≡ some (pos 3, pos 1))
identity-finality_vote_duties_example =
    identity-finality_vote_duties small_plan 1 0 votes_of_one 1
      (record { subnet = 0; val = 3; position = pos 1 }) small_plan-IsRanked (omega arith)
      duties_of_one refl

first_committee : committee small_plan 1 0 ≡ some (first_seat ∷ second_seat ∷ [])
unfolding committee
first_committee = refl

seats-IsNumbered : IsNumbered 0 (first_seat ∷ second_seat ∷ [])
seats-IsNumbered zero r h = cc
seats-IsNumbered (suc zero) r h = cc
seats-IsNumbered (suc (suc j)) r h = absurd (cc)

identity-committee_example :
    (size : ℕ) × (committee_size small_plan attestation 1 0 ≡ some size)
    × (1 < size)
    × (identity small_plan attestation 1 0 1 ≡ some (pos 3, pos 1))
identity-committee_example =
    identity-committee small_plan 1 0 1 (first_seat ∷ second_seat ∷ []) second_seat first_committee
      seats-IsNumbered refl

-- The view of node 1.
abbrev pub view_of_one : View
view_of_one = record {
  num_columns = 2;
  proposes = false ∷ false ∷ [];
  attest_duties =
      (record { subnet = 1; val = 3; position = pos 1 } ∷ [])
      ∷ (record { subnet = 1; val = 3; position = pos 1 } ∷ [])
      ∷ [];
  ac_vote_duties = [] ∷ [] ∷ [];
  ptc_duties = [] ∷ [] ∷ [];
  aggregate_subnets = (1 ∷ []) ∷ (1 ∷ []) ∷ [];
  sync_aggregate_subnets = [] ∷ [] ∷ [];
  finality_vote_duties =
      votes_of_one ∷ (record { subnet = 0; val = 2; position = pos 0 } ∷ []) ∷ [];
  finality_aggregations = (0 ∷ []) ∷ (0 ∷ []) ∷ [];
  has_aggregators = true;
  has_sync_aggregators = false;
  has_finality_aggregators = true;
  subscribed_subnets = 1 ∷ [];
  custody_columns = 0 ∷ 1 ∷ [];
  full_custody = true;
  sync_subnet = minus_one;
  sync_member = false;
  finality_subnet = pos 1;
  finality_member = true;
  subscribers = (0 ∷ []) ∷ (1 ∷ []) ∷ [];
  finality_subscribers = (0 ∷ []) ∷ (1 ∷ []) ∷ [];
  validators_per_subnet = 3 ∷ 1 ∷ [];
  validators_per_round_subnet = (2 ∷ 1 ∷ []) ∷ (1 ∷ 0 ∷ []) ∷ [];
}

pub view_built : node_view small_plan 1 ≡ some view_of_one
unfolding node_view finality_vote_duties finality_aggregations round finality_position
    finality_ranks
view_built = refl

node_view-finality_vote_duties_example :
    (ds : List AttestDuty) × (k : ℕ) × (get_elem? view_of_one.finality_vote_duties 0 ≡ some ds)
    × (round small_plan 0 ≡ some k)
    × ((val : ℕ)
        → (votes_for ds val ≡ true) ↔ (
            (val < validators_of small_plan)
            × (host_of small_plan (pos val) ≡ pos 1)
            × (is_in_round small_plan k val ≡ true)))
node_view-finality_vote_duties_example =
    node_view-finality_vote_duties small_plan 1 0 view_of_one (omega arith) view_built (omega arith)
