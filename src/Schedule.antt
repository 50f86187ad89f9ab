-- ===== src/Schedule.antt =====
-- schedule/schedule.go: the structs of schedule.json, with the sequence of an array as a list.
-- Node, validator, subnet and slot numbers are natural numbers, as the generator writes them.
pub mod Position
pub mod Duties
pub mod Views
use eth_slot_sim.Base.{ℕ, ◌<◌, ltb, length, Bool, ℤ, List, [], ◌∷◌}

pub record Params : Type 0 where
  pub n : ℕ
  pub v : ℕ
  pub c : ℕ
  pub sc : ℕ
  pub subnet_count : ℕ
  pub subnets_per_node : ℕ
  pub subscribe_floor : ℕ
  pub target_aggregators : ℕ
  pub seed : ℕ
  pub num_slots : ℕ
  pub ac_vote_size : ℕ
  pub ac_slots_per_finality_slot : ℕ
  pub fs_subnets : ℕ
  pub fs_aggregators : ℕ
  pub ptc_size : ℕ

pub record AttesterRef : Type 0 where
  pub node : ℕ
  pub val : ℕ
  pub subnet : ℕ
  pub position : ℕ

pub record SlotPlan : Type 0 where
  pub slot : ℕ
  pub committees : List (List AttesterRef)
  pub subnet_of : List ℕ
  pub proposer : ℕ
  pub aggregators : List (List ℕ)
  pub sync_aggregators : List (List ℕ)
  pub ac_voters : List AttesterRef
  pub ptc_voters : List AttesterRef
  pub finality_aggregators : List (List AttesterRef)

pub record Assignment : Type 0 where
  pub params : Params
  pub subnet_subscribers : List (List ℕ)
  pub num_columns : ℕ
  pub column_subscribers : List (List ℕ)
  pub full_custody : List ℕ
  pub sync_subscribers : List (List ℕ)
  pub finality_subscribers : List (List ℕ)
  pub finality_subnet_of : List ℕ
  pub validators_per_subnet : List ℕ
  pub finality_round_of : List ℕ
  pub validators_per_round_subnet : List (List ℕ)
  pub validator_counts : List ℕ
  pub slots : List SlotPlan

pub record AttestDuty : Type 0 where
  pub subnet : ℕ
  pub val : ℕ
  pub position : ℤ

pub record AcVoteDuty : Type 0 where
  pub val : ℕ

pub record PtcDuty : Type 0 where
  pub val : ℕ

pub record View : Type 0 where
  pub num_columns : ℕ
  pub proposes : List Bool
  pub attest_duties : List (List AttestDuty)
  pub ac_vote_duties : List (List AcVoteDuty)
  pub ptc_duties : List (List PtcDuty)
  pub aggregate_subnets : List (List ℕ)
  pub sync_aggregate_subnets : List (List ℕ)
  pub finality_vote_duties : List (List AttestDuty)
  pub finality_aggregations : List (List ℕ)
  pub has_aggregators : Bool
  pub has_sync_aggregators : Bool
  pub has_finality_aggregators : Bool
  pub subscribed_subnets : List ℕ
  pub custody_columns : List ℕ
  pub full_custody : Bool
  pub sync_subnet : ℤ
  pub sync_member : Bool
  pub finality_subnet : ℤ
  pub finality_member : Bool
  pub subscribers : List (List ℕ)
  pub finality_subscribers : List (List ℕ)
  pub validators_per_subnet : List ℕ
  pub validators_per_round_subnet : List (List ℕ)

-- Whether the plan has one finality round for each slot.
abbrev pub segregated : Assignment → Bool
segregated a = ltb 0 (length a.finality_round_of)
