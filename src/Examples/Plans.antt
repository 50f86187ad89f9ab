-- ===== src/Examples/Plans.antt =====
-- A plan of two nodes and four validators in two slots, segregated into two finality rounds.
use eth_slot_sim.Base.{ℕ, zero, suc, ◌<◌, ◌≡◌, refl, List, [], ◌∷◌, some, arith, pos, length}
use eth_slot_sim.Schedule.{Params, AttesterRef, SlotPlan, Assignment}
use eth_slot_sim.Schedule.Position.{
  round_of_val, round, finality_position, finality_val_at, finality_cell_size, finality_ranks,
  FinalityRanks,
}
use eth_slot_sim.Schedule.Position.Ranks.{Votes, Filled}
use eth_slot_sim.Schedule.Position.Total.{IsRanked, finality_ranks_total}
use eth_slot_sim.Schedule.Position.RoundTrip.{
  finality_val_at-finality_position, finality_position-finality_val_at,
}
use eth_slot_sim.Schedule.Position.Cells.{members, finality_cell_size-members}

abbrev pub small_params : Params
small_params = record {
  n = 2;
  v = 4;
  c = 1;
  sc = 2;
  subnet_count = 2;
  subnets_per_node = 1;
  subscribe_floor = 1;
  target_aggregators = 1;
  seed = 7;
  num_slots = 2;
  ac_vote_size = 200;
  ac_slots_per_finality_slot = 2;
  fs_subnets = 2;
  fs_aggregators = 1;
  ptc_size = 0;
}

abbrev pub first_seat : AttesterRef
first_seat = record { node = 0; val = 2; subnet = 1; position = 0 }

abbrev pub second_seat : AttesterRef
second_seat = record { node = 1; val = 3; subnet = 1; position = 1 }

abbrev pub one_committee : List (List AttesterRef)
one_committee = (first_seat ∷ second_seat ∷ []) ∷ []

abbrev pub small_slot : ℕ → SlotPlan
small_slot s = record {
  slot = s;
  committees = one_committee;
  subnet_of = 1 ∷ [];
  proposer = 0;
  aggregators = (1 ∷ []) ∷ [];
  sync_aggregators = [];
  ac_voters = [];
  ptc_voters = [];
  finality_aggregators = (second_seat ∷ []) ∷ [] ∷ [];
}

-- Validators 0, 1 and 3 vote in round 0, and validator 2 in round 1.
abbrev pub small_plan : Assignment
small_plan = record {
  params = small_params;
  subnet_subscribers = (0 ∷ []) ∷ (1 ∷ []) ∷ [];
  num_columns = 2;
  column_subscribers = (0 ∷ 1 ∷ []) ∷ (1 ∷ []) ∷ [];
  full_custody = 1 ∷ [];
  sync_subscribers = (0 ∷ []) ∷ [];
  finality_subscribers = (0 ∷ []) ∷ (1 ∷ []) ∷ [];
  finality_subnet_of = 0 ∷ 1 ∷ 0 ∷ 0 ∷ [];
  validators_per_subnet = 3 ∷ 1 ∷ [];
  finality_round_of = 0 ∷ 0 ∷ 1 ∷ 0 ∷ [];
  validators_per_round_subnet = (2 ∷ 1 ∷ []) ∷ (1 ∷ 0 ∷ []) ∷ [];
  validator_counts = 1 ∷ 3 ∷ [];
  slots = small_slot 0 ∷ small_slot 1 ∷ [];
}

pub small_plan-IsRanked : IsRanked small_plan
unfolding round_of_val
small_plan-IsRanked zero s h = (0, refl, omega arith)
small_plan-IsRanked (suc zero) s h = (0, refl, omega arith)
small_plan-IsRanked (suc (suc zero)) s h = (1, refl, omega arith)
small_plan-IsRanked (suc (suc (suc zero))) s h = (0, refl, omega arith)
small_plan-IsRanked (suc (suc (suc (suc v)))) s h = absurd (cc)

finality_ranks_total_example :
    (r : FinalityRanks) × (finality_ranks small_plan ≡ some r) × Filled small_plan 4 r
finality_ranks_total_example = finality_ranks_total small_plan small_plan-IsRanked

voter_three : Votes small_plan 3 0 0
unfolding round_of_val
voter_three = record { on = refl; during = refl }

round_of_slot_two : round small_plan 2 ≡ some 0
unfolding round
round_of_slot_two = refl

val_at_one : finality_val_at small_plan (pos 0) 2 (pos 1) ≡ some (pos 3)
unfolding finality_val_at
val_at_one = refl

finality_val_at-finality_position_example :
    (p : ℕ) × (size : ℕ) × (finality_position small_plan (pos 3) ≡ some (pos p))
    × (finality_cell_size small_plan (pos 0) 2 ≡ some size)
    × (p < size)
    × (finality_val_at small_plan (pos 0) 2 (pos p) ≡ some (pos 3))
finality_val_at-finality_position_example =
    finality_val_at-finality_position small_plan 3 0 0 2 small_plan-IsRanked voter_three
      round_of_slot_two

finality_position-finality_val_at_example :
    (k : ℕ) × (round small_plan 2 ≡ some k)
    × Votes small_plan 3 0 k
    × (finality_position small_plan (pos 3) ≡ some (pos 1))
finality_position-finality_val_at_example =
    finality_position-finality_val_at small_plan 0 2 1 3 val_at_one

finality_cell_size-members_example :
    finality_cell_size small_plan (pos 0) 2
    ≡ some (length (members small_plan 0 0 0 (0 ∷ 1 ∷ 0 ∷ 0 ∷ [])))
finality_cell_size-members_example =
    finality_cell_size-members small_plan 0 0 2 small_plan-IsRanked (omega arith) (omega arith)
      round_of_slot_two
