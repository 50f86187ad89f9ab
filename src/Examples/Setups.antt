-- ===== src/Examples/Setups.antt =====
-- Runners of node 1 of the small plan, with and without the decoupled phase.
use eth_slot_sim.Base.{
  ℕ, ◌+◌, ◌≤◌, ◌≡◌, refl, true, false, not, ◌||◌, List, [], ◌∷◌, map, none, some, arith, contains,
  pos, occurrences, bit,
}
use eth_slot_sim.Driver.Slot.{SlotState}
use eth_slot_sim.Driver.Slot.Emits.{attestation_for, emit}
use eth_slot_sim.Driver.Finality.Dials.{is_kept_out}
use eth_slot_sim.Driver.Finality.{Chain}
use eth_slot_sim.Driver.Setup.{
  RunnerConfig, Runner, built, make_runner, new_runner, refusal_of, or_refuse, refuse_block_size,
  refuse_ptc, refuse_aggregates, refuse_finality, refuse_partial, build_or, draws_ptc, fraction_of,
  make_chain, knobs,
}
use eth_slot_sim.Driver.Setup.Slots.{fresh_slot}
use eth_slot_sim.Driver.Setup.Dialing.{dial_duties}
use eth_slot_sim.Driver.Setup.Instants.{HasInstants, new_runner-HasInstants}
use eth_slot_sim.Driver.Setup.Fanout.{dial_duties-emit}
use eth_slot_sim.Driver.Setup.Rounds.{RoundTimer, arm_slot}
use eth_slot_sim.Driver.Setup.Deadlines.{
  ArmsRound, round_length, round_at, opens_round, arm_slot-ArmsRound,
}
use eth_slot_sim.Examples.Plans.{small_plan}
use eth_slot_sim.Examples.Duties.{view_of_one, view_built}

abbrev pub attesting : RunnerConfig
attesting = record {
  attest = true;
  sync = true;
  num_nodes = 2;
  block_size = 100;
  offset = 0;
  jitter = 50;
  slot_duration = 12000;
  attestation_due = 4000;
  aggregate_due = 8000;
  prep = 50;
  decoupled = none;
  partial = none;
  epbs = none;
}

abbrev pub voting : RunnerConfig
voting = record attesting {
  attest = false;
  sync = false;
  decoupled = some (record {
    k = 2;
    fc_vote_offset = 1000;
    fc_agg_fraction = 50;
    segregated = true;
    round_agg_fraction = 60;
  });
}

unfoldable runner_of_one : RunnerConfig → Runner
runner_of_one cfg = make_runner 1 view_of_one (0 ∷ []) cfg

voting_built : new_runner 1 false view_of_one (0 ∷ []) voting ≡ built (runner_of_one voting)
unfolding new_runner refusal_of or_refuse refuse_block_size refuse_ptc refuse_aggregates
    refuse_finality refuse_partial build_or draws_ptc fraction_of runner_of_one
voting_built = refl

new_runner-HasInstants_example : HasInstants view_of_one (runner_of_one voting)
new_runner-HasInstants_example =
    new_runner-HasInstants small_plan 1 1 false view_of_one (0 ∷ []) voting (runner_of_one voting)
      view_built voting_built

abbrev one_duty : SlotState
unfolding fresh_slot
one_duty = record (fresh_slot 4000) {
  attestation_duties = record { subnet = 1; val = 3; position = pos 1 } ∷ [];
}

dial_duties-emit_example :
    let r = make_runner 1 view_of_one (0 ∷ []) attesting in
    let subscribed = one_duty.attestation_subnets_subscribed in
    let (subnets, dialed) = dial_duties r (λ s. 0 ∷ 1 ∷ 2 ∷ []) one_duty in
    (emit r.phases 1 one_duty (λ s. contains subscribed s || contains subnets s)
      ≡ map (attestation_for r.phases 1 one_duty) one_duty.attestation_duties)
    × ((s : ℕ) → occurrences s subnets ≤ bit (not (contains subscribed s)))
    × ((p : ℕ) → occurrences p dialed ≤ bit (not (is_kept_out r.chain p)))
dial_duties-emit_example =
    dial_duties-emit (make_runner 1 view_of_one (0 ∷ []) attesting) 1 (λ s. 0 ∷ 1 ∷ 2 ∷ []) one_duty

-- Round 1 of a chain that aggregates subnet 2 in it, at slot 2 of two slots a round.
abbrev joined_chain : Chain
joined_chain = record (make_chain 1 view_of_one (0 ∷ []) voting) {
  view = record view_of_one { has_finality_aggregators = true };
  segregated = false;
  finality_round_size = 2;
  finals =
      (
        1,
        record {
          duties = [];
          own_subnet = pos 0;
          vote_dialed = [];
          aggregate_subnets = 2 ∷ [];
          aggregate_subscribed = 2 ∷ [];
          aggregate_dialed = 4 ∷ [];
          dropped = false;
        },
      )
      ∷ [];
}

arm_slot-ArmsRound_example :
    (ts : List RoundTimer) × (arm_slot joined_chain 24000 2 24000 ≡ some ts)
    × ArmsRound joined_chain 24000
        (24000 + round_length joined_chain)
        (round_at joined_chain 2)
        (opens_round joined_chain 2)
        ts
unfolding make_chain knobs
arm_slot-ArmsRound_example =
    arm_slot-ArmsRound joined_chain 24000 2 24000 (omega arith) (omega arith) refl
