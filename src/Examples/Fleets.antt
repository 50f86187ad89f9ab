-- ===== src/Examples/Fleets.antt =====
-- The two hosts of the small plan, and the bring-up of one of them.
use eth_slot_sim.Base.{ℕ, ◌≡◌, refl, true, List, [], Option, none, some, length, get_elem?}
use eth_slot_sim.Schedule.Duties.{finality_vote_duties, finality_aggregations}
use eth_slot_sim.Schedule.Views.{node_view}
use eth_slot_sim.Schedule.Position.{round, finality_position, finality_ranks}
use eth_slot_sim.Driver.Setup.{
  Runner, new_runner, refusal_of, or_refuse, refuse_block_size, refuse_ptc, refuse_aggregates,
  refuse_finality, refuse_partial, build_or, draws_ptc, fraction_of,
}
use eth_slot_sim.Driver.Fleet.{
  Config, NodeSetup, Fleet, panics, ready, runner_config, build_host, build_hosts, new_driver,
}
use eth_slot_sim.Driver.Fleet.Modes.{IsHost, new_driver-IsHost}
use eth_slot_sim.Examples.Plans.{small_plan}
use eth_slot_sim.Examples.Setups.{voting}

abbrev fleet_config : Config
fleet_config = record {
  block_size = 100;
  slot_duration = 12000;
  offset = 0;
  jitter = 50;
  schedule = some small_plan;
  attest = true;
  sync = true;
  attestation_due = 4000;
  prep = 50;
  aggregate_due = 8000;
  decoupled = voting.decoupled;
  partial = none;
  epbs = none;
  col_verify_parallelism_super = 16;
  col_verify_parallelism_reg = 4;
}

abbrev hosts_in : Option Fleet → List (NodeSetup × Runner)
hosts_in none = []
hosts_in (some (panics e)) = []
hosts_in (some (ready rs)) = rs

unfoldable two_hosts : List (NodeSetup × Runner)
two_hosts = hosts_in (new_driver 2 fleet_config (λ i. []))

fleet_built : new_driver 2 fleet_config (λ i. []) ≡ some (ready two_hosts)
unfolding two_hosts new_driver build_hosts build_host node_view finality_vote_duties
    finality_aggregations round finality_position finality_ranks new_runner refusal_of or_refuse
    refuse_block_size refuse_ptc refuse_aggregates refuse_finality refuse_partial build_or draws_ptc
    fraction_of runner_config
fleet_built = refl

new_driver-IsHost_example :
    (length two_hosts ≡ 2)
    × ((k : ℕ) (nd : NodeSetup) (r : Runner)
        → get_elem? two_hosts k ≡ some (nd, r)
        → IsHost small_plan fleet_config k nd r)
new_driver-IsHost_example =
    new_driver-IsHost 2 small_plan fleet_config (λ i. []) two_hosts refl fleet_built
