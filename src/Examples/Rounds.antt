-- ===== src/Examples/Rounds.antt =====
-- A chain of two finality rounds that share a foreign mesh and a peer.
use eth_slot_sim.Base.{
  Bool, ◌++◌, map, Option, none, ℕ, ◌≡◌, refl, true, false, List, [], ◌∷◌, some, pos,
}
use eth_slot_sim.Schedule.{View}
use eth_slot_sim.Driver.Finality.{Chain}
use eth_slot_sim.Driver.Finality.Steps.{
  Event, prejoin, drop_timer, slot_ends, subscribes, dials, unsubscribes, run_events, are_apart,
}
use eth_slot_sim.Driver.Finality.Sparing.{IsHeld}
use eth_slot_sim.Driver.Finality.Teardown.{run_events-IsHeld}

abbrev member_view : View
member_view = record {
  num_columns = 0;
  proposes = [];
  attest_duties = [];
  ac_vote_duties = [];
  ptc_duties = [];
  aggregate_subnets = [];
  sync_aggregate_subnets = [];
  finality_vote_duties =
      (record { subnet = 1; val = 3; position = pos 0 } ∷ [])
      ∷ (record { subnet = 1; val = 4; position = pos 0 } ∷ [])
      ∷ [];
  finality_aggregations = (1 ∷ 3 ∷ []) ∷ (1 ∷ 2 ∷ []) ∷ [];
  has_aggregators = false;
  has_sync_aggregators = false;
  has_finality_aggregators = true;
  subscribed_subnets = [];
  custody_columns = [];
  full_custody = false;
  sync_subnet = pos 0;
  sync_member = false;
  finality_subnet = pos 0;
  finality_member = true;
  subscribers = [];
  finality_subscribers = [];
  validators_per_subnet = 4 ∷ 4 ∷ 4 ∷ [];
  validators_per_round_subnet = [];
}

abbrev idle_chain : Chain
idle_chain = record {
  num = 0;
  view = member_view;
  stable_peers = 9 ∷ [];
  slot_dur = 12000;
  finality_round_size = 2;
  fc_vote_offset = 0;
  fc_agg_fraction = 50;
  segregated = true;
  round_agg_fraction = 50;
  partial = true;
  finals = [];
  subscribed = [];
  connected = 9 ∷ [];
  joining_topics = [];
  joining_peers = [];
  leaving_topics = [];
  leaving_peers = [];
}

abbrev ordered : ℕ → ℕ → List ℕ
ordered n s = 0 ∷ 9 ∷ 4 ∷ 5 ∷ 6 ∷ 7 ∷ []

abbrev first_joins : List Event
first_joins =
    prejoin 0 ∷ dials 4 ∷ dials 5 ∷ dials 6 ∷ dials 7 ∷ subscribes 1 ∷ subscribes 3 ∷ prejoin 1 ∷ []

-- The second round is registered, then the first is torn down while the second joins.
abbrev overlapping : List Event
overlapping =
    first_joins
    ++ drop_timer 0
      ∷ dials 4
      ∷ subscribes 1
      ∷ subscribes 2
      ∷ unsubscribes 3
      ∷ slot_ends 0
      ∷ dials 5
      ∷ []

abbrev after_run : Option Chain → Chain
after_run none = idle_chain
after_run (some c) = c

abbrev chain_after : Chain
chain_after = record idle_chain {
  finals =
      (
        1,
        record {
          duties = record { subnet = 1; val = 4; position = pos 0 } ∷ [];
          own_subnet = pos 0;
          vote_dialed = 4 ∷ 5 ∷ [];
          aggregate_subnets = 1 ∷ 2 ∷ [];
          aggregate_subscribed = 1 ∷ 2 ∷ [];
          aggregate_dialed = 6 ∷ 7 ∷ [];
          dropped = false;
        },
      )
      ∷ [];
  subscribed = 2 ∷ 1 ∷ 1 ∷ [];
  connected = 5 ∷ 4 ∷ 7 ∷ 6 ∷ 5 ∷ 4 ∷ 9 ∷ [];
  joining_peers = 6 ∷ 7 ∷ [];
}

run_through : run_events ordered overlapping idle_chain ≡ some chain_after
unfolding run_events
run_through = refl

overlapping-apart : are_apart ordered overlapping idle_chain ≡ true
unfolding are_apart
overlapping-apart = refl

run_events-IsHeld_example : IsHeld chain_after
run_events-IsHeld_example =
    run_events-IsHeld ordered overlapping idle_chain chain_after tt overlapping-apart run_through

-- The second round is registered after the teardown of the first has looked at the live rounds, and
-- before it unsubscribes: the second has subscribed the mesh, and is without it.
abbrev racing : List Event
racing = prejoin 0 ∷ subscribes 1 ∷ drop_timer 0 ∷ prejoin 1 ∷ subscribes 1 ∷ unsubscribes 1 ∷ []

racing-loses_mesh :
    let c = after_run (run_events ordered racing idle_chain) in
    (map {B = ℕ × Bool} (λ e. (e.0, e.1.dropped)) c.finals ≡ (1, false) ∷ (0, true) ∷ [])
    × (c.subscribed ≡ [])
    × (c.joining_topics ≡ 2 ∷ 3 ∷ [])
unfolding run_events
racing-loses_mesh = (refl, refl, refl)

racing-not_apart : are_apart ordered racing idle_chain ≡ false
unfolding are_apart
racing-not_apart = refl
