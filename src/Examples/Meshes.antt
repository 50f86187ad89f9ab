-- ===== src/Examples/Meshes.antt =====
-- A classic and a partial node that join, subscribe and leave the topic of a finality subnet.
use eth_slot_sim.Base.{ℕ, ◌≡◌, refl, Bool, true, false, List, [], ◌∷◌, some}
use eth_slot_sim.Node.Registry.{
  text_eq, has_prefix, find_topic, find_prefix, exact_or, descriptor_for, class_of,
  verify_class_for,
}
use eth_slot_sim.Node.Registry.Numbers.{
  digits, decimal, subnet_topic, finality_vote_topic, read_digits, read_bounded, atoi_natural,
  trim_prefix, cut_suffix, subnet_of, partial_kind_for,
}
use eth_slot_sim.Node.Topics.{
  Settings, Answers, new_node, join_locked, register_verify_hook, subscribe_first, subscribe_last,
  subscribe, batch_verifier_for,
}
use eth_slot_sim.Node.Topics.Lifetime.{close}
use eth_slot_sim.Node.Topics.Protocol.{AreProper, was_given}
use eth_slot_sim.Node.Topics.Runs.{
  Event, subscribe_starts, subscribe_ends, leave, send, run_events, run_events-AreProper,
}
use eth_slot_sim.Node.Topics.Untouched.{was_cancelled}
use eth_slot_sim.Node.Topics.Held.{Op, subscribes_to, leaves, run_op, run_ops, close-run_ops}
use eth_slot_sim.Node.Registry.Table.{registry_lookups}

abbrev pub mesh_settings : Bool → Settings
mesh_settings is_partial = record {
  verify_delay = 10;
  attest_verify_delay = some 5;
  attest_per_item = 1;
  attest_batch_window = 0;
  attest_batch_max = 300;
  is_partial = is_partial;
}

abbrev mesh_events : List Event
mesh_events =
    subscribe_starts true true (finality_vote_topic 3)
    ∷ subscribe_ends (some 7) (finality_vote_topic 3)
    ∷ send (finality_vote_topic 3)
    ∷ leave (finality_vote_topic 3)
    ∷ send (finality_vote_topic 3)
    ∷ []

run_events-AreProper_example :
    AreProper
      (mesh_settings true)
      registry_lookups
      (run_events (mesh_settings true) registry_lookups mesh_events new_node).calls
run_events-AreProper_example =
    run_events-AreProper (mesh_settings true) registry_lookups mesh_events

abbrev mesh_answers : ℕ → Answers
mesh_answers h = record { registered = true; joined = true; subscription = some h }

abbrev mesh_ops : List Op
mesh_ops =
    subscribes_to (mesh_answers 7) (finality_vote_topic 3)
    ∷ leaves (finality_vote_topic 3)
    ∷ subscribes_to (mesh_answers 8) (finality_vote_topic 3)
    ∷ []

mesh_given :
    was_given 8 (close (run_ops (mesh_settings false) registry_lookups mesh_ops new_node)).0.calls
    ≡ true
unfolding run_ops run_op close subscribe subscribe_first subscribe_last join_locked
    register_verify_hook batch_verifier_for verify_class_for class_of descriptor_for exact_or
    find_topic find_prefix text_eq has_prefix subnet_topic decimal digits partial_kind_for subnet_of
    cut_suffix trim_prefix atoi_natural read_bounded read_digits
mesh_given = refl

close-run_ops_example :
    was_cancelled 8
      (close (run_ops (mesh_settings false) registry_lookups mesh_ops new_node)).0.calls
    ≡ true
close-run_ops_example = close-run_ops (mesh_settings false) registry_lookups mesh_ops 8 mesh_given
