-- ===== src/Examples/Nodes.antt =====
-- The flags of a decoupled node of the small plan over the partial transport.
use eth_slot_sim.Base.{◌≡◌, refl, true, false, [], ◌∷◌, some}
use eth_slot_sim.Driver.Setup.{DecoupledParams, PartialParams}
use eth_slot_sim.Cmd.{
  partial, loaded, Flags, goes_on, Modes, load, decoupled_of, partial_of, emits, settle_window,
  modes_of,
}
use eth_slot_sim.Cmd.Checked.{AreChecked, modes_of-AreChecked}
use eth_slot_sim.Examples.Plans.{small_plan}

abbrev node_decoupled : DecoupledParams
node_decoupled = record {
  k = 2;
  fc_vote_offset = 1000;
  fc_agg_fraction = 50;
  segregated = true;
  round_agg_fraction = 67;
}

abbrev node_partial : PartialParams
node_partial = record {
  publish_interval = 20;
  max_peers_per_attestation = 0;
  max_iwant_per_position = 10;
  attestation_data_size = 128;
  signature_size = 96;
  disable_metadata_gossip = false;
}

abbrev node_flags : Flags
node_flags = record {
  node_num = 1;
  num_nodes = 2;
  peers = 0 ∷ [];
  slot = 12000000000;
  block_size = 131072;
  offset = 0;
  jitter = 2000000000;
  startup = 60000000000;
  epbs = true;
  ep = record {
    consensus_block_size = 2048;
    payload_offset = 500000000;
    payload_jitter = 500000000;
    ptc_due = 9000000000;
  };
  schedule = loaded small_plan;
  attestations = true;
  sync = false;
  decoupled = true;
  dc = node_decoupled;
  att_due = 4000000000;
  agg_due = 8000000000;
  prep = 0;
  col_verify_super = 16;
  col_verify_regular = 4;
  transport = partial;
  pp = node_partial;
}

abbrev node_modes : Modes
node_modes = record {
  plan = some small_plan;
  attest = false;
  sync = false;
  decoupled = some node_decoupled;
  partial = some node_partial;
}

node_passes : modes_of node_flags ≡ goes_on node_modes
unfolding modes_of load decoupled_of partial_of emits settle_window
node_passes = refl

modes_of-AreChecked_example : AreChecked node_flags node_modes
modes_of-AreChecked_example = modes_of-AreChecked node_flags node_modes node_passes
