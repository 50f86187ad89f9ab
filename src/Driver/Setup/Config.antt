-- ===== src/Driver/Setup/Config.antt =====
-- driver/runner.go and driver/partial.go: the knobs of a run. Durations, sizes and fractions are natural
-- numbers, so that a value that is not positive is 0.
use eth_slot_sim.Base.{ℕ, Bool, Option, ltb, if◌then◌else◌}
use eth_slot_sim.Driver.Slot.{EpbsParams}

pub record DecoupledParams : Type 0 where
  pub k : ℕ
  pub fc_vote_offset : ℕ
  pub fc_agg_fraction : ℕ
  pub segregated : Bool
  pub round_agg_fraction : ℕ

pub record PartialParams : Type 0 where
  pub publish_interval : ℕ
  pub max_peers_per_attestation : ℕ
  pub max_iwant_per_position : ℕ
  pub attestation_data_size : ℕ
  pub signature_size : ℕ
  pub disable_metadata_gossip : Bool

-- `validator.PartialAttDataSize` and `validator.PartialSignatureSize`.
abbrev pub partial_att_data_size : ℕ
partial_att_data_size = 128

abbrev pub partial_signature_size : ℕ
partial_signature_size = 96

unfoldable pub data_size : PartialParams → ℕ
data_size pp =
    if ltb 0 pp.attestation_data_size then pp.attestation_data_size else partial_att_data_size

unfoldable pub sig_size_of : PartialParams → ℕ
sig_size_of pp = if ltb 0 pp.signature_size then pp.signature_size else partial_signature_size

pub record RunnerConfig : Type 0 where
  pub attest : Bool
  pub sync : Bool
  pub num_nodes : ℕ
  pub block_size : ℕ
  pub offset : ℕ
  pub jitter : ℕ
  pub slot_duration : ℕ
  pub attestation_due : ℕ
  pub aggregate_due : ℕ
  pub prep : ℕ
  pub decoupled : Option DecoupledParams
  pub partial : Option PartialParams
  pub epbs : Option EpbsParams
