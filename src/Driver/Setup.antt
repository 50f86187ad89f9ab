-- ===== src/Driver/Setup.antt =====
-- driver/runner.go: `NewRunner`, with the refusals of a configuration that would leave duties of the
-- plan without an instant. The run's seed is in the parameters that draw with it.
mod Config
pub mod Slots
pub mod Dialing
pub mod Draws
pub mod Instants
pub mod Rounds
pub mod Inside
pub mod Armed
pub mod Deadlines
pub mod Fanout
pub mod Timers
pub mod Lives
pub mod Once
pub mod Preparing
use eth_slot_sim.Base.{
  ℕ, ◌<◌, Bool, true, false, not, ◌&&◌, ◌||◌, List, [], ◌∷◌, Option, none, some, ltb, leb, ◌==◌,
  if◌then◌else◌, length, any,
}
use eth_slot_sim.Schedule.{PtcDuty, View}
pub use Config.{
  DecoupledParams, PartialParams, RunnerConfig, partial_att_data_size, partial_signature_size,
}
unfoldable pub use Config.{data_size, sig_size_of}
use eth_slot_sim.Driver.Slot.{EpbsParams, Phases, SlotState}
use eth_slot_sim.Driver.Finality.{Chain}

-- The phases and knobs that the votes read are in `phases`, and those of the finality chain, with the
-- number, the view and the long-lived peers of the node, in `chain`.
pub record Runner : Type 0 where
  pub phases : Phases
  pub chain : Chain
  pub num_nodes : ℕ
  pub block_size : ℕ
  pub offset : ℕ
  pub jitter : ℕ
  pub block_due : ℕ
  pub agg_due : ℕ
  pub att_data_size : ℕ
  pub sig_size : ℕ
  pub slots : List (ℕ × SlotState)

-- The panics of `NewRunner`, in the order of the code.
pub data Refusal : Type 0 where
  consensus_block_size_unset ptc_without_epbs ptc_due_unset aggregate_due_unset : Refusal
  sync_aggregate_due_unset finality_fraction_invalid partial_without_phase : Refusal
  partial_without_node : Refusal

pub data Construction : Type 0 where
  refused : Refusal → Construction
  built : Runner → Construction

abbrev pub is_on {ℓ} : {A : Type ℓ} → Option A → Bool
is_on none = false
is_on (some a) = true

-- The first refusal of two checks.
unfoldable pub or_refuse : Option Refusal → Option Refusal → Option Refusal
or_refuse none b = b
or_refuse (some e) b = some e

unfoldable pub refuse_block_size : Option EpbsParams → Option Refusal
refuse_block_size none = none
refuse_block_size (some ep) =
    if ep.consensus_block_size == 0 then some consensus_block_size_unset else none

unfoldable pub draws_ptc : View → Bool
draws_ptc view = any (λ d. ltb 0 (length d)) view.ptc_duties

unfoldable pub refuse_ptc : View → Option EpbsParams → Option Refusal
refuse_ptc view none = if draws_ptc view then some ptc_without_epbs else none
refuse_ptc view (some ep) = if draws_ptc view && ep.ptc_due == 0 then some ptc_due_unset else none

unfoldable pub refuse_aggregates : View → RunnerConfig → Option Refusal
refuse_aggregates view cfg =
    if cfg.aggregate_due == 0
    then (if cfg.attest && view.has_aggregators
        then some aggregate_due_unset
        else (if cfg.sync && view.has_sync_aggregators
            then some sync_aggregate_due_unset
            else none))
    else none

-- The fraction of the round at which its aggregates publish.
unfoldable pub fraction_of : DecoupledParams → ℕ
fraction_of dc = if dc.segregated then dc.round_agg_fraction else dc.fc_agg_fraction

unfoldable pub refuse_finality : View → Option DecoupledParams → Option Refusal
refuse_finality view none = none
refuse_finality view (some dc) =
    if view.has_finality_aggregators && (fraction_of dc == 0 || leb 100 (fraction_of dc))
    then some finality_fraction_invalid
    else none

-- `has_partial` is whether `nd.Partial` is set.
unfoldable pub refuse_partial : Bool → RunnerConfig → Option PartialParams → Option Refusal
refuse_partial has_partial cfg none = none
refuse_partial has_partial cfg (some pp) =
    if not cfg.attest && not (is_on cfg.decoupled)
    then some partial_without_phase
    else (if not has_partial then some partial_without_node else none)

unfoldable pub refusal_of : Bool → View → RunnerConfig → Option Refusal
refusal_of has_partial view cfg = or_refuse (refuse_block_size cfg.epbs) (
    or_refuse (refuse_ptc view cfg.epbs) (
      or_refuse (refuse_aggregates view cfg) (
        or_refuse (refuse_finality view cfg.decoupled)
          (refuse_partial has_partial cfg cfg.partial))))

-- Without the decoupled phase its knobs stay 0.
unfoldable pub knobs : Option DecoupledParams → DecoupledParams
knobs none = record {
  k = 0;
  fc_vote_offset = 0;
  fc_agg_fraction = 0;
  segregated = false;
  round_agg_fraction = 0;
}
knobs (some dc) = dc

unfoldable pub partial_sizes : Option PartialParams → ℕ × ℕ
partial_sizes none = (0, 0)
partial_sizes (some pp) = (data_size pp, sig_size_of pp)

unfoldable pub make_chain : ℕ → View → List ℕ → RunnerConfig → Chain
make_chain num view base_peers cfg =
    let dc = knobs cfg.decoupled in
    record {
      num = num;
      view = view;
      stable_peers = base_peers;
      slot_dur = cfg.slot_duration;
      finality_round_size = dc.k;
      fc_vote_offset = dc.fc_vote_offset;
      fc_agg_fraction = dc.fc_agg_fraction;
      segregated = dc.segregated;
      round_agg_fraction = dc.round_agg_fraction;
      partial = is_on cfg.partial;
      finals = [];
      subscribed = [];
      connected = [];
      joining_topics = [];
      joining_peers = [];
      leaving_topics = [];
      leaving_peers = [];
    }

unfoldable pub make_runner : ℕ → View → List ℕ → RunnerConfig → Runner
make_runner num view base_peers cfg = record {
  phases = record {
    num = num;
    attest = cfg.attest;
    sync = cfg.sync;
    decoupled = is_on cfg.decoupled;
    epbs = cfg.epbs;
    prep = cfg.prep;
  };
  chain = make_chain num view base_peers cfg;
  num_nodes = cfg.num_nodes;
  block_size = cfg.block_size;
  offset = cfg.offset;
  jitter = cfg.jitter;
  block_due = cfg.attestation_due;
  agg_due = cfg.aggregate_due;
  att_data_size = (partial_sizes cfg.partial).0;
  sig_size = (partial_sizes cfg.partial).1;
  slots = [];
}

unfoldable pub build_or : Option Refusal → Runner → Construction
build_or none r = built r
build_or (some e) r = refused e

unfoldable pub new_runner : ℕ → Bool → View → List ℕ → RunnerConfig → Construction
new_runner num has_partial view base_peers cfg =
    build_or (refusal_of has_partial view cfg) (make_runner num view base_peers cfg)
