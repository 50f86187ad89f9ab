-- ===== src/Driver/Fleet.antt =====
-- driver/driver.go: `New`, which builds a node and a runner for each host.

pub mod Modes
use eth_slot_sim.Base.{
  ℕ, zero, suc, Bool, true, false, List, [], ◌∷◌, Option, none, some, ◌>>=◌, pos, ltb,
  if◌then◌else◌,
}
use eth_slot_sim.Schedule.{Assignment, View}
use eth_slot_sim.Schedule.Views.{node_view}
use eth_slot_sim.Driver.Slot.{EpbsParams}
use eth_slot_sim.Driver.Setup.{
  DecoupledParams, PartialParams, RunnerConfig, Runner, Refusal, Construction, refused, built,
  is_on, new_runner,
}

-- The knobs of a run that the runners, and the column verifiers, are made of.
pub record Config : Type 0 where
  pub block_size : ℕ
  pub slot_duration : ℕ
  pub offset : ℕ
  pub jitter : ℕ
  pub schedule : Option Assignment
  pub attest : Bool
  pub sync : Bool
  pub attestation_due : ℕ
  pub prep : ℕ
  pub aggregate_due : ℕ
  pub decoupled : Option DecoupledParams
  pub partial : Option PartialParams
  pub epbs : Option EpbsParams
  pub col_verify_parallelism_super : ℕ
  pub col_verify_parallelism_reg : ℕ

-- What differs between the nodes; a parallelism that is not set is 0.
pub record NodeSetup : Type 0 where
  pub num : ℕ
  pub col_verify_parallelism : ℕ
  pub has_partial : Bool

-- The zero value of a view: the run is block-only.
abbrev pub zero_view : View
zero_view = record {
  num_columns = 0;
  proposes = [];
  attest_duties = [];
  ac_vote_duties = [];
  ptc_duties = [];
  aggregate_subnets = [];
  sync_aggregate_subnets = [];
  finality_vote_duties = [];
  finality_aggregations = [];
  has_aggregators = false;
  has_sync_aggregators = false;
  has_finality_aggregators = false;
  subscribed_subnets = [];
  custody_columns = [];
  full_custody = false;
  sync_subnet = pos 0;
  sync_member = false;
  finality_subnet = pos 0;
  finality_member = false;
  subscribers = [];
  finality_subscribers = [];
  validators_per_subnet = [];
  validators_per_round_subnet = [];
}

abbrev pub view_of : Option Assignment → ℕ → Option View
view_of none i = some zero_view
view_of (some a) i = node_view a i

-- The decoupled phase turns the attestations and the sync messages off.
unfoldable pub runner_config : ℕ → Config → RunnerConfig
runner_config n cfg = record {
  attest = if is_on cfg.decoupled then false else cfg.attest;
  sync = if is_on cfg.decoupled then false else cfg.sync;
  num_nodes = n;
  block_size = cfg.block_size;
  offset = cfg.offset;
  jitter = cfg.jitter;
  slot_duration = cfg.slot_duration;
  attestation_due = cfg.attestation_due;
  aggregate_due = cfg.aggregate_due;
  prep = cfg.prep;
  decoupled = cfg.decoupled;
  partial = cfg.partial;
  epbs = cfg.epbs;
}

-- The width of the column verifier, by the node's role.
unfoldable pub column_width : View → ℕ → ℕ → ℕ
column_width view super regular =
    if ltb 0 view.num_columns then (if view.full_custody then super else regular) else 0

unfoldable pub node_setup : ℕ → Config → View → NodeSetup
node_setup i cfg view = record {
  num = i;
  col_verify_parallelism =
      column_width view cfg.col_verify_parallelism_super cfg.col_verify_parallelism_reg;
  has_partial = is_on cfg.partial;
}

-- The node and the runner of one host; `none` is a run-time panic.
unfoldable pub build_host : ℕ → Config → (ℕ → List ℕ) → ℕ → Option (NodeSetup × Construction)
unfolding node_setup
build_host n cfg peers i = view_of cfg.schedule i >>= λ view.
    let nd = node_setup i cfg view in
    some (nd, new_runner i nd.has_partial view (peers i) (runner_config n cfg))

-- The runners of the hosts from a number on, up to the first panic of `NewRunner`.
pub data Fleet : Type 0 where
  panics : Refusal → Fleet
  ready : List (NodeSetup × Runner) → Fleet

-- The code panics at the first host that it cannot build.
abbrev pub join_fleet : NodeSetup → Construction → Option Fleet → Option Fleet
join_fleet nd (refused e) rest = some (panics e)
join_fleet nd (built r) none = none
join_fleet nd (built r) (some (panics e)) = some (panics e)
join_fleet nd (built r) (some (ready rs)) = some (ready ((nd, r) ∷ rs))

unfoldable pub build_hosts : ℕ → Config → (ℕ → List ℕ) → ℕ → ℕ → Option Fleet
unfolding build_host
build_hosts n cfg peers i zero = some (ready [])
build_hosts n cfg peers i (suc count) =
    let rest = build_hosts n cfg peers (suc i) count in
    build_host n cfg peers i >>= λ host. join_fleet host.0 host.1 rest

-- `New` on a network of n hosts.
unfoldable pub new_driver : ℕ → Config → (ℕ → List ℕ) → Option Fleet
unfolding build_hosts
new_driver n cfg peers = build_hosts n cfg peers 0 n
