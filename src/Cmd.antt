-- ===== src/Cmd.antt =====
-- cmd/slot-sim-node/main.go: the flags of one node, and what it is built from.
pub mod Checked
use eth_slot_sim.Base.{
  ℕ, ◌-◌, Bool, true, false, not, ◌&&◌, ◌||◌, List, Option, none, some, ◌>>=◌, ◌==◌, if◌then◌else◌,
}
use eth_slot_sim.Schedule.{Assignment, View, segregated}
use eth_slot_sim.Driver.Slot.{EpbsParams}
use eth_slot_sim.Driver.Setup.{
  DecoupledParams, PartialParams, RunnerConfig, Construction, is_on, new_runner,
}
use eth_slot_sim.Driver.Fleet.{NodeSetup, view_of, column_width}

-- The flag `-transport`.
pub data Transport : Type 0 where
  classic partial other : Transport

-- The flag `-schedule`: no path, a file that does not load, or the plan that it has.
pub data Plan : Type 0 where
  no_path unreadable : Plan
  loaded : Assignment → Plan

-- The flags that the checks and the runner read; `dc`, `pp` and `ep` have those of the decoupled
-- phase, of the partial transport and of ePBS.
pub record Flags : Type 0 where
  pub node_num : ℕ
  pub num_nodes : ℕ
  pub peers : List ℕ
  pub slot : ℕ
  pub block_size : ℕ
  pub offset : ℕ
  pub jitter : ℕ
  pub startup : ℕ
  pub epbs : Bool
  pub ep : EpbsParams
  pub schedule : Plan
  pub attestations : Bool
  pub sync : Bool
  pub decoupled : Bool
  pub dc : DecoupledParams
  pub att_due : ℕ
  pub agg_due : ℕ
  pub prep : ℕ
  pub col_verify_super : ℕ
  pub col_verify_regular : ℕ
  pub transport : Transport
  pub pp : PartialParams

-- The calls of `log.Fatal`, in the order of the code.
pub data Fatal : Type 0 where
  startup_too_short schedule_not_loaded segregated_without_decoupled : Fatal
  decoupled_without_schedule segregation_mismatch partial_without_schedule : Fatal
  partial_without_phase unknown_transport : Fatal

pub data Outcome {ℓ} (A : Type ℓ) : Type ℓ where
  goes_on : A → Outcome A
  stops : Fatal → Outcome A

abbrev pub and_then {ℓ κ} : {A : Type ℓ} {B : Type κ} → Outcome A → (A → Outcome B) → Outcome B
and_then (goes_on a) f = f a
and_then (stops e) f = stops e

-- 30s
abbrev pub mesh_join_stagger : ℕ
mesh_join_stagger = 30000000000

-- A window that is not positive is 0.
unfoldable pub settle_window : ℕ → ℕ → ℕ
settle_window startup stagger = startup - stagger

unfoldable pub load : Plan → Outcome (Option Assignment)
load no_path = goes_on none
load unreadable = stops schedule_not_loaded
load (loaded a) = goes_on (some a)

abbrev pub bool_eq : Bool → Bool → Bool
bool_eq a b = if a then b else not b

-- The decoupled phase, which must agree with the shape of the plan.
unfoldable pub decoupled_of : Flags → Option Assignment → Outcome (Option DecoupledParams)
decoupled_of f none =
    if f.dc.segregated && not f.decoupled
    then stops segregated_without_decoupled
    else (if f.decoupled then stops decoupled_without_schedule else goes_on none)
decoupled_of f (some a) =
    if f.dc.segregated && not f.decoupled
    then stops segregated_without_decoupled
    else (if f.decoupled
        then (if bool_eq f.dc.segregated (segregated a)
            then goes_on (some f.dc)
            else stops segregation_mismatch)
        else goes_on none)

-- Attestations and sync messages are emitted with a plan, and without the decoupled phase.
unfoldable pub emits : Bool → Option Assignment → Option DecoupledParams → Bool
emits flag sched decoupled = flag && is_on sched && not (is_on decoupled)

unfoldable pub partial_of :
    Flags → Option Assignment → Bool → Option DecoupledParams → Outcome (Option PartialParams)
partial_of f sched attest decoupled = elim f.transport [
  | classic ↦ goes_on none
  | other ↦ stops unknown_transport
  | partial ↦
      if is_on sched
      then (if not attest && not (is_on decoupled)
          then stops partial_without_phase
          else goes_on (some f.pp))
      else stops partial_without_schedule
]

pub record Modes : Type 0 where
  pub plan : Option Assignment
  pub attest : Bool
  pub sync : Bool
  pub decoupled : Option DecoupledParams
  pub partial : Option PartialParams

-- The checks of `main` before the runner is made. The view is read before the transport is
-- checked, and a panic there stops the program too.
unfoldable pub modes_of : Flags → Outcome Modes
unfolding load decoupled_of partial_of emits
modes_of f =
    let checked = and_then (load f.schedule) (λ sched. and_then (decoupled_of f sched) (λ decoupled.
      let attest = emits f.attestations sched decoupled in
      and_then (partial_of f sched attest decoupled) (λ pp. goes_on (record {
        plan = sched;
        attest = attest;
        sync = emits f.sync sched decoupled;
        decoupled = decoupled;
        partial = pp;
      })))) in
    if settle_window f.startup mesh_join_stagger == 0 then stops startup_too_short else checked

unfoldable pub config_of : Flags → Modes → RunnerConfig
config_of f m = record {
  attest = m.attest;
  sync = m.sync;
  num_nodes = f.num_nodes;
  block_size = f.block_size;
  offset = f.offset;
  jitter = f.jitter;
  slot_duration = f.slot;
  attestation_due = f.att_due;
  aggregate_due = f.agg_due;
  prep = f.prep;
  decoupled = m.decoupled;
  partial = m.partial;
  epbs = if f.epbs then some f.ep else none;
}

-- The node and the runner of a view; `none` is a run-time panic.
unfoldable pub build_node : Flags → Modes → Option (NodeSetup × Construction)
unfolding config_of
build_node f m = view_of m.plan f.node_num >>= λ view.
    let nd : NodeSetup = record {
      num = f.node_num;
      col_verify_parallelism = column_width view f.col_verify_super f.col_verify_regular;
      has_partial = is_on m.partial;
    } in
    some (nd, new_runner f.node_num nd.has_partial view f.peers (config_of f m))
