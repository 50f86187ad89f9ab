-- ===== src/Driver/Setup/Instants.antt =====
-- driver/runner.go: a configuration that `NewRunner` accepts has an instant for each duty of the plan.
use eth_slot_sim.Base.{
  ℕ, ◌<◌, ◌≡◌, refl, ap, subst, Bool, true, List, ◌∷◌, Option, none, some, some-injective, arith,
  if◌then◌else◌, get_elem?, range_from, Option-cases, inl, inr,
}
use eth_slot_sim.Schedule.{Assignment, View, PtcDuty}
use eth_slot_sim.Schedule.Duties.{finality_aggregations}
use eth_slot_sim.Schedule.Views.{node_view, all_aggregated, round_duties, rounds_in_plan}
use eth_slot_sim.Driver.Setup.Draws.{
  get_elem?-any, get_elem?-map, is_drawn, all_aggregated-draws, sync-draws,
  finality_aggregations-draws,
}
use eth_slot_sim.Driver.Slot.{EpbsParams}
use eth_slot_sim.Driver.Finality.{Chain}
use eth_slot_sim.Driver.Setup.{
  DecoupledParams, RunnerConfig, Runner, Refusal, Construction, refused, built, is_on, or_refuse,
  draws_ptc, refuse_ptc, refuse_aggregates, fraction_of, refuse_finality, refusal_of, knobs,
  make_chain, make_runner, build_or, new_runner,
}

-- The fraction of a round at which the runner aggregates it.
abbrev pub round_fraction : Chain → ℕ
round_fraction c = if c.segregated then c.round_agg_fraction else c.fc_agg_fraction

-- Each duty that the phases of the runner ask for has an instant within its slot or round.
pub record HasInstants (view : View) (r : Runner) : Type 0 where
  pub aggregates :
      (s x : ℕ) (xs : List ℕ)
      → get_elem? view.aggregate_subnets s ≡ some (x ∷ xs)
      → r.phases.attest ≡ true
      → 0 < r.agg_due
  pub contributions :
      (s x : ℕ) (xs : List ℕ)
      → get_elem? view.sync_aggregate_subnets s ≡ some (x ∷ xs)
      → r.phases.sync ≡ true
      → 0 < r.agg_due
  pub timeliness :
      (s : ℕ) (d : PtcDuty) (ds : List PtcDuty)
      → get_elem? view.ptc_duties s ≡ some (d ∷ ds)
      → (ep : EpbsParams) × (r.phases.epbs ≡ some ep) × (0 < ep.ptc_due)
  pub rounds :
      (n x : ℕ) (xs : List ℕ)
      → get_elem? view.finality_aggregations n ≡ some (x ∷ xs)
      → r.phases.decoupled ≡ true
      → (0 < round_fraction r.chain) × (round_fraction r.chain < 100)

-- A runner that is built is that of a configuration that no check refuses.
pub record IsAccepted (num : ℕ) (has_partial : Bool) (view : View) (peers : List ℕ)
    (cfg : RunnerConfig) (r : Runner) : Type 0 where
  pub made : make_runner num view peers cfg ≡ r
  ptc : refuse_ptc view cfg.epbs ≡ none
  aggregates : refuse_aggregates view cfg ≡ none
  finality : refuse_finality view cfg.decoupled ≡ none

or_refuse_inv : (a b : Option Refusal) → or_refuse a b ≡ none → (a ≡ none) × (b ≡ none)
unfolding or_refuse
or_refuse_inv none b e = (refl, e)
or_refuse_inv (some x) b e = cc

runner_of : Construction → Runner → Runner
runner_of (built r) other = r
runner_of (refused e) other = other

build_or_inv : (o : Option Refusal) (m r : Runner) → build_or o m ≡ built r → (o ≡ none) × (m ≡ r)
unfolding build_or runner_of
build_or_inv none m r e = (refl, ap (λ c. runner_of c m) e)
build_or_inv (some x) m r e = cc

pub new_runner-IsAccepted :
    (num : ℕ) (has_partial : Bool) (view : View) (peers : List ℕ) (cfg : RunnerConfig) (r : Runner)
    → new_runner num has_partial view peers cfg ≡ built r
    → IsAccepted num has_partial view peers cfg r
unfolding new_runner refusal_of
new_runner-IsAccepted num has_partial view peers cfg r e =
    let (passes, made) = build_or_inv (refusal_of has_partial view cfg) _ r e in
    let (_, rest) = or_refuse_inv _ _ passes in
    let (ptc, rest) = or_refuse_inv _ _ rest in
    let (aggregates, rest) = or_refuse_inv _ _ rest in
    let (finality, _) = or_refuse_inv _ _ rest in
    record { made = made; ptc = ptc; aggregates = aggregates; finality = finality }

ptc_instant :
    (view : View) (epbs : Option EpbsParams)
    → refuse_ptc view epbs ≡ none
    → draws_ptc view ≡ true
    → (ep : EpbsParams) × (epbs ≡ some ep) × (0 < ep.ptc_due)
unfolding refuse_ptc
ptc_instant view none e d = ground arith
ptc_instant view (some ep) e d = (ep, refl, ground arith)

round_instant :
    (view : View) (decoupled : Option DecoupledParams)
    → refuse_finality view decoupled ≡ none
    → view.has_finality_aggregators ≡ true
    → is_on decoupled ≡ true
    → (0 < fraction_of (knobs decoupled)) × (fraction_of (knobs decoupled) < 100)
unfolding refuse_finality knobs
round_instant view none e d on = cc
round_instant view (some dc) e d on = (ground arith, ground arith)

aggregate_instants :
    (view : View) (cfg : RunnerConfig)
    → refuse_aggregates view cfg ≡ none
    → (cfg.attest ≡ true → view.has_aggregators ≡ true → 0 < cfg.aggregate_due)
      × (cfg.sync ≡ true → view.has_sync_aggregators ≡ true → 0 < cfg.aggregate_due)
unfolding refuse_aggregates
aggregate_instants view cfg e = (λ on d. ground arith, λ on d. ground arith)

-- The flags of a view say that the plan draws the duties that it has.
record AreDrawn (view : View) : Type 0 where
  aggregates :
      (s x : ℕ) (xs : List ℕ)
      → get_elem? view.aggregate_subnets s ≡ some (x ∷ xs)
      → view.has_aggregators ≡ true
  contributions :
      (s x : ℕ) (xs : List ℕ)
      → get_elem? view.sync_aggregate_subnets s ≡ some (x ∷ xs)
      → view.has_sync_aggregators ≡ true
  rounds :
      (n x : ℕ) (xs : List ℕ)
      → get_elem? view.finality_aggregations n ≡ some (x ∷ xs)
      → view.has_finality_aggregators ≡ true

node_view-AreDrawn :
    (a : Assignment) (node : ℕ) (view : View) → node_view a node ≡ some view → AreDrawn view
unfolding node_view
node_view-AreDrawn a node view e = elim (Option-cases (all_aggregated node a.slots)) [
  | inl stuck ↦ ground arith
  | inr (aggs, ea) ↦ elim (Option-cases (round_duties a node 0 (rounds_in_plan a))) [
    | inl stuck ↦ ground arith
    | inr (votes, er) ↦ subst AreDrawn (some-injective _ view (rw (ea, er) at e)) (record {
      aggregates = λ s x xs at. all_aggregated-draws node a.slots aggs s x xs ea at;
      contributions = λ s x xs at. sync-draws node a.slots s x xs at;
      rounds = λ n x xs at.
          let (m, _, row) =
            get_elem?-map (λ n. finality_aggregations a node n) (range_from 0 (rounds_in_plan a)) n
              at in
          finality_aggregations-draws a node m x xs row;
    })
  ]
]

-- Where a runner is built for the view of a node of the plan, each aggregate and contribution duty of
-- a phase that is on, each payload-timeliness duty, and each finality aggregation of a decoupled
-- run has its deadline set, a finality one strictly within the round.
pub new_runner-HasInstants :
    (a : Assignment) (node num : ℕ) (has_partial : Bool) (view : View) (peers : List ℕ)
    (cfg : RunnerConfig) (r : Runner)
    → node_view a node ≡ some view
    → new_runner num has_partial view peers cfg ≡ built r
    → HasInstants view r
unfolding make_runner make_chain fraction_of draws_ptc
new_runner-HasInstants a node num has_partial view peers cfg r e b =
    let ok = new_runner-IsAccepted num has_partial view peers cfg r b in
    let drawn = node_view-AreDrawn a node view e in
    let instants = aggregate_instants view cfg ok.aggregates in
    subst (HasInstants view) ok.made (record {
      aggregates = λ s x xs at on. instants.0 on (drawn.aggregates s x xs at);
      contributions = λ s x xs at on. instants.1 on (drawn.contributions s x xs at);
      timeliness = λ s d ds at.
          ptc_instant view cfg.epbs ok.ptc
            (get_elem?-any (λ d. is_drawn d) view.ptc_duties s at (ground arith));
      rounds =
          λ n x xs at on. round_instant view cfg.decoupled ok.finality (drawn.rounds n x xs at) on;
    })
