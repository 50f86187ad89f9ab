-- ===== src/Driver/Fleet/Modes.antt =====
-- driver/driver.go: the runners of a fleet, and the modes that they run in.
use eth_slot_sim.Base.{
  ℕ, zero, suc, ◌+◌, ◌≡◌, refl, sym, ap, subst, ◌∙◌, false, ◌&&◌, ◌||◌, List, [], ◌∷◌, Option, none,
  some, some-injective, arith, length, get_elem?, bind_inv,
}
use eth_slot_sim.Schedule.{Assignment, View}
use eth_slot_sim.Schedule.Views.{node_view}
use eth_slot_sim.Driver.Setup.{
  Runner, Construction, refused, built, is_on, make_runner, make_chain, new_runner,
}
use eth_slot_sim.Driver.Setup.Instants.{new_runner-IsAccepted, HasInstants, new_runner-HasInstants}
use eth_slot_sim.Driver.Fleet.{
  Config, NodeSetup, view_of, runner_config, node_setup, build_host, Fleet, panics, ready,
  join_fleet, build_hosts, new_driver,
}

-- A runner of the fleet, at its place, with the view of the plan that it has.
pub record IsHost (a : Assignment) (cfg : Config) (k : ℕ) (nd : NodeSetup) (r : Runner)
    : Type 0 where
  pub numbered : (nd.num ≡ k) × (r.phases.num ≡ k)
  -- A slot emits an availability vote or an attestation, never both.
  pub exclusive : r.phases.decoupled && (r.phases.attest || r.phases.sync) ≡ false
  pub transport : nd.has_partial ≡ r.chain.partial
  pub planned : node_view a k ≡ some r.chain.view
  pub instants : HasInstants r.chain.view r

made-IsHost :
    (n : ℕ) (a : Assignment) (cfg : Config) (peers : List ℕ) (i : ℕ) (view : View)
    → node_view a i ≡ some view
    → new_runner i (is_on cfg.partial) view peers (runner_config n cfg)
      ≡ built (make_runner i view peers (runner_config n cfg))
    → IsHost a cfg i (node_setup i cfg view) (make_runner i view peers (runner_config n cfg))
unfolding node_setup make_runner make_chain runner_config
made-IsHost n a cfg peers i view seen e = record {
  numbered = (refl, refl);
  exclusive = ground arith;
  transport = refl;
  planned = seen;
  instants =
      new_runner-HasInstants a i i (is_on cfg.partial) view peers (runner_config n cfg)
        (make_runner i view peers (runner_config n cfg)) seen e;
}

build_host-IsHost :
    (n : ℕ) (a : Assignment) (cfg : Config) (peers : ℕ → List ℕ) (i : ℕ) (nd : NodeSetup)
    (r : Runner)
    → cfg.schedule ≡ some a
    → build_host n cfg peers i ≡ some (nd, built r)
    → IsHost a cfg i nd r
unfolding build_host node_setup
build_host-IsHost n a cfg peers i nd r planned e =
    let (view, seen, both) = bind_inv (view_of cfg.schedule i) _ e in
    let pair = some-injective _ (nd, built r) both in
    let made =
      (new_runner-IsAccepted i (is_on cfg.partial) view (peers i) (runner_config n cfg) r
        (ap (λ (x : NodeSetup × Construction). x.1) pair)).made in
    let at_made : new_runner i (is_on cfg.partial) view (peers i) (runner_config n cfg)
        ≡ built (make_runner i view (peers i) (runner_config n cfg)) =
      ap (λ (x : NodeSetup × Construction). x.1) pair ∙ ap built (sym made) in
    let host =
      made-IsHost n a cfg (peers i) i view (subst (λ s. view_of s i ≡ some view) planned seen)
        at_made in
    subst (λ m. IsHost a cfg i m r) (ap (λ (x : NodeSetup × Construction). x.0) pair)
      (subst (λ q. IsHost a cfg i (node_setup i cfg view) q) made host)

-- The hosts of a fleet that is ready, from a number on.
record AreHosts (a : Assignment) (cfg : Config) (i count : ℕ) (rs : List (NodeSetup × Runner))
    : Type 0 where
  all : length rs ≡ count
  each :
      (k : ℕ) (nd : NodeSetup) (r : Runner)
      → get_elem? rs k ≡ some (nd, r)
      → IsHost a cfg (i + k) nd r

cons-each :
    (a : Assignment) (cfg : Config) (i : ℕ) (nd : NodeSetup) (r : Runner)
    (rs : List (NodeSetup × Runner))
    → IsHost a cfg i nd r
    → ((k : ℕ) (m : NodeSetup) (q : Runner)
        → get_elem? rs k ≡ some (m, q)
        → IsHost a cfg (suc i + k) m q)
    → (k : ℕ) (m : NodeSetup) (q : Runner) → get_elem? ((nd, r) ∷ rs) k ≡ some (m, q)
    → IsHost a cfg (i + k) m q
cons-each a cfg i nd r rs first later zero m q h =
    let pair = some-injective (nd, r) (m, q) h in
    let start : i ≡ i + 0 = omega arith in
    subst (λ (x : NodeSetup × Runner). IsHost a cfg (i + 0) x.0 x.1) pair
      (subst (λ j. IsHost a cfg j nd r) start first)
cons-each a cfg i nd r rs first later (suc k) m q h =
    let next : suc i + k ≡ i + suc k = omega arith in
    subst (λ j. IsHost a cfg j m q) next (later k m q h)

join_fleet_inv :
    (nd : NodeSetup) (c : Construction) (rest : Option Fleet) (rs : List (NodeSetup × Runner))
    → join_fleet nd c rest ≡ some (ready rs)
    → (r : Runner) × (qs : List (NodeSetup × Runner)) × (c ≡ built r)
      × (rest ≡ some (ready qs))
      × (rs ≡ (nd, r) ∷ qs)
join_fleet_inv nd (refused e) rest rs h = cc
join_fleet_inv nd (built r) none rs h = cc
join_fleet_inv nd (built r) (some (panics e)) rs h = cc
join_fleet_inv nd (built r) (some (ready qs)) rs h = (r, qs, refl, refl, cc)

build_hosts-AreHosts :
    (n : ℕ) (a : Assignment) (cfg : Config) (peers : ℕ → List ℕ) (i count : ℕ)
    (rs : List (NodeSetup × Runner))
    → cfg.schedule ≡ some a
    → build_hosts n cfg peers i count ≡ some (ready rs)
    → AreHosts a cfg i count rs
unfolding build_hosts
build_hosts-AreHosts n a cfg peers i zero rs planned e =
    let none_left : [] ≡ rs = cc in
    subst (AreHosts a cfg i 0) none_left (record { all = refl; each = λ k nd r h. cc })
build_hosts-AreHosts n a cfg peers i (suc count) rs planned e =
    let (host, here, joined) = bind_inv (build_host n cfg peers i) _ e in
    let (r, qs, c, rest, shape) = join_fleet_inv host.0 host.1 _ rs joined in
    let later = build_hosts-AreHosts n a cfg peers (suc i) count qs planned rest in
    let first =
      build_host-IsHost n a cfg peers i host.0 r planned (here ∙ ap (λ x. some (host.0, x)) c) in
    subst (AreHosts a cfg i (suc count)) (sym shape)
      (record { all = ap suc later.all; each = cons-each a cfg i host.0 r qs first later.each })

-- Where `New` does not panic on a plan, it has a runner for each host of the network, in order. Each
-- has its number and the plan's view of it; it never emits both an availability vote and an
-- attestation or a sync message; its node has the partial transport exactly when the runner is told
-- so; and each of its duties has an instant.
pub new_driver-IsHost :
    (n : ℕ) (a : Assignment) (cfg : Config) (peers : ℕ → List ℕ) (rs : List (NodeSetup × Runner))
    → cfg.schedule ≡ some a
    → new_driver n cfg peers ≡ some (ready rs)
    → (length rs ≡ n)
      × ((k : ℕ) (nd : NodeSetup) (r : Runner)
          → get_elem? rs k ≡ some (nd, r)
          → IsHost a cfg k nd r)
unfolding new_driver
new_driver-IsHost n a cfg peers rs planned e =
    let hosts = build_hosts-AreHosts n a cfg peers 0 n rs planned e in
    (
      hosts.all,
      λ k nd r h.
          let same : 0 + k ≡ k = omega arith in
          subst (λ j. IsHost a cfg j nd r) same (hosts.each k nd r h),
    )
