-- ===== src/Examples/Graphs.antt =====
-- Peer sets of the plan of two nodes, of four nodes, and of a topology of three.
use eth_slot_sim.Base.{
  ℕ, suc, ◌<◌, ◌≡◌, List, [], ◌∷◌, some, arith, ltb, if◌then◌else◌, pos, not, ◌&&◌, ◌==◌, refl,
  Bool, true, zero, subst, Bool-cases, inl, inr, some-injective,
}
use eth_slot_sim.Netsim.Graph.{discv5_graph}
use eth_slot_sim.Netsim.Graph.Grown.{AreBelow, AreAllBelow}
use eth_slot_sim.Netsim.Graph.Reach.{AreConnected}
use eth_slot_sim.Netsim.Graph.PeerSets.{IsPeerTable, are_peers}
use eth_slot_sim.Netsim.Graph.Discv5.{IsGroup, AreSubscribersBelow, discv5_graph_lem}
use eth_slot_sim.Netsim.Topology.{TopoNode, TopoEdge, adjacency_from_edges, place_nodes}
use eth_slot_sim.Netsim.Topology.Edges.{AreEdgesBelow, is_joined, adjacency_from_edges_lem}
use eth_slot_sim.Netsim.Topology.Placed.{Holds}
use eth_slot_sim.Netsim.Topology.Outcome.{place_nodes_lem}
use eth_slot_sim.Examples.Plans.{small_plan}

-- A generator that counts up, and gives 0 where its count is past the bound.
abbrev counting : ℕ → ℕ → ℕ × ℕ
counting n r = (if ltb r n then r else 0, suc r)

counting_in_range : (n r : ℕ) → 0 < n → (counting n r).0 < n
counting_in_range n r h = ground arith

is_below : ℕ → List ℕ → Bool
is_below n [] = true
is_below n (a ∷ ids) = ltb a n && is_below n ids

is_below-AreBelow : (n : ℕ) (ids : List ℕ) → is_below n ids ≡ true → AreBelow n ids
unfolding is_below
is_below-AreBelow n [] e a h = cc
is_below-AreBelow n (x ∷ ids) e a h = elim (Bool-cases (x == a)) [
  | inl same ↦ ground (arith, e, same)
  | inr apart ↦ is_below-AreBelow n ids (ground (arith, e)) a (ground (arith, h, apart))
]

are_all_below : ℕ → List (List ℕ) → Bool
are_all_below n [] = true
are_all_below n (ids ∷ groups) = is_below n ids && are_all_below n groups

are_all_below-AreAllBelow :
    (n : ℕ) (groups : List (List ℕ)) → are_all_below n groups ≡ true → AreAllBelow n groups
unfolding are_all_below
are_all_below-AreAllBelow n [] e k ids h = cc
are_all_below-AreAllBelow n (x ∷ groups) e zero ids h =
    subst (AreBelow n) (some-injective x ids h) (is_below-AreBelow n x (ground (arith, e)))
are_all_below-AreAllBelow n (x ∷ groups) e (suc k) ids h =
    are_all_below-AreAllBelow n groups (ground (arith, e)) k ids h

small_plan-AreSubscribersBelow : AreSubscribersBelow small_plan
unfolding are_all_below is_below
small_plan-AreSubscribersBelow = record {
  subnets = are_all_below-AreAllBelow 2 small_plan.subnet_subscribers refl;
  columns = are_all_below-AreAllBelow 2 small_plan.column_subscribers refl;
  syncs = are_all_below-AreAllBelow 2 small_plan.sync_subscribers refl;
  finalities = are_all_below-AreAllBelow 2 small_plan.finality_subscribers refl;
}

abbrev two_edges : List TopoEdge
two_edges =
    record { source = 0; target = 2; latency_ms = 10 }
    ∷ record { source = 2; target = 0; latency_ms = 12 }
    ∷ record { source = 1; target = 1; latency_ms = 0 }
    ∷ []

two_edges-AreEdgesBelow : AreEdgesBelow 3 two_edges
two_edges-AreEdgesBelow zero e h apart =
    subst (λ f. (f.source < 3) × (f.target < 3)) (some-injective _ e h) (omega arith, omega arith)
two_edges-AreEdgesBelow (suc zero) e h apart =
    subst (λ f. (f.source < 3) × (f.target < 3)) (some-injective _ e h) (omega arith, omega arith)
two_edges-AreEdgesBelow (suc (suc zero)) e h apart =
    subst (λ f. (f.source < 3) × (f.target < 3)) (some-injective _ e h) (omega arith, omega arith)
two_edges-AreEdgesBelow (suc (suc (suc k))) e h apart = cc

abbrev two_nodes : List TopoNode
two_nodes =
    record { num = pos 1; upload_mbps = 1024; download_mbps = 1024; country = 3 }
    ∷ record { num = pos 0; upload_mbps = 25; download_mbps = 50; country = 0 }
    ∷ []

place_nodes_lem_example : Holds two_nodes (place_nodes two_nodes)
place_nodes_lem_example = place_nodes_lem two_nodes

discv5_graph_lem_example :
    (adj : List (List ℕ)) × (discv5_graph counting small_plan 1 0 ≡ some adj)
    × IsPeerTable 2 adj
    × ((ids : List ℕ) → IsGroup small_plan ids → AreConnected ids (are_peers adj))
discv5_graph_lem_example =
    discv5_graph_lem counting counting_in_range small_plan 1 0 small_plan-AreSubscribersBelow

adjacency_from_edges_lem_example :
    (adj : List (List ℕ)) × (adjacency_from_edges 3 two_edges ≡ some adj)
    × IsPeerTable 3 adj
    × ((a b : ℕ) → are_peers adj a b ≡ (not (a == b) && is_joined two_edges a b))
adjacency_from_edges_lem_example = adjacency_from_edges_lem 3 two_edges two_edges-AreEdgesBelow
