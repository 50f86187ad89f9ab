-- ===== src/Netsim/Topology.antt =====
-- netsim/topology.go, with the placement loop of `NewFromTopology` and `adjacencyFromEdges` of
-- netsim/netsim.go. A node's number is a Go `int`; the other fields are natural numbers, and a
-- country stands for its name.

pub mod Edges
pub mod Counts
pub mod Placed
pub mod Outcome
use eth_slot_sim.Base.{
  ℕ, zero, suc, ◌*◌, Bool, true, false, ◌&&◌, ◌||◌, List, [], ◌∷◌, ◌++◌, Option, none, some, ltb,
  leb, ◌==◌, if◌then◌else◌, ◌>>=◌, length, set, replicate, ℤ, pos, negsuc,
}
use eth_slot_sim.Netsim.Graph.{append_at}

pub record TopoNode : Type 0 where
  pub num : ℤ
  pub upload_mbps : ℕ
  pub download_mbps : ℕ
  pub country : ℕ

pub record TopoEdge : Type 0 where
  pub source : ℕ
  pub target : ℕ
  pub latency_ms : ℕ

pub record Topology : Type 0 where
  pub nodes : List TopoNode
  pub edges : List TopoEdge

abbrev pub super_mbps : ℕ
super_mbps = 1024

-- The bits per second of the two directions of a link.
pub record LinkSettings : Type 0 where
  pub downlink : ℕ
  pub uplink : ℕ

unfoldable pub bw_link_settings : ℕ → ℕ → LinkSettings
bw_link_settings up down = record { downlink = down * 1000000; uplink = up * 1000000 }

pub record Placement : Type 0 where
  pub links : List LinkSettings
  pub placed : List Bool
  pub supers : List ℕ

pub data Placing : Type 0 where
  all_placed : Placement → Placing
  out_of_range : ℤ → Placing
  duplicate : ℤ → Placing

unfoldable pub empty_placement : ℕ → Placement
empty_placement n = record {
  links = replicate n (record { downlink = 0; uplink = 0 });
  placed = replicate n false;
  supers = [];
}

-- `placed[i]` where `i` is in range.
unfoldable pub is_placed : List Bool → ℕ → Bool
is_placed [] i = false
is_placed (b ∷ bs) zero = b
is_placed (b ∷ bs) (suc i) = is_placed bs i

unfoldable pub put_node : TopoNode → ℕ → Placement → Placement
put_node nd i p = record {
  links = set p.links i (bw_link_settings nd.upload_mbps nd.download_mbps);
  placed = set p.placed i true;
  supers = if leb super_mbps nd.upload_mbps then i ∷ p.supers else p.supers;
}

unfoldable pub place_at : ℕ → TopoNode → ℤ → Placement → Placing
place_at n nd (negsuc i) p = out_of_range (negsuc i)
place_at n nd (pos i) p =
    if leb n i
    then out_of_range (pos i)
    else (if is_placed p.placed i then duplicate (pos i) else all_placed (put_node nd i p))

unfoldable pub and_then : Placing → (Placement → Placing) → Placing
and_then (all_placed p) f = f p
and_then (out_of_range x) f = out_of_range x
and_then (duplicate x) f = duplicate x

unfoldable pub place_from : ℕ → List TopoNode → Placement → Placing
place_from n [] p = all_placed p
place_from n (nd ∷ rest) p = and_then (place_at n nd nd.num p) (place_from n rest)

unfoldable pub place_nodes : List TopoNode → Placing
place_nodes nodes = place_from (length nodes) nodes (empty_placement (length nodes))

-- `seen` and `adj` of `adjacencyFromEdges`.
pub record Table : Type 0 where
  pub seen : ℕ → ℕ → Bool
  pub adj : List (List ℕ)

unfoldable pub add_peer : ℕ → ℕ → ℕ → Table → Option Table
add_peer n i j t =
    if i == j
    then some t
    else (if leb n i
        then none
        else (if t.seen i j
            then some t
            else some (record {
              seen = λ a b. t.seen a b || (a == i && b == j);
              adj = append_at t.adj i j;
            })))

unfoldable pub add_edges : ℕ → List TopoEdge → Table → Option Table
add_edges n [] t = some t
add_edges n (e ∷ rest) t = add_peer n e.source e.target t >>= λ u.
    (add_peer n e.target e.source u >>= λ v. add_edges n rest v)

unfoldable pub adjacency_from_edges : ℕ → List TopoEdge → Option (List (List ℕ))
adjacency_from_edges n edges =
    add_edges n edges (record { seen = λ a b. false; adj = replicate n [] }) >>= λ t. some t.adj
