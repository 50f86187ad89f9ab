-- ===== src/Netsim/Graph.antt =====
-- netsim/graph.go, with `peerGraph` of netsim/netsim.go and `discv5Graph` of netsim/subnet.go. Node
-- ids are natural numbers, so a guard on a negative id never fires. The generator of
-- `math/rand/v2` is a parameter: `int_n n r` is the draw `r.IntN(n)` with the generator after it.
use eth_slot_sim.Base.{
  ℕ, zero, suc, ◌+◌, ◌-◌, ◌*◌, Bool, true, false, not, ◌&&◌, ◌||◌, List, [], ◌∷◌, ◌++◌, Option,
  none, some, ltb, leb, ◌==◌, if◌then◌else◌, ◌>>=◌, length, get_elem?, replicate, contains,
  range_from, min,
}
pub mod Simple
pub mod Grown
pub mod Reach
pub mod PeerSets
pub mod Discv5
use eth_slot_sim.Schedule.{Assignment, Params}

-- `edge i j` is the entry `g.edge[i][j]` of the map of node `i`.
pub record Graph : Type 0 where
  pub n : ℕ
  pub adj : List (List ℕ)
  pub edge : ℕ → ℕ → Bool

unfoldable pub new_graph : ℕ → Graph
new_graph n = record { n = n; adj = replicate n []; edge = λ i j. false }

-- `g.adj[i] = append(g.adj[i], j)`
unfoldable pub append_at : List (List ℕ) → ℕ → ℕ → List (List ℕ)
append_at [] i j = []
append_at (row ∷ rows) zero j = (row ++ j ∷ []) ∷ rows
append_at (row ∷ rows) (suc i) j = row ∷ append_at rows i j

unfoldable pub is_dropped : Graph → ℕ → ℕ → Bool
is_dropped g i j = i == j || leb g.n i || leb g.n j || g.edge i j

-- `g.edge[i][j], g.edge[j][i] = true, true` and the two appends
unfoldable pub link : Graph → ℕ → ℕ → Graph
link g i j = record {
  n = g.n;
  adj = append_at (append_at g.adj i j) j i;
  edge = λ a b. g.edge a b || ((a == i && b == j) || (a == j && b == i));
}

unfoldable pub add : ℕ → ℕ → Graph → Graph
add i j g = if is_dropped g i j then g else link g i j

-- `g.adj[i]` where `i` is known to be in range.
unfoldable pub row : List (List ℕ) → ℕ → List ℕ
row [] i = []
row (xs ∷ rows) zero = xs
row (xs ∷ rows) (suc i) = row rows i

unfoldable pub seq : ℕ → List ℕ
seq n = range_from 0 n

-- `in[p]`, counted over the neighbors of a member.
unfoldable pub count_in : List ℕ → List ℕ → ℕ
count_in ids [] = 0
count_in ids (p ∷ ps) = let rest = count_in ids ps in if contains ids p then suc rest else rest

abbrev pub finality_group_degree : ℕ
finality_group_degree = 12

module _ {Rng : Type 0} (int_n : ℕ → Rng → ℕ × Rng) where
  -- The loop from the id at index `i` on, whose ids are `rest`.
  unfoldable pub tree_from : List ℕ → ℕ → List ℕ → Graph × Rng → Option (Graph × Rng)
  tree_from ids i [] (g, r) = some (g, r)
  tree_from ids i (id ∷ rest) (g, r) =
      get_elem? ids (int_n i r).0 >>= λ p. tree_from ids (suc i) rest (add id p g, (int_n i r).1)

  unfoldable pub random_tree : List ℕ → Graph × Rng → Option (Graph × Rng)
  random_tree [] s = some s
  random_tree (first ∷ rest) s = tree_from (first ∷ rest) 1 rest s

  -- The loop over the tries of a node: `left` of them are left.
  unfoldable pub fill_node : ℕ → ℕ → ℕ → Graph × Rng → Graph × Rng
  fill_node k i zero s = s
  fill_node k i (suc left) (g, r) =
      let rest = fill_node k i left (add i (int_n g.n r).0 g, (int_n g.n r).1) in
      if ltb (length (row g.adj i)) k then rest else (g, r)

  unfoldable pub fill_nodes : ℕ → List ℕ → Graph × Rng → Graph × Rng
  fill_nodes k [] s = s
  fill_nodes k (i ∷ is) s = fill_nodes k is (fill_node k i (k * 4) s)

  unfoldable pub fill : ℕ → Graph × Rng → Graph × Rng
  fill k (g, r) = fill_nodes k (seq g.n) (g, r)

  -- The tries of a member with `in_group` neighbors among the ids: `left` of them are left.
  unfoldable pub fill_member : List ℕ → ℕ → ℕ → ℕ → ℕ → Graph × Rng → Option (Graph × Rng)
  fill_member ids target id in_group zero s = some s
  fill_member ids target id in_group (suc left) (g, r) =
      let more = get_elem? ids (int_n (length ids) r).0 >>= λ peer.
      let skip = peer == id || g.edge id peer in
      fill_member ids target id (if skip then in_group else suc in_group) left
        (if skip then g else add id peer g, (int_n (length ids) r).1) in
      if ltb in_group target then more else some (g, r)

  unfoldable pub fill_members : List ℕ → ℕ → List ℕ → Graph × Rng → Option (Graph × Rng)
  fill_members ids k [] s = some s
  fill_members ids k (id ∷ rest) (g, r) = get_elem? g.adj id >>= λ peers.
      fill_member ids (min k (length ids - 1)) id (count_in ids peers) (k * 4) (g, r) >>= λ s.
      fill_members ids k rest s

  unfoldable pub group_fill : List ℕ → ℕ → Graph × Rng → Option (Graph × Rng)
  group_fill ids k s = fill_members ids k ids s

  -- `for _, subs := range ... { g.randomTree(subs, rng) }`
  unfoldable pub trees : List (List ℕ) → Graph × Rng → Option (Graph × Rng)
  trees [] s = some s
  trees (subs ∷ rest) s = random_tree subs s >>= λ t. trees rest t

  unfoldable pub finality_trees : List (List ℕ) → Graph × Rng → Option (Graph × Rng)
  finality_trees [] s = some s
  finality_trees (subs ∷ rest) s = random_tree subs s >>= λ t.
      (group_fill subs finality_group_degree t >>= λ u. finality_trees rest u)

  unfoldable pub peer_graph : ℕ → ℕ → Rng → Option (List (List ℕ))
  peer_graph n p r =
      let g = new_graph n in
      if ltb n 2 then some g.adj else (random_tree (seq n) (g, r) >>= λ s. some (fill p s).0.adj)

  unfoldable pub grown : Assignment → ℕ → Graph × Rng → Option (Graph × Rng)
  grown a k s = random_tree (seq a.params.n) s >>= λ s. trees a.subnet_subscribers s >>= λ s.
      trees a.column_subscribers s >>= λ s. trees a.sync_subscribers s >>= λ s.
      finality_trees a.finality_subscribers s >>= λ s. some (fill k s)

  unfoldable pub discv5_graph : Assignment → ℕ → Rng → Option (List (List ℕ))
  discv5_graph a k r =
      let g = new_graph a.params.n in
      let k = min k (a.params.n - 1) in
      if ltb a.params.n 2 then some g.adj else (grown a k (g, r) >>= λ s. some s.0.adj)
