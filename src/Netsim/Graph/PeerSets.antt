-- ===== src/Netsim/Graph/PeerSets.antt =====
-- netsim/netsim.go and netsim/subnet.go: the peer sets that `peerGraph` and `discv5Graph` return.
use eth_slot_sim.Base.{
  ℕ, ◌≤◌, ◌<◌, ◌≡◌, refl, sym, ◌∙◌, subst, Bool, true, false, List, [], Option, some, arith, ltb,
  ◌==◌, length, get_elem?, contains, occurrences, contains-occurrences, occurrences-contains,
  Bool-cases, inl, inr, ◌⊎◌, contains-range_from,
}
use eth_slot_sim.Netsim.Graph.{Graph, new_graph, add, row, random_tree, fill, seq, peer_graph}
use eth_slot_sim.Netsim.Graph.Simple.{IsSimple, new_graph-IsSimple, add-IsSimple}
use eth_slot_sim.Netsim.Graph.Grown.{AreBelow, Ends, random_tree-Ends, fill_keeps}
use eth_slot_sim.Netsim.Graph.Reach.{
  ReachIn, here, AreConnected, ReachIn-mono, add-edge, add-n, random_tree-AreConnected,
}

-- `n` rows; a node is never its own peer, nor twice the peer of one; and each edge is at both ends.
pub record IsPeerTable (n : ℕ) (adj : List (List ℕ)) : Type 0 where
  pub size : length adj ≡ n
  pub once : (i j : ℕ) → occurrences j (row adj i) ≤ 1
  pub symmetric : (i j : ℕ) → contains (row adj i) j ≡ contains (row adj j) i
  pub ranged : (i j : ℕ) → contains (row adj i) j ≡ true → (i < n) × (j < n) × ((i == j) ≡ false)

-- Whether the second node is in the peer set of the first.
abbrev pub are_peers : List (List ℕ) → ℕ → ℕ → Bool
are_peers adj i j = contains (row adj i) j

contains-edge : (g : Graph) → IsSimple g → (i j : ℕ) → contains (row g.adj i) j ≡ g.edge i j
contains-edge g s i j = ground (
  arith,
  s.counted i j,
  contains-occurrences j (row g.adj i),
  occurrences-contains j (row g.adj i),
)

IsSimple-IsPeerTable : (g : Graph) → IsSimple g → IsPeerTable g.n g.adj
IsSimple-IsPeerTable g s = record {
  size = s.size;
  once = λ i j. ground (arith, s.counted i j);
  symmetric = λ i j. contains-edge g s i j ∙ (s.symmetric i j ∙ sym (contains-edge g s j i));
  ranged = λ i j h. s.ranged i j (sym (contains-edge g s i j) ∙ h);
}

-- A graph on `n` nodes that connects the id lists of a family.
pub record Keeps (n : ℕ) (joins : List ℕ → Type 0) (g : Graph) : Type 0 where
  pub simple : IsSimple g
  pub nodes : g.n ≡ n
  pub joined : (ids : List ℕ) → joins ids → AreConnected ids g.edge

abbrev pub IsAmong : List (List ℕ) → List ℕ → Type 0
IsAmong groups ids = (k : ℕ) × (get_elem? groups k ≡ some ids)

pub Keeps-add :
    (n : ℕ) (joins : List ℕ → Type 0) (i j : ℕ) (g : Graph)
    → Keeps n joins g
    → Keeps n joins (add i j g)
Keeps-add n joins i j g s = record {
  simple = add-IsSimple i j g s.simple;
  nodes = add-n i j g ∙ s.nodes;
  joined = λ ids h a b ha hb.
      ReachIn-mono ids g.edge (add i j g).edge (add-edge i j g) (s.joined ids h a b ha hb);
}

pub Keeps-size : (n : ℕ) (joins : List ℕ → Type 0) (g : Graph) → Keeps n joins g → length g.adj ≡ n
Keeps-size n joins g s = s.simple.size ∙ s.nodes

pub Keeps-mono :
    (n : ℕ) (joins others : List ℕ → Type 0) (g : Graph)
    → ((ids : List ℕ) → others ids → joins ids)
    → Keeps n joins g
    → Keeps n others g
Keeps-mono n joins others g sub s = record {
  simple = s.simple;
  nodes = s.nodes;
  joined = λ ids h. s.joined ids (sub ids h);
}

pub Ends-mono :
    {Rng : Type 0} (P Q : Graph → Type 0) (o : Option (Graph × Rng))
    → ((g : Graph) → P g → Q g)
    → Ends P o
    → Ends Q o
Ends-mono P Q o sub (s, e, p) = (s, e, sub s.0 p)

module _ {Rng : Type 0} (int_n : ℕ → Rng → ℕ × Rng)
    (in_range : (n : ℕ) (r : Rng) → 0 < n → (int_n n r).0 < n) (n : ℕ) where
  pub random_tree-Keeps :
      (joins : List ℕ → Type 0) (ids : List ℕ) (s : Graph × Rng)
      → AreBelow n ids
      → Keeps n joins s.0
      → Ends (Keeps n (λ xs. joins xs ⊎ (xs ≡ ids))) (random_tree int_n ids s)
  random_tree-Keeps joins ids s below p =
      let (t, e, q) =
        random_tree-Ends int_n in_range n (Keeps n joins) (Keeps-add n joins) (Keeps-size n joins)
          ids s p in
      let joined : AreConnected ids t.0.edge =
        random_tree-AreConnected int_n in_range ids s t p.simple
          (λ a h. omega (arith, below a h, p.nodes)) e in
      (
        t,
        e,
        record {
          simple = q.simple;
          nodes = q.nodes;
          joined = λ xs h. elim h [
            | inl old ↦ q.joined xs old
            | inr new ↦ subst (λ ys. AreConnected ys t.0.edge) (sym new) joined
          ];
        },
      )

-- The tables of a graph that is kept: its adjacency, and the id lists it connects.
pub Keeps-peers :
    (n : ℕ) (joins : List ℕ → Type 0) (g : Graph)
    → Keeps n joins g
    → IsPeerTable n g.adj × ((ids : List ℕ) → joins ids → AreConnected ids (are_peers g.adj))
Keeps-peers n joins g s = (
  subst (λ m. IsPeerTable m g.adj) s.nodes (IsSimple-IsPeerTable g s.simple),
  λ ids h i j hi hj.
      ReachIn-mono ids g.edge (are_peers g.adj) (λ a b e. contains-edge g s.simple a b ∙ e)
        (s.joined ids h i j hi hj),
)

-- No id list is asked for yet.
pub new_graph-Keeps : (n : ℕ) → Keeps n (λ ids. ids ≡ []) (new_graph n)
unfolding new_graph
new_graph-Keeps n = record {
  simple = new_graph-IsSimple n;
  nodes = refl;
  joined = λ ids e. subst (λ xs. AreConnected xs (new_graph n).edge) (sym e) (λ i j h. cc);
}

pub small_connected :
    (n : ℕ) (ids : List ℕ) (e : ℕ → ℕ → Bool) → n < 2 → AreBelow n ids → AreConnected ids e
small_connected n ids e lt below i j hi hj =
    let same : i ≡ j = omega (arith, below i hi, below j hj) in
    subst (λ k. ReachIn ids e i k) same here

pub AreBelow-seq : (n : ℕ) → AreBelow n (seq n)
unfolding seq
AreBelow-seq n a h = ground (arith, h, contains-range_from 0 n a)

-- The peer sets of `peerGraph` are returned, are a peer table, and connect all the nodes, where
-- each draw is below its bound.
pub peer_graph_lem :
    {Rng : Type 0} (int_n : ℕ → Rng → ℕ × Rng)
    → ((n : ℕ) (r : Rng) → 0 < n → (int_n n r).0 < n)
    → (n p : ℕ) (r : Rng)
    → (adj : List (List ℕ)) × (peer_graph int_n n p r ≡ some adj)
      × IsPeerTable n adj
      × AreConnected (seq n) (are_peers adj)
unfolding peer_graph
peer_graph_lem int_n in_range n p r =
    let start = new_graph-Keeps n in
    elim (Bool-cases (ltb n 2)) [
      | inl small ↦
          let (table, _) = Keeps-peers n (λ ids. ids ≡ []) (new_graph n) start in
          rw small (
            (new_graph n).adj,
            refl,
            table,
            small_connected n (seq n) (are_peers (new_graph n).adj) (ground arith) (AreBelow-seq n),
          )
      | inr big ↦
          let joins = λ (xs : List ℕ). (xs ≡ []) ⊎ (xs ≡ seq n) in
          let (s, e, k) =
            random_tree-Keeps int_n in_range n (λ ids. ids ≡ []) (seq n) (new_graph n, r)
              (AreBelow-seq n) start in
          let filled =
            fill_keeps int_n in_range n (Keeps n joins) (Keeps-add n joins) (Keeps-size n joins) p s
              k in
          let (table, connected) = Keeps-peers n joins (fill int_n p s).0 filled in
          rw (big, e) ((fill int_n p s).0.adj, refl, table, connected (seq n) (inr refl))
    ]
