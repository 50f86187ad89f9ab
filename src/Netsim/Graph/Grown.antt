-- ===== src/Netsim/Graph/Grown.antt =====
-- netsim/graph.go, netsim/subnet.go: the random builders return, and keep what `add` keeps.
use eth_slot_sim.Base.{
  ℕ, zero, suc, ◌+◌, ◌-◌, ◌*◌, ◌<◌, ◌≡◌, refl, true, ◌||◌, List, [], ◌∷◌, Option, some, arith, ltb,
  ◌==◌, length, get_elem?, get_elem?-lt, contains, min, Bool-cases, inl, inr, ◌>>=◌,
}
use eth_slot_sim.Netsim.Graph.{
  Graph, add, row, count_in, tree_from, random_tree, fill_node, fill_nodes, fill, fill_member,
  fill_members, group_fill, trees, finality_trees, finality_group_degree, seq,
}

-- Every id is the number of a node.
abbrev pub AreBelow : ℕ → List ℕ → Type 0
AreBelow n ids = (a : ℕ) → contains ids a ≡ true → a < n

abbrev pub AreAllBelow : ℕ → List (List ℕ) → Type 0
AreAllBelow n groups = (k : ℕ) (ids : List ℕ) → get_elem? groups k ≡ some ids → AreBelow n ids

-- The builder returns, with a graph that has the property.
abbrev pub Ends : {Rng : Type 0} → (Graph → Type 0) → Option (Graph × Rng) → Type 0
Ends {Rng = Rng} P o = (s : Graph × Rng) × (o ≡ some s) × P s.0

pub bind-Ends :
    {Rng : Type 0} (P Q : Graph → Type 0) (o : Option (Graph × Rng))
    (f : Graph × Rng → Option (Graph × Rng))
    → Ends P o
    → ((s : Graph × Rng) → P s.0 → Ends Q (f s))
    → Ends Q (o >>= f)
bind-Ends P Q o f (s, e, p) h = rw e (h s p)

module _ {Rng : Type 0} (int_n : ℕ → Rng → ℕ × Rng)
    (in_range : (n : ℕ) (r : Rng) → 0 < n → (int_n n r).0 < n) (n : ℕ) (P : Graph → Type 0)
    (P-add : (i j : ℕ) (g : Graph) → P g → P (add i j g))
    (P-size : (g : Graph) → P g → length g.adj ≡ n) where
  tree_from-Ends :
      (ids : List ℕ) (i : ℕ) (rest : List ℕ) (s : Graph × Rng)
      → 0 < i
      → i + length rest ≡ length ids
      → P s.0
      → Ends P (tree_from int_n ids i rest s)
  unfolding tree_from
  tree_from-Ends ids i [] (g, r) pos e p = ((g, r), refl, p)
  tree_from-Ends ids i (id ∷ rest) (g, r) pos e p =
      let (q, there) = get_elem?-lt ids (int_n i r).0 (omega (arith, in_range i r pos)) in
      rw there (
        tree_from-Ends ids (suc i) rest (add id q g, (int_n i r).1) (omega arith) (omega arith)
          (P-add id q g p))

  pub random_tree-Ends : (ids : List ℕ) (s : Graph × Rng) → P s.0 → Ends P (random_tree int_n ids s)
  unfolding random_tree
  random_tree-Ends [] s p = (s, refl, p)
  random_tree-Ends (first ∷ rest) s p =
      tree_from-Ends (first ∷ rest) 1 rest s (omega arith) (omega arith) p

  fill_node_keeps : (k i left : ℕ) (s : Graph × Rng) → P s.0 → P (fill_node int_n k i left s).0
  unfolding fill_node
  fill_node_keeps k i zero s p = p
  fill_node_keeps k i (suc left) (g, r) p = elim (Bool-cases (ltb (length (row g.adj i)) k)) [
    | inl e ↦ rw e (
        fill_node_keeps k i left (add i (int_n g.n r).0 g, (int_n g.n r).1)
          (P-add i (int_n g.n r).0 g p))
    | inr e ↦ rw e p
  ]

  fill_nodes_keeps : (k : ℕ) (is : List ℕ) (s : Graph × Rng) → P s.0 → P (fill_nodes int_n k is s).0
  unfolding fill_nodes
  fill_nodes_keeps k [] s p = p
  fill_nodes_keeps k (i ∷ is) s p =
      fill_nodes_keeps k is (fill_node int_n k i (k * 4) s) (fill_node_keeps k i (k * 4) s p)

  pub fill_keeps : (k : ℕ) (s : Graph × Rng) → P s.0 → P (fill int_n k s).0
  unfolding fill
  fill_keeps k (g, r) p = fill_nodes_keeps k (seq g.n) (g, r) p

  fill_member-Ends :
      (ids : List ℕ) (target id in_group left : ℕ) (s : Graph × Rng)
      → 0 < length ids
      → P s.0
      → Ends P (fill_member int_n ids target id in_group left s)
  unfolding fill_member
  fill_member-Ends ids target id in_group zero s pos p = (s, refl, p)
  fill_member-Ends ids target id in_group (suc left) (g, r) pos p =
      let (peer, there) = get_elem?-lt ids (int_n (length ids) r).0 (in_range (length ids) r pos) in
      elim (Bool-cases (ltb in_group target)) [
        | inr e ↦ rw e ((g, r), refl, p)
        | inl e ↦ elim (Bool-cases (peer == id || g.edge id peer)) [
          | inl skip ↦
              rw (e, there, skip)
                (fill_member-Ends ids target id in_group left (g, (int_n (length ids) r).1) pos p)
          | inr taken ↦
              rw (e, there, taken)
                (fill_member-Ends ids target id (suc in_group) left
                  (add id peer g, (int_n (length ids) r).1) pos (P-add id peer g p))
        ]
      ]

  fill_members-Ends :
      (ids : List ℕ) (k : ℕ) (rest : List ℕ) (s : Graph × Rng)
      → 0 < length ids
      → AreBelow n rest
      → P s.0
      → Ends P (fill_members int_n ids k rest s)
  unfolding fill_members
  fill_members-Ends ids k [] s pos below p = (s, refl, p)
  fill_members-Ends ids k (id ∷ rest) (g, r) pos below p =
      let (peers, there) =
        get_elem?-lt g.adj id (omega (arith, P-size g p, below id (ground arith))) in
      rw there (
        bind-Ends P P
          (fill_member int_n ids (min k (length ids - 1)) id (count_in ids peers) (k * 4) (g, r))
          (λ s. fill_members int_n ids k rest s)
          (fill_member-Ends ids (min k (length ids - 1)) id (count_in ids peers) (k * 4) (g, r) pos
            p)
          (λ s q. fill_members-Ends ids k rest s pos (λ a h. below a (ground (arith, h))) q))

  pub group_fill-Ends :
      (ids : List ℕ) (k : ℕ) (s : Graph × Rng)
      → AreBelow n ids
      → P s.0
      → Ends P (group_fill int_n ids k s)
  unfolding group_fill fill_members
  group_fill-Ends [] k s below p = (s, refl, p)
  group_fill-Ends (id ∷ ids) k s below p =
      fill_members-Ends (id ∷ ids) k (id ∷ ids) s (omega arith) below p

  pub trees-Ends :
      (groups : List (List ℕ)) (s : Graph × Rng) → P s.0 → Ends P (trees int_n groups s)
  unfolding trees
  trees-Ends [] s p = (s, refl, p)
  trees-Ends (ids ∷ groups) s p =
      bind-Ends P P (random_tree int_n ids s) (λ t. trees int_n groups t) (random_tree-Ends ids s p)
        (λ t q. trees-Ends groups t q)

  pub finality_trees-Ends :
      (groups : List (List ℕ)) (s : Graph × Rng)
      → AreAllBelow n groups
      → P s.0
      → Ends P (finality_trees int_n groups s)
  unfolding finality_trees
  finality_trees-Ends [] s below p = (s, refl, p)
  finality_trees-Ends (ids ∷ groups) s below p =
      bind-Ends P P (random_tree int_n ids s)
        (λ t. group_fill int_n ids finality_group_degree t >>= λ u. finality_trees int_n groups u)
        (random_tree-Ends ids s p)
        (λ t q.
          bind-Ends P P (group_fill int_n ids finality_group_degree t)
            (λ u. finality_trees int_n groups u)
            (group_fill-Ends ids finality_group_degree t (below 0 ids refl) q)
            (λ u v. finality_trees-Ends groups u (λ k. below (suc k)) v))
