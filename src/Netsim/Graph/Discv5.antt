-- ===== src/Netsim/Graph/Discv5.antt =====
-- netsim/subnet.go: `discv5Graph` connects all the nodes, and the subscribers of each subnet and column.
use eth_slot_sim.Base.{
  ℕ, zero, suc, ◌-◌, ◌<◌, ◌≡◌, refl, sym, some-injective, subst, List, [], ◌∷◌, some, arith, ltb,
  min, Bool-cases, inl, inr, ◌⊎◌, ◌>>=◌,
}
use eth_slot_sim.Schedule.{Assignment}
use eth_slot_sim.Netsim.Graph.{
  Graph, new_graph, random_tree, fill, group_fill, trees, finality_trees, finality_group_degree,
  grown, seq, discv5_graph,
}
use eth_slot_sim.Netsim.Graph.Grown.{
  AreBelow, AreAllBelow, Ends, bind-Ends, fill_keeps, group_fill-Ends,
}
use eth_slot_sim.Netsim.Graph.Reach.{AreConnected}
use eth_slot_sim.Netsim.Graph.PeerSets.{
  IsPeerTable, are_peers, Keeps, Keeps-add, Keeps-size, Keeps-mono, Keeps-peers, IsAmong, Ends-mono,
  random_tree-Keeps, new_graph-Keeps, small_connected, AreBelow-seq,
}

-- The id lists that the builder connects.
pub data IsGroup (a : Assignment) (ids : List ℕ) : Type 0 where
  all_nodes : ids ≡ seq a.params.n → IsGroup a ids
  subnet : IsAmong a.subnet_subscribers ids → IsGroup a ids
  column : IsAmong a.column_subscribers ids → IsGroup a ids
  sync : IsAmong a.sync_subscribers ids → IsGroup a ids
  finality : IsAmong a.finality_subscribers ids → IsGroup a ids

shift :
    (joins : List ℕ → Type 0) (ids : List ℕ) (groups : List (List ℕ)) (xs : List ℕ)
    → joins xs ⊎ IsAmong (ids ∷ groups) xs
    → (joins xs ⊎ (xs ≡ ids)) ⊎ IsAmong groups xs
shift joins ids groups xs (inl h) = inl (inl h)
shift joins ids groups xs (inr (zero, e)) = inl (inr (sym (some-injective ids xs e)))
shift joins ids groups xs (inr (suc k, e)) = inr (k, e)

unshift : (joins : List ℕ → Type 0) (xs : List ℕ) → joins xs ⊎ IsAmong [] xs → joins xs
unshift joins xs (inl h) = h
unshift joins xs (inr (k, e)) = cc

module _ {Rng : Type 0} (int_n : ℕ → Rng → ℕ × Rng)
    (in_range : (n : ℕ) (r : Rng) → 0 < n → (int_n n r).0 < n) (n : ℕ) where
  trees-Keeps :
      (joins : List ℕ → Type 0) (groups : List (List ℕ)) (s : Graph × Rng)
      → AreAllBelow n groups
      → Keeps n joins s.0
      → Ends (Keeps n (λ xs. joins xs ⊎ IsAmong groups xs)) (trees int_n groups s)
  unfolding trees
  trees-Keeps joins [] s below p =
      (s, refl, Keeps-mono n joins (λ xs. joins xs ⊎ IsAmong [] xs) s.0 (unshift joins) p)
  trees-Keeps joins (ids ∷ groups) s below p =
      let more = λ (xs : List ℕ). joins xs ⊎ (xs ≡ ids) in
      let out = λ (xs : List ℕ). joins xs ⊎ IsAmong (ids ∷ groups) xs in
      bind-Ends (Keeps n more) (Keeps n out) (random_tree int_n ids s) (λ t. trees int_n groups t)
        (random_tree-Keeps int_n in_range n joins ids s (below 0 ids refl) p)
        (λ t q.
          Ends-mono (Keeps n (λ xs. more xs ⊎ IsAmong groups xs)) (Keeps n out)
            (trees int_n groups t)
            (λ g. Keeps-mono n (λ xs. more xs ⊎ IsAmong groups xs) out g (shift joins ids groups))
            (trees-Keeps more groups t (λ k. below (suc k)) q))

  finality_trees-Keeps :
      (joins : List ℕ → Type 0) (groups : List (List ℕ)) (s : Graph × Rng)
      → AreAllBelow n groups
      → Keeps n joins s.0
      → Ends (Keeps n (λ xs. joins xs ⊎ IsAmong groups xs)) (finality_trees int_n groups s)
  unfolding finality_trees
  finality_trees-Keeps joins [] s below p =
      (s, refl, Keeps-mono n joins (λ xs. joins xs ⊎ IsAmong [] xs) s.0 (unshift joins) p)
  finality_trees-Keeps joins (ids ∷ groups) s below p =
      let more = λ (xs : List ℕ). joins xs ⊎ (xs ≡ ids) in
      let out = λ (xs : List ℕ). joins xs ⊎ IsAmong (ids ∷ groups) xs in
      bind-Ends (Keeps n more) (Keeps n out) (random_tree int_n ids s)
        (λ t. group_fill int_n ids finality_group_degree t >>= λ u. finality_trees int_n groups u)
        (random_tree-Keeps int_n in_range n joins ids s (below 0 ids refl) p)
        (λ t q.
          bind-Ends (Keeps n more) (Keeps n out) (group_fill int_n ids finality_group_degree t)
            (λ u. finality_trees int_n groups u)
            (group_fill-Ends int_n in_range n (Keeps n more) (Keeps-add n more) (Keeps-size n more)
              ids finality_group_degree t (below 0 ids refl) q)
            (λ u v.
              Ends-mono (Keeps n (λ xs. more xs ⊎ IsAmong groups xs)) (Keeps n out)
                (finality_trees int_n groups u)
                (λ g.
                  Keeps-mono n (λ xs. more xs ⊎ IsAmong groups xs) out g (shift joins ids groups))
                (finality_trees-Keeps more groups u (λ k. below (suc k)) v)))

-- Every subscriber of the plan is the number of one of its nodes.
pub record AreSubscribersBelow (a : Assignment) : Type 0 where
  pub subnets : AreAllBelow a.params.n a.subnet_subscribers
  pub columns : AreAllBelow a.params.n a.column_subscribers
  pub syncs : AreAllBelow a.params.n a.sync_subscribers
  pub finalities : AreAllBelow a.params.n a.finality_subscribers

IsGroup-AreBelow :
    (a : Assignment)
    → AreSubscribersBelow a
    → (ids : List ℕ) → IsGroup a ids
    → AreBelow a.params.n ids
IsGroup-AreBelow a h ids (all_nodes e) =
    subst (AreBelow a.params.n) (sym e) (AreBelow-seq a.params.n)
IsGroup-AreBelow a h ids (subnet (k, e)) = h.subnets k ids e
IsGroup-AreBelow a h ids (column (k, e)) = h.columns k ids e
IsGroup-AreBelow a h ids (sync (k, e)) = h.syncs k ids e
IsGroup-AreBelow a h ids (finality (k, e)) = h.finalities k ids e

-- What the builder has connected at its end.
abbrev AreJoined : Assignment → List ℕ → Type 0
AreJoined a xs =
    (((((xs ≡ []) ⊎ (xs ≡ seq a.params.n)) ⊎ IsAmong a.subnet_subscribers xs)
        ⊎ IsAmong a.column_subscribers xs)
      ⊎ IsAmong a.sync_subscribers xs)
    ⊎ IsAmong a.finality_subscribers xs

IsGroup-AreJoined : (a : Assignment) (ids : List ℕ) → IsGroup a ids → AreJoined a ids
IsGroup-AreJoined a ids (all_nodes e) = inl (inl (inl (inl (inr e))))
IsGroup-AreJoined a ids (subnet e) = inl (inl (inl (inr e)))
IsGroup-AreJoined a ids (column e) = inl (inl (inr e))
IsGroup-AreJoined a ids (sync e) = inl (inr e)
IsGroup-AreJoined a ids (finality e) = inr e

grown-Keeps :
    {Rng : Type 0} (int_n : ℕ → Rng → ℕ × Rng)
    → ((n : ℕ) (r : Rng) → 0 < n → (int_n n r).0 < n)
    → (a : Assignment) (k : ℕ) (s : Graph × Rng) → AreSubscribersBelow a
    → Keeps a.params.n (λ ids. ids ≡ []) s.0
    → Ends (Keeps a.params.n (AreJoined a)) (grown int_n a k s)
unfolding grown
grown-Keeps int_n in_range a k s h start =
    let n = a.params.n in
    let all = λ (xs : List ℕ). (xs ≡ []) ⊎ (xs ≡ seq n) in
    let subnets = λ (xs : List ℕ). all xs ⊎ IsAmong a.subnet_subscribers xs in
    let columns = λ (xs : List ℕ). subnets xs ⊎ IsAmong a.column_subscribers xs in
    let syncs = λ (xs : List ℕ). columns xs ⊎ IsAmong a.sync_subscribers xs in
    let (s1, e1, k1) =
      random_tree-Keeps int_n in_range n (λ ids. ids ≡ []) (seq n) s (AreBelow-seq n) start in
    let (s2, e2, k2) = trees-Keeps int_n in_range n all a.subnet_subscribers s1 h.subnets k1 in
    let (s3, e3, k3) = trees-Keeps int_n in_range n subnets a.column_subscribers s2 h.columns k2 in
    let (s4, e4, k4) = trees-Keeps int_n in_range n columns a.sync_subscribers s3 h.syncs k3 in
    let (s5, e5, k5) =
      finality_trees-Keeps int_n in_range n syncs a.finality_subscribers s4 h.finalities k4 in
    let filled =
      fill_keeps int_n in_range n (Keeps n (AreJoined a)) (Keeps-add n (AreJoined a))
        (Keeps-size n (AreJoined a)) k s5 k5 in
    rw (e1, e2, e3, e4, e5) (fill int_n k s5, refl, filled)

-- The peer sets of `discv5Graph` are returned, are a peer table, and connect all the nodes, and the
-- subscribers of each subnet, column, sync subnet and finality subnet by walks that stay among
-- them, where each draw is below its bound and each subscriber is the number of a node.
pub discv5_graph_lem :
    {Rng : Type 0} (int_n : ℕ → Rng → ℕ × Rng)
    → ((n : ℕ) (r : Rng) → 0 < n → (int_n n r).0 < n)
    → (a : Assignment) (k : ℕ) (r : Rng) → AreSubscribersBelow a
    → (adj : List (List ℕ)) × (discv5_graph int_n a k r ≡ some adj)
      × IsPeerTable a.params.n adj
      × ((ids : List ℕ) → IsGroup a ids → AreConnected ids (are_peers adj))
unfolding discv5_graph
discv5_graph_lem int_n in_range a k r h =
    let n = a.params.n in
    let start = new_graph-Keeps n in
    elim (Bool-cases (ltb n 2)) [
      | inl small ↦
          let (table, _) = Keeps-peers n (λ ids. ids ≡ []) (new_graph n) start in
          rw small (
            (new_graph n).adj,
            refl,
            table,
            λ ids g.
                small_connected n ids (are_peers (new_graph n).adj) (ground arith)
                  (IsGroup-AreBelow a h ids g),
          )
      | inr big ↦
          let (s, e, kept) =
            grown-Keeps int_n in_range a (min k (n - 1)) (new_graph n, r) h start in
          let (table, connected) = Keeps-peers n (AreJoined a) s.0 kept in
          rw (big, e) (s.0.adj, refl, table, λ ids g. connected ids (IsGroup-AreJoined a ids g))
    ]
