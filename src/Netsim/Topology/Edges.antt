-- ===== src/Netsim/Topology/Edges.antt =====
-- netsim/netsim.go: `adjacencyFromEdges` makes two nodes peers exactly when an edge joins them.
use eth_slot_sim.Base.{
  ℕ, zero, suc, ◌<◌, ◌≡◌, refl, ap₂, ◌∙◌, Bool, true, false, not, ◌&&◌, ◌||◌, List, [], ◌∷◌, some,
  arith, leb, ◌==◌, length, replicate, length-replicate, contains, bit, occurrences,
  contains-occurrences, occurrences-contains, Bool-cases, inl, inr, get_elem?,
}
use eth_slot_sim.Netsim.Graph.{append_at, row}
use eth_slot_sim.Netsim.Graph.Simple.{length-append_at, occurrences-append_at, row-replicate}
use eth_slot_sim.Netsim.Graph.PeerSets.{IsPeerTable, are_peers}
use eth_slot_sim.Netsim.Topology.{TopoEdge, Table, add_peer, add_edges, adjacency_from_edges}

-- Whether an edge joins two nodes in either direction.
unfoldable pub is_joined : List TopoEdge → ℕ → ℕ → Bool
is_joined [] i j = false
is_joined (e ∷ es) i j =
    ((e.source == i && e.target == j) || (e.source == j && e.target == i)) || is_joined es i j

-- The table holds each peer that `seen` says, once, and only at rows in range.
record IsTable (n : ℕ) (t : Table) : Type 0 where
  size : length t.adj ≡ n
  counted : (i j : ℕ) → occurrences j (row t.adj i) ≡ bit (t.seen i j)

same_seen : (t : Table) (i j a b : ℕ) → (a == i && b == j) ≡ true → t.seen a b ≡ t.seen i j
same_seen t i j a b h =
    let e : (a ≡ i) × (b ≡ j) = (ground arith, ground arith) in ap₂ t.seen e.0 e.1

-- What a call of `add` adds to `seen`.
abbrev added : ℕ → ℕ → ℕ → ℕ → Bool
added i j a b = not (i == j) && (a == i && b == j)

add_peer_lem :
    (n i j : ℕ) (t : Table)
    → IsTable n t
    → ((i == j) ≡ false → i < n)
    → (u : Table) × (add_peer n i j t ≡ some u)
      × IsTable n u
      × ((a b : ℕ) → u.seen a b ≡ (t.seen a b || added i j a b))
unfolding add_peer
add_peer_lem n i j t s h = elim (Bool-cases (i == j)) [
  | inl loop ↦ rw loop (t, refl, s, λ a b. ground (arith, loop))
  | inr apart ↦
      let below : leb n i ≡ false = ground (arith, h apart) in
      elim (Bool-cases (t.seen i j)) [
        | inl old ↦
            rw (apart, below, old) (t, refl, s, λ a b. ground (arith, old, same_seen t i j a b))
        | inr new ↦
            rw (apart, below, new)
              (
                record {
                  seen = λ a b. t.seen a b || (a == i && b == j);
                  adj = append_at t.adj i j;
                },
                refl,
                record {
                  size = length-append_at t.adj i j ∙ s.size;
                  counted = λ a b. ground (
                    arith,
                    h apart,
                    new,
                    s.size,
                    s.counted a b,
                    same_seen t i j a b,
                    occurrences-append_at t.adj i j a b,
                  );
                },
                λ a b. ground (arith, apart),
              )
      ]
]

-- Each edge that joins two nodes joins nodes of the network.
abbrev pub AreEdgesBelow : ℕ → List TopoEdge → Type 0
AreEdgesBelow n es =
    (k : ℕ) (e : TopoEdge)
    → get_elem? es k ≡ some e
    → (e.source == e.target) ≡ false
    → (e.source < n) × (e.target < n)

add_edges_lem :
    (n : ℕ) (es : List TopoEdge) (t : Table)
    → IsTable n t
    → AreEdgesBelow n es
    → (u : Table) × (add_edges n es t ≡ some u)
      × IsTable n u
      × ((a b : ℕ) → u.seen a b ≡ (t.seen a b || (not (a == b) && is_joined es a b)))
unfolding add_edges is_joined
add_edges_lem n [] t s below = (t, refl, s, λ a b. ground arith)
add_edges_lem n (e ∷ es) t s below =
    let (u, eu, su, hu) = add_peer_lem n e.source e.target t s (λ h. (below 0 e refl h).0) in
    let (v, ev, sv, hv) =
      add_peer_lem n e.target e.source u su (λ h. (below 0 e refl (ground (arith, h))).1) in
    let (w, ew, sw, hw) = add_edges_lem n es v sv (λ k. below (suc k)) in
    rw (eu, ev) (w, ew, sw, λ a b. ground (arith, hu a b, hv a b, hw a b))

contains-seen :
    (n : ℕ) (t : Table) → IsTable n t → (i j : ℕ) → contains (row t.adj i) j ≡ t.seen i j
contains-seen n t s i j = ground (
  arith,
  s.counted i j,
  contains-occurrences j (row t.adj i),
  occurrences-contains j (row t.adj i),
)

row-lt : (rows : List (List ℕ)) (i j : ℕ) → contains (row rows i) j ≡ true → i < length rows
unfolding row
row-lt [] i j h = cc
row-lt (r ∷ rows) zero j h = omega arith
row-lt (r ∷ rows) (suc i) j h = omega (arith, row-lt rows i j h)

is_joined_comm : (es : List TopoEdge) (a b : ℕ) → is_joined es a b ≡ is_joined es b a
unfolding is_joined
is_joined_comm [] a b = refl
is_joined_comm (e ∷ es) a b = ground (arith, is_joined_comm es a b)

start_IsTable : (n : ℕ) → IsTable n (record { seen = λ a b. false; adj = replicate n [] })
start_IsTable n = record {
  size = length-replicate n [];
  counted = λ i j. rw (row-replicate n i) refl;
}

-- The peer sets of a topology are returned where its edges join nodes of the network; they are
-- a peer table, and two nodes are peers exactly when they differ and an edge joins them in
-- either direction.
pub adjacency_from_edges_lem :
    (n : ℕ) (es : List TopoEdge)
    → AreEdgesBelow n es
    → (adj : List (List ℕ)) × (adjacency_from_edges n es ≡ some adj)
      × IsPeerTable n adj
      × ((a b : ℕ) → are_peers adj a b ≡ (not (a == b) && is_joined es a b))
unfolding adjacency_from_edges
adjacency_from_edges_lem n es below =
    let (t, e, s, h) = add_edges_lem n es _ (start_IsTable n) below in
    let peers : (a b : ℕ) → are_peers t.adj a b ≡ (not (a == b) && is_joined es a b) =
      λ a b. contains-seen n t s a b ∙ h a b in
    rw e (
      t.adj,
      refl,
      record {
        size = s.size;
        once = λ i j. ground (arith, s.counted i j);
        symmetric = λ i j. ground (arith, peers i j, peers j i, is_joined_comm es i j);
        ranged = λ i j c. (
          ground (arith, row-lt t.adj i j c, s.size),
          ground (arith, c, row-lt t.adj j i, s.size, peers i j, peers j i, is_joined_comm es i j),
          ground (arith, peers i j, c),
        );
      },
      peers,
    )
