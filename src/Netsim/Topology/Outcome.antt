-- ===== src/Netsim/Topology/Outcome.antt =====
-- netsim/netsim.go: `NewFromTopology` accepts exactly the node numbers 0, 1, ..., n-1, each once.
use eth_slot_sim.Base.{
  ℕ, ◌≡◌, refl, sym, ap, ◌∙◌, subst, true, false, List, [], ◌∷◌, ◌++◌, some, arith, leb, length,
  append_assoc, append-nil, length-replicate, replicate, get_elem?, get_elem?-append_left,
  get_elem?-some-lt, Bool-cases, inl, inr, ℤ, pos, negsuc,
}
use eth_slot_sim.Netsim.Topology.{
  TopoNode, LinkSettings, Placement, Placing, empty_placement, is_placed, put_node, place_at,
  and_then, place_from, place_nodes,
}
use eth_slot_sim.Netsim.Topology.Counts.{
  count_placed-full, count_placed-replicate, is_placed-replicate,
}
use eth_slot_sim.Netsim.Topology.Placed.{IsHome, Holds, IsUpTo, put_node-IsUpTo}

get_elem?-append_here :
    (done : List TopoNode) (nd : TopoNode) (rest : List TopoNode)
    → get_elem? (done ++ nd ∷ rest) (length done) ≡ some nd
get_elem?-append_here [] nd rest = refl
get_elem?-append_here (x ∷ xs) nd rest = get_elem?-append_here xs nd rest

natural : ℤ → ℕ
natural (pos i) = i
natural (negsuc i) = 0

pos-injective : (i j : ℕ) → pos i ≡ pos j → i ≡ j
unfolding natural
pos-injective i j e = ap natural e

-- The node after those that are done decides, or the outcome of the rest does.
place_at-Holds :
    (nodes done rest : List TopoNode) (nd : TopoNode) (p : Placement) (f : Placement → Placing)
    (x : ℤ)
    → nd.num ≡ x
    → get_elem? nodes (length done) ≡ some nd
    → ((k : ℕ) (old : TopoNode) → get_elem? done k ≡ some old → get_elem? nodes k ≡ some old)
    → IsUpTo (length nodes) done p
    → ((q : Placement) → IsUpTo (length nodes) (done ++ nd ∷ []) q → Holds nodes (f q))
    → Holds nodes (and_then (place_at (length nodes) nd x p) f)
unfolding place_at and_then Holds
place_at-Holds nodes done rest nd p f (negsuc i) is at before s h =
    (length done, nd, at, is, λ j e. cc)
place_at-Holds nodes done rest nd p f (pos i) is at before s h =
    elim (Bool-cases (leb (length nodes) i)) [
      | inl out ↦ rw out (length done, nd, at, is, λ j e. ground (arith, out, pos-injective i j e))
      | inr below ↦ elim (Bool-cases (is_placed p.placed i)) [
        | inl taken ↦
            let (k, old, there, its, _, _) = s.homes i taken in
            rw (below, taken)
              (
                k,
                length done,
                old,
                nd,
                get_elem?-some-lt done k there,
                before k old there,
                at,
                its,
                is,
              )
        | inr fresh ↦
            rw (below, fresh)
              (h (put_node nd i p)
                (put_node-IsUpTo (length nodes) done nd i p s (ground arith) is fresh))
      ]
    ]

place_from-Holds :
    (nodes done rest : List TopoNode) (p : Placement)
    → nodes ≡ done ++ rest
    → IsUpTo (length nodes) done p
    → Holds nodes (place_from (length nodes) rest p)
unfolding place_from Holds
place_from-Holds nodes done [] p e s = λ i lt.
    let all : nodes ≡ done = e ∙ append-nil done in
    subst (λ ns. IsHome ns p i) (sym all)
      (s.homes i (
        count_placed-full p.placed i (s.counted ∙ (ap length (sym all) ∙ sym s.sizes.1))
          (omega (arith, s.sizes.1))))
place_from-Holds nodes done (nd ∷ rest) p e s =
    place_at-Holds nodes done rest nd p (place_from (length nodes) rest) nd.num refl
      (ap (λ ns. get_elem? ns (length done)) e ∙ get_elem?-append_here done nd rest)
      (λ k old there. ap (λ ns. get_elem? ns k) e ∙ get_elem?-append_left done (nd ∷ rest) k there)
      s
      (λ q u.
        place_from-Holds nodes (done ++ nd ∷ []) rest q (e ∙ sym (append_assoc done (nd ∷ []) rest))
          u)

start_empty :
    (nodes : List TopoNode) (p : Placement) (n i : ℕ)
    → is_placed (replicate n false) i ≡ true
    → IsHome nodes p i
start_empty nodes p n i h = ground (arith, h, is_placed-replicate n i)

-- The placement of a topology's nodes succeeds with, for each number below the number of nodes,
-- some node of that number, its link there, and its class by its upload bandwidth; or it reports
-- a number that a node has and that is not in that range; or one that two nodes have.
pub place_nodes_lem : (nodes : List TopoNode) → Holds nodes (place_nodes nodes)
unfolding place_nodes empty_placement
place_nodes_lem nodes =
    let n = length nodes in
    let link : LinkSettings = record { downlink = 0; uplink = 0 } in
    place_from-Holds nodes [] nodes (empty_placement n) refl (record {
      sizes = (length-replicate n link, length-replicate n false);
      counted = count_placed-replicate n;
      homes = λ i h. start_empty [] (empty_placement n) n i h;
      free = λ i h. refl;
    })
