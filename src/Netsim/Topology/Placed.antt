-- ===== src/Netsim/Topology/Placed.antt =====
-- netsim/netsim.go: what `NewFromTopology` has placed after some of the nodes.
use eth_slot_sim.Base.{
  ℕ, ◌≤◌, ◌<◌, ◌≡◌, ◌∙◌, subst, true, false, List, [], ◌∷◌, ◌++◌, some, arith, leb, ◌==◌, ==_iff,
  length, length-append, set, length-set, get_elem?, get_elem?-set, get_elem?-append_left,
  get_elem?-append_end, contains, if◌then◌else◌, Bool-cases, inl, inr, ℤ, pos,
}
use eth_slot_sim.Netsim.Topology.Counts.{count_placed, is_placed-set, count_placed-set}
use eth_slot_sim.Netsim.Topology.{
  TopoNode, Placement, Placing, all_placed, out_of_range, duplicate, bw_link_settings, super_mbps,
  is_placed, put_node,
}

-- A node of the list has the number, and its link and class are placed there.
abbrev pub IsHome : List TopoNode → Placement → ℕ → Type 0
IsHome nodes p i =
    (k : ℕ) × (nd : TopoNode) × (get_elem? nodes k ≡ some nd)
    × (nd.num ≡ pos i)
    × (get_elem? p.links i ≡ some (bw_link_settings nd.upload_mbps nd.download_mbps))
    × (contains p.supers i ≡ leb super_mbps nd.upload_mbps)

-- A node of the list has a number that is not in the range.
abbrev pub HasStray : List TopoNode → ℤ → Type 0
HasStray nodes x =
    (k : ℕ) × (nd : TopoNode) × (get_elem? nodes k ≡ some nd)
    × (nd.num ≡ x)
    × ((i : ℕ) → x ≡ pos i → length nodes ≤ i)

-- Two nodes of the list have the number.
abbrev pub HasTwice : List TopoNode → ℤ → Type 0
HasTwice nodes x =
    (k : ℕ) × (l : ℕ) × (nd : TopoNode) × (other : TopoNode) × (k < l)
    × (get_elem? nodes k ≡ some nd)
    × (get_elem? nodes l ≡ some other)
    × (nd.num ≡ x)
    × (other.num ≡ x)

-- What an outcome says of the nodes.
unfoldable pub Holds : List TopoNode → Placing → Type 0
Holds nodes (all_placed p) = (i : ℕ) → i < length nodes → IsHome nodes p i
Holds nodes (out_of_range x) = HasStray nodes x
Holds nodes (duplicate x) = HasTwice nodes x

-- The placement of the nodes before some point.
pub record IsUpTo (n : ℕ) (nodes : List TopoNode) (p : Placement) : Type 0 where
  pub sizes : (length p.links ≡ n) × (length p.placed ≡ n)
  pub counted : count_placed p.placed ≡ length nodes
  pub homes : (i : ℕ) → is_placed p.placed i ≡ true → IsHome nodes p i
  pub free : (i : ℕ) → is_placed p.placed i ≡ false → contains p.supers i ≡ false

put_node-sizes :
    (n : ℕ) (nd : TopoNode) (i : ℕ) (p : Placement)
    → (length p.links ≡ n) × (length p.placed ≡ n)
    → let q = put_node nd i p in (length q.links ≡ n) × (length q.placed ≡ n)
unfolding put_node
put_node-sizes n nd i p (l, m) = (
  length-set p.links i (bw_link_settings nd.upload_mbps nd.download_mbps) ∙ l,
  length-set p.placed i true ∙ m,
)

IsHome-new :
    (n : ℕ) (done : List TopoNode) (nd : TopoNode) (i : ℕ) (p : Placement)
    → IsUpTo n done p
    → i < n
    → nd.num ≡ pos i
    → is_placed p.placed i ≡ false
    → IsHome (done ++ nd ∷ []) (put_node nd i p) i
unfolding put_node
IsHome-new n done nd i p s lt is fresh =
    let link = bw_link_settings nd.upload_mbps nd.download_mbps in
    let there : get_elem? (set p.links i link) i
        ≡ (if i == i then some link else get_elem? p.links i) =
      get_elem?-set p.links i i link (omega (arith, s.sizes.0)) in
    (
      length done,
      nd,
      get_elem?-append_end done nd,
      is,
      ground (arith, there),
      ground (arith, s.free i fresh),
    )

IsHome-old :
    (done : List TopoNode) (nd : TopoNode) (i j : ℕ) (p : Placement)
    → i < length p.links
    → (i == j) ≡ false
    → IsHome done p j
    → IsHome (done ++ nd ∷ []) (put_node nd i p) j
unfolding put_node
IsHome-old done nd i j p lt apart (k, old, at, is, link, super) =
    let new = bw_link_settings nd.upload_mbps nd.download_mbps in
    (
      k,
      old,
      get_elem?-append_left done (nd ∷ []) k at,
      is,
      get_elem?-set p.links i j new lt ∙ (rw apart link),
      ground (arith, apart, super),
    )

pub put_node-IsUpTo :
    (n : ℕ) (done : List TopoNode) (nd : TopoNode) (i : ℕ) (p : Placement)
    → IsUpTo n done p
    → i < n
    → nd.num ≡ pos i
    → is_placed p.placed i ≡ false
    → IsUpTo n (done ++ nd ∷ []) (put_node nd i p)
unfolding put_node
put_node-IsUpTo n done nd i p s lt is fresh =
    let in_placed : i < length p.placed = omega (arith, s.sizes.1) in
    record {
      sizes = put_node-sizes n nd i p s.sizes;
      counted = omega (
        arith,
        count_placed-set p.placed i in_placed fresh,
        s.counted,
        length-append done (nd ∷ []),
      );
      homes = λ j h. elim (Bool-cases (i == j)) [
        | inl e ↦
            subst (IsHome (done ++ nd ∷ []) (put_node nd i p)) ((==_iff i j).0 e)
              (IsHome-new n done nd i p s lt is fresh)
        | inr e ↦
            IsHome-old done nd i j p (omega (arith, s.sizes.0)) e
              (s.homes j (ground (arith, h, e, is_placed-set p.placed i j in_placed)))
      ];
      free = λ j h. ground (arith, h, s.free j, is_placed-set p.placed i j in_placed);
    }
