-- ===== src/Netsim/Graph/Reach.antt =====
-- netsim/graph.go: a random tree over ids connects them by edges between those ids.
use eth_slot_sim.Base.{
  ℕ, zero, suc, ◌+◌, ◌<◌, ◌≡◌, refl, sym, ap, ◌∙◌, subst, Bool, true, false, List, [], ◌∷◌, some,
  some-injective, arith, ◌==◌, ==_iff, length, get_elem?, get_elem?-lt, contains, Bool-cases, inl,
  inr, bind_at,
}
use eth_slot_sim.Netsim.Graph.{Graph, add, link, is_dropped, tree_from, random_tree}
use eth_slot_sim.Netsim.Graph.Simple.{IsSimple, add-IsSimple}
use eth_slot_sim.Netsim.Graph.Grown.{AreBelow}

-- A walk along edges, each step to one of the ids.
pub data ReachIn (ids : List ℕ) (e : ℕ → ℕ → Bool) : ℕ → ℕ → Type 0 where
  here : {i : ℕ} → ReachIn ids e i i
  step : {i j k : ℕ} → contains ids j ≡ true → e i j ≡ true → ReachIn ids e j k → ReachIn ids e i k

abbrev pub AreConnected : List ℕ → (ℕ → ℕ → Bool) → Type 0
AreConnected ids e = (i j : ℕ) → contains ids i ≡ true → contains ids j ≡ true → ReachIn ids e i j

module _ (ids : List ℕ) (e : ℕ → ℕ → Bool) where
  pub ReachIn-trans : {i j k : ℕ} → ReachIn ids e i j → ReachIn ids e j k → ReachIn ids e i k
  ReachIn-trans here q = q
  ReachIn-trans (step c h p) q = step c h (ReachIn-trans p q)

  pub ReachIn-mono :
      (f : ℕ → ℕ → Bool)
      → ((i j : ℕ) → e i j ≡ true → f i j ≡ true)
      → {i j : ℕ} → ReachIn ids e i j
      → ReachIn ids f i j
  ReachIn-mono f sub here = here
  ReachIn-mono f sub (step {i = i} {j = j} c h p) = step c (sub i j h) (ReachIn-mono f sub p)

pub add-edge : (i j : ℕ) (g : Graph) (a b : ℕ) → g.edge a b ≡ true → (add i j g).edge a b ≡ true
unfolding add link is_dropped
add-edge i j g a b h = ground arith

pub add-n : (i j : ℕ) (g : Graph) → (add i j g).n ≡ g.n
unfolding add link is_dropped
add-n i j g = ground arith

add_links :
    (i j : ℕ) (g : Graph)
    → IsSimple g
    → i < g.n
    → j < g.n
    → (i == j) ≡ false
    → ((add i j g).edge i j ≡ true) × ((add i j g).edge j i ≡ true)
unfolding add link is_dropped
add_links i j g s hi hj ne =
    (ground (arith, hi, hj, ne), ground (arith, hi, hj, ne, s.symmetric i j))

pub get_elem?-contains :
    (ids : List ℕ) (k : ℕ) {a : ℕ} → get_elem? ids k ≡ some a → contains ids a ≡ true
get_elem?-contains [] k h = cc
get_elem?-contains (x ∷ xs) zero {a = a} h = ground (arith, some-injective x a h)
get_elem?-contains (x ∷ xs) (suc k) h = ground (arith, get_elem?-contains xs k h)

pub contains-get_elem? :
    (ids : List ℕ) (a : ℕ)
    → contains ids a ≡ true
    → (k : ℕ) × (k < length ids) × (get_elem? ids k ≡ some a)
contains-get_elem? [] a h = cc
contains-get_elem? (x ∷ xs) a h = elim (Bool-cases (x == a)) [
  | inl e ↦ (0, omega arith, rw ((==_iff x a).0 e) refl)
  | inr e ↦
      let (k, lt, there) = contains-get_elem? xs a (ground (arith, h, e)) in
      (suc k, omega arith, there)
]

-- The first `i` ids reach the root, and it reaches them.
abbrev AreRooted : List ℕ → (ℕ → ℕ → Bool) → ℕ → ℕ → Type 0
AreRooted ids e root i =
    (k a : ℕ) → k < i → get_elem? ids k ≡ some a → ReachIn ids e root a × ReachIn ids e a root

module _ {Rng : Type 0} (int_n : ℕ → Rng → ℕ × Rng)
    (in_range : (n : ℕ) (r : Rng) → 0 < n → (int_n n r).0 < n) (ids : List ℕ) (root : ℕ) where
  -- The id at `i` is linked to an earlier one, or is that one.
  attach_new :
      (g : Graph) (d id p : ℕ)
      → IsSimple g
      → AreBelow g.n ids
      → contains ids id ≡ true
      → contains ids p ≡ true
      → ReachIn ids g.edge root p × ReachIn ids g.edge p root
      → ReachIn ids (add id p g).edge root id × ReachIn ids (add id p g).edge id root
  attach_new g d id p s below has_id has_p (to, from) =
      let f = (add id p g).edge in
      let to : ReachIn ids f root p = ReachIn-mono ids g.edge f (add-edge id p g) to in
      let from : ReachIn ids f p root = ReachIn-mono ids g.edge f (add-edge id p g) from in
      elim (Bool-cases (id == p)) [
        | inl e ↦
            let q = sym ((==_iff id p).0 e) in
            (subst (λ x. ReachIn ids f root x) q to, subst (λ x. ReachIn ids f x root) q from)
        | inr ne ↦
            let (there, back) = add_links id p g s (below id has_id) (below p has_p) ne in
            (ReachIn-trans ids f to (step has_id back here), step has_p there from)
      ]

  attach :
      (g : Graph) (i d id p : ℕ)
      → IsSimple g
      → AreBelow g.n ids
      → d < i
      → get_elem? ids d ≡ some p
      → get_elem? ids i ≡ some id
      → AreRooted ids g.edge root i
      → AreRooted ids (add id p g).edge root (suc i)
  attach g i d id p s below lt at_d at_i rooted k a le at_k =
      let f = (add id p g).edge in
      elim (Bool-cases (k == i)) [
        | inl e ↦
            let same : id ≡ a =
              some-injective id a
                (sym at_i ∙ (ap (get_elem? ids) (sym ((==_iff k i).0 e)) ∙ at_k)) in
            subst (λ x. ReachIn ids f root x × ReachIn ids f x root) same
              (attach_new g d id p s below (get_elem?-contains ids i at_i)
                (get_elem?-contains ids d at_d) (rooted d p lt at_d))
        | inr ne ↦
            let (to, from) = rooted k a (ground arith) at_k in
            (
              ReachIn-mono ids g.edge f (add-edge id p g) to,
              ReachIn-mono ids g.edge f (add-edge id p g) from,
            )
      ]

  tree_from_roots :
      (i : ℕ) (rest : List ℕ) (s t : Graph × Rng)
      → IsSimple s.0
      → AreBelow s.0.n ids
      → 0 < i
      → ((k : ℕ) → get_elem? rest k ≡ get_elem? ids (i + k))
      → i + length rest ≡ length ids
      → AreRooted ids s.0.edge root i
      → tree_from int_n ids i rest s ≡ some t
      → AreRooted ids t.0.edge root (length ids)
  unfolding tree_from
  tree_from_roots i [] (g, r) t simple below pos tail size rooted e =
      let same : (g, r) ≡ t = some-injective (g, r) t e in
      let full : i ≡ length ids = omega arith in
      subst (λ u. AreRooted ids u.0.edge root (length ids)) same
        (subst (λ m. AreRooted ids g.edge root m) full rooted)
  tree_from_roots i (id ∷ rest) (g, r) t simple below pos tail size rooted e =
      let lt = in_range i r pos in
      let (p, there) = get_elem?-lt ids (int_n i r).0 (omega arith) in
      let at_i : get_elem? ids i ≡ some id = ap (get_elem? ids) (omega arith) ∙ sym (tail 0) in
      tree_from_roots (suc i) rest (add id p g, (int_n i r).1) t (add-IsSimple id p g simple)
        (λ a h. omega (arith, below a h, add-n id p g)) (omega arith)
        (λ k. tail (suc k) ∙ ap (get_elem? ids) (omega arith)) (omega arith)
        (attach g i (int_n i r).0 id p simple below lt there at_i rooted)
        (sym (
            bind_at (get_elem? ids (int_n i r).0)
              (λ q. tree_from int_n ids (suc i) rest (add id q g, (int_n i r).1)) there)
          ∙ e)

  AreRooted-first : (e : ℕ → ℕ → Bool) → get_elem? ids 0 ≡ some root → AreRooted ids e root 1
  AreRooted-first e at_root k a lt at =
      let start : 0 ≡ k = omega arith in
      let same : root ≡ a = some-injective root a (sym at_root ∙ (ap (get_elem? ids) start ∙ at)) in
      subst (λ x. ReachIn ids e root x × ReachIn ids e x root) same (here, here)

  pub AreRooted-AreConnected :
      (e : ℕ → ℕ → Bool) → AreRooted ids e root (length ids) → AreConnected ids e
  AreRooted-AreConnected e rooted i j hi hj =
      let (k, k_lt, at_k) = contains-get_elem? ids i hi in
      let (l, l_lt, at_l) = contains-get_elem? ids j hj in
      ReachIn-trans ids e (rooted k i k_lt at_k).1 (rooted l j l_lt at_l).0

pub random_tree-AreConnected :
    {Rng : Type 0} (int_n : ℕ → Rng → ℕ × Rng)
    → ((n : ℕ) (r : Rng) → 0 < n → (int_n n r).0 < n)
    → (ids : List ℕ) (s t : Graph × Rng) → IsSimple s.0
    → AreBelow s.0.n ids
    → random_tree int_n ids s ≡ some t
    → AreConnected ids t.0.edge
unfolding random_tree
random_tree-AreConnected int_n in_range [] s t simple below e = λ i j h. cc
random_tree-AreConnected int_n in_range (first ∷ rest) s t simple below e =
    let next : (k : ℕ) → suc k ≡ 1 + k = λ k. omega arith in
    AreRooted-AreConnected int_n in_range (first ∷ rest) first t.0.edge (
      tree_from_roots int_n in_range (first ∷ rest) first 1 rest s t simple below (omega arith)
        (λ k. ap (get_elem? (first ∷ rest)) (next k)) (omega arith)
        (AreRooted-first int_n in_range (first ∷ rest) first s.0.edge refl) e)
