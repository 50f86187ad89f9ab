-- ===== src/Netsim/Graph/Simple.antt =====
-- netsim/graph.go: the adjacency lists stay symmetric, without a self-loop or a duplicate.
use eth_slot_sim.Base.{
  ℕ, zero, suc, ◌+◌, ◌<◌, ◌≡◌, refl, ap, ap₂, true, false, ◌&&◌, List, [], ◌∷◌, arith, ltb, ◌==◌,
  length, length-replicate, replicate, bit, occurrences, occurrences-append, Bool-cases, inl, inr,
}
use eth_slot_sim.Netsim.Graph.{Graph, new_graph, append_at, is_dropped, link, add, row}

pub length-append_at : (rows : List (List ℕ)) (i j : ℕ) → length (append_at rows i j) ≡ length rows
unfolding append_at
length-append_at [] i j = refl
length-append_at (r ∷ rows) zero j = refl
length-append_at (r ∷ rows) (suc i) j = ap suc (length-append_at rows i j)

pub occurrences-append_at :
    (rows : List (List ℕ)) (i j k p : ℕ)
    → occurrences p (row (append_at rows i j) k)
      ≡ occurrences p (row rows k) + bit (ltb i (length rows) && (i == k && j == p))
unfolding append_at row
occurrences-append_at [] i j k p = ground arith
occurrences-append_at (r ∷ rows) zero j zero p = ground (arith, occurrences-append p r (j ∷ []))
occurrences-append_at (r ∷ rows) zero j (suc k) p = ground arith
occurrences-append_at (r ∷ rows) (suc i) j zero p = ground arith
occurrences-append_at (r ∷ rows) (suc i) j (suc k) p =
    ground (arith, occurrences-append_at rows i j k p)

pub row-replicate : (n i : ℕ) → row (replicate n []) i ≡ []
unfolding row
row-replicate zero i = refl
row-replicate (suc n) zero = refl
row-replicate (suc n) (suc i) = row-replicate n i

pub record IsSimple (g : Graph) : Type 0 where
  pub size : length g.adj ≡ g.n
  pub counted : (i j : ℕ) → occurrences j (row g.adj i) ≡ bit (g.edge i j)
  pub symmetric : (i j : ℕ) → g.edge i j ≡ g.edge j i
  pub ranged : (i j : ℕ) → g.edge i j ≡ true → (i < g.n) × (j < g.n) × ((i == j) ≡ false)

pub new_graph-IsSimple : (n : ℕ) → IsSimple (new_graph n)
unfolding new_graph
new_graph-IsSimple n = record {
  size = length-replicate n [];
  counted = λ i j. rw (row-replicate n i) refl;
  symmetric = λ i j. refl;
  ranged = λ i j h. cc;
}

is_dropped_inv :
    (g : Graph) (i j : ℕ)
    → is_dropped g i j ≡ false
    → ((i == j) ≡ false) × (i < g.n) × (j < g.n) × (g.edge i j ≡ false)
unfolding is_dropped
is_dropped_inv g i j h = ground arith

same_edge : (g : Graph) (i j a b : ℕ) → (a == i && b == j) ≡ true → g.edge a b ≡ g.edge i j
same_edge g i j a b h =
    let e : (a ≡ i) × (b ≡ j) = (ground arith, ground arith) in ap₂ g.edge e.0 e.1

link-IsSimple :
    (i j : ℕ) (g : Graph) → IsSimple g → is_dropped g i j ≡ false → IsSimple (link g i j)
unfolding link is_dropped
link-IsSimple i j g s h =
    let r = is_dropped_inv g i j h in
    record {
      size =
          ground
            (arith, s.size, length-append_at g.adj i j, length-append_at (append_at g.adj i j) j i);
      counted = λ a b. ground (
        arith,
        r.0,
        r.1,
        r.2,
        r.3,
        s.size,
        s.symmetric i j,
        s.counted a b,
        length-append_at g.adj i j,
        same_edge g i j a b,
        same_edge g j i a b,
        occurrences-append_at g.adj i j a b,
        occurrences-append_at (append_at g.adj i j) j i a b,
      );
      symmetric = λ a b. ground (arith, s.symmetric a b);
      ranged = λ a b e. ground (arith, r.0, r.1, r.2, s.ranged a b);
    }

pub add-IsSimple : (i j : ℕ) (g : Graph) → IsSimple g → IsSimple (add i j g)
unfolding add
add-IsSimple i j g s = elim (Bool-cases (is_dropped g i j)) [
  | inl e ↦ rw e s
  | inr e ↦ rw e (link-IsSimple i j g s e)
]
