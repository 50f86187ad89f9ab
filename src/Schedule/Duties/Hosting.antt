-- ===== src/Schedule/Duties/Hosting.antt =====
-- schedule: `HostOf` is the inverse of the hosting rule that the duties enumerate.
use eth_slot_sim.Base.{
  ℕ, zero, suc, ◌+◌, ◌*◌, ◌/◌, ◌%◌, ◌≤◌, ◌<◌, ◌≡◌, refl, ◌↔◌, inl, inr, true, false, List, [], ◌∷◌,
  some, arith, pos, ltb, ◌==◌, if◌then◌else◌, length, get_elem?, take, sum, range_from, contains,
  Bool-cases, ==_iff, get_elem?-lt,
}
use eth_slot_sim.Schedule.{Assignment}
use eth_slot_sim.Schedule.Position.{host_in, host_of}
use eth_slot_sim.Schedule.Duties.{strided, hosted}

contains-range_from :
    (val start n : ℕ)
    → (contains (range_from start n) val ≡ true) ↔ ((start ≤ val) × (val < start + n))
contains-range_from val start zero = ground arith
contains-range_from val start (suc n) = ground (arith, contains-range_from val (suc start) n)

-- With enough fuel the stride returns, and it visits the numbers `val + q * n` below `v`.
abbrev Strides : ℕ → ℕ → ℕ → List ℕ → Type 0
Strides val v n vals =
    ((x : ℕ) → contains vals x ≡ true → (q : ℕ) × (x ≡ val + q * n) × (x < v))
    × ((x q : ℕ) → x ≡ val + q * n → x < v → contains vals x ≡ true)

revisit :
    (val v n : ℕ) (vals : List ℕ)
    → ((x q : ℕ) → x ≡ val + n + q * n → x < v → contains vals x ≡ true)
    → (x q : ℕ) → x ≡ val + q * n
    → x < v
    → contains (val ∷ vals) x ≡ true
revisit val v n vals back x zero e l = ground (arith, ==_iff val x)
revisit val v n vals back x (suc q) e l = ground (arith, back x q (grind arith) l)

Strides-cons :
    (val v n : ℕ) (vals : List ℕ)
    → val < v
    → Strides (val + n) v n vals
    → Strides val v n (val ∷ vals)
Strides-cons val v n vals lt (out, back) = (
  λ x e. elim (Bool-cases (val == x)) [
    | inl now ↦ (0, ground arith, ground arith)
    | inr later ↦ let (q, eq, l) = out x (ground arith) in (suc q, grind arith, l)
  ],
  revisit val v n vals back,
)

Strides-done : (val v n : ℕ) → v ≤ val → Strides val v n []
Strides-done val v n h = (λ x e. absurd (cc), λ x q e l. absurd (omega arith))

strided_lem :
    (fuel val v n : ℕ)
    → 0 < n
    → v ≤ val + fuel
    → (vals : List ℕ) × (strided (suc fuel) val v n ≡ some vals) × Strides val v n vals
unfolding strided
strided_lem zero val v n h f = ([], ground arith, Strides-done val v n (omega arith))
strided_lem (suc fuel) val v n h f = elim (Bool-cases (ltb val v)) [
  | inl more ↦
      let (vals, e, s) = strided_lem fuel (val + n) v n h (omega arith) in
      (val ∷ vals, rw (more, e) refl, Strides-cons val v n vals (ground arith) s)
  | inr done ↦ ([], rw done refl, Strides-done val v n (ground arith))
]

-- The number of nodes of the plan, and of its validators.
abbrev pub nodes_of : Assignment → ℕ
nodes_of a = if ltb 0 (length a.validator_counts) then length a.validator_counts else a.params.n

abbrev pub validators_of : Assignment → ℕ
validators_of a = if ltb 0 (length a.validator_counts) then sum a.validator_counts else a.params.v

host_in-ge : (c : List ℕ) (node start val j : ℕ) → host_in c node start val ≡ pos j → node ≤ j
unfolding host_in
host_in-ge [] node start val j e = absurd (cc)
host_in-ge (m ∷ c) node start val j e = ground (arith, host_in-ge c (suc node) (start + m) val j)

-- The counts from `node` on, with `start` validators before them.
host_in_lem :
    (c : List ℕ) (node start val i n : ℕ)
    → get_elem? c i ≡ some n
    → start ≤ val
    → ((start + sum (take i c) ≤ val) × (val < start + sum (take i c) + n))
      ↔ (host_in c node start val ≡ pos (node + i))
unfolding host_in
host_in_lem [] node start val i n e h = absurd (cc)
host_in_lem (m ∷ c) node start val zero n e h =
    ground (arith, host_in-ge c (suc node) (start + m) val (node + 0))
host_in_lem (m ∷ c) node start val (suc i) n e h = elim (Bool-cases (ltb val (start + m))) [
  | inl mine ↦ ground arith
  | inr later ↦ ground (arith, host_in_lem c (suc node) (start + m) val i n e (ground arith))
]

sum-take-le : (c : List ℕ) (i n : ℕ) → get_elem? c i ≡ some n → sum (take i c) + n ≤ sum c
sum-take-le [] i n e = absurd (cc)
sum-take-le (m ∷ c) zero n e = ground arith
sum-take-le (m ∷ c) (suc i) n e = omega (arith, sum-take-le c i n e)

mod_of_stride : (n node q x : ℕ) → node < n → x ≡ node + q * n → x % n ≡ node
mod_of_stride n node q x h e = grind arith

stride_of_mod : (n node x : ℕ) → x % n ≡ node → x ≡ node + x / n * n
stride_of_mod n node x e = omega arith

-- The enumeration of a node's validators returns, and it is the inverse image of `HostOf`.
abbrev pub HostsExactly : Assignment → ℕ → Type 0
HostsExactly a node =
    (vals : List ℕ) × (hosted a node ≡ some vals)
    × ((val : ℕ)
        → (contains vals val ≡ true) ↔ ((val < validators_of a) × (host_of a (pos val) ≡ pos node)))

hosted-uniform :
    (a : Assignment) (node : ℕ)
    → ltb 0 (length a.validator_counts) ≡ false
    → node < a.params.n
    → HostsExactly a node
unfolding hosted host_of
hosted-uniform a node u h =
    let (vals, e, (out, back)) =
      strided_lem a.params.v node a.params.v a.params.n (omega arith) (omega arith) in
    (
      vals,
      ground (arith, e),
      λ val. (
        λ m.
            let (q, eq, l) = out val m in
            (ground arith, ground (arith, mod_of_stride a.params.n node q val h eq)),
        λ m.
            back val (val / a.params.n) (stride_of_mod a.params.n node val (ground arith))
              (ground arith),
      ),
    )

hosted-counts :
    (a : Assignment) (node : ℕ)
    → ltb 0 (length a.validator_counts) ≡ true
    → node < length a.validator_counts
    → HostsExactly a node
unfolding hosted host_of
hosted-counts a node u h =
    let c = a.validator_counts in
    let (n, e) = get_elem?-lt c node h in
    let start = sum (take node c) in
    (
      range_from start n,
      ground (arith, e),
      λ val. ground (
        arith,
        contains-range_from val start n,
        host_in_lem c 0 0 val node n e,
        sum-take-le c node n e,
      ),
    )

-- For a node of the plan, the enumeration of its validators returns, and it names exactly the
-- validators of the plan that `HostOf` maps to that node: by the contiguous ranges of the counts
-- where the plan has counts, and by `val % N` otherwise.
pub hosted-host_of :
    (a : Assignment) (node : ℕ)
    → node < nodes_of a
    → (vals : List ℕ) × (hosted a node ≡ some vals)
      × ((val : ℕ)
          → (contains vals val ≡ true)
            ↔ ((val < validators_of a) × (host_of a (pos val) ≡ pos node)))
hosted-host_of a node h = elim (Bool-cases (ltb 0 (length a.validator_counts))) [
  | inl counts ↦ hosted-counts a node counts (ground arith)
  | inr uniform ↦ hosted-uniform a node uniform (ground arith)
]
