-- ===== src/Metrics/Summary/Percentiles.antt =====
-- metrics/tracer.go: the summary of the delays of a slot.
use eth_slot_sim.Base.{
  ℕ, ◌-◌, ◌*◌, ◌≤◌, ◌<◌, ◌≡◌, refl, ap, ◌∙◌, true, List, [], ◌∷◌, some, arith, length, get_elem?,
  get_elem?-lt, ℤ,
}
use native.Mathlib.Nat.{mul-le-mul_right}
use eth_slot_sim.Metrics.Summary.{Summary, leb_int, sort, rank_of, percentile, summarize}
use eth_slot_sim.Metrics.Summary.Ranks.{
  how_many, how_many-sort, is_under, sort-is_sorted, length-sort, rank_counts, sorted_le,
}

-- At least p% of the delays are at most the value, and fewer than p% are under it.
abbrev pub IsPercentile : List ℤ → ℕ → ℤ → Type 0
IsPercentile ds p v =
    (p * length ds ≤ 100 * how_many (λ d. leb_int d v) ds)
    × (100 * how_many (λ d. is_under d v) ds < p * length ds)

rank_of_bounds :
    (p n : ℕ)
    → 0 < p
    → p ≤ 100
    → 0 < n
    → (rank_of p n - 1 < n)
      × (p * n ≤ 100 * rank_of p n)
      × (100 * (rank_of p n - 1) < p * n)
      × (0 < rank_of p n)
unfolding rank_of
rank_of_bounds p n hp le hn =
    let most : p * n ≤ 100 * n = mul-le-mul_right n le in
    let least : 1 * n ≤ p * n = mul-le-mul_right n hp in
    (omega (arith, most), omega (arith, least), omega (arith, least), omega arith)

percentile_get :
    (s : List ℤ) (p : ℕ) → 0 < length s → percentile s p ≡ get_elem? s (rank_of p (length s) - 1)
unfolding percentile
percentile_get [] p h = elim h [ ]
percentile_get (d ∷ ds) p h = refl

-- The rank of a percentage, in the sorted delays.
percentile_lem :
    (ds : List ℤ) (p : ℕ)
    → 0 < length ds
    → 0 < p
    → p ≤ 100
    → (v : ℤ) × (percentile (sort ds) p ≡ some v)
      × (get_elem? (sort ds) (rank_of p (length ds) - 1) ≡ some v)
      × IsPercentile ds p v
percentile_lem ds p h hp le =
    let n = length ds in
    let (lt, least, most, positive) = rank_of_bounds p n hp le h in
    let (v, there) = get_elem?-lt (sort ds) (rank_of p n - 1) (omega (arith, lt, length-sort ds)) in
    let (counts, under) = rank_counts (sort ds) (rank_of p n - 1) v (sort-is_sorted ds) there in
    (
      v,
      percentile_get (sort ds) p (omega (arith, h, length-sort ds))
          ∙ (ap (λ m. get_elem? (sort ds) (rank_of p m - 1)) (length-sort ds) ∙ there),
      there,
      (
        omega (arith, least, positive, counts, how_many-sort (λ d. leb_int d v) ds),
        omega (arith, most, under, how_many-sort (λ d. is_under d v) ds),
      ),
    )

rank_of-le : (p q n : ℕ) → p ≤ q → rank_of p n - 1 ≤ rank_of q n - 1
unfolding rank_of
rank_of-le p q n h = omega (arith, mul-le-mul_right n h)

-- Of delays that are not none, the summary is returned, with their number and their 50th, 90th, 99th
-- and 100th percentiles, which are in order: at least that share of the delays is at most a
-- percentile, and a smaller share is under it.
pub summarize_lem :
    (ds : List ℤ)
    → 0 < length ds
    → (s : Summary) × (summarize ds ≡ some s)
      × (s.count ≡ length ds)
      × IsPercentile ds 50 s.p50
      × IsPercentile ds 90 s.p90
      × IsPercentile ds 99 s.p99
      × IsPercentile ds 100 s.p100
      × (leb_int s.p50 s.p90 ≡ true)
      × (leb_int s.p90 s.p99 ≡ true)
      × (leb_int s.p99 s.p100 ≡ true)
unfolding summarize
summarize_lem ds h =
    let n = length ds in
    let (a, ea, ga, ia) = percentile_lem ds 50 h (omega arith) (omega arith) in
    let (b, eb, gb, ib) = percentile_lem ds 90 h (omega arith) (omega arith) in
    let (c, ec, gc, ic) = percentile_lem ds 99 h (omega arith) (omega arith) in
    let (d, ed, gd, id) = percentile_lem ds 100 h (omega arith) (omega arith) in
    let sorted = sort-is_sorted ds in
    rw (ea, eb, ec, ed)
      (
        record { count = length (sort ds); p50 = a; p90 = b; p99 = c; p100 = d },
        refl,
        length-sort ds,
        ia,
        ib,
        ic,
        id,
        sorted_le (sort ds) _ _ a b sorted (rank_of-le 50 90 n (omega arith)) ga gb,
        sorted_le (sort ds) _ _ b c sorted (rank_of-le 90 99 n (omega arith)) gb gc,
        sorted_le (sort ds) _ _ c d sorted (rank_of-le 99 100 n (omega arith)) gc gd,
      )
