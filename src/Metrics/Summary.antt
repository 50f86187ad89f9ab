-- ===== src/Metrics/Summary.antt =====
-- metrics/tracer.go: `Summarize` and `percentile`. `slices.Sort` is an insertion sort. At the four
-- percentages the code uses, the rounding of floats does not move a rank: the nearest double to
-- p/100 is within 2^-55 of its relative value, so a product that is an integer stays one.
pub mod Ranks
pub mod Percentiles
use eth_slot_sim.Base.{
  ℕ, zero, suc, ◌+◌, ◌-◌, ◌*◌, ◌/◌, max, Bool, true, false, List, [], ◌∷◌, Option, none, some, leb,
  if◌then◌else◌, length, get_elem?, ℤ, pos, negsuc, ◌>>=◌,
}

pub record Summary : Type 0 where
  pub count : ℕ
  pub p50 : ℤ
  pub p90 : ℤ
  pub p99 : ℤ
  pub p100 : ℤ

abbrev pub leb_int : ℤ → ℤ → Bool
leb_int (pos a) (pos b) = leb a b
leb_int (pos a) (negsuc b) = false
leb_int (negsuc a) (pos b) = true
leb_int (negsuc a) (negsuc b) = leb b a

unfoldable pub insert_sorted : ℤ → List ℤ → List ℤ
insert_sorted d [] = d ∷ []
insert_sorted d (x ∷ xs) =
    let more = insert_sorted d xs in if leb_int d x then d ∷ x ∷ xs else x ∷ more

unfoldable pub sort : List ℤ → List ℤ
sort [] = []
sort (d ∷ ds) = insert_sorted d (sort ds)

-- `max(ceil(p/100 * n), 1)`
unfoldable pub rank_of : ℕ → ℕ → ℕ
rank_of p n = max ((p * n + 99) / 100) 1

unfoldable pub percentile : List ℤ → ℕ → Option ℤ
percentile [] p = some (pos 0)
percentile (d ∷ ds) p = get_elem? (d ∷ ds) (rank_of p (length (d ∷ ds)) - 1)

unfoldable pub summarize : List ℤ → Option Summary
summarize delays =
    let sorted = sort delays in
    percentile sorted 50 >>= λ p50. percentile sorted 90 >>= λ p90. percentile sorted 99 >>= λ p99.
    percentile sorted 100 >>= λ p100.
    some (record { count = length sorted; p50 = p50; p90 = p90; p99 = p99; p100 = p100 })
