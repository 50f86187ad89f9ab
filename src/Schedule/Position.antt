-- ===== src/Schedule/Position.antt =====
-- schedule/position.go: the rank tables of the finality votes and the accessors on them.
-- The tables are a pure function of the plan, so the cache behind `sync.Once` is left out.
-- `none` is a panic of the code: an index out of range, or a division by zero.
pub mod Ranks
pub mod Place
pub mod Total
pub mod RoundTrip
pub mod Cells
use eth_slot_sim.Base.{
  ℕ, zero, suc, ◌+◌, ◌%◌, max, List, [], ◌∷◌, ◌++◌, Option, none, some, ◌>>=◌, ℤ, pos, negsuc,
  minus_one, ltb, ◌==◌, if◌then◌else◌, length, get_elem?, set, replicate,
}
use eth_slot_sim.Schedule.{Assignment, segregated}

-- `cells` by subnet and round, `rank` by validator.
pub record FinalityRanks : Type 0 where
  pub cells : List (List (List ℕ))
  pub rank : List ℕ

abbrev pub rounds_of : Assignment → ℕ
rounds_of a = if segregated a then a.params.ac_slots_per_finality_slot else 1

-- The largest subnet, plus one.
abbrev pub subnets_from : ℕ → List ℕ → ℕ
subnets_from m [] = m
subnets_from m (s ∷ ss) = subnets_from (max m (s + 1)) ss

-- One turn of the loop over the validators.
unfoldable pub place : ℕ → ℕ → ℕ → FinalityRanks → Option FinalityRanks
place val s round r = do
  rows ← get_elem? r.cells s
  cell ← get_elem? rows round
  some (record {
    cells = set r.cells s (set rows round (cell ++ val ∷ []));
    rank = set r.rank val (length cell);
  })

-- The round of a validator.
unfoldable pub round_of_val : Assignment → ℕ → Option ℕ
round_of_val a val = if segregated a then get_elem? a.finality_round_of val else some 0

unfoldable pub place_all : Assignment → ℕ → List ℕ → FinalityRanks → Option FinalityRanks
place_all a val [] r = some r
place_all a val (s ∷ ss) r = do
  round ← round_of_val a val
  r' ← place val s round r
  place_all a (suc val) ss r'

-- The tables before the loop.
abbrev pub empty_ranks : Assignment → FinalityRanks
empty_ranks a = record {
  cells = replicate (subnets_from 0 a.finality_subnet_of) (replicate (rounds_of a) []);
  rank = replicate (length a.finality_subnet_of) 0;
}

unfoldable pub finality_ranks : Assignment → Option FinalityRanks
unfolding place_all place round_of_val
finality_ranks a = place_all a 0 a.finality_subnet_of (empty_ranks a)

-- `group % k` under segregation; Go panics on a zero divisor.
unfoldable pub round : Assignment → ℕ → Option ℕ
round a group =
    if segregated a
    then (if a.params.ac_slots_per_finality_slot == 0
        then none
        else some (group % a.params.ac_slots_per_finality_slot))
    else some 0

unfoldable pub finality_position : Assignment → ℤ → Option ℤ
finality_position a (negsuc n) = do _ ← finality_ranks a; some minus_one
finality_position a (pos val) = do
  r ← finality_ranks a
  elim (get_elem? r.rank val) [ none ↦ some minus_one | some p ↦ some (pos p) ]

-- The cell of a subnet that is in range, in the round that the group key selects.
unfoldable pub cell_of : Assignment → FinalityRanks → List (List ℕ) → ℕ → Option (List ℕ)
unfolding round
cell_of a r rows group = do k ← round a group; get_elem? rows k

unfoldable pub val_in_cell : List ℕ → ℤ → ℤ
val_in_cell cell (negsuc n) = minus_one
val_in_cell cell (pos p) = elim (get_elem? cell p) [ none ↦ minus_one | some val ↦ pos val ]

unfoldable pub finality_val_at : Assignment → ℤ → ℕ → ℤ → Option ℤ
unfolding finality_ranks cell_of val_in_cell
finality_val_at a (negsuc s) group position = do _ ← finality_ranks a; some minus_one
finality_val_at a (pos s) group position = do
  r ← finality_ranks a
  elim (get_elem? r.cells s) [
    | none ↦ some minus_one
    | some rows ↦ do cell ← cell_of a r rows group; some (val_in_cell cell position)
  ]

unfoldable pub finality_cell_size : Assignment → ℤ → ℕ → Option ℕ
unfolding finality_ranks cell_of
finality_cell_size a (negsuc s) group = do _ ← finality_ranks a; some 0
finality_cell_size a (pos s) group = do
  r ← finality_ranks a
  elim (get_elem? r.cells s) [
    | none ↦ some 0
    | some rows ↦ do cell ← cell_of a r rows group; some (length cell)
  ]

-- The loop of `HostOf` over `ValidatorCounts`.
unfoldable pub host_in : List ℕ → ℕ → ℕ → ℕ → ℤ
host_in [] node start val = minus_one
host_in (n ∷ c) node start val =
    let rest = host_in c (suc node) (start + n) val in
    if ltb val (start + n) then pos node else rest

unfoldable pub host_of : Assignment → ℤ → ℤ
unfolding host_in
host_of a (negsuc n) = minus_one
host_of a (pos val) =
    if ltb 0 (length a.validator_counts)
    then host_in a.validator_counts 0 0 val
    else (if a.params.n == 0 then minus_one else pos (val % a.params.n))
