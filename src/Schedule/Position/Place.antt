-- ===== src/Schedule/Position/Place.antt =====
-- schedule/position.go: what one turn of the loop over the validators does to the tables.
use eth_slot_sim.Base.{
  ℕ, ◌<◌, ◌≡◌, List, [], ◌∷◌, ◌++◌, Option, some, ◌>>=◌, ◌&&◌, arith, ◌==◌, if◌then◌else◌, inl, inr,
  length, get_elem?, set, get_elem?-set, get_elem?-some-lt, Option-cases,
}
use eth_slot_sim.Schedule.Position.{FinalityRanks, place}

abbrev pub cell_in : List (List (List ℕ)) → ℕ → ℕ → Option (List ℕ)
cell_in cells s k = get_elem? cells s >>= λ rows. get_elem? rows k

abbrev pub cell_at : FinalityRanks → ℕ → ℕ → Option (List ℕ)
cell_at r s k = cell_in r.cells s k

-- A write into one cell of the table, seen at any cell.
cell_in-set :
    (cells : List (List (List ℕ))) (s k s' k' : ℕ) (rows : List (List ℕ)) (cell : List ℕ)
    → get_elem? cells s ≡ some rows
    → k < length rows
    → cell_in (set cells s (set rows k cell)) s' k'
      ≡ (if s == s' && k == k' then some cell else cell_in cells s' k')
cell_in-set cells s k s' k' rows cell h b = ground (
  arith,
  get_elem?-set cells s s' (set rows k cell) (get_elem?-some-lt cells s h),
  get_elem?-set rows k k' cell b,
)

-- What `place` has done when it does not panic.
pub record Placed (val s k : ℕ) (r r' : FinalityRanks) (cell : List ℕ) : Type 0 where
  pub before : cell_at r s k ≡ some cell
  pub after :
      (s' k' : ℕ)
      → cell_at r' s' k' ≡ (if s == s' && k == k' then some (cell ++ val ∷ []) else cell_at r s' k')
  pub ranked : r'.rank ≡ set r.rank val (length cell)

pub place-Placed :
    (val s k : ℕ) (r r' : FinalityRanks)
    → place val s k r ≡ some r'
    → (cell : List ℕ) × Placed val s k r r' cell
unfolding place
place-Placed val s k r r' h = elim (Option-cases (get_elem? r.cells s)) [
  | inl e ↦ ground arith
  | inr (rows, e) ↦ elim (Option-cases (get_elem? rows k)) [
    | inl e' ↦ ground arith
    | inr (cell, e') ↦ (
      cell,
      record {
        before = rw e e';
        after = λ s' k'. ground (
          arith,
          cell_in-set r.cells s k s' k' rows (cell ++ val ∷ []) e (get_elem?-some-lt rows k e'),
        );
        ranked = ground arith;
      },
    )
  ]
]
