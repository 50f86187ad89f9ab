-- ===== src/Schedule/Position/RoundTrip.antt =====
-- schedule/position.go: `FinalityPosition` and `FinalityValAt` are inverse to one another.
use eth_slot_sim.Base.{
  ℕ, ◌<◌, ◌≡◌, List, some, inl, inr, arith, pos, length, get_elem?, get_elem?-some-lt, Option-cases,
}
use eth_slot_sim.Schedule.{Assignment}
use eth_slot_sim.Schedule.Position.{
  FinalityRanks, finality_ranks, round, finality_position, finality_val_at, finality_cell_size,
  cell_of, val_in_cell,
}
use eth_slot_sim.Schedule.Position.Place.{cell_at}
use eth_slot_sim.Schedule.Position.Ranks.{Votes}
use eth_slot_sim.Schedule.Position.Total.{IsRanked, finality_ranks_total, finality_ranks-Filled}

-- On a plan whose validators all have a round of the tables, a validator `val` that votes on
-- subnet `s` in the round of `group` has a position below the size of the cell, and the cell's
-- entry at that position is `val`.
pub finality_val_at-finality_position :
    (a : Assignment) (val s k group : ℕ)
    → IsRanked a
    → Votes a val s k
    → round a group ≡ some k
    → (p : ℕ) × (size : ℕ) × (finality_position a (pos val) ≡ some (pos p))
      × (finality_cell_size a (pos s) group ≡ some size)
      × (p < size)
      × (finality_val_at a (pos s) group (pos p) ≡ some (pos val))
unfolding finality_position finality_val_at finality_cell_size cell_of val_in_cell
finality_val_at-finality_position a val s k group w v g =
    let (r, e, f) = finality_ranks_total a w in
    let (p, cell, m) = f.found val s k (get_elem?-some-lt a.finality_subnet_of val v.on) v in
    elim (Option-cases (get_elem? r.cells s)) [
      | inl stuck ↦ ground (arith, m.cell_here)
      | inr (rows, er) ↦ (
        p,
        length cell,
        ground (arith, e, m.rank_here),
        ground (arith, e, er, g, m.cell_here),
        get_elem?-some-lt cell p m.entry,
        ground (arith, e, er, g, m.cell_here, m.entry),
      )
    ]

-- What a successful look-up went through.
record Found (a : Assignment) (s group p val : ℕ) : Type 0 where
  tables : FinalityRanks
  k : ℕ
  cell : List ℕ
  built : finality_ranks a ≡ some tables
  during : round a group ≡ some k
  cell_here : cell_at tables s k ≡ some cell
  entry : get_elem? cell p ≡ some val

finality_val_at-Found :
    (a : Assignment) (s group p val : ℕ)
    → finality_val_at a (pos s) group (pos p) ≡ some (pos val)
    → Found a s group p val
unfolding finality_val_at cell_of val_in_cell
finality_val_at-Found a s group p val h = elim (Option-cases (finality_ranks a)) [
  | inl stuck ↦ ground arith
  | inr (r, e) ↦ elim (Option-cases (get_elem? r.cells s)) [
    | inl stuck ↦ ground arith
    | inr (rows, er) ↦ elim (Option-cases (round a group)) [
      | inl stuck ↦ ground arith
      | inr (k, g) ↦ elim (Option-cases (get_elem? rows k)) [
        | inl stuck ↦ ground arith
        | inr (cell, ec) ↦ record {
          tables = r;
          k = k;
          cell = cell;
          built = e;
          during = g;
          cell_here = ground arith;
          entry = ground arith;
        }
      ]
    ]
  ]
]

-- A validator that `FinalityValAt` names at position `p` of a subnet and group votes on that subnet
-- in the round of the group, and its position is `p`.
pub finality_position-finality_val_at :
    (a : Assignment) (s group p val : ℕ)
    → finality_val_at a (pos s) group (pos p) ≡ some (pos val)
    → (k : ℕ) × (round a group ≡ some k)
      × Votes a val s k
      × (finality_position a (pos val) ≡ some (pos p))
unfolding finality_position
finality_position-finality_val_at a s group p val h =
    let f = finality_val_at-Found a s group p val h in
    let filled = finality_ranks-Filled a f.tables f.built in
    let (lt, v, m) = filled.back s f.k p val f.cell f.cell_here f.entry in
    (f.k, f.during, v, ground (arith, f.built, m.rank_here))
