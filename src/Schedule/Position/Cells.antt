-- ===== src/Schedule/Position/Cells.antt =====
-- schedule/position.go: each cell holds its validators in ascending order, and no others.
use mathlib.Core.Option.{some-injective}
use eth_slot_sim.Base.{
  ℕ, suc, ◌<◌, ◌≡◌, ◌∙◌, List, [], ◌∷◌, ◌++◌, Option, none, some, ◌&&◌, inl, inr, arith, pos, ◌==◌,
  if◌then◌else◌, Bool, false, length, get_elem?, append-nil, append_assoc, Option-cases, Bool-cases,
}
use eth_slot_sim.Schedule.{Assignment}
use eth_slot_sim.Schedule.Position.{
  FinalityRanks, rounds_of, subnets_from, empty_ranks, place, place_all, finality_ranks, round,
  round_of_val, finality_cell_size, cell_of,
}
use eth_slot_sim.Schedule.Position.Place.{cell_at, place-Placed}
use eth_slot_sim.Schedule.Position.Total.{IsRanked, finality_ranks_total, empty_ranks-cell}

abbrev pub is_some_of : Option ℕ → ℕ → Bool
is_some_of none k = false
is_some_of (some x) k = x == k

-- The validators of subnet `s` and round `k` among those from `val` on, whose subnets are listed.
pub members : Assignment → ℕ → ℕ → ℕ → List ℕ → List ℕ
members a s k val [] = []
members a s k val (x ∷ xs) =
    let rest = members a s k (suc val) xs in
    if x == s && is_some_of (round_of_val a val) k then val ∷ rest else rest

place_all-members :
    (a : Assignment) (n : ℕ) (ss : List ℕ) (r r' : FinalityRanks) (s k : ℕ) (cell : List ℕ)
    → place_all a n ss r ≡ some r'
    → cell_at r s k ≡ some cell
    → cell_at r' s k ≡ some (cell ++ members a s k n ss)
unfolding place_all members
place_all-members a n [] r r' s k cell e h = rw (append-nil cell, ← some-injective r r' e) h
place_all-members a n (x ∷ ss) r r' s k cell e h = elim (Option-cases (round_of_val a n)) [
  | inl stuck ↦ ground arith
  | inr (j, during) ↦ elim (Option-cases (place n x j r)) [
    | inl stuck ↦ ground arith
    | inr (r1, placed) ↦
        let (c, m) = place-Placed n x j r r1 placed in
        let rest : place_all a (suc n) ss r1 ≡ some r' = ground arith in
        elim (Bool-cases (x == s && j == k)) [
          | inl same ↦
              let own : cell_at r1 s k ≡ some (cell ++ n ∷ []) =
                ground (arith, m.after s k, m.before) in
              ground (
                arith,
                place_all-members a (suc n) ss r1 r' s k (cell ++ n ∷ []) rest own,
                append_assoc cell (n ∷ []) (members a s k (suc n) ss),
              )
          | inr other ↦ ground (
            arith,
            place_all-members a (suc n) ss r1 r' s k cell rest (m.after s k ∙ (rw other h)),
          )
        ]
  ]
]

-- On a plan whose validators all have a round of the tables, the size of the cell of a subnet that
-- some validator votes on is the number of validators of that subnet in the round of the group.
pub finality_cell_size-members :
    (a : Assignment) (s k group : ℕ)
    → IsRanked a
    → s < subnets_from 0 a.finality_subnet_of
    → k < rounds_of a
    → round a group ≡ some k
    → finality_cell_size a (pos s) group ≡ some (length (members a s k 0 a.finality_subnet_of))
unfolding finality_cell_size cell_of finality_ranks
finality_cell_size-members a s k group w hs hk g =
    let (r, e, f) = finality_ranks_total a w in
    let cell =
      place_all-members a 0 a.finality_subnet_of (empty_ranks a) r s k [] e
        (empty_ranks-cell a s k hs hk) in
    elim (Option-cases (get_elem? r.cells s)) [
      | inl stuck ↦ ground (arith, cell)
      | inr (rows, er) ↦ ground (arith, e, er, g, cell)
    ]
