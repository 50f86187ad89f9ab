-- ===== src/Schedule/Position/Total.antt =====
-- schedule/position.go: on a well-formed plan the tables are built without a panic.
use mathlib.Core.Option.{some-injective}
use eth_slot_sim.Base.{
  ℕ, zero, suc, ◌+◌, ◌≤◌, ◌<◌, max, ◌≡◌, refl, sym, ◌∙◌, ap, subst, List, [], ◌∷◌, ◌++◌, Option,
  some, ◌&&◌, inl, inr, arith, ◌==◌, if◌then◌else◌, length, get_elem?, set, replicate,
  get_elem?-replicate, get_elem?-replicate_inv, length-replicate, Option-cases,
}
use eth_slot_sim.Schedule.{Assignment}
use eth_slot_sim.Schedule.Position.{
  FinalityRanks, rounds_of, subnets_from, empty_ranks, place, place_all, finality_ranks,
  round_of_val,
}
use eth_slot_sim.Schedule.Position.Place.{cell_at, Placed, place-Placed}
use eth_slot_sim.Schedule.Position.Ranks.{Filled, place_all-Filled}

-- Every validator has a round that the tables have a row for.
abbrev pub IsRanked : Assignment → Type 0
IsRanked a =
    (v s : ℕ)
    → get_elem? a.finality_subnet_of v ≡ some s
    → (k : ℕ) × (round_of_val a v ≡ some k) × (k < rounds_of a)

-- The tables have a cell for each subnet and round.
abbrev Shaped : Assignment → FinalityRanks → Type 0
Shaped a r =
    (s k : ℕ)
    → s < subnets_from 0 a.finality_subnet_of
    → k < rounds_of a
    → (cell : List ℕ) × (cell_at r s k ≡ some cell)

pub empty_ranks-cell :
    (a : Assignment) (s k : ℕ)
    → s < subnets_from 0 a.finality_subnet_of
    → k < rounds_of a
    → cell_at (empty_ranks a) s k ≡ some []
empty_ranks-cell a s k hs hk =
    rw
      (get_elem?-replicate (subnets_from 0 a.finality_subnet_of) s
        (replicate {A = List ℕ} (rounds_of a) []) hs)
      (get_elem?-replicate (rounds_of a) k [] hk)

empty_ranks-Shaped : (a : Assignment) → Shaped a (empty_ranks a)
empty_ranks-Shaped a s k hs hk = ([], empty_ranks-cell a s k hs hk)

empty_ranks-Filled : (a : Assignment) → Filled a 0 (empty_ranks a)
empty_ranks-Filled a = record {
  sized = length-replicate (length a.finality_subnet_of) 0;
  found = λ v s k h. absurd (omega arith);
  back = λ s k p v cell e g. absurd (empty s k p v cell e g);
}
  where
    empty :
        (s k p v : ℕ) (cell : List ℕ)
        → cell_at (empty_ranks a) s k ≡ some cell
        → get_elem? cell p ≡ some v
        → ⊥
    empty s k p v cell e g = elim (Option-cases (get_elem? (empty_ranks a).cells s)) [
      | inl e' ↦ ground arith
      | inr (rows, e') ↦
          let er : rows ≡ replicate (rounds_of a) [] = get_elem?-replicate_inv _ s _ e' in
          let ec : get_elem? rows k ≡ some cell = ground arith in
          let e0 : cell ≡ [] =
            get_elem?-replicate_inv _ k _ (ap (λ l. get_elem? l k) (sym er) ∙ ec) in
          ground (arith, e0)
    ]

-- A subnet of the list is below the number of subnets.
subnets_from-le : (m : ℕ) (ss : List ℕ) → m ≤ subnets_from m ss
subnets_from-le m [] = omega arith
subnets_from-le m (s ∷ ss) = omega (arith, subnets_from-le (max m (s + 1)) ss)

lt-subnets_from : (m : ℕ) (ss : List ℕ) (i s : ℕ) → get_elem? ss i ≡ some s → s < subnets_from m ss
lt-subnets_from m [] i s e = cc
lt-subnets_from m (x ∷ ss) zero s e =
    omega (arith, subnets_from-le (max m (x + 1)) ss, some-injective x s e)
lt-subnets_from m (x ∷ ss) (suc i) s e = lt-subnets_from (max m (x + 1)) ss i s e

place_total :
    (val s k : ℕ) (r : FinalityRanks) (cell : List ℕ)
    → cell_at r s k ≡ some cell
    → (r' : FinalityRanks) × (place val s k r ≡ some r')
unfolding place
place_total val s k r cell e = elim (Option-cases (get_elem? r.cells s)) [
  | inl stuck ↦ ground arith
  | inr (rows, e') ↦ (
    record {
      cells = set r.cells s (set rows k (cell ++ val ∷ []));
      rank = set r.rank val (length cell);
    },
    ground arith,
  )
]

place-Shaped :
    (a : Assignment) (val s k : ℕ) (r r' : FinalityRanks) (cell : List ℕ)
    → Placed val s k r r' cell
    → Shaped a r
    → Shaped a r'
place-Shaped a val s k r r' cell m sh s' k' hs hk =
    let (c, e) = sh s' k' hs hk in
    (if s == s' && k == k' then cell ++ val ∷ [] else c, ground (arith, m.after s' k'))

place_all_total :
    (a : Assignment) (n : ℕ) (ss : List ℕ) (r : FinalityRanks)
    → IsRanked a
    → ((i : ℕ) → get_elem? ss i ≡ get_elem? a.finality_subnet_of (i + n))
    → Shaped a r
    → (r' : FinalityRanks) × (place_all a n ss r ≡ some r')
unfolding place_all
place_all_total a n [] r w at sh = (r, refl)
place_all_total a n (s ∷ ss) r w at sh =
    let on : get n ≡ some s = sym (at 0 ∙ ap get (omega arith)) in
    let (k, during, hk) = w n s on in
    let (cell, e) = sh s k (lt-subnets_from 0 a.finality_subnet_of n s on) hk in
    let (r1, placed) = place_total n s k r cell e in
    let (c, m) = place-Placed n s k r r1 placed in
    let (r', all) =
      place_all_total a (suc n) ss r1 w (λ i. at (suc i) ∙ ap get (omega arith))
        (place-Shaped a n s k r r1 c m sh) in
    (r', rw (during, placed) all)
  where
    get : ℕ → Option ℕ
    get = get_elem? a.finality_subnet_of

same_index :
    (a : Assignment) (i : ℕ)
    → get_elem? a.finality_subnet_of i ≡ get_elem? a.finality_subnet_of (i + 0)
same_index a i = ap (get_elem? a.finality_subnet_of) {x = i} {y = i + 0} (omega arith)

-- Tables that were built rank every validator.
pub finality_ranks-Filled :
    (a : Assignment) (r : FinalityRanks)
    → finality_ranks a ≡ some r
    → Filled a (length a.finality_subnet_of) r
unfolding finality_ranks
finality_ranks-Filled a r e =
    subst (λ n. Filled a n r) (omega arith)
      (place_all-Filled a 0 a.finality_subnet_of (empty_ranks a) r (same_index a)
        (empty_ranks-Filled a) e)

-- The tables of a well-formed plan exist, and rank every validator.
pub finality_ranks_total :
    (a : Assignment)
    → IsRanked a
    → (r : FinalityRanks) × (finality_ranks a ≡ some r) × Filled a (length a.finality_subnet_of) r
unfolding finality_ranks
finality_ranks_total a w =
    let (r, e) =
      place_all_total a 0 a.finality_subnet_of (empty_ranks a) w (same_index a)
        (empty_ranks-Shaped a) in
    (r, e, finality_ranks-Filled a r e)
