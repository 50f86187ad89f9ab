-- ===== src/Schedule/Position/Ranks.antt =====
-- schedule/position.go: the loop invariant of `finalityRanks`.
use eth_slot_sim.Base.{
  ℕ, suc, ◌+◌, ◌<◌, ◌≡◌, sym, ◌∙◌, ap, subst, List, [], ◌∷◌, ◌++◌, Option, some, ◌&&◌, inl, inr,
  arith, ◌==◌, length, get_elem?, get_elem?-set, length-set, get_elem?-append_left,
  get_elem?-append_end, get_elem?-append_inv, get_elem?-some-lt, Option-cases, Bool-cases, ==_iff,
}
use mathlib.Core.Option.{some-injective}
use eth_slot_sim.Schedule.{Assignment}
use eth_slot_sim.Schedule.Position.{FinalityRanks, place, place_all, round_of_val}
use eth_slot_sim.Schedule.Position.Place.{cell_at, Placed, place-Placed}

-- Validator `v` votes on subnet `s` in round `k`.
pub record Votes (a : Assignment) (v s k : ℕ) : Type 0 where
  pub on : get_elem? a.finality_subnet_of v ≡ some s
  pub during : round_of_val a v ≡ some k

-- The entry of cell (s, k) at position `p` is `v`, and the rank of `v` is `p`.
pub record Ranked (r : FinalityRanks) (v s k p : ℕ) (cell : List ℕ) : Type 0 where
  pub cell_here : cell_at r s k ≡ some cell
  pub entry : get_elem? cell p ≡ some v
  pub rank_here : get_elem? r.rank v ≡ some p

-- The tables after the first `n` validators: each of them is ranked in its cell, and no cell
-- holds anything else.
pub record Filled (a : Assignment) (n : ℕ) (r : FinalityRanks) : Type 0 where
  pub sized : length r.rank ≡ length a.finality_subnet_of
  pub found :
      (v s k : ℕ) → v < n → Votes a v s k → (p : ℕ) × (cell : List ℕ) × Ranked r v s k p cell
  pub back :
      (s k p v : ℕ) (cell : List ℕ)
      → cell_at r s k ≡ some cell
      → get_elem? cell p ≡ some v
      → (v < n) × Votes a v s k × Ranked r v s k p cell

module _ (a : Assignment) (n s k : ℕ) (r r' : FinalityRanks) (cell : List ℕ) (f : Filled a n r)
    (now : Votes a n s k) (m : Placed n s k r r' cell) where
  rank_old : (v : ℕ) → v < n → get_elem? r'.rank v ≡ get_elem? r.rank v
  rank_old v h = rw m.ranked (
      ground (
        arith,
        get_elem?-set r.rank n v (length cell)
            (omega (arith, f.sized, get_elem?-some-lt a.finality_subnet_of n now.on)),
      ))

  rank_new : get_elem? r'.rank n ≡ some (length cell)
  rank_new = rw m.ranked (
      ground (
        arith,
        get_elem?-set r.rank n n (length cell)
            (omega (arith, f.sized, get_elem?-some-lt a.finality_subnet_of n now.on)),
      ))

  here : cell_at r' s k ≡ some (cell ++ n ∷ [])
  here = ground (arith, m.after s k)

  -- An entry that was there stays where it was.
  stays :
      (v s' k' p : ℕ) (c : List ℕ)
      → v < n
      → Ranked r v s' k' p c
      → (c' : List ℕ) × Ranked r' v s' k' p c'
  stays v s' k' p c h e = elim (Bool-cases (s == s' && k == k')) [
    | inl same ↦ (
      cell ++ n ∷ [],
      record {
        cell_here = ground (arith, m.after s' k');
        entry =
            get_elem?-append_left cell (n ∷ []) p (ground (arith, m.before, e.cell_here, e.entry));
        rank_here = ground (arith, rank_old v h, e.rank_here);
      },
    )
    | inr other ↦ (
      c,
      record {
        cell_here = ground (arith, m.after s' k', e.cell_here);
        entry = e.entry;
        rank_here = ground (arith, rank_old v h, e.rank_here);
      },
    )
  ]

  Filled-found :
      (v s' k' : ℕ) → v < suc n → Votes a v s' k' → (p : ℕ) × (c : List ℕ) × Ranked r' v s' k' p c
  Filled-found v s' k' h w = elim (Bool-cases (v == n)) [
    | inl same ↦
        let e : v ≡ n = (==_iff v n).0 same in
        let es : s' ≡ s =
          some-injective _ _ (sym w.on ∙ ap (get_elem? a.finality_subnet_of) e ∙ now.on) in
        let ek : k' ≡ k = some-injective _ _ (sym w.during ∙ ap (round_of_val a) e ∙ now.during) in
        (
          length cell,
          cell ++ n ∷ [],
          record {
            cell_here = rw (es, ek) here;
            entry = rw e (get_elem?-append_end cell n);
            rank_here = rw e rank_new;
          },
        )
    | inr other ↦
        let old : v < n = ground arith in
        let (p, c, e) = f.found v s' k' old w in
        let (c', e') = stays v s' k' p c old e in (p, c', e')
  ]

  Filled-back :
      (s' k' p v : ℕ) (c : List ℕ)
      → cell_at r' s' k' ≡ some c
      → get_elem? c p ≡ some v
      → (v < suc n) × Votes a v s' k' × Ranked r' v s' k' p c
  Filled-back s' k' p v c e g = elim (Bool-cases (s == s' && k == k')) [
    | inl same ↦
        let ec : cell ++ n ∷ [] ≡ c = ground (arith, m.after s' k') in
        let es : s' ≡ s = ground arith in
        let ek : k' ≡ k = ground arith in
        elim (get_elem?-append_inv cell n p (rw ec g)) [
          | inl before ↦
              let (h, w, o) = f.back s k p v cell m.before before in
              (
                omega arith,
                rw (es, ek) w,
                record { cell_here = e; entry = g; rank_here = rank_old v h ∙ o.rank_here },
              )
          | inr (ep, ev) ↦ (
            omega arith,
            rw (es, ek, ev) now,
            record { cell_here = e; entry = g; rank_here = rw (ep, ev) rank_new },
          )
        ]
    | inr other ↦
        let (h, w, o) = f.back s' k' p v c (ground (arith, m.after s' k')) g in
        (
          omega arith,
          w,
          record { cell_here = e; entry = g; rank_here = rank_old v h ∙ o.rank_here },
        )
  ]

  place-Filled : Filled a (suc n) r'
  place-Filled = record {
    sized = rw m.ranked (length-set r.rank n (length cell) ∙ f.sized);
    found = Filled-found;
    back = Filled-back;
  }

-- The loop from validator `n`, when it does not panic.
pub place_all-Filled :
    (a : Assignment) (n : ℕ) (ss : List ℕ) (r r' : FinalityRanks)
    → ((i : ℕ) → get_elem? ss i ≡ get_elem? a.finality_subnet_of (i + n))
    → Filled a n r
    → place_all a n ss r ≡ some r'
    → Filled a (length ss + n) r'
unfolding place_all
place_all-Filled a n [] r r' at f e =
    subst (λ m. Filled a m r') (omega arith) (subst (Filled a n) (some-injective _ _ e) f)
place_all-Filled a n (s ∷ ss) r r' at f e = elim (Option-cases (round_of_val a n)) [
  | inl stuck ↦ ground arith
  | inr (k, during) ↦ elim (Option-cases (place n s k r)) [
    | inl stuck ↦ ground arith
    | inr (r1, placed) ↦
        let (cell, m) = place-Placed n s k r r1 placed in
        let now : Votes a n s k = record {
          on = sym (at 0 ∙ ap get (omega arith));
          during = during;
        } in
        let rest : place_all a (suc n) ss r1 ≡ some r' = ground arith in
        subst (λ m. Filled a m r') (omega arith)
          (place_all-Filled a (suc n) ss r1 r' (λ i. at (suc i) ∙ ap get (omega arith))
            (place-Filled a n s k r r1 cell f now m) rest)
  ]
]
  where
    get : ℕ → Option ℕ
    get = get_elem? a.finality_subnet_of
