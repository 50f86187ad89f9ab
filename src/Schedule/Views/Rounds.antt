-- ===== src/Schedule/Views/Rounds.antt =====
-- schedule: the finality rounds of the views.
use eth_slot_sim.Base.{
  ℕ, zero, suc, ◌+◌, ◌<◌, ◌≡◌, refl, ◌↔◌, Bool, true, ◌&&◌, List, [], ◌∷◌, map, some, inl, inr,
  arith, pos, ◌==◌, get_elem?, keep, contains, Option-cases, Bool-cases, sym, ap, subst, ◌∙◌,
  ==_iff,
}
use mathlib.Core.Option.{some-injective}
use eth_slot_sim.Schedule.{Assignment, AttestDuty, View}
use eth_slot_sim.Schedule.Position.{host_of, round}
use eth_slot_sim.Schedule.Duties.{finality_vote_duties}
use eth_slot_sim.Schedule.Duties.Hosting.{nodes_of, validators_of, hosted-host_of}
use eth_slot_sim.Schedule.Duties.Votes.{is_in_round, finality_vote_duties_lem}
use eth_slot_sim.Schedule.Views.{rounds_in_plan, round_duties, node_view, all_aggregated}

round_duties-get :
    (a : Assignment) (node n count i : ℕ) (votes : List (List AttestDuty))
    → round_duties a node n count ≡ some votes
    → i < count
    → (ds : List AttestDuty) × (get_elem? votes i ≡ some ds)
      × (finality_vote_duties a node (n + i) ≡ some ds)
unfolding round_duties
round_duties-get a node n zero i votes e h = elim h [ ]
round_duties-get a node n (suc count) i votes e h =
    elim (Option-cases (finality_vote_duties a node n)) [
      | inl stuck ↦ ground arith
      | inr (now, eh) ↦ elim (Option-cases (round_duties a node (suc n) count)) [
        | inl stuck ↦ ground arith
        | inr (more, em) ↦
            let ev : now ∷ more ≡ votes = ground arith in
            rw (← ev) (
              at_index n i now more eh (λ j lt. round_duties-get a node (suc n) count j more em lt)
                h)
      ]
    ]
  where
    at_index :
        (n i : ℕ) (now : List AttestDuty) (more : List (List AttestDuty))
        → finality_vote_duties a node n ≡ some now
        → ((j : ℕ)
            → j < count
            → (ds : List AttestDuty) × (get_elem? more j ≡ some ds)
              × (finality_vote_duties a node (suc n + j) ≡ some ds))
        → i < suc count
        → (ds : List AttestDuty) × (get_elem? (now ∷ more) i ≡ some ds)
          × (finality_vote_duties a node (n + i) ≡ some ds)
    at_index n zero now more eh later lt =
        (now, refl, subst (λ m. finality_vote_duties a node m ≡ some now) (omega arith) eh)
    at_index n (suc j) now more eh later lt =
        let (ds, g, d) = later j (omega arith) in
        (ds, g, subst (λ m. finality_vote_duties a node m ≡ some ds) (omega arith) d)

contains-keep : (p : ℕ → Bool) (xs : List ℕ) (v : ℕ) → contains (keep p xs) v ≡ contains xs v && p v
contains-keep p [] v = refl
contains-keep p (x ∷ xs) v = elim (Bool-cases (x == v)) [
  | inl same ↦
      let e : p x ≡ p v = ap p ((==_iff x v).0 same) in ground (arith, e, contains-keep p xs v)
  | inr other ↦ ground (arith, contains-keep p xs v)
]

-- Whether a duty is that of a validator.
abbrev pub votes_for : List AttestDuty → ℕ → Bool
votes_for ds = contains (map (λ d. d.val) ds)

finality_vote_duties-host_of :
    (a : Assignment) (node n : ℕ) (ds : List AttestDuty)
    → node < nodes_of a
    → finality_vote_duties a node n ≡ some ds
    → (k : ℕ) × (round a n ≡ some k)
      × ((val : ℕ)
          → (votes_for ds val ≡ true) ↔ (
              (val < validators_of a)
              × (host_of a (pos val) ≡ pos node)
              × (is_in_round a k val ≡ true)))
finality_vote_duties-host_of a node n ds h e =
    let (k, vals, ek, ev, em, _) = finality_vote_duties_lem a node n ds e in
    let (vals', ev', hosts) = hosted-host_of a node h in
    let same : vals ≡ vals' = some-injective vals vals' (sym ev ∙ ev') in
    (
      k,
      ek,
      λ val.
          let both : votes_for ds val ≡ contains vals' val && is_in_round a k val =
            rw (em, same) (contains-keep (is_in_round a k) vals' val) in
          ground (arith, both, hosts val),
    )

-- In the view of a node of the plan, each finality round of the plan has a duty list, and the list
-- has a duty for a validator exactly when the validator is one of the plan, its host is the
-- node, and it votes in that round.
pub node_view-finality_vote_duties :
    (a : Assignment) (node n : ℕ) (v : View)
    → node < nodes_of a
    → node_view a node ≡ some v
    → n < rounds_in_plan a
    → (ds : List AttestDuty) × (k : ℕ) × (get_elem? v.finality_vote_duties n ≡ some ds)
      × (round a n ≡ some k)
      × ((val : ℕ)
          → (votes_for ds val ≡ true) ↔ (
              (val < validators_of a)
              × (host_of a (pos val) ≡ pos node)
              × (is_in_round a k val ≡ true)))
unfolding node_view
node_view-finality_vote_duties a node n v h e lt =
    elim (Option-cases (all_aggregated node a.slots)) [
      | inl stuck ↦ ground arith
      | inr (aggs, ea) ↦ elim (Option-cases (round_duties a node 0 (rounds_in_plan a))) [
        | inl stuck ↦ ground arith
        | inr (votes, er) ↦
            let (ds, g, d) = round_duties-get a node 0 (rounds_in_plan a) n votes er lt in
            let (k, ek, exactly) =
              finality_vote_duties-host_of a node n ds h
                (subst (λ m. finality_vote_duties a node m ≡ some ds) (omega arith) d) in
            let ev : v.finality_vote_duties ≡ votes = ground arith in (ds, k, rw ev g, ek, exactly)
      ]
    ]
