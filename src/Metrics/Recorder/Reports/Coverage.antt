-- ===== src/Metrics/Recorder/Reports/Coverage.antt =====
-- metrics/tracer.go: `FinalityCoverageAtDeadline` counts the pairs of a vote and an aggregator it reached.
use eth_slot_sim.Base.{
  ℕ, ◌≡◌, refl, ap, ap₂, ◌∙◌, Bool, true, ◌&&◌, List, [], ◌∷◌, ◌++◌, arith, ◌==◌, if◌then◌else◌,
  length, length-append, any, keep, contains, ==_iff, Within, pos, inl, inr, Bool-cases,
}
use eth_slot_sim.Metrics.Ids.{MsgId}
use eth_slot_sim.Metrics.Recorder.{Arrival, PubRec, Recorder, int_eq, id_eq}
use eth_slot_sim.Metrics.Recorder.Keys.{int_eq-cong, int_eq_comm}
use eth_slot_sim.Metrics.Recorder.Reports.{
  is_of, is_by, is_vote, VoteKey, finality_votes, arrived_votes, has_vote, count_covered,
  count_votes, finality_coverage_at_deadline,
}

-- Whether an arrival is that of a message at a node by the deadline.
abbrev pub reaches : ℕ → MsgId → ℕ → Arrival → Bool
reaches due v agg a = id_eq a.id v && (a.node == agg && is_by due a.delay)

-- The pairs of a vote and an aggregator that did not publish it.
unfoldable pub expected_at : MsgId → List ℕ → List (MsgId × ℕ)
expected_at v [] = []
expected_at v (agg ∷ rest) =
    let more = expected_at v rest in
    if int_eq (pos agg) v.identity.origin then more else (v, agg) ∷ more

unfoldable pub expected : List MsgId → List ℕ → List (MsgId × ℕ)
expected [] aggregators = []
expected (v ∷ vs) aggregators = expected_at v aggregators ++ expected vs aggregators

same_vote :
    (fslot subnet : ℕ) (v w : MsgId)
    → is_vote fslot subnet v ≡ true
    → id_eq w v ≡ (
        is_vote fslot subnet w
        && (int_eq w.identity.attester v.identity.attester
            && int_eq w.identity.origin v.identity.origin))
unfolding is_vote is_of id_eq
same_vote fslot subnet v w h = ground (
  arith,
  h,
  int_eq-cong w.identity.slot v.identity.slot (pos fslot),
  int_eq-cong w.identity.slot (pos fslot) v.identity.slot,
  int_eq-cong w.identity.subnet v.identity.subnet (pos subnet),
  int_eq-cong w.identity.subnet (pos subnet) v.identity.subnet,
  int_eq_comm (pos fslot) v.identity.slot,
  int_eq_comm (pos subnet) v.identity.subnet,
)

has_vote-arrived_votes :
    (fslot subnet due agg : ℕ) (aggregators : List ℕ) (v : MsgId) (rs : List Arrival)
    → is_vote fslot subnet v ≡ true
    → contains aggregators agg ≡ true
    → has_vote (arrived_votes fslot subnet aggregators due rs) v agg ≡ any (reaches due v agg) rs
unfolding has_vote arrived_votes
has_vote-arrived_votes fslot subnet due agg aggregators v [] h m = refl
has_vote-arrived_votes fslot subnet due agg aggregators v (a ∷ rs) h m =
    let ih = has_vote-arrived_votes fslot subnet due agg aggregators v rs h m in
    let same = same_vote fslot subnet v a.id h in
    let known : (a.node == agg) ≡ true → contains aggregators a.node ≡ true =
      λ e. ap (contains aggregators) ((==_iff a.node agg).0 e) ∙ m in
    elim (Bool-cases
      (is_vote fslot subnet a.id && (contains aggregators a.node && is_by due a.delay))) [
        | inl e ↦ rw e (rw ih (ground (arith, e, same)))
        | inr e ↦ rw e (rw ih (ground (arith, e, same, known)))
      ]

-- The pairs that some arrival covers.
abbrev pub covered : ℕ → Recorder → List (MsgId × ℕ) → List (MsgId × ℕ)
covered due r pairs = keep (λ p. any (reaches due p.0 p.1) r.arrivals) pairs

keep-append :
    {A : Type 0} (p : A → Bool) (xs ys : List A) → keep p (xs ++ ys) ≡ keep p xs ++ keep p ys
keep-append p [] ys = refl
keep-append p (x ∷ xs) ys = elim (Bool-cases (p x)) [
  | inl e ↦ rw e (ap (λ zs. x ∷ zs) (keep-append p xs ys))
  | inr e ↦ rw e (keep-append p xs ys)
]

module _ (fslot subnet due : ℕ) (aggregators : List ℕ) (r : Recorder) where
  abbrev keys : List VoteKey
  keys = arrived_votes fslot subnet aggregators due r.arrivals

  count_covered-expected_at :
      (v : MsgId) (aggs : List ℕ)
      → is_vote fslot subnet v ≡ true
      → Within aggs aggregators
      → count_covered keys v aggs
        ≡ (length (covered due r (expected_at v aggs)), length (expected_at v aggs))
  unfolding count_covered expected_at
  count_covered-expected_at v [] h w = refl
  count_covered-expected_at v (agg ∷ rest) h w =
      let ih = count_covered-expected_at v rest h (λ c m. w c (ground (arith, m))) in
      let first = ap (λ (p : ℕ × ℕ). p.0) ih in
      let second = ap (λ (p : ℕ × ℕ). p.1) ih in
      let seen =
        has_vote-arrived_votes fslot subnet due agg aggregators v r.arrivals h
          (w agg (ground arith)) in
      elim (Bool-cases (int_eq (pos agg) v.identity.origin)) [
        | inl own ↦ rw own ih
        | inr other ↦ elim (Bool-cases (any (reaches due v agg) r.arrivals)) [
          | inl e ↦
              rw (other, seen, e)
                (ap₂ (λ (a b : ℕ). (a, b)) (omega (arith, first)) (omega (arith, second)))
          | inr e ↦
              rw (other, seen, e)
                (ap₂ (λ (a b : ℕ). (a, b)) (omega (arith, first)) (omega (arith, second)))
        ]
      ]

  count_votes-expected :
      (pubs : List (MsgId × PubRec))
      → let pairs = expected (finality_votes fslot subnet pubs) aggregators in
        count_votes keys aggregators (finality_votes fslot subnet pubs)
        ≡ (length (covered due r pairs), length pairs)
  unfolding count_votes finality_votes expected
  count_votes-expected [] = refl
  count_votes-expected ((id, p) ∷ rest) =
      let ih = count_votes-expected rest in
      let more = expected (finality_votes fslot subnet rest) aggregators in
      let here = expected_at id aggregators in
      elim (Bool-cases (is_vote fslot subnet id)) [
        | inr e ↦ rw e ih
        | inl e ↦
            let own = count_covered-expected_at id aggregators e (λ c m. m) in
            let split =
              ap length (keep-append (λ q. any (reaches due q.0 q.1) r.arrivals) here more) in
            rw e (
              ap₂ (λ (a b : ℕ). (a, b))
                (omega (
                  arith,
                  ap (λ (q : ℕ × ℕ). q.0) own,
                  ap (λ (q : ℕ × ℕ). q.0) ih,
                  split,
                  length-append (covered due r here) (covered due r more),
                ))
                (omega (
                  arith,
                  ap (λ (q : ℕ × ℕ). q.1) own,
                  ap (λ (q : ℕ × ℕ). q.1) ih,
                  length-append here more,
                )))
      ]

  -- The reported share is, of the pairs of a published vote of the subnet and an aggregator other
  -- than its publisher, those where the vote, by its whole identity, arrived at the aggregator
  -- with a delay up to the deadline.
  pub finality_coverage_lem :
      let pairs = expected (finality_votes fslot subnet r.published) aggregators in
      finality_coverage_at_deadline fslot subnet aggregators due r
      ≡ (length (covered due r pairs), length pairs)
  unfolding finality_coverage_at_deadline
  finality_coverage_lem = count_votes-expected r.published
