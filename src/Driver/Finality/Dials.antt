-- ===== src/Driver/Finality/Dials.antt =====
-- driver/runner.go: the peers that a pre-join dials are extra ones, each once.
use eth_slot_sim.Base.{
  ℕ, ◌+◌, ◌≤◌, ◌≡◌, ap, Bool, true, false, not, ◌||◌, List, [], ◌∷◌, ◌++◌, arith, ◌==◌, leb, length,
  contains, contains-append, length-append, bit, occurrences, occurrences-append,
  occurrences-contains, contains-occurrences, ==_iff, inl, inr, Bool-cases,
}
use eth_slot_sim.Schedule.{AttestDuty}
use eth_slot_sim.Driver.Finality.{Chain, dial_two, dial_subnets, duty_subnets_of, prejoin_state}

-- The node itself, and its long-lived peers.
abbrev pub is_kept_out : Chain → ℕ → Bool
is_kept_out c p = p == c.num || contains c.stable_peers p

same_peer :
    (c : Chain) (picked : List ℕ) (x p : ℕ)
    → (x == p) ≡ true
    → (is_kept_out c x ≡ is_kept_out c p) × (contains picked x ≡ contains picked p)
same_peer c picked x p h =
    let e : x ≡ p = (==_iff x p).0 h in (ap (is_kept_out c) e, ap (contains picked) e)

dial_two_lem :
    (c : Chain) (picked dialed ps : List ℕ)
    → length dialed ≤ 2
    → let out = dial_two c picked dialed ps in
      (length out ≤ 2)
      × ((p : ℕ)
          → occurrences p out
            ≤ occurrences p dialed + bit (not (is_kept_out c p || contains picked p)))
unfolding dial_two
dial_two_lem c picked dialed [] h = (h, λ p. omega arith)
dial_two_lem c picked dialed (x ∷ ps) h = elim (Bool-cases (leb 2 (length dialed))) [
  | inl full ↦ (ground (arith, h, full), λ p. ground (arith, full))
  | inr room ↦
      let skip = dial_two_lem c picked dialed ps h in
      let taken =
        dial_two_lem c (x ∷ picked) (dialed ++ x ∷ []) ps
          (ground (arith, length-append dialed (x ∷ []))) in
      (
        ground (arith, room, skip.0, taken.0),
        λ p. ground (
          arith,
          room,
          skip.1 p,
          taken.1 p,
          occurrences-append p dialed (x ∷ []),
          same_peer c picked x p,
        ),
      )
]

-- What the dials of the subnets in turn have: no peer twice, none that is kept out or picked before;
-- and what is picked after them.
pub record AreExtra (c : Chain) (picked out after : List ℕ) : Type 0 where
  pub once : (p : ℕ) → occurrences p out ≤ bit (not (is_kept_out c p || contains picked p))
  pub grows : (p : ℕ) → contains after p ≡ contains picked p || contains out p

pub dial_subnets-AreExtra :
    (c : Chain) (shuffled : ℕ → List ℕ) (picked ss : List ℕ)
    → AreExtra c picked (dial_subnets c shuffled picked ss).0 (dial_subnets c shuffled picked ss).1
unfolding dial_subnets
dial_subnets-AreExtra c shuffled picked [] = record {
  once = λ p. omega arith;
  grows = λ p. ground arith;
}
dial_subnets-AreExtra c shuffled picked (s ∷ ss) =
    let here = dial_two c picked [] (shuffled s) in
    let (more, after) = dial_subnets c shuffled (here ++ picked) ss in
    let (_, first) = dial_two_lem c picked [] (shuffled s) (omega arith) in
    let rest = dial_subnets-AreExtra c shuffled (here ++ picked) ss in
    record {
      once = λ p. ground (
        arith,
        first p,
        rest.once p,
        occurrences-append p here more,
        contains-append here picked p,
        occurrences-contains p here,
      );
      grows = λ p.
          ground (arith, rest.grows p, contains-append here picked p, contains-append here more p);
    }

-- Whatever order the seed gives to the subscribers: over the votes and the aggregations of a round, a
-- pre-join dials no peer twice, and never the node itself or one of its long-lived peers, so that
-- the later disconnect of what was dialed takes no long-lived connection down.
pub prejoin_state-dials :
    (shuffled : ℕ → List ℕ) (c : Chain) (duties : List AttestDuty) (agg_subnets : List ℕ) (p : ℕ)
    → let fs = prejoin_state shuffled c duties agg_subnets in
      (occurrences p (fs.vote_dialed ++ fs.aggregate_dialed) ≤ 1)
      × (is_kept_out c p ≡ true → contains (fs.vote_dialed ++ fs.aggregate_dialed) p ≡ false)
unfolding prejoin_state
prejoin_state-dials shuffled c duties agg_subnets p =
    let subnets = duty_subnets_of c.view.finality_subnet [] duties in
    let (votes, picked) = dial_subnets c shuffled [] subnets in
    let (aggs, _) = dial_subnets c shuffled picked agg_subnets in
    let v = dial_subnets-AreExtra c shuffled [] subnets in
    let a = dial_subnets-AreExtra c shuffled picked agg_subnets in
    ground (
      arith,
      v.once p,
      v.grows p,
      a.once p,
      occurrences-append p votes aggs,
      occurrences-contains p votes,
      contains-occurrences p (votes ++ aggs),
    )
