-- ===== src/Metrics/Recorder/Reports.antt =====
-- metrics/tracer.go: what the recorder reports. The order of the list of publishes stands for the
-- order in which Go ranges over the map. A reported share is the pair of its counts, before
-- the division.
pub mod Custody
pub mod Coverage
use eth_slot_sim.Base.{
  ℕ, suc, ◌+◌, Bool, true, not, ◌&&◌, ◌||◌, List, [], ◌∷◌, leb, ◌==◌, if◌then◌else◌, length, any,
  contains, ℤ, pos, negsuc, minus_one, bit,
}
use eth_slot_sim.Node.Kinds.{
  Kind, block, attestation, column, sync_message, ac_vote, finality_vote, ptc_vote, kind_eq,
}
use eth_slot_sim.Metrics.Ids.{Identity, MsgId}
use eth_slot_sim.Metrics.Recorder.{Arrival, PubRec, Recorder, int_eq}

unfoldable pub is_of : Kind → ℕ → MsgId → Bool
is_of kind slot id = kind_eq id.kind kind && int_eq id.identity.slot (pos slot)

-- The published messages of a kind and slot that carried a vote, and all of them.
unfoldable pub fraction_voted : ℕ → Kind → List (MsgId × PubRec) → ℕ × ℕ
fraction_voted slot kind [] = (0, 0)
fraction_voted slot kind ((id, p) ∷ rest) =
    let counts = fraction_voted slot kind rest in
    if is_of kind slot id then (bit p.voted_block + counts.0, suc counts.1) else counts

unfoldable pub fraction_voted_block : ℕ → Recorder → ℕ × ℕ
fraction_voted_block slot r = fraction_voted slot attestation r.published

unfoldable pub fraction_voted_head : ℕ → Recorder → ℕ × ℕ
fraction_voted_head slot r = fraction_voted slot sync_message r.published

unfoldable pub fraction_voted_ac_vote : ℕ → Recorder → ℕ × ℕ
fraction_voted_ac_vote slot r = fraction_voted slot ac_vote r.published

unfoldable pub fraction_voted_ptc : ℕ → Recorder → ℕ × ℕ
fraction_voted_ptc slot r = fraction_voted slot ptc_vote r.published

-- `a.Delay > due`, negated.
unfoldable pub is_by : ℕ → ℤ → Bool
is_by due (pos d) = leb d due
is_by due (negsuc d) = true

unfoldable pub proposer_of : ℕ → List (MsgId × PubRec) → ℤ
proposer_of slot [] = minus_one
proposer_of slot ((id, p) ∷ rest) =
    let more = proposer_of slot rest in if is_of block slot id then id.identity.origin else more

-- The entries `arrived[node][column]`.
unfoldable pub arrived_columns : ℕ → ℕ → List Arrival → List (ℕ × ℤ)
arrived_columns slot due [] = []
arrived_columns slot due (a ∷ rest) =
    let more = arrived_columns slot due rest in
    if is_of column slot a.id && is_by due a.delay
    then (a.node, a.id.identity.subnet) ∷ more
    else more

unfoldable pub has_column : List (ℕ × ℤ) → ℕ → ℕ → Bool
has_column got nd c = any (λ e. e.0 == nd && int_eq e.1 (pos c)) got

unfoldable pub is_complete : ℤ → List (ℕ × ℤ) → ℕ → List ℕ → Bool
is_complete proposer got nd cols =
    int_eq (pos nd) proposer || not (any (λ c. not (has_column got nd c)) cols)

-- The custodiers that are complete, and all of them.
unfoldable pub count_complete : ℤ → List (ℕ × ℤ) → List (ℕ × List ℕ) → ℕ × ℕ
count_complete proposer got [] = (0, 0)
count_complete proposer got ((nd, cols) ∷ rest) =
    let counts = count_complete proposer got rest in
    if length cols == 0
    then counts
    else (bit (is_complete proposer got nd cols) + counts.0, suc counts.1)

unfoldable pub custody_complete_rate : ℕ → List (ℕ × List ℕ) → ℕ → Recorder → ℕ × ℕ
custody_complete_rate slot custody due r =
    count_complete (proposer_of slot r.published) (arrived_columns slot due r.arrivals) custody

-- `voteKey`
pub record VoteKey : Type 0 where
  pub val : ℤ
  pub origin : ℤ
  pub agg : ℕ

unfoldable pub is_vote : ℕ → ℕ → MsgId → Bool
is_vote fslot subnet id = is_of finality_vote fslot id && int_eq id.identity.subnet (pos subnet)

unfoldable pub finality_votes : ℕ → ℕ → List (MsgId × PubRec) → List MsgId
finality_votes fslot subnet [] = []
finality_votes fslot subnet ((id, p) ∷ rest) =
    let more = finality_votes fslot subnet rest in
    if is_vote fslot subnet id then id ∷ more else more

unfoldable pub arrived_votes : ℕ → ℕ → List ℕ → ℕ → List Arrival → List VoteKey
arrived_votes fslot subnet aggregators due [] = []
arrived_votes fslot subnet aggregators due (a ∷ rest) =
    let more = arrived_votes fslot subnet aggregators due rest in
    if is_vote fslot subnet a.id && (contains aggregators a.node && is_by due a.delay)
    then record { val = a.id.identity.attester; origin = a.id.identity.origin; agg = a.node } ∷ more
    else more

unfoldable pub has_vote : List VoteKey → MsgId → ℕ → Bool
has_vote keys v agg =
    any (λ k. int_eq k.val v.identity.attester && int_eq k.origin v.identity.origin && k.agg == agg)
      keys

-- The aggregators a vote is expected at and has reached, and all it is expected at.
unfoldable pub count_covered : List VoteKey → MsgId → List ℕ → ℕ × ℕ
count_covered keys v [] = (0, 0)
count_covered keys v (agg ∷ rest) =
    let counts = count_covered keys v rest in
    if int_eq (pos agg) v.identity.origin
    then counts
    else (bit (has_vote keys v agg) + counts.0, suc counts.1)

unfoldable pub count_votes : List VoteKey → List ℕ → List MsgId → ℕ × ℕ
count_votes keys aggregators [] = (0, 0)
count_votes keys aggregators (v ∷ rest) =
    let here = count_covered keys v aggregators in
    let counts = count_votes keys aggregators rest in (here.0 + counts.0, here.1 + counts.1)

unfoldable pub finality_coverage_at_deadline : ℕ → ℕ → List ℕ → ℕ → Recorder → ℕ × ℕ
finality_coverage_at_deadline fslot subnet aggregators due r =
    count_votes (arrived_votes fslot subnet aggregators due r.arrivals) aggregators
      (finality_votes fslot subnet r.published)
