-- ===== src/Examples/Records.antt =====
-- A recorder that saw two columns, two finality votes and an orphan, and three delays.
use eth_slot_sim.Base.{ℕ, ◌+◌, ◌≡◌, true, List, [], ◌∷◌, some, arith, pos, length, ℤ}
use eth_slot_sim.Metrics.Ids.{block_id, column_id, finality_vote_id}
use eth_slot_sim.Metrics.Recorder.{Recorder, new_recorder}
use eth_slot_sim.Metrics.Recorder.Joins.{
  Event, publish, receive, run, joined_receipts, receipts, run-joined_receipts,
}
use eth_slot_sim.Metrics.Recorder.Reports.{finality_coverage_at_deadline, finality_votes}
use eth_slot_sim.Metrics.Recorder.Reports.Coverage.{expected, covered, finality_coverage_lem}
use eth_slot_sim.Metrics.Summary.{Summary, summarize, leb_int}
use eth_slot_sim.Metrics.Summary.Percentiles.{IsPercentile, summarize_lem}

abbrev some_events : List Event
some_events =
    publish (block_id 0 1) true 10
    ∷ publish (column_id 0 3 1) true 12
    ∷ receive 0 (column_id 0 3 1) 20
    ∷ publish (finality_vote_id 0 2 5 1) true 30
    ∷ receive 0 (finality_vote_id 0 2 5 1) 45
    ∷ receive 2 (column_id 0 4 1) 50
    ∷ []

abbrev some_recorder : Recorder
some_recorder = run some_events new_recorder

abbrev some_custody : List (ℕ × List ℕ)
some_custody = (0, 3 ∷ []) ∷ (1, 3 ∷ 4 ∷ []) ∷ (2, 4 ∷ []) ∷ (3, []) ∷ []

abbrev three_delays : List ℤ
three_delays = pos 9 ∷ pos 4 ∷ pos 7 ∷ []

run-joined_receipts_example :
    ((run some_events new_recorder).arrivals ≡ joined_receipts [] some_events)
    × ((run some_events new_recorder).orphans + length (joined_receipts [] some_events)
        ≡ receipts some_events)
run-joined_receipts_example = run-joined_receipts some_events

finality_coverage_lem_example :
    let pairs = expected (finality_votes 0 2 some_recorder.published) (0 ∷ 1 ∷ []) in
    finality_coverage_at_deadline 0 2 (0 ∷ 1 ∷ []) 20 some_recorder
    ≡ (length (covered 20 some_recorder pairs), length pairs)
finality_coverage_lem_example = finality_coverage_lem 0 2 20 (0 ∷ 1 ∷ []) some_recorder

summarize_lem_example :
    (s : Summary) × (summarize three_delays ≡ some s)
    × (s.count ≡ 3)
    × IsPercentile three_delays 50 s.p50
    × IsPercentile three_delays 90 s.p90
    × IsPercentile three_delays 99 s.p99
    × IsPercentile three_delays 100 s.p100
    × (leb_int s.p50 s.p90 ≡ true)
    × (leb_int s.p90 s.p99 ≡ true)
    × (leb_int s.p99 s.p100 ≡ true)
summarize_lem_example = summarize_lem three_delays (omega arith)
