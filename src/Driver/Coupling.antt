-- ===== src/Driver/Coupling.antt =====
-- driver/coupling.go: the rule that couples a vote to the block. Times and durations are in ns.
use eth_slot_sim.Base.{ℕ, ◌+◌, ◌≤◌, min, ◌≡◌, ◌↔◌, Bool, true, false, arith, leb, if◌then◌else◌}

unfoldable pub emit_decision : Bool → ℕ → ℕ → ℕ → ℕ × Bool
emit_decision seen processed deadline prep =
    if seen
    then (if leb (processed + prep) deadline then (processed + prep, true) else (deadline, false))
    else (deadline, false)

-- The vote is never emitted after the deadline; it is for the block exactly when the block was
-- processed and the preparation ends by the deadline, the tie included; and it is emitted when the
-- preparation ends, or at the deadline if that is earlier or the block was not processed.
pub emit_decision_lem :
    (seen : Bool) (processed deadline prep : ℕ)
    → let (at, votes_block) = emit_decision seen processed deadline prep in
      (at ≤ deadline)
      × ((votes_block ≡ true) ↔ ((seen ≡ true) × (processed + prep ≤ deadline)))
      × (at ≡ (if seen then min (processed + prep) deadline else deadline))
unfolding emit_decision
emit_decision_lem seen processed deadline prep = ground arith
