-- ===== src/Driver/Setup/Slots.antt =====
-- driver/runner.go: `setupSlot` and what it arms.
-- `draw purpose slot n` is the draw below `n` of the generator that is seeded with the run's seed,
-- the purpose, the node and the slot. A timer or a goroutine that waits for an instant is armed
-- for it; one that starts at once is armed for `now`. `none` is an index out of range, or the
-- division by zero of a fleet without nodes.
use eth_slot_sim.Base.{
  ℕ, ◌+◌, ◌%◌, Bool, true, false, not, ◌||◌, List, [], ◌∷◌, ◌++◌, Option, none, some, ◌>>=◌, ltb,
  ◌==◌, if◌then◌else◌, length, get_elem?, contains, any, pos,
}
use eth_slot_sim.Schedule.{AttestDuty, PtcDuty}
use eth_slot_sim.Driver.Slot.{EpbsParams, SlotState}
use eth_slot_sim.Driver.Setup.{Runner, is_on}

-- What a timer or a goroutine runs.
pub data Action : Type 0 where
  dial_duties_of drop_dials_of aggregate_of ptc_vote_of sync_contribution_of : Action
  block_deadline publish_block_of publish_consensus_block_of publish_execution_payload_of : Action
  end_slot_of arm_finality_of : Action

pub record Timer : Type 0 where
  pub at : ℕ
  pub action : Action

abbrev pub timer : ℕ → Action → Timer
timer at action = record { at = at; action = action }

abbrev pub when : Bool → Timer → List Timer
when b t = if b then t ∷ [] else []

-- The purposes of the seeded draws.
pub data Stream : Type 0 where
  jitter_stream payload_jitter_stream : Stream

-- The part of the slot state that the duties fill, before the gate, the committee and the sync phase.
unfoldable pub fresh_slot : ℕ → SlotState
fresh_slot deadline = record {
  deadline = deadline;
  attestation_duties = [];
  ac_vote_duties = [];
  attestation_subnets_subscribed = [];
  block_seen = false;
  block_seen_at = 0;
  block_seen_origin = 0;
  payload_seen = false;
  payload_seen_at = 0;
  already_voted = false;
  voted_for_slot_block = false;
  sync_subnet = pos 0;
  sync_member = false;
  sync_already_voted = false;
  sync_voted_for_slot_block = false;
  custody = [];
  have_column = [];
  columns_complete = false;
  columns_complete_at = 0;
  agg_subnets = [];
  sync_agg_subnets = [];
  ptc_duties = [];
}

unfoldable pub needs_dial : List ℕ → List AttestDuty → Bool
needs_dial subscribed duties = any (λ d. not (contains subscribed d.subnet)) duties

module _ (r : Runner) (now slot slot_start : ℕ) where
  -- The attestation phase, or the decoupled one.
  unfoldable pub fill_votes : SlotState → Option (SlotState × List Timer)
  fill_votes ss =
      let view = r.chain.view in
      if r.phases.attest
      then (get_elem? view.attest_duties slot >>= λ duties.
          get_elem? view.aggregate_subnets slot >>= λ aggs. some (
            record ss {
              attestation_duties = duties;
              attestation_subnets_subscribed = view.subscribed_subnets;
              agg_subnets = aggs;
            },
            when (needs_dial view.subscribed_subnets duties) (timer now dial_duties_of)
                ++ when (needs_dial view.subscribed_subnets duties)
                    (timer (slot_start + r.chain.slot_dur) drop_dials_of)
                ++ when (ltb 0 (length aggs)) (timer (slot_start + r.agg_due) aggregate_of),
          ))
      else (if r.phases.decoupled
          then (get_elem? view.ac_vote_duties slot >>= λ duties.
              some (record ss { ac_vote_duties = duties }, timer now arm_finality_of ∷ []))
          else some (ss, []))

  -- The data-availability gate, which starts open under ePBS or without custody columns.
  unfoldable pub fill_gate : SlotState → SlotState
  fill_gate ss =
      let custody = r.chain.view.custody_columns in
      record ss {
        custody = custody;
        columns_complete = length custody == 0 || is_on r.phases.epbs;
        have_column = [];
      }

  unfoldable pub ptc_of : Option (List PtcDuty) → EpbsParams → SlotState → SlotState × List Timer
  ptc_of none ep ss = (ss, [])
  ptc_of (some duties) ep ss = (
    record ss { ptc_duties = duties },
    when (ltb 0 (length duties)) (timer (slot_start + ep.ptc_due) ptc_vote_of),
  )

  unfoldable pub fill_ptc : Option EpbsParams → SlotState → SlotState × List Timer
  fill_ptc none ss = (ss, [])
  fill_ptc (some ep) ss = ptc_of (get_elem? r.chain.view.ptc_duties slot) ep ss

  unfoldable pub fill_sync : SlotState → Option (SlotState × List Timer)
  fill_sync ss =
      let view = r.chain.view in
      if r.phases.sync
      then (get_elem? view.sync_aggregate_subnets slot >>= λ aggs. some (
        record ss {
          sync_subnet = view.sync_subnet;
          sync_member = view.sync_member;
          sync_agg_subnets = aggs;
        },
        when (ltb 0 (length aggs)) (timer (slot_start + r.agg_due) sync_contribution_of),
      ))
      else some (ss, [])

  unfoldable pub proposes : Option Bool
  proposes =
      if ltb 0 (length r.chain.view.proposes)
      then get_elem? r.chain.view.proposes slot
      else (if r.num_nodes == 0 then none else some (slot % r.num_nodes == r.phases.num))

  module _ (draw : Stream → ℕ → ℕ → ℕ) where
    unfoldable pub block_publish_at : ℕ
    block_publish_at =
        if ltb 0 r.jitter then r.offset + draw jitter_stream slot r.jitter else r.offset

    unfoldable pub payload_publish_at : EpbsParams → ℕ
    payload_publish_at ep =
        let at = block_publish_at + ep.payload_offset in
        if ltb 0 ep.payload_jitter
        then at + draw payload_jitter_stream slot ep.payload_jitter
        else at

    unfoldable pub proposals : Bool → Option EpbsParams → List Timer
    proposals false epbs = []
    proposals true none = timer (slot_start + block_publish_at) publish_block_of ∷ []
    proposals true (some ep) =
        timer (slot_start + block_publish_at) publish_consensus_block_of
        ∷ timer (slot_start + payload_publish_at ep) publish_execution_payload_of
        ∷ []

    -- The slot's state, and all that is armed for it.
    unfoldable pub setup_slot : Option (SlotState × List Timer)
    setup_slot = fill_votes (fresh_slot (slot_start + r.block_due)) >>= λ votes.
        let ptc = fill_ptc r.phases.epbs (fill_gate votes.0) in
        (fill_sync ptc.0 >>= λ sync.
        (proposes >>= λ proposer. some (
          sync.0,
          votes.1
              ++ ptc.1
              ++ sync.1
              ++ timer sync.0.deadline block_deadline ∷ proposals proposer r.phases.epbs
              ++ timer (slot_start + r.chain.slot_dur) end_slot_of ∷ [],
        )))
