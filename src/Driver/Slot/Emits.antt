-- ===== src/Driver/Slot/Emits.antt =====
-- driver/runner.go: the emissions of a slot. A payload's bytes are the vote that they carry, and a
-- publish that fails is logged and not tried again, so a failed publish changes nothing here.
pub mod Transport
use eth_slot_sim.Base.{
  ℕ, ◌<◌, Bool, true, false, not, ◌&&◌, List, [], ◌∷◌, ◌++◌, map, ℤ, pos, minus_one, ◌==◌,
  if◌then◌else◌, length, contains,
}
use eth_slot_sim.Schedule.{AttestDuty, AcVoteDuty, PtcDuty}
use eth_slot_sim.Metrics.Ids.{
  MsgId, attest_id, ac_vote_id, ptc_vote_id, sync_message_id, aggregate_id, sync_contribution_id,
}
use eth_slot_sim.Driver.Slot.{Phases, SlotState}

-- One message: what the tracer is told, and the voted origin in the payload (-1 where it has none).
pub record Vote : Type 0 where
  pub id : MsgId
  pub voted_block : Bool
  pub voted_origin : ℤ

unfoldable pub voted_origin_of : SlotState → ℤ
voted_origin_of ss = if ss.voted_for_slot_block then pos ss.block_seen_origin else minus_one

abbrev pub attestation_for : Phases → ℕ → SlotState → AttestDuty → Vote
attestation_for r slot ss d = record {
  id = attest_id slot d.subnet d.val r.num;
  voted_block = ss.voted_for_slot_block;
  voted_origin = voted_origin_of ss;
}

-- `joins` says of a subnet whether its topic was joined; a duty without its topic is passed over.
unfoldable pub emit_duties : Phases → ℕ → SlotState → (ℕ → Bool) → List AttestDuty → List Vote
unfolding voted_origin_of
emit_duties r slot ss joins [] = []
emit_duties r slot ss joins (d ∷ ds) =
    let rest = emit_duties r slot ss joins ds in
    if joins d.subnet then attestation_for r slot ss d ∷ rest else rest

unfoldable pub emit : Phases → ℕ → SlotState → (ℕ → Bool) → List Vote
unfolding emit_duties
emit r slot ss joins = emit_duties r slot ss joins ss.attestation_duties

-- The partial transport: the votes stored at the node, and the batches sent by subnet.
pub record PartialEmit : Type 0 where
  pub traced : List Vote
  pub stored : List (ℕ × ℤ)
  pub fanout : List (ℕ × List ℤ)

-- `fanout[subnet] = append(fanout[subnet], position)`.
unfoldable pub add_position : ℕ → ℤ → List (ℕ × List ℤ) → List (ℕ × List ℤ)
add_position s p [] = (s, p ∷ []) ∷ []
add_position s p ((t, ps) ∷ rest) =
    let more = add_position s p rest in if t == s then (t, ps ++ p ∷ []) ∷ rest else (t, ps) ∷ more

-- One turn of the loop over the duties.
unfoldable pub carry : Phases → ℕ → SlotState → PartialEmit → AttestDuty → PartialEmit
unfolding voted_origin_of add_position
carry r slot ss out d =
    let traced = record out { traced = out.traced ++ attestation_for r slot ss d ∷ [] } in
    if contains ss.attestation_subnets_subscribed d.subnet
    then record traced { stored = out.stored ++ (d.subnet, d.position) ∷ [] }
    else record traced { fanout = add_position d.subnet d.position out.fanout }

unfoldable pub emit_partial_from :
    Phases → ℕ → SlotState → PartialEmit → List AttestDuty → PartialEmit
unfolding carry
emit_partial_from r slot ss out [] = out
emit_partial_from r slot ss out (d ∷ ds) = emit_partial_from r slot ss (carry r slot ss out d) ds

unfoldable pub emit_partial : Phases → ℕ → SlotState → PartialEmit
unfolding emit_partial_from
emit_partial r slot ss =
    emit_partial_from r slot ss (record { traced = []; stored = []; fanout = [] })
      ss.attestation_duties

unfoldable pub emit_ac_vote : Phases → ℕ → SlotState → List Vote
unfolding voted_origin_of
emit_ac_vote r slot ss =
    map
      (λ d. record {
        id = ac_vote_id slot d.val r.num;
        voted_block = ss.voted_for_slot_block;
        voted_origin = voted_origin_of ss;
      })
      ss.ac_vote_duties

-- `emitGated` in the classic transport.
unfoldable pub emit_gated_vote : Phases → ℕ → SlotState → (ℕ → Bool) → List Vote
unfolding emit emit_ac_vote
emit_gated_vote r slot ss joins =
    if r.decoupled then emit_ac_vote r slot ss else emit r slot ss joins

-- The votes of the payload-timeliness committee; the flag is `payload_present`.
unfoldable pub emit_ptc_vote : Phases → ℕ → SlotState → List Vote
emit_ptc_vote r slot ss =
    let present = ss.payload_seen && length ss.have_column == length ss.custody in
    if ss.block_seen
    then map
        (λ d. record {
          id = ptc_vote_id slot d.val r.num;
          voted_block = present;
          voted_origin = minus_one;
        })
        ss.ptc_duties
    else []

-- `joined` says whether the subnet's topic was joined.
unfoldable pub emit_sync : Phases → ℕ → SlotState → Bool → List Vote
emit_sync r slot ss joined =
    if joined
    then record {
      id = sync_message_id slot ss.sync_subnet r.num;
      voted_block = ss.sync_voted_for_slot_block;
      voted_origin = if ss.sync_voted_for_slot_block then pos ss.block_seen_origin else minus_one;
    }
      ∷ []
    else []

abbrev pub unvoted : MsgId → Vote
unvoted id = record { id = id; voted_block = false; voted_origin = minus_one }

unfoldable pub emit_aggregate : Phases → ℕ → SlotState → List Vote
emit_aggregate r slot ss = map (λ s. unvoted (aggregate_id slot s r.num)) ss.agg_subnets

unfoldable pub emit_sync_contribution : Phases → ℕ → SlotState → List Vote
emit_sync_contribution r slot ss =
    map (λ s. unvoted (sync_contribution_id slot s r.num)) ss.sync_agg_subnets
