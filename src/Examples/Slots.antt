-- ===== src/Examples/Slots.antt =====
-- A node's slot: columns 0 and 1 are custodied, the deadline is 4000, the preparation takes 500.
use eth_slot_sim.Base.{
  ℕ, ◌≡◌, refl, ◌↔◌, true, false, List, [], ◌∷◌, none, some, pos, if◌then◌else◌, Within,
}
use eth_slot_sim.Driver.Slot.{
  Phases, SlotState, emit_gated, Section, block_arrives, column_arrives, early_vote, early_sync,
  deadline_gated, deadline_sync_message, deadline_vote,
}
use eth_slot_sim.Driver.Slot.Claims.{run_sections, gated_count, sync_count}
use eth_slot_sim.Driver.Slot.Decision.{
  IsSound, run_sections_exactly_once, run_sections-IsSound, run_sections-fixed,
}
use eth_slot_sim.Driver.Slot.Gate.{block_received, column_received, handle_all, ready_in_time, gate}
use eth_slot_sim.Driver.Slot.Custody.{Distinct, see_columns, see_columns_complete}
use eth_slot_sim.Driver.Slot.Emits.{emit, emit_partial}
use eth_slot_sim.Driver.Slot.Emits.Transport.{
  own_positions, foreign_positions, subnets_of, sent_on, emit_partial-emit,
}

abbrev attester : Phases
attester = record {
  num = 5;
  attest = true;
  sync = true;
  decoupled = false;
  epbs = none;
  prep = 500;
}

abbrev fresh_slot : SlotState
fresh_slot = record {
  deadline = 4000;
  attestation_duties =
      record { subnet = 1; val = 3; position = pos 0 }
      ∷ record { subnet = 2; val = 8; position = pos 4 }
      ∷ record { subnet = 2; val = 9; position = pos 7 }
      ∷ [];
  ac_vote_duties = [];
  attestation_subnets_subscribed = 1 ∷ [];
  block_seen = false;
  block_seen_at = 0;
  block_seen_origin = 0;
  payload_seen = false;
  payload_seen_at = 0;
  already_voted = false;
  voted_for_slot_block = false;
  sync_subnet = pos 0;
  sync_member = true;
  sync_already_voted = false;
  sync_voted_for_slot_block = false;
  custody = 0 ∷ 1 ∷ [];
  have_column = [];
  columns_complete = false;
  columns_complete_at = 0;
  agg_subnets = [];
  sync_agg_subnets = [];
  ptc_duties = [];
}

-- The block at 1000, its columns at 1200 and 1300, and both deadlines.
abbrev in_time : List (ℕ × Section)
in_time =
    (1000, block_arrives 2 1000)
    ∷ (1000, early_sync)
    ∷ (1200, column_arrives 0 1200)
    ∷ (1300, column_arrives 1 1300)
    ∷ (1300, early_vote)
    ∷ (4000, deadline_gated)
    ∷ (4000, deadline_sync_message)
    ∷ []

abbrev voted_slot : SlotState
voted_slot = record fresh_slot {
  already_voted = true;
  voted_for_slot_block = true;
  block_seen = true;
  block_seen_at = 1000;
  block_seen_origin = 2;
}

run_sections_exactly_once_example :
    let (ss', es) = run_sections attester in_time fresh_slot in
    (true ≡ true → gated_count es ≡ 1) × (true ≡ true → sync_count es ≡ 1)
run_sections_exactly_once_example =
    run_sections_exactly_once attester in_time fresh_slot refl refl refl refl

fresh_slot-IsSound : IsSound attester fresh_slot
fresh_slot-IsSound = record { gated = λ h. cc; head = λ h. cc }

run_sections-IsSound_example : IsSound attester (run_sections attester in_time fresh_slot).0
run_sections-IsSound_example = run_sections-IsSound attester in_time fresh_slot fresh_slot-IsSound

run_sections-fixed_example :
    let ss' = (run_sections attester in_time voted_slot).0 in
    (ss'.already_voted ≡ true) × (ss'.voted_for_slot_block ≡ true) × (ss'.block_seen_origin ≡ 2)
run_sections-fixed_example = run_sections-fixed attester in_time voted_slot refl refl

gate_example :
    (ss' : SlotState) × (handle_all attester 0
        ((1000, block_received 2 1000)
          ∷ (1200, column_received 0 1200)
          ∷ (1300, column_received 1 1300)
          ∷ [])
        (some fresh_slot)
      ≡ some ss')
    × (ss'.already_voted ≡ ready_in_time attester ss')
    × (let (end, votes) = deadline_vote attester 4000 ss' in
        (end.already_voted ≡ true)
        × (end.voted_for_slot_block ≡ ready_in_time attester ss')
        × (votes ≡ (if ready_in_time attester ss' then [] else emit_gated 4000 ∷ [])))
gate_example =
    gate attester refl 0 4000
      ((1000, block_received 2 1000)
        ∷ (1200, column_received 0 1200)
        ∷ (1300, column_received 1 1300)
        ∷ [])
      fresh_slot refl refl

see_columns_complete_example :
    ((see_columns ((0, 1200) ∷ (0, 1250) ∷ (1, 1300) ∷ []) fresh_slot).columns_complete ≡ true)
    ↔ Within (0 ∷ 1 ∷ []) (0 ∷ 0 ∷ 1 ∷ [])
see_columns_complete_example =
    see_columns_complete ((0, 1200) ∷ (0, 1250) ∷ (1, 1300) ∷ []) fresh_slot (refl, (refl, tt)) refl
      refl (refl, (refl, (refl, tt)))

emit_partial-emit_example :
    let out = emit_partial attester 0 fresh_slot in
    (out.traced ≡ emit attester 0 fresh_slot (λ s. true))
    × (out.stored ≡ own_positions fresh_slot fresh_slot.attestation_duties)
    × Distinct (subnets_of out.fanout)
    × ((s : ℕ)
        → sent_on s out.fanout ≡ foreign_positions fresh_slot s fresh_slot.attestation_duties)
emit_partial-emit_example = emit_partial-emit attester 0 fresh_slot
