-- ===== src/Driver/Slot.antt =====
-- driver/runner.go: the coupling state of one node in one slot, and the critical sections that
-- change it. A section runs with the runner's mutex held, so that the goroutines and timers of a
-- slot interleave as a sequence of sections. Times and durations are in ns; a time that
-- is not set is 0.
pub mod Handlers
pub mod Claims
pub mod Decision
pub mod Gate
pub mod Emits
pub mod Custody
use eth_slot_sim.Base.{
  ℕ, ◌+◌, ◌<◌, Bool, true, false, not, ◌&&◌, ◌||◌, List, [], ◌∷◌, Option, none, some, ℤ, pos,
  minus_one, ltb, ◌==◌, if◌then◌else◌, length, contains,
}
use eth_slot_sim.Schedule.{AttestDuty, AcVoteDuty, PtcDuty}
use eth_slot_sim.Driver.Coupling.{emit_decision}

pub record EpbsParams : Type 0 where
  pub consensus_block_size : ℕ
  pub payload_offset : ℕ
  pub payload_jitter : ℕ
  pub ptc_due : ℕ

-- The phases and knobs of a runner that the votes read.
pub record Phases : Type 0 where
  pub num : ℕ
  pub attest : Bool
  pub sync : Bool
  pub decoupled : Bool
  pub epbs : Option EpbsParams
  pub prep : ℕ

pub record SlotState : Type 0 where
  pub deadline : ℕ
  pub attestation_duties : List AttestDuty
  pub ac_vote_duties : List AcVoteDuty
  pub attestation_subnets_subscribed : List ℕ
  pub block_seen : Bool
  pub block_seen_at : ℕ
  pub block_seen_origin : ℕ
  pub payload_seen : Bool
  pub payload_seen_at : ℕ
  pub already_voted : Bool
  pub voted_for_slot_block : Bool
  pub sync_subnet : ℤ
  pub sync_member : Bool
  pub sync_already_voted : Bool
  pub sync_voted_for_slot_block : Bool
  pub custody : List ℕ
  pub have_column : List ℕ  -- the keys of the map, each once
  pub columns_complete : Bool
  pub columns_complete_at : ℕ
  pub agg_subnets : List ℕ
  pub sync_agg_subnets : List ℕ
  pub ptc_duties : List PtcDuty

-- What a section leaves to be done when the mutex is free: the emission of the slot's vote or of
-- the sync message, at an instant.
pub data Emission : Type 0 where
  emit_gated : ℕ → Emission
  emit_sync_message : ℕ → Emission

abbrev pub later_of : ℕ → ℕ → ℕ
later_of a b = if ltb a b then b else a

-- The first part of `onBlockProcessed`: the block is recorded once.
unfoldable pub see_block : ℕ → ℕ → SlotState → SlotState
see_block origin at ss =
    if ss.block_seen
    then ss
    else record ss { block_seen = true; block_seen_at = at; block_seen_origin = origin }

-- The first part of `onColumnProcessed`. The flag asks for an attempt at the early vote.
unfoldable pub see_column : ℕ → ℕ → SlotState → SlotState × Bool
see_column col at ss =
    let have = record ss { have_column = col ∷ ss.have_column } in
    let done = record have { columns_complete = true; columns_complete_at = at } in
    if contains ss.have_column col
    then (ss, false)
    else (if ss.columns_complete
        then (have, false)
        else (if length have.have_column == length ss.custody then (done, true) else (have, false)))

unfoldable pub on_payload_processed : ℕ → SlotState → SlotState
on_payload_processed at ss =
    if ss.payload_seen then ss else record ss { payload_seen = true; payload_seen_at = at }

unfoldable pub mark_columns_complete : ℕ → SlotState → SlotState
mark_columns_complete at ss =
    if ss.columns_complete
    then ss
    else record ss { columns_complete = true; columns_complete_at = at }

-- A key is added to the map once.
abbrev pub add_key : ℕ → List ℕ → List ℕ
add_key c have = if contains have c then have else c ∷ have

abbrev pub add_keys : List ℕ → List ℕ → List ℕ
add_keys [] have = have
add_keys (c ∷ cs) have = add_keys cs (add_key c have)

unfoldable pub mark_custody_held : SlotState → SlotState
mark_custody_held ss = record ss { have_column = add_keys ss.custody ss.have_column }

-- An instant that has passed is now.
abbrev pub not_before : ℕ → ℕ → ℕ
not_before now at = if ltb now at then at else now

unfoldable pub try_early_emit : Phases → ℕ → SlotState → SlotState × List Emission
unfolding emit_decision
try_early_emit r now ss =
    let ready = ss.block_seen && ss.columns_complete in
    let processed = later_of ss.block_seen_at ss.columns_complete_at in
    let (emit_at, vote_block) = emit_decision ready processed ss.deadline r.prep in
    if not r.attest && not r.decoupled
    then (ss, [])
    else (if ss.already_voted
        then (ss, [])
        else (if vote_block
            then (
              record ss { already_voted = true; voted_for_slot_block = true },
              emit_gated (not_before now emit_at) ∷ [],
            )
            else (ss, [])))

unfoldable pub try_sync_emit : Phases → ℕ → SlotState → SlotState × List Emission
unfolding emit_decision
try_sync_emit r now ss =
    let (emit_at, vote_head) = emit_decision ss.block_seen ss.block_seen_at ss.deadline r.prep in
    if not r.sync || not ss.sync_member
    then (ss, [])
    else (if ss.sync_already_voted
        then (ss, [])
        else (if vote_head
            then (
              record ss { sync_already_voted = true; sync_voted_for_slot_block = true },
              emit_sync_message (not_before now emit_at) ∷ [],
            )
            else (ss, [])))

-- The two halves of `onBlockDeadline`.
unfoldable pub deadline_vote : Phases → ℕ → SlotState → SlotState × List Emission
deadline_vote r now ss =
    if r.attest || r.decoupled
    then (if ss.already_voted then (ss, []) else (
      record ss { already_voted = true; voted_for_slot_block = false },
      emit_gated now ∷ [],
    ))
    else (ss, [])

unfoldable pub deadline_sync : Phases → ℕ → SlotState → SlotState × List Emission
deadline_sync r now ss =
    if r.sync && ss.sync_member
    then (if ss.sync_already_voted then (ss, []) else (
      record ss { sync_already_voted = true; sync_voted_for_slot_block = false },
      emit_sync_message now ∷ [],
    ))
    else (ss, [])

-- The critical sections of a slot, whichever goroutine or timer runs them.
pub data Section : Type 0 where
  block_arrives : ℕ → ℕ → Section
  column_arrives : ℕ → ℕ → Section
  payload_arrives : ℕ → Section
  columns_held : ℕ → Section
  custody_held : Section
  early_vote : Section
  early_sync : Section
  deadline_gated : Section
  deadline_sync_message : Section

-- A section that runs at `now`.
unfoldable pub run_section : Phases → ℕ → Section → SlotState → SlotState × List Emission
unfolding see_block see_column on_payload_processed mark_columns_complete mark_custody_held
    try_early_emit try_sync_emit deadline_vote deadline_sync
run_section r now (block_arrives origin at) ss = (see_block origin at ss, [])
run_section r now (column_arrives col at) ss = ((see_column col at ss).0, [])
run_section r now (payload_arrives at) ss = (on_payload_processed at ss, [])
run_section r now (columns_held at) ss = (mark_columns_complete at ss, [])
run_section r now custody_held ss = (mark_custody_held ss, [])
run_section r now early_vote ss = try_early_emit r now ss
run_section r now early_sync ss = try_sync_emit r now ss
run_section r now deadline_gated ss = deadline_vote r now ss
run_section r now deadline_sync_message ss = deadline_sync r now ss
