-- ===== src/Driver/Slot/Handlers.antt =====
-- driver/runner.go: the event handlers of a slot. A handler finds the slot's state in the table of
-- live slots, and does nothing where the slot was pruned. A handler is its sections in a row.
use eth_slot_sim.Base.{
  ℕ, Bool, true, false, List, [], ◌∷◌, ◌++◌, Option, none, some, ℤ, pos, negsuc, ltb, ◌==◌,
  if◌then◌else◌, map, range_from,
}
use eth_slot_sim.Node.Kinds.{Kind, block, consensus_block, column, execution_payload}
use eth_slot_sim.Metrics.Ids.{
  Identity, MsgId, block_id, consensus_block_id, execution_payload_id, column_id,
}
use eth_slot_sim.Driver.Slot.{
  Phases, SlotState, Emission, see_block, see_column, on_payload_processed, mark_columns_complete,
  mark_custody_held, try_early_emit, try_sync_emit, deadline_vote, deadline_sync,
}

-- A slot's entry of the table, and what is left to emit.
abbrev pub Outcome : Type 0
Outcome = Option SlotState × List Emission

unfoldable pub on_block_processed : Phases → ℕ → ℕ → ℕ → Option SlotState → Outcome
on_block_processed r now origin at none = (none, [])
on_block_processed r now origin at (some ss) =
    let (ss1, early) = try_early_emit r now (see_block origin at ss) in
    let (ss2, sync) = try_sync_emit r now ss1 in (some ss2, early ++ sync)

unfoldable pub on_column_processed : Phases → ℕ → ℕ → ℕ → Option SlotState → Outcome
on_column_processed r now col at none = (none, [])
on_column_processed r now col at (some ss) =
    let (ss1, complete) = see_column col at ss in
    let (ss2, early) = try_early_emit r now ss1 in
    if complete then (some ss2, early) else (some ss1, [])

unfoldable pub on_block_deadline : Phases → ℕ → Option SlotState → Outcome
on_block_deadline r now none = (none, [])
on_block_deadline r now (some ss) =
    let (ss1, vote) = deadline_vote r now ss in
    let (ss2, sync) = deadline_sync r now ss1 in (some ss2, vote ++ sync)

abbrev pub update : (SlotState → SlotState) → Option SlotState → Option SlotState
update f none = none
update f (some ss) = some (f ss)

-- What a publish hands to the tracer.
pub record Publish : Type 0 where
  pub id : MsgId
  pub voted_block : Bool
  pub at : ℕ

abbrev pub plain : ℕ → MsgId → Publish
plain at id = record { id = id; voted_block = false; at = at }

abbrev pub column_publishes : ℕ → ℕ → ℕ → ℕ → List Publish
column_publishes num slot now columns =
    map (λ col. plain now (column_id slot col num)) (range_from 0 columns)

-- `now` is the instant of the publish; `columns` is the view's column count.
unfoldable pub publish_block : Phases → ℕ → ℕ → ℕ → Option SlotState → Outcome × List Publish
unfolding on_block_processed mark_columns_complete
publish_block r slot columns now t =
    let t1 = if ltb 0 columns then update (mark_columns_complete now) t else t in
    (
      on_block_processed r now r.num now t1,
      plain now (block_id slot r.num) ∷ column_publishes r.num slot now columns,
    )

unfoldable pub publish_consensus_block : Phases → ℕ → ℕ → Option SlotState → Outcome × List Publish
unfolding on_block_processed
publish_consensus_block r slot now t =
    (on_block_processed r now r.num now t, plain now (consensus_block_id slot r.num) ∷ [])

unfoldable pub publish_execution_payload :
    Phases → ℕ → ℕ → ℕ → Option SlotState → Outcome × List Publish
unfolding on_payload_processed mark_custody_held
publish_execution_payload r slot columns now t = (
  (update mark_custody_held (update (on_payload_processed now) t), []),
  plain now (execution_payload_id slot r.num) ∷ column_publishes r.num slot now columns,
)

-- A message that the node decoded. The decoder fills the origin of a block and the index of a column
-- from a `uint32`, so that `number` meets no negative value there.
pub record Received : Type 0 where
  pub kind : Kind
  pub id : Identity
  pub origin : ℕ
  pub at : ℕ

abbrev pub number : ℤ → ℕ
number (pos n) = n
number (negsuc n) = 0

abbrev pub couple : Phases → ℕ → Kind → Received → Option SlotState → Outcome
couple r now block rec t = on_block_processed r now (number rec.id.origin) rec.at t
couple r now consensus_block rec t = on_block_processed r now (number rec.id.origin) rec.at t
couple r now column rec t = on_column_processed r now (number rec.id.subnet) rec.at t
couple r now execution_payload rec t = (update (on_payload_processed rec.at) t, [])
couple r now _ rec t = (t, [])

-- `t` is the entry of the slot that the identity names; the flag says that the tracer is told.
unfoldable pub on_receive : Phases → ℕ → Received → Option SlotState → Outcome × Bool
unfolding on_block_processed on_column_processed on_payload_processed
on_receive r now rec t =
    if rec.origin == r.num then ((t, []), false) else (couple r now rec.kind rec t, true)
