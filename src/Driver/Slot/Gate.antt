-- ===== src/Driver/Slot/Gate.antt =====
-- driver/runner.go: the data-availability gate. Between two handlers a node has claimed the vote for
-- the block exactly when it was ready in time.
use eth_slot_sim.Base.{
  ℕ, ◌+◌, ◌≡◌, refl, Bool, true, false, ◌&&◌, ◌||◌, List, [], ◌∷◌, Option, none, some, arith, leb,
  ltb, if◌then◌else◌, inl, inr, Option-cases,
}
use eth_slot_sim.Driver.Slot.{
  Phases, SlotState, emit_gated, later_of, see_block, see_column, on_payload_processed,
  mark_columns_complete, try_early_emit, try_sync_emit, deadline_vote,
}
use eth_slot_sim.Driver.Slot.Handlers.{
  on_block_processed, on_column_processed, publish_block, publish_consensus_block,
  publish_execution_payload, Outcome, update,
}

-- What can befall a slot before its deadline: each is one handler, at an instant.
pub data Event : Type 0 where
  block_received : ℕ → ℕ → Event
  column_received : ℕ → ℕ → Event
  payload_received : ℕ → Event
  own_block : ℕ → Event
  own_consensus_block : Event
  own_payload : ℕ → Event

unfoldable pub handle : Phases → ℕ → ℕ → Event → Option SlotState → Option SlotState
unfolding on_block_processed on_column_processed publish_block publish_consensus_block
    publish_execution_payload
handle r slot now (block_received origin at) t = (on_block_processed r now origin at t).0
handle r slot now (column_received col at) t = (on_column_processed r now col at t).0
handle r slot now (payload_received at) t = update (on_payload_processed at) t
handle r slot now (own_block columns) t = (publish_block r slot columns now t).0.0
handle r slot now own_consensus_block t = (publish_consensus_block r slot now t).0.0
handle r slot now (own_payload columns) t = (publish_execution_payload r slot columns now t).0.0

unfoldable pub handle_all : Phases → ℕ → List (ℕ × Event) → Option SlotState → Option SlotState
unfolding handle
handle_all r slot [] t = t
handle_all r slot ((now, e) ∷ es) t = handle_all r slot es (handle r slot now e t)

-- The block is processed, the custody is in, and the preparation ends by the deadline.
abbrev pub ready_in_time : Phases → SlotState → Bool
ready_in_time r ss =
    ss.block_seen
    && ss.columns_complete
    && leb (later_of ss.block_seen_at ss.columns_complete_at + r.prep) ss.deadline

-- The claim is up to date.
pub record IsCurrent (r : Phases) (ss : SlotState) : Type 0 where
  pub claimed : ss.already_voted ≡ ready_in_time r ss
  pub for_block : ss.already_voted ≡ true → ss.voted_for_slot_block ≡ true

module _ (r : Phases) (votes : r.attest || r.decoupled ≡ true) where
  try_early_emit-IsCurrent :
      (now : ℕ) (ss : SlotState)
      → (ss.already_voted ≡ true → (ready_in_time r ss ≡ true) × (ss.voted_for_slot_block ≡ true))
      → IsCurrent r (try_early_emit r now ss).0
  unfolding try_early_emit
  try_early_emit-IsCurrent now ss h = ground arith

  try_sync_emit-IsCurrent :
      (now : ℕ) (ss : SlotState) → IsCurrent r ss → IsCurrent r (try_sync_emit r now ss).0
  unfolding try_sync_emit
  try_sync_emit-IsCurrent now ss h = ground arith

  -- Recording a block or completing the custody makes the node no less ready than it was.
  see_block-claim :
      (origin at : ℕ) (ss : SlotState)
      → IsCurrent r ss
      → let ss' = see_block origin at ss in
        ss'.already_voted ≡ true → (ready_in_time r ss' ≡ true) × (ss'.voted_for_slot_block ≡ true)
  unfolding see_block
  see_block-claim origin at ss h = ground arith

  mark_columns_complete-claim :
      (at : ℕ) (ss : SlotState)
      → IsCurrent r ss
      → let ss' = mark_columns_complete at ss in
        ss'.already_voted ≡ true → (ready_in_time r ss' ≡ true) × (ss'.voted_for_slot_block ≡ true)
  unfolding mark_columns_complete
  mark_columns_complete-claim at ss h = ground arith

  see_column-claim :
      (col at : ℕ) (ss : SlotState)
      → IsCurrent r ss
      → let (ss', complete) = see_column col at ss in
        (ss'.already_voted ≡ true
          → (ready_in_time r ss' ≡ true) × (ss'.voted_for_slot_block ≡ true))
        × (complete ≡ false → IsCurrent r ss')
  unfolding see_column
  see_column-claim col at ss h = ground arith

  -- The handler of a live slot leaves it live.
  abbrev Holds : Option SlotState → Type 0
  Holds none = ⊥
  Holds (some ss) = IsCurrent r ss

  Holds-if :
      (b : Bool) (x y : Outcome)
      → (b ≡ true → Holds x.0)
      → (b ≡ false → Holds y.0)
      → Holds (if b then x else y).0
  Holds-if true x y h k = h refl
  Holds-if false x y h k = k refl

  on_block_processed-Holds :
      (now origin at : ℕ) (ss : SlotState)
      → ((see_block origin at ss).already_voted ≡ true
          → (ready_in_time r (see_block origin at ss) ≡ true)
            × ((see_block origin at ss).voted_for_slot_block ≡ true))
      → Holds (on_block_processed r now origin at (some ss)).0
  unfolding on_block_processed
  on_block_processed-Holds now origin at ss h =
      let ss1 = see_block origin at ss in
      try_sync_emit-IsCurrent now (try_early_emit r now ss1).0 (try_early_emit-IsCurrent now ss1 h)

  publish_block-claim :
      (now origin columns : ℕ) (ss : SlotState)
      → IsCurrent r ss
      → let ss1 = if ltb 0 columns then mark_columns_complete now ss else ss in
        let ss2 = see_block origin now ss1 in
        ss2.already_voted ≡ true → (ready_in_time r ss2 ≡ true) × (ss2.voted_for_slot_block ≡ true)
  unfolding mark_columns_complete see_block
  publish_block-claim now origin columns ss h = ground arith

  own_block-Holds :
      (now : ℕ) (b : Bool) (ss : SlotState)
      → (let ss2 = see_block r.num now (if b then mark_columns_complete now ss else ss) in
          ss2.already_voted ≡ true
          → (ready_in_time r ss2 ≡ true) × (ss2.voted_for_slot_block ≡ true))
      → Holds
          (on_block_processed r now r.num now
            (if b then update (mark_columns_complete now) (some ss) else some ss)).0
  own_block-Holds now true ss h =
      on_block_processed-Holds now r.num now (mark_columns_complete now ss) h
  own_block-Holds now false ss h = on_block_processed-Holds now r.num now ss h

  handle-Holds :
      (slot now : ℕ) (e : Event) (ss : SlotState)
      → IsCurrent r ss
      → Holds (handle r slot now e (some ss))
  unfolding handle
  handle-Holds slot now (block_received origin at) ss h =
      on_block_processed-Holds now origin at ss (see_block-claim origin at ss h)
  handle-Holds slot now (column_received col at) ss h =
      let (full, partial) = see_column-claim col at ss h in
      Holds-if (see_column col at ss).1 _ _
        (λ e. try_early_emit-IsCurrent now (see_column col at ss).0 full) partial
  handle-Holds slot now (payload_received at) ss h = ground arith
  handle-Holds slot now (own_block columns) ss h =
      own_block-Holds now (ltb 0 columns) ss (publish_block-claim now r.num columns ss h)
  handle-Holds slot now own_consensus_block ss h =
      on_block_processed-Holds now r.num now ss (see_block-claim r.num now ss h)
  handle-Holds slot now (own_payload columns) ss h = ground arith

  handle_all-Holds :
      (slot : ℕ) (es : List (ℕ × Event)) (ss : SlotState)
      → IsCurrent r ss
      → (ss' : SlotState) × (handle_all r slot es (some ss) ≡ some ss') × IsCurrent r ss'
  unfolding handle_all
  handle_all-Holds slot [] ss h = (ss, refl, h)
  handle_all-Holds slot ((now, e) ∷ es) ss h = elim (Option-cases (handle r slot now e (some ss))) [
    | inl stuck ↦ absurd (rw stuck at (handle-Holds slot now e ss h))
    | inr (ss1, e1) ↦
        let (ss2, e2, h2) =
          handle_all-Holds slot es ss1 (rw e1 at (handle-Holds slot now e ss h)) in
        (ss2, rw e1 e2, h2)
  ]

  deadline_vote_lem :
      (now : ℕ) (ss : SlotState)
      → IsCurrent r ss
      → let (ss', es) = deadline_vote r now ss in
        (ss'.already_voted ≡ true)
        × (ss'.voted_for_slot_block ≡ ready_in_time r ss)
        × (es ≡ (if ready_in_time r ss then [] else emit_gated now ∷ []))
  unfolding deadline_vote
  deadline_vote_lem now ss h = ground arith

  -- The data-availability gate. With a voting phase on, whatever handlers run before the deadline
  -- of a slot that starts with no vote claimed and not ready, the vote is claimed for the
  -- slot's block if the block is processed, the custody is complete, and the later of the two
  -- instants plus the preparation is within the deadline; otherwise the deadline claims
  -- it for the prior head and emits it then.
  pub gate :
      (slot now : ℕ) (es : List (ℕ × Event)) (ss : SlotState)
      → ss.already_voted ≡ false
      → ready_in_time r ss ≡ false
      → (ss' : SlotState) × (handle_all r slot es (some ss) ≡ some ss')
        × (ss'.already_voted ≡ ready_in_time r ss')
        × (let (end, votes) = deadline_vote r now ss' in
            (end.already_voted ≡ true)
            × (end.voted_for_slot_block ≡ ready_in_time r ss')
            × (votes ≡ (if ready_in_time r ss' then [] else emit_gated now ∷ [])))
  gate slot now es ss fresh early =
      let (ss', e, h) = handle_all-Holds slot es ss (ground arith) in
      (ss', e, h.claimed, deadline_vote_lem now ss' h)
