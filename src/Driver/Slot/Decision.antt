-- ===== src/Driver/Slot/Decision.antt =====
-- driver/runner.go: what the claim of a slot's vote records, under every interleaving.
use eth_slot_sim.Base.{
  ℕ, ◌+◌, ◌≤◌, ◌≡◌, refl, ◌∙◌, Bool, true, false, ◌&&◌, ◌||◌, List, [], ◌∷◌, arith,
}
use eth_slot_sim.Driver.Slot.{
  Phases, SlotState, Section, block_arrives, column_arrives, payload_arrives, columns_held,
  custody_held, early_vote, early_sync, deadline_gated, deadline_sync_message, run_section,
  later_of,
}
use eth_slot_sim.Driver.Slot.Claims.{run_sections, gated_count, sync_count, run_sections-count}

abbrev is_gated_deadline : Section → Bool
is_gated_deadline deadline_gated = true
is_gated_deadline _ = false

abbrev is_sync_deadline : Section → Bool
is_sync_deadline deadline_sync_message = true
is_sync_deadline _ = false

abbrev pub passes_gated : List (ℕ × Section) → Bool
passes_gated [] = false
passes_gated ((now, s) ∷ rest) = is_gated_deadline s || passes_gated rest

abbrev pub passes_sync : List (ℕ × Section) → Bool
passes_sync [] = false
passes_sync ((now, s) ∷ rest) = is_sync_deadline s || passes_sync rest

-- What a section leaves alone, and what it settles for good.
record Settles (r : Phases) (s : Section) (ss ss' : SlotState) : Type 0 where
  member_kept : ss'.sync_member ≡ ss.sync_member
  deadline_kept : ss'.deadline ≡ ss.deadline
  voted_rises : ss.already_voted ≡ true → ss'.already_voted ≡ true
  sync_rises : ss.sync_already_voted ≡ true → ss'.sync_already_voted ≡ true
  gated_votes :
      is_gated_deadline s ≡ true → r.attest || r.decoupled ≡ true → ss'.already_voted ≡ true
  sync_votes :
      is_sync_deadline s ≡ true → r.sync && ss.sync_member ≡ true → ss'.sync_already_voted ≡ true
  vote_fixed : ss.already_voted ≡ true → ss'.voted_for_slot_block ≡ ss.voted_for_slot_block
  sync_fixed :
      ss.sync_already_voted ≡ true → ss'.sync_voted_for_slot_block ≡ ss.sync_voted_for_slot_block
  seen_fixed :
      ss.block_seen ≡ true
      → (ss'.block_seen ≡ true)
        × (ss'.block_seen_at ≡ ss.block_seen_at)
        × (ss'.block_seen_origin ≡ ss.block_seen_origin)
  complete_fixed :
      ss.columns_complete ≡ true
      → (ss'.columns_complete ≡ true) × (ss'.columns_complete_at ≡ ss.columns_complete_at)

run_section-Settles :
    (r : Phases) (now : ℕ) (s : Section) (ss : SlotState)
    → Settles r s ss (run_section r now s ss).0
unfolding run_section
run_section-Settles r now (block_arrives origin at) ss = ground arith
run_section-Settles r now (column_arrives col at) ss = ground arith
run_section-Settles r now (payload_arrives at) ss = ground arith
run_section-Settles r now (columns_held at) ss = ground arith
run_section-Settles r now custody_held ss = ground arith
run_section-Settles r now early_vote ss = ground arith
run_section-Settles r now early_sync ss = ground arith
run_section-Settles r now deadline_gated ss = ground arith
run_section-Settles r now deadline_sync_message ss = ground arith

-- A block vote was claimed only with the block processed, the custody complete, and the later of
-- the two instants plus the preparation within the deadline; a head vote, only with the
-- block processed so.
pub record IsSound (r : Phases) (ss : SlotState) : Type 0 where
  pub gated :
      ss.already_voted ≡ true
      → ss.voted_for_slot_block ≡ true
      → (ss.block_seen ≡ true)
        × (ss.columns_complete ≡ true)
        × (later_of ss.block_seen_at ss.columns_complete_at + r.prep ≤ ss.deadline)
  pub head :
      ss.sync_already_voted ≡ true
      → ss.sync_voted_for_slot_block ≡ true
      → (ss.block_seen ≡ true) × (ss.block_seen_at + r.prep ≤ ss.deadline)

run_section-IsSound :
    (r : Phases) (now : ℕ) (s : Section) (ss : SlotState)
    → IsSound r ss
    → IsSound r (run_section r now s ss).0
unfolding run_section
run_section-IsSound r now (block_arrives origin at) ss h = ground arith
run_section-IsSound r now (column_arrives col at) ss h = ground arith
run_section-IsSound r now (payload_arrives at) ss h = ground arith
run_section-IsSound r now (columns_held at) ss h = ground arith
run_section-IsSound r now custody_held ss h = ground arith
run_section-IsSound r now early_vote ss h = ground arith
run_section-IsSound r now early_sync ss h = ground arith
run_section-IsSound r now deadline_gated ss h = ground arith
run_section-IsSound r now deadline_sync_message ss h = ground arith

-- In every interleaving from a sound state, such as a slot's first, each vote that is claimed for
-- the slot's block had the block, and for the gated vote the custody, in time for the deadline.
pub run_sections-IsSound :
    (r : Phases) (trace : List (ℕ × Section)) (ss : SlotState)
    → IsSound r ss
    → IsSound r (run_sections r trace ss).0
unfolding run_sections
run_sections-IsSound r [] ss h = h
run_sections-IsSound r ((now, s) ∷ rest) ss h =
    run_sections-IsSound r rest (run_section r now s ss).0 (run_section-IsSound r now s ss h)

run_sections-rises :
    (r : Phases) (trace : List (ℕ × Section)) (ss : SlotState)
    → (ss.already_voted ≡ true → (run_sections r trace ss).0.already_voted ≡ true)
      × (ss.sync_already_voted ≡ true → (run_sections r trace ss).0.sync_already_voted ≡ true)
run_sections-rises r trace ss = ground (arith, run_sections-count r trace ss)

run_sections-deadline :
    (r : Phases) (trace : List (ℕ × Section)) (ss : SlotState)
    → (passes_gated trace ≡ true
        → r.attest || r.decoupled ≡ true
        → (run_sections r trace ss).0.already_voted ≡ true)
      × (passes_sync trace ≡ true
          → r.sync && ss.sync_member ≡ true
          → (run_sections r trace ss).0.sync_already_voted ≡ true)
unfolding run_sections
run_sections-deadline r [] ss = (λ e. absurd (cc), λ e. absurd (cc))
run_sections-deadline r ((now, s) ∷ rest) ss =
    let ss1 = (run_section r now s ss).0 in
    ground (
      arith,
      run_section-Settles r now s ss,
      run_sections-deadline r rest ss1,
      run_sections-rises r rest ss1,
    )

-- Once the deadline of a slot has passed, in whatever order the sections ran, a node that starts
-- the slot without a claim has emitted exactly one vote if a voting phase is on, and exactly one
-- sync message if it is a member and the sync phase is on.
pub run_sections_exactly_once :
    (r : Phases) (trace : List (ℕ × Section)) (ss : SlotState)
    → ss.already_voted ≡ false
    → ss.sync_already_voted ≡ false
    → passes_gated trace ≡ true
    → passes_sync trace ≡ true
    → let (ss', es) = run_sections r trace ss in
      (r.attest || r.decoupled ≡ true → gated_count es ≡ 1)
      × (r.sync && ss.sync_member ≡ true → sync_count es ≡ 1)
run_sections_exactly_once r trace ss f g p q =
    ground (arith, run_sections-count r trace ss, run_sections-deadline r trace ss)

-- Once a vote is claimed, no later section in any interleaving changes what it is for, nor, for a
-- vote on the slot's block, the origin that the emission reads.
pub run_sections-fixed :
    (r : Phases) (trace : List (ℕ × Section)) (ss : SlotState)
    → ss.already_voted ≡ true
    → ss.block_seen ≡ true
    → let ss' = (run_sections r trace ss).0 in
      (ss'.already_voted ≡ true)
      × (ss'.voted_for_slot_block ≡ ss.voted_for_slot_block)
      × (ss'.block_seen_origin ≡ ss.block_seen_origin)
unfolding run_sections
run_sections-fixed r [] ss h b = (h, refl, refl)
run_sections-fixed r ((now, s) ∷ rest) ss h b =
    let ss1 = (run_section r now s ss).0 in
    let k = run_section-Settles r now s ss in
    let (v, f, o) = run_sections-fixed r rest ss1 (k.voted_rises h) (k.seen_fixed b).0 in
    (v, f ∙ k.vote_fixed h, o ∙ (k.seen_fixed b).2)
