-- ===== src/Driver/Slot/Claims.antt =====
-- driver/runner.go: the claim of a slot's vote, under every interleaving of the critical sections.
use eth_slot_sim.Base.{ℕ, suc, ◌+◌, ◌≤◌, ◌≡◌, Bool, true, List, [], ◌∷◌, ◌++◌, arith, if◌then◌else◌}
use eth_slot_sim.Driver.Slot.{
  Phases, SlotState, Emission, emit_gated, emit_sync_message, Section, block_arrives,
  column_arrives, payload_arrives, columns_held, custody_held, early_vote, early_sync,
  deadline_gated, deadline_sync_message, run_section,
}

-- Sections one after the other, each with the instant at which it runs.
unfoldable pub run_sections : Phases → List (ℕ × Section) → SlotState → SlotState × List Emission
run_sections r [] ss = (ss, [])
run_sections r ((now, s) ∷ rest) ss =
    let (ss1, now_emits) = run_section r now s ss in
    let (ss2, later_emits) = run_sections r rest ss1 in (ss2, now_emits ++ later_emits)

abbrev pub gated_count : List Emission → ℕ
gated_count [] = 0
gated_count (emit_gated at ∷ es) = suc (gated_count es)
gated_count (emit_sync_message at ∷ es) = gated_count es

abbrev pub sync_count : List Emission → ℕ
sync_count [] = 0
sync_count (emit_gated at ∷ es) = sync_count es
sync_count (emit_sync_message at ∷ es) = suc (sync_count es)

gated_count-append :
    (xs ys : List Emission) → gated_count (xs ++ ys) ≡ gated_count xs + gated_count ys
gated_count-append [] ys = omega arith
gated_count-append (emit_gated at ∷ xs) ys = omega (arith, gated_count-append xs ys)
gated_count-append (emit_sync_message at ∷ xs) ys = gated_count-append xs ys

sync_count-append : (xs ys : List Emission) → sync_count (xs ++ ys) ≡ sync_count xs + sync_count ys
sync_count-append [] ys = omega arith
sync_count-append (emit_gated at ∷ xs) ys = sync_count-append xs ys
sync_count-append (emit_sync_message at ∷ xs) ys = omega (arith, sync_count-append xs ys)

abbrev pub bit : Bool → ℕ
bit b = if b then 1 else 0

-- The state of a claim only rises, and it rises exactly with an emission.
run_section-count :
    (r : Phases) (now : ℕ) (s : Section) (ss : SlotState)
    → let (ss', es) = run_section r now s ss in
      (gated_count es + bit ss.already_voted ≡ bit ss'.already_voted)
      × (sync_count es + bit ss.sync_already_voted ≡ bit ss'.sync_already_voted)
unfolding run_section
run_section-count r now (block_arrives origin at) ss = ground arith
run_section-count r now (column_arrives col at) ss = ground arith
run_section-count r now (payload_arrives at) ss = ground arith
run_section-count r now (columns_held at) ss = ground arith
run_section-count r now custody_held ss = ground arith
run_section-count r now early_vote ss = ground arith
run_section-count r now early_sync ss = ground arith
run_section-count r now deadline_gated ss = ground arith
run_section-count r now deadline_sync_message ss = ground arith

pub run_sections-count :
    (r : Phases) (trace : List (ℕ × Section)) (ss : SlotState)
    → let (ss', es) = run_sections r trace ss in
      (gated_count es + bit ss.already_voted ≡ bit ss'.already_voted)
      × (sync_count es + bit ss.sync_already_voted ≡ bit ss'.sync_already_voted)
unfolding run_sections
run_sections-count r [] ss = ground arith
run_sections-count r ((now, s) ∷ rest) ss =
    let (ss1, es1) = run_section r now s ss in
    let (ss2, es2) = run_sections r rest ss1 in
    omega (
      arith,
      run_section-count r now s ss,
      run_sections-count r rest ss1,
      gated_count-append es1 es2,
      sync_count-append es1 es2,
    )

-- In every interleaving of the sections of a slot, from any state, at most one attestation or
-- availability vote is emitted and at most one sync message, and none once it was claimed.
pub run_sections_once :
    (r : Phases) (trace : List (ℕ × Section)) (ss : SlotState)
    → let (ss', es) = run_sections r trace ss in
      (gated_count es ≤ 1)
      × (sync_count es ≤ 1)
      × (ss.already_voted ≡ true → gated_count es ≡ 0)
      × (ss.sync_already_voted ≡ true → sync_count es ≡ 0)
run_sections_once r trace ss = ground (arith, run_sections-count r trace ss)
