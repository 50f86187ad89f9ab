-- ===== src/Driver/Setup/Lives.antt =====
-- driver/runner.go: what a slot that is set up starts with.
use eth_slot_sim.Base.{
  ℕ, ◌+◌, ◌<◌, ◌≡◌, refl, ◌∙◌, Bool, true, false, List, [], ◌∷◌, Option, none, some, arith, ltb,
  length, get_elem?, get_elem?-lt, Bool-cases, inl, inr,
}
use eth_slot_sim.Schedule.{View, PtcDuty}
use eth_slot_sim.Driver.Slot.{EpbsParams, SlotState}
use eth_slot_sim.Driver.Setup.{Runner}
use eth_slot_sim.Driver.Setup.Timers.{
  is_deadline, deadlines, deadlines-when, deadlines-three, armed_once,
}
use eth_slot_sim.Driver.Setup.Slots.{
  ptc_vote_of, sync_contribution_of, Timer, Stream, fresh_slot, needs_dial, fill_votes, fill_gate,
  ptc_of, fill_ptc, fill_sync, proposes, proposals, setup_slot,
}

-- What the phases of a set-up leave as it is.
record Keeps (ss ss' : SlotState) : Type 0 where
  deadline : ss'.deadline ≡ ss.deadline
  voted : ss'.already_voted ≡ ss.already_voted
  sync_voted : ss'.sync_already_voted ≡ ss.sync_already_voted

untouched : (ss : SlotState) → Keeps ss ss
untouched ss = record { deadline = refl; voted = refl; sync_voted = refl }

-- The view has a row for the slot in each of its tables.
pub record HasRows (slot : ℕ) (view : View) : Type 0 where
  pub attests : slot < length view.attest_duties
  pub aggregates : slot < length view.aggregate_subnets
  pub ac_votes : slot < length view.ac_vote_duties
  pub sync_aggregates : slot < length view.sync_aggregate_subnets
  pub proposers : slot < length view.proposes

-- A phase returns, and arms no deadline.
abbrev Fills : SlotState → Option (SlotState × List Timer) → Type 0
Fills ss o =
    (out : SlotState × List Timer) × (o ≡ some out) × Keeps ss out.0 × (deadlines out.1 ≡ [])

module _ (r : Runner) (now slot slot_start : ℕ) (rows : HasRows slot r.chain.view) where
  fill_votes-Fills : (ss : SlotState) → Fills ss (fill_votes r now slot slot_start ss)
  unfolding fill_votes deadlines is_deadline
  fill_votes-Fills ss =
      let (duties, on_duties) = get_elem?-lt r.chain.view.attest_duties slot rows.attests in
      let (aggs, on_aggs) = get_elem?-lt r.chain.view.aggregate_subnets slot rows.aggregates in
      let (votes, on_votes) = get_elem?-lt r.chain.view.ac_vote_duties slot rows.ac_votes in
      let dials = needs_dial r.chain.view.subscribed_subnets duties in
      elim (Bool-cases r.phases.attest) [
        | inl e ↦
            rw (e, on_duties, on_aggs)
              (
                _,
                refl,
                record { deadline = refl; voted = refl; sync_voted = refl },
                deadlines-three dials dials (ltb 0 (length aggs)) now
                    (slot_start + r.chain.slot_dur) (slot_start + r.agg_due),
              )
        | inr e ↦ elim (Bool-cases r.phases.decoupled) [
          | inl d ↦
              rw (e, d, on_votes)
                (_, refl, record { deadline = refl; voted = refl; sync_voted = refl }, refl)
          | inr d ↦ rw (e, d) (_, refl, untouched ss, refl)
        ]
      ]

  fill_sync-Fills :
      (ss : SlotState)
      → (out : SlotState × List Timer) × (fill_sync r now slot slot_start ss ≡ some out)
        × Keeps ss out.0
        × (deadlines out.1 ≡ [])
        × (r.phases.sync ≡ true → out.0.sync_member ≡ r.chain.view.sync_member)
  unfolding fill_sync deadlines is_deadline
  fill_sync-Fills ss =
      let (aggs, on_aggs) =
        get_elem?-lt r.chain.view.sync_aggregate_subnets slot rows.sync_aggregates in
      elim (Bool-cases r.phases.sync) [
        | inl e ↦
            rw (e, on_aggs)
              (
                _,
                refl,
                record { deadline = refl; voted = refl; sync_voted = refl },
                deadlines-when (ltb 0 (length aggs)) (slot_start + r.agg_due) sync_contribution_of
                    refl,
                λ h. refl,
              )
        | inr e ↦ rw e (_, refl, untouched ss, refl, λ h. cc)
      ]

  fill_gate-Keeps : (ss : SlotState) → Keeps ss (fill_gate r now slot slot_start ss)
  unfolding fill_gate
  fill_gate-Keeps ss = record { deadline = refl; voted = refl; sync_voted = refl }

  ptc_of-Keeps :
      (o : Option (List PtcDuty)) (ep : EpbsParams) (ss : SlotState)
      → let out = ptc_of r now slot slot_start o ep ss in Keeps ss out.0 × (deadlines out.1 ≡ [])
  unfolding ptc_of deadlines is_deadline
  ptc_of-Keeps none ep ss = (untouched ss, refl)
  ptc_of-Keeps (some duties) ep ss = (
    record { deadline = refl; voted = refl; sync_voted = refl },
    deadlines-when (ltb 0 (length duties)) (slot_start + ep.ptc_due) ptc_vote_of refl,
  )

  fill_ptc-Keeps :
      (epbs : Option EpbsParams) (ss : SlotState)
      → let out = fill_ptc r now slot slot_start epbs ss in Keeps ss out.0 × (deadlines out.1 ≡ [])
  unfolding fill_ptc deadlines is_deadline
  fill_ptc-Keeps none ss = (untouched ss, refl)
  fill_ptc-Keeps (some ep) ss = ptc_of-Keeps (get_elem? r.chain.view.ptc_duties slot) ep ss

  proposals-deadlines :
      (draw : Stream → ℕ → ℕ → ℕ) (b : Bool) (epbs : Option EpbsParams)
      → deadlines (proposals r now slot slot_start draw b epbs) ≡ []
  unfolding proposals deadlines is_deadline
  proposals-deadlines draw false epbs = refl
  proposals-deadlines draw true none = refl
  proposals-deadlines draw true (some ep) = refl

  proposes-returns : (b : Bool) × (proposes r now slot slot_start ≡ some b)
  unfolding proposes
  proposes-returns =
      let (b, on_b) = get_elem?-lt r.chain.view.proposes slot rows.proposers in
      let some_row : ltb 0 (length r.chain.view.proposes) ≡ true = ground (arith, rows.proposers) in
      (b, rw (some_row, on_b) refl)

  -- What a slot that is set up starts with, and when its deadline is armed for.
  pub record IsSetUp (out : SlotState × List Timer) : Type 0 where
    pub deadline : out.0.deadline ≡ slot_start + r.block_due
    pub armed : deadlines out.1 ≡ (slot_start + r.block_due) ∷ []
    pub voted : out.0.already_voted ≡ false
    pub sync_voted : out.0.sync_already_voted ≡ false
    pub member : r.phases.sync ≡ true → out.0.sync_member ≡ r.chain.view.sync_member

  pub setup_slot-IsSetUp :
      (draw : Stream → ℕ → ℕ → ℕ)
      → (out : SlotState × List Timer) × (setup_slot r now slot slot_start draw ≡ some out)
        × IsSetUp out
  unfolding setup_slot fresh_slot deadlines is_deadline
  setup_slot-IsSetUp draw =
      let fresh = fresh_slot (slot_start + r.block_due) in
      let (votes, e1, k1, d1) = fill_votes-Fills fresh in
      let gated = fill_gate r now slot slot_start votes.0 in
      let k2 = fill_gate-Keeps votes.0 in
      let ptc = fill_ptc r now slot slot_start r.phases.epbs gated in
      let (k3, d3) = fill_ptc-Keeps r.phases.epbs gated in
      let (sync, e4, k4, d4, member) = fill_sync-Fills ptc.0 in
      let (proposer, e5) = proposes-returns in
      let made = proposals r now slot slot_start draw proposer r.phases.epbs in
      let at = k4.deadline ∙ (k3.deadline ∙ (k2.deadline ∙ k1.deadline)) in
      rw (e1, e4, e5)
        (
          _,
          refl,
          record {
            deadline = at;
            armed =
                armed_once votes.1 ptc.1 sync.1 made sync.0.deadline (slot_start + r.block_due)
                  (slot_start + r.chain.slot_dur) d1 d3 d4
                  (proposals-deadlines draw proposer r.phases.epbs) at;
            voted = k4.voted ∙ (k3.voted ∙ (k2.voted ∙ k1.voted));
            sync_voted = k4.sync_voted ∙ (k3.sync_voted ∙ (k2.sync_voted ∙ k1.sync_voted));
            member = member;
          },
        )
