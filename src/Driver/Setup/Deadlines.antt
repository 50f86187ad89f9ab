-- ===== src/Driver/Setup/Deadlines.antt =====
-- driver/runner.go: a round's aggregates and its teardown are armed for an instant inside the round.
use eth_slot_sim.Base.{
  bit, ◌||◌, ◌∙◌, if◌then◌else◌, ℕ, ◌+◌, ◌*◌, ◌/◌, ◌%◌, ◌≤◌, ◌<◌, ◌≡◌, refl, Bool, true, false,
  ◌&&◌, List, ◌++◌, some, arith, ltb, ◌==◌, Bool-cases, inl, inr,
}
use native.Mathlib.Nat.{mul-le-mul_right}
use eth_slot_sim.Driver.Finality.{Chain, find}
use eth_slot_sim.Driver.Setup.Instants.{round_fraction}
use eth_slot_sim.Driver.Setup.Rounds.{
  prejoin_round, RoundAction, RoundTimer, round_timer, arm_slot, arm_if, arm_state, arm_finality,
  arm_finality_sub_round, seal_grace,
}
use eth_slot_sim.Driver.Setup.Inside.{
  AreInside, AreInside-append, AreInside-arm_if, other_prejoin, arm_state-AreInside,
}
use eth_slot_sim.Driver.Setup.Armed.{
  is_aggregate_of, is_drop_of, armed, armed-append, armed-arm_if, has_aggregates, has_teardown,
  arm_state-armed,
}

segregated_due :
    (c : Chain) (slot_start : ℕ)
    → 0 < c.slot_dur
    → round_fraction c < 100
    → c.segregated ≡ true
    → slot_start + c.round_agg_fraction * c.slot_dur / 100 < slot_start + c.slot_dur
segregated_due c slot_start lasts under seg =
    let f : c.round_agg_fraction ≤ 99 = ground (arith, under, seg) in
    omega (arith, mul-le-mul_right c.slot_dur f)

base_due :
    (c : Chain) (slot_start : ℕ)
    → 0 < c.slot_dur
    → round_fraction c < 100
    → 0 < c.finality_round_size
    → c.segregated ≡ false
    → slot_start + c.fc_agg_fraction * c.finality_round_size * c.slot_dur / 100
      < slot_start + c.finality_round_size * c.slot_dur
base_due c slot_start lasts under positive base =
    let k = c.finality_round_size in
    let f : c.fc_agg_fraction ≤ 99 = ground (arith, under, base) in
    let most = mul-le-mul_right c.slot_dur (mul-le-mul_right k f) in
    let some_time = mul-le-mul_right c.slot_dur positive in omega (arith, most, some_time)

-- What a slot arms: aggregates and teardowns inside the round, and one of each where it is due.
pub record ArmsRound (c : Chain) (start end n : ℕ) (opens : Bool) (ts : List RoundTimer)
    : Type 0 where
  pub inside : AreInside start end ts
  pub aggregates :
      (m : ℕ)
      → armed (is_aggregate_of m) ts ≡ bit (opens && (n == m && has_aggregates (find n c.finals)))
  pub teardowns :
      (m : ℕ)
      → armed (is_drop_of m) ts ≡ bit (opens && (n == m && has_teardown c (find n c.finals)))

prejoin_then-ArmsRound :
    (c : Chain) (start end n votes_at due seal_at now key : ℕ) (b : Bool)
    → start ≤ due
    → due < end
    → ArmsRound c start end n true (
        arm_if b (round_timer now (prejoin_round key))
        ++ arm_state c n votes_at due seal_at (find n c.finals))
prejoin_then-ArmsRound c start end n votes_at due seal_at now key b le lt =
    let next = arm_if b (round_timer now (prejoin_round key)) in
    let rest = arm_state c n votes_at due seal_at (find n c.finals) in
    let count : (is_it : RoundAction → Bool)
        → is_it (prejoin_round key) ≡ false
        → armed is_it (next ++ rest) ≡ armed is_it rest =
      λ is_it other. ground (
        arith,
        armed-append is_it next rest,
        armed-arm_if is_it b (round_timer now (prejoin_round key)),
        other,
      ) in
    record {
      inside =
          AreInside-append start end next rest
            (AreInside-arm_if start end b (round_timer now (prejoin_round key))
              (other_prejoin start end now key))
            (arm_state-AreInside start end c n votes_at due seal_at (find n c.finals) le lt);
      aggregates = λ m.
          count (is_aggregate_of m) refl
          ∙ (arm_state-armed c n votes_at due seal_at m (find n c.finals)).0;
      teardowns = λ m.
          count (is_drop_of m) refl
          ∙ (arm_state-armed c n votes_at due seal_at m (find n c.finals)).1;
    }

prejoin_only-ArmsRound :
    (c : Chain) (start end n now key : ℕ) (b : Bool)
    → ArmsRound c start end n false (arm_if b (round_timer now (prejoin_round key)))
prejoin_only-ArmsRound c start end n now key b = record {
  inside =
      AreInside-arm_if start end b (round_timer now (prejoin_round key))
        (other_prejoin start end now key);
  aggregates =
      λ m. ground (arith, armed-arm_if (is_aggregate_of m) b (round_timer now (prejoin_round key)));
  teardowns =
      λ m. ground (arith, armed-arm_if (is_drop_of m) b (round_timer now (prejoin_round key)));
}

-- The round of a slot, whether the slot is its first, and how long it lasts.
abbrev pub round_at : Chain → ℕ → ℕ
round_at c slot = if c.segregated then slot else slot / c.finality_round_size

abbrev pub opens_round : Chain → ℕ → Bool
opens_round c slot = c.segregated || slot % c.finality_round_size == 0

abbrev pub round_length : Chain → ℕ
round_length c = if c.segregated then c.slot_dur else c.finality_round_size * c.slot_dur

arm_shape :
    (c : Chain) (now slot slot_start : ℕ) (b : Bool)
    → c.segregated ≡ b
    → 0 < c.slot_dur
    → round_fraction c < 100
    → b || ltb 0 c.finality_round_size ≡ true
    → let k = c.finality_round_size in
      (ts : List RoundTimer) × ((if b
          then some (arm_finality_sub_round c now slot slot_start)
          else arm_finality c now slot slot_start)
        ≡ some ts)
      × ArmsRound c slot_start
          (slot_start + (if b then c.slot_dur else k * c.slot_dur))
          (if b then slot else slot / k)
          (b || slot % k == 0)
          ts
unfolding arm_finality arm_finality_sub_round
arm_shape c now slot slot_start true seg lasts under positive =
    let due = slot_start + c.round_agg_fraction * c.slot_dur / 100 in
    (
      _,
      refl,
      prejoin_then-ArmsRound c slot_start (slot_start + c.slot_dur) slot
          (slot_start + c.fc_vote_offset) due (due + seal_grace) now (slot + 1) true (omega arith)
          (segregated_due c slot_start lasts under seg),
    )
arm_shape c now slot slot_start false base lasts under positive =
    let k = c.finality_round_size in
    let end = slot_start + k * c.slot_dur in
    let due = slot_start + c.fc_agg_fraction * k * c.slot_dur / 100 in
    let some_slots : 0 < k = ground (arith, positive) in
    let not_zero : (k == 0) ≡ false = ground (arith, some_slots) in
    let next = (slot + 1) % k == 0 in
    elim (Bool-cases (slot % k == 0)) [
      | inl e ↦
          rw (not_zero, e)
            (
              _,
              refl,
              prejoin_then-ArmsRound c slot_start end (slot / k) (slot_start + c.fc_vote_offset) due
                  due now ((slot + 1) / k) next (omega arith)
                  (base_due c slot_start lasts under some_slots base),
            )
      | inr e ↦
          rw (not_zero, e)
            (_, refl, prejoin_only-ArmsRound c slot_start end (slot / k) now ((slot + 1) / k) next)
    ]

-- With a slot that lasts and a fraction under 100, and in the base shape a round of some slots, the
-- timers of a slot are returned. In the first slot of a round that the node has joined they have
-- one burst of aggregates if it aggregates a subnet, and one teardown if the plan has finality
-- aggregators and the round's pre-join set up anything; there is none for another round, and none in
-- another slot. Each is armed for an instant of that round, from its start on and before its end.
pub arm_slot-ArmsRound :
    (c : Chain) (now slot slot_start : ℕ)
    → 0 < c.slot_dur
    → round_fraction c < 100
    → c.segregated || ltb 0 c.finality_round_size ≡ true
    → (ts : List RoundTimer) × (arm_slot c now slot slot_start ≡ some ts)
      × ArmsRound c slot_start
          (slot_start + round_length c)
          (round_at c slot)
          (opens_round c slot)
          ts
unfolding arm_slot
arm_slot-ArmsRound c now slot slot_start lasts under positive =
    arm_shape c now slot slot_start c.segregated refl lasts under positive
