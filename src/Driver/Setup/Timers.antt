-- ===== src/Driver/Setup/Timers.antt =====
-- driver/runner.go: the set-up of a slot arms its deadline once.
use eth_slot_sim.Base.{
  ℕ, ◌≡◌, refl, ap, ap₂, ◌∙◌, Bool, true, false, List, [], ◌∷◌, ◌++◌, if◌then◌else◌, Bool-cases,
  inl, inr,
}
use eth_slot_sim.Driver.Setup.Slots.{
  Action, block_deadline, dial_duties_of, drop_dials_of, aggregate_of, ptc_vote_of,
  sync_contribution_of, publish_block_of, publish_consensus_block_of, publish_execution_payload_of,
  end_slot_of, arm_finality_of, Timer, timer, when,
}

-- Whether an action is the deadline of the slot.
unfoldable pub is_deadline : Action → Bool
is_deadline block_deadline = true
is_deadline dial_duties_of = false
is_deadline drop_dials_of = false
is_deadline aggregate_of = false
is_deadline ptc_vote_of = false
is_deadline sync_contribution_of = false
is_deadline publish_block_of = false
is_deadline publish_consensus_block_of = false
is_deadline publish_execution_payload_of = false
is_deadline end_slot_of = false
is_deadline arm_finality_of = false

-- The instants that the deadline of a slot is armed for.
unfoldable pub deadlines : List Timer → List ℕ
unfolding is_deadline
deadlines [] = []
deadlines (t ∷ ts) = let rest = deadlines ts in if is_deadline t.action then t.at ∷ rest else rest

pub deadlines-append : (xs ys : List Timer) → deadlines (xs ++ ys) ≡ deadlines xs ++ deadlines ys
unfolding deadlines is_deadline
deadlines-append [] ys = refl
deadlines-append (t ∷ ts) ys = elim (Bool-cases (is_deadline t.action)) [
  | inl e ↦ rw e (ap (λ zs. t.at ∷ zs) (deadlines-append ts ys))
  | inr e ↦ rw e (deadlines-append ts ys)
]

pub deadlines-when :
    (b : Bool) (at : ℕ) (action : Action)
    → is_deadline action ≡ false
    → deadlines (when b (timer at action)) ≡ []
unfolding deadlines is_deadline
deadlines-when true at action e = rw e refl
deadlines-when false at action e = refl

pub deadlines-three :
    (a b c : Bool) (at at' at'' : ℕ)
    → deadlines (
        when a (timer at dial_duties_of)
        ++ when b (timer at' drop_dials_of)
        ++ when c (timer at'' aggregate_of))
      ≡ []
unfolding deadlines is_deadline
deadlines-three true true true at at' at'' = refl
deadlines-three true true false at at' at'' = refl
deadlines-three true false true at at' at'' = refl
deadlines-three true false false at at' at'' = refl
deadlines-three false true true at at' at'' = refl
deadlines-three false true false at at' at'' = refl
deadlines-three false false true at at' at'' = refl
deadlines-three false false false at at' at'' = refl

deadlines-both :
    (xs ys : List Timer) {a b : List ℕ}
    → deadlines xs ≡ a
    → deadlines ys ≡ b
    → deadlines (xs ++ ys) ≡ a ++ b
deadlines-both xs ys e f = deadlines-append xs ys ∙ ap₂ (λ (u v : List ℕ). u ++ v) e f

pub armed_once :
    (votes ptc sync made : List Timer) (d at ends : ℕ)
    → deadlines votes ≡ []
    → deadlines ptc ≡ []
    → deadlines sync ≡ []
    → deadlines made ≡ []
    → d ≡ at
    → deadlines
        (votes ++ ptc ++ sync ++ timer d block_deadline ∷ made ++ timer ends end_slot_of ∷ [])
      ≡ at ∷ []
unfolding deadlines is_deadline
armed_once votes ptc sync made d at ends ev ep es em e =
    let due = timer d block_deadline ∷ made in
    let on_due : deadlines due ≡ at ∷ [] = ap₂ (λ (u : ℕ) (v : List ℕ). u ∷ v) e em in
    let first = deadlines-both votes ptc ev ep in
    let phases = deadlines-both (votes ++ ptc) sync first es in
    deadlines-both (votes ++ ptc ++ sync ++ due) (timer ends end_slot_of ∷ [])
      (deadlines-both (votes ++ ptc ++ sync) due phases on_due) refl
