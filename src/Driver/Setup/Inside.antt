-- ===== src/Driver/Setup/Inside.antt =====
-- driver/runner.go: what a round arms is armed for an instant inside the round.
use eth_slot_sim.Base.{
  ℕ, zero, suc, ◌≤◌, ◌<◌, ◌≡◌, subst, Bool, true, false, ◌&&◌, List, [], ◌∷◌, ◌++◌, Option, none,
  some, some-injective, ltb, length, get_elem?, inl, inr, ◌⊎◌,
}
use eth_slot_sim.Driver.Finality.{Chain, FinalityState, has_prejoin_state}
use eth_slot_sim.Driver.Setup.Rounds.{
  prejoin_round, emit_votes_of, emit_aggregate_of, drop_round, seal_round, RoundTimer, round_timer,
  arm_if, arm_state,
}

-- An aggregate burst or a teardown runs inside a span of time.
abbrev IsInside : ℕ → ℕ → RoundTimer → Type 0
IsInside start end t =
    (n : ℕ)
    → (t.action ≡ emit_aggregate_of n) ⊎ (t.action ≡ drop_round n)
    → (start ≤ t.at) × (t.at < end)

abbrev pub AreInside : ℕ → ℕ → List RoundTimer → Type 0
AreInside start end ts = (i : ℕ) (t : RoundTimer) → get_elem? ts i ≡ some t → IsInside start end t

pub AreInside-append :
    (start end : ℕ) (xs ys : List RoundTimer)
    → AreInside start end xs
    → AreInside start end ys
    → AreInside start end (xs ++ ys)
AreInside-append start end [] ys h k i t e = k i t e
AreInside-append start end (x ∷ xs) ys h k zero t e = h zero t e
AreInside-append start end (x ∷ xs) ys h k (suc i) t e =
    AreInside-append start end xs ys (λ j. h (suc j)) k i t e

AreInside-one :
    (start end : ℕ) (t : RoundTimer) → IsInside start end t → AreInside start end (t ∷ [])
AreInside-one start end t h zero u e = subst (IsInside start end) (some-injective t u e) h
AreInside-one start end t h (suc i) u e = cc

pub AreInside-arm_if :
    (start end : ℕ) (b : Bool) (t : RoundTimer)
    → IsInside start end t
    → AreInside start end (arm_if b t)
AreInside-arm_if start end true t h = AreInside-one start end t h
AreInside-arm_if start end false t h = λ i u e. cc

other_votes : (start end at n : ℕ) → IsInside start end (round_timer at (emit_votes_of n))
other_votes start end at n m (inl e) = absurd (cc)
other_votes start end at n m (inr e) = absurd (cc)

pub other_prejoin : (start end at n : ℕ) → IsInside start end (round_timer at (prejoin_round n))
other_prejoin start end at n m (inl e) = absurd (cc)
other_prejoin start end at n m (inr e) = absurd (cc)

other_seal : (start end at n : ℕ) → IsInside start end (round_timer at (seal_round n))
other_seal start end at n m (inl e) = absurd (cc)
other_seal start end at n m (inr e) = absurd (cc)

pub arm_state-AreInside :
    (start end : ℕ) (c : Chain) (n votes_at due seal_at : ℕ) (o : Option FinalityState)
    → start ≤ due
    → due < end
    → AreInside start end (arm_state c n votes_at due seal_at o)
unfolding arm_state
arm_state-AreInside start end c n votes_at due seal_at none le lt = λ i t e. cc
arm_state-AreInside start end c n votes_at due seal_at (some fs) le lt =
    let aggs = ltb 0 (length fs.aggregate_subnets) in
    let drops = c.view.has_finality_aggregators && has_prejoin_state fs in
    let seals = c.partial && c.view.has_finality_aggregators in
    let on_aggs =
      AreInside-arm_if start end aggs (round_timer due (emit_aggregate_of n)) (λ m h. (le, lt)) in
    let on_drops =
      AreInside-arm_if start end drops (round_timer due (drop_round n)) (λ m h. (le, lt)) in
    let on_seals =
      AreInside-arm_if start end seals (round_timer seal_at (seal_round n))
        (other_seal start end seal_at n) in
    let votes = round_timer votes_at (emit_votes_of n) in
    let on_votes = AreInside-one start end votes (other_votes start end votes_at n) in
    AreInside-append start end (votes ∷ []) _ on_votes
      (AreInside-append start end _ _ (AreInside-append start end _ _ on_aggs on_drops) on_seals)
