-- ===== src/Driver/Finality/Emits.antt =====
-- driver/runner.go: the vote and aggregate bursts of a finality round. The bytes of a payload are left
-- out, but for the population that sizes an aggregate.
use eth_slot_sim.Base.{
  ℕ, suc, ◌+◌, ◌≡◌, sym, ap, ◌∙◌, List, [], ◌∷◌, ◌++◌, map, arith, ℤ, if◌then◌else◌, length,
  length-append, append_assoc, append-nil,
}
use eth_slot_sim.Schedule.{AttestDuty}
use eth_slot_sim.Metrics.Ids.{finality_vote_id, finality_aggregate_id}
use eth_slot_sim.Driver.Finality.{Chain, FinalityState, is_subnet, validators_per_cell}
use eth_slot_sim.Driver.Slot.Emits.{Vote, PartialEmit, add_position, unvoted}
use eth_slot_sim.Driver.Slot.Emits.Transport.{sent_count, sent_count-add_position}

abbrev pub finality_vote_for : ℕ → ℕ → AttestDuty → Vote
finality_vote_for num n d = unvoted (finality_vote_id n d.subnet d.val num)

-- `emitFinalityVotes` in the classic transport, under its once-guard.
unfoldable pub emit_finality_votes : ℕ → ℕ → FinalityState → List Vote
emit_finality_votes num n fs = map (finality_vote_for num n) fs.duties

-- One turn of the loop of `emitFinalityVotesPartial`.
unfoldable pub carry_finality : ℕ → ℕ → ℤ → PartialEmit → AttestDuty → PartialEmit
unfolding add_position
carry_finality num n own out d =
    let traced = record out { traced = out.traced ++ finality_vote_for num n d ∷ [] } in
    if is_subnet own d.subnet
    then record traced { stored = out.stored ++ (d.subnet, d.position) ∷ [] }
    else record traced { fanout = add_position d.subnet d.position out.fanout }

unfoldable pub carry_finality_all : ℕ → ℕ → ℤ → PartialEmit → List AttestDuty → PartialEmit
unfolding carry_finality
carry_finality_all num n own out [] = out
carry_finality_all num n own out (d ∷ ds) =
    carry_finality_all num n own (carry_finality num n own out d) ds

unfoldable pub emit_finality_votes_partial : ℕ → ℕ → FinalityState → PartialEmit
unfolding carry_finality_all
emit_finality_votes_partial num n fs =
    carry_finality_all num n fs.own_subnet (record { traced = []; stored = []; fanout = [] })
      fs.duties

-- `emitFinalityAggregate` under its once-guard: each message with the population that sizes it.
unfoldable pub emit_finality_aggregate : Chain → ℕ → FinalityState → List (Vote × ℕ)
unfolding validators_per_cell
emit_finality_aggregate c n fs =
    map (λ s. (unvoted (finality_aggregate_id n s c.num), validators_per_cell c n s))
      fs.aggregate_subnets

carry_finality_lem :
    (num n : ℕ) (own : ℤ) (out : PartialEmit) (d : AttestDuty)
    → let out' = carry_finality num n own out d in
      (out'.traced ≡ out.traced ++ finality_vote_for num n d ∷ [])
      × (length out'.stored + sent_count out'.fanout
          ≡ suc (length out.stored + sent_count out.fanout))
unfolding carry_finality
carry_finality_lem num n own out d = ground (
  arith,
  sent_count-add_position d.subnet d.position out.fanout,
  length-append out.stored ((d.subnet, d.position) ∷ []),
)

record CarriesVotes (num n : ℕ) (ds : List AttestDuty) (out out' : PartialEmit) : Type 0 where
  same_trace : out'.traced ≡ out.traced ++ map (finality_vote_for num n) ds
  each_once :
      length out'.stored + sent_count out'.fanout
      ≡ length ds + (length out.stored + sent_count out.fanout)

carry_finality_all-CarriesVotes :
    (num n : ℕ) (own : ℤ) (out : PartialEmit) (ds : List AttestDuty)
    → CarriesVotes num n ds out (carry_finality_all num n own out ds)
unfolding carry_finality_all
carry_finality_all-CarriesVotes num n own out [] = record {
  same_trace = sym (append-nil out.traced);
  each_once = omega arith;
}
carry_finality_all-CarriesVotes num n own out (d ∷ ds) =
    let (t, k) = carry_finality_lem num n own out d in
    let c = carry_finality_all-CarriesVotes num n own (carry_finality num n own out d) ds in
    record {
      same_trace =
          c.same_trace
          ∙ ap (λ l. l ++ map (finality_vote_for num n) ds) t
          ∙ append_assoc out.traced (finality_vote_for num n d ∷ [])
              (map (finality_vote_for num n) ds);
      each_once = omega (arith, c.each_once, k);
    }

-- The partial transport records the same finality publishes as the classic one, in the same order,
-- and each duty is carried once, in the store of the node or in the batch of a subnet.
pub emit_finality_votes_partial_lem :
    (num n : ℕ) (fs : FinalityState)
    → let out = emit_finality_votes_partial num n fs in
      (out.traced ≡ emit_finality_votes num n fs)
      × (length out.stored + sent_count out.fanout ≡ length fs.duties)
unfolding emit_finality_votes_partial emit_finality_votes
emit_finality_votes_partial_lem num n fs =
    let none_yet : PartialEmit = record { traced = []; stored = []; fanout = [] } in
    let c = carry_finality_all-CarriesVotes num n fs.own_subnet none_yet fs.duties in
    (c.same_trace, omega (arith, c.each_once))
