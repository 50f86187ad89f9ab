-- ===== src/Driver/Resolver/Identities.antt =====
-- driver/partial.go and schedule: the resolver gives back the voter of each finality duty.
use mathlib.Core.Option.{some-injective}
use eth_slot_sim.Base.{
  ℕ, zero, suc, ◌+◌, ◌<◌, ◌≡◌, refl, sym, ◌∙◌, true, List, [], ◌∷◌, some, arith, pos, length,
  get_elem?, get_elem?-some-lt,
}
use eth_slot_sim.Schedule.{Assignment, AttestDuty, AttesterRef}
use eth_slot_sim.Schedule.Position.{round, round_of_val}
use eth_slot_sim.Schedule.Position.Ranks.{Votes}
use eth_slot_sim.Schedule.Position.Total.{IsRanked}
use eth_slot_sim.Schedule.Position.RoundTrip.{finality_val_at-finality_position}
use eth_slot_sim.Schedule.Duties.{includes, finality_vote_duties}
use eth_slot_sim.Schedule.Duties.Hosting.{nodes_of, hosted-host_of}
use eth_slot_sim.Schedule.Duties.Votes.{is_in_round, finality_vote_duties_lem}
use eth_slot_sim.Node.Kinds.{finality_vote, attestation}
use eth_slot_sim.Driver.Resolver.{committee, committee_size, identity, hosted_at, seat_at}

-- A validator that is included in the round of a key has that round.
includes-round :
    (a : Assignment) (slot k val : ℕ)
    → round a slot ≡ some k
    → is_in_round a k val ≡ true
    → round_of_val a val ≡ some k
unfolding round includes round_of_val
includes-round a slot k val e h = ground arith

-- Each finality duty of a node, on a plan whose validators all have a round, has a position
-- below the committee size that the resolver states for its subnet and round key, and the
-- resolver recovers from that position the validator of the duty and the node itself.
pub identity-finality_vote_duties :
    (a : Assignment) (node slot : ℕ) (ds : List AttestDuty) (i : ℕ) (d : AttestDuty)
    → IsRanked a
    → node < nodes_of a
    → finality_vote_duties a node slot ≡ some ds
    → get_elem? ds i ≡ some d
    → (p : ℕ) × (size : ℕ) × (d.position ≡ pos p)
      × (committee_size a finality_vote d.subnet slot ≡ some size)
      × (p < size)
      × (identity a finality_vote d.subnet slot p ≡ some (pos d.val, pos node))
unfolding committee_size identity hosted_at
identity-finality_vote_duties a node slot ds i d w h e g =
    let (k, vals, ek, ev, _, each) = finality_vote_duties_lem a node slot ds e in
    let duty = each i d g in
    let (vals', ev', hosts) = hosted-host_of a node h in
    let same : vals ≡ vals' = some-injective vals vals' (sym ev ∙ ev') in
    let v : Votes a d.val d.subnet k = record {
      on = duty.drawn;
      during = includes-round a slot k d.val ek duty.during;
    } in
    let (p, size, at, cell, lt, back) =
      finality_val_at-finality_position a d.val d.subnet k slot w v ek in
    let host = ((hosts d.val).0 (rw same at duty.owner)).1 in
    (
      p,
      size,
      some-injective d.position (pos p) (sym duty.ranked ∙ at),
      cell,
      lt,
      ground (arith, back, host),
    )

-- Seats that are numbered from `start` in order.
abbrev pub IsNumbered : ℕ → List AttesterRef → Type 0
IsNumbered start seats =
    (j : ℕ) (r : AttesterRef) → get_elem? seats j ≡ some r → r.position ≡ start + j

seat_at-numbered :
    (seats : List AttesterRef) (start i : ℕ) (r : AttesterRef)
    → IsNumbered start seats
    → get_elem? seats i ≡ some r
    → seat_at seats (start + i) ≡ (pos r.val, pos r.node)
unfolding seat_at
seat_at-numbered [] start i r n g = absurd (cc)
seat_at-numbered (s ∷ seats) start zero r n g = ground (arith, n 0 s refl)
seat_at-numbered (s ∷ seats) start (suc i) r n g =
    let rest : IsNumbered (suc start) seats = λ j x e. omega (arith, n (suc j) x e) in
    ground (arith, n 0 s refl, seat_at-numbered seats (suc start) i r rest g)

-- In a committee whose seats are numbered in order, each seat's index is below the committee
-- size that the resolver states, and the resolver recovers from it the validator and the
-- node of the seat.
pub identity-committee :
    (a : Assignment) (subnet group i : ℕ) (seats : List AttesterRef) (r : AttesterRef)
    → committee a subnet group ≡ some seats
    → IsNumbered 0 seats
    → get_elem? seats i ≡ some r
    → (size : ℕ) × (committee_size a attestation subnet group ≡ some size)
      × (i < size)
      × (identity a attestation subnet group i ≡ some (pos r.val, pos r.node))
unfolding committee_size identity
identity-committee a subnet group i seats r e n g = (
  length seats,
  ground (arith, e),
  get_elem?-some-lt seats i g,
  ground (arith, e, seat_at-numbered seats 0 i r n g),
)
