-- ===== src/Driver/Setup/Fanout.antt =====
-- driver/runner.go: `dialDuties` joins what a slot's attestations need, and dials only extra peers.
use eth_slot_sim.Base.{
  ℕ, zero, suc, ◌≤◌, ◌≡◌, refl, ap, Bool, true, not, ◌||◌, List, [], ◌∷◌, map, some, some-injective,
  arith, ◌==◌, ==_iff, subst, get_elem?, contains, bit, occurrences, Bool-cases, inl, inr,
}
use eth_slot_sim.Schedule.{AttestDuty}
use eth_slot_sim.Driver.Finality.Dials.{is_kept_out, dial_subnets-AreExtra}
use eth_slot_sim.Driver.Slot.{Phases, SlotState}
use eth_slot_sim.Driver.Slot.Emits.{attestation_for, emit, emit_duties}
use eth_slot_sim.Driver.Setup.{Runner}
use eth_slot_sim.Driver.Setup.Dialing.{fanout_subnets, dial_duties}

same_subnet : (xs : List ℕ) (a b : ℕ) → (a == b) ≡ true → contains xs a ≡ contains xs b
same_subnet xs a b h = ap (contains xs) ((==_iff a b).0 h)

covered_cons :
    (x : AttestDuty) (ds : List AttestDuty) (p : ℕ → Bool)
    → p x.subnet ≡ true
    → ((k : ℕ) (d : AttestDuty) → get_elem? ds k ≡ some d → p d.subnet ≡ true)
    → (k : ℕ) (d : AttestDuty) → get_elem? (x ∷ ds) k ≡ some d
    → p d.subnet ≡ true
covered_cons x ds p h rest zero d e = subst (λ y. p y.subnet ≡ true) (some-injective x d e) h
covered_cons x ds p h rest (suc k) d e = rest k d e

-- The subnets that are joined, each once, none of them subscribed or seen; and each duty has one.
fanout_subnets_lem :
    (subscribed seen : List ℕ) (ds : List AttestDuty)
    → let out = fanout_subnets subscribed seen ds in
      ((s : ℕ) → occurrences s out ≤ bit (not (contains subscribed s || contains seen s)))
      × ((k : ℕ) (d : AttestDuty)
          → get_elem? ds k ≡ some d
          → contains subscribed d.subnet || (contains seen d.subnet || contains out d.subnet)
            ≡ true)
unfolding fanout_subnets
fanout_subnets_lem subscribed seen [] = (λ s. omega arith, λ k d e. cc)
fanout_subnets_lem subscribed seen (x ∷ ds) =
    elim (Bool-cases (contains subscribed x.subnet || contains seen x.subnet)) [
      | inl skip ↦
          let (once, covered) = fanout_subnets_lem subscribed seen ds in
          let out = fanout_subnets subscribed seen ds in
          rw skip (
            once,
            covered_cons x ds (λ s. contains subscribed s || (contains seen s || contains out s))
                (ground (arith, skip)) covered,
          )
      | inr take_it ↦
          let (once, covered) = fanout_subnets_lem subscribed (x.subnet ∷ seen) ds in
          let out = fanout_subnets subscribed (x.subnet ∷ seen) ds in
          rw take_it (
            λ s. ground (
              arith,
              take_it,
              once s,
              same_subnet subscribed x.subnet s,
              same_subnet seen x.subnet s,
            ),
            covered_cons x ds
                (λ s.
                  contains subscribed s || (contains seen s || (x.subnet == s || contains out s)))
                (ground arith) (λ k d e. ground (arith, covered k d e)),
          )
    ]

emit_duties_all :
    (r : Phases) (slot : ℕ) (ss : SlotState) (joins : ℕ → Bool) (ds : List AttestDuty)
    → ((k : ℕ) (d : AttestDuty) → get_elem? ds k ≡ some d → joins d.subnet ≡ true)
    → emit_duties r slot ss joins ds ≡ map (attestation_for r slot ss) ds
unfolding emit_duties
emit_duties_all r slot ss joins [] h = refl
emit_duties_all r slot ss joins (d ∷ ds) h = rw (h 0 d refl) (
    ap (λ vs. attestation_for r slot ss d ∷ vs)
      (emit_duties_all r slot ss joins ds (λ k. h (suc k))))

-- Whatever order the seed gives to the subscribers: once the fan-out subnets of a slot are joined
-- beside the subscribed ones, the emission has one attestation for each duty, in order; no
-- subnet is joined twice, nor one that is subscribed; and no peer is dialed twice, nor the node
-- itself or a long-lived peer.
pub dial_duties-emit :
    (r : Runner) (slot : ℕ) (shuffled : ℕ → List ℕ) (ss : SlotState)
    → let subscribed = ss.attestation_subnets_subscribed in
      let (subnets, dialed) = dial_duties r shuffled ss in
      (emit r.phases slot ss (λ s. contains subscribed s || contains subnets s)
        ≡ map (attestation_for r.phases slot ss) ss.attestation_duties)
      × ((s : ℕ) → occurrences s subnets ≤ bit (not (contains subscribed s)))
      × ((p : ℕ) → occurrences p dialed ≤ bit (not (is_kept_out r.chain p)))
unfolding dial_duties emit
dial_duties-emit r slot shuffled ss =
    let subscribed = ss.attestation_subnets_subscribed in
    let subnets = fanout_subnets subscribed [] ss.attestation_duties in
    let (once, covered) = fanout_subnets_lem subscribed [] ss.attestation_duties in
    let extra = dial_subnets-AreExtra r.chain shuffled [] subnets in
    (
      emit_duties_all r.phases slot ss (λ s. contains subscribed s || contains subnets s)
          ss.attestation_duties (λ k d e. ground (arith, covered k d e)),
      λ s. ground (arith, once s),
      λ p. ground (arith, extra.once p),
    )
