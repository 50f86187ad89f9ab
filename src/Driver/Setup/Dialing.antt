-- ===== src/Driver/Setup/Dialing.antt =====
-- driver/runner.go: the registration of a slot, `dialDuties` and `endSlot`. The peers that a slot dialed,
-- and their disconnection, are no part of the slot state here.
use eth_slot_sim.Base.{
  ℕ, ◌-◌, ◌&&◌, ◌||◌, List, [], ◌∷◌, Option, none, some, ltb, ◌==◌, if◌then◌else◌, contains, store,
}
use eth_slot_sim.Schedule.{AttestDuty}
use eth_slot_sim.Driver.Slot.{SlotState}
use eth_slot_sim.Driver.Finality.{dial_subnets, reap_finality}
use eth_slot_sim.Driver.Setup.{Runner}

-- `r.slots[slot] = ss`
unfoldable pub register_slot : ℕ → SlotState → Runner → Runner
register_slot slot ss r = record r { slots = store slot ss r.slots }

-- The subnets of the duties that are not subscribed, each once, in the order of the duties.
unfoldable pub fanout_subnets : List ℕ → List ℕ → List AttestDuty → List ℕ
fanout_subnets subscribed seen [] = []
fanout_subnets subscribed seen (d ∷ ds) =
    let skip = contains subscribed d.subnet || contains seen d.subnet in
    let rest = fanout_subnets subscribed (if skip then seen else d.subnet ∷ seen) ds in
    if skip then rest else d.subnet ∷ rest

-- The topics that are joined and the peers that are dialed, with the seeded order of the subscribers.
unfoldable pub dial_duties : Runner → (ℕ → List ℕ) → SlotState → List ℕ × List ℕ
dial_duties r shuffled ss =
    let subnets = fanout_subnets ss.attestation_subnets_subscribed [] ss.attestation_duties in
    (subnets, (dial_subnets r.chain shuffled [] subnets).0)

abbrev pub remove_slot : ℕ → List (ℕ × SlotState) → List (ℕ × SlotState)
remove_slot n [] = []
remove_slot n ((k, ss) ∷ rest) =
    let more = remove_slot n rest in if k == n then more else (k, ss) ∷ more

-- The keys of the partial buckets that the end of a slot prunes: of attestations, and of the round.
unfoldable pub end_slot : ℕ → Runner → Runner × Option ℕ × Option ℕ
end_slot slot r =
    let (chain, pruned) = reap_finality slot r.chain in
    let ended = record r { slots = remove_slot slot r.slots } in
    let attestations =
      if r.chain.partial && (r.phases.attest && ltb 0 slot) then some (slot - 1) else none in
    if r.phases.decoupled
    then (record ended { chain = chain }, attestations, pruned)
    else (ended, attestations, none)
