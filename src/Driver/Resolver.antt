-- ===== src/Driver/Resolver.antt =====
-- driver/partial.go: the identities of the partial transport, recovered from the plan.
pub mod Identities
use eth_slot_sim.Base.{
  ℕ, List, [], ◌∷◌, Option, none, some, ◌>>=◌, ℤ, pos, negsuc, minus_one, ◌==◌, if◌then◌else◌,
  length, get_elem?, find_index,
}
use eth_slot_sim.Schedule.{Assignment, AttesterRef, SlotPlan}
use eth_slot_sim.Schedule.Position.{finality_val_at, finality_cell_size, host_of}
use eth_slot_sim.Node.Kinds.{Kind, attestation, finality_vote}

-- The committee of slot `group` on a subnet. `none` is a panic of `sp.Committees[ci]`.
unfoldable pub committee : Assignment → ℕ → ℕ → Option (List AttesterRef)
committee a subnet group = elim (get_elem? a.slots group) [
  | none ↦ some []
  | some plan ↦ elim (find_index (λ s. s == subnet) 0 plan.subnet_of) [
    | none ↦ some []
    | some ci ↦ get_elem? plan.committees ci
  ]
]

unfoldable pub committee_size : Assignment → Kind → ℕ → ℕ → Option ℕ
unfolding committee
committee_size a attestation subnet group = do seats ← committee a subnet group; some (length seats)
committee_size a finality_vote subnet group = finality_cell_size a (pos subnet) group
committee_size a _ subnet group = some 0

abbrev pub nobody : ℤ × ℤ
nobody = (minus_one, minus_one)

-- The loop over the seats of a committee.
unfoldable pub seat_at : List AttesterRef → ℕ → ℤ × ℤ
seat_at [] position = nobody
seat_at (r ∷ rs) position =
    let rest = seat_at rs position in
    if r.position == position then (pos r.val, pos r.node) else rest

-- The validator and its host, for the value that `FinalityValAt` returns.
unfoldable pub hosted_at : Assignment → ℤ → ℤ × ℤ
hosted_at a (pos v) = (pos v, host_of a (pos v))
hosted_at a (negsuc n) = nobody

unfoldable pub identity : Assignment → Kind → ℕ → ℕ → ℕ → Option (ℤ × ℤ)
unfolding committee seat_at hosted_at
identity a attestation subnet group position = do
  seats ← committee a subnet group
  some (seat_at seats position)
identity a finality_vote subnet group position = do
  v ← finality_val_at a (pos subnet) group (pos position)
  some (hosted_at a v)
identity a _ subnet group position = some nobody
