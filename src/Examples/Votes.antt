-- ===== src/Examples/Votes.antt =====
-- A bucket, a manager and a finality burst of the partial transport. The bitmap of the examples is a
-- list of the positions that are set.
use eth_slot_sim.Base.{
  occurrences, ℕ, ◌+◌, ◌≤◌, ◌<◌, ◌≡◌, refl, Bool, true, false, List, [], ◌∷◌, ◌++◌, arith, pos,
  length, contains,
}
use eth_slot_sim.Node.Kinds.{attestation}
use eth_slot_sim.Node.Partial.Buckets.{
  BitmapOps, BucketPeerState, PartialBucket, new_partial_bucket, count_of, select_iwant_targets,
}
use eth_slot_sim.Node.Partial.Buckets.Votes.{
  BucketEvent, receives, publishes, verifies, run_events, IsTracked, run_events_once,
}
use eth_slot_sim.Node.Partial.Buckets.Sending.{requested, select_iwant_targets-capped}
use eth_slot_sim.Node.Partial.Groups.{PartialManager, attestation_subnet, prune}
use eth_slot_sim.Node.Partial.Incoming.Pruning.{
  ManagerEvent, rpc, run_manager, IsPrunedUpTo, prune-IsPrunedUpTo,
}
use eth_slot_sim.Driver.Finality.{FinalityState}

abbrev pub listed : BitmapOps
listed = record {
  get = contains;
  set_bit = λ bits p. p ∷ bits;
  or_with = λ bits more. more ++ bits;
  ones_count = length;
}

-- Two positions are received, the own vote of position 2 is stored, the batch is verified twice.
abbrev vote_events : List BucketEvent
vote_events =
    receives ((0, 70) ∷ (1, 71) ∷ [])
    ∷ publishes 2 72
    ∷ verifies (0 ∷ 1 ∷ [])
    ∷ verifies (0 ∷ 1 ∷ 2 ∷ [])
    ∷ []

new_bucket-IsTracked : IsTracked (new_partial_bucket 9)
new_bucket-IsTracked = record { held = λ p. refl; apart = λ p. refl }

run_events_once_example :
    let (b', reported) = run_events vote_events (new_partial_bucket 9) in
    IsTracked b'
    × ((p : ℕ)
        → (occurrences p reported ≤ 1)
          × (contains [] p ≡ true → occurrences p reported ≡ 0)
          × (0 < occurrences p reported → contains b'.validated p ≡ true))
run_events_once_example = run_events_once vote_events (new_partial_bucket 9) new_bucket-IsTracked

abbrev pub two_votes : PartialBucket
two_votes = record (new_partial_bucket 9) {
  attestations = (0, 70) ∷ (1, 71) ∷ [];
  validated = 0 ∷ 1 ∷ [];
}

abbrev three_peers : List (BucketPeerState × Bool)
three_peers =
    (record { available = []; pending_want = [] }, false)
    ∷ (record { available = 0 ∷ []; pending_want = 1 ∷ [] }, true)
    ∷ (record { available = []; pending_want = [] }, false)
    ∷ []

abbrev advertised : PartialBucket
advertised = record two_votes {
  peers =
      (4, record { available = 0 ∷ 3 ∷ []; pending_want = [] })
      ∷ (5, record { available = 3 ∷ []; pending_want = [] })
      ∷ [];
}

select_iwant_targets-capped_example :
    let (b', targets) = select_iwant_targets listed 1 4 ((4, true) ∷ (5, true) ∷ []) advertised in
    (count_of 3 b'.request_count ≡ occurrences 3 (requested targets) + 0)
    × (count_of 3 b'.request_count ≤ 1)
    × (false ≡ true → occurrences 3 (requested targets) ≡ 0)
select_iwant_targets-capped_example =
    select_iwant_targets-capped listed 1 4 ((4, true) ∷ (5, true) ∷ []) advertised
      (λ p. omega arith) 3

abbrev empty_manager : PartialManager
empty_manager = record { max_peers = 2; max_iwant = 1; groups = []; floor = [] }

-- A straggler of slot 3 that arrives after the prune, and a batch of slot 8.
abbrev stragglers : List ManagerEvent
stragglers =
    rpc (attestation_subnet 1) 3 6 []
      (record { attestation_data = 9; attestor_indices = 0 ∷ []; signatures = 70 ∷ [] } ∷ [])
    ∷ rpc (attestation_subnet 1) 8 6 []
        (record { attestation_data = 9; attestor_indices = 0 ∷ []; signatures = 70 ∷ [] } ∷ [])
    ∷ []

prune-IsPrunedUpTo_example :
    IsPrunedUpTo attestation 5
      (run_manager listed (λ kind subnet group. 4) stragglers (prune attestation 5 empty_manager))
prune-IsPrunedUpTo_example =
    prune-IsPrunedUpTo listed (λ kind subnet group. 4) attestation 5 stragglers empty_manager refl

abbrev round_state : FinalityState
round_state = record {
  duties =
      record { subnet = 0; val = 3; position = pos 0 }
      ∷ record { subnet = 2; val = 8; position = pos 4 }
      ∷ record { subnet = 2; val = 9; position = pos 7 }
      ∷ [];
  own_subnet = pos 0;
  vote_dialed = [];
  aggregate_subnets = [];
  aggregate_subscribed = [];
  aggregate_dialed = [];
  dropped = false;
}
