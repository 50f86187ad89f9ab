-- ===== src/Node/Partial/Incoming.antt =====
-- node/partial.go: what a manager does with an RPC of a peer, with a verified batch, and with a
-- vote of the node's own.
pub mod Keeping
pub mod Pruning
use eth_slot_sim.Base.{
  ℕ, Bool, true, false, not, ◌&&◌, ◌||◌, List, [], ◌∷◌, ◌++◌, Option, none, some, ltb, leb, ◌==◌,
  if◌then◌else◌, length, any, lookup, store,
}
use eth_slot_sim.Node.Kinds.{Kind}
use eth_slot_sim.Node.Partial.Buckets.{
  BitmapOps, BucketPeerState, PartialBucket, peer, add_received, publish_vote, promote, set_all,
}
use eth_slot_sim.Node.Partial.Groups.{
  Topic, partial_kind_for, PartialGroup, PartialManager, find_group, put_group, get_or_create_group,
  bucket, with_bucket, is_below_floor,
}

-- The decoded parts of an RPC.
pub record PartsMetadata : Type 0 where
  pub attestation_data : ℕ
  pub available : List ℕ
  pub requests : List ℕ

pub record BatchedAttestation : Type 0 where
  pub attestation_data : ℕ
  pub attestor_indices : List ℕ
  pub signatures : List ℕ

-- The manager after an RPC, whether the sender was marked as a gossip peer, what was submitted to
-- the verifier by attestation_data, and whether there was no error.
pub record Reply : Type 0 where
  pub manager : PartialManager
  pub marked : Bool
  pub submitted : List (ℕ × List ℕ)
  pub accepted : Bool

abbrev pub zip : List ℕ → List ℕ → List (ℕ × ℕ)
zip (p ∷ ps) (s ∷ ss) = (p, s) ∷ zip ps ss
zip _ _ = []

module _ (bits : BitmapOps) (size_of : Kind → ℕ → ℕ → ℕ) where
  -- The peer's bitmaps take in what it advertises and requests.
  abbrev pub note_metadata : ℕ → PartsMetadata → PartialGroup → PartialGroup
  note_metadata from md g =
      let b = bucket md.attestation_data g in
      let bps = peer b from g.committee_size in
      let noted = record bps {
        available = bits.or_with bps.available md.available;
        pending_want = bits.or_with bps.pending_want md.requests;
      } in
      with_bucket md.attestation_data (record b { peers = store from noted b.peers }) g

  abbrev pub is_gossip : PartsMetadata → Bool
  is_gossip md = ltb 0 (bits.ones_count md.available) || ltb 0 (bits.ones_count md.requests)

  unfoldable pub receive_metadatas :
      Topic → ℕ → ℕ → List PartsMetadata → PartialManager → Bool → Reply
  unfolding get_or_create_group
  receive_metadatas topic key from [] m marked = record {
    manager = m;
    marked = marked;
    submitted = [];
    accepted = true;
  }
  receive_metadatas topic key from (md ∷ mds) m marked =
      elim (get_or_create_group size_of topic key m) [
        | none ↦ record { manager = m; marked = marked; submitted = []; accepted = false }
        | some (m1, g) ↦
            receive_metadatas topic key from mds
              (record m1 { groups = put_group (note_metadata from md g) m1.groups })
              (marked || is_gossip md)
      ]

  abbrev pub is_malformed : BatchedAttestation → PartialGroup → Bool
  is_malformed batch g =
      not (length batch.attestor_indices == length batch.signatures)
      || any (λ p. leb g.committee_size p) batch.attestor_indices

  -- The batch is parked and its sender is known to hold it; the second part is what is fresh.
  abbrev pub take_batch : ℕ → BatchedAttestation → PartialGroup → PartialGroup × List ℕ
  take_batch from batch g =
      let b = bucket batch.attestation_data g in
      let bps = peer b from g.committee_size in
      let (b1, fresh) = add_received (zip batch.attestor_indices batch.signatures) b in
      let holds = record bps { available = set_all bits batch.attestor_indices bps.available } in
      (
        with_bucket batch.attestation_data (record b1 { peers = store from holds b1.peers }) g,
        fresh,
      )

  unfoldable pub receive_batches :
      Topic → ℕ → ℕ → List BatchedAttestation → PartialManager → Bool → Reply
  unfolding get_or_create_group add_received
  receive_batches topic key from [] m marked = record {
    manager = m;
    marked = marked;
    submitted = [];
    accepted = true;
  }
  receive_batches topic key from (batch ∷ rest) m marked =
      elim (get_or_create_group size_of topic key m) [
        | none ↦ record { manager = m; marked = marked; submitted = []; accepted = false }
        | some (m1, g) ↦
            let (g1, fresh) = take_batch from batch g in
            let m2 = record m1 { groups = put_group g1 m1.groups } in
            let reply = receive_batches topic key from rest m2 marked in
            if is_malformed batch g
            then record { manager = m1; marked = marked; submitted = []; accepted = false }
            else (if length fresh == 0
                then reply
                else record reply { submitted = (batch.attestation_data, fresh) ∷ reply.submitted })
      ]

  -- `onIncomingRPC` on an RPC that decodes.
  unfoldable pub on_incoming_rpc :
      Topic → ℕ → ℕ → List PartsMetadata → List BatchedAttestation → PartialManager → Reply
  unfolding receive_metadatas receive_batches
  on_incoming_rpc topic key from mds batches m = elim (partial_kind_for topic) [
    | none ↦ record { manager = m; marked = false; submitted = []; accepted = false }
    | some (kind, subnet) ↦
        let noted = receive_metadatas topic key from mds m false in
        if is_below_floor m.floor kind key
        then record { manager = m; marked = false; submitted = []; accepted = true }
        else (if noted.accepted
            then receive_batches topic key from batches noted.manager noted.marked
            else noted)
  ]

-- `markValidated`; the second part is the positions whose arrival is reported.
unfoldable pub mark_validated : Topic → ℕ → ℕ → List ℕ → PartialManager → PartialManager × List ℕ
unfolding promote
mark_validated topic key d positions m = elim (find_group topic key m.groups) [
  | none ↦ (m, [])
  | some g ↦ elim (lookup d g.buckets) [
    | none ↦ (m, [])
    | some b ↦
        let (b1, promoted) = promote positions b in
        (record m { groups = put_group (with_bucket d b1 g) m.groups }, promoted)
  ]
]

-- `publishLocal`; `none` is its panic.
unfoldable pub publish_local :
    (Kind → ℕ → ℕ → ℕ) → Topic → ℕ → ℕ → ℕ → ℕ → PartialManager → Option PartialManager
unfolding get_or_create_group publish_vote
publish_local size_of topic key pos signature d m = elim (get_or_create_group size_of topic key m) [
  | none ↦ none
  | some (m1, g) ↦ some (record m1 {
    groups = put_group (with_bucket d (publish_vote pos signature (bucket d g)) g) m1.groups;
  })
]
