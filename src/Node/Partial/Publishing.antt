-- ===== src/Node/Partial/Publishing.antt =====
-- node/partial.go: one publish tick of a group, and the keys of groups on the wire. A map is visited
-- in the order of its list, and the messages of an action are not marshaled.
pub mod Keys
pub mod Served
pub mod Ticks
pub mod Actions
use eth_slot_sim.Base.{
  ℕ, zero, suc, ◌+◌, ◌-◌, ◌*◌, ◌/◌, ◌%◌, ◌^◌, Bool, true, false, not, ◌&&◌, ◌||◌, List, [], ◌∷◌,
  ◌++◌, Option, none, some, ◌>>=◌, ltb, ◌==◌, if◌then◌else◌, length, drop, replicate, map, lookup,
  store,
}
use eth_slot_sim.Node.Partial.Buckets.{
  BitmapOps, new_committee_bitmap, BucketPeerState, PartialBucket, peer, set_all, claim_to_send,
  select_iwant_targets,
}
use eth_slot_sim.Node.Partial.Groups.{Topic, PartialGroup, PartialManager, find_group, put_group}

pub record PartialPeerState : Type 0 where
  pub gossip_peer : Bool
  pub send_available_list : Bool

abbrev pub PeerStates : Type 0
PeerStates = List (ℕ × PartialPeerState)

pub record Metadata : Type 0 where
  pub slot : ℕ
  pub attestation_data : ℕ
  pub available : List ℕ
  pub requests : List ℕ

pub record Batch : Type 0 where
  pub attestation_data : ℕ
  pub attestor_indices : List ℕ
  pub signatures : List ℕ

-- A control envelope and a data envelope.
pub record Action : Type 0 where
  pub metadatas : List Metadata
  pub batches : List Batch

abbrev pub is_nonempty : List ℕ → Bool
is_nonempty xs = not (length xs == 0)

abbrev pub bitmap_of : BitmapOps → ℕ → List ℕ → List ℕ
bitmap_of bits size positions = set_all bits positions (new_committee_bitmap size)

-- `uint32(group)`
abbrev pub wire_key : ℕ → ℕ
wire_key group = group % 2 ^ 32

unfoldable pub bucket_metadata : BitmapOps → ℕ → ℕ → PartialBucket → List ℕ → Bool → Option Metadata
bucket_metadata bits size group b wants include_available =
    let available =
      if include_available && is_nonempty b.validated
      then bitmap_of bits size b.validated
      else [] in
    let requests = if is_nonempty wants then bitmap_of bits size wants else [] in
    if length available == 0 && length requests == 0
    then none
    else some (record {
      slot = wire_key group;
      attestation_data = b.data_label;
      available = available;
      requests = requests;
    })

-- The signatures of positions; `none` is a nil dereference, at a position that is not held.
unfoldable pub signatures_of : List (ℕ × ℕ) → List ℕ → Option (List ℕ)
signatures_of attestations [] = some []
signatures_of attestations (pos ∷ rest) = lookup pos attestations >>= λ signature.
    signatures_of attestations rest >>= λ more. some (signature ∷ more)

unfoldable pub encode_batch : PartialBucket → List ℕ → Option Batch
encode_batch b positions = signatures_of b.attestations positions >>= λ signatures. some (record {
  attestation_data = b.data_label;
  attestor_indices = map wire_key positions;
  signatures = signatures;
})

-- A batch is sent where there are positions.
abbrev pub batch_of : PartialBucket → List ℕ → Option (List Batch)
batch_of b positions =
    if is_nonempty positions
    then (encode_batch b positions >>= λ batch. some (batch ∷ []))
    else some []

abbrev pub to_list : Option Metadata → List Metadata
to_list none = []
to_list (some md) = md ∷ []

-- What the ticks of one group share.
pub record Tick : Type 0 where
  pub bits : BitmapOps
  pub max_peers : ℕ
  pub max_iwant : ℕ
  pub size : ℕ
  pub group : ℕ
  pub requests_partial : ℕ → Bool

-- The buckets by attestation_data, each with what is requested of its peers in this tick.
abbrev pub Selected : Type 0
Selected = List (ℕ × PartialBucket × List (ℕ × List ℕ))

abbrev pub buckets_of : Selected → List (ℕ × PartialBucket)
buckets_of sel = map (λ x. (x.0, x.1)) sel

abbrev pub wants_of : ℕ → List (ℕ × List ℕ) → List ℕ
wants_of p targets = elim (lookup p targets) [ none ↦ [] | some wants ↦ wants ]

abbrev pub gossip_flags : PeerStates → List (ℕ × Bool)
gossip_flags states = map (λ s. (s.0, s.1.gossip_peer)) states

module _ (t : Tick) where
  -- The requests are chosen for all buckets before a peer is served.
  unfoldable pub select_all : PeerStates → List (ℕ × PartialBucket) → Selected
  select_all states [] = []
  select_all states ((d, b) ∷ rest) =
      let (b1, targets) = select_iwant_targets t.bits t.max_iwant t.size (gossip_flags states) b in
      (d, b1, targets) ∷ select_all states rest

  -- What is claimed for a peer, with the bucket and the peer's state after it.
  abbrev pub claim : ℕ → PartialPeerState → PartialBucket → List ℕ × PartialBucket × BucketPeerState
  claim p ps b =
      let bps = peer b p t.size in
      if t.requests_partial p
      then claim_to_send t.bits t.max_peers b bps ps.gossip_peer
      else ([], b, bps)

  -- One bucket for one peer: its batch, then its requests are cleared, then its metadata.
  unfoldable pub serve_bucket :
      ℕ
      → PartialPeerState
      → List ℕ
      → PartialBucket
      → Option (PartialBucket × List Batch × List Metadata)
  unfolding claim_to_send encode_batch bucket_metadata
  serve_bucket p ps wants b =
      let (positions, b1, bps) = claim p ps b in
      let cleared = record bps { pending_want = new_committee_bitmap t.size } in
      let b2 = record b1 { peers = store p cleared b1.peers } in
      let md = bucket_metadata t.bits t.size t.group b2 wants ps.send_available_list in
      batch_of b1 positions >>= λ batches.
      some (b2, batches, if ps.gossip_peer then to_list md else [])

  unfoldable pub serve_buckets : ℕ → PartialPeerState → Selected → Option (Selected × Action)
  unfolding serve_bucket
  serve_buckets p ps [] = some ([], record { metadatas = []; batches = [] })
  serve_buckets p ps ((d, b, targets) ∷ rest) =
      serve_bucket p ps (wants_of p targets) b >>= λ served. serve_buckets p ps rest >>= λ more.
      some (
        (d, served.0, targets) ∷ more.0,
        record { metadatas = served.2 ++ more.1.metadatas; batches = served.1 ++ more.1.batches },
      )

  abbrev pub is_idle : Action → Bool
  is_idle a = length a.metadatas == 0 && length a.batches == 0

  -- A gossip peer that is served is dropped.
  abbrev pub kept : ℕ × PartialPeerState → PeerStates → PeerStates
  kept s states = if s.1.gossip_peer then states else s ∷ states

  -- The peers in turn, while the consumer takes the actions; the buckets, the peers that are left,
  -- and the actions.
  unfoldable pub serve_peers :
      (ℕ → Action → Bool)
      → PeerStates
      → Selected
      → Option (Selected × PeerStates × List (ℕ × Action))
  unfolding serve_buckets
  serve_peers takes [] sel = some (sel, [], [])
  serve_peers takes (s ∷ states) sel = serve_buckets s.0 s.1 sel >>= λ served.
      let action = served.1 in
      let rest = serve_peers takes states served.0 in
      if is_idle action
      then (rest >>= λ r. some (r.0, kept s r.1, r.2))
      else (if takes s.0 action
          then (rest >>= λ r. some (r.0, kept s r.1, (s.0, action) ∷ r.2))
          else some (served.0, kept s states, (s.0, action) ∷ []))

-- The settings of a tick of a group.
abbrev pub tick_of : BitmapOps → (ℕ → Bool) → ℕ → PartialManager → PartialGroup → Tick
tick_of bits requests_partial key m g = record {
  bits = bits;
  max_peers = m.max_peers;
  max_iwant = m.max_iwant;
  size = g.committee_size;
  group = key;
  requests_partial = requests_partial;
}

-- The tick of the group that is found.
abbrev pub publish_found :
    BitmapOps
    → (ℕ → Bool)
    → (ℕ → Action → Bool)
    → ℕ
    → PeerStates
    → PartialManager
    → Option PartialGroup
    → Option (PartialManager × PeerStates × List (ℕ × Action))
publish_found bits requests_partial takes key states m none = some (m, states, [])
publish_found bits requests_partial takes key states m (some g) =
    let t = tick_of bits requests_partial key m g in
    let ticked = serve_peers t takes states (select_all t states g.buckets) >>= λ served. some (
      record m { groups = put_group (record g { buckets = buckets_of served.0 }) m.groups },
      served.1,
      served.2,
    ) in
    if g.sealed || length g.buckets == 0 then some (m, states, []) else ticked

-- `publishActions` for a topic and a key: the manager, the peers that are left, and the actions.
unfoldable pub publish_actions :
    BitmapOps
    → (ℕ → Bool)
    → (ℕ → Action → Bool)
    → Topic
    → ℕ
    → PeerStates
    → PartialManager
    → Option (PartialManager × PeerStates × List (ℕ × Action))
unfolding serve_peers select_all
publish_actions bits requests_partial takes topic key states m =
    publish_found bits requests_partial takes key states m (find_group topic key m.groups)

-- `onEmitGossip`: the peers that gossip selects are marked, unless metadata is off.
unfoldable pub on_emit_gossip : Bool → List ℕ → PeerStates → PeerStates
on_emit_gossip disabled [] states = states
on_emit_gossip disabled (p ∷ ps) states =
    let marked =
      on_emit_gossip disabled ps
        (store p (record { gossip_peer = true; send_available_list = true }) states) in
    if disabled then states else marked
