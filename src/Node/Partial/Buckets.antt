-- ===== src/Node/Partial/Buckets.antt =====
-- node/partial.go: one bucket, its votes, and what is sent of it.
pub mod Votes
pub mod Sending
use eth_slot_sim.Base.{
  ℕ, zero, suc, ◌+◌, ◌/◌, Bool, true, false, not, ◌&&◌, ◌||◌, List, [], ◌∷◌, Option, none, some,
  ltb, leb, ◌==◌, if◌then◌else◌, length, replicate, contains, lookup, store, keep, range_from,
}

-- The library's operations on a bitmap, which is a list of bytes.
pub record BitmapOps : Type 0 where
  pub get : List ℕ → ℕ → Bool
  pub set_bit : List ℕ → ℕ → List ℕ
  pub or_with : List ℕ → List ℕ → List ℕ
  pub ones_count : List ℕ → ℕ

abbrev pub new_committee_bitmap : ℕ → List ℕ
new_committee_bitmap size = replicate ((size + 7) / 8) 0

pub record BucketPeerState : Type 0 where
  pub available : List ℕ
  pub pending_want : List ℕ

-- `attestations` has the signature of each position that is held; a position without a count has
-- the count 0.
pub record PartialBucket : Type 0 where
  pub data_label : ℕ
  pub attestations : List (ℕ × ℕ)
  pub validating : List ℕ
  pub validated : List ℕ
  pub send_count : List (ℕ × ℕ)
  pub request_count : List (ℕ × ℕ)
  pub peers : List (ℕ × BucketPeerState)

abbrev pub new_partial_bucket : ℕ → PartialBucket
new_partial_bucket data_label = record {
  data_label = data_label;
  attestations = [];
  validating = [];
  validated = [];
  send_count = [];
  request_count = [];
  peers = [];
}

abbrev pub new_peer_state : ℕ → BucketPeerState
new_peer_state size = record {
  available = new_committee_bitmap size;
  pending_want = new_committee_bitmap size;
}

abbrev pub peer : PartialBucket → ℕ → ℕ → BucketPeerState
peer b p size = elim (lookup p b.peers) [ none ↦ new_peer_state size | some s ↦ s ]

abbrev pub is_held : PartialBucket → ℕ → Bool
is_held b pos = elim (lookup pos b.attestations) [ none ↦ false | some signature ↦ true ]

-- One turn of the loop of `addReceived`, on a position that is not held.
abbrev pub park : ℕ → ℕ → PartialBucket → PartialBucket
park pos signature b = record b {
  attestations = store pos signature b.attestations;
  validating = pos ∷ b.validating;
}

-- The fresh positions are the second part.
unfoldable pub add_received : List (ℕ × ℕ) → PartialBucket → PartialBucket × List ℕ
add_received [] b = (b, [])
add_received ((pos, signature) ∷ rest) b =
    let held = add_received rest b in
    let (parked, fresh) = add_received rest (park pos signature b) in
    if is_held b pos then held else (parked, pos ∷ fresh)

-- A set that is listed in ascending order, with one element more.
abbrev pub insert : ℕ → List ℕ → List ℕ
insert x [] = x ∷ []
insert x (y ∷ ys) =
    let rest = insert x ys in if x == y then y ∷ ys else (if ltb x y then x ∷ y ∷ ys else y ∷ rest)

unfoldable pub publish_vote : ℕ → ℕ → PartialBucket → PartialBucket
publish_vote pos signature b = if is_held b pos then b else record b {
  attestations = store pos signature b.attestations;
  validated = insert pos b.validated;
}

-- One turn of the loop of `markValidated`, on a position that is validating.
abbrev pub promote_one : ℕ → PartialBucket → PartialBucket
promote_one pos b = record b {
  validating = keep (λ q. not (q == pos)) b.validating;
  validated = insert pos b.validated;
}

-- The promoted positions are the second part.
unfoldable pub promote : List ℕ → PartialBucket → PartialBucket × List ℕ
promote [] b = (b, [])
promote (pos ∷ rest) b =
    let stale = promote rest b in
    let (done, promoted) = promote rest (promote_one pos b) in
    if contains b.validating pos then (done, pos ∷ promoted) else stale

abbrev pub count_of : ℕ → List (ℕ × ℕ) → ℕ
count_of pos counts = elim (lookup pos counts) [ none ↦ 0 | some n ↦ n ]

-- Whether a position is sent: under the cap, not held by the peer, and asked for by a gossip peer.
abbrev pub is_claimed : BitmapOps → ℕ → PartialBucket → BucketPeerState → Bool → ℕ → Bool
is_claimed bits max_peers b bps gossip_peer pos =
    ltb (count_of pos b.send_count) max_peers
    && not (bits.get bps.available pos)
    && (not gossip_peer || bits.get bps.pending_want pos)

abbrev pub set_all : BitmapOps → List ℕ → List ℕ → List ℕ
set_all bits [] bitmap = bitmap
set_all bits (pos ∷ rest) bitmap = set_all bits rest (bits.set_bit bitmap pos)

unfoldable pub count_up : List ℕ → List (ℕ × ℕ) → List (ℕ × ℕ)
count_up [] counts = counts
count_up (pos ∷ rest) counts = count_up rest (store pos (count_of pos counts + 1) counts)

-- `claimToSend`: the positions, and the bucket and the peer's state after the bookkeeping.
unfoldable pub claim_to_send :
    BitmapOps
    → ℕ
    → PartialBucket
    → BucketPeerState
    → Bool
    → List ℕ × PartialBucket × BucketPeerState
unfolding count_up
claim_to_send bits max_peers b bps gossip_peer =
    let claimed = keep (is_claimed bits max_peers b bps gossip_peer) b.validated in
    if gossip_peer && bits.ones_count bps.pending_want == 0 then ([], b, bps) else (
      claimed,
      record b { send_count = count_up claimed b.send_count },
      record bps { available = set_all bits claimed bps.available },
    )

-- Whether a position is requested of a peer: the peer has it, it is not held, and it is under the cap.
abbrev pub is_wanted : BitmapOps → ℕ → PartialBucket → List ℕ → ℕ → Bool
is_wanted bits max_iwant b available pos =
    bits.get available pos && not (is_held b pos) && ltb (count_of pos b.request_count) max_iwant

-- `selectIWantTargets` for one gossip peer, whose state is made where there is none.
unfoldable pub want_from : BitmapOps → ℕ → ℕ → ℕ → PartialBucket → PartialBucket × List ℕ
unfolding count_up
want_from bits max_iwant size p b =
    let bps = peer b p size in
    let wants = keep (is_wanted bits max_iwant b bps.available) (range_from 0 size) in
    (
      record b { peers = store p bps b.peers; request_count = count_up wants b.request_count },
      wants,
    )

-- The peers in the order of the map's iteration, each with its `gossipPeer` flag.
unfoldable pub select_iwant_targets :
    BitmapOps → ℕ → ℕ → List (ℕ × Bool) → PartialBucket → PartialBucket × List (ℕ × List ℕ)
unfolding want_from
select_iwant_targets bits max_iwant size [] b = (b, [])
select_iwant_targets bits max_iwant size ((p, gossip_peer) ∷ rest) b =
    let passed_over = select_iwant_targets bits max_iwant size rest b in
    let (b1, wants) = want_from bits max_iwant size p b in
    let (b2, targets) = select_iwant_targets bits max_iwant size rest b1 in
    if gossip_peer then (b2, (p, wants) ∷ targets) else passed_over
