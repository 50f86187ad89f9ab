-- ===== src/Node/Partial/Publishing/Served.antt =====
-- node/partial.go: what one bucket sends to one peer.
use eth_slot_sim.Base.{
  ℕ, suc, ◌≡◌, refl, ap, subst, ◌∙◌, inl, inr, Bool, true, false, ◌&&◌, List, [], ◌∷◌, map, Option,
  none, some, arith, if◌then◌else◌, ◌==◌, length, keep, contains, Within, ==_refl, lookup, store,
  Bool-cases,
}
use eth_slot_sim.Node.Partial.Buckets.{
  new_committee_bitmap, BucketPeerState, PartialBucket, peer, is_held, is_claimed, claim_to_send,
}
use eth_slot_sim.Node.Partial.Buckets.Votes.{IsTracked}
use eth_slot_sim.Node.Partial.Buckets.Sending.{EachOnce, IsCapped, claim_to_send-Counted}
use eth_slot_sim.Node.Partial.Publishing.{
  PartialPeerState, Metadata, Batch, Tick, wire_key, bucket_metadata, signatures_of, encode_batch,
  batch_of, to_list, claim, serve_bucket,
}

-- What is true of a bucket between ticks.
pub record IsServable (t : Tick) (b : PartialBucket) : Type 0 where
  pub tracked : IsTracked b
  pub once : EachOnce b.validated
  pub sends : IsCapped t.max_peers b.send_count
  pub asks : IsCapped t.max_iwant b.request_count

-- The part of a bucket that a tick leaves alone.
abbrev pub View : Type 0
View = ℕ × List (ℕ × ℕ) × List ℕ

abbrev pub view : PartialBucket → View
view b = (b.data_label, b.attestations, b.validated)

-- A batch has, of one bucket, validated positions and their signatures.
abbrev pub IsOf : View → Batch → Type 0
IsOf v batch =
    (batch.attestation_data ≡ v.0)
    × ((positions : List ℕ) × (batch.attestor_indices ≡ map wire_key positions)
        × (signatures_of v.1 positions ≡ some batch.signatures)
        × Within positions v.2)

abbrev pub AllOf : View → List Batch → Type 0
AllOf v [] = Unit {0}
AllOf v (batch ∷ rest) = IsOf v batch × AllOf v rest

found_of_held :
    (found : Option ℕ)
    → elim found as (λ o. Bool) [ none ↦ false | some s ↦ true ] ≡ true
    → (signature : ℕ) × (found ≡ some signature)
found_of_held none h = cc
found_of_held (some s) h = (s, refl)

signatures_of-held :
    (b : PartialBucket) (positions : List ℕ)
    → ((p : ℕ) → contains positions p ≡ true → is_held b p ≡ true)
    → (signatures : List ℕ) × (signatures_of b.attestations positions ≡ some signatures)
unfolding signatures_of
signatures_of-held b [] h = ([], refl)
signatures_of-held b (pos ∷ rest) h =
    let (signature, e) =
      found_of_held (lookup pos b.attestations) (h pos (ground (arith, ==_refl pos))) in
    let (more, f) = signatures_of-held b rest (λ p k. h p (ground (arith, k))) in
    (signature ∷ more, rw (e, f) refl)

contains-keep :
    (f : ℕ → Bool) (xs : List ℕ) (p : ℕ) → contains (keep f xs) p ≡ true → contains xs p ≡ true
contains-keep f [] p h = h
contains-keep f (x ∷ xs) p h = ground (arith, contains-keep f xs p)

-- What is claimed is validated, and the rest of the bucket is as it was.
record IsClaim (t : Tick) (b b' : PartialBucket) (positions : List ℕ) : Type 0 where
  servable : IsServable t b'
  same : view b' ≡ view b
  valid : Within positions b.validated

claim_to_send-IsClaim :
    (t : Tick) (b : PartialBucket) (bps : BucketPeerState) (gossip_peer : Bool)
    → IsServable t b
    → let (positions, b', _) = claim_to_send t.bits t.max_peers b bps gossip_peer in
      IsClaim t b b' positions
unfolding claim_to_send
claim_to_send-IsClaim t b bps gossip_peer s =
    let (counted, _) = claim_to_send-Counted t.bits t.max_peers b bps gossip_peer s.once in
    elim (Bool-cases (gossip_peer && t.bits.ones_count bps.pending_want == 0)) [
      | inl quiet ↦ rw quiet (record { servable = s; same = refl; valid = λ p h. cc })
      | inr served ↦
          let caps : IsCapped t.max_peers
              (claim_to_send t.bits t.max_peers b bps gossip_peer).1.send_count =
            counted.capped s.sends in
          rw served (record {
            servable = record {
              tracked = record { held = s.tracked.held; apart = s.tracked.apart };
              once = s.once;
              sends = rw served at caps;
              asks = s.asks;
            };
            same = refl;
            valid = contains-keep (is_claimed t.bits t.max_peers b bps gossip_peer) b.validated;
          })
    ]

claim-IsClaim :
    (t : Tick) (p : ℕ) (ps : PartialPeerState) (b : PartialBucket)
    → IsServable t b
    → let (positions, b', _) = claim t p ps b in
      IsClaim t b b' positions × (t.requests_partial p ≡ false → positions ≡ [])
claim-IsClaim t p ps b s = elim (Bool-cases (t.requests_partial p)) [
  | inl asked ↦ rw asked (claim_to_send-IsClaim t b (peer b p t.size) ps.gossip_peer s, λ h. cc)
  | inr classic ↦ rw classic (record { servable = s; same = refl; valid = λ q h. cc }, λ h. refl)
]

-- The batch of a claim is made, and is of the bucket.
batch_of-claim :
    (t : Tick) (b b' : PartialBucket) (positions : List ℕ)
    → IsClaim t b b' positions
    → (batches : List Batch) × (batch_of b' positions ≡ some batches)
      × AllOf (view b) batches
      × (positions ≡ [] → batches ≡ [])
unfolding encode_batch
batch_of-claim t b b' [] c = ([], refl, tt, λ h. refl)
batch_of-claim t b b' (pos ∷ rest) c =
    let some_positions : (suc (length rest) == 0) ≡ false = ground arith in
    let held : (p : ℕ) → contains (pos ∷ rest) p ≡ true → is_held b' p ≡ true = λ p h.
      c.servable.tracked.held p
      ∙ ground (arith, c.valid p h, ap (λ (v : View). contains v.2 p) c.same) in
    let (signatures, e) = signatures_of-held b' (pos ∷ rest) held in
    (
      record {
        attestation_data = b'.data_label;
        attestor_indices = map wire_key (pos ∷ rest);
        signatures = signatures;
      }
          ∷ [],
      rw (some_positions, e) refl,
      (
        (
          ap (λ (v : View). v.0) c.same,
          (
            pos ∷ rest,
            refl,
            subst (λ (v : View). signatures_of v.1 (pos ∷ rest) ≡ some signatures) c.same e,
            c.valid,
          ),
        ),
        tt,
      ),
      λ h. cc,
    )

pub record IsServed (t : Tick) (p : ℕ) (b : PartialBucket)
    (served : PartialBucket × List Batch × List Metadata) : Type 0 where
  pub servable : IsServable t served.0
  pub same : view served.0 ≡ view b
  pub sent : AllOf (view b) served.1
  pub classic : t.requests_partial p ≡ false → served.1 ≡ []

-- A bucket that is servable is served, and stays so.
pub serve_bucket-IsServed :
    (t : Tick) (p : ℕ) (ps : PartialPeerState) (wants : List ℕ) (b : PartialBucket)
    → IsServable t b
    → (served : PartialBucket × List Batch × List Metadata) × (serve_bucket t p ps wants b
        ≡ some served)
      × IsServed t p b served
unfolding serve_bucket
serve_bucket-IsServed t p ps wants b s =
    let (positions, b1, bps) = claim t p ps b in
    let (c, classic) = claim-IsClaim t p ps b s in
    let (batches, e, sent, none_sent) = batch_of-claim t b b1 positions c in
    let cleared : BucketPeerState = record bps { pending_want = new_committee_bitmap t.size } in
    let b2 : PartialBucket = record b1 { peers = store p cleared b1.peers } in
    let md = bucket_metadata t.bits t.size t.group b2 wants ps.send_available_list in
    (
      (b2, batches, if ps.gossip_peer then to_list md else []),
      rw e refl,
      record {
        servable = record {
          tracked = record { held = c.servable.tracked.held; apart = c.servable.tracked.apart };
          once = c.servable.once;
          sends = c.servable.sends;
          asks = c.servable.asks;
        };
        same = c.same;
        sent = sent;
        classic = λ h. none_sent (classic h);
      },
    )
