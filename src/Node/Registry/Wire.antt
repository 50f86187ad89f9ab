-- ===== src/Node/Registry/Wire.antt =====
-- validator/, metrics/tracer.go and node/registry.go: what is published is received under the
-- identity that it was published under.
use eth_slot_sim.Base.{
  ℕ, ◌+◌, ◌==◌, ◌^◌, ◌<◌, ◌≡◌, refl, ap, ◌∙◌, Bool, false, Option, some, arith, ℤ, pos, negsuc,
}
use eth_slot_sim.Node.Kinds
use eth_slot_sim.Node.Kinds.{Kind}
use eth_slot_sim.Metrics.Ids.{
  MsgId, block_id, consensus_block_id, execution_payload_id, ptc_vote_id, attest_id, aggregate_id,
  column_id, sync_message_id, sync_contribution_id, ac_vote_id, finality_vote_id,
  finality_aggregate_id,
}
use eth_slot_sim.Node.Registry.{
  Descriptor, consensus, text_eq, has_prefix, find_topic, find_prefix, exact_or, descriptor_for,
}
use eth_slot_sim.Node.Registry.Numbers.{subnet_topic}
use eth_slot_sim.Node.Registry.Decimals.{decimal-StartsWithDigit}
use eth_slot_sim.Node.Registry.Table.{prefix_entry, registry_lookups}
use eth_slot_sim.Node.Registry.Decoding.{Received, kind_of, identity_of, get_origin, decode}
use eth_slot_sim.Validator.{
  PbMessage, Message, voted_of, make_block, make_consensus_block, make_execution_payload,
  make_attestation, make_aggregate, make_column, make_sync_message, make_sync_contribution,
  make_ac_vote, make_finality_vote, make_finality_aggregate, make_ptc_vote,
}

-- The arguments of a publish: the fields of its identity, and what else the message is made of.
pub data Publication : Type 0 where
  block consensus_block execution_payload : (slot origin size : ℕ) → Publication
  attestation : (slot subnet val origin : ℕ) (voted : ℤ) → Publication
  aggregate column sync_contribution : (slot subnet origin : ℕ) → Publication
  sync_message : (slot subnet origin : ℕ) (voted : ℤ) → Publication
  ac_vote : (slot val origin : ℕ) (voted : ℤ) → Publication
  finality_vote : (fslot subnet val origin : ℕ) → Publication
  finality_aggregate : (fslot subnet origin vps : ℕ) → Publication
  ptc_vote : (slot val origin : ℕ) (present : Bool) → Publication

-- What the tracer is told of it.
abbrev pub published_id : Publication → MsgId
published_id (block slot origin _) = block_id slot origin
published_id (consensus_block slot origin _) = consensus_block_id slot origin
published_id (execution_payload slot origin _) = execution_payload_id slot origin
published_id (attestation slot subnet val origin _) = attest_id slot subnet val origin
published_id (aggregate slot subnet origin) = aggregate_id slot subnet origin
published_id (column slot col origin) = column_id slot col origin
published_id (sync_contribution slot subnet origin) = sync_contribution_id slot subnet origin
published_id (sync_message slot subnet origin _) = sync_message_id slot (pos subnet) origin
published_id (ac_vote slot val origin _) = ac_vote_id slot val origin
published_id (finality_vote fslot subnet val origin) = finality_vote_id fslot subnet val origin
published_id (finality_aggregate fslot subnet origin _) = finality_aggregate_id fslot subnet origin
published_id (ptc_vote slot val origin _) = ptc_vote_id slot val origin

abbrev pub publisher : Publication → ℕ
publisher (block _ origin _) = origin
publisher (consensus_block _ origin _) = origin
publisher (execution_payload _ origin _) = origin
publisher (attestation _ _ _ origin _) = origin
publisher (aggregate _ _ origin) = origin
publisher (column _ _ origin) = origin
publisher (sync_contribution _ _ origin) = origin
publisher (sync_message _ _ origin _) = origin
publisher (ac_vote _ _ origin _) = origin
publisher (finality_vote _ _ _ origin) = origin
publisher (finality_aggregate _ _ origin _) = origin
publisher (ptc_vote _ _ origin _) = origin

-- The fields of the identity are 32-bit numbers.
abbrev pub Fits : ℕ → Type 0
Fits n = n < 2 ^ 32

abbrev pub Fit : Publication → Type 0
Fit (block slot origin _) = Fits slot × Fits origin
Fit (consensus_block slot origin _) = Fits slot × Fits origin
Fit (execution_payload slot origin _) = Fits slot × Fits origin
Fit (attestation slot subnet val origin _) = Fits slot × Fits subnet × Fits val × Fits origin
Fit (aggregate slot subnet origin) = Fits slot × Fits subnet × Fits origin
Fit (column slot col origin) = Fits slot × Fits col × Fits origin
Fit (sync_contribution slot subnet origin) = Fits slot × Fits subnet × Fits origin
Fit (sync_message slot subnet origin _) = Fits slot × Fits subnet × Fits origin
Fit (ac_vote slot val origin _) = Fits slot × Fits val × Fits origin
Fit (finality_vote fslot subnet val origin) = Fits fslot × Fits subnet × Fits val × Fits origin
Fit (finality_aggregate fslot subnet origin _) = Fits fslot × Fits subnet × Fits origin
Fit (ptc_vote slot val origin _) = Fits slot × Fits val × Fits origin

module _ (size_of : PbMessage → ℕ) where
  unfoldable pub made : Publication → Message
  unfolding make_block make_consensus_block make_execution_payload make_attestation make_aggregate
      make_column make_sync_message make_sync_contribution make_ac_vote make_finality_vote
      make_finality_aggregate make_ptc_vote
  made (block slot origin size) = make_block slot origin size
  made (consensus_block slot origin size) = make_consensus_block slot origin size
  made (execution_payload slot origin size) = make_execution_payload slot origin size
  made (attestation slot subnet val origin voted) =
      make_attestation size_of slot subnet val origin voted
  made (aggregate slot subnet origin) = make_aggregate size_of slot subnet origin
  made (column slot col origin) = make_column size_of slot col origin
  made (sync_contribution slot subnet origin) = make_sync_contribution size_of slot subnet origin
  made (sync_message slot subnet origin voted) = make_sync_message size_of slot subnet origin voted
  made (ac_vote slot val origin voted) = make_ac_vote size_of slot val origin voted
  made (finality_vote fslot subnet val origin) = make_finality_vote size_of fslot subnet val origin
  made (finality_aggregate fslot subnet origin vps) =
      make_finality_aggregate size_of fslot subnet origin vps
  made (ptc_vote slot val origin present) = make_ptc_vote size_of slot val origin present

-- The fields that protobuf writes in 32 bits.
abbrev pub IsWire : PbMessage → Type 0
IsWire (PbMessage.block slot origin _) = Fits slot × Fits origin
IsWire (PbMessage.attestation slot subnet val origin voted _) =
    Fits slot × Fits subnet × Fits val × Fits origin × Fits voted
IsWire (PbMessage.aggregate slot subnet origin _) = Fits slot × Fits subnet × Fits origin
IsWire (PbMessage.column slot col origin _) = Fits slot × Fits col × Fits origin
IsWire (PbMessage.sync_message slot subnet origin voted _) =
    Fits slot × Fits subnet × Fits origin × Fits voted
IsWire (PbMessage.sync_contribution slot subnet origin _) = Fits slot × Fits subnet × Fits origin
IsWire (PbMessage.ac_vote slot val origin voted _) = Fits slot × Fits val × Fits origin × Fits voted
IsWire (PbMessage.finality_vote fslot subnet val origin _) =
    Fits fslot × Fits subnet × Fits val × Fits origin
IsWire (PbMessage.finality_aggregate fslot subnet origin _) = Fits fslot × Fits subnet × Fits origin
IsWire (PbMessage.consensus_block slot origin _) = Fits slot × Fits origin
IsWire (PbMessage.execution_payload slot origin _) = Fits slot × Fits origin
IsWire (PbMessage.ptc_vote slot val origin present _) = Fits slot × Fits val × Fits origin

voted_of-Fits : (voted : ℤ) → Fits (voted_of voted)
voted_of-Fits (pos origin) = omega arith
voted_of-Fits (negsuc n) = omega arith

module _ (size_of : PbMessage → ℕ) where
  made-IsWire : (p : Publication) → IsWire (made size_of p).content
  unfolding made
  made-IsWire (attestation slot subnet val origin voted) = omega (arith, voted_of-Fits voted)
  made-IsWire (sync_message slot subnet origin voted) = omega (arith, voted_of-Fits voted)
  made-IsWire (ac_vote slot val origin voted) = omega (arith, voted_of-Fits voted)
  made-IsWire (block slot origin size) = omega arith
  made-IsWire _ = omega arith

  -- The topic of a publication resolves to the kind of its message.
  made-found :
      (p : Publication)
      → (d : Descriptor) × (descriptor_for registry_lookups (made size_of p).topic ≡ some d)
        × (d.kind ≡ kind_of (made size_of p).content)
  unfolding made descriptor_for find_topic find_prefix exact_or text_eq has_prefix subnet_topic
  made-found (sync_message slot subnet origin voted) =
      let s = decimal-StartsWithDigit subnet in
      let apart : (99 == 48 + s.digit) ≡ false = grind (arith, s.below) in
      (
        prefix_entry Kinds.sync_message "/eth2/00000000/sync_committee_" consensus false,
        rw (s.shape, apart) refl,
        refl,
      )
  made-found (block slot origin size) = (_, refl, refl)
  made-found _ = (_, refl, refl)

  -- The identity of the message is what the tracer is told, where its numbers have 32 bits.
  made-id :
      (p : Publication)
      → Fit p
      → (kind_of (made size_of p).content ≡ (published_id p).kind)
        × (identity_of (made size_of p).content ≡ (published_id p).identity)
        × (get_origin (made size_of p).content ≡ publisher p)
  unfolding made
  made-id (block slot origin size) h = ground arith
  made-id _ h = ground arith

-- Where protobuf unmarshals, for its kind, each message of 32-bit fields that it marshals, and the
-- numbers of a publish's identity have 32 bits: what the node publishes decodes, by the table of the
-- kinds, to the message, at the instant of its receipt; the kind and the identity are those that
-- the tracer was told, and the origin is the publisher.
pub decode-made :
    {W : Type 0} (size_of : PbMessage → ℕ) (marshal : PbMessage → W)
    (unmarshal : Kind → W → Option PbMessage)
    → ((m : PbMessage) → IsWire m → unmarshal (kind_of m) (marshal m) ≡ some m)
    → (p : Publication) (at : ℕ) → Fit p
    → let m = made size_of p in
      (r : Received) × (decode unmarshal registry_lookups m.topic (marshal m.content) at ≡ some r)
      × (r.object ≡ m.content)
      × (r.at ≡ at)
      × (r.kind ≡ (published_id p).kind)
      × (r.id ≡ (published_id p).identity)
      × (r.origin ≡ publisher p)
unfolding decode
decode-made size_of marshal unmarshal inverse p at h =
    let m = made size_of p in
    let (d, found, kind) = made-found size_of p in
    let (k, i, g) = made-id size_of p h in
    let back : unmarshal d.kind (marshal m.content) ≡ some m.content =
      ap (λ c. unmarshal c (marshal m.content)) kind ∙ inverse m.content (made-IsWire size_of p) in
    (
      record {
        kind = d.kind;
        object = m.content;
        id = identity_of m.content;
        origin = get_origin m.content;
        at = at;
      },
      rw (found, back) refl,
      refl,
      refl,
      kind ∙ k,
      i,
      g,
    )
